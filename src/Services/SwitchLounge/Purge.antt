-- ===== src/Services/SwitchLounge/Purge.antt =====
-- A tick of the cleaning goroutine forgets what has expired, and nothing else.
use mathlib.Core.List.{Mem, Perm, not-mem-nil, mem-cons_of_mem, eq-or-mem_of_mem-cons}
use mathlib.Core.List.Perm
use mathlib.Core.Logic.Or
use native.Mathlib.Bridge.{le_prop}
use localsend_switchboard.Prelude.{
  ℕ, zero, suc, ◌≤◌, ◌<◌, ◌≡◌, ◌↔◌, subst, [], ◌∷◌, arith, ltb, Bytes-discrete, length, length-perm,
  Bool-cases, Option-cases, inl, inr,
}
use localsend_switchboard.Prelude.Assoc
use localsend_switchboard.Std.Heap.{TtlHeapItem, TtlHeap, item_at, time_at}
use localsend_switchboard.Std.Heap
use localsend_switchboard.Std.Heap.Order.{IsHeap}
use localsend_switchboard.Std.Heap.Queue.{pop_lem, pop-Popped}
use localsend_switchboard.Services.SwitchLounge.{SwitchLounge, purge_loop, purge}
use localsend_switchboard.Services.SwitchLounge.Inv.{Inv}

-- A bound on every place is a bound on every member.
earliest_of_mem :
    (h : TtlHeap) (t : ℕ) {x : TtlHeapItem}
    → ((k : ℕ) → k < length h → t ≤ time_at h k)
    → Mem x h
    → t ≤ x.expire_at
unfolding item_at
earliest_of_mem [] t b m = absurd (not-mem-nil m)
earliest_of_mem (y ∷ h) t b m =
    Or.elim le_prop (eq-or-mem_of_mem-cons m) (λ e. rw e (b 0 (omega arith)))
      (earliest_of_mem h t (λ k q. b (suc k) (omega arith)))

-- The entries that are left after the tick.
abbrev pub Kept : ℕ → TtlHeap → TtlHeap → Type 0
Kept now h left = (x : TtlHeapItem) → Mem x left ↔ (Mem x h × (now < x.expire_at))

Kept-later :
    (now : ℕ) (h : TtlHeap) → ((k : ℕ) → k < length h → suc now ≤ time_at h k) → Kept now h h
Kept-later now h b = λ x. (λ m. (m, earliest_of_mem h (suc now) b m), λ (m, _). m)

Kept-over :
    (now : ℕ) (h rest left : TtlHeap) (top : TtlHeapItem)
    → Perm (top ∷ rest) h
    → top.expire_at ≤ now
    → Kept now rest left
    → Kept now h left
Kept-over now h rest left top same over kept = λ x. (
  λ m.
      let (there, later) = (kept x).0 m in
      ((Perm.mem_iff same).0 (mem-cons_of_mem top there), later),
  λ (m, later). (kept x).1 (
    Or.elim squash₁ (eq-or-mem_of_mem-cons ((Perm.mem_iff same).1 m))
        (λ e. absurd (expired x e later)) (λ t. t),
    later,
  ),
)
  where
    expired : (x : TtlHeapItem) → x ≡ top → now < x.expire_at → ⊥
    expired x e later = ground arith

purge_loop-Kept :
    (f now : ℕ) (sl : SwitchLounge)
    → length sl.ttl_heap ≤ f
    → IsHeap (length sl.ttl_heap) sl.ttl_heap
    → Kept now sl.ttl_heap (purge_loop f now sl).ttl_heap
unfolding purge_loop
purge_loop-Kept zero now sl b ordered = Kept-later now sl.ttl_heap (λ k q. absurd (omega arith))
purge_loop-Kept (suc f) now sl b ordered = elim (Option-cases (Heap.pop sl.ttl_heap)) [
  | inl e ↦
      let none_left : (k : ℕ) → k < length sl.ttl_heap → suc now ≤ time_at sl.ttl_heap k = λ k q.
        let (x, rest, popped, p) = pop_lem sl.ttl_heap (omega arith) ordered in
        absurd (cc (e, popped)) in
      rw (e, purge_loop) (Kept-later now sl.ttl_heap none_left)
  | inr ((x, rest), e) ↦
      let p = pop-Popped sl.ttl_heap x rest ordered e in
      let top = item_at sl.ttl_heap 0 in
      let same : Perm (top ∷ rest) sl.ttl_heap =
        subst (λ y. Perm (y ∷ rest) sl.ttl_heap) p.first p.same in
      elim (Bool-cases (ltb now top.expire_at)) [
        | inl later ↦
            rw (e, purge_loop)
              (rw later (Kept-later now sl.ttl_heap λ k q. ground (arith, p.first, p.earliest k)))
        | inr over ↦
            let kept =
              purge_loop-Kept f now
                (record sl {
                  ttl_heap = rest;
                  forwarded_ids = Assoc.delete Bytes-discrete top.id sl.forwarded_ids;
                })
                (omega (arith, length-perm same)) p.ordered in
            rw (e, purge_loop)
              (rw over (Kept-over now sl.ttl_heap rest _ top same (ground arith) kept))
      ]
]

-- After a tick of the cleaner at `now`, from a state with the invariant, the heap has exactly the
-- entries that expire after `now`.
pub purge-Kept :
    (now : ℕ) (sl : SwitchLounge) → Inv sl → Kept now sl.ttl_heap (purge now sl).ttl_heap
unfolding purge
purge-Kept now sl v = purge_loop-Kept (length sl.ttl_heap) now sl (omega arith) v.cache.ordered
