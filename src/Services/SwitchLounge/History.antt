-- ===== src/Services/SwitchLounge/History.antt =====
-- What the cache is for: over any history within the lifetime of an entry, a message with the same
-- identifier is not let in a second time.
use mathlib.Core.List.{Mem, mem-cons_self, mem-cons_of_mem, mem-map_of_mem}
use mathlib.Core.List.Perm
use localsend_switchboard.Prelude.{
  ℕ, zero, suc, ◌+◌, ◌*◌, ◌≤◌, ◌<◌, ◌≡◌, subst, Bool, true, none, some, List, [], ◌∷◌, arith, Bytes,
  Bytes-discrete, length, Option-cases, inl, inr,
}
use localsend_switchboard.Prelude.Assoc
use localsend_switchboard.Prelude.AssocKeys.{not-mem_of_none}
use localsend_switchboard.Configs.{switch_id_cache_lifetime, switch_id_cache_max_entries}
use localsend_switchboard.Std.Channel.{Outcome, done, send}
use localsend_switchboard.Std.Heap.{TtlHeapItem, TtlHeap}
use localsend_switchboard.Std.Heap
use localsend_switchboard.Std.Heap.Perms.{push-perm}
use localsend_switchboard.Services.SwitchLounge.{
  SwitchLounge, written, second, make_room, offer, write_id, purge_loop, purge, read, close,
}
use localsend_switchboard.Services.SwitchLounge.Inv.{Inv, write_id-Inv, purge-Inv}
use localsend_switchboard.Services.SwitchLounge.Drain.{read-Inv, close-Inv}
use localsend_switchboard.Services.SwitchLounge.Purge.{purge-Kept}

-- What happens to a waiting room: a Write of a message with its identifier, a tick of the cleaner,
-- each at a time, a receive, and Close.
pub data Op : Type 0 where
  writes : ℕ → Bytes → ℕ → Op
  ticks : ℕ → Op
  reads closes : Op

abbrev pub left {ℓ} : {A : Type ℓ} → SwitchLounge → Outcome (A × SwitchLounge) → SwitchLounge
left sl (done (_, sl')) = sl'
left sl _ = sl

abbrev pub left_closed : SwitchLounge → Outcome SwitchLounge → SwitchLounge
left_closed sl (done sl') = sl'
left_closed sl _ = sl

-- The state that an operation leaves; one that waits changes nothing.
unfoldable pub step : SwitchLounge → Op → SwitchLounge
step sl (writes now id msg) = left sl (write_id now id msg sl)
step sl (ticks now) = purge now sl
step sl reads = left sl (read sl)
step sl closes = left_closed sl (close sl)

unfoldable pub run : SwitchLounge → List Op → SwitchLounge
run sl [] = sl
run sl (op ∷ ops) = run (step sl op) ops

-- Every operation keeps the invariant.
pub step-Inv : (sl : SwitchLounge) (op : Op) → Inv sl → Inv (step sl op)
unfolding step
step-Inv sl (writes now id msg) v = let (r, sl', e, _, v') = write_id-Inv now id msg sl v in rw e v'
step-Inv sl (ticks now) v = purge-Inv now sl v
step-Inv sl reads v = elim (read-Inv sl v) [
  | inl (_, _, e) ↦ rw e v
  | inr (inl (_, _, e)) ↦ rw e v
  | inr (inr (msg, sl', _, e, v')) ↦ rw e v'
]
step-Inv sl closes v = let (sl', e, _, v') = close-Inv sl v in rw e v'

-- After any history of Writes, ticks of the cleaner, receives and Close, from a state with the
-- invariant: the cache has at most 65536 identifiers, each of them once in the heap, which is in order,
-- and the waiting room holds at most its size.
pub run-Inv : (sl : SwitchLounge) (ops : List Op) → Inv sl → Inv (run sl ops)
unfolding run
run-Inv sl [] v = v
run-Inv sl (op ∷ ops) v = run-Inv (step sl op) ops (step-Inv sl op v)

-- The cleaner ticks before the time `t`.
abbrev pub IsBefore : ℕ → List Op → Type 0
IsBefore t [] = Unit
IsBefore t (ticks now ∷ ops) = (now < t) × IsBefore t ops
IsBefore t (writes _ _ _ ∷ ops) = IsBefore t ops
IsBefore t (reads ∷ ops) = IsBefore t ops
IsBefore t (closes ∷ ops) = IsBefore t ops

-- A Write into a cache with room keeps every entry, and adds one at most.
write_keeps :
    (now : ℕ) (id : Bytes) (msg : ℕ) (sl : SwitchLounge) (x : TtlHeapItem)
    → length sl.forwarded_ids < switch_id_cache_max_entries
    → Mem x sl.ttl_heap
    → Mem x (step sl (writes now id msg)).ttl_heap
      × (length (step sl (writes now id msg)).forwarded_ids ≤ suc (length sl.forwarded_ids))
unfolding step write_id make_room offer send
write_keeps now id msg sl x room m =
    let entry : TtlHeapItem = record {
      id = id;
      expire_at = now + switch_id_cache_lifetime * second;
    } in
    let kept : Mem x (Heap.push sl.ttl_heap entry) =
      (Perm.mem_iff (push-perm sl.ttl_heap entry)).1 (mem-cons_of_mem entry m) in
    let size = Assoc.length-put-le Bytes-discrete id true sl.forwarded_ids in
    (ground (arith, kept), ground (arith, size))

purge_loop-length :
    (f now : ℕ) (sl : SwitchLounge)
    → length (purge_loop f now sl).forwarded_ids ≤ length sl.forwarded_ids
unfolding purge_loop
purge_loop-length zero now sl = omega arith
purge_loop-length (suc f) now sl = elim (Option-cases (Heap.pop sl.ttl_heap)) [
  | inl e ↦ rw (e, purge_loop) (omega arith)
  | inr ((x, rest), e) ↦
      let top = Heap.item_at sl.ttl_heap 0 in
      let shorter = purge_loop-length f now (record sl {
        ttl_heap = rest;
        forwarded_ids = Assoc.delete Bytes-discrete top.id sl.forwarded_ids;
      }) in
      rw (e, purge_loop)
        (ground (arith, shorter, Assoc.length-delete-le Bytes-discrete top.id sl.forwarded_ids))
]

purge-length :
    (now : ℕ) (sl : SwitchLounge) → length (purge now sl).forwarded_ids ≤ length sl.forwarded_ids
unfolding purge
purge-length now sl = purge_loop-length (length sl.ttl_heap) now sl

read_keeps :
    (sl : SwitchLounge)
    → ((step sl reads).ttl_heap ≡ sl.ttl_heap) × ((step sl reads).forwarded_ids ≡ sl.forwarded_ids)
unfolding step read
read_keeps sl = ground arith

close_keeps :
    (sl : SwitchLounge)
    → ((step sl closes).ttl_heap ≡ sl.ttl_heap)
      × ((step sl closes).forwarded_ids ≡ sl.forwarded_ids)
unfolding step close
close_keeps sl = ground arith

-- An entry stays through every history with no tick at or after its expiry, while the cache has room.
run_keeps :
    (sl : SwitchLounge) (ops : List Op) (x : TtlHeapItem)
    → Inv sl
    → Mem x sl.ttl_heap
    → IsBefore x.expire_at ops
    → length sl.forwarded_ids + length ops ≤ switch_id_cache_max_entries
    → Mem x (run sl ops).ttl_heap
unfolding run step
run_keeps sl [] x v m b room = m
run_keeps sl (writes now id msg ∷ ops) x v m b room =
    let (kept, size) = write_keeps now id msg sl x (omega arith) m in
    run_keeps (step sl (writes now id msg)) ops x (step-Inv sl (writes now id msg) v) kept b
      (omega arith)
run_keeps sl (ticks now ∷ ops) x v m b room =
    run_keeps (purge now sl) ops x (purge-Inv now sl v) ((purge-Kept now sl v x).1 (m, b.0)) b.1
      (omega (arith, purge-length now sl))
run_keeps sl (reads ∷ ops) x v m b room =
    let (heap, ids) = read_keeps sl in
    run_keeps (step sl reads) ops x (step-Inv sl reads v) (rw heap m) b (rw ids (omega arith))
run_keeps sl (closes ∷ ops) x v m b room =
    let (heap, ids) = close_keeps sl in
    run_keeps (step sl closes) ops x (step-Inv sl closes v) (rw heap m) b (rw ids (omega arith))

-- The identifier of an entry is known.
known :
    (sl : SwitchLounge) (x : TtlHeapItem)
    → Inv sl
    → Mem x sl.ttl_heap
    → (b : Bool) × (Assoc.get? Bytes-discrete x.id sl.forwarded_ids ≡ some b)
known sl x v m = elim (Option-cases (Assoc.get? Bytes-discrete x.id sl.forwarded_ids)) [
  | inr h ↦ h
  | inl new ↦ absurd (
      not-mem_of_none Bytes-discrete x.id sl.forwarded_ids new
        ((Perm.mem_iff v.cache.same_ids).0 (mem-map_of_mem (λ y. y.id) m)))
]

rewrite_unchanged :
    (later : ℕ) (id : Bytes) (msg : ℕ) (sl : SwitchLounge) (b : Bool)
    → Assoc.get? Bytes-discrete id sl.forwarded_ids ≡ some b
    → step sl (writes later id msg) ≡ sl
unfolding step write_id
rewrite_unchanged later id msg sl b k = ground arith

accepted_entry :
    (now : ℕ) (id : Bytes) (msg : ℕ) (sl sl' : SwitchLounge)
    → Assoc.get? Bytes-discrete id sl.forwarded_ids ≡ none
    → write_id now id msg sl ≡ done (written, sl')
    → Mem (record { id = id; expire_at = now + switch_id_cache_lifetime * second }) sl'.ttl_heap
unfolding write_id offer send
accepted_entry now id msg sl sl' new e = elim (Option-cases (make_room sl)) [
  | inl none_left ↦ absurd (ground arith)
  | inr (roomy, made) ↦
      let entry : TtlHeapItem = record {
        id = id;
        expire_at = now + switch_id_cache_lifetime * second;
      } in
      let heap : Heap.push roomy.ttl_heap entry ≡ sl'.ttl_heap = ground (arith, made) in
      subst (λ h. Mem entry h) heap
        ((Perm.mem_iff (push-perm roomy.ttl_heap entry)).1 mem-cons_self)
]

-- Once Write has let a message in under a new identifier, a later Write under that identifier leaves
-- the waiting room as it is: after every history whose cleaner ticks lie within the lifetime of 300
-- seconds, as long as the cache has room for as many identifiers as the history has operations.
pub write_id_once :
    (now later : ℕ) (id : Bytes) (msg again : ℕ) (sl sl' : SwitchLounge) (ops : List Op)
    → Inv sl
    → Assoc.get? Bytes-discrete id sl.forwarded_ids ≡ none
    → write_id now id msg sl ≡ done (written, sl')
    → IsBefore (now + switch_id_cache_lifetime * second) ops
    → length sl'.forwarded_ids + length ops ≤ switch_id_cache_max_entries
    → step (run sl' ops) (writes later id again) ≡ run sl' ops
write_id_once now later id msg again sl sl' ops v new e before room =
    let entry : TtlHeapItem = record {
      id = id;
      expire_at = now + switch_id_cache_lifetime * second;
    } in
    let (r, sl'', e', _, v'') = write_id-Inv now id msg sl v in
    let same : sl'' ≡ sl' = cc in
    let v' : Inv sl' = subst Inv same v'' in
    let there = run_keeps sl' ops entry v' (accepted_entry now id msg sl sl' new e) before room in
    let (b, k) = known (run sl' ops) entry (run-Inv sl' ops v') there in
    rewrite_unchanged later id again (run sl' ops) b k
