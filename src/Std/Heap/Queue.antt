-- ===== src/Std/Heap/Queue.antt =====
-- Push and Pop make a priority queue of a slice in heap order.
use mathlib.Core.List.{Perm}
use mathlib.Core.List.Perm
use mathlib.Core.Path.{subst₂}
use localsend_switchboard.Prelude.{
  ℕ, zero, suc, ◌+◌, ◌-◌, ◌*◌, ◌≤◌, ◌<◌, ◌≡◌, refl, ◌∙◌, [], ◌∷◌, ◌++◌, arith, some, none, ltb,
  ◌==◌, length, take, length-append, Bool-cases, length-perm, inl, inr,
}
use localsend_switchboard.Std.Heap.{
  TtlHeapItem, TtlHeap, item_at, time_at, swap, down, smaller_child, parent, push, pop,
}
use localsend_switchboard.Std.Heap.Order.{IsHeap, RisingAt, SinkingAt, root_earliest}
use localsend_switchboard.Std.Heap.Perms.{
  length-swap, item_at-swap, up-perm, down-perm, swap-perm, cut-perm,
}
use localsend_switchboard.Std.Heap.Sift.{up-IsHeap, down-IsHeap}

item_at-append :
    (h : TtlHeap) (x : TtlHeapItem) (k : ℕ) → k < length h → item_at (h ++ x ∷ []) k ≡ item_at h k
unfolding item_at
item_at-append [] x k b = absurd (omega arith)
item_at-append (y ∷ h) x zero b = refl
item_at-append (y ∷ h) x (suc k) b = item_at-append h x k (omega arith)

item_at-take : (n : ℕ) (h : TtlHeap) (k : ℕ) → k < n → item_at (take n h) k ≡ item_at h k
unfolding item_at
item_at-take zero h k b = absurd (omega arith)
item_at-take (suc n) [] k b = refl
item_at-take (suc n) (y ∷ h) zero b = refl
item_at-take (suc n) (y ∷ h) (suc k) b = item_at-take n h k (omega arith)

-- Push keeps the heap order.
pub push-IsHeap :
    (h : TtlHeap) (x : TtlHeapItem) → IsHeap (length h) h → IsHeap (length (push h x)) (push h x)
unfolding push
push-IsHeap h x ordered =
    let grown = h ++ x ∷ [] in
    let size = length-append h (x ∷ []) in
    let start : RisingAt grown (length h) = record {
      edges = λ c p q t.
          ground (arith, size, ordered c, item_at-append h x c, item_at-append h x (parent c));
      bridged = λ c p q t u. omega (arith, size);
    } in
    let inside : length h < length grown = omega (arith, size) in
    rw (length-perm (up-perm (suc (length h)) grown (length h) inside))
      (up-IsHeap (suc (length h)) grown (length h) (omega arith) inside start)

-- `down` among the first `n` items leaves the others where they are.
item_at-down :
    (f : ℕ) (h : TtlHeap) (i n k : ℕ)
    → n ≤ length h
    → n ≤ k
    → item_at (down f h i n) k ≡ item_at h k
unfolding down
item_at-down zero h i n k b far = refl
item_at-down (suc f) h i n k b far = elim (Bool-cases (ltb (2 * i + 1) n)) [
  | inr e ↦ rw e
  | inl e ↦
      let j = smaller_child h i n in
      let inside : (i < j) × (j < n) = unfold smaller_child in ground arith in
      let rest =
        item_at-down f (swap h i j) j n k (omega (arith, length-swap h i j)) far
        ∙ item_at-swap h i j k (omega arith) (omega arith) in
      rw e (ground (arith, rest))
]

-- What Pop returns on a heap that is not empty: the first item, which expires no later than any
-- other, and a heap of the others.
pub record Popped (h : TtlHeap) (x : TtlHeapItem) (rest : TtlHeap) : Type 0 where
  pub first : x ≡ item_at h 0
  pub earliest : (k : ℕ) → k < length h → x.expire_at ≤ time_at h k
  pub same : Perm (x ∷ rest) h
  pub ordered : IsHeap (length rest) rest

module _ (h : TtlHeap) (n : ℕ) (size : length h ≡ suc n) (ordered : IsHeap (length h) h) where
  abbrev swapped : TtlHeap
  swapped = swap h 0 n

  abbrev sunk : TtlHeap
  sunk = down (suc n) swapped 0 n

  swapped_size : length swapped ≡ suc n
  swapped_size = length-swap h 0 n ∙ size

  sunk_size : length sunk ≡ suc n
  sunk_size =
      length-perm (down-perm (suc n) swapped 0 n (omega (arith, swapped_size))) ∙ swapped_size

  start : SinkingAt n swapped 0
  start =
      let at = λ (k : ℕ). item_at-swap h 0 n k (omega arith) (omega arith) in
      record {
        edges = λ c p q t. ground (arith, at c, at (parent c), ordered c);
        bridged = λ c p q t u. absurd (omega arith);
      }

  sunk-IsHeap : IsHeap n sunk
  sunk-IsHeap = down-IsHeap (suc n) swapped 0 n (omega arith) (omega (arith, swapped_size)) start

  top : item_at sunk n ≡ item_at h 0
  top =
      item_at-down (suc n) swapped 0 n n (omega (arith, swapped_size)) (omega arith)
      ∙ ground (arith, item_at-swap h 0 n n)

  sunk-Popped : Popped h (item_at sunk n) (take n sunk)
  sunk-Popped =
      let same : Perm (item_at sunk n ∷ take n sunk) h = Perm.trans (cut-perm n sunk sunk_size) (
        Perm.trans (down-perm (suc n) swapped 0 n (omega (arith, swapped_size)))
          (swap-perm h 0 n (omega arith) (omega arith))) in
      let left : length (take n sunk) ≡ n = omega (arith, length-perm same) in
      record {
        first = top;
        earliest = λ k b. rw top (root_earliest (length h) h k ordered b);
        same = same;
        ordered = λ c p q.
            ground
              (arith, left, sunk-IsHeap c, item_at-take n sunk c, item_at-take n sunk (parent c));
      }

-- Pop panics exactly on the empty heap.
pub pop-empty : pop [] ≡ none
unfolding pop
pop-empty = refl

-- On a heap that is not empty Pop succeeds: it returns an entry that expires no later than any other,
-- the one at the top, and leaves a heap of exactly the others.
pub pop_lem :
    (h : TtlHeap)
    → 0 < length h
    → IsHeap (length h) h
    → (x : TtlHeapItem) × (rest : TtlHeap) × (pop h ≡ some (x, rest)) × Popped h x rest
unfolding pop
pop_lem h b ordered =
    let n = length h - 1 in
    let size : length h ≡ suc n = omega arith in
    (
      item_at (sunk h n size ordered) n,
      take n (sunk h n size ordered),
      ground arith,
      sunk-Popped h n size ordered,
    )

-- The same, of a call that returned.
pub pop-Popped :
    (h : TtlHeap) (x : TtlHeapItem) (rest : TtlHeap)
    → IsHeap (length h) h
    → pop h ≡ some (x, rest)
    → Popped h x rest
unfolding pop
pop-Popped h x rest ordered e = elim (Bool-cases (length h == 0)) [
  | inl empty ↦ absurd (ground arith)
  | inr filled ↦
      let (x', rest', e', p) = pop_lem h (ground arith) ordered in
      let same_item : x' ≡ x = cc in
      let same_rest : rest' ≡ rest = cc in subst₂ (λ y r. Popped h y r) same_item same_rest p
]
