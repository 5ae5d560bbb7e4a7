-- ===== src/Std/Heap/Sift.antt =====
-- `up` and `down` restore the heap order; Push and Pop keep it.
use localsend_switchboard.Prelude.{
  ℕ, zero, suc, ◌+◌, ◌-◌, ◌*◌, ◌≤◌, ◌<◌, ◌≡◌, ◌⊎◌, inl, inr, arith, ltb, ◌==◌, length, Bool-cases,
}
use localsend_switchboard.Std.Heap.{TtlHeap, time_at, swap, up, down, smaller_child, less, parent}
use localsend_switchboard.Std.Heap.Order.{IsHeap, RisingAt, SinkingAt}
use localsend_switchboard.Std.Heap.Perms.{length-swap, item_at-swap}

swap-RisingAt :
    (h : TtlHeap) (j : ℕ)
    → j < length h
    → 0 < j
    → RisingAt h j
    → time_at h j < time_at h (parent j)
    → RisingAt (swap h (parent j) j) (parent j)
swap-RisingAt h j b pos r below =
    let at = λ (k : ℕ). item_at-swap h (parent j) j k (omega arith) b in
    let size = length-swap h (parent j) j in
    record {
      edges = λ c p q t. ground (arith, at c, at (parent c), size, r.edges c, r.bridged c);
      bridged = λ c p q t u.
          ground (arith, at c, at (parent (parent j)), size, r.edges c, r.edges (parent j));
    }

pub up-IsHeap :
    (f : ℕ) (h : TtlHeap) (j : ℕ)
    → j < f
    → j < length h
    → RisingAt h j
    → IsHeap (length h) (up f h j)
unfolding up
up-IsHeap zero h j f b r = absurd (omega arith)
up-IsHeap (suc k) h j f b r = elim (Bool-cases (parent j == j)) [
  | inl e ↦ rw e (λ c p q. r.edges c p q (ground arith))
  | inr e ↦ elim (Bool-cases (less h j (parent j))) [
    | inr n ↦ rw (e, n) (λ c p q. ground (arith, r.edges c))
    | inl y ↦
        let rest =
          up-IsHeap k (swap h (parent j) j) (parent j) (ground arith)
            (ground (arith, length-swap h (parent j) j))
            (swap-RisingAt h j b (ground arith) r (ground arith)) in
        rw (e, y) (rw (length-swap h (parent j) j) at rest)
  ]
]

-- `j` is the child of `i` that expires first.
record IsSmallerChild (n : ℕ) (h : TtlHeap) (i j : ℕ) : Type 0 where
  inside : j < n
  child : (j ≡ 2 * i + 1) ⊎ (j ≡ 2 * i + 2)
  least : (c : ℕ) → 0 < c → c < n → parent c ≡ i → time_at h j ≤ time_at h c

smaller_child-IsSmallerChild :
    (n : ℕ) (h : TtlHeap) (i : ℕ) → 2 * i + 1 < n → IsSmallerChild n h i (smaller_child h i n)
unfolding smaller_child
smaller_child-IsSmallerChild n h i b = grind arith

swap-SinkingAt :
    (n : ℕ) (h : TtlHeap) (i j : ℕ)
    → n ≤ length h
    → i < n
    → SinkingAt n h i
    → IsSmallerChild n h i j
    → time_at h j < time_at h i
    → SinkingAt n (swap h i j) j
swap-SinkingAt n h i j b inside s m below =
    let at = λ (k : ℕ). item_at-swap h i j k (omega arith) (omega (arith, m.inside)) in
    record {
      edges = λ c p q t.
          ground (arith, at c, at (parent c), m.child, s.edges c, s.bridged j, m.least c);
      bridged = λ c p q t u. ground (arith, at c, at (parent j), m.child, s.edges c);
    }

pub down-IsHeap :
    (f : ℕ) (h : TtlHeap) (i n : ℕ)
    → n - i < f
    → n ≤ length h
    → SinkingAt n h i
    → IsHeap n (down f h i n)
unfolding down
down-IsHeap zero h i n f b s = absurd (omega arith)
down-IsHeap (suc k) h i n f b s = elim (Bool-cases (ltb (2 * i + 1) n)) [
  | inr e ↦ rw e (λ c p q. ground (arith, s.edges c))
  | inl e ↦
      let m = smaller_child-IsSmallerChild n h i (ground arith) in
      elim (Bool-cases (less h (smaller_child h i n) i)) [
        | inr none_below ↦ rw (e, none_below) (λ c p q. ground (arith, s.edges c, m.least c))
        | inl below ↦
            rw (e, below)
              (down-IsHeap k (swap h i (smaller_child h i n)) (smaller_child h i n) n
                (ground (arith, m.child, m.inside))
                (ground (arith, length-swap h i (smaller_child h i n)))
                (swap-SinkingAt n h i (smaller_child h i n) b (ground arith) s m (ground arith)))
      ]
]
