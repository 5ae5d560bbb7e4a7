-- ===== src/Std/Heap/Order.antt =====
-- The heap order among the first items of a slice, and the order with one gap in it.
use localsend_switchboard.Prelude.{ℕ, zero, suc, ◌≤◌, ◌<◌, ◌≡◌, ◌≢◌, arith, length}
use localsend_switchboard.Std.Heap.{TtlHeap, time_at, parent}

-- No item among the first `n` expires before its parent.
abbrev pub IsHeap : ℕ → TtlHeap → Type 0
IsHeap n h = (c : ℕ) → 0 < c → c < n → time_at h (parent c) ≤ time_at h c

-- The children of `i` do not expire before the parent of `i`.
abbrev pub IsBridged : ℕ → TtlHeap → ℕ → Type 0
IsBridged n h i =
    (c : ℕ) → 0 < c → c < n → parent c ≡ i → 0 < i → time_at h (parent i) ≤ time_at h c

-- Only the edge above `j` may be out of order.
pub record RisingAt (h : TtlHeap) (j : ℕ) : Type 0 where
  pub edges : (c : ℕ) → 0 < c → c < length h → c ≢ j → time_at h (parent c) ≤ time_at h c
  pub bridged : IsBridged (length h) h j

-- Only the edges below `i` may be out of order.
pub record SinkingAt (n : ℕ) (h : TtlHeap) (i : ℕ) : Type 0 where
  pub edges : (c : ℕ) → 0 < c → c < n → parent c ≢ i → time_at h (parent c) ≤ time_at h c
  pub bridged : IsBridged n h i

root_earliest_below :
    (k n : ℕ) (h : TtlHeap) (i : ℕ) → IsHeap n h → i < k → i < n → time_at h 0 ≤ time_at h i
root_earliest_below zero n h i ordered f b = absurd (omega arith)
root_earliest_below (suc k) n h i ordered f b =
    ground (arith, ordered i, root_earliest_below k n h (parent i) ordered)

-- The first item of a heap expires no later than any other.
pub root_earliest : (n : ℕ) (h : TtlHeap) (i : ℕ) → IsHeap n h → i < n → time_at h 0 ≤ time_at h i
root_earliest n h i ordered b = root_earliest_below (suc i) n h i ordered (omega arith) b
