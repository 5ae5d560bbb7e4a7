-- ===== src/Std/Heap.antt =====
-- Go's container/heap over a slice of items, with the methods of TTLHeap (services/switch_lounge.go):
-- Less compares expiry times, Swap exchanges two items, Push appends and Pop takes the last one.
-- A time is a number of nanoseconds. The loops of container/heap index inside the slice only; an
-- index outside it, where Go panics, reads a default here.
pub mod Order
pub mod Perms
pub mod Sift
pub mod Queue
use localsend_switchboard.Prelude.{
  ℕ, zero, suc, ◌+◌, ◌-◌, ◌*◌, ◌/◌, ◌≡◌, Bool, true, false, ◌&&◌, Option, none, some, List, [], ◌∷◌,
  ◌++◌, ltb, ◌==◌, if◌then◌else◌, Bytes, length, set, take,
}

pub record TtlHeapItem : Type 0 where
  pub id : Bytes
  pub expire_at : ℕ

abbrev pub TtlHeap : Type 0
TtlHeap = List TtlHeapItem

abbrev pub no_item : TtlHeapItem
no_item = record { id = []; expire_at = 0 }

unfoldable pub item_at : TtlHeap → ℕ → TtlHeapItem
item_at [] i = no_item
item_at (x ∷ h) zero = x
item_at (x ∷ h) (suc i) = item_at h i

abbrev pub time_at : TtlHeap → ℕ → ℕ
time_at h i = (item_at h i).expire_at

-- Less(i, j): the first expires before the second.
abbrev pub less : TtlHeap → ℕ → ℕ → Bool
less h i j = ltb (time_at h i) (time_at h j)

-- Swap(i, j)
unfoldable pub swap : TtlHeap → ℕ → ℕ → TtlHeap
swap h i j = set (set h i (item_at h j)) j (item_at h i)

abbrev pub parent : ℕ → ℕ
parent j = (j - 1) / 2

-- `heap.up`; every round goes to the parent, so `j` rounds and one are enough.
unfoldable pub up : ℕ → TtlHeap → ℕ → TtlHeap
up zero h j = h
up (suc f) h j =
    let rest = up f (swap h (parent j) j) (parent j) in
    if parent j == j then h else if less h j (parent j) then rest else h

-- The child of `i` that `heap.down` compares, among the first `n` items.
unfoldable pub smaller_child : TtlHeap → ℕ → ℕ → ℕ
smaller_child h i n =
    if ltb (2 * i + 2) n && less h (2 * i + 2) (2 * i + 1) then 2 * i + 2 else 2 * i + 1

-- `heap.down` among the first `n` items; every round goes to a child, so `n` rounds are enough.
unfoldable pub down : ℕ → TtlHeap → ℕ → ℕ → TtlHeap
unfolding smaller_child
down zero h i n = h
down (suc f) h i n =
    let j = smaller_child h i n in
    let rest = down f (swap h i j) j n in
    if ltb (2 * i + 1) n then (if less h j i then rest else h) else h

-- `heap.Push(h, x)`
unfoldable pub push : TtlHeap → TtlHeapItem → TtlHeap
unfolding up swap item_at
push h x = up (suc (length h)) (h ++ x ∷ []) (length h)

-- `heap.Pop(h)`; an empty heap is a panic, `none`.
unfoldable pub pop : TtlHeap → Option (TtlHeapItem × TtlHeap)
unfolding down swap item_at
pop h =
    if length h == 0
    then none
    else let n = length h - 1 in
      let sunk = down (suc n) (swap h 0 n) 0 n in some (item_at sunk n, take n sunk)
