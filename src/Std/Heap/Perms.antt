-- ===== src/Std/Heap/Perms.antt =====
-- The loops of container/heap rearrange the items and lose none.
use mathlib.Core.List.{Perm, perm_middle, append-nil}
use mathlib.Core.List.Perm
use localsend_switchboard.Prelude.{
  ℕ, zero, suc, ◌+◌, ◌*◌, ◌≤◌, ◌<◌, ◌≡◌, refl, ap, ◌∙◌, [], ◌∷◌, ◌++◌, arith, ◌==◌, if◌then◌else◌,
  length, set, take, length-set, length-append, ltb, Bool-cases, inl, inr,
}
use localsend_switchboard.Std.Heap.{
  TtlHeapItem, TtlHeap, item_at, swap, up, down, smaller_child, parent, push,
}

pub length-swap : (h : TtlHeap) (i j : ℕ) → length (swap h i j) ≡ length h
unfolding swap
length-swap h i j =
    length-set (set h i (item_at h j)) j (item_at h i) ∙ length-set h i (item_at h j)

pub item_at-set :
    (h : TtlHeap) (i k : ℕ) (v : TtlHeapItem)
    → i < length h
    → item_at (set h i v) k ≡ (if i == k then v else item_at h k)
unfolding item_at
item_at-set [] i k v b = absurd (omega arith)
item_at-set (x ∷ h) zero zero v b = refl
item_at-set (x ∷ h) zero (suc k) v b = ground arith
item_at-set (x ∷ h) (suc i) zero v b = ground arith
item_at-set (x ∷ h) (suc i) (suc k) v b = ground (arith, item_at-set h i k v)

pub item_at-swap :
    (h : TtlHeap) (i j k : ℕ)
    → i < length h
    → j < length h
    → item_at (swap h i j) k
      ≡ (if j == k then item_at h i else if i == k then item_at h j else item_at h k)
unfolding swap
item_at-swap h i j k hi hj = ground (
  arith,
  item_at-set (set h i (item_at h j)) j k (item_at h i),
  item_at-set h i k (item_at h j),
  length-set h i (item_at h j),
)

set-perm :
    (h : TtlHeap) (i : ℕ) (v : TtlHeapItem) → i < length h → Perm (item_at h i ∷ set h i v) (v ∷ h)
unfolding item_at
set-perm [] i v b = absurd (omega arith)
set-perm (x ∷ h) zero v b = Perm.swap v x h
set-perm (x ∷ h) (suc i) v b =
    Perm.trans (Perm.swap x (item_at h i) (set h i v))
      (Perm.trans (Perm.cons x (set-perm h i v (omega arith))) (Perm.swap v x h))

pub swap-perm : (h : TtlHeap) (i j : ℕ) → i < length h → j < length h → Perm (swap h i j) h
unfolding swap
swap-perm h i j hi hj =
    let b = set h i (item_at h j) in
    let at_j : item_at b j ≡ item_at h j = ground (arith, item_at-set h i j (item_at h j)) in
    let inner = set-perm h i (item_at h j) hi in
    let outer = set-perm b j (item_at h i) (omega (arith, length-set h i (item_at h j))) in
    Perm.cons_inv (Perm.trans (rw at_j at outer) inner)

pub up-perm : (f : ℕ) (h : TtlHeap) (j : ℕ) → j < length h → Perm (up f h j) h
unfolding up
up-perm zero h j b = Perm.refl h
up-perm (suc f) h j b =
    let above : parent j < length h = omega arith in
    let step =
      Perm.trans
        (up-perm f (swap h (parent j) j) (parent j) (omega (arith, length-swap h (parent j) j)))
        (swap-perm h (parent j) j above b) in
    ground (arith, step, Perm.refl h)

pub down-perm : (f : ℕ) (h : TtlHeap) (i n : ℕ) → n ≤ length h → Perm (down f h i n) h
unfolding down
down-perm zero h i n b = Perm.refl h
down-perm (suc f) h i n b = elim (Bool-cases (ltb (2 * i + 1) n)) [
  | inr e ↦ rw e (Perm.refl h)
  | inl e ↦
      let j = smaller_child h i n in
      let inside : j < n = unfold smaller_child in ground arith in
      let step =
        Perm.trans (down-perm f (swap h i j) j n (omega (arith, length-swap h i j)))
          (swap-perm h i j (ground arith) (omega arith)) in
      rw e (ground (arith, step, Perm.refl h))
]

pub append-perm : (h : TtlHeap) (x : TtlHeapItem) → Perm (h ++ x ∷ []) (x ∷ h)
append-perm h x = rw (append-nil h) at (perm_middle {a = x} h [])

-- Push adds the item.
pub push-perm : (h : TtlHeap) (x : TtlHeapItem) → Perm (push h x) (x ∷ h)
unfolding push
push-perm h x =
    Perm.trans
      (up-perm (suc (length h)) (h ++ x ∷ []) (length h) (omega (arith, length-append h (x ∷ []))))
      (append-perm h x)

take-append-item_at : (n : ℕ) (h : TtlHeap) → length h ≡ suc n → take n h ++ item_at h n ∷ [] ≡ h
unfolding item_at
take-append-item_at zero (x ∷ []) e = refl
take-append-item_at (suc n) (x ∷ h) e = ap (◌∷◌ x) (take-append-item_at n h (omega arith))
take-append-item_at n h e = absurd (omega arith)

-- Cutting off the last item.
pub cut-perm : (n : ℕ) (h : TtlHeap) → length h ≡ suc n → Perm (item_at h n ∷ take n h) h
cut-perm n h e =
    Perm.trans (Perm.symm (append-perm (take n h) (item_at h n)))
      (rw (take-append-item_at n h e) (Perm.refl h))
