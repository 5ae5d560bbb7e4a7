-- ===== src/Utils/Log/Sort.antt =====
-- Sorting by identifier, for files whose identifiers differ.
use localsend_switchboard.Prelude.{
  ℕ, suc, ◌≤◌, ◌≡◌, ◌≢◌, refl, sym, ap, ap₂, subst, ◌⊎◌, inl, inr, List, [], ◌∷◌, arith, leb,
  Bool-cases,
}
use localsend_switchboard.Entities.{RotatedLogFileName}
use localsend_switchboard.Utils.Log.{insert_by_id, sort_by_id}

abbrev Entries : Type 0
Entries = List RotatedLogFileName

-- A member, with its place.
abbrev pub In : RotatedLogFileName → Entries → Type 0
In e [] = ⊥
In e (x ∷ l) = (e ≡ x) ⊎ In e l

-- The identifiers rise strictly, from `lo` on.
abbrev pub Rises : ℕ → Entries → Type 0
Rises lo [] = Unit
Rises lo (x ∷ l) = (lo ≤ x.log_id) × Rises (suc x.log_id) l

abbrev pub AreDistinct : Entries → Type 0
AreDistinct [] = Unit
AreDistinct (x ∷ l) = ((y : RotatedLogFileName) → In y l → y.log_id ≢ x.log_id) × AreDistinct l

pub Rises-bound :
    (lo : ℕ) (l : Entries) (e : RotatedLogFileName) → Rises lo l → In e l → lo ≤ e.log_id
Rises-bound lo [] e r m = elim m [ ]
Rises-bound lo (x ∷ l) e (b, r) (inl same) = rw same b
Rises-bound lo (x ∷ l) e (b, r) (inr there) = omega (arith, Rises-bound (suc x.log_id) l e r there)

pub Rises-weaker : (lo lo' : ℕ) (l : Entries) → lo ≤ lo' → Rises lo' l → Rises lo l
Rises-weaker lo lo' [] h r = tt
Rises-weaker lo lo' (x ∷ l) h (b, r) = (omega arith, r)

In-insert : (x e : RotatedLogFileName) (l : Entries) → In e (insert_by_id x l) → (e ≡ x) ⊎ In e l
unfolding insert_by_id
In-insert x e [] m = m
In-insert x e (y ∷ l) m = elim (Bool-cases (leb x.log_id y.log_id)) [
  | inl before ↦ rw before at m
  | inr behind ↦ elim (rw behind at m) [
    | inl same ↦ inr (inl same)
    | inr there ↦ elim (In-insert x e l there) [ inl own ↦ inl own | inr old ↦ inr (inr old) ]
  ]
]

In-insert_of : (x e : RotatedLogFileName) (l : Entries) → (e ≡ x) ⊎ In e l → In e (insert_by_id x l)
unfolding insert_by_id
In-insert_of x e [] m = m
In-insert_of x e (y ∷ l) m = elim (Bool-cases (leb x.log_id y.log_id)) [
  | inl before ↦ rw before m
  | inr behind ↦ rw behind (elim m [
    | inl own ↦ inr (In-insert_of x e l (inl own))
    | inr (inl same) ↦ inl same
    | inr (inr there) ↦ inr (In-insert_of x e l (inr there))
  ])
]

pub In-sort : (e : RotatedLogFileName) (l : Entries) → In e (sort_by_id l) → In e l
unfolding sort_by_id
In-sort e [] m = m
In-sort e (x ∷ l) m = elim (In-insert x e (sort_by_id l) m) [
  | inl same ↦ inl same
  | inr there ↦ inr (In-sort e l there)
]

pub In-sort_of : (e : RotatedLogFileName) (l : Entries) → In e l → In e (sort_by_id l)
unfolding sort_by_id
In-sort_of e [] m = m
In-sort_of e (x ∷ l) (inl same) = In-insert_of x e (sort_by_id l) (inl same)
In-sort_of e (x ∷ l) (inr there) = In-insert_of x e (sort_by_id l) (inr (In-sort_of e l there))

insert-Rises :
    (lo : ℕ) (x : RotatedLogFileName) (l : Entries)
    → Rises lo l
    → lo ≤ x.log_id
    → ((y : RotatedLogFileName) → In y l → y.log_id ≢ x.log_id)
    → Rises lo (insert_by_id x l)
unfolding insert_by_id
insert-Rises lo x [] r b other = (b, tt)
insert-Rises lo x (y ∷ l) (by_, r) b other = elim (Bool-cases (leb x.log_id y.log_id)) [
  | inl before ↦ rw before (b, (ground (arith, other y (inl refl)), r))
  | inr behind ↦
      rw behind (by_, insert-Rises (suc y.log_id) x l r (ground arith) (λ z m. other z (inr m)))
]

-- Distinct identifiers come out rising.
pub sort-Rises : (l : Entries) → AreDistinct l → Rises 0 (sort_by_id l)
unfolding sort_by_id
sort-Rises [] d = tt
sort-Rises (x ∷ l) (other, d) =
    insert-Rises 0 x (sort_by_id l) (sort-Rises l d) (omega arith) (λ y m. other y (In-sort y l m))

-- Two rising lists with the same members are one.
pub Rises-unique :
    (lo : ℕ) (l r : Entries)
    → Rises lo l
    → Rises lo r
    → ((e : RotatedLogFileName) → In e l → In e r)
    → ((e : RotatedLogFileName) → In e r → In e l)
    → l ≡ r
Rises-unique lo [] [] p q there back = refl
Rises-unique lo [] (b ∷ r) p q there back = absurd (back b (inl refl))
Rises-unique lo (a ∷ l) [] p q there back = absurd (there a (inl refl))
Rises-unique lo (a ∷ l) (b ∷ r) (pa, p) (qb, q) there back =
    let heads : a ≡ b = elim (there a (inl refl)) [
      | inl same ↦ same
      | inr behind ↦ elim (back b (inl refl)) [
        | inl same ↦ sym same
        | inr behind' ↦ absurd (
            omega (
              arith,
              Rises-bound (suc b.log_id) r a q behind,
              Rises-bound (suc a.log_id) l b p behind',
            ))
      ]
    ] in
    let ids : a.log_id ≡ b.log_id = ap (λ (e : RotatedLogFileName). e.log_id) heads in
    ap₂ ◌∷◌ heads (
      Rises-unique (suc b.log_id) l r (subst (λ k. Rises (suc k) l) ids p) q
        (λ e m. elim (there e (inr m)) [
          | inr t ↦ t
          | inl same ↦ absurd (
              omega (
                arith,
                Rises-bound (suc a.log_id) l e p m,
                ids,
                ap (λ (x : RotatedLogFileName). x.log_id) same,
              ))
        ])
        (λ e m. elim (back e (inr m)) [
          | inr t ↦ t
          | inl same ↦ absurd (
              omega (
                arith,
                Rises-bound (suc b.log_id) r e q m,
                ids,
                ap (λ (x : RotatedLogFileName). x.log_id) same,
              ))
        ]))
