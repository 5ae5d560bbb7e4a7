-- ===== src/Utils/Log/Room.antt =====
-- The first part of a rotation: the surplus goes, and the rest of the history moves up by one.
use mathlib.Core.List.{reverse}
use localsend_switchboard.Prelude.{
  ℕ, zero, suc, ◌+◌, ◌-◌, ◌≤◌, ◌<◌, ◌≡◌, refl, sym, ap, ap₂, ◌∙◌, ◌⊎◌, inl, inr, Bool, true, false,
  none, some, List, [], ◌∷◌, arith, if◌then◌else◌, Bytes, Bytes-discrete, length, get_elem?, take,
  drop, dec_lt,
}
use localsend_switchboard.Prelude.Assoc
use localsend_switchboard.Prelude.Int.{pos, ltb_ℤ, ◌-ℤ◌}
use localsend_switchboard.Entities.{RotatedLogFileName}
use localsend_switchboard.Utils.Log.{
  Call, Files, surplus, overflow, split_at, remove_all, rename_all,
}
use localsend_switchboard.Utils.Log.Rep.{entry, entries, has, get_elem?-present}
use localsend_switchboard.Utils.Log.Places.{nth, Holds, Works}
use localsend_switchboard.Utils.Log.Shift.{remove_all-Cleared, rename_all-Raised}

length-entries : (b : Bytes) (lo n : ℕ) → length (entries b lo n) ≡ n
length-entries b lo zero = refl
length-entries b lo (suc n) = ap suc (length-entries b (suc lo) n)

take-entries : (b : Bytes) (lo m len : ℕ) → m ≤ len → take m (entries b lo len) ≡ entries b lo m
take-entries b lo zero len h = refl
take-entries b lo (suc m) zero h = absurd (omega arith)
take-entries b lo (suc m) (suc len) h =
    ap (◌∷◌ (entry b lo)) (take-entries b (suc lo) m len (omega arith))

drop-entries :
    (b : Bytes) (lo m len : ℕ) → m ≤ len → drop m (entries b lo len) ≡ entries b (lo + m) (len - m)
drop-entries b lo zero len h = ap₂ (entries b) (omega arith) (omega arith)
drop-entries b lo (suc m) zero h = absurd (omega arith)
drop-entries b lo (suc m) (suc len) h =
    drop-entries b (suc lo) m len (omega arith) ∙ ap₂ (entries b) (omega arith) (omega arith)

-- How many files of a history stay, and how many go.
pub record Split (m len n k : ℕ) : Type 0 where
  pub whole : n + k ≡ len
  pub bound : n ≤ m
  pub most : (n ≡ m) ⊎ (k ≡ 0)

-- The index from which the files of a full history are too many: one less than the bound.
first_surplus : (m len : ℕ) → suc m ≤ len → pos len -ℤ overflow len (pos (suc m)) ≡ pos m
first_surplus m len h = ground arith

surplus_full :
    (m : ℕ) (es : List RotatedLogFileName)
    → suc m ≤ length es
    → surplus (pos (suc m)) es ≡ some (drop m es, take m es)
unfolding surplus
surplus_full m es h =
    let full : ltb_ℤ (pos (length es)) (pos (suc m)) ≡ false = ground arith in
    ap
      (λ few.
        if few
        then some ([], es)
        else split_at (pos (length es) -ℤ overflow (length es) (pos (suc m))) es)
      full
    ∙ ap (λ i. split_at i es) (first_surplus m (length es) h)

surplus_few :
    (m : ℕ) (es : List RotatedLogFileName)
    → length es < suc m
    → surplus (pos (suc m)) es ≡ some ([], es)
unfolding surplus
surplus_few m es h =
    let few : ltb_ℤ (pos (length es)) (pos (suc m)) ≡ true = ground arith in
    ap
      (λ few.
        if few
        then some ([], es)
        else split_at (pos (length es) -ℤ overflow (length es) (pos (suc m))) es)
      few

pub surplus-entries :
    (b : Bytes) (m len : ℕ)
    → (n k : ℕ) × Split m len n k
      × (surplus (pos (suc m)) (entries b 1 len) ≡ some (entries b (suc n) k, entries b 1 n))
surplus-entries b m len = elim (dec_lt len (suc m)) [
  | no h ↦
      let whole : m + (len - m) ≡ len = omega arith in
      (
        m,
        len - m,
        record { whole = whole; bound = omega arith; most = inl refl },
        surplus_full m (entries b 1 len) (omega (arith, length-entries b 1 len))
            ∙ ap some (
                ap₂ (λ x y. (x, y))
                  (drop-entries b 1 m len (omega arith)
                    ∙ ap (λ i. entries b i (len - m)) (omega arith))
                  (take-entries b 1 m len (omega arith))),
      )
  | yes h ↦ (
    len,
    0,
    record { whole = omega arith; bound = omega arith; most = inr refl },
    surplus_few m (entries b 1 len) (omega (arith, length-entries b 1 len)),
  )
]

get_elem?-take : (m i : ℕ) (h : List Bytes) → i < m → get_elem? (take m h) i ≡ get_elem? h i
get_elem?-take zero i h b = absurd (omega arith)
get_elem?-take (suc m) i [] b = refl
get_elem?-take (suc m) zero (x ∷ h) b = refl
get_elem?-take (suc m) (suc i) (x ∷ h) b = get_elem?-take m i h (omega arith)

get_elem?-take_beyond : (m i : ℕ) (h : List Bytes) → m ≤ i → get_elem? (take m h) i ≡ none
get_elem?-take_beyond zero i h b = refl
get_elem?-take_beyond (suc m) i [] b = refl
get_elem?-take_beyond (suc m) zero (x ∷ h) b = absurd (omega arith)
get_elem?-take_beyond (suc m) (suc i) (x ∷ h) b = get_elem?-take_beyond m i h (omega arith)

get_elem?_above : (h : List Bytes) (i : ℕ) → length h ≤ i → get_elem? h i ≡ none
get_elem?_above [] i b = refl
get_elem?_above (x ∷ h) zero b = absurd (omega arith)
get_elem?_above (x ∷ h) (suc i) b = get_elem?_above h i (omega arith)

get_elem?-take_above : (m i : ℕ) (h : List Bytes) → length h ≤ i → get_elem? (take m h) i ≡ none
get_elem?-take_above m i h b = elim (dec_lt i m) [
  | yes p ↦ get_elem?-take m i h p ∙ get_elem?_above h i b
  | no p ↦ get_elem?-take_beyond m i h (omega arith)
]

-- The history that stays has moved up.
abbrev pub Room : Bytes → List Bytes → ℕ → Files → Type 0
Room base history m files = (i : ℕ) → has files (nth base (suc i)) ≡ get_elem? (take m history) i

module _ (base : Bytes) (permits : Call → Bool) (all : (call : Call) → permits call ≡ true)
    (history : List Bytes) where
  pub removed :
      (m n k : ℕ) (files : Files)
      → Split m (length history) n k
      → Assoc.IsMap Bytes-discrete files
      → Holds base files history
      → Works base
          (λ f. Holds base f (take n history))
          files
          (remove_all permits (entries base (suc n) k) files)
  removed m n k files split u holds =
      let w = remove_all-Cleared base permits all k n files u (λ i lo hi g.
        get_elem?-present history i (omega (arith, split.whole)) (sym (holds i) ∙ g)) in
      record {
        succeeds = w.succeeds;
        is_map = w.is_map;
        frame = w.frame;
        gives = λ i. elim (w.gives i) [
          | inl (lo, hi, e) ↦ e ∙ sym (get_elem?-take_beyond n i history lo)
          | inr (inl lo, e) ↦ e ∙ holds i ∙ sym (get_elem?-take n i history lo)
          | inr (inr hi, e) ↦
              e
              ∙ holds i
              ∙ get_elem?_above history i (omega (arith, split.whole))
              ∙ sym (get_elem?-take_above n i history (omega (arith, split.whole)))
        ];
      }

  pub raised :
      (m n k : ℕ) (files : Files)
      → Split m (length history) n k
      → Assoc.IsMap Bytes-discrete files
      → Holds base files (take n history)
      → Works base
          (Room base history m)
          files
          (rename_all permits (reverse (entries base 1 n)) files)
  raised m n k files split u holds =
      let w = rename_all-Raised base permits all n files u (λ i h g.
        get_elem?-present history i (omega (arith, split.whole))
          (sym (get_elem?-take n i history h) ∙ sym (holds i) ∙ g)) in
      record {
        succeeds = w.succeeds;
        is_map = w.is_map;
        frame = w.frame;
        gives = λ i. elim (dec_lt i n) [
          | yes h ↦
              w.gives.0 i h
              ∙ holds i
              ∙ get_elem?-take n i history h
              ∙ sym (get_elem?-take m i history (omega (arith, split.bound)))
          | no h ↦
              w.gives.1 (suc i) (omega arith)
              ∙ holds (suc i)
              ∙ get_elem?-take_beyond n (suc i) history (omega arith)
              ∙ sym (elim split.most [
                | inl same ↦ get_elem?-take_beyond m i history (omega arith)
                | inr k_zero ↦ get_elem?-take_above m i history (omega (arith, split.whole))
              ])
        ];
      }
