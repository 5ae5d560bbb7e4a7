-- ===== src/Utils/Log/Rep.antt =====
-- A directory that holds the current log and its history: the rotated files 1, 2, ... with the newest
-- first. Sorting what the rotation collects gives just these files, in order.
use localsend_switchboard.Prelude.{
  ℕ, zero, suc, ◌+◌, ◌^◌, ◌<◌, ◌≡◌, ◌≢◌, refl, sym, ap, ◌∙◌, subst, inl, inr, Option, none, some,
  List, [], ◌∷◌, arith, Bytes, Bytes-discrete, length, get_elem?, Option-cases,
}
use localsend_switchboard.Prelude.Assoc
use mathlib.Core.Logic.{if_neg}
use localsend_switchboard.Entities.{RotatedLogFileName}
use localsend_switchboard.Utils.Log.{Files, rotated_of, rotated_log_file, collect, sort_by_id}
use localsend_switchboard.Utils.Log.Names.{IsLine, rotated_of-rotated_log_file}
use localsend_switchboard.Utils.Log.Sort.{
  In, Rises, AreDistinct, In-sort, In-sort_of, sort-Rises, Rises-unique, Rises-weaker,
}

-- The rotated file of a base with an identifier.
abbrev pub entry : Bytes → ℕ → RotatedLogFileName
entry b i = record { base_name = b; log_id = i; full_name = rotated_log_file b i }

-- The rotated files from `lo` on, `n` of them.
abbrev pub entries : Bytes → ℕ → ℕ → List RotatedLogFileName
entries b lo zero = []
entries b lo (suc n) = entry b lo ∷ entries b (suc lo) n

abbrev pub has : Files → Bytes → Option Bytes
has files name = Assoc.get? Bytes-discrete name files

-- The rotated files of the directory are those of the base `c ∷ b` with the identifiers from 1 to the
-- length of the history, which they hold; the file `name` holds the current log.
pub record Rep (name : Bytes) (c : ℕ) (b : Bytes) (files : Files) (current : Bytes)
    (history : List Bytes) : Type 0 where
  pub is_map : Assoc.IsMap Bytes-discrete files
  pub current_log : has files name ≡ some current
  pub holds : (i : ℕ) → has files (rotated_log_file (c ∷ b) (suc i)) ≡ get_elem? history i
  pub alone :
      (other : Bytes) (e : RotatedLogFileName)
      → rotated_of other ≡ some e
      → has files other ≢ none
      → (i : ℕ) × (e ≡ entry (c ∷ b) (suc i))

-- The file is in the directory, and a rotated one.
abbrev IsRotated : Files → RotatedLogFileName → Type 0
IsRotated files e = (rotated_of e.full_name ≡ some e) × (has files e.full_name ≢ none)

rotated_of-name :
    (name : Bytes) (e : RotatedLogFileName) → rotated_of name ≡ some e → e.full_name ≡ name
unfolding rotated_of
rotated_of-name name e h = ground arith

has_later :
    (name x k : Bytes) (files : Files) → has files k ≢ none → has ((name, x) ∷ files) k ≢ none
unfolding Assoc.get?
has_later name x k files h = λ e. h (ground arith)

In-collect : (files : Files) (e : RotatedLogFileName) → In e (collect files) → IsRotated files e
unfolding collect
In-collect [] e m = elim m [ ]
In-collect ((name, x) ∷ files) e m = elim (Option-cases (rotated_of name)) [
  | inl f ↦
      let (read, there) = In-collect files e (rw (f, collect) at m) in
      (read, has_later name x e.full_name files there)
  | inr (r, f) ↦ elim (rw (f, collect) at m) [
    | inl same ↦
        let named = sym (rotated_of-name name r f) in
        subst (IsRotated ((name, x) ∷ files)) (sym same) (
          subst (λ n. rotated_of n ≡ some r) named f,
          subst (λ n. has ((name, x) ∷ files) n ≢ none) named (here name x files),
        )
    | inr later ↦
        let (read, there) = In-collect files e later in
        (read, has_later name x e.full_name files there)
  ]
]
  where
    here : (name x : Bytes) (files : Files) → has ((name, x) ∷ files) name ≢ none
    here name x files = unfold Assoc.get? in λ e. ground arith

In-collect_of :
    (files : Files) (e : RotatedLogFileName)
    → rotated_of e.full_name ≡ some e
    → has files e.full_name ≢ none
    → In e (collect files)
unfolding collect Assoc.get?
In-collect_of [] e read there = absurd (there refl)
In-collect_of ((name, x) ∷ files) e read there = elim (Bytes-discrete name e.full_name) [
  | yes same ↦ let own : rotated_of name ≡ some e = rw same read in rw (own, collect) (inl refl)
  | no other ↦
      let later = In-collect_of files e read (rw (if_neg _ other) at there) in
      elim (Option-cases (rotated_of name)) [
        | inl f ↦ rw (f, collect) later
        | inr (r, f) ↦ rw (f, collect) (inr later)
      ]
]

-- In a directory whose rotated files have one base, their identifiers differ.
collect-AreDistinct :
    (b : Bytes) (files : Files)
    → Assoc.IsMap Bytes-discrete files
    → ((e : RotatedLogFileName) → In e (collect files) → e ≡ entry b e.log_id)
    → AreDistinct (collect files)
unfolding collect
collect-AreDistinct b [] u one = tt
collect-AreDistinct b ((name, x) ∷ files) (new, u) one = elim (Option-cases (rotated_of name)) [
  | inl f ↦ rw (f, collect) (collect-AreDistinct b files u (rw (f, collect) at one))
  | inr (r, f) ↦
      let all : (e : RotatedLogFileName) → In e (r ∷ collect files) → e ≡ entry b e.log_id =
        rw (f, collect) at one in
      rw (f, collect)
        (
          λ y m same.
              let names : y.full_name ≡ name =
                ap (λ (e : RotatedLogFileName). e.full_name) (all y (inr m))
                ∙ ap (rotated_log_file b) same
                ∙ sym (ap (λ (e : RotatedLogFileName). e.full_name) (all r (inl refl)))
                ∙ rotated_of-name name r f in
              (In-collect files y m).1 (rw names new),
          collect-AreDistinct b files u (λ e m. all e (inr m)),
        )
]

pub entries-Rises : (b : Bytes) (lo n : ℕ) → Rises lo (entries b lo n)
entries-Rises b lo zero = tt
entries-Rises b lo (suc n) = (omega arith, entries-Rises b (suc lo) n)

In-entries :
    (b : Bytes) (lo n : ℕ) (e : RotatedLogFileName)
    → In e (entries b lo n)
    → (i : ℕ) × (i < n) × (e ≡ entry b (lo + i))
In-entries b lo zero e m = elim m [ ]
In-entries b lo (suc n) e (inl same) = (zero, omega arith, same ∙ ap (entry b) (omega arith))
In-entries b lo (suc n) e (inr later) =
    let (i, h, same) = In-entries b (suc lo) n e later in
    (suc i, omega arith, same ∙ ap (entry b) (omega arith))

In-entries_of : (b : Bytes) (lo n i : ℕ) → i < n → In (entry b (lo + i)) (entries b lo n)
In-entries_of b lo zero i h = absurd (omega arith)
In-entries_of b lo (suc n) zero h = inl (ap (entry b) (omega arith))
In-entries_of b lo (suc n) (suc i) h = inr (
    subst (λ k. In (entry b k) (entries b (suc lo) n)) (omega arith)
      (In-entries_of b (suc lo) n i (omega arith)))

pub get_elem?-bound : (h : List Bytes) (i : ℕ) → get_elem? h i ≢ none → i < length h
get_elem?-bound [] i e = absurd (e refl)
get_elem?-bound (x ∷ h) zero e = omega arith
get_elem?-bound (x ∷ h) (suc i) e = omega (arith, get_elem?-bound h i e)

pub get_elem?-present : (h : List Bytes) (i : ℕ) → i < length h → get_elem? h i ≢ none
get_elem?-present [] i b = absurd (omega arith)
get_elem?-present (x ∷ h) zero b = λ e. cc
get_elem?-present (x ∷ h) (suc i) b = get_elem?-present h i (omega arith)

module _ (name : Bytes) (c : ℕ) (b : Bytes) (files : Files) (current : Bytes) (history : List Bytes)
    (line : IsLine (c ∷ b)) (r : Rep name c b files current history)
    (small : length history < 2 ^ 31) where
  collected :
      (e : RotatedLogFileName)
      → In e (collect files)
      → (i : ℕ) × (i < length history) × (e ≡ entry (c ∷ b) (1 + i))
  collected e m =
      let (read, there) = In-collect files e m in
      let (i, same) = r.alone e.full_name e read there in
      let at = ap (λ (x : RotatedLogFileName). has files x.full_name) same in
      (
        i,
        get_elem?-bound history i (λ gone. there (at ∙ r.holds i ∙ gone)),
        same ∙ ap (entry (c ∷ b)) (omega arith),
      )

  collected_of : (i : ℕ) → i < length history → In (entry (c ∷ b) (1 + i)) (collect files)
  collected_of i h =
      let at : 1 + i ≡ suc i = omega arith in
      rw at (
        In-collect_of files (entry (c ∷ b) (suc i))
          (rotated_of-rotated_log_file b (suc i) c line (omega arith))
          (λ gone. get_elem?-present history i h (sym (r.holds i) ∙ gone)))

  -- The sorted files are those of the history, from the newest on.
  pub sorted : sort_by_id (collect files) ≡ entries (c ∷ b) 1 (length history)
  sorted =
      let distinct = collect-AreDistinct (c ∷ b) files r.is_map (λ e m.
        let (i, h, same) = collected e m in
        same ∙ ap (entry (c ∷ b)) (sym (ap (λ (x : RotatedLogFileName). x.log_id) same))) in
      Rises-unique 0 (sort_by_id (collect files)) (entries (c ∷ b) 1 (length history))
        (sort-Rises (collect files) distinct)
        (Rises-weaker 0 1 _ (omega arith) (entries-Rises (c ∷ b) 1 (length history)))
        (λ e m.
          let (i, h, same) = collected e (In-sort e (collect files) m) in
          rw same (In-entries_of (c ∷ b) 1 (length history) i h))
        (λ e m.
          let (i, h, same) = In-entries (c ∷ b) 1 (length history) e m in
          In-sort_of e (collect files) (rw same (collected_of i h)))
