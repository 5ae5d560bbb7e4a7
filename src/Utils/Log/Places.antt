-- ===== src/Utils/Log/Places.antt =====
-- The places of the history: the rotated files of a base, what a loop over them leaves alone, and what
-- a call that removes or renames one does.
use localsend_switchboard.Prelude.{
  ℕ, suc, ◌≡◌, ◌≢◌, refl, sym, ◌∙◌, ◌⊎◌, inl, inr, Bool, true, some, List, arith, Bytes,
  Bytes-discrete, get_elem?,
}
use localsend_switchboard.Prelude.Assoc
use localsend_switchboard.Utils.Log.{
  Call, Files, Status, success, os_remove, os_rename, rotated_log_file,
}
use localsend_switchboard.Utils.Log.Names.{rotated_log_file_injective}
use localsend_switchboard.Utils.Log.Rep.{has}

module _ (base : Bytes) where
  -- The rotated file of the base at a place of the history.
  abbrev pub nth : ℕ → Bytes
  nth i = rotated_log_file base (suc i)

  -- The rotated files of the base from 1 on hold the history.
  abbrev pub Holds : Files → List Bytes → Type 0
  Holds files history = (i : ℕ) → has files (nth i) ≡ get_elem? history i

  -- Only rotated files of the base may differ.
  abbrev pub Frame : Files → Files → Type 0
  Frame files files' = (k : Bytes) → (has files' k ≡ has files k) ⊎ ((i : ℕ) × (k ≡ nth i))

  pub Frame-trans : (f g h : Files) → Frame f g → Frame g h → Frame f h
  Frame-trans f g h p q k = elim (q k) [
    | inr own ↦ inr own
    | inl same ↦ elim (p k) [ inr own ↦ inr own | inl same' ↦ inl (same ∙ same') ]
  ]

  -- A loop's result: it succeeds, and the directory then satisfies `Q`.
  pub record Works (P : Files → Type 0) (files : Files) (r : Status × Files) : Type 0 where
    pub succeeds : r.0 ≡ success
    pub is_map : Assoc.IsMap Bytes-discrete r.1
    pub frame : Frame files r.1
    pub gives : P r.1

  pub name_other : (i j : ℕ) → i ≢ j → nth i ≢ nth j
  name_other i j other =
      λ e. other (omega (arith, rotated_log_file_injective base (suc i) (suc j) e))

  pub Frame-delete :
      (i : ℕ) (files : Files) → Frame files (Assoc.delete Bytes-discrete (nth i) files)
  Frame-delete i files k = elim (Bytes-discrete (nth i) k) [
    | yes p ↦ inr (i, sym p)
    | no p ↦ inl (Assoc.get?-delete_other Bytes-discrete (nth i) k files p)
  ]

  pub Frame-put :
      (i : ℕ) (v : Bytes) (files : Files) → Frame files (Assoc.put Bytes-discrete (nth i) v files)
  Frame-put i v files k = elim (Bytes-discrete (nth i) k) [
    | yes p ↦ inr (i, sym p)
    | no p ↦ inl (Assoc.get?-put_other Bytes-discrete (nth i) k v files p)
  ]

  pub kept :
      (lo i : ℕ) (files : Files)
      → lo ≢ i
      → has (Assoc.delete Bytes-discrete (nth lo) files) (nth i) ≡ has files (nth i)
  kept lo i files other =
      Assoc.get?-delete_other Bytes-discrete (nth lo) (nth i) files (name_other lo i other)

  module _ (permits : Call → Bool) (all : (call : Call) → permits call ≡ true) where
    pub os_remove_lem :
        (name c : Bytes) (files : Files)
        → has files name ≡ some c
        → os_remove permits name files ≡ some (Assoc.delete Bytes-discrete name files)
    unfolding os_remove
    os_remove_lem name c files e = rw (all (Call.removes name), e) refl

    pub os_rename_lem :
        (old new c : Bytes) (files : Files)
        → has files old ≡ some c
        → os_rename permits old new files
          ≡ some (Assoc.put Bytes-discrete new c (Assoc.delete Bytes-discrete old files))
    unfolding os_rename
    os_rename_lem old new c files e = rw (all (Call.renames old new), e) refl
