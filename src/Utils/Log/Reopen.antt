-- ===== src/Utils/Log/Reopen.antt =====
-- The last part of a rotation: the current log becomes the newest of the history, and an empty one is
-- opened in its place.
use localsend_switchboard.Prelude.{
  ℕ, zero, suc, ◌^◌, ◌≤◌, ◌<◌, ◌≡◌, ◌≢◌, refl, sym, ap, ◌∙◌, subst, inl, inr, Bool, true, none,
  some, List, [], ◌∷◌, arith, Bytes, Bytes-discrete, length, get_elem?, take,
}
use localsend_switchboard.Prelude.Assoc
use localsend_switchboard.Entities.{RotatedLogFileName}
use localsend_switchboard.Utils.Path.{get_base_name_without_ext}
use localsend_switchboard.Utils.Log.{
  Call, Files, open_file, LogWriter, success, rotated_of, rotated_log_file, os_rename, os_open,
  reopen,
}
use localsend_switchboard.Utils.Log.Names.{
  IsLine, rotated_of-rotated_log_file, rotated_log_file_injective,
}
use localsend_switchboard.Utils.Log.Rep.{Rep, entry, has, get_elem?-bound}
use localsend_switchboard.Utils.Log.Places.{nth, Frame, os_rename_lem}
use localsend_switchboard.Utils.Log.Room.{Room}

module _ (c : ℕ) (b name : Bytes) (line : IsLine (c ∷ b))
    (own : (i : ℕ) → name ≢ rotated_log_file (c ∷ b) i) (permits : Call → Bool)
    (all : (call : Call) → permits call ≡ true) where
  -- Where the files of a rotation are other than before, they are rotated ones.
  pub Frame_name :
      (files files' : Files) → Frame (c ∷ b) files files' → has files' name ≡ has files name
  Frame_name files files' frame = elim (frame name) [
    | inl same ↦ same
    | inr (i, e) ↦ absurd (own (suc i) e)
  ]

  -- The directory after the last step.
  pub reopened : Bytes → Files → Files
  reopened current files =
      Assoc.put Bytes-discrete name []
        (Assoc.put Bytes-discrete (nth (c ∷ b) 0) current (Assoc.delete Bytes-discrete name files))

  has-reopened_own :
      (current : Bytes) (files : Files)
      → has (reopened current files) (nth (c ∷ b) 0) ≡ some current
  unfolding reopened
  has-reopened_own current files =
      Assoc.get?-put_other Bytes-discrete name (nth (c ∷ b) 0) [] _ (own 1)
      ∙ Assoc.get?-put_own Bytes-discrete (nth (c ∷ b) 0) current _

  has-reopened_other :
      (current k : Bytes) (files : Files)
      → name ≢ k
      → nth (c ∷ b) 0 ≢ k
      → has (reopened current files) k ≡ has files k
  unfolding reopened
  has-reopened_other current k files other other' =
      Assoc.get?-put_other Bytes-discrete name k [] _ other
      ∙ Assoc.get?-put_other Bytes-discrete (nth (c ∷ b) 0) k current _ other'
      ∙ Assoc.get?-delete_other Bytes-discrete name k files other

  -- What stands at the current log's name when it is moved.
  moved : Bytes → Files → Files
  moved current files =
      Assoc.put Bytes-discrete (nth (c ∷ b) 0) current (Assoc.delete Bytes-discrete name files)

  moved_lem :
      (lw : LogWriter) (current : Bytes) (files : Files)
      → lw.file_name ≡ name
      → get_base_name_without_ext lw.file_name ≡ c ∷ b
      → has files name ≡ some current
      → os_rename permits lw.file_name
          (rotated_log_file (get_base_name_without_ext lw.file_name) 1)
          files
        ≡ some (moved current files)
  unfolding moved
  moved_lem lw current files same named here =
      ap (λ k. os_rename permits lw.file_name (rotated_log_file k 1) files) named
      ∙ ap (λ n. os_rename permits n (nth (c ∷ b) 0) files) same
      ∙ os_rename_lem (c ∷ b) permits all name (nth (c ∷ b) 0) current files here

  opens_new :
      (lw : LogWriter) (current : Bytes) (files : Files)
      → lw.file_name ≡ name
      → os_open permits lw.file_name (moved current files) ≡ some (reopened current files)
  unfolding moved reopened
  opens_new lw current files same =
      ap (λ n. os_open permits n (moved current files)) same
      ∙ opens (moved current files) (
          Assoc.get?-put_other Bytes-discrete (nth (c ∷ b) 0) name current _ (λ e. own 1 (sym e))
          ∙ Assoc.get?-delete_own Bytes-discrete name files)
    where
      opens :
          (fs : Files)
          → has fs name ≡ none
          → os_open permits name fs ≡ some (Assoc.put Bytes-discrete name [] fs)
      opens fs empty = unfold os_open in rw (all (Call.opens name), empty) refl

  pub reopen_lem :
      (lw : LogWriter) (current : Bytes) (files : Files)
      → lw.file_name ≡ name
      → get_base_name_without_ext lw.file_name ≡ c ∷ b
      → has files name ≡ some current
      → reopen permits lw files ≡ (
        success,
        record { writer = record lw { file = open_file }; files = reopened current files },
      )
  unfolding reopen
  reopen_lem lw current files same named here =
      rw (moved_lem lw current files same named here, reopen)
        (rw (opens_new lw current files same, reopen) refl)

  -- A file of a history is one that the pattern finds.
  alone_nth :
      (history : List Bytes) (files : Files) (i : ℕ) (e : RotatedLogFileName)
      → length history < 2 ^ 31
      → has files (nth (c ∷ b) i) ≡ get_elem? history i
      → has files (nth (c ∷ b) i) ≢ none
      → rotated_of (nth (c ∷ b) i) ≡ some e
      → e ≡ entry (c ∷ b) (suc i)
  alone_nth history files i e small holds there read =
      let bound = get_elem?-bound history i (λ g. there (holds ∙ g)) in
      let known = rotated_of-rotated_log_file b (suc i) c line (omega arith) in
      some_injective (sym read ∙ known)
    where
      some_injective : {x y : RotatedLogFileName} → some x ≡ some y → x ≡ y
      some_injective h = cc h

  length-take : (m : ℕ) (h : List Bytes) → length (take m h) ≤ m
  length-take zero h = omega arith
  length-take (suc m) [] = omega arith
  length-take (suc m) (x ∷ h) = omega (arith, length-take m h)

  reopened-IsMap :
      (current : Bytes) (files : Files)
      → Assoc.IsMap Bytes-discrete files
      → Assoc.IsMap Bytes-discrete (reopened current files)
  unfolding reopened
  reopened-IsMap current files u =
      Assoc.put-IsMap Bytes-discrete name [] _
        (Assoc.put-IsMap Bytes-discrete _ current _ (Assoc.delete-IsMap Bytes-discrete _ files u))

  has-reopened_current :
      (current : Bytes) (files : Files) → has (reopened current files) name ≡ some []
  unfolding reopened
  has-reopened_current current files = Assoc.get?-put_own Bytes-discrete name [] _

  module _ (m : ℕ) (small : suc m < 2 ^ 31) (current : Bytes) (history : List Bytes)
      (files files' : Files) (r : Rep name c b files current history)
      (frame : Frame (c ∷ b) files files') (room : Room (c ∷ b) history m files') where
    reopened-Holds :
        (i : ℕ)
        → has (reopened current files') (nth (c ∷ b) i) ≡ get_elem? (current ∷ take m history) i
    reopened-Holds zero = has-reopened_own current files'
    reopened-Holds (suc i) =
        has-reopened_other current (nth (c ∷ b) (suc i)) files' (own (suc (suc i)))
          (λ e. absurd (omega (arith, rotated_log_file_injective (c ∷ b) 1 (suc (suc i)) e)))
        ∙ room i

    reopened-nth :
        (other : Bytes) (e : RotatedLogFileName) (i : ℕ)
        → rotated_of other ≡ some e
        → has (reopened current files') other ≢ none
        → other ≡ nth (c ∷ b) i
        → (i : ℕ) × (e ≡ entry (c ∷ b) (suc i))
    reopened-nth other e i read there same = (
      i,
      alone_nth (current ∷ take m history) (reopened current files') i e
          (omega (arith, length-take m history)) (reopened-Holds i)
          (subst (λ k. has (reopened current files') k ≢ none) same there)
          (subst (λ k. rotated_of k ≡ some e) same read),
    )

    pub reopened-Rep :
        Assoc.IsMap Bytes-discrete files'
        → Rep name c b (reopened current files') [] (take (suc m) (current ∷ history))
    reopened-Rep u = record {
      is_map = reopened-IsMap current files' u;
      current_log = has-reopened_current current files';
      holds = reopened-Holds;
      alone = λ other e read there. elim (Bytes-discrete name other) [
        | yes p ↦
            r.alone name e (subst (λ k. rotated_of k ≡ some e) (sym p) read)
              (λ g. absurd (some_none (sym r.current_log ∙ g)))
        | no p ↦ elim (Bytes-discrete (nth (c ∷ b) 0) other) [
          | yes q ↦ reopened-nth other e 0 read there (sym q)
          | no q ↦ elim (frame other) [
            | inl same ↦
                r.alone other e read
                  (λ g. there (has-reopened_other current other files' p q ∙ same ∙ g))
            | inr (i, own_i) ↦ reopened-nth other e i read there own_i
          ]
        ]
      ];
    }
      where
        some_none : {x : Bytes} → ¬ (some x ≡ none)
        some_none h = absurd (cc h)
