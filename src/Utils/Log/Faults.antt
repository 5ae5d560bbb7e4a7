-- ===== src/Utils/Log/Faults.antt =====
-- What goes wrong: a history of no logs, and a rotation that the system interrupts.
use localsend_switchboard.Prelude.{
  length, ℕ, zero, suc, false, some, [], ap, ◌∙◌, if◌then◌else◌, ◌≡◌, refl, subst, ◌⊎◌, inl, inr,
  Bool, true, none, List, arith, Bytes, Bool-cases, Option-cases,
}
use mathlib.Core.List.{reverse}
use localsend_switchboard.Prelude.Int.{ℤ, pos, negsuc, ltb_ℤ, ◌≤ℤ◌, ◌-ℤ◌}
use localsend_switchboard.Entities.{RotatedLogFileName}
use localsend_switchboard.Std.Channel.{done, panicked}
use localsend_switchboard.Utils.Path.{get_base_name_without_ext}
use localsend_switchboard.Utils.Log.{
  Call, Files, Handle, nil_file, closed_file, LogWriter, Disk, Status, success, failure, then_go,
  surplus, overflow, split_at, collect, sort_by_id, os_rename, os_open, remove_all, rename_all,
  rotated_log_file, rotate_logs, reopen, shift_logs, stat_size, write,
}

-- No file is open.
abbrev IsShut : Handle → Type 0
IsShut h = (h ≡ nil_file) ⊎ (h ≡ closed_file)

-- A success, or a failure that leaves no open file.
abbrev Shuts : Status × Disk → Type 0
Shuts r = (r.0 ≡ success) ⊎ IsShut r.1.writer.file

stat_size-IsShut :
    (permits : Call → Bool) (d : Disk) → IsShut d.writer.file → stat_size permits d ≡ none
unfolding stat_size
stat_size-IsShut permits d (inl e) = ground arith
stat_size-IsShut permits d (inr e) = ground arith

write-IsShut :
    (permits : Call → Bool) (p : Bytes) (d : Disk)
    → IsShut d.writer.file
    → write permits p d ≡ done (failure, d)
unfolding write
write-IsShut permits p d shut = ground (arith, stat_size-IsShut permits d shut)

then_go-Shuts :
    (r : Status × Files) (next : Files → Status × Disk) (stop : Files → Disk)
    → ((f : Files) → Shuts (next f))
    → ((f : Files) → IsShut (stop f).writer.file)
    → Shuts (then_go r next stop)
then_go-Shuts (success, files) next stop on off = on files
then_go-Shuts (failure, files) next stop on off = inr (off files)

reopen-Shuts :
    (permits : Call → Bool) (lw : LogWriter) (files : Files)
    → IsShut lw.file
    → Shuts (reopen permits lw files)
unfolding reopen
reopen-Shuts permits lw files shut =
    elim (Option-cases (
      os_rename permits lw.file_name (rotated_log_file (get_base_name_without_ext lw.file_name) 1)
        files)) [
          | inl e ↦ rw (e, reopen) (inr shut)
          | inr (moved, e) ↦ elim (Option-cases (os_open permits lw.file_name moved)) [
            | inl f ↦ rw (e, reopen) (rw (f, reopen) (inr (inl refl)))
            | inr (opened, f) ↦ rw (e, reopen) (rw (f, reopen) (inl refl))
          ]
        ]

shift_logs-Shuts :
    (permits : Call → Bool) (lw : LogWriter) (files : Files) (old kept : List RotatedLogFileName)
    → IsShut lw.file
    → Shuts (shift_logs permits lw files old kept)
unfolding shift_logs
shift_logs-Shuts permits lw files old kept shut =
    then_go-Shuts (remove_all permits old files) _ _
      (λ removed.
        then_go-Shuts (rename_all permits (reverse kept) removed) _ _
          (λ moved. reopen-Shuts permits lw moved shut) (λ f. shut))
      (λ f. shut)

IsShut-of_failure :
    (r : Status × Disk) (d : Disk) → Shuts r → done r ≡ done (failure, d) → IsShut d.writer.file
IsShut-of_failure (success, d') d shuts e = absurd (cc e)
IsShut-of_failure (failure, d') d (inl f) e = absurd (cc f)
IsShut-of_failure (failure, d') d (inr shut) e =
    let same : d' ≡ d = cc e in subst (λ (x : Disk). IsShut x.writer.file) same shut

-- A rotation that fails leaves the writer without an open file: whatever the system permits from then
-- on, every later write fails and changes nothing.
pub rotate_logs-failure :
    (permits permits' : Call → Bool) (p : Bytes) (d d' : Disk)
    → rotate_logs permits d ≡ done (failure, d')
    → write permits' p d' ≡ done (failure, d')
unfolding rotate_logs
rotate_logs-failure permits permits' p d d' e =
    write-IsShut permits' p d' (elim (Bool-cases (permits Call.read_dir)) [
      | inr f ↦ IsShut-of_failure _ d' (inr (inr refl)) (rw f at e)
      | inl f ↦
          elim (Option-cases
            (surplus d.writer.max_historical_logs (sort_by_id (collect d.files)))) [
              | inl none_ ↦ absurd (cc (rw (f, none_) at e))
              | inr ((old, kept), chosen) ↦
                  IsShut-of_failure
                    (shift_logs permits (record d.writer { file = closed_file }) d.files old kept)
                    d'
                    (shift_logs-Shuts permits (record d.writer { file = closed_file }) d.files old
                      kept (inr refl))
                    (rw (f, chosen) at e)
            ]
    ])

-- With a bound of no history or less, the index of the first file to go is negative.
negative : (num : ℕ) (max : ℤ) → max ≤ℤ pos 0 → (k : ℕ) × (pos num -ℤ overflow num max ≡ negsuc k)
negative num (pos zero) h = (0, ground arith)
negative num (pos (suc n)) h = absurd (omega (arith, h))
negative num (negsuc n) h = (suc n, ground arith)

surplus_negative : (max : ℤ) (es : List RotatedLogFileName) → max ≤ℤ pos 0 → surplus max es ≡ none
unfolding surplus
surplus_negative max es h =
    let (k, below) = negative (length es) max h in
    let full : ltb_ℤ (pos (length es)) max ≡ false = ground arith in
    ap
      (λ few.
        if few then some ([], es) else split_at (pos (length es) -ℤ overflow (length es) max) es)
      full
    ∙ ap (λ i. split_at i es) below

-- With a bound of no history or less, a rotation that can read the directory panics.
pub rotate_logs-panicked :
    (permits : Call → Bool) (d : Disk)
    → permits Call.read_dir ≡ true
    → d.writer.max_historical_logs ≤ℤ pos 0
    → rotate_logs permits d ≡ panicked
unfolding rotate_logs
rotate_logs-panicked permits d may h =
    let none_left =
      surplus_negative d.writer.max_historical_logs (sort_by_id (collect d.files)) h in
    rw (may, none_left) refl
