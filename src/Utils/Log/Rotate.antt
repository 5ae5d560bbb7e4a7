-- ===== src/Utils/Log/Rotate.antt =====
-- What the log writer is for: a bounded history of logs. A rotation, and a write, do to the directory
-- what their specifications do to the history.
use mathlib.Core.List.{reverse}
use localsend_switchboard.Prelude.{
  ℕ, zero, suc, ◌+◌, ◌^◌, ◌≤◌, ◌<◌, ◌≡◌, ◌≢◌, refl, ap, ap₂, ◌∙◌, Bool, true, List, [], ◌∷◌, ◌++◌,
  arith, if◌then◌else◌, ltb, Bytes, length, take,
}
use localsend_switchboard.Prelude.Int.{pos}
use localsend_switchboard.Std.Channel.{done}
use localsend_switchboard.Utils.Path.{get_base_name_without_ext}
use localsend_switchboard.Utils.Log.{
  Call, Files, closed_file, open_file, LogWriter, Disk, Status, success, failure, then_go, surplus,
  rotated_log_file, remove_all, rename_all, shift_logs, rotate_logs,
}
use localsend_switchboard.Utils.Log.Names.{IsLine}
use localsend_switchboard.Utils.Log.Rep.{Rep, entries, sorted}
use localsend_switchboard.Utils.Log.Places.{Frame-trans}
use localsend_switchboard.Utils.Log.Room.{Split, surplus-entries, removed, raised}
use localsend_switchboard.Utils.Log.Reopen.{Frame_name, reopened, reopen_lem, reopened-Rep}

-- The abstract log: what is being written, and the logs before it, the newest first.
pub record Logs : Type 0 where
  pub current : Bytes
  pub history : List Bytes

-- A rotation keeps the newest `max` of the logs.
abbrev pub rotate_spec : ℕ → Logs → Logs
rotate_spec max l = record { current = []; history = take max (l.current ∷ l.history) }

-- A write that would exceed the limit rotates first.
abbrev pub write_spec : ℕ → ℕ → Bytes → Logs → Logs
write_spec limit max p l =
    if ltb limit (length l.current + length p)
    then record { current = p; history = take max (l.current ∷ l.history) }
    else record { current = l.current ++ p; history = l.history }

-- A directory whose rotated files have an identifier that fits keeps its current log and history in
-- the files of the writer.
pub record Keeps (c : ℕ) (b : Bytes) (limit max : ℕ) (d : Disk) (l : Logs) : Type 0 where
  pub named : get_base_name_without_ext d.writer.file_name ≡ c ∷ b
  pub line : IsLine (c ∷ b)
  pub own : (i : ℕ) → d.writer.file_name ≢ rotated_log_file (c ∷ b) i
  pub sizes : d.writer.max_size ≡ pos limit
  pub bounded : d.writer.max_historical_logs ≡ pos max
  pub some_history : 1 ≤ max
  pub fits : max < 2 ^ 31
  pub short : length l.history < 2 ^ 31
  pub rep : Rep d.writer.file_name c b d.files l.current l.history

then_go_success {ℓ} :
    {A : Type ℓ} (r : Status × Files) (next : Files → Status × A) (stop : Files → A)
    → r.0 ≡ success
    → then_go r next stop ≡ next r.1
then_go_success (success, files) next stop e = refl
then_go_success (failure, files) next stop e = absurd (cc e)

-- The disk with a file of the writer that is open.
abbrev pub after : Disk → Files → Disk
after d files = record { writer = record d.writer { file = open_file }; files = files }

length-take : (m : ℕ) (h : List Bytes) → length (take m h) ≤ m
length-take zero h = omega arith
length-take (suc m) [] = omega arith
length-take (suc m) (x ∷ h) = omega (arith, length-take m h)

module _ (permits : Call → Bool) (all : (call : Call) → permits call ≡ true) (c : ℕ) (b : Bytes)
    (limit : ℕ) where
  -- The steps of a rotation, in a directory that the writer keeps.
  shift_logs_lem :
      (m n k : ℕ) (d : Disk) (l : Logs) (lw : LogWriter)
      → Keeps c b limit (suc m) d l
      → lw.file_name ≡ d.writer.file_name
      → Split m (length l.history) n k
      → (f : Files) × (shift_logs permits lw d.files
            (entries (c ∷ b) (suc n) k)
            (entries (c ∷ b) 1 n)
          ≡ (success, record { writer = record lw { file = open_file }; files = f }))
        × Rep d.writer.file_name c b f [] (take (suc m) (l.current ∷ l.history))
  unfolding shift_logs
  shift_logs_lem m n k d l lw keeps same split =
      let w =
        removed (c ∷ b) permits all l.history m n k d.files split keeps.rep.is_map
          keeps.rep.holds in
      let gone = (remove_all permits (entries (c ∷ b) (suc n) k) d.files).1 in
      let v = raised (c ∷ b) permits all l.history m n k gone split w.is_map w.gives in
      let up = (rename_all permits (reverse (entries (c ∷ b) 1 n)) gone).1 in
      let frame = Frame-trans (c ∷ b) d.files gone up w.frame v.frame in
      let here =
        Frame_name c b d.writer.file_name keeps.line keeps.own permits all d.files up frame
        ∙ keeps.rep.current_log in
      (
        reopened c b d.writer.file_name keeps.line keeps.own permits all l.current up,
        then_go_success (remove_all permits (entries (c ∷ b) (suc n) k) d.files) _ _ w.succeeds
            ∙ then_go_success (rename_all permits (reverse (entries (c ∷ b) 1 n)) gone) _ _
                v.succeeds
            ∙ reopen_lem c b d.writer.file_name keeps.line keeps.own permits all lw l.current up
                same (ap get_base_name_without_ext same ∙ keeps.named) here,
        reopened-Rep c b d.writer.file_name keeps.line keeps.own permits all m keeps.fits l.current
            l.history d.files up keeps.rep frame v.gives v.is_map,
      )

  -- When the system refuses no call, a rotation of a directory that holds a log and its history
  -- succeeds. The log becomes the newest of the history, of which the newest `max` remain, and a new
  -- log is empty.
  pub rotate_logs-refines :
      (max : ℕ) (d : Disk) (l : Logs)
      → Keeps c b limit max d l
      → (f : Files) × (rotate_logs permits d ≡ done (success, after d f))
        × Keeps c b limit max (after d f) (rotate_spec max l)
  unfolding rotate_logs
  rotate_logs-refines zero d l keeps = absurd (omega (arith, keeps.some_history))
  rotate_logs-refines (suc m) d l keeps =
      let (n, k, split, chosen) = surplus-entries (c ∷ b) m (length l.history) in
      let lw = record d.writer { file = closed_file } in
      let (f, shifted, rep) = shift_logs_lem m n k d l lw keeps refl split in
      let order =
        sorted d.writer.file_name c b d.files l.current l.history keeps.line keeps.rep
          keeps.short in
      let files_lem = ap₂ surplus keeps.bounded order ∙ chosen in
      (
        f,
        rw (all Call.read_dir, files_lem) (ap done shifted),
        record {
          named = keeps.named;
          line = keeps.line;
          own = keeps.own;
          sizes = keeps.sizes;
          bounded = keeps.bounded;
          some_history = keeps.some_history;
          fits = keeps.fits;
          short = omega (arith, keeps.fits, length-take m l.history);
          rep = rep;
        },
      )
