-- ===== src/Utils/Log.antt =====
-- utils/log.go: the log writer and its rotation. The directory of the log file is an association list
-- of names and contents, in the order in which os.ReadDir lists it; which calls the system refuses for
-- reasons of its own is an argument; a call that it refuses does nothing.
pub mod Names
pub mod Sort
pub mod Rep
pub mod Places
pub mod Shift
pub mod Room
pub mod Reopen
pub mod Rotate
pub mod Write
pub mod Stream
pub mod Faults
use localsend_switchboard.Prelude.{
  ℕ, zero, suc, ◌+◌, Bool, true, false, Option, none, some, List, [], ◌∷◌, ◌++◌, leb, if◌then◌else◌,
  Bytes, Bytes-discrete, length, take, drop,
}
use localsend_switchboard.Prelude.Assoc
use localsend_switchboard.Prelude.Int.{ℤ, pos, negsuc, ltb_ℤ, ◌-ℤ◌}
use localsend_switchboard.Entities.{RotatedLogFileName}
use localsend_switchboard.Std.Channel.{Outcome, done, panicked, ◌>>=◌}
use localsend_switchboard.Utils.Path.{base, get_base_name_without_ext}
use mathlib.Core.List.{reverse}
unfoldable pub use localsend_switchboard.Utils.LogFiles.{
  Files, strip, digits_log, suffix, find_submatch, rotated_of, rotated_log_file, collect,
  insert_by_id, sort_by_id,
}

-- The calls that the system may refuse.
pub data Call : Type 0 where
  make_dir read_dir : Call
  removes opens stats writes closes : Bytes → Call
  renames : Bytes → Bytes → Call

-- `lw.file`: nil, or a file that was closed or not.
pub data Handle : Type 0 where
  nil_file closed_file open_file : Handle

pub record LogWriter : Type 0 where
  pub file_name : Bytes
  pub max_size : ℤ
  pub max_historical_logs : ℤ
  pub file : Handle
  pub closed : Bool

-- The writer and its directory.
pub record Disk : Type 0 where
  pub writer : LogWriter
  pub files : Files

pub data Status : Type 0 where
  success failure : Status

abbrev pub then_go {ℓ} :
    {A : Type ℓ} → Status × Files → (Files → Status × A) → (Files → A) → Status × A
then_go (success, files) next stop = next files
then_go (failure, files) next stop = (failure, stop files)

-- The number of files that are too many, with the current one, of `num` files.
abbrev pub overflow : ℕ → ℤ → ℤ
overflow num max = pos (num + 1) -ℤ max

-- From the index on, the files that go, and those before it, which are kept; a negative index panics.
abbrev pub split_at :
    ℤ → List RotatedLogFileName → Option (List RotatedLogFileName × List RotatedLogFileName)
split_at (pos i) es = some (drop i es, take i es)
split_at (negsuc _) es = none

-- The files that are too many, the oldest, and those that are kept; `none` where an index is out of
-- range.
unfoldable pub surplus :
    ℤ → List RotatedLogFileName → Option (List RotatedLogFileName × List RotatedLogFileName)
surplus max es =
    let num = length es in
    if ltb_ℤ (pos num) max then some ([], es) else split_at (pos num -ℤ overflow num max) es

module _ (permits : Call → Bool) where
  -- `os.Remove`
  unfoldable pub os_remove : Bytes → Files → Option Files
  os_remove name files =
      if permits (removes name)
      then (elim (Assoc.get? Bytes-discrete name files) [
        | none ↦ none
        | some _ ↦ some (Assoc.delete Bytes-discrete name files)
      ])
      else none

  -- `os.Rename`, which replaces a file of the new name.
  unfoldable pub os_rename : Bytes → Bytes → Files → Option Files
  os_rename old new files =
      if permits (renames old new)
      then (elim (Assoc.get? Bytes-discrete old files) [
        | none ↦ none
        | some c ↦ some (Assoc.put Bytes-discrete new c (Assoc.delete Bytes-discrete old files))
      ])
      else none

  -- `os.OpenFile` for appending, which creates the file if it is not there.
  unfoldable pub os_open : Bytes → Files → Option Files
  os_open name files =
      if permits (opens name)
      then (elim (Assoc.get? Bytes-discrete name files) [
        | none ↦ some (Assoc.put Bytes-discrete name [] files)
        | some _ ↦ some files
      ])
      else none

  -- The loop that removes the oldest files.
  unfoldable pub remove_all : List RotatedLogFileName → Files → Status × Files
  unfolding os_remove
  remove_all [] files = (success, files)
  remove_all (e ∷ es) files = elim (os_remove e.full_name files) [
    | none ↦ (failure, files)
    | some files' ↦ remove_all es files'
  ]

  -- The loop that raises the identifiers, over the files from the oldest on.
  unfoldable pub rename_all : List RotatedLogFileName → Files → Status × Files
  unfolding os_rename
  rename_all [] files = (success, files)
  rename_all (e ∷ es) files =
      elim (os_rename e.full_name (rotated_log_file e.base_name (e.log_id + 1)) files) [
        | none ↦ (failure, files)
        | some files' ↦ rename_all es files'
      ]

  -- The last two steps: the current file becomes the newest rotated one, and a new one is opened.
  unfoldable pub reopen : LogWriter → Files → Status × Disk
  unfolding os_rename os_open
  reopen lw files =
      elim (os_rename lw.file_name (rotated_log_file (get_base_name_without_ext lw.file_name) 1)
        files) [
          | none ↦ (failure, record { writer = lw; files = files })
          | some moved ↦ elim (os_open lw.file_name moved) [
            | none ↦ (failure, record { writer = record lw { file = nil_file }; files = moved })
            | some opened ↦
                (success, record { writer = record lw { file = open_file }; files = opened })
          ]
        ]

  -- rotateLogs, behind the choice of the files.
  unfoldable pub shift_logs :
      LogWriter → Files → List RotatedLogFileName → List RotatedLogFileName → Status × Disk
  unfolding remove_all rename_all reopen
  shift_logs lw files old kept =
      then_go (remove_all old files)
        (λ removed.
          then_go (rename_all (reverse kept) removed) (reopen lw)
            (λ fs. record { writer = lw; files = fs }))
        (λ fs. record { writer = lw; files = fs })

  -- rotateLogs
  unfoldable pub rotate_logs : Disk → Outcome (Status × Disk)
  unfolding surplus sort_by_id collect shift_logs
  rotate_logs d =
      let lw = record d.writer { file = closed_file } in
      if permits read_dir
      then (elim (surplus lw.max_historical_logs (sort_by_id (collect d.files))) [
        | none ↦ panicked
        | some (old, kept) ↦ done (shift_logs lw d.files old kept)
      ])
      else done (failure, record { writer = lw; files = d.files })

  -- `lw.file.Write`, on an open file.
  unfoldable pub append_to : Bytes → Disk → Status × Disk
  append_to p d = elim d.writer.file [
    | nil_file ↦ (failure, d)
    | closed_file ↦ (failure, d)
    | open_file ↦
        if permits (writes d.writer.file_name)
        then (elim (Assoc.get? Bytes-discrete d.writer.file_name d.files) [
          | none ↦ (failure, d)
          | some c ↦ (
            success,
            record d { files = Assoc.put Bytes-discrete d.writer.file_name (c ++ p) d.files },
          )
        ])
        else (failure, d)
  ]

  -- The size that `lw.file.Stat` reports; a closed file has none.
  unfoldable pub stat_size : Disk → Option ℕ
  stat_size d = elim d.writer.file [
    | nil_file ↦ none
    | closed_file ↦ none
    | open_file ↦
        if permits (stats d.writer.file_name)
        then (elim (Assoc.get? Bytes-discrete d.writer.file_name d.files) [
          | none ↦ none
          | some c ↦ some (length c)
        ])
        else none
  ]

  abbrev pub after_rotation : Bytes → Status × Disk → Outcome (Status × Disk)
  after_rotation p (success, d) = done (append_to p d)
  after_rotation p (failure, d) = done (failure, d)

  -- Write
  unfoldable pub write : Bytes → Disk → Outcome (Status × Disk)
  unfolding rotate_logs append_to stat_size
  write p d = if d.writer.closed then done (failure, d) else elim (stat_size d) [
    | none ↦ done (failure, d)
    | some size ↦
        if ltb_ℤ d.writer.max_size (pos (size + length p))
        then (rotate_logs d >>= after_rotation p)
        else done (append_to p d)
  ]

  -- Close
  unfoldable pub close : LogWriter → Status × LogWriter
  close lw = elim lw.file [
    | nil_file ↦ (failure, lw)
    | closed_file ↦ if lw.closed then (success, lw) else (failure, lw)
    | open_file ↦
        if lw.closed
        then (success, lw)
        else if permits (closes lw.file_name)
        then (success, record lw { file = closed_file; closed = true })
        else (failure, lw)
  ]

  -- NewLogWriter
  unfoldable pub new_log_writer : Bytes → ℤ → ℤ → Files → Option Disk
  unfolding os_open base
  new_log_writer file_path max_size max_historical_logs files =
      elim (if permits make_dir then os_open (base file_path) files else none) [
        | none ↦ none
        | some opened ↦ some (record {
          writer = record {
            file_name = base file_path;
            max_size = max_size;
            max_historical_logs = max_historical_logs;
            file = open_file;
            closed = false;
          };
          files = opened;
        })
      ]
