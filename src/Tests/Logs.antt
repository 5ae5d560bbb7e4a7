-- ===== src/Tests/Logs.antt =====
-- The log writer on a directory of one log and one rotated file.
use localsend_switchboard.Prelude.{
  ℕ, zero, suc, ◌≡◌, ◌≢◌, refl, sym, ap, ◌∙◌, subst, Bool, true, false, none, some, [], ◌∷◌, ◌++◌,
  arith, Bytes, Bytes-discrete, codes, get_elem?,
}
use localsend_switchboard.Prelude.Assoc
use mathlib.Core.Logic.{if_neg}
use localsend_switchboard.Prelude.Int.{pos}
use localsend_switchboard.Entities.{RotatedLogFileName}
use localsend_switchboard.Std.Channel.{done, panicked}
use localsend_switchboard.Std.Strconv.{format_uint}
use localsend_switchboard.Utils.Path.{base, get_base_name_without_ext}
use localsend_switchboard.Utils.Log.{
  Call, Files, Disk, closed_file, open_file, failure, rotated_of, rotated_log_file, rotate_logs,
  write, new_log_writer,
}
use localsend_switchboard.Utils.Log.Names.{rotated_of-rotated_log_file, rotated_log_file_injective}
use localsend_switchboard.Utils.Log.Rep.{Rep, entry, has}
use localsend_switchboard.Utils.Log.Rotate.{Logs, Keeps}
use localsend_switchboard.Utils.Log.Write.{IsWriting, Refined, write-refines}
use localsend_switchboard.Utils.Log.Stream.{text, write_all, write_all-stream, new_log_writer-Keeps}
use localsend_switchboard.Utils.Log.Faults.{rotate_logs-failure, rotate_logs-panicked}

abbrev name : Bytes
name = codes "a.log"

abbrev two_files : Files
two_files = (name, codes "new") ∷ (codes "a_rotated.1.log", codes "old") ∷ []

abbrev two_logs : Logs
two_logs = record { current = codes "new"; history = codes "old" ∷ [] }

-- A writer of at most four bytes and one log of history.
abbrev disk : Disk
disk = record {
  writer = record {
    file_name = name;
    max_size = pos 4;
    max_historical_logs = pos 1;
    file = open_file;
    closed = false;
  };
  files = two_files;
}

abbrev all : Call → Bool
all call = true

own : (i : ℕ) → name ≢ rotated_log_file (codes "a") i
unfolding rotated_log_file
own i e = absurd (cc (ap (λ s. get_elem? s 1) e))

newest : rotated_log_file (codes "a") 1 ≡ codes "a_rotated.1.log"
unfolding rotated_log_file format_uint
newest = refl

newest_other : (i : ℕ) → codes "a_rotated.1.log" ≢ rotated_log_file (codes "a") (suc (suc i))
newest_other i e =
    absurd (omega (arith, rotated_log_file_injective (codes "a") 1 (suc (suc i)) (newest ∙ e)))

holds :
    (i : ℕ) → has two_files (rotated_log_file (codes "a") (suc i)) ≡ get_elem? (codes "old" ∷ []) i
unfolding Assoc.get? Bytes-discrete
holds zero = rw newest refl
holds (suc i) = rw (if_neg _ (own (suc (suc i))), if_neg _ (newest_other i)) refl

known : rotated_of (codes "a_rotated.1.log") ≡ some (entry (codes "a") 1)
known =
    subst (λ s. rotated_of s ≡ some (entry (codes "a") 1)) newest
      (rotated_of-rotated_log_file [] 1 b'a' (omega arith, tt) (omega arith))

own_unread : rotated_of name ≡ none
unfolding rotated_of
own_unread = refl

alone :
    (other : Bytes) (e : RotatedLogFileName)
    → rotated_of other ≡ some e
    → has two_files other ≢ none
    → (i : ℕ) × (e ≡ entry (codes "a") (suc i))
unfolding Assoc.get?
alone other e read there = elim (Bytes-discrete name other) [
  | yes p ↦ absurd (cc (own_unread, subst (λ k. rotated_of k ≡ some e) (sym p) read))
  | no p ↦ elim (Bytes-discrete (codes "a_rotated.1.log") other) [
    | yes q ↦ (0, cc (known, subst (λ k. rotated_of k ≡ some e) (sym q) read))
    | no q ↦ absurd (there (rw (if_neg _ p, if_neg _ q) refl))
  ]
]

two_files-Rep : Rep name b'a' [] two_files (codes "new") (codes "old" ∷ [])
unfolding Assoc.get? Bytes-discrete
two_files-Rep = record {
  is_map = (refl, (refl, tt));
  current_log = refl;
  holds = holds;
  alone = alone;
}

named : get_base_name_without_ext name ≡ codes "a"
unfolding get_base_name_without_ext
named = refl

disk-Keeps : Keeps b'a' [] 4 1 disk two_logs
disk-Keeps = record {
  named = named;
  line = (omega arith, tt);
  own = own;
  sizes = refl;
  bounded = refl;
  some_history = omega arith;
  fits = omega arith;
  short = omega arith;
  rep = two_files-Rep;
}

disk-IsWriting : IsWriting disk
disk-IsWriting = record { opened = refl; running = refl }

write-refines_example :
    Refined all
      (λ call. refl)
      b'a'
      []
      4
      1
      (record { current = codes "more"; history = codes "new" ∷ [] })
      (write all (codes "more") disk)
write-refines_example =
    write-refines all (λ call. refl) b'a' [] 4 1 (codes "more") disk two_logs disk-Keeps
      disk-IsWriting

write_all-stream_example :
    (l' : Logs) × (lost : Bytes) × Refined all
      (λ call. refl)
      b'a'
      []
      4
      1
      l'
      (write_all all (codes "x" ∷ codes "more" ∷ []) disk)
    × (lost ++ text l' ≡ codes "oldnew" ++ codes "xmore")
write_all-stream_example =
    write_all-stream all (λ call. refl) b'a' [] 4 1 (codes "x" ∷ codes "more" ∷ []) disk two_logs
      disk-Keeps disk-IsWriting

rotated_of-rotated_log_file_example :
    rotated_of (rotated_log_file (codes "switch") 12)
    ≡ some (record {
      base_name = codes "switch";
      log_id = 12;
      full_name = rotated_log_file (codes "switch") 12;
    })
rotated_of-rotated_log_file_example =
    rotated_of-rotated_log_file (codes "witch") 12 b's'
      (omega arith, (omega arith, (omega arith, (omega arith, (omega arith, (omega arith, tt))))))
      (omega arith)

new_log_writer-Keeps_example :
    (d : Disk) × (new_log_writer all name (pos 4) (pos 1) two_files ≡ some d)
    × Keeps b'a' [] 4 1 d two_logs
    × IsWriting d
unfolding base
new_log_writer-Keeps_example =
    new_log_writer-Keeps all name 4 1 b'a' [] two_files two_logs refl refl named (omega arith, tt)
      own (omega arith) (omega arith) (omega arith) two_files-Rep

-- The system that keeps a directory from being read.
abbrev unreadable : Call → Bool
unreadable Call.read_dir = false
unreadable call = true

-- The writer with its file closed.
abbrev shut : Disk
shut = record disk { writer = record disk.writer { file = closed_file } }

rotate_logs-failure_example : write all (codes "more") shut ≡ done (failure, shut)
rotate_logs-failure_example = rotate_logs-failure unreadable all (codes "more") disk shut unread
  where
    unread : rotate_logs unreadable disk ≡ done (failure, shut)
    unread = unfold rotate_logs in refl

rotate_logs-panicked_example :
    rotate_logs all (record disk { writer = record disk.writer { max_historical_logs = pos 0 } })
    ≡ panicked
rotate_logs-panicked_example =
    rotate_logs-panicked all
      (record disk { writer = record disk.writer { max_historical_logs = pos 0 } }) refl
      (omega arith)
