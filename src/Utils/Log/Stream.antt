-- ===== src/Utils/Log/Stream.antt =====
-- Runs of writes: the logs, read from the oldest to the current one, are the end of what was written.
use mathlib.Core.List.{append_assoc}
use localsend_switchboard.Prelude.{
  ℕ, zero, suc, ◌+◌, ◌^◌, ◌≤◌, ◌<◌, ◌≡◌, ◌≢◌, refl, sym, ap, ◌∙◌, inl, inr, Bool, true, false, some,
  List, [], ◌∷◌, ◌++◌, arith, ltb, Bytes, length, take, Bool-cases,
}
use localsend_switchboard.Prelude.Int.{pos}
use localsend_switchboard.Std.Channel.{Outcome, done, ◌>>=◌}
use localsend_switchboard.Utils.Path.{base, get_base_name_without_ext}
use localsend_switchboard.Utils.Log.{
  Call, Files, open_file, Disk, Status, success, rotated_log_file, os_open, write, new_log_writer,
}
use localsend_switchboard.Utils.Log.Names.{IsLine}
use localsend_switchboard.Utils.Log.Rep.{Rep, has}
use localsend_switchboard.Utils.Log.Rotate.{Logs, Keeps, write_spec}
use localsend_switchboard.Utils.Log.Write.{IsWriting, Refined, write-refines}

-- The contents of a history, from the oldest on.
abbrev pub older : List Bytes → Bytes
older [] = []
older (x ∷ h) = older h ++ x

abbrev pub text : Logs → Bytes
text l = older l.history ++ l.current

abbrev pub written : List Bytes → Bytes
written [] = []
written (p ∷ ps) = p ++ written ps

-- The writes of a run, one after the other.
unfoldable pub write_all : (Call → Bool) → List Bytes → Disk → Outcome (Status × Disk)
write_all permits [] d = done (success, d)
write_all permits (p ∷ ps) d = write permits p d >>= λ r. write_all permits ps r.1

append_nil : (xs : Bytes) → xs ++ [] ≡ xs
append_nil [] = refl
append_nil (x ∷ xs) = ap (◌∷◌ x) (append_nil xs)

older-take : (n : ℕ) (h : List Bytes) → (lost : Bytes) × (lost ++ older (take n h) ≡ older h)
older-take zero h = (older h, append_nil (older h))
older-take (suc n) [] = ([], refl)
older-take (suc n) (x ∷ h) =
    let (lost, e) = older-take n h in
    (lost, sym (append_assoc lost (older (take n h)) x) ∙ ap (λ o. o ++ x) e)

-- A write adds to the end, and drops from the start.
write_spec-text :
    (limit max : ℕ) (p : Bytes) (l : Logs)
    → 1 ≤ max
    → (lost : Bytes) × (lost ++ text (write_spec limit max p l) ≡ text l ++ p)
write_spec-text limit zero p l h = absurd (omega arith)
write_spec-text limit (suc m) p l h = elim (Bool-cases (ltb limit (length l.current + length p))) [
  | inl e ↦
      let (lost, kept) = older-take (suc m) (l.current ∷ l.history) in
      rw e (
        lost,
        sym (append_assoc lost (older (take (suc m) (l.current ∷ l.history))) p)
            ∙ ap (λ o. o ++ p) kept,
      )
  | inr e ↦ rw e ([], sym (append_assoc (older l.history) l.current p))
]

module _ (permits : Call → Bool) (all : (call : Call) → permits call ≡ true) (c : ℕ) (b : Bytes)
    (limit max : ℕ) where
  -- When the system refuses no call, every write of a run succeeds. The logs, read from the oldest of
  -- the history to the current one, are then what they were followed by what was written, without
  -- some first part of it.
  pub write_all-stream :
      (ps : List Bytes) (d : Disk) (l : Logs)
      → Keeps c b limit max d l
      → IsWriting d
      → (l' : Logs) × (lost : Bytes) × Refined permits all c b limit max l' (write_all permits ps d)
        × (lost ++ text l' ≡ text l ++ written ps)
  unfolding write_all
  write_all-stream [] d l keeps on = (l, [], (d, refl, keeps, on), sym (append_nil (text l)))
  write_all-stream (p ∷ ps) d l keeps on =
      let (d1, wrote, keeps1, on1) = write-refines permits all c b limit max p d l keeps on in
      let (lost, e) = write_spec-text limit max p l keeps.some_history in
      let (l', lost', r, e') = write_all-stream ps d1 (write_spec limit max p l) keeps1 on1 in
      (
        l',
        lost ++ lost',
        rw wrote r,
        append_assoc lost lost' (text l')
            ∙ ap (λ t. lost ++ t) e'
            ∙ sym (append_assoc lost (text (write_spec limit max p l)) (written ps))
            ∙ ap (λ t. t ++ written ps) e
            ∙ append_assoc (text l) p (written ps),
      )

os_open_present :
    (permits : Call → Bool) (name c : Bytes) (files : Files)
    → permits (Call.opens name) ≡ true
    → has files name ≡ some c
    → os_open permits name files ≡ some files
unfolding os_open
os_open_present permits name c files may here = rw (may, here) refl

-- A writer over a directory that holds a log and its history, of an earlier run, goes on with them.
pub new_log_writer-Keeps :
    (permits : Call → Bool) (path : Bytes) (limit max c : ℕ) (b : Bytes) (files : Files) (l : Logs)
    → permits Call.make_dir ≡ true
    → permits (Call.opens (base path)) ≡ true
    → get_base_name_without_ext (base path) ≡ c ∷ b
    → IsLine (c ∷ b)
    → ((i : ℕ) → base path ≢ rotated_log_file (c ∷ b) i)
    → 1 ≤ max
    → max < 2 ^ 31
    → length l.history < 2 ^ 31
    → Rep (base path) c b files l.current l.history
    → (d : Disk) × (new_log_writer permits path (pos limit) (pos max) files ≡ some d)
      × Keeps c b limit max d l
      × IsWriting d
unfolding new_log_writer
new_log_writer-Keeps permits path limit max c b files l makes may named line own filled fits short
      rep =
    (
      record {
        writer = record {
          file_name = base path;
          max_size = pos limit;
          max_historical_logs = pos max;
          file = open_file;
          closed = false;
        };
        files = files;
      },
      rw
          (
            makes,
            os_open_present permits (base path) l.current files may rep.current_log,
            new_log_writer,
          )
          refl,
      record {
        named = named;
        line = line;
        own = own;
        sizes = refl;
        bounded = refl;
        some_history = filled;
        fits = fits;
        short = short;
        rep = rep;
      },
      record { opened = refl; running = refl },
    )
