-- ===== src/Utils/Log/Write.antt =====
-- A write keeps what its specification says, whether it rotates or not; so does a run of writes.
use localsend_switchboard.Prelude.{
  ℕ, suc, ◌+◌, ◌≡◌, refl, sym, ap, ◌∙◌, subst, inl, inr, Bool, true, false, none, some, ◌++◌, arith,
  if◌then◌else◌, ltb, Bytes, Bytes-discrete, length, Bool-cases,
}
use localsend_switchboard.Prelude.Assoc
use localsend_switchboard.Std.Channel.{Outcome, done, ◌>>=◌}
use localsend_switchboard.Utils.Log.{
  Call, open_file, Disk, Status, success, rotated_of, rotate_logs, append_to, stat_size,
  after_rotation, write,
}
use localsend_switchboard.Utils.Log.Rotate.{
  Logs, Keeps, write_spec, rotate_spec, after, rotate_logs-refines,
}

-- The writer's file is open, and the writer is not closed.
pub record IsWriting (d : Disk) : Type 0 where
  pub opened : d.writer.file ≡ open_file
  pub running : d.writer.closed ≡ false

-- The disk with another content of the current log.
abbrev holding : Bytes → Disk → Disk
holding s d = record d { files = Assoc.put Bytes-discrete d.writer.file_name s d.files }

module _ (c : ℕ) (b : Bytes) (limit max : ℕ) where
  holding-Keeps :
      (s : Bytes) (d : Disk) (l : Logs)
      → Keeps c b limit max d l
      → Keeps c b limit max (holding s d) (record l { current = s })
  holding-Keeps s d l keeps =
      let r = keeps.rep in
      record {
        named = keeps.named;
        line = keeps.line;
        own = keeps.own;
        sizes = keeps.sizes;
        bounded = keeps.bounded;
        some_history = keeps.some_history;
        fits = keeps.fits;
        short = keeps.short;
        rep = record {
          is_map = Assoc.put-IsMap Bytes-discrete d.writer.file_name s d.files r.is_map;
          current_log = Assoc.get?-put_own Bytes-discrete d.writer.file_name s d.files;
          holds = λ i.
              Assoc.get?-put_other Bytes-discrete d.writer.file_name _ s d.files (keeps.own (suc i))
              ∙ r.holds i;
          alone = λ other e read there. elim (Bytes-discrete d.writer.file_name other) [
            | yes p ↦
                r.alone d.writer.file_name e (subst (λ k. rotated_of k ≡ some e) (sym p) read)
                  (λ g. absurd (some_none (sym r.current_log ∙ g)))
            | no p ↦ r.alone other e read (λ g.
                there
                  (Assoc.get?-put_other Bytes-discrete d.writer.file_name other s d.files p ∙ g))
          ];
        };
      }
    where
      some_none : {x : Bytes} → ¬ (some x ≡ none)
      some_none h = absurd (cc h)

module _ (permits : Call → Bool) (all : (call : Call) → permits call ≡ true) (c : ℕ) (b : Bytes)
    (limit max : ℕ) where
  stat_size_lem :
      (d : Disk) (l : Logs)
      → Keeps c b limit max d l
      → IsWriting d
      → stat_size permits d ≡ some (length l.current)
  unfolding stat_size
  stat_size_lem d l keeps on =
      rw (on.opened, all (Call.stats d.writer.file_name), keeps.rep.current_log) refl

  append_to_lem :
      (p : Bytes) (d : Disk) (l : Logs)
      → Keeps c b limit max d l
      → IsWriting d
      → append_to permits p d ≡ (success, holding (l.current ++ p) d)
  unfolding append_to
  append_to_lem p d l keeps on =
      ground (arith, on.opened, all (Call.writes d.writer.file_name), keeps.rep.current_log)

  -- The state of a disk that keeps what a specification says, behind a call that succeeds.
  abbrev pub Refined : Logs → Outcome (Status × Disk) → Type 0
  Refined l r = (d : Disk) × (r ≡ done (success, d)) × Keeps c b limit max d l × IsWriting d

  -- A write is what its size makes it.
  write_lem :
      (p : Bytes) (d : Disk) (l : Logs)
      → Keeps c b limit max d l
      → IsWriting d
      → write permits p d ≡ (
          if ltb limit (length l.current + length p)
          then (rotate_logs permits d >>= after_rotation permits p)
          else done (append_to permits p d))
  unfolding write
  write_lem p d l keeps on = ground (arith, on.running, stat_size_lem d l keeps on, keeps.sizes)

  -- When the system refuses no call, a write of an open writer succeeds, and the directory then keeps
  -- what the specification of a write says.
  pub write-refines :
      (p : Bytes) (d : Disk) (l : Logs)
      → Keeps c b limit max d l
      → IsWriting d
      → Refined (write_spec limit max p l) (write permits p d)
  write-refines p d l keeps on = elim (Bool-cases (ltb limit (length l.current + length p))) [
    | inl e ↦
        let (f, rotated, keeps') = rotate_logs-refines permits all c b limit max d l keeps in
        let on' : IsWriting (after d f) = record { opened = refl; running = on.running } in
        (
          holding p (after d f),
          rw (write_lem p d l keeps on, e, rotated)
              (ap done (append_to_lem p (after d f) (rotate_spec max l) keeps' on')),
          rw e (holding-Keeps c b limit max p (after d f) (rotate_spec max l) keeps'),
          record { opened = refl; running = on.running },
        )
    | inr e ↦ (
      holding (l.current ++ p) d,
      rw (write_lem p d l keeps on, e) (ap done (append_to_lem p d l keeps on)),
      rw e (holding-Keeps c b limit max (l.current ++ p) d l keeps),
      record { opened = on.opened; running = on.running },
    )
  ]
