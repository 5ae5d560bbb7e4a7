-- ===== src/Services/SwitchLounge/Drain.antt =====
-- What a receive and Close do, and that they keep the invariant.
use localsend_switchboard.Prelude.{
  ℕ, ◌≡◌, refl, ap, true, false, ◌⊎◌, inl, inr, none, some, List, [], ◌∷◌, arith, length,
  Bool-cases,
}
use localsend_switchboard.Std.Channel.{
  Outcome, done, blocked, panicked, Channel, send-done, send-blocked,
}
use localsend_switchboard.Std.Channel
use localsend_switchboard.Services.SwitchLounge.{SwitchLounge, read, close}
use localsend_switchboard.Services.SwitchLounge.Inv.{Inv}

dequeue-Inv :
    (sl : SwitchLounge) (msg : ℕ) (rest : List ℕ)
    → Inv sl
    → sl.lounge.buffer ≡ msg ∷ rest
    → Inv (record sl { lounge = record sl.lounge { buffer = rest } })
dequeue-Inv sl msg rest v e = record {
  cache = v.cache;
  bounded = v.bounded;
  within = omega (arith, ap length e, v.within);
  size = v.size;
  shut = v.shut;
  signalled = v.signalled;
}

pub List-cases : (xs : List ℕ) → (xs ≡ []) ⊎ ((x : ℕ) × (ys : List ℕ) × (xs ≡ x ∷ ys))
List-cases [] = inl refl
List-cases (x ∷ ys) = inr (x, ys, refl)

-- A receive waits, or takes the oldest message, or reports that the room is closed and drained.
pub read-Inv :
    (sl : SwitchLounge)
    → Inv sl
    → ((sl.lounge.buffer ≡ []) × (sl.closed ≡ false) × (read sl ≡ blocked))
      ⊎ ((sl.lounge.buffer ≡ []) × (sl.closed ≡ true) × (read sl ≡ done (none, sl)))
      ⊎ ((msg : ℕ) × (sl' : SwitchLounge) × (sl.lounge.buffer ≡ msg ∷ sl'.lounge.buffer)
          × (read sl ≡ done (some msg, sl'))
          × Inv sl')
unfolding read
read-Inv sl v = elim (List-cases sl.lounge.buffer) [
  | inr (msg, rest, e) ↦ inr (
      inr (
        msg,
        record sl { lounge = record sl.lounge { buffer = rest } },
        e,
        rw (e, read),
        dequeue-Inv sl msg rest v e,
      ))
  | inl e ↦ elim (Bool-cases sl.closed) [
    | inl c ↦ inr (inl (e, c, ground arith))
    | inr c ↦ inl (e, c, ground arith)
  ]
]

-- From a state with the invariant, closed or not, Close ends without a panic, leaves the waiting room
-- closed, and keeps the invariant.
pub close-Inv :
    (sl : SwitchLounge)
    → Inv sl
    → (sl' : SwitchLounge) × (close sl ≡ done sl') × (sl'.closed ≡ true) × Inv sl'
unfolding close Channel.close
close-Inv sl v = elim (Bool-cases sl.closed) [
  | inl e ↦ (sl, ground arith, e, v)
  | inr e ↦ (
    record sl {
      closed = true;
      close_signal = record sl.close_signal { is_closed = true };
      lounge = record sl.lounge { is_closed = true };
    },
    ground arith,
    refl,
    record {
      cache = v.cache;
      bounded = v.bounded;
      within = v.within;
      size = v.size;
      shut = refl;
      signalled = refl;
    },
  )
]
