-- ===== src/Services/PassiveForwarder/Ttl.antt =====
-- How the TTL falls in the loop over the connections, and which connections are served.
use localsend_switchboard.Prelude.{
  ℕ, zero, suc, ◌+◌, ◌-◌, ◌^◌, ◌≤◌, ◌<◌, ◌≡◌, refl, ap, List, [], ◌∷◌, ◌++◌, arith, leb,
  if◌then◌else◌, length, take, drop,
}
use localsend_switchboard.Services.PassiveForwarder.{decrement}
use localsend_switchboard.Services.TcpConnectionHub.{ConnWithChan}

-- The TTL after `n` rounds.
unfoldable pub fall : ℕ → ℕ → ℕ
fall zero ttl = ttl
fall (suc n) ttl = fall n (decrement ttl)

-- The connections whose round does not end at TTL 0.
unfoldable pub served : ℕ → List ConnWithChan → List ConnWithChan
served ttl [] = []
served ttl (c ∷ cs) =
    let rest = served (decrement ttl) cs in if leb (decrement ttl) 0 then rest else c ∷ rest

pub decrement_pos : (ttl : ℕ) → ttl < 2 ^ 32 → decrement (suc ttl) ≡ ttl
unfolding decrement
decrement_pos ttl h = omega arith

decrement_zero : decrement 0 ≡ 2 ^ 32 - 1
unfolding decrement
decrement_zero = refl

-- A TTL above the number of rounds falls by one in each.
pub fall_above : (n ttl : ℕ) → n ≤ ttl → ttl < 2 ^ 32 → fall n ttl ≡ ttl - n
unfolding fall
fall_above zero ttl h b = omega arith
fall_above (suc n) zero h b = absurd (omega arith)
fall_above (suc n) (suc ttl) h b =
    rw (decrement_pos ttl (omega arith))
      (omega (arith, fall_above n ttl (omega arith) (omega arith)))

-- Below it the TTL wraps round.
pub fall_below : (n ttl : ℕ) → ttl < n → n ≤ 2 ^ 32 → fall n ttl ≡ ttl + 2 ^ 32 - n
unfolding fall
fall_below zero ttl h b = absurd (omega arith)
fall_below (suc n) zero h b =
    rw decrement_zero (omega (arith, fall_above n (2 ^ 32 - 1) (omega arith) (omega arith)))
fall_below (suc n) (suc ttl) h b =
    rw (decrement_pos ttl (omega arith))
      (omega (arith, fall_below n ttl (omega arith) (omega arith)))

-- With a TTL above the number of connections all are served.
pub served_above :
    (ttl : ℕ) (cs : List ConnWithChan) → length cs < ttl → ttl < 2 ^ 32 → served ttl cs ≡ cs
unfolding served
served_above ttl [] h b = refl
served_above zero (c ∷ cs) h b = absurd (omega arith)
served_above (suc ttl) (c ∷ cs) h b =
    rw (decrement_pos ttl (omega arith))
      (ground (arith, served_above ttl cs (omega arith) (omega arith)))

-- So are they at TTL 0, which wraps round.
pub served_zero : (cs : List ConnWithChan) → length cs < 2 ^ 32 → served 0 cs ≡ cs
unfolding served
served_zero [] b = refl
served_zero (c ∷ cs) b =
    rw decrement_zero (ap (◌∷◌ c) (served_above (2 ^ 32 - 1) cs (omega arith) (omega arith)))

-- With a positive TTL up to the number of connections the one at that place is left out, and those
-- behind it are served.
pub served_below :
    (ttl : ℕ) (cs : List ConnWithChan)
    → suc ttl ≤ length cs
    → length cs < 2 ^ 32
    → served (suc ttl) cs ≡ take ttl cs ++ drop (suc ttl) cs
unfolding served
served_below ttl [] h b = absurd (omega arith)
served_below zero (c ∷ cs) h b = rw (decrement_pos 0 (omega arith)) (served_zero cs (omega arith))
served_below (suc ttl) (c ∷ cs) h b =
    rw (decrement_pos (suc ttl) (omega arith))
      (ground (arith, served_below ttl cs (omega arith) (omega arith)))
