-- ===== src/Std/Channel.antt =====
-- Go's buffered channels, and how an operation of a goroutine ends.
use localsend_switchboard.Prelude.{
  ℕ, ◌≤◌, ◌<◌, ◌≡◌, arith, Bool, true, false, List, [], ◌∷◌, ◌++◌, ltb, if◌then◌else◌, length,
}

-- An operation ends with a value, waits for another goroutine, or panics.
pub data Outcome {ℓ} (A : Type ℓ) : Type ℓ where
  done : A → Outcome A
  blocked panicked : Outcome A

infixl 5 ◌>>=◌
abbrev pub ◌>>=◌ {ℓ κ} : {A : Type ℓ} {B : Type κ} → Outcome A → (A → Outcome B) → Outcome B
done a >>= f = f a
blocked >>= f = blocked
panicked >>= f = panicked

pub record Channel (A : Type 0) : Type 0 where
  pub buffer : List A
  pub capacity : ℕ
  pub is_closed : Bool

module _ {A : Type 0} where
  -- `make(chan A, capacity)`
  abbrev pub make : ℕ → Channel A
  make n = record { buffer = []; capacity = n; is_closed = false }

  -- `c <- a`: a closed channel panics, a full one blocks. In a `select` with a default, blocked means
  -- that the default is taken.
  unfoldable pub send : Channel A → A → Outcome (Channel A)
  send c a =
      if c.is_closed
      then panicked
      else if ltb (length c.buffer) c.capacity
      then done (record c { buffer = c.buffer ++ a ∷ [] })
      else blocked

  -- `close(c)`
  unfoldable pub close : Channel A → Outcome (Channel A)
  close c = if c.is_closed then panicked else done (record c { is_closed = true })

  abbrev pub IsWithin : Channel A → Type 0
  IsWithin c = length c.buffer ≤ c.capacity

module _ {A : Type 0} (c : Channel A) (a : A) where
  pub send-done :
      c.is_closed ≡ false
      → length c.buffer < c.capacity
      → send c a ≡ done (record c { buffer = c.buffer ++ a ∷ [] })
  unfolding send
  send-done live room = ground arith

  pub send-blocked : c.is_closed ≡ false → c.capacity ≤ length c.buffer → send c a ≡ blocked
  unfolding send
  send-blocked live full = ground arith

  pub send-panicked : c.is_closed ≡ true → send c a ≡ panicked
  unfolding send
  send-panicked dead = ground arith
