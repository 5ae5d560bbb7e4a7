-- ===== src/Utils/Cipher.antt =====
-- utils/cipher.go. SHA-256 and AES-GCM are Go's: an `Aead` is what the program uses of a cipher, and
-- the nonce that `rand.Read` fills is an argument; crypto/rand documents that it never returns an error.
pub mod RoundTrip
use localsend_switchboard.Prelude.{
  ℕ, ◌≡◌, refl, Bool, true, false, Option, none, some, ◌++◌, arith, ltb, if◌then◌else◌, Bytes,
  length, take, drop, ◌==◌, [], ◌∷◌, ◌⊎◌, inl, inr, ◌<◌, ◌∙◌, ap, ◌+◌, length-append, take-append,
  drop-append,
}

-- `cipher.AEAD` under a fixed key, with no additional data.
pub record Aead : Type 0 where
  pub nonce_size : ℕ
  pub seal : Bytes → Bytes → Bytes
  pub open_sealed : Bytes → Bytes → Option Bytes

-- What AES-GCM promises: what was sealed opens under the same nonce, and a tag is added.
pub record IsAead (a : Aead) : Type 0 where
  pub opens :
      (nonce text : Bytes)
      → length nonce ≡ a.nonce_size
      → a.open_sealed nonce (a.seal nonce text) ≡ some text
  pub overhead : ℕ
  pub sealed_length : (nonce text : Bytes) → length (a.seal nonce text) ≡ length text + overhead

-- SwitchDataCipherUtil: disabled without a key, else with its cipher.
pub data SwitchDataCipherUtil : Type 0 where
  disabled : SwitchDataCipherUtil
  enabled : Aead → SwitchDataCipherUtil

-- Encrypt, under the nonce that was read.
unfoldable pub encrypt : SwitchDataCipherUtil → Bytes → Bytes → Bytes
encrypt disabled nonce payload = payload
encrypt (enabled a) nonce payload = nonce ++ a.seal nonce payload

-- Decrypt; `none` is its error.
unfoldable pub decrypt : SwitchDataCipherUtil → Bytes → Option Bytes
decrypt disabled encrypted = some encrypted
decrypt (enabled a) encrypted =
    if ltb (length encrypted) a.nonce_size
    then none
    else a.open_sealed (take a.nonce_size encrypted) (drop a.nonce_size encrypted)

-- The package's variables `once` and `switchDataCipherUtilInstance`.
pub record Singleton : Type 0 where
  pub done : Bool
  pub instance_ : Option SwitchDataCipherUtil

-- What a call returns: the instance, nil where the first call failed, or a panic.
pub data Got : Type 0 where
  util : SwitchDataCipherUtil → Got
  nil_pointer panicked : Got

returned : Option SwitchDataCipherUtil → Got
returned none = nil_pointer
returned (some u) = util u

install : Option Aead → Got × Singleton
install none = (panicked, record { done = true; instance_ = none })
install (some a) = (util (enabled a), record { done = true; instance_ = some (enabled a) })

-- GetSwitchDataCipherUtilInstance; `new_cipher` derives the key from the secret and makes the cipher.
unfoldable pub get_switch_data_cipher_util_instance :
    (Bytes → Option Aead) → Bytes → Singleton → Got × Singleton
unfolding returned install
get_switch_data_cipher_util_instance new_cipher secret s =
    if s.done
    then (returned s.instance_, s)
    else if length secret == 0
    then (util disabled, record { done = true; instance_ = some disabled })
    else install (new_cipher secret)

-- A nonce that fits the cipher, as `rand.Read` delivers it.
abbrev pub IsNonce : SwitchDataCipherUtil → Bytes → Type 0
IsNonce disabled nonce = Unit
IsNonce (enabled a) nonce = length nonce ≡ a.nonce_size

abbrev pub IsSound : SwitchDataCipherUtil → Type 0
IsSound disabled = Unit
IsSound (enabled a) = IsAead a
