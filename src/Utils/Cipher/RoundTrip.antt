-- ===== src/Utils/Cipher/RoundTrip.antt =====
-- What one node encrypts another node decrypts; the instance is made once.
use localsend_switchboard.Prelude.{
  ◌≡◌, refl, false, Option, some, ◌++◌, arith, ltb, Bytes, length, length-append, take-append,
  drop-append,
}
use localsend_switchboard.Utils.Cipher.{
  Aead, IsAead, SwitchDataCipherUtil, disabled, enabled, encrypt, decrypt, Singleton, util,
  get_switch_data_cipher_util_instance, IsNonce, IsSound,
}

decrypt_sealed :
    (a : Aead) (n text : Bytes)
    → IsAead a
    → length n ≡ a.nonce_size
    → decrypt (enabled a) (n ++ a.seal n text) ≡ some text
unfolding decrypt
decrypt_sealed a n text sound size =
    let long : ltb (length (n ++ a.seal n text)) a.nonce_size ≡ false =
      ground (arith, length-append n (a.seal n text)) in
    rw (long, ← size, take-append n (a.seal n text), drop-append n (a.seal n text))
      (sound.opens n text size)

-- Under a cipher that keeps its promise and a nonce of its size, decryption gives the payload back from
-- what encryption under the same key made of it; without a key both leave it as it is.
pub decrypt-encrypt :
    (u : SwitchDataCipherUtil) (nonce payload : Bytes)
    → IsSound u
    → IsNonce u nonce
    → decrypt u (encrypt u nonce payload) ≡ some payload
unfolding encrypt decrypt
decrypt-encrypt disabled nonce payload sound fits = refl
decrypt-encrypt (enabled a) nonce payload sound fits = decrypt_sealed a nonce payload sound fits

-- Whatever the state of the singleton, a call that returns an instance leaves a singleton from which
-- every later call, with any secret, returns the same instance and changes nothing.
pub get_switch_data_cipher_util_instance_once :
    (new_cipher : Bytes → Option Aead) (first later : Bytes) (s : Singleton)
    (u : SwitchDataCipherUtil)
    → (get_switch_data_cipher_util_instance new_cipher first s).0 ≡ util u
    → let s' = (get_switch_data_cipher_util_instance new_cipher first s).1 in
      get_switch_data_cipher_util_instance new_cipher later s' ≡ (util u, s')
unfolding get_switch_data_cipher_util_instance
get_switch_data_cipher_util_instance_once new_cipher first later s u h = ground arith
