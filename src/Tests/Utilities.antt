-- ===== src/Tests/Utilities.antt =====
-- The utilities and the priority queue at concrete values.
use localsend_switchboard.Prelude.{
  ◌≡◌, refl, false, Option, none, some, [], ◌∷◌, Bytes, codes, arith, length,
}
use localsend_switchboard.Std.Heap.{TtlHeapItem, TtlHeap, push}
use localsend_switchboard.Std.Heap.Order.{IsHeap}
use localsend_switchboard.Std.Heap.Queue.{push-IsHeap}
use localsend_switchboard.Utils.Cipher.{
  Aead, enabled, encrypt, decrypt, util, Singleton, get_switch_data_cipher_util_instance,
}
use localsend_switchboard.Utils.Cipher.RoundTrip.{
  decrypt-encrypt, get_switch_data_cipher_util_instance_once,
}
use localsend_switchboard.Tests.Data.{tagging, tagging-IsAead}

decrypt-encrypt_example :
    decrypt (enabled tagging) (encrypt (enabled tagging) (4 ∷ 5 ∷ []) (codes "text"))
    ≡ some (codes "text")
decrypt-encrypt_example =
    decrypt-encrypt (enabled tagging) (4 ∷ 5 ∷ []) (codes "text") tagging-IsAead refl

abbrev unset : Singleton
unset = record { done = false; instance_ = none }

abbrev new_cipher : Bytes → Option Aead
new_cipher key = some tagging

get_switch_data_cipher_util_instance_once_example :
    get_switch_data_cipher_util_instance new_cipher
      (codes "k2")
      (get_switch_data_cipher_util_instance new_cipher (codes "k1") unset).1
    ≡ (
      util (enabled tagging),
      (get_switch_data_cipher_util_instance new_cipher (codes "k1") unset).1,
    )
unfolding get_switch_data_cipher_util_instance
get_switch_data_cipher_util_instance_once_example =
    get_switch_data_cipher_util_instance_once new_cipher (codes "k1") (codes "k2") unset
      (enabled tagging) refl

abbrev first : TtlHeapItem
first = record { id = codes "a"; expire_at = 8 }

abbrev second : TtlHeapItem
second = record { id = codes "b"; expire_at = 3 }

-- The later entry was pushed first.
abbrev two : TtlHeap
two = push (push [] first) second

two-IsHeap : IsHeap (length two) two
two-IsHeap =
    push-IsHeap (push [] first) second (push-IsHeap [] first (λ c p q. absurd (omega arith)))
