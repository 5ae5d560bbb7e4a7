-- ===== src/Services/TcpCore/Ends.antt =====
-- The receiving loop ends on every stream: each of its rounds takes a byte at least.
use localsend_switchboard.Prelude.{
  ℕ, zero, suc, ◌+◌, ◌*◌, ◌^◌, ◌≤◌, ◌<◌, ◌≡◌, ◌≢◌, refl, Bool, true, false, Option, none, some, [],
  ◌∷◌, arith, ltb, ◌==◌, if◌then◌else◌, Bytes, length, drop, take,
}
use localsend_switchboard.Configs.{tcp_socket_read_buffer_size}
use localsend_switchboard.Entities.{DiscoveryMessage}
use localsend_switchboard.Services.TcpCore.{
  Proto, get_uint32, CloseReason, out_of_fuel, Received, closes, heartbeat, message, opened,
  receive_payload, receive, receive_loop, receive_all,
}
use localsend_switchboard.Utils.Cipher.{SwitchDataCipherUtil, decrypt}

-- What a round leaves is shorter than `n`, and a round is never out of fuel.
abbrev Shrinks : ℕ → Received → Type 0
Shrinks n (closes reason) = reason ≢ out_of_fuel
Shrinks n (heartbeat rest) = length rest < n
Shrinks n (message m rest) = length rest < n

if-Shrinks :
    (n : ℕ) (b : Bool) (x y : Received) → Shrinks n x → Shrinks n y → Shrinks n (if b then x else y)
if-Shrinks n true x y p q = p
if-Shrinks n false x y p q = q

length-drop : (n : ℕ) (bytes : Bytes) → length (drop n bytes) ≤ length bytes
length-drop zero bytes = omega arith
length-drop (suc n) [] = omega arith
length-drop (suc n) (b ∷ bytes) = omega (arith, length-drop n bytes)

unmarshalled-Shrinks :
    (n : ℕ) (rest : Bytes) (o : Option DiscoveryMessage)
    → length rest < n
    → Shrinks n (elim o [ none ↦ closes CloseReason.unmarshal_failed | some m ↦ message m rest ])
unmarshalled-Shrinks n rest none h = λ e. cc
unmarshalled-Shrinks n rest (some m) h = h

opened-Shrinks :
    (n : ℕ) (codec : Proto) (rest : Bytes) (o : Option Bytes)
    → length rest < n
    → Shrinks n (opened codec rest o)
unfolding opened
opened-Shrinks n codec rest none h = λ e. cc
opened-Shrinks n codec rest (some payload) h =
    unmarshalled-Shrinks n rest (codec.unmarshal payload) h

payload-Shrinks :
    (util : SwitchDataCipherUtil) (codec : Proto) (n : ℕ) (bytes : Bytes)
    → length bytes < n
    → Shrinks n (receive_payload util codec (get_uint32 bytes))
unfolding receive_payload get_uint32
payload-Shrinks util codec n (a ∷ b ∷ c ∷ d ∷ rest) h =
    let size = a * 2 ^ 24 + b * 2 ^ 16 + c * 2 ^ 8 + d in
    if-Shrinks n (ltb tcp_socket_read_buffer_size size) _ _ (λ e. cc)
      (if-Shrinks n (ltb (length rest) size) _ _ (λ e. cc)
        (opened-Shrinks n codec (drop size rest) (decrypt util (take size rest))
          (omega (arith, length-drop size rest))))
payload-Shrinks util codec n (a ∷ b ∷ c ∷ []) h = λ e. cc
payload-Shrinks util codec n (a ∷ b ∷ []) h = λ e. cc
payload-Shrinks util codec n (a ∷ []) h = λ e. cc
payload-Shrinks util codec n [] h = λ e. cc

receive-Shrinks :
    (util : SwitchDataCipherUtil) (codec : Proto) (bytes : Bytes)
    → Shrinks (length bytes) (receive util codec bytes)
unfolding receive
receive-Shrinks util codec [] = λ e. cc
receive-Shrinks util codec (t ∷ bytes) =
    if-Shrinks (suc (length bytes)) (t == 2) _ _ (omega arith) (
      if-Shrinks (suc (length bytes)) (t == 1) _ _
        (payload-Shrinks util codec (suc (length bytes)) bytes (omega arith)) (λ e. cc))

round-ends :
    (f : ℕ) (util : SwitchDataCipherUtil) (codec : Proto) (bytes : Bytes)
    → length bytes < suc f
    → ((rest : Bytes) → length rest < f → (receive_loop f util codec rest).1 ≢ out_of_fuel)
    → (r : Received) → receive util codec bytes ≡ r
    → Shrinks (length bytes) r
    → (receive_loop (suc f) util codec bytes).1 ≢ out_of_fuel
unfolding receive_loop
round-ends f util codec bytes h ih (closes reason) e s = rw (e, receive_loop) s
round-ends f util codec bytes h ih (heartbeat rest) e s =
    rw (e, receive_loop) (ih rest (omega arith))
round-ends f util codec bytes h ih (message m rest) e s =
    rw (e, receive_loop) (ih rest (omega arith))

receive_loop-ends :
    (f : ℕ) (util : SwitchDataCipherUtil) (codec : Proto) (bytes : Bytes)
    → length bytes < f
    → (receive_loop f util codec bytes).1 ≢ out_of_fuel
receive_loop-ends zero util codec bytes h = absurd (omega arith)
receive_loop-ends (suc f) util codec bytes h =
    round-ends f util codec bytes h (λ rest q. receive_loop-ends f util codec rest q)
      (receive util codec bytes) refl (receive-Shrinks util codec bytes)

-- On every sequence of bytes, whatever it holds, the receiving loop ends for a reason of the code: it
-- never runs out of the rounds that it is given.
pub receive_all-ends :
    (util : SwitchDataCipherUtil) (codec : Proto) (bytes : Bytes)
    → (receive_all util codec bytes).1 ≢ out_of_fuel
unfolding receive_all
receive_all-ends util codec bytes =
    receive_loop-ends (suc (length bytes)) util codec bytes (omega arith)
