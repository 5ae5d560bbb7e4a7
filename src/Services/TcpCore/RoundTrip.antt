-- ===== src/Services/TcpCore/RoundTrip.antt =====
-- What one node's sending goroutine writes, the other node's receiving goroutine reads.
use localsend_switchboard.Prelude.{
  ℕ, zero, suc, ◌+◌, ◌*◌, ◌/◌, ◌%◌, ◌^◌, ◌≤◌, ◌<◌, ◌≡◌, refl, ap, subst, ◌∙◌, Bool, false, some,
  List, [], ◌∷◌, ◌++◌, arith, Bytes, length, length-append, take-append, drop-append, All,
}
use mathlib.Core.List.{append_assoc}
use localsend_switchboard.Configs.{tcp_socket_read_buffer_size}
use localsend_switchboard.Entities.{DiscoveryMessage}
use localsend_switchboard.Services.TcpCore.{
  Proto, IsCodec, put_uint32, get_uint32, CloseReason, read_failed, message, receive, receive_loop,
  receive_all, Written, all_written, SendEvent, stops, chan_closes, sends, beats, send_event,
  handle_tcp_connection_send,
}
use localsend_switchboard.Utils.Cipher.{SwitchDataCipherUtil, encrypt, decrypt, IsNonce, IsSound}
use localsend_switchboard.Utils.Cipher.RoundTrip.{decrypt-encrypt}
use localsend_switchboard.Utils.Net.{WriteStep, complete, write_all_bytes}
use localsend_switchboard.Utils.Net.Laws.{write_all_bytes-complete}

-- The length of a frame survives its four bytes.
pub get_uint32-put_uint32 :
    (n : ℕ) (rest : Bytes) → n < 2 ^ 32 → get_uint32 (put_uint32 n ++ rest) ≡ some (n, rest)
unfolding get_uint32 put_uint32
get_uint32-put_uint32 n rest h =
    let same : n / 2 ^ 24 % 256 * 2 ^ 24
          + n / 2 ^ 16 % 256 * 2 ^ 16
          + n / 2 ^ 8 % 256 * 2 ^ 8
          + n % 256
        ≡ n =
      omega arith in
    ap (λ k. some (k, rest)) same

-- The frame of a message.
abbrev pub frame : Bytes → Bytes
frame sent = 1 ∷ (put_uint32 (length sent) ++ sent)

receive-frame :
    (util : SwitchDataCipherUtil) (codec : Proto) (m : DiscoveryMessage) (payload sent rest : Bytes)
    → length sent ≤ tcp_socket_read_buffer_size
    → decrypt util sent ≡ some payload
    → codec.unmarshal payload ≡ some m
    → receive util codec (frame sent ++ rest) ≡ message m rest
unfolding receive
receive-frame util codec m payload sent rest fits plain read =
    let size = get_uint32-put_uint32 (length sent) (sent ++ rest) (omega arith) in
    let at = append_assoc (put_uint32 (length sent)) sent rest in
    let head = take-append sent rest in
    let tail = drop-append sent rest in
    let long = length-append sent rest in rw (at) (ground (arith, size, head, tail, long))

-- A round of the sending goroutine in which nothing fails: the message can be marshalled, the nonce
-- fits, the encrypted payload fits the receiver's buffer, and all writes go through; or a heartbeat.
abbrev pub IsGood : SwitchDataCipherUtil → Proto → SendEvent → Type 0
IsGood util codec (sends m t random l steps) =
    (payload : Bytes) × (sent : Bytes) × (t ≡ all_written)
    × (l ≡ all_written)
    × (codec.marshal m ≡ some payload)
    × IsNonce util random
    × (encrypt util random payload ≡ sent)
    × (length sent ≤ tcp_socket_read_buffer_size)
    × ((write_all_bytes steps sent).1 ≡ complete)
IsGood util codec (beats w) = w ≡ all_written
IsGood util codec stops = ⊥
IsGood util codec chan_closes = ⊥

-- The messages that are sent, in order.
abbrev pub sent_messages : List SendEvent → List DiscoveryMessage
sent_messages [] = []
sent_messages (sends m t random l steps ∷ es) = m ∷ sent_messages es
sent_messages (beats w ∷ es) = sent_messages es
sent_messages (stops ∷ es) = sent_messages es
sent_messages (chan_closes ∷ es) = sent_messages es

-- A good send puts one frame on the wire and goes on.
send_event-frame :
    (util : SwitchDataCipherUtil) (codec : Proto) (m : DiscoveryMessage) (t l : Written)
    (random : Bytes) (steps : List WriteStep) (payload sent : Bytes)
    → t ≡ all_written
    → l ≡ all_written
    → codec.marshal m ≡ some payload
    → encrypt util random payload ≡ sent
    → length sent ≤ tcp_socket_read_buffer_size
    → (write_all_bytes steps sent).1 ≡ complete
    → send_event util codec (sends m t random l steps) ≡ (frame sent, false)
unfolding send_event
send_event-frame util codec m t l random steps payload sent et el em ee fits done_ =
    let out = write_all_bytes-complete steps sent done_ in
    let size : length sent % 2 ^ 32 ≡ length sent = omega arith in
    ground (arith, et, el, em, ee, size, out)

beat :
    (util : SwitchDataCipherUtil) (codec : Proto) (w : Written)
    → w ≡ all_written
    → send_event util codec (beats w) ≡ (2 ∷ [], false)
unfolding send_event
beat util codec w e = ground arith

send_cons :
    (util : SwitchDataCipherUtil) (codec : Proto) (e : SendEvent) (es : List SendEvent)
    (out : Bytes)
    → send_event util codec e ≡ (out, false)
    → handle_tcp_connection_send util codec (e ∷ es)
      ≡ out ++ handle_tcp_connection_send util codec es
unfolding handle_tcp_connection_send
send_cons util codec e es out h =
    rw (h, handle_tcp_connection_send)
      (ap (λ (r : Bytes × Bool). r.0 ++ handle_tcp_connection_send util codec es) h)

receive_message :
    (f : ℕ) (util : SwitchDataCipherUtil) (codec : Proto) (bytes rest : Bytes)
    (m : DiscoveryMessage)
    → receive util codec bytes ≡ message m rest
    → receive_loop (suc f) util codec bytes
      ≡ (m ∷ (receive_loop f util codec rest).0, (receive_loop f util codec rest).1)
unfolding receive_loop
receive_message f util codec bytes rest m h = rw (h, receive_loop)

receive_beat :
    (f : ℕ) (util : SwitchDataCipherUtil) (codec : Proto) (bytes : Bytes)
    → receive_loop (suc f) util codec (2 ∷ bytes) ≡ receive_loop f util codec bytes
unfolding receive_loop
receive_beat f util codec bytes = refl

receive_loop-sent :
    (util : SwitchDataCipherUtil) (codec : Proto) (es : List SendEvent) (fuel : ℕ)
    → IsSound util
    → IsCodec codec
    → All (IsGood util codec) es
    → length (handle_tcp_connection_send util codec es) < fuel
    → receive_loop fuel util codec (handle_tcp_connection_send util codec es)
      ≡ (sent_messages es, read_failed)
unfolding handle_tcp_connection_send receive_loop
receive_loop-sent util codec es zero sound reads good f = absurd (omega arith)
receive_loop-sent util codec [] (suc f) sound reads good h = refl
receive_loop-sent util codec (stops ∷ es) (suc f) sound reads good h = absurd good.0
receive_loop-sent util codec (chan_closes ∷ es) (suc f) sound reads good h = absurd good.0
receive_loop-sent util codec (beats w ∷ es) (suc f) sound reads (good, goods) h =
    let later = handle_tcp_connection_send util codec es in
    let out = send_cons util codec (beats w) es (2 ∷ []) (beat util codec w good) in
    let shorter : length later < f = omega (arith, ap length out) in
    rw out (
      receive_beat f util codec later ∙ receive_loop-sent util codec es f sound reads goods shorter)
receive_loop-sent util codec (sends m t random l steps ∷ es) (suc f) sound reads (good, goods) h =
    let (payload, sent, et, el, em, nonce_fits, ee, fits, done_) = good in
    let later = handle_tcp_connection_send util codec es in
    let out =
      send_cons util codec (sends m t random l steps) es (frame sent)
        (send_event-frame util codec m t l random steps payload sent et el em ee fits done_) in
    let plain = decrypt-encrypt util random payload sound nonce_fits in
    let read =
      receive-frame util codec m payload sent later fits
        (subst (λ b. decrypt util b ≡ some payload) ee plain) (reads m payload em) in
    let size = length-append (frame sent) later in
    let shorter : length later < f = omega (arith, ap length out, size) in
    let ih = receive_loop-sent util codec es f sound reads goods shorter in
    rw out (
      receive_message f util codec (frame sent ++ later) later m read
      ∙ ap (λ (r : List DiscoveryMessage × CloseReason). (m ∷ r.0, r.1)) ih)

-- When both nodes have the same key, the cipher and the codec keep their promises, no marshalling
-- or write fails, and every encrypted message fits the read buffer, the receiver gets exactly the
-- messages that were sent, in order, whatever heartbeats come between them, and gives up only where the
-- stream ends.
pub receive_all-sent :
    (util : SwitchDataCipherUtil) (codec : Proto) (es : List SendEvent)
    → IsSound util
    → IsCodec codec
    → All (IsGood util codec) es
    → receive_all util codec (handle_tcp_connection_send util codec es)
      ≡ (sent_messages es, read_failed)
unfolding receive_all
receive_all-sent util codec es sound reads good =
    receive_loop-sent util codec es (suc (length (handle_tcp_connection_send util codec es))) sound
      reads good (omega arith)
