-- ===== src/Services/TcpCore.antt =====
-- services/tcp_core.go: the two goroutines of a connection. A frame is one byte of type, and for a
-- message four bytes of big-endian length and the encrypted bytes. What arrives is a list of bytes
-- that ends where a read fails: by an error, the end of the stream or a deadline.
pub mod RoundTrip
pub mod Ends
pub mod Peer
pub mod Server
use localsend_switchboard.Prelude.{
  ℕ, zero, suc, ◌+◌, ◌*◌, ◌/◌, ◌%◌, ◌^◌, ◌≡◌, Bool, true, false, Option, none, some, List, [], ◌∷◌,
  ◌++◌, map, ltb, ◌==◌, if◌then◌else◌, Bytes, length, take, drop,
}
use localsend_switchboard.Configs.{tcp_socket_read_buffer_size}
use localsend_switchboard.Entities.{DiscoveryMessage, SwitchMessage}
use localsend_switchboard.Std.Channel.{Outcome, done, ◌>>=◌}
use localsend_switchboard.Services.TcpConnectionHub.{TcpConn, TcpConnectionHub, remove_connection}
use localsend_switchboard.Utils.Cipher.{SwitchDataCipherUtil, encrypt, decrypt}
use localsend_switchboard.Utils.Net.{WriteStep, WriteEnd, write_all_bytes}

-- google.golang.org/protobuf on DiscoveryMessage; `none` is an error.
pub record Proto : Type 0 where
  pub marshal : DiscoveryMessage → Option Bytes
  pub unmarshal : Bytes → Option DiscoveryMessage

-- What was marshalled is read back.
abbrev pub IsCodec : Proto → Type 0
IsCodec c = (m : DiscoveryMessage) (b : Bytes) → c.marshal m ≡ some b → c.unmarshal b ≡ some m

-- `binary.Write` of a `uint32`, big-endian.
unfoldable pub put_uint32 : ℕ → Bytes
put_uint32 n = n / 2 ^ 24 % 256 ∷ n / 2 ^ 16 % 256 ∷ n / 2 ^ 8 % 256 ∷ n % 256 ∷ []

-- `binary.Read` of a `uint32`, with the bytes behind it; `none` is a failed read.
unfoldable pub get_uint32 : Bytes → Option (ℕ × Bytes)
get_uint32 (a ∷ b ∷ c ∷ d ∷ rest) = some (a * 2 ^ 24 + b * 2 ^ 16 + c * 2 ^ 8 + d, rest)
get_uint32 _ = none

-- Why the receiving goroutine gives a connection up.
pub data CloseReason : Type 0 where
  read_failed too_long decrypt_failed unmarshal_failed unknown_type out_of_fuel : CloseReason

-- One round of the receiving loop.
pub data Received : Type 0 where
  closes : CloseReason → Received
  heartbeat : Bytes → Received
  message : DiscoveryMessage → Bytes → Received

opened : Proto → Bytes → Option Bytes → Received
opened codec rest none = closes decrypt_failed
opened codec rest (some payload) = elim (codec.unmarshal payload) [
  | none ↦ closes unmarshal_failed
  | some m ↦ message m rest
]

-- The payload of a frame.
receive_payload : SwitchDataCipherUtil → Proto → Option (ℕ × Bytes) → Received
unfolding opened
receive_payload util codec none = closes read_failed
receive_payload util codec (some (size, bytes)) =
    if ltb tcp_socket_read_buffer_size size
    then closes too_long
    else if ltb (length bytes) size
    then closes read_failed
    else opened codec (drop size bytes) (decrypt util (take size bytes))

unfoldable pub receive : SwitchDataCipherUtil → Proto → Bytes → Received
unfolding receive_payload get_uint32
receive util codec [] = closes read_failed
receive util codec (data_type ∷ bytes) =
    if data_type == 2
    then heartbeat bytes
    else if data_type == 1
    then receive_payload util codec (get_uint32 bytes)
    else closes unknown_type

-- The receiving loop: the messages in order, and why it ended. Every round takes a byte at least.
unfoldable pub receive_loop :
    ℕ → SwitchDataCipherUtil → Proto → Bytes → List DiscoveryMessage × CloseReason
unfolding receive
receive_loop zero util codec bytes = ([], out_of_fuel)
receive_loop (suc f) util codec bytes = elim (receive util codec bytes) [
  | closes reason ↦ ([], reason)
  | heartbeat rest ↦ receive_loop f util codec rest
  | message m rest ↦ let later = receive_loop f util codec rest in (m ∷ later.0, later.1)
]

unfoldable pub receive_all :
    SwitchDataCipherUtil → Proto → Bytes → List DiscoveryMessage × CloseReason
unfolding receive_loop
receive_all util codec bytes = receive_loop (suc (length bytes)) util codec bytes

-- handleTCPConnectionRecv: the messages that it puts into the channel, marked with the address of the
-- connection, and the hub after its clean-up.
unfoldable pub handle_tcp_connection_recv :
    SwitchDataCipherUtil
    → Proto
    → TcpConn
    → Bytes
    → TcpConnectionHub
    → List SwitchMessage × Outcome TcpConnectionHub
unfolding receive_all
handle_tcp_connection_recv util codec conn bytes hub = (
  map (λ m. record { source_addr = some conn.remote_addr; payload = some m })
      (receive_all util codec bytes).0,
  remove_connection conn hub >>= λ hub'.
      done (record hub' { closed_sockets = conn.socket ∷ hub'.closed_sockets }),
)

-- How a `binary.Write` ends: all bytes are out, or the connection is closed or fails after some.
pub data Written : Type 0 where
  all_written : Written
  conn_closed write_failed : ℕ → Written

abbrev pub bytes_out : Written → Bytes → Bytes
bytes_out all_written bytes = bytes
bytes_out (conn_closed n) bytes = take n bytes
bytes_out (write_failed n) bytes = take n bytes

-- What the `select` of the sending goroutine picks, and how the writes that follow end.
pub data SendEvent : Type 0 where
  stops chan_closes : SendEvent
  sends : DiscoveryMessage → Written → Bytes → Written → List WriteStep → SendEvent
  beats : Written → SendEvent

-- The length and the bytes of an encrypted payload, behind its type. Encrypt returns no error here, since
-- the reading of its nonce never fails.
send_payload : Bytes → Written → List WriteStep → Bytes
send_payload sent all_written steps =
    put_uint32 (length sent % 2 ^ 32) ++ (write_all_bytes steps sent).0
send_payload sent (conn_closed n) steps = take n (put_uint32 (length sent % 2 ^ 32))
send_payload sent (write_failed n) steps = take n (put_uint32 (length sent % 2 ^ 32))

-- What one round of handleTCPConnectionSend puts on the wire, and whether it returns.
unfoldable pub send_event : SwitchDataCipherUtil → Proto → SendEvent → Bytes × Bool
unfolding send_payload put_uint32
send_event util codec stops = ([], true)
send_event util codec chan_closes = ([], true)
send_event util codec (beats w) =
    (bytes_out w (2 ∷ []), elim w [ conn_closed _ ↦ true | _ ↦ false ])
send_event util codec (sends m type_written random len_written steps) = elim (codec.marshal m) [
  | none ↦ ([], false)
  | some payload ↦ elim type_written [
    | conn_closed n ↦ (take n (1 ∷ []), true)
    | write_failed n ↦ (take n (1 ∷ []), false)
    | all_written ↦ (1 ∷ send_payload (encrypt util random payload) len_written steps, false)
  ]
]

-- handleTCPConnectionSend, over what it meets.
unfoldable pub handle_tcp_connection_send : SwitchDataCipherUtil → Proto → List SendEvent → Bytes
unfolding send_event
handle_tcp_connection_send util codec [] = []
handle_tcp_connection_send util codec (e ∷ es) =
    let later = handle_tcp_connection_send util codec es in
    elim (send_event util codec e).1 [
      | true ↦ (send_event util codec e).0
      | false ↦ (send_event util codec e).0 ++ later
    ]
