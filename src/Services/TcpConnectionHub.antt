-- ===== src/Services/TcpConnectionHub.antt =====
-- services/tcp_connection_hub.go. A connection is a socket with the text of its remote address. The
-- send channels are shared with the goroutines of the connections, so they live in a store, and a
-- connection holds the address of its channel. The mutex makes each method one step.
pub mod Inv
pub mod Methods
pub mod Except
pub mod Sends
use localsend_switchboard.Prelude.{
  ℕ, suc, ◌+◌, ◌≤◌, Bool, true, false, Option, none, some, ite, List, [], ◌∷◌, ◌++◌, map, leb,
  if◌then◌else◌, Bytes, Bytes-discrete, length, get_elem?, set,
}
use localsend_switchboard.Prelude.Assoc
use localsend_switchboard.Configs.{max_tcp_connections, tcp_socket_send_chan_size}
use localsend_switchboard.Std.Channel.{Outcome, done, blocked, panicked, ◌>>=◌, Channel}
use localsend_switchboard.Std.Channel

pub record TcpConn : Type 0 where
  pub socket : ℕ
  pub remote_addr : Bytes

pub record ConnWithChan : Type 0 where
  pub conn : TcpConn
  pub send_chan : ℕ

-- The hub with what it shares: the store of send channels, which hold addresses of messages, and the
-- sockets that were closed.
pub record TcpConnectionHub : Type 0 where
  pub conns : List (Bytes × ConnWithChan)
  pub chans : List (Channel ℕ)
  pub closed_sockets : List ℕ

-- NewTCPConnectionHub
unfoldable pub new_tcp_connection_hub : TcpConnectionHub
new_tcp_connection_hub = record { conns = []; chans = []; closed_sockets = [] }

-- What AddConnection returns: the address of the send channel, or an error.
pub data AddResult : Type 0 where
  added : ℕ → AddResult
  already_exists maximum_reached : AddResult

-- AddConnection
unfoldable pub add_connection : TcpConn → TcpConnectionHub → AddResult × TcpConnectionHub
add_connection conn hub = elim (Assoc.get? Bytes-discrete conn.remote_addr hub.conns) [
  | some _ ↦ (already_exists, hub)
  | none ↦ if leb max_tcp_connections (length hub.conns) then (maximum_reached, hub) else (
    added (length hub.chans),
    record hub {
      conns =
          Assoc.put Bytes-discrete conn.remote_addr
            (record { conn = conn; send_chan = length hub.chans }) hub.conns;
      chans = hub.chans ++ Channel.make tcp_socket_send_chan_size ∷ [];
    },
  )
]

-- `close(c)` of the channel at an address.
unfoldable pub close_chan : List (Channel ℕ) → ℕ → Outcome (List (Channel ℕ))
close_chan chans c = elim (get_elem? chans c) [
  | none ↦ panicked
  | some ch ↦ Channel.close ch >>= λ ch'. done (set chans c ch')
]

-- `c <- msg` on the channel at an address.
unfoldable pub send_on : List (Channel ℕ) → ℕ → ℕ → Outcome (List (Channel ℕ))
send_on chans c msg = elim (get_elem? chans c) [
  | none ↦ panicked
  | some ch ↦ Channel.send ch msg >>= λ ch'. done (set chans c ch')
]

-- RemoveConnection
unfoldable pub remove_connection : TcpConn → TcpConnectionHub → Outcome TcpConnectionHub
unfolding close_chan
remove_connection conn hub = elim (Assoc.get? Bytes-discrete conn.remote_addr hub.conns) [
  | none ↦ done hub
  | some cwc ↦ close_chan hub.chans cwc.send_chan >>= λ chans. done (record {
    conns = Assoc.delete Bytes-discrete conn.remote_addr hub.conns;
    chans = chans;
    closed_sockets = cwc.conn.socket ∷ hub.closed_sockets;
  })
]

-- NumConnections
unfoldable pub num_connections : TcpConnectionHub → ℕ
num_connections hub = length hub.conns

-- The loop over the map, for an address that is not nil.
unfoldable pub except : Bytes → List (Bytes × ConnWithChan) → List ConnWithChan
except addr [] = []
except addr ((a, c) ∷ m) = ite (Bytes-discrete a addr) (except addr m) (c ∷ except addr m)

-- GetConnectionsExcept, in the order of the map; `none` is a nil address.
unfoldable pub get_connections_except : Option Bytes → TcpConnectionHub → List ConnWithChan
unfolding except
get_connections_except none hub = map (λ e. e.1) hub.conns
get_connections_except (some addr) hub = except addr hub.conns

-- GetAllConnections
unfoldable pub get_all_connections : TcpConnectionHub → List ConnWithChan
unfolding get_connections_except
get_all_connections hub = get_connections_except none hub

-- Close: the handlers take the connections out of the hub afterwards.
unfoldable pub close : TcpConnectionHub → TcpConnectionHub
close hub = record hub {
  closed_sockets = map (λ e. e.1.conn.socket) hub.conns ++ hub.closed_sockets;
}
