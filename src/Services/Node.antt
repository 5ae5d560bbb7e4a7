-- ===== src/Services/Node.antt =====
-- services/switch_core.go, SetUpSwitchCore with the goroutines that it starts: the waiting rooms, the
-- messages, the hub and the forwarder as one state, and what the goroutines do to it as acts in any
-- order. The forwarder and the broadcaster serve one connection per act, so that the others come in
-- between. While the broadcaster reads the clients it holds their lock; here an act on them that the
-- lock would hold back may come at once, and the broadcaster does not see it.
use localsend_switchboard.Prelude.{
  ℕ, Option, none, some, List, [], ◌∷◌, ◌++◌, if◌then◌else◌, Bytes, length, get_elem?, set,
}
use localsend_switchboard.Entities.{
  DiscoveryMessage, SwitchMessage, HttpJsonRequest, HttpResponse, LocalSendClientInfo,
}
use localsend_switchboard.Std.Channel.{Outcome, done, blocked, ◌>>=◌, Channel}
use localsend_switchboard.Std.Ip.{IpText, is_private}
use localsend_switchboard.Services.SwitchLounge.{Store, load, read, new_switch_lounge}
use localsend_switchboard.Services.SwitchLounge
use localsend_switchboard.Services.LocalClientLounge.{new_local_client_lounge, sync_get}
use localsend_switchboard.Services.LocalClientLounge
use localsend_switchboard.Services.TcpConnectionHub.{
  TcpConn, ConnWithChan, TcpConnectionHub, new_tcp_connection_hub, add_connection,
  remove_connection, get_connections_except, get_all_connections,
}
use localsend_switchboard.Services.TcpConnectionHub
use localsend_switchboard.Services.PassiveForwarder.{Json, forward_one, register, source_of}
use localsend_switchboard.Services.ClientAliveChecker.{alive_tick}
use localsend_switchboard.Services.ProactiveBroadcaster.{send_one, announcement, next_seq}
use localsend_switchboard.Services.SwitchCore.{Core, from_multicast, from_tcp, on_event}
pub mod Pointers
pub mod Registered
pub mod Waiting
pub mod Inv
pub mod Broadcasts
pub mod Clients
pub mod Arrivals
pub mod Forwarding
pub mod Connections
pub mod Safety
pub mod Reach
pub mod Races
pub mod Plain
pub mod Polite
pub mod Requests

-- The libraries, the identifier and the IP of the host, the port of its clients, and their lifetime.
pub record Host : Type 0 where
  pub text : IpText
  pub json : Json
  pub node_id : Bytes
  pub self_ip : Bytes
  pub port_text : Bytes
  pub lifetime : ℕ

-- The message that the forwarder is at, its origin, and the connections that are left.
pub record Task : Type 0 where
  pub msg : ℕ
  pub remote : Bytes
  pub rest : List ConnWithChan

-- Where the broadcaster is: it waits for its ticker, it goes on with the clients that are left, or it is
-- at a message, with the clients and the connections that are left.
pub data Cast : Type 0 where
  idle : Cast
  packs : List LocalSendClientInfo → Cast
  casts : List LocalSendClientInfo → ℕ → List ConnWithChan → Cast

pub record Node : Type 0 where
  pub core : Core
  pub store : Store
  pub hub : TcpConnectionHub
  pub task : Option Task
  pub cast : Cast
  pub requests : List HttpJsonRequest
  pub seq : ℕ

-- What a goroutine does: a message of the host or of a peer arrives, the forwarder takes one or goes
-- on, the cleaners tick, the broadcaster's ticker fires, the broadcaster goes on, the alive checker has
-- two responses, a connection comes or goes, a connection's goroutine takes a message, and, on the way
-- out, the lounges and the hub are closed.
pub data Act : Type 0 where
  hears receives : ℕ → Bytes → DiscoveryMessage → Act
  takes proceeds : Act
  ticks : ℕ → Act
  announces broadcasts : Act
  probes : ℕ → Option HttpResponse → Option HttpResponse → Act
  connects disconnects : TcpConn → Act
  drains : ℕ → Act
  closes_clients closes_lounge closes_hub : Act

-- A new message, at the end of the store.
abbrev pub message : Bytes → DiscoveryMessage → SwitchMessage
message addr p = record { source_addr = some addr; payload = some p }

-- The forwarder with what it has read; it returns when the waiting room is closed.
unfoldable pub start : Host → Option ℕ → Node → Outcome Node
start host none n = done n
start host (some msg) n = load n.store msg >>= λ p. elim (host.text.parse_ip p.original_addr) [
  | none ↦ done n
  | some remote ↦
      if is_private remote
      then done (record n {
        task = some (record {
          msg = msg;
          remote = remote;
          rest = get_connections_except (source_of (get_elem? n.store msg)) n.hub;
        });
      })
      else done n
]

-- The next round of the loop over the connections, or the registration behind it.
unfoldable pub proceed : Host → ℕ → Bytes → List ConnWithChan → Node → Outcome Node
proceed host msg remote [] n = done (record n {
  task = none;
  requests =
      n.requests
      ++ register host.text host.json host.self_ip remote (get_elem? n.store msg) n.core.clients;
})
proceed host msg remote (c ∷ cs) n = forward_one msg c (n.store, n.hub.chans) >>= λ r.
    done (record n {
      store = r.0;
      hub = record n.hub { chans = r.1 };
      task = some (record { msg = msg; remote = remote; rest = cs });
    })

-- The forwarder's select, when it is at no message.
unfoldable pub take_next : Host → Option Task → Node → Outcome Node
unfolding start
take_next host (some t) n = blocked
take_next host none n =
    read n.core.lounge >>= λ r. start host r.0 (record n { core = record n.core { lounge = r.1 } })

-- The forwarder, at a message.
unfoldable pub go_on : Host → Option Task → Node → Outcome Node
unfolding proceed
go_on host none n = blocked
go_on host (some t) n = proceed host t.msg t.remote t.rest n

-- The broadcaster's select, when it waits.
unfoldable pub tick : Cast → Node → Outcome Node
tick idle n = done (record n { cast = packs (sync_get n.core.clients) })
tick (packs _) n = blocked
tick (casts _ _ _) n = blocked

-- The broadcaster, in a tick: a message for the next client and the connections of that moment, one
-- send, or the end of a loop.
unfoldable pub broadcast_on : Host → Cast → Node → Outcome Node
broadcast_on host idle n = blocked
broadcast_on host (packs []) n = done (record n { cast = idle })
broadcast_on host (packs (info ∷ infos)) n = done (record n {
  store = announcement host.node_id host.self_ip info n.seq n.store;
  seq = next_seq n.seq;
  cast = casts infos (length n.store) (get_all_connections n.hub);
})
broadcast_on host (casts infos msg []) n = done (record n { cast = packs infos })
broadcast_on host (casts infos msg (c ∷ cs)) n = send_one msg c (n.store, n.hub.chans) >>= λ r.
    done (record n { store = r.0; hub = record n.hub { chans = r.1 }; cast = casts infos msg cs })

-- A receive from a send channel.
unfoldable pub drain : ℕ → List (Channel ℕ) → Outcome (List (Channel ℕ))
drain c chans = elim (get_elem? chans c) [
  | none ↦ blocked
  | some ch ↦ elim ch.buffer [
    | [] ↦ blocked
    | m ∷ ms ↦ done (set chans c (record ch { buffer = ms }))
  ]
]

unfoldable pub act : Host → Node → Act → Outcome Node
unfolding take_next go_on tick broadcast_on drain
act host n (hears now addr p) =
    let store = n.store ++ message addr p ∷ [] in
    on_event host.lifetime store n.core (from_multicast now (length n.store)) >>= λ core.
    done (record n { core = core; store = store })
act host n (receives now addr p) =
    let store = n.store ++ message addr p ∷ [] in
    on_event host.lifetime store n.core (from_tcp now (length n.store)) >>= λ core.
    done (record n { core = core; store = store })
act host n takes = take_next host n.task n
act host n proceeds = go_on host n.task n
act host n (ticks now) = done (record n {
  core = record {
    lounge = SwitchLounge.purge now n.core.lounge;
    clients = LocalClientLounge.purge now n.core.clients;
  };
})
act host n announces = tick n.cast n
act host n broadcasts = broadcast_on host n.cast n
act host n (probes now http https) = done (record n {
  core = record n.core {
    clients = alive_tick host.json host.port_text now host.lifetime http https n.core.clients;
  };
})
act host n (connects conn) = done (record n { hub = (add_connection conn n.hub).1 })
act host n (disconnects conn) =
    remove_connection conn n.hub >>= λ hub. done (record n { hub = hub })
act host n (drains c) =
    drain c n.hub.chans >>= λ chans. done (record n { hub = record n.hub { chans = chans } })
act host n closes_clients = LocalClientLounge.close n.core.clients >>= λ clients.
    done (record n { core = record n.core { clients = clients } })
act host n closes_lounge = SwitchLounge.close n.core.lounge >>= λ lounge.
    done (record n { core = record n.core { lounge = lounge } })
act host n closes_hub = done (record n { hub = TcpConnectionHub.close n.hub })

-- The start of SetUpSwitchCore.
unfoldable pub new_node : Node
new_node = record {
  core = record { lounge = new_switch_lounge; clients = new_local_client_lounge };
  store = [];
  hub = new_tcp_connection_hub;
  task = none;
  cast = idle;
  requests = [];
  seq = 0;
}
