-- ===== src/Services/Node/Safety.antt =====
-- No act panics while no connection goes that the forwarder or the broadcaster has still to serve.
use localsend_switchboard.Prelude.{ℕ, refl, sym, subst, inr, [], ◌∷◌, ◌++◌, length, All}
use localsend_switchboard.Std.Channel.{Channel}
use localsend_switchboard.Services.SwitchLounge.{
  Store, SwitchLounge, WriteResult, load, read, write,
}
use localsend_switchboard.Services.SwitchLounge
use localsend_switchboard.Services.SwitchLounge.Inv as LoungeInv
use localsend_switchboard.Services.ClientAliveChecker.{alive_tick}
use localsend_switchboard.Services.SwitchCore.{after_write}
use localsend_switchboard.Services.SwitchCore.Loop.{after_write-lounge}
use localsend_switchboard.Services.LocalClientLounge
use localsend_switchboard.Services.Node.{
  Host, Node, Act, hears, receives, takes, proceeds, ticks, announces, broadcasts, probes, connects,
  disconnects, drains, closes_clients, closes_lounge, closes_hub, message, act,
}
use localsend_switchboard.Services.Node.Pointers.{HasMessage}
use localsend_switchboard.Services.Node.Broadcasts.{tick-Goes, broadcast_on-Goes}
use localsend_switchboard.Services.Node.Clients.{after_write-IsSignalled, alive_tick-IsSignalled}
use localsend_switchboard.Services.SwitchLounge.Fifo.{purge-lounge}
use localsend_switchboard.Services.Node.Inv.{NodeInv, Goes}
use localsend_switchboard.Services.Node.Arrivals.{arrives, from_multicast_lem, from_tcp_lem}
use localsend_switchboard.Services.Node.Forwarding.{take_next-Goes, go_on-Goes}
use localsend_switchboard.Services.Node.Connections.{
  IsApart, connects-Goes, disconnects-Goes, drains-Goes, closes_clients-Goes, closes_lounge-Goes,
  closes_hub-Goes,
}

-- No connection goes that the forwarder or the broadcaster has still to serve.
abbrev pub IsSafe : Node → Act → Type 0
IsSafe n (hears _ _ _) = Unit
IsSafe n (receives _ _ _) = Unit
IsSafe n takes = Unit
IsSafe n proceeds = Unit
IsSafe n (ticks _) = Unit
IsSafe n announces = Unit
IsSafe n broadcasts = Unit
IsSafe n (probes _ _ _) = Unit
IsSafe n (connects _) = Unit
IsSafe n (disconnects conn) = IsApart n conn
IsSafe n (drains _) = Unit
IsSafe n closes_clients = Unit
IsSafe n closes_lounge = Unit
IsSafe n closes_hub = Unit

-- An act that is safe waits, or leaves a state with the invariant; it never panics.
pub act-Goes : (host : Host) (n : Node) (a : Act) → NodeInv n → IsSafe n a → Goes (act host n a)
unfolding act
act-Goes host n (hears now addr p) v s =
    let store = n.store ++ message addr p ∷ [] in
    let r = arrives n now addr p v in
    let core =
      after_write now host.lifetime store (length n.store) n.core.clients (r.result, r.lounge) in
    let same =
      after_write-lounge now host.lifetime store (length n.store) n.core.clients r.result
        r.lounge in
    inr (
      record n { core = core; store = store },
      from_multicast_lem host n now store r.result r.lounge r.wrote,
      record {
        lounge = subst LoungeInv.Inv (sym same) r.inv;
        hub = v.hub;
        waiting =
            subst (λ (sl : SwitchLounge). All (HasMessage store) sl.lounge.buffer) (sym same)
              r.waiting;
        at = r.at;
        casting = r.casting;
        clients =
            after_write-IsSignalled now host.lifetime store (length n.store) n.core.clients r.result
              r.lounge v.clients;
      },
    )
act-Goes host n (receives now addr p) v s =
    let store = n.store ++ message addr p ∷ [] in
    let r = arrives n now addr p v in
    inr (
      record n { core = record n.core { lounge = r.lounge }; store = store },
      from_tcp_lem host n now store r.lounge r.result r.wrote,
      record {
        lounge = r.inv;
        hub = v.hub;
        waiting = r.waiting;
        at = r.at;
        casting = r.casting;
        clients = v.clients;
      },
    )
act-Goes host n takes v s = take_next-Goes host n.task n v
act-Goes host n proceeds v s = go_on-Goes host n.task n v v.at
act-Goes host n (ticks now) v s = inr (
  record n {
    core = record {
      lounge = SwitchLounge.purge now n.core.lounge;
      clients = LocalClientLounge.purge now n.core.clients;
    };
  },
  refl,
  record {
    lounge = LoungeInv.purge-Inv now n.core.lounge v.lounge;
    hub = v.hub;
    waiting =
        subst (λ (c : Channel ℕ). All (HasMessage n.store) c.buffer)
          (sym (purge-lounge now n.core.lounge)) v.waiting;
    at = v.at;
    casting = v.casting;
    clients = unfold LocalClientLounge.purge in v.clients;
  },
)
act-Goes host n announces v s = tick-Goes n.cast n v
act-Goes host n broadcasts v s = broadcast_on-Goes host n.cast n v v.casting
act-Goes host n (probes now http https) v s = inr (
  record n {
    core = record n.core {
      clients = alive_tick host.json host.port_text now host.lifetime http https n.core.clients;
    };
  },
  refl,
  record {
    lounge = v.lounge;
    hub = v.hub;
    waiting = v.waiting;
    at = v.at;
    casting = v.casting;
    clients =
        alive_tick-IsSignalled host.json host.port_text now host.lifetime http https n.core.clients
          v.clients;
  },
)
act-Goes host n (connects conn) v s = connects-Goes host n conn v
act-Goes host n (disconnects conn) v s = disconnects-Goes host n conn v s
act-Goes host n (drains c) v s = drains-Goes host n c v
act-Goes host n closes_clients v s = closes_clients-Goes host n v
act-Goes host n closes_lounge v s = closes_lounge-Goes host n v
act-Goes host n closes_hub v s = closes_hub-Goes host n v
