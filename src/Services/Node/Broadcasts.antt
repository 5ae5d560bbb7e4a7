-- ===== src/Services/Node/Broadcasts.antt =====
-- The broadcaster's acts keep the invariant of the node.
use localsend_switchboard.Prelude.{
  ℕ, ◌≡◌, refl, ◌⊎◌, inl, inr, none, List, [], ◌∷◌, Bytes, length, get_elem?-snoc_last,
}
use localsend_switchboard.Entities.{LocalSendClientInfo}
use localsend_switchboard.Std.Channel.{done, blocked, Channel}
use localsend_switchboard.Services.LocalClientLounge.{sync_get}
use localsend_switchboard.Services.PassiveForwarder.{decrement, put_ttl}
use localsend_switchboard.Services.ProactiveBroadcaster.{send_one, announcement, next_seq}
use localsend_switchboard.Services.SwitchLounge.{Store}
use localsend_switchboard.Services.TcpConnectionHub.{ConnWithChan, get_all_connections}
use localsend_switchboard.Services.TcpConnectionHub.Inv.{IsOpen}
use localsend_switchboard.Services.Node.Pointers.{
  HasMessage, HasMessage-load, KeepsMessages, KeepsMessages-snoc, KeepsMessages-put_ttl, KeepsOpen,
  send_on-KeepsOpen, with_chans, with_chans-Inv,
}
use localsend_switchboard.Services.Node.Registered.{
  IsRegistered-IsOpen, get_connections_except-IsRegistered,
}
use localsend_switchboard.Services.Node.{Host, Node, Cast, idle, packs, casts, tick, broadcast_on}
use localsend_switchboard.Services.Node.Inv.{IsCasting, NodeInv, Goes, All-HasMessage, IsAt-keeps}
use localsend_switchboard.Utils.Switch.{pack_local_send_client_info_into_switch_message}

pub send_one-keeps :
    (msg : ℕ) (c : ConnWithChan) (store : Store) (chans : List (Channel ℕ))
    → HasMessage store msg
    → IsOpen chans c.send_chan
    → (send_one msg c (store, chans) ≡ blocked)
      ⊎ ((store' : Store) × (chans' : List (Channel ℕ)) × (send_one msg c (store, chans)
            ≡ done (store', chans'))
          × KeepsMessages store store'
          × KeepsOpen chans chans')
unfolding send_one
send_one-keeps msg c store chans there o =
    let (p, e) = HasMessage-load store msg there in
    let written = put_ttl store msg (decrement p.discovery_ttl) in
    let kept = KeepsMessages-put_ttl store msg (decrement p.discovery_ttl) in
    elim (send_on-KeepsOpen chans c.send_chan msg o) [
      | inl waits ↦ inl (rw e (rw waits refl))
      | inr (chans', sent, k) ↦ inr (written, chans', rw e (rw sent refl), kept, k)
    ]

pub tick-Goes : (b : Cast) (n : Node) → NodeInv n → Goes (tick b n)
unfolding tick
tick-Goes idle n v = inr (
  record n { cast = packs (sync_get n.core.clients) },
  refl,
  record {
    lounge = v.lounge;
    hub = v.hub;
    waiting = v.waiting;
    at = v.at;
    casting = tt;
    clients = v.clients;
  },
)
tick-Goes (packs _) n v = inl refl
tick-Goes (casts _ _ _) n v = inl refl

new_message :
    (node_id self_ip : Bytes) (info : LocalSendClientInfo) (seq : ℕ) (store : Store)
    → HasMessage (announcement node_id self_ip info seq store) (length store)
unfolding pack_local_send_client_info_into_switch_message
new_message node_id self_ip info seq store = (_, _, get_elem?-snoc_last store _, refl)

pub broadcast_on-Goes :
    (host : Host) (b : Cast) (n : Node)
    → NodeInv n
    → IsCasting n.store n.hub b
    → Goes (broadcast_on host b n)
unfolding broadcast_on get_all_connections
broadcast_on-Goes host idle n v h = inl refl
broadcast_on-Goes host (packs []) n v h = inr (
  record n { cast = idle },
  refl,
  record {
    lounge = v.lounge;
    hub = v.hub;
    waiting = v.waiting;
    at = v.at;
    casting = tt;
    clients = v.clients;
  },
)
broadcast_on-Goes host (packs (info ∷ infos)) n v h =
    let m = pack_local_send_client_info_into_switch_message info host.node_id n.seq host.self_ip in
    let store' = announcement host.node_id host.self_ip info n.seq n.store in
    let kept = KeepsMessages-snoc n.store m in
    inr (
      record n {
        store = store';
        seq = next_seq n.seq;
        cast = casts infos (length n.store) (get_all_connections n.hub);
      },
      refl,
      record {
        lounge = v.lounge;
        hub = v.hub;
        waiting = All-HasMessage n.store store' n.core.lounge.lounge.buffer kept v.waiting;
        at = IsAt-keeps n.store store' n.hub n.hub n.task kept (λ c e. e) v.at;
        casting = (
          new_message host.node_id host.self_ip info n.seq n.store,
          get_connections_except-IsRegistered none n.hub v.hub,
        );
        clients = v.clients;
      },
    )
broadcast_on-Goes host (casts infos msg []) n v h = inr (
  record n { cast = packs infos },
  refl,
  record {
    lounge = v.lounge;
    hub = v.hub;
    waiting = v.waiting;
    at = v.at;
    casting = tt;
    clients = v.clients;
  },
)
broadcast_on-Goes host (casts infos msg (c ∷ cs)) n v (there, (at, h)) =
    elim (send_one-keeps msg c n.store n.hub.chans there (IsRegistered-IsOpen n.hub c v.hub at)) [
      | inl waits ↦ inl (rw (waits, broadcast_on) refl)
      | inr (store', chans', e, kept, open_) ↦ inr (
        record n { store = store'; hub = with_chans chans' n.hub; cast = casts infos msg cs },
        rw (e, broadcast_on) refl,
        record {
          lounge = v.lounge;
          hub = with_chans-Inv chans' n.hub open_ v.hub;
          waiting = All-HasMessage n.store store' n.core.lounge.lounge.buffer kept v.waiting;
          at =
              IsAt-keeps n.store store' n.hub (with_chans chans' n.hub) n.task kept (λ d k. k) v.at;
          casting = (kept msg there, h);
          clients = v.clients;
        },
      )
    ]
