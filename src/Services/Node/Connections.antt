-- ===== src/Services/Node/Connections.antt =====
-- The acts on the connections, and the closing of the lounges and the hub, keep the invariant of the node.
use localsend_switchboard.Prelude.{
  ℕ, ◌≡◌, ◌≢◌, refl, ap, ◌∙◌, subst, inl, inr, Option, none, some, List, [], ◌∷◌, All,
}
use localsend_switchboard.Services.SwitchLounge.{
  Store, SwitchLounge, WriteResult, load, read, write,
}
use localsend_switchboard.Services.SwitchLounge
use localsend_switchboard.Services.TcpConnectionHub.{
  TcpConn, ConnWithChan, TcpConnectionHub, add_connection,
}
use localsend_switchboard.Services.TcpConnectionHub.Inv as HubInv
use localsend_switchboard.Services.Node.{
  Host, Task, Node, connects, disconnects, drains, closes_clients, closes_lounge, closes_hub, act,
  Cast, idle, packs, casts,
}
use localsend_switchboard.Services.Node.Pointers.{
  HasMessage, drain-keeps, with_chans, with_chans-Inv,
}
use localsend_switchboard.Services.Node.Registered.{
  IsRegistered, add_connection-keeps, remove_connection-keeps,
}
use localsend_switchboard.Services.Node.Clients.{close-IsSignalled}
use localsend_switchboard.Services.SwitchLounge.Drain.{close-Inv}
use localsend_switchboard.Services.SwitchLounge.History.{left_closed}
use localsend_switchboard.Services.TcpConnectionHub
use localsend_switchboard.Services.SwitchLounge.Fifo.{close-buffer}
use localsend_switchboard.Services.Node.Inv.{
  IsAt, NodeInv, Goes, IsAt-keeps, IsCasting, IsCasting-keeps,
}

-- The connections that the forwarder has still to serve.
abbrev pub still : Option Task → List ConnWithChan
still none = []
still (some t) = t.rest

-- Those that the broadcaster has still to serve with the message that it is at.
abbrev pub still_cast : Cast → List ConnWithChan
still_cast idle = []
still_cast (packs _) = []
still_cast (casts _ _ cs) = cs

close_hub-Inv : (hub : TcpConnectionHub) → HubInv.Inv hub → HubInv.Inv (TcpConnectionHub.close hub)
unfolding TcpConnectionHub.close
close_hub-Inv hub v = record {
  is_map = v.is_map;
  bounded = v.bounded;
  entries = v.entries;
  distinct = v.distinct;
}

pub connects-Goes :
    (host : Host) (n : Node) (conn : TcpConn) → NodeInv n → Goes (act host n (connects conn))
unfolding act
connects-Goes host n conn v =
    let (v', kept) = add_connection-keeps conn n.hub v.hub in
    inr (
      record n { hub = (add_connection conn n.hub).1 },
      refl,
      record {
        lounge = v.lounge;
        hub = v';
        waiting = v.waiting;
        at =
            IsAt-keeps n.store n.store n.hub (add_connection conn n.hub).1 n.task (λ m h. h) kept
              v.at;
        casting =
            IsCasting-keeps n.store n.store n.hub (add_connection conn n.hub).1 n.cast (λ m h. h)
              kept v.casting;
        clients = v.clients;
      },
    )

-- Neither the forwarder nor the broadcaster has the connection still to serve.
abbrev pub IsApart : Node → TcpConn → Type 0
IsApart n conn =
    All (λ c. c.conn.remote_addr ≢ conn.remote_addr) (still n.task)
    × All (λ c. c.conn.remote_addr ≢ conn.remote_addr) (still_cast n.cast)

pub disconnects-Goes :
    (host : Host) (n : Node) (conn : TcpConn)
    → NodeInv n
    → IsApart n conn
    → Goes (act host n (disconnects conn))
unfolding act
disconnects-Goes host n conn v s =
    let (hub', e, v', kept) = remove_connection-keeps conn n.hub v.hub in
    inr (
      record n { hub = hub' },
      rw e refl,
      record {
        lounge = v.lounge;
        hub = v';
        waiting = v.waiting;
        at = at_keeps hub' kept n.task s.0 v.at;
        casting = casting_keeps hub' kept n.cast s.1 v.casting;
        clients = v.clients;
      },
    )
  where
    others :
        (hub' : TcpConnectionHub)
        → ((c : ConnWithChan)
            → c.conn.remote_addr ≢ conn.remote_addr
            → IsRegistered n.hub c
            → IsRegistered hub' c)
        → (cs : List ConnWithChan) → All (λ c. c.conn.remote_addr ≢ conn.remote_addr) cs
        → All (IsRegistered n.hub) cs
        → All (IsRegistered hub') cs
    others hub' kept [] o h = tt
    others hub' kept (c ∷ cs) (o, os) (e, h) = (kept c o e, others hub' kept cs os h)

    at_keeps :
        (hub' : TcpConnectionHub)
        → ((c : ConnWithChan)
            → c.conn.remote_addr ≢ conn.remote_addr
            → IsRegistered n.hub c
            → IsRegistered hub' c)
        → (t : Option Task) → All (λ c. c.conn.remote_addr ≢ conn.remote_addr) (still t)
        → IsAt n.store n.hub t
        → IsAt n.store hub' t
    at_keeps hub' kept none o h = tt
    at_keeps hub' kept (some t) o (there, h) = (there, others hub' kept t.rest o h)

    casting_keeps :
        (hub' : TcpConnectionHub)
        → ((c : ConnWithChan)
            → c.conn.remote_addr ≢ conn.remote_addr
            → IsRegistered n.hub c
            → IsRegistered hub' c)
        → (b : Cast) → All (λ c. c.conn.remote_addr ≢ conn.remote_addr) (still_cast b)
        → IsCasting n.store n.hub b
        → IsCasting n.store hub' b
    casting_keeps hub' kept idle o h = tt
    casting_keeps hub' kept (packs _) o h = tt
    casting_keeps hub' kept (casts _ msg cs) o (there, h) = (there, others hub' kept cs o h)

pub drains-Goes : (host : Host) (n : Node) (c : ℕ) → NodeInv n → Goes (act host n (drains c))
unfolding act
drains-Goes host n c v = elim (drain-keeps c n.hub.chans) [
  | inl waits ↦ inl (rw (waits, act) refl)
  | inr (chans', e, open_) ↦ inr (
    record n { hub = with_chans chans' n.hub },
    rw (e, act) refl,
    record {
      lounge = v.lounge;
      hub = with_chans-Inv chans' n.hub open_ v.hub;
      waiting = v.waiting;
      at = v.at;
      casting = v.casting;
      clients = v.clients;
    },
  )
]

pub closes_clients-Goes : (host : Host) (n : Node) → NodeInv n → Goes (act host n closes_clients)
unfolding act
closes_clients-Goes host n v =
    let (clients', e, v') = close-IsSignalled n.core.clients v.clients in
    inr (
      record n { core = record n.core { clients = clients' } },
      rw e refl,
      record {
        lounge = v.lounge;
        hub = v.hub;
        waiting = v.waiting;
        at = v.at;
        casting = v.casting;
        clients = v';
      },
    )

pub closes_lounge-Goes : (host : Host) (n : Node) → NodeInv n → Goes (act host n closes_lounge)
unfolding act
closes_lounge-Goes host n v =
    let (lounge', e, _, v') = close-Inv n.core.lounge v.lounge in
    let same : left_closed n.core.lounge (SwitchLounge.close n.core.lounge) ≡ lounge' =
      ap (left_closed n.core.lounge) e in
    inr (
      record n { core = record n.core { lounge = lounge' } },
      rw e refl,
      record {
        lounge = v';
        hub = v.hub;
        waiting =
            subst (All (HasMessage n.store))
              (close-buffer n.core.lounge ∙ ap (λ (sl : SwitchLounge). sl.lounge.buffer) same)
              v.waiting;
        at = v.at;
        casting = v.casting;
        clients = v.clients;
      },
    )

pub closes_hub-Goes : (host : Host) (n : Node) → NodeInv n → Goes (act host n closes_hub)
unfolding act
closes_hub-Goes host n v = inr (
  record n { hub = TcpConnectionHub.close n.hub },
  refl,
  record {
    lounge = v.lounge;
    hub = close_hub-Inv n.hub v.hub;
    waiting = v.waiting;
    at = unfold TcpConnectionHub.close in v.at;
    casting = unfold TcpConnectionHub.close in v.casting;
    clients = v.clients;
  },
)
