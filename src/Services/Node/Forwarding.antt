-- ===== src/Services/Node/Forwarding.antt =====
-- The forwarder's acts keep the invariant of the node.
use localsend_switchboard.Prelude.{
  ℕ, refl, subst, inl, inr, Option, none, some, List, [], ◌∷◌, get_elem?, All, Option-cases,
  Bool-cases,
}
use localsend_switchboard.Std.Ip.{is_private}
use localsend_switchboard.Services.SwitchLounge.Drain.{read-Inv}
use localsend_switchboard.Services.TcpConnectionHub.{ConnWithChan, get_connections_except}
use localsend_switchboard.Services.PassiveForwarder.{source_of}
use localsend_switchboard.Services.Node.{Host, Task, Node, start, take_next, go_on, proceed}
use localsend_switchboard.Services.Node.Pointers.{
  HasMessage, HasMessage-load, forward_one-keeps, with_chans, with_chans-Inv,
}
use localsend_switchboard.Services.Node.Registered.{
  IsRegistered, IsRegistered-IsOpen, get_connections_except-IsRegistered,
}
use localsend_switchboard.Services.Node.Inv.{IsAt, IsCasting-keeps, NodeInv, Goes, All-HasMessage}

-- The forwarder starts on a message, or passes it over.
start-Goes :
    (host : Host) (msg : ℕ) (n : Node)
    → NodeInv n
    → HasMessage n.store msg
    → Goes (start host (some msg) n)
unfolding start
start-Goes host msg n v there =
    let (p, e) = HasMessage-load n.store msg there in
    elim (Option-cases (host.text.parse_ip p.original_addr)) [
      | inl f ↦ inr (n, rw e (rw (f, start) refl), v)
      | inr (remote, f) ↦ elim (Bool-cases (is_private remote)) [
        | inr public ↦ inr (n, rw e (rw (f, start) (rw (public, start) refl)), v)
        | inl private_one ↦ inr (
          record n {
            task = some (record {
              msg = msg;
              remote = remote;
              rest = get_connections_except (source_of (get_elem? n.store msg)) n.hub;
            });
          },
          rw e (rw (f, start) (rw (private_one, start) refl)),
          record {
            lounge = v.lounge;
            hub = v.hub;
            waiting = v.waiting;
            at = (
              there,
              get_connections_except-IsRegistered (source_of (get_elem? n.store msg)) n.hub v.hub,
            );
            casting = v.casting;
            clients = v.clients;
          },
        )
      ]
    ]

proceed-Goes :
    (host : Host) (t : Task) (n : Node)
    → NodeInv n
    → HasMessage n.store t.msg
    → All (IsRegistered n.hub) t.rest
    → Goes (proceed host t.msg t.remote t.rest n)
unfolding proceed
proceed-Goes host t n v there left = go t.rest left
  where
    go :
        (cs : List ConnWithChan)
        → All (IsRegistered n.hub) cs
        → Goes (proceed host t.msg t.remote cs n)
    go [] h = inr (
      _,
      refl,
      record {
        lounge = v.lounge;
        hub = v.hub;
        waiting = v.waiting;
        at = tt;
        casting = v.casting;
        clients = v.clients;
      },
    )
    go (c ∷ cs) (at, h) =
        elim (forward_one-keeps t.msg c n.store n.hub.chans there
          (IsRegistered-IsOpen n.hub c v.hub at)) [
            | inl waits ↦ inl (rw (waits, proceed) refl)
            | inr (store', chans', e, kept, open_) ↦ inr (
              record n {
                store = store';
                hub = with_chans chans' n.hub;
                task = some (record { msg = t.msg; remote = t.remote; rest = cs });
              },
              rw (e, proceed) refl,
              record {
                lounge = v.lounge;
                hub = with_chans-Inv chans' n.hub open_ v.hub;
                waiting = All-HasMessage n.store store' n.core.lounge.lounge.buffer kept v.waiting;
                at = (kept t.msg there, h);
                casting =
                    IsCasting-keeps n.store store' n.hub (with_chans chans' n.hub) n.cast kept
                      (λ d e. e) v.casting;
                clients = v.clients;
              },
            )
          ]

pub take_next-Goes :
    (host : Host) (t : Option Task) (n : Node) → NodeInv n → Goes (take_next host t n)
unfolding take_next
take_next-Goes host (some t) n v = inl refl
take_next-Goes host none n v = elim (read-Inv n.core.lounge v.lounge) [
  | inl (_, _, e) ↦ inl (rw e refl)
  | inr (inl (_, _, e)) ↦ inr (n, rw e refl, v)
  | inr (inr (msg, sl', buffer, e, v')) ↦
      let waiting : All (HasMessage n.store) (msg ∷ sl'.lounge.buffer) =
        subst (All (HasMessage n.store)) buffer v.waiting in
      rw e (
        start-Goes host msg (record n { core = record n.core { lounge = sl' } })
          (record {
            lounge = v';
            hub = v.hub;
            waiting = waiting.1;
            at = v.at;
            casting = v.casting;
            clients = v.clients;
          })
          waiting.0)
]

pub go_on-Goes :
    (host : Host) (t : Option Task) (n : Node)
    → NodeInv n
    → IsAt n.store n.hub t
    → Goes (go_on host t n)
unfolding go_on
go_on-Goes host none n v at = inl refl
go_on-Goes host (some t) n v at = proceed-Goes host t n v at.0 at.1
