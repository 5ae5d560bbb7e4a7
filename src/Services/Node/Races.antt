-- ===== src/Services/Node/Races.antt =====
-- A connection that goes while the broadcaster has it still to serve.
use localsend_switchboard.Prelude.{ℕ, ◌≡◌, refl, ap, ◌∙◌, List, ◌∷◌, subst}
use localsend_switchboard.Entities.{LocalSendClientInfo}
use localsend_switchboard.Std.Channel.{done, panicked}
use localsend_switchboard.Services.SwitchLounge.{Store}
use localsend_switchboard.Services.ProactiveBroadcaster.{send_one}
use localsend_switchboard.Services.TcpConnectionHub.{
  ConnWithChan, TcpConnectionHub, remove_connection,
}
use localsend_switchboard.Services.TcpConnectionHub.Methods.{remove_connection_lem}
use localsend_switchboard.Services.TcpConnectionHub.Sends.{remove_connection_then_send}
use localsend_switchboard.Services.Node.{
  Host, Node, casts, disconnects, broadcasts, broadcast_on, act, new_node,
}
use localsend_switchboard.Services.Node.Pointers.{HasMessage, HasMessage-load}
use localsend_switchboard.Services.Node.Registered.{IsRegistered}
use localsend_switchboard.Services.Node.Inv.{IsCasting}
use localsend_switchboard.Services.Node.Reach.{Reaches, Reaches-NodeInv, new_node-NodeInv}

send_one_removed :
    (hub hub' : TcpConnectionHub) (c : ConnWithChan) (msg : ℕ) (store : Store)
    → HasMessage store msg
    → IsRegistered hub c
    → remove_connection c.conn hub ≡ done hub'
    → send_one msg c (store, hub'.chans) ≡ panicked
unfolding send_one
send_one_removed hub hub' c msg store there at e =
    let (p, found) = HasMessage-load store msg there in
    rw found (rw (remove_connection_then_send c.conn hub hub' c msg at e) refl)

-- In every state that a node reaches from its start by safe acts, if the broadcaster is at a message and
-- has a connection to serve next, RemoveConnection of that connection succeeds, and the broadcaster's
-- next step panics.
pub broadcasts_panicked :
    (host : Host) (n : Node) (infos : List LocalSendClientInfo) (msg : ℕ) (c : ConnWithChan)
    (cs : List ConnWithChan)
    → Reaches host new_node n
    → n.cast ≡ casts infos msg (c ∷ cs)
    → (n' : Node) × (act host n (disconnects c.conn) ≡ done n')
      × (act host n' broadcasts ≡ panicked)
unfolding act broadcast_on
broadcasts_panicked host n infos msg c cs reached at =
    let v = Reaches-NodeInv host new_node n new_node-NodeInv reached in
    let (there, (registered, _)) : IsCasting n.store n.hub (casts infos msg (c ∷ cs)) =
      subst (IsCasting n.store n.hub) at v.casting in
    let (hub', e, _, _) = remove_connection_lem c.conn n.hub v.hub in
    let n' = record n { hub = hub' } in
    let dead = send_one_removed n.hub hub' c msg n.store there registered e in
    (n', rw e refl, ap (λ b. broadcast_on host b n') at ∙ rw (dead, broadcast_on) refl)
