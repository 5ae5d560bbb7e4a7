-- ===== src/Services/Node/Reach.antt =====
-- The states that a node reaches from its start by acts that are safe.
use localsend_switchboard.Prelude.{◌≡◌, refl, subst, inl, inr, [], All}
use localsend_switchboard.Std.Channel.{Outcome, done}
use localsend_switchboard.Services.SwitchLounge.{new_switch_lounge}
use localsend_switchboard.Services.SwitchLounge.Inv as LoungeInv
use localsend_switchboard.Services.TcpConnectionHub.Methods as HubMethods
use localsend_switchboard.Services.Node.{Host, Node, Act, act, new_node}
use localsend_switchboard.Services.Node.Pointers.{HasMessage}
use localsend_switchboard.Services.Node.Inv.{NodeInv, Goes, IsSignalled}
use localsend_switchboard.Services.LocalClientLounge.{new_local_client_lounge}
use localsend_switchboard.Services.Node.Safety.{IsSafe, act-Goes}

-- The node is reached by acts in some order, where no connection goes that the forwarder or the
-- broadcaster has still to serve. An act that waits is left to a later time.
pub data Reaches (host : Host) : Node → Node → Type 0 where
  stays : (n : Node) → Reaches host n n
  goes :
      (n n' last : Node) (a : Act)
      → IsSafe n a
      → act host n a ≡ done n'
      → Reaches host n' last
      → Reaches host n last

no_messages : All (HasMessage []) new_switch_lounge.lounge.buffer
unfolding new_switch_lounge
no_messages = tt

new-IsSignalled : IsSignalled new_local_client_lounge
unfolding new_local_client_lounge
new-IsSignalled = refl

pub new_node-NodeInv : NodeInv new_node
unfolding new_node
new_node-NodeInv = record {
  lounge = LoungeInv.new-Inv;
  hub = HubMethods.new-Inv;
  waiting = no_messages;
  at = tt;
  casting = tt;
  clients = new-IsSignalled;
}

Goes-NodeInv : (o : Outcome Node) (n : Node) → Goes o → o ≡ done n → NodeInv n
Goes-NodeInv o n (inl waits) e = absurd (cc (waits, e))
Goes-NodeInv o n (inr (m, e', v)) e = let same : m ≡ n = cc (e', e) in subst NodeInv same v

pub Reaches-NodeInv : (host : Host) (n last : Node) → NodeInv n → Reaches host n last → NodeInv last
Reaches-NodeInv host n last v (stays _) = v
Reaches-NodeInv host n last v (goes _ n' _ a s e r) =
    Reaches-NodeInv host n' last (Goes-NodeInv (act host n a) n' (act-Goes host n a v s) e) r

-- In every state that a node reaches from its start by safe acts, every act that is safe waits or
-- succeeds, and leaves a state with the invariant: the waiting room and the hub keep theirs, every
-- pointer that waits leads to a message with a payload, and what the forwarder and the broadcaster have
-- still to serve is registered. An act is safe unless it removes a connection that the forwarder, or the
-- broadcaster with its current message, has still to serve.
pub Reaches-act :
    (host : Host) (n : Node) (a : Act) → Reaches host new_node n → IsSafe n a → Goes (act host n a)
Reaches-act host n a r s = act-Goes host n a (Reaches-NodeInv host new_node n new_node-NodeInv r) s
