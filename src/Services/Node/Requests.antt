-- ===== src/Services/Node/Requests.antt =====
-- Where the registration requests of a node go.
use localsend_switchboard.Prelude.{
  ℕ, ◌≡◌, ◌∙◌, refl, sym, ap, subst, length, [], ◌∷◌, ◌++◌, Bytes, All,
}
use localsend_switchboard.Entities.{DiscoveryMessage}
use localsend_switchboard.Std.Channel.{Outcome, done, blocked, panicked, ◌>>=◌, Channel}
use localsend_switchboard.Services.SwitchLounge.{
  Store, SwitchLounge, WriteResult, load, write, read, new_switch_lounge,
}
use localsend_switchboard.Services.SwitchLounge
use localsend_switchboard.Services.SwitchLounge.Fifo.{close-buffer, purge-lounge}
use localsend_switchboard.Services.SwitchLounge.History.{left_closed}
use localsend_switchboard.Services.LocalClientLounge.{LocalClientLounge}
use localsend_switchboard.Services.LocalClientLounge
use localsend_switchboard.Services.TcpConnectionHub.{remove_connection}
use localsend_switchboard.Services.PassiveForwarder.Forward.{Points-load}
use localsend_switchboard.Services.PassiveForwarder.Target.{HasNoColon, IsHostText}
use localsend_switchboard.Services.SwitchCore.{after_write, on_event}
use localsend_switchboard.Services.SwitchCore.Loop.{after_write-lounge}
use localsend_switchboard.Services.Node.{
  Host, Node, Act, hears, receives, takes, proceeds, ticks, announces, broadcasts, probes, connects,
  disconnects, drains, closes_clients, closes_lounge, closes_hub, message, drain, act, new_node,
}
use localsend_switchboard.Services.Node.Waiting.{Wait, write-Wait}
use localsend_switchboard.Services.Node.Plain.{
  HasPlain, All-HasPlain, KeepsPlain-snoc, HasPlain-last,
}
use localsend_switchboard.Services.Node.Polite.{
  IsPolite, IsFromPrivate-keeps, Polite, Leads, >>=-Leads, take_next-Polite, go_on-Polite,
  tick-Polite, broadcast_on-Polite,
}

-- No message that arrives has a colon in its protocol.
abbrev pub IsPlain : Act → Type 0
IsPlain (hears _ _ p) = HasNoColon p.protocol
IsPlain (receives _ _ p) = HasNoColon p.protocol
IsPlain _ = Unit

-- The node is reached by acts in any order.
pub data Runs (host : Host) : Node → Node → Type 0 where
  ends : (n : Node) → Runs host n n
  acts :
      (n n' last : Node) (a : Act)
      → IsPlain a
      → act host n a ≡ done n'
      → Runs host n' last
      → Runs host n last

-- The messages that wait once a new one was written.
written_waits :
    (n : Node) (host : Host) (now : ℕ) (addr : Bytes) (p : DiscoveryMessage) (r : WriteResult)
    (sl : SwitchLounge)
    → HasNoColon p.protocol
    → Polite host n
    → write now (n.store ++ message addr p ∷ []) (length n.store) n.core.lounge ≡ done (r, sl)
    → All (HasPlain (n.store ++ message addr p ∷ [])) sl.lounge.buffer
written_waits n host now addr p r sl plain v e =
    let store = n.store ++ message addr p ∷ [] in
    let kept = KeepsPlain-snoc n.store (message addr p) in
    let new = HasPlain-last n.store (message addr p) p refl plain in
    subst (Wait (HasPlain store)) e (
      write-Wait (HasPlain store) now store (length n.store) new.0 n.core.lounge
        (Points-load store (length n.store) new.0 new.1)
        (All-HasPlain n.store store n.core.lounge.lounge.buffer kept v.waiting) new)

act-Polite :
    (host : Host) (n : Node) (a : Act)
    → IsHostText host.text
    → IsPlain a
    → Polite host n
    → Leads (Polite host) (act host n a)
unfolding act on_event
act-Polite host n (hears now addr p) text plain v =
    let store = n.store ++ message addr p ∷ [] in
    arrives (write now store (length n.store) n.core.lounge) refl
  where
    arrives :
        (o : Outcome (WriteResult × SwitchLounge))
        → write now (n.store ++ message addr p ∷ []) (length n.store) n.core.lounge ≡ o
        → Leads (Polite host) (
            (o >>= λ r. done (
              after_write now host.lifetime
                (n.store ++ message addr p ∷ [])
                (length n.store)
                n.core.clients
                r))
            >>= λ core. done (record n { core = core; store = n.store ++ message addr p ∷ [] }))
    arrives blocked e = tt
    arrives panicked e = tt
    arrives (done (r, sl)) e = record {
      sent = v.sent;
      at = IsFromPrivate-keeps n.store _ n.task (KeepsPlain-snoc n.store (message addr p)) v.at;
      waiting =
          subst
            (λ (x : SwitchLounge). All (HasPlain (n.store ++ message addr p ∷ [])) x.lounge.buffer)
            (sym (
              after_write-lounge now host.lifetime (n.store ++ message addr p ∷ []) (length n.store)
                n.core.clients r sl))
            (written_waits n host now addr p r sl plain v e);
    }
act-Polite host n (receives now addr p) text plain v =
    arrives (write now (n.store ++ message addr p ∷ []) (length n.store) n.core.lounge) refl
  where
    arrives :
        (o : Outcome (WriteResult × SwitchLounge))
        → write now (n.store ++ message addr p ∷ []) (length n.store) n.core.lounge ≡ o
        → Leads (Polite host) (
            (o >>= λ r. done (record { lounge = r.1; clients = n.core.clients })) >>= λ core.
            done (record n { core = core; store = n.store ++ message addr p ∷ [] }))
    arrives blocked e = tt
    arrives panicked e = tt
    arrives (done (r, sl)) e = record {
      sent = v.sent;
      at = IsFromPrivate-keeps n.store _ n.task (KeepsPlain-snoc n.store (message addr p)) v.at;
      waiting = written_waits n host now addr p r sl plain v e;
    }
act-Polite host n takes text plain v = take_next-Polite host n.task n v
act-Polite host n proceeds text plain v = go_on-Polite host n.task n text v.at v
act-Polite host n (ticks now) text plain v = record {
  sent = v.sent;
  at = v.at;
  waiting =
      subst (λ (c : Channel ℕ). All (HasPlain n.store) c.buffer)
        (sym (purge-lounge now n.core.lounge)) v.waiting;
}
act-Polite host n announces text plain v = tick-Polite host n.cast n v
act-Polite host n broadcasts text plain v = broadcast_on-Polite host n.cast n v
act-Polite host n (probes now http https) text plain v = record {
  sent = v.sent;
  at = v.at;
  waiting = v.waiting;
}
act-Polite host n (connects conn) text plain v = record {
  sent = v.sent;
  at = v.at;
  waiting = v.waiting;
}
act-Polite host n (disconnects conn) text plain v =
    >>=-Leads (Polite host) (remove_connection conn n.hub) _
      (λ hub e. record { sent = v.sent; at = v.at; waiting = v.waiting })
act-Polite host n (drains c) text plain v =
    >>=-Leads (Polite host) (drain c n.hub.chans) _
      (λ chans e. record { sent = v.sent; at = v.at; waiting = v.waiting })
act-Polite host n closes_clients text plain v =
    >>=-Leads (Polite host) (LocalClientLounge.close n.core.clients) _
      (λ clients e. record { sent = v.sent; at = v.at; waiting = v.waiting })
act-Polite host n closes_lounge text plain v =
    >>=-Leads (Polite host) (SwitchLounge.close n.core.lounge) _ (λ sl e. record {
      sent = v.sent;
      at = v.at;
      waiting =
          subst (All (HasPlain n.store))
            (close-buffer n.core.lounge ∙ ap (λ o. (left_closed n.core.lounge o).lounge.buffer) e)
            v.waiting;
    })
act-Polite host n closes_hub text plain v = record { sent = v.sent; at = v.at; waiting = v.waiting }

Runs-Polite :
    (host : Host) (n last : Node)
    → IsHostText host.text
    → Polite host n
    → Runs host n last
    → Polite host last
Runs-Polite host n last text v (ends _) = v
Runs-Polite host n last text v (acts _ n' _ a plain e r) =
    Runs-Polite host n' last text (subst (Leads (Polite host)) e (act-Polite host n a text plain v))
      r

new_node-Polite : (host : Host) → Polite host new_node
unfolding new_node new_switch_lounge
new_node-Polite host = record { sent = tt; at = tt; waiting = tt }

-- In every state that a node reaches from its start, in any order of the acts, every registration
-- request that it has made goes to a private address other than the host's own, as long as no message
-- that arrives has a colon in its protocol, and the text of an address has no byte that ends the
-- authority of a URL.
pub requests-IsPolite :
    (host : Host) (n : Node)
    → IsHostText host.text
    → Runs host new_node n
    → All (IsPolite host) n.requests
requests-IsPolite host n text r = (Runs-Polite host new_node n text (new_node-Polite host) r).sent
