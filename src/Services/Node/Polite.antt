-- ===== src/Services/Node/Polite.antt =====
-- What the forwarder and the broadcaster do to the registration requests and to what waits for them.
use localsend_switchboard.Prelude.{
  ℕ, ◌≡◌, ◌∙◌, refl, sym, subst, inl, inr, true, false, Option, none, some, List, [], ◌∷◌, ◌%◌, ◌^◌,
  Bytes, get_elem?, All, All-append, Bool-cases, Option-cases,
}
use mathlib.Core.List.{append-nil}
use localsend_switchboard.Entities.{HttpJsonRequest}
use localsend_switchboard.Std.Channel.{Outcome, done, blocked, panicked, ◌>>=◌}
use localsend_switchboard.Std.Ip.{is_private, equal}
use localsend_switchboard.Services.SwitchLounge.{Store, SwitchLounge, load, read}
use localsend_switchboard.Services.SwitchLounge.Fifo.{IsTaken, read-IsTaken}
use localsend_switchboard.Services.LocalClientLounge.{LocalClientLounge}
use localsend_switchboard.Services.TcpConnectionHub.{ConnWithChan}
use localsend_switchboard.Services.PassiveForwarder.{forward_one, register}
use localsend_switchboard.Services.PassiveForwarder.Handle.{GoesTo, register-GoesTo}
use localsend_switchboard.Services.PassiveForwarder.Target.{IsHostText}
use localsend_switchboard.Services.ProactiveBroadcaster.{send_one}
use localsend_switchboard.Services.Node.{
  Host, Task, Node, Cast, idle, packs, casts, start, take_next, go_on, proceed, tick, broadcast_on,
}
use localsend_switchboard.Services.Node.Plain.{
  HasPlain, KeepsPlain, All-HasPlain, KeepsPlain-snoc, forward_one-plain, send_one-plain,
}

-- The request goes to a port of a private address, which is not the host's own.
abbrev pub IsPolite : Host → HttpJsonRequest → Type 0
IsPolite host r =
    (remote : Bytes) × (port : ℕ) × (is_private remote ≡ true)
    × (equal remote host.self_ip ≡ false)
    × GoesTo host.text remote port r

-- The forwarder is at a message from a private address, whose protocol has no colon.
abbrev pub IsFromPrivate : Store → Option Task → Type 0
IsFromPrivate store none = Unit
IsFromPrivate store (some t) = (is_private t.remote ≡ true) × HasPlain store t.msg

pub IsFromPrivate-keeps :
    (store store' : Store) (t : Option Task)
    → KeepsPlain store store'
    → IsFromPrivate store t
    → IsFromPrivate store' t
IsFromPrivate-keeps store store' none k h = tt
IsFromPrivate-keeps store store' (some t) k (p, h) = (p, k t.msg h)

pub record Polite (host : Host) (n : Node) : Type 0 where
  pub sent : All (IsPolite host) n.requests
  pub at : IsFromPrivate n.store n.task
  pub waiting : All (HasPlain n.store) n.core.lounge.lounge.buffer

-- Where the outcome is a node, it has the property.
abbrev pub Leads : (Node → Type 0) → Outcome Node → Type 0
Leads P (done n) = P n
Leads P blocked = Unit
Leads P panicked = Unit

pub >>=-Leads :
    {A : Type 0} (P : Node → Type 0) (o : Outcome A) (f : A → Outcome Node)
    → ((a : A) → o ≡ done a → Leads P (f a))
    → Leads P (o >>= f)
>>=-Leads P (done a) f h = h a refl
>>=-Leads P blocked f h = tt
>>=-Leads P panicked f h = tt

GoesTo-IsPolite :
    (host : Host) (remote : Bytes) (port : ℕ) (rs : List HttpJsonRequest)
    → is_private remote ≡ true
    → equal remote host.self_ip ≡ false
    → All (GoesTo host.text remote port) rs
    → All (IsPolite host) rs
GoesTo-IsPolite host remote port [] p o h = tt
GoesTo-IsPolite host remote port (r ∷ rs) p o (g, h) =
    ((remote, port, p, o, g), GoesTo-IsPolite host remote port rs p o h)

register-IsPolite :
    (host : Host) (remote : Bytes) (store : Store) (msg : ℕ) (clients : LocalClientLounge)
    → IsHostText host.text
    → is_private remote ≡ true
    → HasPlain store msg
    → All
        (IsPolite host)
        (register host.text host.json host.self_ip remote (get_elem? store msg) clients)
register-IsPolite host remote store msg clients text private_one (p, s, plain) =
    elim (Bool-cases (equal remote host.self_ip)) [
      | inl own ↦ unfold register in rw own tt
      | inr other ↦
          subst
            (λ m. All (IsPolite host) (register host.text host.json host.self_ip remote m clients))
            (sym s.found)
            (GoesTo-IsPolite host remote (p.port % 2 ^ 16) _ private_one other (
              register-GoesTo host.text host.json host.self_ip remote s.message p clients text
                s.payload plain))
    ]

start-Polite :
    (host : Host) (msg : ℕ) (n : Node)
    → Polite host n
    → HasPlain n.store msg
    → Leads (Polite host) (start host (some msg) n)
unfolding start
start-Polite host msg n v there = >>=-Leads (Polite host) (load n.store msg) _ (λ p e.
    elim (Option-cases (host.text.parse_ip p.original_addr)) [
      | inl f ↦ rw (f, start) v
      | inr (remote, f) ↦ elim (Bool-cases (is_private remote)) [
        | inl private_one ↦
            rw (f, start)
              (rw (private_one, start)
                (record { sent = v.sent; at = (private_one, there); waiting = v.waiting }))
        | inr public ↦ rw (f, start) (rw (public, start) v)
      ]
    ])

proceed-Polite :
    (host : Host) (msg : ℕ) (remote : Bytes) (cs : List ConnWithChan) (n : Node)
    → IsHostText host.text
    → is_private remote ≡ true
    → HasPlain n.store msg
    → Polite host n
    → Leads (Polite host) (proceed host msg remote cs n)
unfolding proceed
proceed-Polite host msg remote [] n text p there v = record {
  sent =
      All-append (IsPolite host) n.requests _ v.sent
        (register-IsPolite host remote n.store msg n.core.clients text p there);
  at = tt;
  waiting = v.waiting;
}
proceed-Polite host msg remote (c ∷ cs) n text p there v =
    >>=-Leads (Polite host) (forward_one msg c (n.store, n.hub.chans)) _ (λ r e.
      let kept = forward_one-plain msg c n.store r.0 n.hub.chans r.1 e in
      record {
        sent = v.sent;
        at = (p, kept msg there);
        waiting = All-HasPlain n.store r.0 n.core.lounge.lounge.buffer kept v.waiting;
      })

pub take_next-Polite :
    (host : Host) (t : Option Task) (n : Node)
    → Polite host n
    → Leads (Polite host) (take_next host t n)
unfolding take_next
take_next-Polite host (some t) n v = tt
take_next-Polite host none n v =
    >>=-Leads (Polite host) (read n.core.lounge) _
      (λ r e. next r.0 r.1 (subst (IsTaken n.core.lounge) e (read-IsTaken n.core.lounge)))
  where
    next :
        (msg : Option ℕ) (sl : SwitchLounge)
        → IsTaken n.core.lounge (done (msg, sl))
        → Leads (Polite host) (start host msg (record n { core = record n.core { lounge = sl } }))
    next none sl e =
        unfold start in
        record {
          sent = v.sent;
          at = v.at;
          waiting =
              subst (All (HasPlain n.store)) (sym (append-nil n.core.lounge.lounge.buffer) ∙ e)
                v.waiting;
        }
    next (some msg) sl e =
        let waiting : All (HasPlain n.store) (msg ∷ sl.lounge.buffer) =
          subst (All (HasPlain n.store)) (sym (append-nil n.core.lounge.lounge.buffer) ∙ e)
            v.waiting in
        start-Polite host msg (record n { core = record n.core { lounge = sl } })
          (record { sent = v.sent; at = v.at; waiting = waiting.1 }) waiting.0

pub go_on-Polite :
    (host : Host) (t : Option Task) (n : Node)
    → IsHostText host.text
    → IsFromPrivate n.store t
    → Polite host n
    → Leads (Polite host) (go_on host t n)
unfolding go_on
go_on-Polite host none n text p v = tt
go_on-Polite host (some t) n text (p, there) v =
    proceed-Polite host t.msg t.remote t.rest n text p there v

pub tick-Polite :
    (host : Host) (b : Cast) (n : Node) → Polite host n → Leads (Polite host) (tick b n)
unfolding tick
tick-Polite host idle n v = record { sent = v.sent; at = v.at; waiting = v.waiting }
tick-Polite host (packs _) n v = tt
tick-Polite host (casts _ _ _) n v = tt

-- The same node with another store, which keeps its messages.
stored-Polite :
    (host : Host) (n n' : Node)
    → KeepsPlain n.store n'.store
    → n.requests ≡ n'.requests
    → n.task ≡ n'.task
    → n.core.lounge.lounge.buffer ≡ n'.core.lounge.lounge.buffer
    → Polite host n
    → Polite host n'
stored-Polite host n n' kept rs t ms v = record {
  sent = subst (All (IsPolite host)) rs v.sent;
  at = subst (IsFromPrivate n'.store) t (IsFromPrivate-keeps n.store n'.store n.task kept v.at);
  waiting =
      subst (All (HasPlain n'.store)) ms
        (All-HasPlain n.store n'.store n.core.lounge.lounge.buffer kept v.waiting);
}

pub broadcast_on-Polite :
    (host : Host) (b : Cast) (n : Node)
    → Polite host n
    → Leads (Polite host) (broadcast_on host b n)
unfolding broadcast_on
broadcast_on-Polite host idle n v = tt
broadcast_on-Polite host (packs []) n v = record { sent = v.sent; at = v.at; waiting = v.waiting }
broadcast_on-Polite host (packs (info ∷ infos)) n v =
    stored-Polite host n _ (KeepsPlain-snoc n.store _) refl refl refl v
broadcast_on-Polite host (casts infos msg []) n v = record {
  sent = v.sent;
  at = v.at;
  waiting = v.waiting;
}
broadcast_on-Polite host (casts infos msg (c ∷ cs)) n v =
    >>=-Leads (Polite host) (send_one msg c (n.store, n.hub.chans)) _ (λ r e.
      stored-Polite host n _ (send_one-plain msg c n.store r.0 n.hub.chans r.1 e) refl refl refl v)
