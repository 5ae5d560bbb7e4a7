-- ===== src/Services/Node/Plain.antt =====
-- Pointers to messages whose protocol has no colon: what the goroutines write to the store keeps them.
use localsend_switchboard.Prelude.{
  ℕ, ◌≡◌, subst, ◌∙◌, some, List, [], ◌∷◌, ◌++◌, leb, if◌then◌else◌, ℕ_discrete, get_elem?,
  get_elem?-snoc, get_elem?-set_other, get_elem?-snoc_last, length, All, Bool-cases, Option-cases,
  inl, inr,
}
use localsend_switchboard.Entities.{DiscoveryMessage, SwitchMessage}
use localsend_switchboard.Std.Channel.{Outcome, done, blocked, panicked, ◌>>=◌, Channel}
use localsend_switchboard.Services.SwitchLounge.{Store, load}
use localsend_switchboard.Services.TcpConnectionHub.{ConnWithChan, send_on}
use localsend_switchboard.Services.PassiveForwarder.{decrement, with_ttl, put_ttl, forward_one}
use localsend_switchboard.Services.PassiveForwarder.Forward.{
  Points, with_payload_ttl, put_ttl-Points, stored,
}
use localsend_switchboard.Services.PassiveForwarder.Target.{HasNoColon}
use localsend_switchboard.Services.ProactiveBroadcaster.{send_one}

-- The pointer leads to a message whose protocol has no colon.
abbrev pub HasPlain : Store → ℕ → Type 0
HasPlain store msg = (p : DiscoveryMessage) × Points store msg p × HasNoColon p.protocol

abbrev pub KeepsPlain : Store → Store → Type 0
KeepsPlain store store' = (msg : ℕ) → HasPlain store msg → HasPlain store' msg

pub All-HasPlain :
    (store store' : Store) (ms : List ℕ)
    → KeepsPlain store store'
    → All (HasPlain store) ms
    → All (HasPlain store') ms
All-HasPlain store store' [] k h = tt
All-HasPlain store store' (m ∷ ms) k (e, h) = (k m e, All-HasPlain store store' ms k h)

pub KeepsPlain-snoc : (store : Store) (m : SwitchMessage) → KeepsPlain store (store ++ m ∷ [])
KeepsPlain-snoc store m msg (p, s, h) = (
  p,
  record {
    message = s.message;
    found = get_elem?-snoc store m s.message msg s.found;
    payload = s.payload;
  },
  h,
)

pub HasPlain-last :
    (store : Store) (m : SwitchMessage) (p : DiscoveryMessage)
    → m.payload ≡ some p
    → HasNoColon p.protocol
    → HasPlain (store ++ m ∷ []) (length store)
HasPlain-last store m p e h =
    (p, record { message = m; found = get_elem?-snoc_last store m; payload = e }, h)

pub KeepsPlain-put_ttl : (store : Store) (msg ttl : ℕ) → KeepsPlain store (put_ttl store msg ttl)
KeepsPlain-put_ttl store msg ttl k (p, s, h) = elim (ℕ_discrete k msg) [
  | yes same ↦ (
    with_payload_ttl ttl p,
    subst (λ i. Points (put_ttl store i ttl) k (with_payload_ttl ttl p)) same
        (put_ttl-Points store k ttl p s),
    h,
  )
  | no other ↦ elim (Option-cases (get_elem? store msg)) [
    | inl g ↦ (p, unfold put_ttl in rw (g, put_ttl) s, h)
    | inr (y, g) ↦ (
      p,
      record {
        message = s.message;
        found =
            unfold put_ttl in
            rw (g, put_ttl) (get_elem?-set_other store msg k (with_ttl ttl y) other ∙ s.found);
        payload = s.payload;
      },
      h,
    )
  ]
]

sent_plain :
    (store written store' : Store) (chans' : List (Channel ℕ)) (o : Outcome (List (Channel ℕ)))
    → (o >>= stored written) ≡ done (store', chans')
    → KeepsPlain store written
    → KeepsPlain store store'
sent_plain store written store' chans' (done _) d k =
    let same : written ≡ store' = cc in subst (KeepsPlain store) same k
sent_plain store written store' chans' blocked d k = absurd (cc)
sent_plain store written store' chans' panicked d k = absurd (cc)

pub forward_one-plain :
    (msg : ℕ) (c : ConnWithChan) (store store' : Store) (chans chans' : List (Channel ℕ))
    → forward_one msg c (store, chans) ≡ done (store', chans')
    → KeepsPlain store store'
unfolding forward_one
forward_one-plain msg c store store' chans chans' e = loaded (load store msg) e
  where
    loaded :
        (o : Outcome DiscoveryMessage)
        → (o >>= λ p.
            let ttl = decrement p.discovery_ttl in
            let written = put_ttl store msg ttl in
            if leb ttl 0
            then stored written chans
            else (send_on chans c.send_chan msg >>= stored written))
          ≡ done (store', chans')
        → KeepsPlain store store'
    loaded blocked d = absurd (cc)
    loaded panicked d = absurd (cc)
    loaded (done p) d =
        let ttl = decrement p.discovery_ttl in
        let kept = KeepsPlain-put_ttl store msg ttl in
        elim (Bool-cases (leb ttl 0)) [
          | inl spent ↦
              sent_plain store (put_ttl store msg ttl) store' chans' (done chans) (rw spent at d)
                kept
          | inr alive ↦
              sent_plain store (put_ttl store msg ttl) store' chans' (send_on chans c.send_chan msg)
                (rw alive at d) kept
        ]

pub send_one-plain :
    (msg : ℕ) (c : ConnWithChan) (store store' : Store) (chans chans' : List (Channel ℕ))
    → send_one msg c (store, chans) ≡ done (store', chans')
    → KeepsPlain store store'
unfolding send_one
send_one-plain msg c store store' chans chans' e = loaded (load store msg) e
  where
    loaded :
        (o : Outcome DiscoveryMessage)
        → (o >>= λ p.
            let written = put_ttl store msg (decrement p.discovery_ttl) in
            send_on chans c.send_chan msg >>= stored written)
          ≡ done (store', chans')
        → KeepsPlain store store'
    loaded blocked d = absurd (cc)
    loaded panicked d = absurd (cc)
    loaded (done p) d =
        sent_plain store (put_ttl store msg (decrement p.discovery_ttl)) store' chans'
          (send_on chans c.send_chan msg) d
          (KeepsPlain-put_ttl store msg (decrement p.discovery_ttl))
