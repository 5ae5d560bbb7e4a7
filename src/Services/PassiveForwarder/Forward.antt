-- ===== src/Services/PassiveForwarder/Forward.antt =====
-- The loop over the connections, as sends to the connections that are served and a final TTL.
use localsend_switchboard.Prelude.{
  subst, sym, ◌∙◌, ℕ, suc, ◌+◌, ◌-◌, ◌^◌, ◌<◌, ◌≡◌, refl, some, List, [], ◌∷◌, ◌++◌, arith, leb,
  if◌then◌else◌, length, take, drop, get_elem?, get_elem?-set_self, set-set, set_same, Bool-cases,
  inl, inr,
}
use localsend_switchboard.Entities.{DiscoveryMessage, SwitchMessage}
use localsend_switchboard.Std.Channel.{Outcome, done, blocked, panicked, ◌>>=◌, Channel}
use localsend_switchboard.Services.PassiveForwarder.{
  decrement, with_ttl, put_ttl, forward_one, forward_loop,
}
use localsend_switchboard.Services.PassiveForwarder.Ttl.{
  fall, served, fall_above, fall_below, served_above, served_zero, served_below,
}
use localsend_switchboard.Services.SwitchLounge.{Store, load}
use localsend_switchboard.Services.TcpConnectionHub.{ConnWithChan, send_on}

-- The message behind the pointer, with its payload.
pub record Points (store : Store) (msg : ℕ) (p : DiscoveryMessage) : Type 0 where
  pub message : SwitchMessage
  pub found : get_elem? store msg ≡ some message
  pub payload : message.payload ≡ some p

pub Points-load :
    (store : Store) (msg : ℕ) (p : DiscoveryMessage) → Points store msg p → load store msg ≡ done p
unfolding load
Points-load store msg p s = ground (arith, s.found, s.payload)

-- The pointer is sent to the connections, one after the other.
unfoldable pub send_all : ℕ → List ConnWithChan → List (Channel ℕ) → Outcome (List (Channel ℕ))
send_all msg [] chans = done chans
send_all msg (c ∷ cs) chans = send_on chans c.send_chan msg >>= send_all msg cs

abbrev pub with_payload_ttl : ℕ → DiscoveryMessage → DiscoveryMessage
with_payload_ttl ttl p = record p { discovery_ttl = ttl }

pub put_ttl-Points :
    (store : Store) (msg ttl : ℕ) (p : DiscoveryMessage)
    → Points store msg p
    → Points (put_ttl store msg ttl) msg (with_payload_ttl ttl p)
unfolding put_ttl
put_ttl-Points store msg ttl p s = record {
  message = with_ttl ttl s.message;
  found =
      rw (s.found, put_ttl)
        (get_elem?-set_self store msg (with_ttl ttl s.message) s.message s.found);
  payload = ground arith;
}

pub put_ttl-put_ttl :
    (store : Store) (msg a b : ℕ) (p : DiscoveryMessage)
    → Points store msg p
    → put_ttl (put_ttl store msg a) msg b ≡ put_ttl store msg b
unfolding put_ttl
put_ttl-put_ttl store msg a b p s =
    let again = get_elem?-set_self store msg (with_ttl a s.message) s.message s.found in
    let twice = set-set store msg (with_ttl a s.message) (with_ttl b s.message) in
    ground (arith, s.found, again, twice, s.payload)

pub put_ttl_same :
    (store : Store) (msg : ℕ) (p : DiscoveryMessage)
    → Points store msg p
    → put_ttl store msg p.discovery_ttl ≡ store
unfolding put_ttl
put_ttl_same store msg p s =
    ground (arith, s.found, s.payload, set_same store msg s.message s.found)

-- What follows a send to one connection.
after_send :
    (o : Outcome (List (Channel ℕ))) (store final : Store) (msg : ℕ) (cs rest : List ConnWithChan)
    → ((chans : List (Channel ℕ))
        → forward_loop msg cs (store, chans)
          ≡ (send_all msg rest chans >>= λ chans'. done (final, chans')))
    → ((o >>= λ chans'. done (store, chans')) >>= forward_loop msg cs)
      ≡ ((o >>= send_all msg rest) >>= λ chans'. done (final, chans'))
after_send (done chans) store final msg cs rest h = h chans
after_send blocked store final msg cs rest h = refl
after_send panicked store final msg cs rest h = refl

pub forward_one_lem :
    (msg : ℕ) (c : ConnWithChan) (store : Store) (chans : List (Channel ℕ)) (p : DiscoveryMessage)
    → Points store msg p
    → forward_one msg c (store, chans) ≡ (
        let written = put_ttl store msg (decrement p.discovery_ttl) in
        if leb (decrement p.discovery_ttl) 0
        then done (written, chans)
        else (send_on chans c.send_chan msg >>= λ chans'. done (written, chans')))
unfolding forward_one load
forward_one_lem msg c store chans p s = ground (arith, s.found, s.payload)

-- The loop sends the pointer to the served connections in order, and leaves the TTL that it fell to;
-- it waits or panics when one of these sends does.
pub forward_loop-served :
    (msg : ℕ) (cs : List ConnWithChan) (store : Store) (chans : List (Channel ℕ))
    (p : DiscoveryMessage)
    → Points store msg p
    → forward_loop msg cs (store, chans) ≡ (
        send_all msg (served p.discovery_ttl cs) chans >>= λ chans'.
        done (put_ttl store msg (fall (length cs) p.discovery_ttl), chans'))
unfolding forward_loop send_all served fall
forward_loop-served msg [] store chans p s = rw (put_ttl_same store msg p s)
forward_loop-served msg (c ∷ cs) store chans p s =
    let ttl = decrement p.discovery_ttl in
    let written = put_ttl store msg ttl in
    let final = put_ttl store msg (fall (length cs) ttl) in
    let ih : (chans' : List (Channel ℕ))
        → forward_loop msg cs (written, chans')
          ≡ (send_all msg (served ttl cs) chans' >>= λ chans''. done (final, chans'')) =
      λ chans'. rw (put_ttl-put_ttl store msg ttl (fall (length cs) ttl) p s) at (
        forward_loop-served msg cs written chans' (with_payload_ttl ttl p)
          (put_ttl-Points store msg ttl p s)) in
    rw (forward_one_lem msg c store chans p s) (elim (Bool-cases (leb ttl 0)) [
      | inl e ↦ rw e (ih chans)
      | inr e ↦
          rw e (after_send (send_on chans c.send_chan msg) written final msg cs (served ttl cs) ih)
    ])

-- The channels beside a store.
abbrev pub stored : Store → List (Channel ℕ) → Outcome (Store × List (Channel ℕ))
stored store chans = done (store, chans)

-- The loop changes nothing but the TTL of the message.
pub forward_loop-Points :
    (msg : ℕ) (cs : List ConnWithChan) (store store' : Store) (chans chans' : List (Channel ℕ))
    (p : DiscoveryMessage)
    → Points store msg p
    → forward_loop msg cs (store, chans) ≡ done (store', chans')
    → (ttl : ℕ) × Points store' msg (with_payload_ttl ttl p)
forward_loop-Points msg cs store store' chans chans' p s e =
    let ttl = fall (length cs) p.discovery_ttl in
    (
      ttl,
      subst (λ x. Points x msg (with_payload_ttl ttl p))
          (left (send_all msg (served p.discovery_ttl cs) chans)
            (sym (forward_loop-served msg cs store chans p s) ∙ e))
          (put_ttl-Points store msg ttl p s),
    )
  where
    left :
        {written : Store} (o : Outcome (List (Channel ℕ)))
        → (o >>= stored written) ≡ done (store', chans')
        → written ≡ store'
    left (done _) d = cc
    left blocked d = absurd (cc)
    left panicked d = absurd (cc)

module _ (msg : ℕ) (cs : List ConnWithChan) (store : Store) (chans : List (Channel ℕ))
    (p : DiscoveryMessage) (s : Points store msg p) where
  -- The pointer is sent to `targets` and the message is left with the TTL `ttl`.
  abbrev pub Forwards : List ConnWithChan → ℕ → Type 0
  Forwards targets ttl =
      forward_loop msg cs (store, chans)
      ≡ (send_all msg targets chans >>= λ chans'. done (put_ttl store msg ttl, chans'))

  -- With a TTL of 32 bits above the number of connections, each gets the pointer, and the TTL that all of them
  -- share has fallen by the number of connections.
  pub forward_loop_above :
      length cs < p.discovery_ttl
      → p.discovery_ttl < 2 ^ 32
      → Forwards cs (p.discovery_ttl - length cs)
  forward_loop_above h b = rw (
    forward_loop-served msg cs store chans p s,
    served_above p.discovery_ttl cs h b,
    fall_above (length cs) p.discovery_ttl (omega arith) b,
  )

  -- With a positive TTL below the number of connections, only the connection at which it reaches 0
  -- is left out: those behind it get the pointer too, and the TTL has wrapped round 2 ^ 32.
  pub forward_loop_wraps :
      (ttl : ℕ)
      → p.discovery_ttl ≡ suc ttl
      → suc ttl < length cs
      → length cs < 2 ^ 32
      → Forwards (take ttl cs ++ drop (suc ttl) cs) (suc ttl + 2 ^ 32 - length cs)
  forward_loop_wraps ttl e h b = rw (
    forward_loop-served msg cs store chans p s,
    e,
    served_below ttl cs (omega arith) b,
    fall_below (length cs) (suc ttl) h (omega arith),
  )

  -- A message that arrives with TTL 0 goes to every connection, and its TTL wraps round 2 ^ 32.
  pub forward_loop_zero :
      p.discovery_ttl ≡ 0 → 0 < length cs → length cs < 2 ^ 32 → Forwards cs (2 ^ 32 - length cs)
  forward_loop_zero e h b = rw (
    forward_loop-served msg cs store chans p s,
    e,
    served_zero cs b,
    fall_below (length cs) 0 h (omega arith),
  )
