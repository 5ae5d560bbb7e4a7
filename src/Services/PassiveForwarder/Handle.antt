-- ===== src/Services/PassiveForwarder/Handle.antt =====
-- What the forwarder does with one message on each branch, and where registrations go.
use localsend_switchboard.Prelude.{
  ℕ, ◌%◌, ◌^◌, ap, ◌≡◌, sym, ◌∙◌, subst, ◌⊎◌, inl, inr, true, false, Option, none, some, List, [],
  ◌∷◌, arith, Bytes, get_elem?, All, Bool-cases, Option-cases,
}
use localsend_switchboard.Entities.{
  DiscoveryMessage, SwitchMessage, LocalSendClientInfo, HttpJsonRequest,
}
use localsend_switchboard.Std.Channel.{Outcome, done, blocked, panicked, ◌>>=◌, Channel}
use localsend_switchboard.Std.Ip.{IpText, is_private, equal, join_host_port}
use localsend_switchboard.Std.Strconv.{format_uint}
use localsend_switchboard.Services.LocalClientLounge.{LocalClientLounge, sync_get}
use localsend_switchboard.Services.SwitchLounge.{Store, load}
use localsend_switchboard.Services.TcpConnectionHub.{
  ConnWithChan, TcpConnectionHub, get_connections_except,
}
use localsend_switchboard.Services.PassiveForwarder.{
  Json, forward_loop, registrations, register, then_register, handle,
}
use localsend_switchboard.Services.PassiveForwarder.Forward.{
  Points, with_payload_ttl, forward_loop-Points,
}
use localsend_switchboard.Services.PassiveForwarder.Target.{
  authority, HasNoColon, IsHostText, make_http_request-authority,
}
use localsend_switchboard.Utils.Switch.{switch_message_to_local_send_client_info}

module _ (text : IpText) (json : Json) (self_ip : Bytes) (msg : ℕ) (store : Store)
    (hub : TcpConnectionHub) (clients : LocalClientLounge) (p : DiscoveryMessage)
    (s : Points store msg p) where
  abbrev pub run : Outcome (Store × List (Channel ℕ) × List HttpJsonRequest)
  run = handle text json self_ip msg store hub clients

  -- A message whose original address is no address, or not a private one, is dropped: nothing is
  -- sent, nothing is registered, and no TTL changes.
  pub handle_drops :
      (text.parse_ip p.original_addr ≡ none)
        ⊎ ((remote : Bytes) × (text.parse_ip p.original_addr ≡ some remote)
            × (is_private remote ≡ false))
      → run ≡ done (store, hub.chans, [])
  unfolding handle load
  handle_drops (inl e) = ground (arith, s.found, s.payload)
  handle_drops (inr (remote, e, public)) = ground (arith, s.found, s.payload)

  -- A message from a private address is forwarded to the connections but those of its source, and
  -- then its origin is registered.
  pub handle_forwards :
      (remote : Bytes)
      → text.parse_ip p.original_addr ≡ some remote
      → is_private remote ≡ true
      → run ≡ (
          forward_loop msg (get_connections_except s.message.source_addr hub) (store, hub.chans)
          >>= then_register text json self_ip remote msg clients)
  unfolding handle load
  handle_forwards remote e private_one = ground (arith, s.found, s.payload)

-- The request goes to a port of the host at the address `remote`.
abbrev pub GoesTo : IpText → Bytes → ℕ → HttpJsonRequest → Type 0
GoesTo text remote port r =
    authority r.url ≡ some (join_host_port (text.ip_string remote) (format_uint port))

registrations-GoesTo :
    (text : IpText) (json : Json) (remote : Bytes) (info : LocalSendClientInfo)
    (infos : List LocalSendClientInfo)
    → IsHostText text
    → HasNoColon info.protocol
    → All (GoesTo text remote info.port) (registrations text json remote info infos)
unfolding registrations
registrations-GoesTo text json remote info [] t h = tt
registrations-GoesTo text json remote info (i ∷ infos) t h =
    let rest = registrations-GoesTo text json remote info infos t h in
    elim (Option-cases (json.marshal i)) [
      | inl e ↦ rw (e, registrations) rest
      | inr (body, e) ↦
          rw (e, registrations)
            ((make_http_request-authority text remote info.port info.protocol body t h, rest))
    ]

-- What the message tells of its client.
abbrev client_of : DiscoveryMessage → LocalSendClientInfo
client_of p = record {
  alias = p.alias;
  version = p.version;
  device_model = p.device_model;
  device_type = p.device_type;
  fingerprint = p.fingerprint;
  port = p.port % 2 ^ 16;
  protocol = p.protocol;
  download = p.download;
}

-- The requests of a message whose protocol has no colon go to the port that it names.
pub register-GoesTo :
    (text : IpText) (json : Json) (self_ip remote : Bytes) (m : SwitchMessage)
    (p : DiscoveryMessage) (clients : LocalClientLounge)
    → IsHostText text
    → m.payload ≡ some p
    → HasNoColon p.protocol
    → All
        (GoesTo text remote (p.port % 2 ^ 16))
        (register text json self_ip remote (some m) clients)
unfolding register switch_message_to_local_send_client_info
register-GoesTo text json self_ip remote m p clients t e h =
    elim (Bool-cases (equal remote self_ip)) [
      | inl own ↦ rw own tt
      | inr other ↦
          rw other
            (rw e (registrations-GoesTo text json remote (client_of p) (sync_get clients) t h))
    ]

-- A node registers nothing at itself.
own_silent :
    (text : IpText) (json : Json) (self_ip remote : Bytes) (m : Option SwitchMessage)
    (clients : LocalClientLounge) {r : HttpJsonRequest} {rs : List HttpJsonRequest}
    → equal remote self_ip ≡ true
    → register text json self_ip remote m clients ≡ r ∷ rs
    → ⊥
unfolding register
own_silent text json self_ip remote m clients own e = ground arith

-- The registration requests of a message whose protocol has no colon all go to one address, the one that
-- the message names as its origin, and to the port that it names, and only if that is a private address
-- and not the node's own. The text of an address must have no byte that ends the authority of a URL.
pub handle_registers_private :
    (text : IpText) (json : Json) (self_ip : Bytes) (msg : ℕ) (store store' : Store)
    (hub : TcpConnectionHub) (clients : LocalClientLounge) (p : DiscoveryMessage)
    (chans' : List (Channel ℕ)) (r : HttpJsonRequest) (rs : List HttpJsonRequest)
    → IsHostText text
    → HasNoColon p.protocol
    → Points store msg p
    → handle text json self_ip msg store hub clients ≡ done (store', chans', r ∷ rs)
    → (remote : Bytes) × (text.parse_ip p.original_addr ≡ some remote)
      × (is_private remote ≡ true)
      × (equal remote self_ip ≡ false)
      × All (GoesTo text remote (p.port % 2 ^ 16)) (r ∷ rs)
handle_registers_private text json self_ip msg store store' hub clients p chans' r rs t h s e =
    elim (Option-cases (text.parse_ip p.original_addr)) [
      | inl n ↦
          absurd (no_requests (handle_drops text json self_ip msg store hub clients p s (inl n)))
      | inr (remote, named) ↦ elim (Bool-cases (is_private remote)) [
        | inr public ↦ absurd (
            no_requests (
              handle_drops text json self_ip msg store hub clients p s
                (inr (remote, named, public))))
        | inl private_one ↦
            let requests =
              registered remote
                (forward_loop msg (get_connections_except s.message.source_addr hub)
                  (store, hub.chans))
                (sym (
                    handle_forwards text json self_ip msg store hub clients p s remote named
                      private_one)
                  ∙ e) in
            (
              remote,
              named,
              private_one,
              not_self remote requests,
              goes remote (get_connections_except s.message.source_addr hub) requests,
            )
      ]
    ]
  where
    no_requests : handle text json self_ip msg store hub clients ≡ done (store, hub.chans, []) → ⊥
    no_requests d = absurd (cc (d, e))

    registered :
        (remote : Bytes) (o : Outcome (Store × List (Channel ℕ)))
        → (o >>= then_register text json self_ip remote msg clients) ≡ done (store', chans', r ∷ rs)
        → (o ≡ done (store', chans'))
          × (register text json self_ip remote (get_elem? store' msg) clients ≡ r ∷ rs)
    registered remote (done (st, ch)) d = ground arith
    registered remote blocked d = absurd (cc)
    registered remote panicked d = absurd (cc)

    -- The loop leaves the message with another TTL, and all else as it was.
    goes :
        (remote : Bytes) (cs : List ConnWithChan)
        → (forward_loop msg cs (store, hub.chans) ≡ done (store', chans'))
          × (register text json self_ip remote (get_elem? store' msg) clients ≡ r ∷ rs)
        → All (GoesTo text remote (p.port % 2 ^ 16)) (r ∷ rs)
    goes remote cs (sent, registered_) =
        let (ttl, after) = forward_loop-Points msg cs store store' hub.chans chans' p s sent in
        subst (All (GoesTo text remote (p.port % 2 ^ 16)))
          (ap (λ m. register text json self_ip remote m clients) (sym after.found) ∙ registered_)
          (register-GoesTo text json self_ip remote after.message (with_payload_ttl ttl p) clients t
            after.payload h)

    not_self :
        (remote : Bytes)
        → {o : Outcome (Store × List (Channel ℕ))}
        → (o ≡ done (store', chans'))
          × (register text json self_ip remote (get_elem? store' msg) clients ≡ r ∷ rs)
        → equal remote self_ip ≡ false
    not_self remote d = elim (Bool-cases (equal remote self_ip)) [
      | inr other ↦ other
      | inl own ↦
          absurd (own_silent text json self_ip remote (get_elem? store' msg) clients own d.1)
    ]
