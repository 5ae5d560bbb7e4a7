-- ===== src/Services/PassiveForwarder.antt =====
-- services/switch_core.go, setUpPassiveForwarder: what happens to one message that comes out of the
-- waiting room. The message is a pointer: the loop over the connections writes its TTL, and every
-- send channel gets the same pointer.
pub mod Ttl
pub mod Forward
pub mod Deliver
pub mod Target
pub mod Handle
use localsend_switchboard.Prelude.{
  ℕ, ◌+◌, ◌-◌, ◌%◌, ◌^◌, Bool, true, false, Option, none, some, List, [], ◌∷◌, ◌++◌, leb,
  if◌then◌else◌, Bytes, codes, get_elem?, set,
}
use localsend_switchboard.Entities.{
  DiscoveryMessage, SwitchMessage, LocalSendClientInfo, HttpJsonRequest,
}
use localsend_switchboard.Std.Channel.{Outcome, done, blocked, panicked, ◌>>=◌, Channel}
use localsend_switchboard.Std.Ip.{IpText, is_private, equal, join_host_port}
use localsend_switchboard.Std.Strconv.{format_uint}
use localsend_switchboard.Services.LocalClientLounge.{LocalClientLounge, sync_get}
use localsend_switchboard.Services.SwitchLounge.{Store, load}
use localsend_switchboard.Services.TcpConnectionHub.{
  ConnWithChan, TcpConnectionHub, send_on, get_connections_except,
}
use localsend_switchboard.Utils.Switch.{switch_message_to_local_send_client_info}

-- `encoding/json` on client information; `none` is an error.
pub record Json : Type 0 where
  pub marshal : LocalSendClientInfo → Option Bytes
  pub unmarshal : Bytes → Option LocalSendClientInfo

-- `DiscoveryTtl--` on a `uint32`.
unfoldable pub decrement : ℕ → ℕ
decrement ttl = (ttl + 2 ^ 32 - 1) % 2 ^ 32

-- The message with another TTL.
abbrev pub with_ttl : ℕ → SwitchMessage → SwitchMessage
with_ttl ttl m = record m {
  payload = elim m.payload [ none ↦ none | some p ↦ some (record p { discovery_ttl = ttl }) ];
}

-- Writes the TTL behind the pointer.
unfoldable pub put_ttl : Store → ℕ → ℕ → Store
put_ttl store msg ttl = elim (get_elem? store msg) [
  | none ↦ store
  | some m ↦ set store msg (with_ttl ttl m)
]

-- One round of the loop over the connections.
unfoldable pub forward_one :
    ℕ → ConnWithChan → Store × List (Channel ℕ) → Outcome (Store × List (Channel ℕ))
unfolding decrement put_ttl
forward_one msg cwc (store, chans) = load store msg >>= λ p.
    let ttl = decrement p.discovery_ttl in
    let written = put_ttl store msg ttl in
    if leb ttl 0
    then done (written, chans)
    else (send_on chans cwc.send_chan msg >>= λ chans'. done (written, chans'))

-- The loop over the connections.
unfoldable pub forward_loop :
    ℕ → List ConnWithChan → Store × List (Channel ℕ) → Outcome (Store × List (Channel ℕ))
unfolding forward_one
forward_loop msg [] s = done s
forward_loop msg (c ∷ cs) s = forward_one msg c s >>= λ s'. forward_loop msg cs s'

-- makeHTTPRequest
unfoldable pub make_http_request : IpText → Bytes → ℕ → Bytes → Bytes → HttpJsonRequest
make_http_request text ip port protocol json_body = record {
  url =
      protocol
      ++ (codes "://"
          ++ (join_host_port (text.ip_string ip) (format_uint port)
              ++ codes "/api/localsend/v2/register"));
  method = codes "POST";
  json_body = json_body;
  resp_chan = false;
}

-- The loop over the local clients: one request for each that can be serialised.
unfoldable pub registrations :
    IpText → Json → Bytes → LocalSendClientInfo → List LocalSendClientInfo → List HttpJsonRequest
unfolding make_http_request
registrations text json remote remote_info [] = []
registrations text json remote remote_info (info ∷ infos) =
    let rest = registrations text json remote remote_info infos in
    elim (json.marshal info) [
      | none ↦ rest
      | some body ↦ make_http_request text remote remote_info.port remote_info.protocol body ∷ rest
    ]

-- The registration requests that a message whose origin is another host leads to.
unfoldable pub register :
    IpText → Json → Bytes → Bytes → Option SwitchMessage → LocalClientLounge → List HttpJsonRequest
unfolding registrations
register text json self_ip remote m clients = if equal remote self_ip then [] else elim m [
  | none ↦ []
  | some msg ↦ elim (switch_message_to_local_send_client_info msg) [
    | none ↦ []
    | some info ↦ registrations text json remote info (sync_get clients)
  ]
]

abbrev pub source_of : Option SwitchMessage → Option Bytes
source_of none = none
source_of (some m) = m.source_addr

-- What follows the loop over the connections.
abbrev pub then_register :
    IpText
    → Json
    → Bytes
    → Bytes
    → ℕ
    → LocalClientLounge
    → Store × List (Channel ℕ)
    → Outcome (Store × List (Channel ℕ) × List HttpJsonRequest)
then_register text json self_ip remote msg clients (store, chans) =
    done (store, chans, register text json self_ip remote (get_elem? store msg) clients)

-- What the forwarder does to one message: the messages and the channels afterwards, and the requests
-- that it sends to the HTTP senders, in order.
unfoldable pub handle :
    IpText
    → Json
    → Bytes
    → ℕ
    → Store
    → TcpConnectionHub
    → LocalClientLounge
    → Outcome (Store × List (Channel ℕ) × List HttpJsonRequest)
handle text json self_ip msg store hub clients = load store msg >>= λ p.
    elim (text.parse_ip p.original_addr) [
      | none ↦ done (store, hub.chans, [])
      | some remote ↦
          if is_private remote
          then (forward_loop msg (get_connections_except (source_of (get_elem? store msg)) hub)
                (store, hub.chans)
              >>= then_register text json self_ip remote msg clients)
          else done (store, hub.chans, [])
    ]
