-- ===== src/Services/ClientAliveChecker.antt =====
-- services/switch_core.go, setUpClientAliveChecker: the probes of a tick, and what is made of the two
-- responses.
use localsend_switchboard.Prelude.{
  ℕ, ◌+◌, ◌*◌, ◌≡◌, refl, true, false, Option, none, some, List, [], ◌∷◌, ◌++◌, arith, ite, Bytes,
  codes, ℕ_discrete,
}
use localsend_switchboard.Prelude.Assoc
use localsend_switchboard.Entities.{LocalSendClientInfo, HttpJsonRequest, HttpResponse}
use localsend_switchboard.Services.LocalClientLounge.{LocalClientLounge, add}
use localsend_switchboard.Services.PassiveForwarder.{Json}
use localsend_switchboard.Services.SwitchLounge.{second}
use localsend_switchboard.Utils.Net.{parse_port}

-- makeProbeRequest
unfoldable pub make_probe_request : Bytes → Bytes → HttpJsonRequest
make_probe_request port protocol = record {
  url = protocol ++ (codes "://127.0.0.1:" ++ (port ++ codes "/api/localsend/v2/info"));
  method = codes "GET";
  json_body = [];
  resp_chan = true;
}

-- The requests of a tick, in order.
unfoldable pub probes : Bytes → List HttpJsonRequest
unfolding make_probe_request
probes port = make_probe_request port (codes "http") ∷ make_probe_request port (codes "https") ∷ []

-- The response that counts, with its protocol; `none` if there is none.
unfoldable pub chosen : Option HttpResponse → Option HttpResponse → Option (HttpResponse × Bytes)
chosen none none = none
chosen (some http) none = some (http, codes "http")
chosen _ (some https) = some (https, codes "https")

-- What follows the two responses: the lounge afterwards.
unfoldable pub alive_tick :
    Json
    → Bytes
    → ℕ
    → ℕ
    → Option HttpResponse
    → Option HttpResponse
    → LocalClientLounge
    → LocalClientLounge
unfolding chosen
alive_tick json port_text now lifetime http https lcl = elim (chosen http https) [
  | none ↦ lcl
  | some (resp, protocol) ↦ elim (json.unmarshal resp.body) [
    | none ↦ lcl
    | some info ↦ elim (parse_port port_text) [
      | none ↦ lcl
      | some port ↦ add now lifetime (record info { port = port; protocol = protocol }) lcl
    ]
  ]
]

-- What a lounge lists once a client has answered: the information under the configured port, with that
-- port and the protocol of the answer, for `lifetime` seconds; the other ports are as before.
abbrev pub ListedAs :
    ℕ → ℕ → ℕ → Bytes → LocalSendClientInfo → LocalClientLounge → LocalClientLounge → Type 0
ListedAs now lifetime port protocol info lcl lcl' =
    (q : ℕ)
    → Assoc.get? ℕ_discrete q lcl'.client_infos
      ≡ ite (ℕ_discrete port q)
          (some (record {
            info = record info { port = port; protocol = protocol };
            expire_at = now + lifetime * second;
          }))
          (Assoc.get? ℕ_discrete q lcl.client_infos)

-- For every response whose body can be read as client information, and a configured port that can be
-- parsed, in an open lounge: if it came over https, the tick lists the information with https, whatever
-- came over http; if it came over http and nothing came over https, the tick lists it with http; and
-- if nothing came, the tick changes nothing.
pub alive_tick_lists :
    (json : Json) (port_text : Bytes) (now lifetime port : ℕ) (lcl : LocalClientLounge)
    (resp : HttpResponse) (info : LocalSendClientInfo)
    → json.unmarshal resp.body ≡ some info
    → parse_port port_text ≡ some port
    → lcl.closed ≡ false
    → ((http : Option HttpResponse)
        → ListedAs now lifetime port
            (codes "https")
            info
            lcl
            (alive_tick json port_text now lifetime http (some resp) lcl))
      × ListedAs now lifetime port
          (codes "http")
          info
          lcl
          (alive_tick json port_text now lifetime (some resp) none lcl)
      × (alive_tick json port_text now lifetime none none lcl ≡ lcl)
unfolding alive_tick chosen
alive_tick_lists json port_text now lifetime port lcl resp info u e live = (
  λ http. elim http [
    | none ↦ rw u (rw e (listed (codes "https")))
    | some r ↦ rw u (rw e (listed (codes "https")))
  ],
  rw u (rw e (listed (codes "http"))),
  refl,
)
  where
    listed :
        (protocol : Bytes)
        → ListedAs now lifetime port protocol info lcl
            (add now lifetime (record info { port = port; protocol = protocol }) lcl)
    listed protocol q =
        unfold add in
        let client = record info { port = port; protocol = protocol } in
        ground (
          arith,
          live,
          Assoc.get?-put ℕ_discrete port q
              (record { info = client; expire_at = now + lifetime * second }) lcl.client_infos,
        )
