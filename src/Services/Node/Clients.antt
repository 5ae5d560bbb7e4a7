-- ===== src/Services/Node/Clients.antt =====
-- The lounge of the clients: its signal is closed exactly with it, so that Close never panics.
use localsend_switchboard.Prelude.{
  ℕ, ◌≡◌, refl, true, Option, none, some, arith, inl, inr, Bytes, Bool-cases, Option-cases,
}
use localsend_switchboard.Entities.{LocalSendClientInfo, SwitchMessage, HttpResponse}
use localsend_switchboard.Std.Channel.{done}
use localsend_switchboard.Std.Channel
use localsend_switchboard.Services.SwitchLounge.{
  Store, SwitchLounge, WriteResult, written, closed_error, inconsistent, full_error,
}
use localsend_switchboard.Services.LocalClientLounge.{LocalClientLounge, add, close}
use localsend_switchboard.Services.PassiveForwarder.{Json}
use localsend_switchboard.Services.ClientAliveChecker.{chosen, alive_tick}
use localsend_switchboard.Services.SwitchCore.{add_client, after_write}
use localsend_switchboard.Services.Node.Inv.{IsSignalled}
use localsend_switchboard.Utils.Net.{parse_port}
use localsend_switchboard.Utils.Switch.{switch_message_to_local_send_client_info}

add-IsSignalled :
    (now lifetime : ℕ) (info : LocalSendClientInfo) (lcl : LocalClientLounge)
    → IsSignalled lcl
    → IsSignalled (add now lifetime info lcl)
unfolding add
add-IsSignalled now lifetime info lcl v = elim (Bool-cases lcl.closed) [
  | inl c ↦ ground (arith, c, v)
  | inr c ↦ ground (arith, c, v)
]

add_client-IsSignalled :
    (now lifetime : ℕ) (m : Option SwitchMessage) (lcl : LocalClientLounge)
    → IsSignalled lcl
    → IsSignalled (add_client now lifetime m lcl)
unfolding add_client
add_client-IsSignalled now lifetime none lcl v = v
add_client-IsSignalled now lifetime (some m) lcl v =
    elim (Option-cases (switch_message_to_local_send_client_info m)) [
      | inl e ↦ rw (e, add_client) v
      | inr (info, e) ↦ rw (e, add_client) (add-IsSignalled now lifetime info lcl v)
    ]

pub after_write-IsSignalled :
    (now lifetime : ℕ) (store : Store) (msg : ℕ) (lcl : LocalClientLounge) (r : WriteResult)
    (sl : SwitchLounge)
    → IsSignalled lcl
    → IsSignalled (after_write now lifetime store msg lcl (r, sl)).clients
unfolding after_write
after_write-IsSignalled now lifetime store msg lcl written sl v =
    add_client-IsSignalled now lifetime _ lcl v
after_write-IsSignalled now lifetime store msg lcl closed_error sl v = v
after_write-IsSignalled now lifetime store msg lcl inconsistent sl v = v
after_write-IsSignalled now lifetime store msg lcl full_error sl v = v

pub alive_tick-IsSignalled :
    (json : Json) (port_text : Bytes) (now lifetime : ℕ) (http https : Option HttpResponse)
    (lcl : LocalClientLounge)
    → IsSignalled lcl
    → IsSignalled (alive_tick json port_text now lifetime http https lcl)
unfolding alive_tick
alive_tick-IsSignalled json port_text now lifetime http https lcl v =
    elim (Option-cases (chosen http https)) [
      | inl e ↦ rw (e, alive_tick) v
      | inr ((resp, protocol), e) ↦ elim (Option-cases (json.unmarshal resp.body)) [
        | inl f ↦ rw (e, alive_tick) (rw (f, alive_tick) v)
        | inr (info, f) ↦ elim (Option-cases (parse_port port_text)) [
          | inl g ↦ rw (e, alive_tick) (rw (f, alive_tick) (rw (g, alive_tick) v))
          | inr (port, g) ↦
              rw (e, alive_tick)
                (rw (f, alive_tick) (rw (g, alive_tick) (add-IsSignalled now lifetime _ lcl v)))
        ]
      ]
    ]

pub close-IsSignalled :
    (lcl : LocalClientLounge)
    → IsSignalled lcl
    → (lcl' : LocalClientLounge) × (close lcl ≡ done lcl') × IsSignalled lcl'
unfolding close Channel.close
close-IsSignalled lcl v = elim (Bool-cases lcl.closed) [
  | inl c ↦ (lcl, ground (arith, c), v)
  | inr c ↦ (
    record lcl { close_signal = record lcl.close_signal { is_closed = true }; closed = true },
    ground (arith, c, v),
    refl,
  )
]
