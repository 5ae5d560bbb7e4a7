-- ===== src/Services/ProactiveBroadcaster.antt =====
-- services/switch_core.go, setUpProactiveBroadcaster, and services/init.go: what a tick does with one
-- client: its new message, and the loop that sends it to every connection, whose order is that of the
-- map. The tick as a whole is in Services/Node, where other goroutines come in between.
pub mod Laws
use localsend_switchboard.Prelude.{
  ℕ, ◌+◌, ◌%◌, ◌^◌, ◌≤◌, Bool, true, false, Option, none, some, List, [], ◌∷◌, ◌++◌, if◌then◌else◌,
  Bytes, length,
}
use localsend_switchboard.Prelude.Int.{ℤ, pos, negsuc, ltb_ℤ}
use localsend_switchboard.Configs.{Settings}
use localsend_switchboard.Entities.{DiscoveryMessage, LocalSendClientInfo}
use localsend_switchboard.Std.Channel.{Outcome, done, blocked, panicked, ◌>>=◌, Channel}
use localsend_switchboard.Services.LocalClientLounge.{LocalClientLounge, sync_get}
use localsend_switchboard.Services.PassiveForwarder.{decrement, put_ttl}
use localsend_switchboard.Services.SwitchLounge.{Store, load}
use localsend_switchboard.Services.TcpConnectionHub.{
  ConnWithChan, TcpConnectionHub, send_on, get_all_connections,
}
use localsend_switchboard.Utils.Net.{get_outbound_ip, fatal_exit, outbound}
use localsend_switchboard.Utils.Switch.{pack_local_send_client_info_into_switch_message}

-- One round of the inner loop: the TTL behind the pointer falls before the send.
unfoldable pub send_one :
    ℕ → ConnWithChan → Store × List (Channel ℕ) → Outcome (Store × List (Channel ℕ))
send_one msg c (store, chans) = load store msg >>= λ p.
    let written = put_ttl store msg (decrement p.discovery_ttl) in
    send_on chans c.send_chan msg >>= λ chans'. done (written, chans')

-- The inner loop over the connections.
unfoldable pub send_loop :
    ℕ → List ConnWithChan → Store × List (Channel ℕ) → Outcome (Store × List (Channel ℕ))
unfolding send_one
send_loop msg [] s = done s
send_loop msg (c ∷ cs) s = send_one msg c s >>= λ s'. send_loop msg cs s'

-- `globalDiscoverySeq.Add(1)` on a `uint64`.
abbrev pub next_seq : ℕ → ℕ
next_seq seq = (seq + 1) % 2 ^ 64

-- A local client's message behind a new pointer, at the end of the store.
abbrev pub announcement : Bytes → Bytes → LocalSendClientInfo → ℕ → Store → Store
announcement node_id self_ip info seq store =
    store ++ pack_local_send_client_info_into_switch_message info node_id seq self_ip ∷ []

-- `time.NewTicker(time.Duration(seconds) * time.Second)`, which panics unless the number is positive.
unfoldable pub new_ticker : ℤ → Outcome (Unit {0})
new_ticker seconds = if ltb_ℤ (pos 0) seconds then done tt else panicked

-- The start of the goroutine, on the local IP of the UDP connection: the IP that it announces, `none`
-- where log.Fatal ends the process. GetOutboundIP returns no error.
unfoldable pub set_up_proactive_broadcaster : Settings → Option Bytes → Outcome (Option Bytes)
unfolding new_ticker get_outbound_ip
set_up_proactive_broadcaster s dialled = elim (get_outbound_ip dialled) [
  | fatal_exit ↦ done none
  | outbound ip ↦ new_ticker s.local_client_broadcast_interval >>= λ _. done (some ip)
]
