-- ===== src/Services/ProactiveBroadcaster/Laws.antt =====
-- Every connection gets every client, with a TTL that falls with each connection.
use localsend_switchboard.Prelude.{
  ℕ, ◌+◌, ◌-◌, ◌^◌, ◌≤◌, ◌≡◌, refl, some, List, [], ◌∷◌, ◌++◌, arith, Bytes, leb, Bool-cases, inl,
  inr, if◌then◌else◌, length, get_elem?,
}
use localsend_switchboard.Configs.{max_discovery_message_ttl}
use localsend_switchboard.Entities.{DiscoveryMessage, SwitchMessage, LocalSendClientInfo}
use localsend_switchboard.Std.Channel.{Outcome, done, blocked, panicked, ◌>>=◌, Channel}
use localsend_switchboard.Services.PassiveForwarder.{decrement, put_ttl}
use localsend_switchboard.Services.PassiveForwarder.Forward.{
  Points, Points-load, send_all, put_ttl-Points, put_ttl-put_ttl, put_ttl_same, with_payload_ttl,
}
use localsend_switchboard.Services.PassiveForwarder.Ttl.{fall, fall_above, fall_below}
use localsend_switchboard.Services.ProactiveBroadcaster.{send_one, send_loop}
use localsend_switchboard.Services.SwitchLounge.{Store}
use localsend_switchboard.Services.TcpConnectionHub.{ConnWithChan, send_on}
use localsend_switchboard.Utils.Switch.{pack_local_send_client_info_into_switch_message}

after_send :
    (o : Outcome (List (Channel ℕ))) (store final : Store) (msg : ℕ) (cs : List ConnWithChan)
    → ((chans : List (Channel ℕ))
        → send_loop msg cs (store, chans)
          ≡ (send_all msg cs chans >>= λ chans'. done (final, chans')))
    → ((o >>= λ chans'. done (store, chans')) >>= λ s. send_loop msg cs s)
      ≡ ((o >>= send_all msg cs) >>= λ chans'. done (final, chans'))
after_send (done chans) store final msg cs h = h chans
after_send blocked store final msg cs h = refl
after_send panicked store final msg cs h = refl

-- The inner loop sends the pointer to all connections, also where the TTL reaches 0 on the way.
send_loop-all :
    (msg : ℕ) (cs : List ConnWithChan) (store : Store) (chans : List (Channel ℕ))
    (p : DiscoveryMessage)
    → Points store msg p
    → send_loop msg cs (store, chans) ≡ (
        send_all msg cs chans >>= λ chans'.
        done (put_ttl store msg (fall (length cs) p.discovery_ttl), chans'))
unfolding send_loop send_one send_all fall
send_loop-all msg [] store chans p s = rw (put_ttl_same store msg p s)
send_loop-all msg (c ∷ cs) store chans p s =
    let ttl = decrement p.discovery_ttl in
    let written = put_ttl store msg ttl in
    let final = put_ttl store msg (fall (length cs) ttl) in
    let ih : (chans' : List (Channel ℕ))
        → send_loop msg cs (written, chans')
          ≡ (send_all msg cs chans' >>= λ chans''. done (final, chans'')) =
      λ chans'. rw (put_ttl-put_ttl store msg ttl (fall (length cs) ttl) p s) at (
        send_loop-all msg cs written chans' (with_payload_ttl ttl p)
          (put_ttl-Points store msg ttl p s)) in
    rw (Points-load store msg p s)
      (after_send (send_on chans c.send_chan msg) written final msg cs ih)

get_elem?-last :
    (store : Store) (m : SwitchMessage) → get_elem? (store ++ m ∷ []) (length store) ≡ some m
get_elem?-last [] m = refl
get_elem?-last (x ∷ store) m = get_elem?-last store m

abbrev packed : LocalSendClientInfo → Bytes → ℕ → Bytes → SwitchMessage
packed = pack_local_send_client_info_into_switch_message

-- The TTL that a message with the full TTL is left with by `n` connections.
abbrev pub broadcast_ttl : ℕ → ℕ
broadcast_ttl n =
    if leb n max_discovery_message_ttl
    then max_discovery_message_ttl - n
    else max_discovery_message_ttl + 2 ^ 32 - n

fall-broadcast_ttl : (n : ℕ) → n ≤ 2 ^ 32 → fall n max_discovery_message_ttl ≡ broadcast_ttl n
fall-broadcast_ttl n bound = elim (Bool-cases (leb n max_discovery_message_ttl)) [
  | inl few ↦ rw few (fall_above n 255 (ground arith) (omega arith))
  | inr many ↦ rw many (fall_below n 255 (ground arith) bound)
]

-- One client: its message goes to every connection, and is left with the TTL 255 less the number of
-- connections; beyond 255 connections that has wrapped round 2 ^ 32.
pub send_loop-packed :
    (info : LocalSendClientInfo) (node_id self_ip : Bytes) (seq : ℕ) (conns : List ConnWithChan)
    (store : Store) (chans : List (Channel ℕ))
    → length conns ≤ 2 ^ 32
    → let grown = store ++ packed info node_id seq self_ip ∷ [] in
      send_loop (length store) conns (grown, chans) ≡ (
        send_all (length store) conns chans >>= λ chans'.
        done (put_ttl grown (length store) (broadcast_ttl (length conns)), chans'))
unfolding pack_local_send_client_info_into_switch_message
send_loop-packed info node_id self_ip seq conns store chans bound =
    let m = packed info node_id seq self_ip in
    rw (← fall-broadcast_ttl (length conns) bound) (
      send_loop-all (length store) conns (store ++ m ∷ []) chans _
        (record { message = m; found = get_elem?-last store m; payload = refl }))
