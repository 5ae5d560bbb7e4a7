-- ===== src/Services/MulticastListener.antt =====
-- services/multicast_listener.go: what the listener makes of the datagrams that it reads, and how it
-- starts again. protojson is an argument, and so is what the sockets and each read deliver.
pub mod Laws
pub mod Rounds
use localsend_switchboard.Prelude.{
  ℕ, ◌+◌, ◌%◌, ◌^◌, Bool, true, false, Option, none, some, List, [], ◌∷◌, ◌++◌, if◌then◌else◌,
  Bytes, codes, ◌||◌,
}
use localsend_switchboard.Entities.PacketConn.{PacketConn, has_conn}
use localsend_switchboard.Configs.{max_discovery_message_ttl}
use localsend_switchboard.Entities.{DiscoveryMessage, SwitchMessage}
use localsend_switchboard.Services.ProactiveBroadcaster.{next_seq}
use localsend_switchboard.Std.Ip.{IpText, equal, bytes_equal}

-- What a read delivers: no deadline could be set, a timeout, another error, an error after the signal, or a datagram with the
-- sender's IP and the text of its address.
pub data Read : Type 0 where
  no_deadline times_out fails interrupted : Read
  datagram : Bytes → Bytes → Bytes → Read

-- The node's identifier, its IP, the text of IPs, and `jsonUnmarshaler.Unmarshal`.
pub record Listener : Type 0 where
  pub node_id : Bytes
  pub self_ip : Bytes
  pub text : IpText
  pub unmarshal : Bytes → Option DiscoveryMessage

-- The message that is made of a datagram of this host.
unfoldable pub stamped : Listener → ℕ → Bytes → Bytes → DiscoveryMessage → SwitchMessage
stamped l seq ip addr m = record {
  source_addr = some addr;
  payload = some (record m {
    switch_id = l.node_id;
    discovery_seq = seq;
    discovery_ttl = max_discovery_message_ttl;
    original_addr = l.text.ip_string ip;
  });
}

-- One datagram: the message for the channel, if any. A message takes a sequence number.
unfoldable pub receive_datagram : Listener → Bytes → Bytes → Bytes → ℕ → Option SwitchMessage × ℕ
receive_datagram l ip addr bytes seq = elim (l.unmarshal bytes) [
  | none ↦ (none, seq)
  | some m ↦
      if equal ip l.self_ip then (some (stamped l seq ip addr m), next_seq seq) else (none, seq)
]

-- How the inner loop ends: it goes on, returns, or is restarted.
pub data ListenEnd : Type 0 where
  listening exits restarts : ListenEnd

abbrev pub cons? {ℓ} : {A : Type ℓ} → Option A → List A → List A
cons? none xs = xs
cons? (some x) xs = x ∷ xs

-- The inner loop: the messages in order, the next sequence number, and how it ended.
unfoldable pub listen_loop : Listener → List Read → ℕ → List SwitchMessage × ℕ × ListenEnd
unfolding receive_datagram stamped
listen_loop l [] seq = ([], seq, listening)
listen_loop l (no_deadline ∷ rs) seq = ([], seq, restarts)
listen_loop l (times_out ∷ rs) seq = listen_loop l rs seq
listen_loop l (fails ∷ rs) seq = ([], seq, restarts)
listen_loop l (interrupted ∷ rs) seq = ([], seq, exits)
listen_loop l (datagram ip addr bytes ∷ rs) seq =
    let later = listen_loop l rs (receive_datagram l ip addr bytes seq).1 in
    (cons? (receive_datagram l ip addr bytes seq).0 later.0, later.1, later.2)

-- One run of the service: the socket, if it could be bound, whether it joined the group, and the
-- reads.
pub record Round (S : Type 0) : Type 0 where
  pub socket : Option S
  pub joins : Bool
  pub reads : List Read

-- The connection for the network; `none` is an error.
unfoldable pub set_up : {S : Type 0} → Bytes → Option S → Bool → Option (PacketConn S S)
set_up network none joins =
    if bytes_equal network (codes "udp4") || bytes_equal network (codes "udp6")
    then none
    else some (record { ipv4_conn = none; ipv6_conn = none })
set_up network (some s) joins =
    if bytes_equal network (codes "udp4")
    then (if joins then some (record { ipv4_conn = some s; ipv6_conn = none }) else none)
    else if bytes_equal network (codes "udp6")
    then (if joins then some (record { ipv4_conn = none; ipv6_conn = some s }) else none)
    else some (record { ipv4_conn = none; ipv6_conn = none })

-- How the service ends: it goes on, stops at the signal, reports an error, or panics on the nil
-- address that a connection of neither version delivers.
pub data ServiceEnd : Type 0 where
  serving stopped failed crashed : ServiceEnd

abbrev pub Served : Type 0
Served = List SwitchMessage × ℕ × ServiceEnd

-- What follows the inner loop: the messages of the later runs come behind its own.
unfoldable pub and_then : List SwitchMessage → ℕ → ListenEnd → Served → Served
and_then ms seq listening later = (ms, seq, serving)
and_then ms seq exits later = (ms, seq, stopped)
and_then ms seq restarts (later, seq', e) = (ms ++ later, seq', e)

-- The outer loop over the runs of the service.
unfoldable pub serve : {S : Type 0} → Listener → Bytes → List (Round S) → ℕ → Served
unfolding set_up and_then
serve l network [] seq = ([], seq, serving)
serve l network (r ∷ rs) seq =
    let (ms, seq', e) = listen_loop l r.reads seq in
    let later = serve l network rs seq' in
    elim (set_up network r.socket r.joins) [
      | none ↦ ([], seq, failed)
      | some pc ↦ if has_conn pc then and_then ms seq' e later else ([], seq, crashed)
    ]
