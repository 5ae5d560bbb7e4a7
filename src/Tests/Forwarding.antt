-- ===== src/Tests/Forwarding.antt =====
-- The forwarder, the broadcaster, the listener and the HTTP worker at concrete values.
use localsend_switchboard.Prelude.{
  ◌%◌, ℕ, ◌≤◌, ◌+◌, ◌-◌, ◌^◌, ◌≡◌, ◌≢◌, ◌↔◌, ◌⊎◌, refl, true, false, none, some, List, [], ◌∷◌,
  ◌++◌, Bytes, Bytes-discrete, codes, arith, length, All, get_elem?, ℕ_discrete, take, drop,
  if◌then◌else◌,
}
use localsend_switchboard.Prelude.Assoc
use localsend_switchboard.Entities.{DiscoveryMessage, HttpJsonRequest}
use localsend_switchboard.Std.Channel.{Outcome, done, panicked, ◌>>=◌, Channel}
use localsend_switchboard.Std.Channel
use localsend_switchboard.Std.Ip.{is_private, equal, to4, bytes_equal}
use localsend_switchboard.Services.LocalClientLounge.{
  LocalClientLounge, new_local_client_lounge, add, sync_get,
}
use localsend_switchboard.Services.SwitchLounge.{Store, load, new_switch_lounge}
use localsend_switchboard.Services.TcpConnectionHub.{
  TcpConnectionHub, except, get_connections_except, remove_connection, close_chan,
}
use localsend_switchboard.Services.TcpConnectionHub.Sends.{with_message}
use localsend_switchboard.Services.PassiveForwarder.{
  forward_one, forward_loop, put_ttl, handle, register, registrations, make_http_request,
}
use localsend_switchboard.Services.PassiveForwarder.Forward.{
  Points, Forwards, send_all, forward_loop_wraps, forward_loop_zero,
}
use localsend_switchboard.Services.PassiveForwarder.Deliver.{
  hits, forward_loop_delivers, forward_one_removed,
}
use localsend_switchboard.Services.PassiveForwarder.Target.{
  IsHostByte, authority, make_http_request_elsewhere,
}
use localsend_switchboard.Services.PassiveForwarder.Handle.{GoesTo, handle_registers_private}
use localsend_switchboard.Services.ProactiveBroadcaster.{send_loop}
use localsend_switchboard.Services.ProactiveBroadcaster.Laws.{broadcast_ttl, send_loop-packed}
use localsend_switchboard.Services.HttpSender.{
  request_invalid, responds, silent, handle_request, handle_request_silent,
}
use localsend_switchboard.Main.Launch.{Endpoints, with_defaults, network_of, launches, launch}
use localsend_switchboard.Main.Launch.Network.{launch-serve}
use localsend_switchboard.Services.MulticastListener.{
  Listener, datagram, times_out, fails, Round, crashed, serve, and_then, set_up, listen_loop,
  receive_datagram,
}
use localsend_switchboard.Entities.PacketConn.{has_conn}
use localsend_switchboard.Services.SwitchCore.{Core, core_loop}
use localsend_switchboard.Services.SwitchCore.Feed.{events, pointers, serve-core_loop}
use localsend_switchboard.Utils.Net.{
  Interface, get_outbound_ip, has_address, find_interface, get_interface_by_ip, is_ipv6,
}
use localsend_switchboard.Utils.Switch.{
  switch_message_to_local_send_client_info, pack_local_send_client_info_into_switch_message,
}
use localsend_switchboard.Tests.Data.{
  client, with_ttl_of, store_of, store_of-Points, conn_p, p_entry, q_entry, fresh_chan, hub_p,
  hub_pq, hub_pq-Inv, plain_text, dotted_text, dotted_text-IsHostText, one_json,
}

forward_loop_delivers_example :
    (chans' : List (Channel ℕ)) × (forward_loop 0
        (get_connections_except (some (codes "p")) hub_pq)
        (store_of 9, hub_pq.chans)
      ≡ done (
        put_ttl (store_of 9) 0 (9 - length (get_connections_except (some (codes "p")) hub_pq)),
        chans',
      ))
    × (get_elem? chans' 1
        ≡ some (
            if hits 1 (get_connections_except (some (codes "p")) hub_pq)
            then with_message 0 fresh_chan
            else fresh_chan))
unfolding get_connections_except except Bytes-discrete
forward_loop_delivers_example =
    forward_loop_delivers 0 (codes "p") hub_pq (store_of 9) (with_ttl_of 9) (store_of-Points 9)
      hub_pq-Inv (omega arith) (omega arith) ((fresh_chan, refl, refl, omega arith), tt) 1
      fresh_chan refl

forward_loop_wraps_example :
    Forwards 0
      (p_entry ∷ q_entry ∷ [])
      (store_of 1)
      (fresh_chan ∷ fresh_chan ∷ [])
      (with_ttl_of 1)
      (store_of-Points 1)
      (take 0 (p_entry ∷ q_entry ∷ []) ++ drop 1 (p_entry ∷ q_entry ∷ []))
      (1 + 2 ^ 32 - 2)
forward_loop_wraps_example =
    forward_loop_wraps 0 (p_entry ∷ q_entry ∷ []) (store_of 1) (fresh_chan ∷ fresh_chan ∷ [])
      (with_ttl_of 1) (store_of-Points 1) 0 refl (omega arith) (omega arith)

forward_loop_zero_example :
    Forwards 0
      (p_entry ∷ q_entry ∷ [])
      (store_of 0)
      (fresh_chan ∷ fresh_chan ∷ [])
      (with_ttl_of 0)
      (store_of-Points 0)
      (p_entry ∷ q_entry ∷ [])
      (2 ^ 32 - 2)
forward_loop_zero_example =
    forward_loop_zero 0 (p_entry ∷ q_entry ∷ []) (store_of 0) (fresh_chan ∷ fresh_chan ∷ [])
      (with_ttl_of 0) (store_of-Points 0) refl (omega arith) (omega arith)

-- The hub after the connection was removed.
abbrev without_p : TcpConnectionHub
without_p = record {
  conns = [];
  chans = record fresh_chan { is_closed = true } ∷ [];
  closed_sockets = 3 ∷ [];
}

removed : remove_connection conn_p hub_p ≡ done without_p
unfolding remove_connection close_chan Assoc.get? Assoc.delete Channel.close Bytes-discrete
removed = refl

forward_one_removed_example : forward_one 0 p_entry (store_of 9, without_p.chans) ≡ panicked
unfolding Assoc.get? Bytes-discrete
forward_one_removed_example =
    forward_one_removed conn_p hub_p without_p p_entry 0 (store_of 9) (with_ttl_of 9)
      (store_of-Points 9) (omega arith) (λ e. absurd (omega (arith, e))) refl removed

abbrev public : DiscoveryMessage
public = record (with_ttl_of 9) { original_addr = 8 ∷ 0 ∷ 0 ∷ 9 ∷ [] }

abbrev public_store : Store
public_store = record { source_addr = none; payload = some public } ∷ []

public-Points : Points public_store 0 public
public-Points = record {
  message = record { source_addr = none; payload = some public };
  found = refl;
  payload = refl;
}

send_loop-packed_example :
    send_loop 0 (p_entry ∷ []) (
      pack_local_send_client_info_into_switch_message client (codes "n") 5 (codes "ip") ∷ [],
      fresh_chan ∷ [],
    )
    ≡ (send_all 0 (p_entry ∷ []) (fresh_chan ∷ []) >>= λ chans'. done (
      put_ttl
          (pack_local_send_client_info_into_switch_message client (codes "n") 5 (codes "ip") ∷ [])
          0
          (broadcast_ttl 1),
      chans',
    ))
send_loop-packed_example =
    send_loop-packed client (codes "n") (codes "ip") 5 (p_entry ∷ []) [] (fresh_chan ∷ [])
      (omega arith)

abbrev probe : HttpJsonRequest
probe = record { url = []; method = codes "GET"; json_body = []; resp_chan = true }

handle_request_silent_example : (handle_request probe (responds 200 none) ≡ silent) ↔ (
    ((probe.method ≢ codes "POST") × (probe.method ≢ codes "GET"))
    ⊎ (responds 200 none ≡ request_invalid)
    ⊎ ((status : ℕ) × (responds 200 none ≡ responds status none)))
handle_request_silent_example = handle_request_silent probe (responds 200 none) refl

abbrev listener : Listener
listener = record {
  node_id = codes "n1";
  self_ip = 10 ∷ 0 ∷ 0 ∷ 9 ∷ [];
  text = plain_text;
  unmarshal = λ b. some (with_ttl_of 3);
}

-- One run that breaks off behind a message, and one after it.
abbrev two_runs : List (Round ℕ)
two_runs =
    record {
      socket = some 3;
      joins = true;
      reads = datagram (10 ∷ 0 ∷ 0 ∷ 9 ∷ []) (codes "a") [] ∷ fails ∷ [];
    }
    ∷ record {
      socket = some 4;
      joins = true;
      reads = times_out ∷ datagram (10 ∷ 0 ∷ 0 ∷ 9 ∷ []) (codes "a") [] ∷ [];
    }
    ∷ []

serve-core_loop_example :
    (core : Core) × (core_loop 60
        (serve listener (codes "udp4") two_runs 4).0
        (record { lounge = new_switch_lounge; clients = new_local_client_lounge })
        (events (λ i. i) 0 (serve listener (codes "udp4") two_runs 4).0)
      ≡ done core)
    × (core.lounge.lounge.buffer ≡ pointers 0 (length (serve listener (codes "udp4") two_runs 4).0))
serve-core_loop_example =
    serve-core_loop listener (codes "udp4") two_runs 4 60 (λ i. i) new_local_client_lounge
      (omega arith) two_messages
  where
    two_messages : length (serve listener (codes "udp4") two_runs 4).0 ≤ 65025
    two_messages =
        unfold serve and_then set_up has_conn bytes_equal listen_loop receive_datagram equal to4 in
        omega arith

-- An interface with the address 10.0.0.9, and no option given.
abbrev eth0 : Interface
eth0 = record { name = codes "eth0"; addrs = some ((10 ∷ 0 ∷ 0 ∷ 9 ∷ []) ∷ []) }

abbrev no_options : Endpoints
no_options = record { peer_addr = []; peer_port = []; serv_port = []; ls_addr = []; ls_port = [] }

launch-serve_example : (serve listener (codes "udp6") two_runs 4).2 ≢ crashed
launch-serve_example =
    launch-serve plain_text (some (10 ∷ 0 ∷ 0 ∷ 9 ∷ [])) (some (eth0 ∷ [])) no_options
      (with_defaults no_options) (codes "udp6") eth0 listener two_runs 4 launched
  where
    launched :
        launch plain_text (some (10 ∷ 0 ∷ 0 ∷ 9 ∷ [])) (some (eth0 ∷ [])) no_options
        ≡ launches (codes "udp6") (with_defaults no_options) eth0
    launched =
        unfold launch network_of get_outbound_ip get_interface_by_ip find_interface has_address
          is_ipv6 equal to4 with_defaults in
        refl

-- One local client, and a message with TTL 9 from the address 10.0.0.9 to a node at 10.0.0.1.
abbrev one_client : LocalClientLounge
one_client = add 3 60 client new_local_client_lounge

abbrev registration : HttpJsonRequest
registration =
    make_http_request dotted_text (10 ∷ 0 ∷ 0 ∷ 9 ∷ []) 53317 (codes "https") (codes "{}")

registers :
    handle dotted_text one_json (10 ∷ 0 ∷ 0 ∷ 1 ∷ []) 0 (store_of 9) hub_p one_client
    ≡ done (store_of 9, hub_p.chans, registration ∷ [])
unfolding handle load forward_loop put_ttl get_connections_except except add sync_get
    new_local_client_lounge register registrations is_private to4 equal bytes_equal Bytes-discrete
    ℕ_discrete Assoc.put switch_message_to_local_send_client_info
registers = refl

handle_registers_private_example :
    (remote : Bytes) × (dotted_text.parse_ip (10 ∷ 0 ∷ 0 ∷ 9 ∷ []) ≡ some remote)
    × (is_private remote ≡ true)
    × (equal remote (10 ∷ 0 ∷ 0 ∷ 1 ∷ []) ≡ false)
    × All (GoesTo dotted_text remote (53317 % 2 ^ 16)) (registration ∷ [])
handle_registers_private_example =
    handle_registers_private dotted_text one_json (10 ∷ 0 ∷ 0 ∷ 1 ∷ []) 0 (store_of 9) (store_of 9)
      hub_p one_client (with_ttl_of 9) hub_p.chans registration [] dotted_text-IsHostText
      (omega arith, (omega arith, (omega arith, (omega arith, (omega arith, tt)))))
      (store_of-Points 9) registers

make_http_request_elsewhere_example :
    authority
      (make_http_request dotted_text
        (10 ∷ 0 ∷ 0 ∷ 9 ∷ [])
        53317
        (codes "http://" ++ codes "8.8.8.8" ++ codes "/?")
        (codes "{}")).url
    ≡ some (codes "8.8.8.8")
make_http_request_elsewhere_example =
    make_http_request_elsewhere dotted_text (10 ∷ 0 ∷ 0 ∷ 9 ∷ []) 53317 (codes "8.8.8.8")
      (codes "{}") (byte, (dot, (byte, (dot, (byte, (dot, (byte, tt)))))))
  where
    byte : IsHostByte b'8'
    byte = (omega arith, omega arith, omega arith, omega arith)

    dot : IsHostByte b'.'
    dot = (omega arith, omega arith, omega arith, omega arith)
