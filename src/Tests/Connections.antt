-- ===== src/Tests/Connections.antt =====
-- The hub and the goroutines of connections at concrete values.
use localsend_switchboard.Prelude.Int.{pos}
use localsend_switchboard.Prelude.{
  ◌++◌, leb, if◌then◌else◌, ℕ, ◌≡◌, ◌≢◌, ◌↔◌, refl, none, some, ite, [], ◌∷◌, ◌++◌, Bytes,
  Bytes-discrete, codes, arith,
}
use mathlib.Core.List.{Mem}
use localsend_switchboard.Prelude.Assoc
use localsend_switchboard.Std.Channel.{done}
use localsend_switchboard.Services.TcpConnectionHub.{
  TcpConnectionHub, new_tcp_connection_hub, added, add_connection, remove_connection,
  get_connections_except,
}
use localsend_switchboard.Services.TcpConnectionHub.Inv.{Inv}
use localsend_switchboard.Services.TcpConnectionHub.Methods.{
  new-Inv, add_connection_registers, remove_connection_lem,
}
use localsend_switchboard.Services.TcpConnectionHub.Except.{registered, mem-get_connections_except}
use localsend_switchboard.Services.TcpCore.{
  receive_all, handle_tcp_connection_send, sends, beats, all_written, read_failed, out_of_fuel,
}
use localsend_switchboard.Services.TcpCore.RoundTrip.{receive_all-sent}
use localsend_switchboard.Services.TcpCore.Ends.{receive_all-ends}
use localsend_switchboard.Services.TcpCore.Peer.{
  connect_loop, drops, connect_loop-drops, failures, gave_up,
}
use localsend_switchboard.Services.TcpCore.Server.{accepts, fails, accept_loop, accept_loop-Inv}
use localsend_switchboard.Utils.Cipher.{enabled, encrypt}
use localsend_switchboard.Utils.Net.{wrote, write_all_bytes}
use localsend_switchboard.Tests.Data.{
  with_ttl_of, conn_p, conn_q, p_entry, hub_p, hub_pq, hub_pq-Inv, hub_p-Inv, tagging,
  tagging-IsAead, fields, fields-IsCodec,
}

add_connection_registers_example :
    (c : ℕ) × (hub' : TcpConnectionHub) × (add_connection conn_q hub_p ≡ (added c, hub'))
    × Inv hub'
    × ((a : Bytes)
        → Assoc.get? Bytes-discrete a hub'.conns
          ≡ ite
              (Bytes-discrete conn_q.remote_addr a)
              (some (record { conn = conn_q; send_chan = c }))
              (Assoc.get? Bytes-discrete a hub_p.conns))
unfolding Assoc.get? Bytes-discrete
add_connection_registers_example =
    add_connection_registers conn_q hub_p hub_p-Inv refl (omega arith)

remove_connection_lem_example :
    (hub' : TcpConnectionHub) × (remove_connection conn_p hub_pq ≡ done hub')
    × Inv hub'
    × ((a : Bytes)
        → Assoc.get? Bytes-discrete a hub'.conns
          ≡ ite
              (Bytes-discrete conn_p.remote_addr a)
              none
              (Assoc.get? Bytes-discrete a hub_pq.conns))
remove_connection_lem_example = remove_connection_lem conn_p hub_pq hub_pq-Inv

mem-get_connections_except_example :
    Mem p_entry (get_connections_except (some (codes "q")) hub_pq)
    ↔ (Mem p_entry (registered hub_pq.conns) × (p_entry.conn.remote_addr ≢ codes "q"))
mem-get_connections_except_example =
    mem-get_connections_except hub_pq (codes "q") p_entry hub_pq-Inv

-- A heartbeat between two messages, of which the first goes out in two pieces.
receive_all-sent_example :
    receive_all (enabled tagging) fields (
      handle_tcp_connection_send (enabled tagging) fields (
        sends (with_ttl_of 9) all_written (1 ∷ 2 ∷ []) all_written (wrote 3 ∷ wrote 99 ∷ [])
        ∷ beats all_written
        ∷ []))
    ≡ (with_ttl_of 9 ∷ [], read_failed)
unfolding encrypt write_all_bytes
receive_all-sent_example =
    receive_all-sent (enabled tagging) fields
      (sends (with_ttl_of 9) all_written (1 ∷ 2 ∷ []) all_written (wrote 3 ∷ wrote 99 ∷ [])
        ∷ beats all_written
        ∷ [])
      tagging-IsAead fields-IsCodec
      ((_, _, refl, refl, refl, refl, refl, omega arith, refl), (refl, tt))

receive_all-ends_example :
    (receive_all (enabled tagging) fields (2 ∷ 1 ∷ 0 ∷ 0 ∷ [])).1 ≢ out_of_fuel
receive_all-ends_example = receive_all-ends (enabled tagging) fields (2 ∷ 1 ∷ 0 ∷ 0 ∷ [])

connect_loop-drops_example :
    connect_loop (pos 1) (drops ∷ failures 1 ++ drops ∷ []) 1
    ≡ (if leb 2 1 then connect_loop (pos 1) (drops ∷ []) 2 else gave_up)
connect_loop-drops_example = connect_loop-drops 1 1 1 (drops ∷ [])

accept_loop-Inv_example :
    Inv
      (accept_loop
        (accepts conn_p ∷ fails ∷ accepts conn_p ∷ [])
        (record { hub = new_tcp_connection_hub; handled = [] })).0.hub
accept_loop-Inv_example =
    accept_loop-Inv (accepts conn_p ∷ fails ∷ accepts conn_p ∷ [])
      (record { hub = new_tcp_connection_hub; handled = [] }) new-Inv
