-- ===== src/Tests/Nodes.antt =====
-- A node at concrete values: one peer connects, and a message of it arrives.
use localsend_switchboard.Prelude.{◌≡◌, arith, refl, [], ◌∷◌, codes, All, Bytes-discrete}
use localsend_switchboard.Entities.{DiscoveryMessage}
use localsend_switchboard.Std.Channel.{Outcome, done, blocked, panicked, send}
use localsend_switchboard.Std.Ip.{is_private}
use localsend_switchboard.Services.SwitchLounge.{
  load, write, write_id, make_room, offer, new_switch_lounge, read,
}
use localsend_switchboard.Services.SwitchCore.{on_event, after_write}
use localsend_switchboard.Services.LocalClientLounge.{new_local_client_lounge, sync_get, add}
use localsend_switchboard.Utils.Switch.{get_discovery_id, switch_message_to_local_send_client_info}
use localsend_switchboard.Prelude.Assoc
use localsend_switchboard.Std.Strconv.{format_uint}
use localsend_switchboard.Services.Node.Requests.{Runs, acts, ends, requests-IsPolite}
use localsend_switchboard.Services.Node.Polite.{IsPolite}
use localsend_switchboard.Services.PassiveForwarder.Target.{HasNoColon}
use localsend_switchboard.Services.TcpConnectionHub.{
  add_connection, get_connections_except, get_all_connections, new_tcp_connection_hub,
}
use localsend_switchboard.Services.Node.{
  casts, Host, Node, hears, connects, receives, takes, proceeds, announces, broadcasts, disconnects,
  tick, broadcast_on, act, start, take_next, go_on, proceed, new_node,
}
use localsend_switchboard.Services.Node.Inv.{Goes}
use localsend_switchboard.Services.Node.Races.{broadcasts_panicked}
use localsend_switchboard.Services.Node.Reach.{Reaches, stays, goes, Reaches-act}
use localsend_switchboard.Tests.Data.{
  with_ttl_of, store_of, conn_p, hub_pq, dotted_text, dotted_text-IsHostText, one_json,
}

abbrev host : Host
host = record {
  text = dotted_text;
  json = one_json;
  node_id = codes "n0";
  self_ip = 10 ∷ 0 ∷ 0 ∷ 1 ∷ [];
  port_text = codes "53317";
  lifetime = 60;
}

-- The node with one connection.
abbrev connected : Node
connected = record new_node { hub = (add_connection conn_p new_node.hub).1 }

connected-Reaches : Reaches host new_node connected
unfolding act
connected-Reaches = goes new_node connected connected (connects conn_p) tt refl (stays connected)

Reaches-act_example : Goes (act host connected (receives 5 (codes "p") (with_ttl_of 9)))
Reaches-act_example =
    Reaches-act host connected (receives 5 (codes "p") (with_ttl_of 9)) connected-Reaches tt

-- The node with two connections and a message.
abbrev busy : Node
busy = record new_node { store = store_of 9; hub = hub_pq }

-- The node behind an act, where it is one.
abbrev result : Outcome Node → Node
result (done n) = n
result blocked = new_node
result panicked = new_node

-- A message of this host, and one of another.
abbrev own_message : DiscoveryMessage
own_message = record (with_ttl_of 9) { discovery_seq = 8; original_addr = 10 ∷ 0 ∷ 0 ∷ 1 ∷ [] }

-- The acts until the other host's message is served: both arrive, and the forwarder serves both.
abbrev heard : Node
heard = result (act host new_node (hears 5 (codes "a") own_message))

abbrev both : Node
both = result (act host heard (receives 6 (codes "p") (with_ttl_of 9)))

abbrev at_own : Node
at_own = result (act host both takes)

abbrev own_served : Node
own_served = result (act host at_own proceeds)

abbrev at_other : Node
at_other = result (act host own_served takes)

abbrev other_served : Node
other_served = result (act host at_other proceeds)

https : HasNoColon (codes "https")
https = (omega arith, (omega arith, (omega arith, (omega arith, (omega arith, tt)))))

other_served-Runs : Runs host new_node other_served
unfolding act on_event format_uint get_connections_except new_tcp_connection_hub write write_id load
    make_room offer send new_node new_switch_lounge new_local_client_lounge Assoc.get? Assoc.put
    Bytes-discrete get_discovery_id take_next start read is_private go_on proceed after_write
other_served-Runs = acts new_node heard other_served (hears 5 (codes "a") own_message) https refl (
    acts heard both other_served (receives 6 (codes "p") (with_ttl_of 9)) https refl (
      acts both at_own other_served takes tt refl (
        acts at_own own_served other_served proceeds tt refl (
          acts own_served at_other other_served takes tt refl
            (acts at_other other_served other_served proceeds tt refl (ends other_served))))))

requests-IsPolite_example : All (IsPolite host) other_served.requests
requests-IsPolite_example =
    requests-IsPolite host other_served dotted_text-IsHostText other_served-Runs

-- The acts until the broadcaster is at the message of the client, with one connection to serve.
abbrev listing : Node
listing = result (act host connected (hears 5 (codes "a") own_message))

abbrev ticked : Node
ticked = result (act host listing announces)

abbrev casting : Node
casting = result (act host ticked broadcasts)

casting-Reaches : Reaches host new_node casting
unfolding act on_event format_uint new_tcp_connection_hub write write_id load make_room offer send
    new_node new_switch_lounge new_local_client_lounge Assoc.get? Assoc.put Bytes-discrete
    get_discovery_id after_write tick broadcast_on sync_get add
    switch_message_to_local_send_client_info
casting-Reaches = goes new_node connected casting (connects conn_p) tt refl (
    goes connected listing casting (hears 5 (codes "a") own_message) tt refl (
      goes listing ticked casting announces tt refl
        (goes ticked casting casting broadcasts tt refl (stays casting))))

casting-cast : casting.cast ≡ casts [] 1 (record { conn = conn_p; send_chan = 0 } ∷ [])
unfolding act on_event format_uint new_tcp_connection_hub write write_id load make_room offer send
    new_node new_switch_lounge new_local_client_lounge Assoc.get? Assoc.put Bytes-discrete
    get_discovery_id after_write tick broadcast_on sync_get add add_connection get_all_connections
    get_connections_except switch_message_to_local_send_client_info
casting-cast = refl

broadcasts_panicked_example :
    (n' : Node) × (act host casting (disconnects conn_p) ≡ done n')
    × (act host n' broadcasts ≡ panicked)
broadcasts_panicked_example =
    broadcasts_panicked host casting [] 1 (record { conn = conn_p; send_chan = 0 }) []
      casting-Reaches casting-cast
