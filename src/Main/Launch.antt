-- ===== src/Main/Launch.antt =====
-- main.go, behind the settings: the defaults of the addresses and ports, the network, and the
-- interface. What the system knows of the outbound IP and the interfaces is an argument.
pub mod Network
use localsend_switchboard.Prelude.{
  ℕ, ◌≡◌, ◌≢◌, refl, sym, subst, ◌⊎◌, inl, inr, Bool, true, false, ◌||◌, Option, none, some, List,
  [], ◌∷◌, ◌++◌, if◌then◌else◌, Bytes, codes, arith, Bool-cases, Option-cases,
}
use localsend_switchboard.Configs.{local_send_default_multicast_ipv4, local_send_default_port}
use localsend_switchboard.Entities.PacketConn.{PacketConn, has_conn}
use localsend_switchboard.Entities.{SwitchMessage}
use localsend_switchboard.Main.{is_given}
use localsend_switchboard.Services.MulticastListener.{
  Listener, ListenEnd, listening, exits, restarts, listen_loop, Round, set_up, ServiceEnd, serving,
  stopped, failed, crashed, Served, and_then, serve,
}
use localsend_switchboard.Std.Ip.{IpText, bytes_equal}
use localsend_switchboard.Utils.Net.{
  is_ipv6, get_outbound_ip, fatal_exit, outbound, Interface, Found, interface_at, no_interface,
  lookup_error, get_interface_by_ip,
}

-- The options that name addresses and ports.
pub record Endpoints : Type 0 where
  pub peer_addr : Bytes
  pub peer_port : Bytes
  pub serv_port : Bytes
  pub ls_addr : Bytes
  pub ls_port : Bytes

abbrev pub or_default : Bytes → Bytes → Bytes
or_default text value = if is_given text then text else value

unfoldable pub with_defaults : Endpoints → Endpoints
with_defaults e = record e {
  ls_addr = or_default e.ls_addr local_send_default_multicast_ipv4;
  ls_port = or_default e.ls_port local_send_default_port;
  peer_port = or_default e.peer_port e.serv_port;
}

unfoldable pub network_of : IpText → Bytes → Bytes
network_of text address = if is_ipv6 text address then codes "udp6" else codes "udp4"

-- `main` returns, the process ends with a fatal error, or the listener and the core are started.
pub data Launch : Type 0 where
  returns exits_fatally : Launch
  launches : Bytes → Endpoints → Interface → Launch

unfoldable pub launch : IpText → Option Bytes → Option (List Interface) → Endpoints → Launch
unfolding with_defaults network_of get_outbound_ip
launch text dialled interfaces e = elim (get_outbound_ip dialled) [
  | fatal_exit ↦ exits_fatally
  | outbound ip ↦ elim (get_interface_by_ip ip interfaces) [
    | interface_at i ↦ launches (network_of text (with_defaults e).ls_addr) (with_defaults e) i
    | no_interface ↦ returns
    | lookup_error ↦ returns
  ]
]
