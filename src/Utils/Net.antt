-- ===== src/Utils/Net.antt =====
-- utils/net.go: WriteAllBytes, ParsePort, IsIpv6, GetOutboundIP and GetInterfaceByIP. What the connection and the
-- system answer is an argument.
pub mod Laws
use localsend_switchboard.Prelude.{
  ℕ, ◌^◌, ◌≡◌, Bool, true, false, not, Option, none, some, List, [], ◌∷◌, ◌++◌, ◌==◌, if◌then◌else◌,
  Bytes, length, take, drop,
}
use localsend_switchboard.Std.Ip.{IpText, to4, equal}
use localsend_switchboard.Std.Strconv.{Parsed, ok, failed, parse_uint}

-- How one call of `conn.Write` ends: it writes so many bytes, and then fails or not.
pub data WriteStep : Type 0 where
  wrote breaks : ℕ → WriteStep

-- How WriteAllBytes ends; `pending` is a call that is still under way.
pub data WriteEnd : Type 0 where
  complete write_error pending : WriteEnd

-- WriteAllBytes: the bytes that went out, and how it ended.
unfoldable pub write_all_bytes : List WriteStep → Bytes → Bytes × WriteEnd
write_all_bytes [] bytes = ([], if length bytes == 0 then complete else pending)
write_all_bytes (breaks n ∷ steps) bytes =
    if length bytes == 0 then ([], complete) else (take n bytes, write_error)
write_all_bytes (wrote n ∷ steps) bytes =
    let rest = write_all_bytes steps (drop n bytes) in
    if length bytes == 0 then ([], complete) else (take n bytes ++ rest.0, rest.1)

-- ParsePort; `none` is an error.
unfoldable pub parse_port : Bytes → Option ℕ
parse_port s = elim (parse_uint 16 s) [ ok port ↦ some port | failed _ _ ↦ none ]

-- IsIpv6, which returns no error.
unfoldable pub is_ipv6 : IpText → Bytes → Bool
is_ipv6 text address = elim (text.parse_ip address) [
  | none ↦ false
  | some ip ↦ elim (to4 ip) [ none ↦ true | some _ ↦ false ]
]

-- What GetOutboundIP returns; log.Fatal ends the process, so it returns no error.
pub data Outbound : Type 0 where
  fatal_exit : Outbound
  outbound : Bytes → Outbound

-- GetOutboundIP, on the local IP of the UDP connection; `none` is a dial that fails.
unfoldable pub get_outbound_ip : Option Bytes → Outbound
get_outbound_ip none = fatal_exit
get_outbound_ip (some ip) = outbound ip

-- A network interface: its name, and its addresses, `none` where the system fails to list them.
pub record Interface : Type 0 where
  pub name : Bytes
  pub addrs : Option (List Bytes)

-- The inner loop over the addresses of one interface.
unfoldable pub has_address : Bytes → List Bytes → Bool
has_address ip [] = false
has_address ip (a ∷ as_) = if equal a ip then true else has_address ip as_

-- What GetInterfaceByIP returns: an interface, nil, or an error.
pub data Found : Type 0 where
  interface_at : Interface → Found
  no_interface lookup_error : Found

-- The loop over the interfaces.
unfoldable pub find_interface : Bytes → List Interface → Found
unfolding has_address
find_interface ip [] = no_interface
find_interface ip (i ∷ is) =
    let rest = find_interface ip is in
    elim i.addrs [
      | none ↦ lookup_error
      | some addrs ↦ if has_address ip addrs then interface_at i else rest
    ]

-- GetInterfaceByIP, on what net.Interfaces returns; `none` is its error.
unfoldable pub get_interface_by_ip : Bytes → Option (List Interface) → Found
unfolding find_interface
get_interface_by_ip ip none = lookup_error
get_interface_by_ip ip (some interfaces) = find_interface ip interfaces
