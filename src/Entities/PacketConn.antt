-- ===== src/Entities/PacketConn.antt =====
-- entities/net.go, PacketConn: a connection over IPv4 or IPv6. The sockets of both versions and their
-- methods are arguments; `none` is nil.
use localsend_switchboard.Prelude.{Bool, true, false, Option, none, some, [], Bytes}

pub record PacketConn (A B : Type 0) : Type 0 where
  pub ipv4_conn : Option A
  pub ipv6_conn : Option B

-- What a read returns: the data, the sender's address, and an error.
pub record Packet : Type 0 where
  pub data_read : Bytes
  pub addr : Option Bytes
  pub err : Option Bytes

-- One of the connections is there.
unfoldable pub has_conn : {A B : Type 0} → PacketConn A B → Bool
has_conn pc = elim pc.ipv4_conn [
  | some _ ↦ true
  | none ↦ elim pc.ipv6_conn [ some _ ↦ true | none ↦ false ]
]

module _ {A B : Type 0} where
  -- ReadFrom
  unfoldable pub read_from : (A → Packet) → (B → Packet) → PacketConn A B → Packet
  read_from read4 read6 pc = elim pc.ipv4_conn [
    | some c ↦ read4 c
    | none ↦ elim pc.ipv6_conn [
      | some c ↦ read6 c
      | none ↦ record { data_read = []; addr = none; err = none }
    ]
  ]

  -- A call of both connections, the IPv4 one first; the first error ends it.
  abbrev pub on_both : (A → Option Bytes) → (B → Option Bytes) → PacketConn A B → Option Bytes
  on_both f g pc =
      let second : Option Bytes = elim pc.ipv6_conn [ none ↦ none | some c ↦ g c ] in
      elim pc.ipv4_conn [ none ↦ second | some c ↦ elim (f c) [ none ↦ second | some e ↦ some e ] ]

  -- SetReadDeadline
  unfoldable pub set_read_deadline :
      (A → Option Bytes) → (B → Option Bytes) → PacketConn A B → Option Bytes
  set_read_deadline set4 set6 pc = on_both set4 set6 pc

  -- Close
  unfoldable pub close : (A → Option Bytes) → (B → Option Bytes) → PacketConn A B → Option Bytes
  close close4 close6 pc = on_both close4 close6 pc
