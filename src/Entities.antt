-- ===== src/Entities.antt =====
-- entities/net.go, entities/switch.go and entities/log.go, and the message type of
-- protos/switch_data.proto. Strings are byte lists; `uint64`, `uint32` and `uint16` fields are
-- numbers below their modulus, and the `int32` port is its bit pattern, a number below 2 ^ 32.
pub mod PacketConn
use localsend_switchboard.Prelude.{ℕ, ◌<◌, ◌^◌, Bool, Option, Bytes}

pub record DiscoveryMessage : Type 0 where
  pub switch_id : Bytes
  pub discovery_seq : ℕ
  pub discovery_ttl : ℕ
  pub alias : Bytes
  pub version : Bytes
  pub device_model : Bytes
  pub device_type : Bytes
  pub fingerprint : Bytes
  pub port : ℕ
  pub protocol : Bytes
  pub download : Bool
  pub original_addr : Bytes

-- The fields of fixed width are in their ranges.
pub record IsWire (m : DiscoveryMessage) : Type 0 where
  pub seq : m.discovery_seq < 2 ^ 64
  pub ttl : m.discovery_ttl < 2 ^ 32
  pub port : m.port < 2 ^ 32

-- `source_addr` is the text of the address, `none` for nil; so is a nil payload.
pub record SwitchMessage : Type 0 where
  pub source_addr : Option Bytes
  pub payload : Option DiscoveryMessage

pub record LocalSendClientInfo : Type 0 where
  pub alias : Bytes
  pub version : Bytes
  pub device_model : Bytes
  pub device_type : Bytes
  pub fingerprint : Bytes
  pub port : ℕ
  pub protocol : Bytes
  pub download : Bool

pub record HttpResponse : Type 0 where
  pub status_code : ℕ
  pub body : Bytes

-- `resp_chan` tells whether the request carries a channel for the response.
pub record HttpJsonRequest : Type 0 where
  pub url : Bytes
  pub method : Bytes
  pub json_body : Bytes
  pub resp_chan : Bool

pub record RotatedLogFileName : Type 0 where
  pub base_name : Bytes
  pub log_id : ℕ
  pub full_name : Bytes
