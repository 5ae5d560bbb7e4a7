-- ===== src/Utils/Switch.antt =====
-- utils/switch.go: identifiers of discovery messages, and the two conversions between messages and
-- client information. The random bytes are an argument.
pub mod Ids
pub mod Convert
use localsend_switchboard.Prelude.{
  ℕ, ◌+◌, ◌-◌, ◌%◌, ◌^◌, Option, none, some, ◌++◌, map, ltb, if◌then◌else◌, Bytes, codes,
}
use localsend_switchboard.Configs.{max_discovery_message_ttl}
use localsend_switchboard.Entities.{DiscoveryMessage, SwitchMessage, LocalSendClientInfo}
use localsend_switchboard.Std.Strconv.{format_uint}

-- `ID_LETTERS[i]`, for an index below 62.
unfoldable pub id_letter : ℕ → ℕ
id_letter i = if ltb i 26 then b'a' + i else if ltb i 52 then b'A' + (i - 26) else b'0' + (i - 52)

-- GenerateRandomSwitchID, after `rand.Read` filled the 16 bytes.
unfoldable pub generate_random_switch_id : Bytes → Bytes
unfolding id_letter
generate_random_switch_id random = map (λ b. id_letter (b % 62)) random

-- GetDiscoveryId, of the payload that it reads.
unfoldable pub get_discovery_id : DiscoveryMessage → Bytes
get_discovery_id m = m.switch_id ++ (codes "_" ++ format_uint m.discovery_seq)

-- SwitchMessageToLocalSendClientInfo; `none` is the error on a nil payload.
unfoldable pub switch_message_to_local_send_client_info : SwitchMessage → Option LocalSendClientInfo
switch_message_to_local_send_client_info msg = elim msg.payload [
  | none ↦ none
  | some m ↦ some (record {
    alias = m.alias;
    version = m.version;
    device_model = m.device_model;
    device_type = m.device_type;
    fingerprint = m.fingerprint;
    port = m.port % 2 ^ 16;
    protocol = m.protocol;
    download = m.download;
  })
]

-- PackLocalSendClientInfoIntoSwitchMessage; `self_ip` is the text of the address.
unfoldable pub pack_local_send_client_info_into_switch_message :
    LocalSendClientInfo → Bytes → ℕ → Bytes → SwitchMessage
pack_local_send_client_info_into_switch_message info node_id seq self_ip = record {
  source_addr = none;
  payload = some (record {
    switch_id = node_id;
    discovery_seq = seq;
    discovery_ttl = max_discovery_message_ttl;
    alias = info.alias;
    version = info.version;
    device_model = info.device_model;
    device_type = info.device_type;
    fingerprint = info.fingerprint;
    port = info.port;
    protocol = info.protocol;
    download = info.download;
    original_addr = self_ip;
  });
}
