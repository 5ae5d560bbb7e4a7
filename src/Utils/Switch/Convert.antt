-- ===== src/Utils/Switch/Convert.antt =====
-- Packing client information and reading it back.
use localsend_switchboard.Prelude.{ℕ, ◌^◌, ◌%◌, ◌<◌, ◌≡◌, ap, some, arith, Bytes}
use localsend_switchboard.Entities.{LocalSendClientInfo}
use localsend_switchboard.Utils.Switch.{
  switch_message_to_local_send_client_info, pack_local_send_client_info_into_switch_message,
}

-- Information with a 16-bit port survives the way through a message.
pub unpack-pack :
    (info : LocalSendClientInfo) (node_id : Bytes) (seq : ℕ) (self_ip : Bytes)
    → info.port < 2 ^ 16
    → switch_message_to_local_send_client_info
        (pack_local_send_client_info_into_switch_message info node_id seq self_ip)
      ≡ some info
unfolding switch_message_to_local_send_client_info pack_local_send_client_info_into_switch_message
unpack-pack info node_id seq self_ip h =
    let same : info.port % 2 ^ 16 ≡ info.port = omega arith in
    ap (λ p. some (record info { port = p })) same
