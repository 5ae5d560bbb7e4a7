-- ===== src/Services/LocalClientLounge.antt =====
-- services/local_client_lounge.go: the clients of this host, by port, each with an expiry time. Times
-- are nanoseconds; the time that an operation reads is an argument, and so is the lifetime that Add
-- takes from the settings, in seconds.
pub mod Presence
use localsend_switchboard.Prelude.{
  ℕ, ◌+◌, ◌*◌, Bool, true, false, List, [], ◌∷◌, map, ltb, if◌then◌else◌, ℕ_discrete,
}
use localsend_switchboard.Prelude.Assoc
use localsend_switchboard.Entities.{LocalSendClientInfo}
use localsend_switchboard.Std.Channel.{Outcome, done, ◌>>=◌, Channel}
use localsend_switchboard.Std.Channel
use localsend_switchboard.Services.SwitchLounge.{second}

pub record LocalClientInfoWithTtl : Type 0 where
  pub info : LocalSendClientInfo
  pub expire_at : ℕ

pub record LocalClientLounge : Type 0 where
  pub client_infos : List (ℕ × LocalClientInfoWithTtl)
  pub close_signal : Channel (Unit {0})
  pub closed : Bool

-- NewLocalClientLounge
unfoldable pub new_local_client_lounge : LocalClientLounge
new_local_client_lounge = record {
  client_infos = [];
  close_signal = Channel.make 0;
  closed = false;
}

-- Add
unfoldable pub add : ℕ → ℕ → LocalSendClientInfo → LocalClientLounge → LocalClientLounge
add now lifetime info lcl = if lcl.closed then lcl else record lcl {
  client_infos =
      Assoc.put ℕ_discrete info.port (record { info = info; expire_at = now + lifetime * second })
        lcl.client_infos;
}

-- The loop of the cleaning goroutine over the map.
unfoldable pub drop_expired :
    ℕ → List (ℕ × LocalClientInfoWithTtl) → List (ℕ × LocalClientInfoWithTtl)
drop_expired now [] = []
drop_expired now ((port, c) ∷ m) =
    if ltb c.expire_at now then drop_expired now m else (port, c) ∷ drop_expired now m

-- One tick of the cleaning goroutine.
unfoldable pub purge : ℕ → LocalClientLounge → LocalClientLounge
unfolding drop_expired
purge now lcl = record lcl { client_infos = drop_expired now lcl.client_infos }

-- SyncGet: what the channel that it returns delivers, in the order of the map.
unfoldable pub sync_get : LocalClientLounge → List LocalSendClientInfo
sync_get lcl = if lcl.closed then [] else map (λ e. e.1.info) lcl.client_infos

-- Close
unfoldable pub close : LocalClientLounge → Outcome LocalClientLounge
close lcl =
    if lcl.closed
    then done lcl
    else (Channel.close lcl.close_signal >>= λ signal.
        done (record lcl { close_signal = signal; closed = true }))
