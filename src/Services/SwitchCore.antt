-- ===== src/Services/SwitchCore.antt =====
-- services/switch_core.go, SetUpSwitchCore: the loop that writes what the multicast listener and the
-- TCP connections deliver into the waiting room, and the clients of this host into theirs. The order
-- of the events is an argument; so is the time, which the two lounges read one after the other.
pub mod Loop
pub mod Feed
use localsend_switchboard.Prelude.{ℕ, Option, none, some, List, [], ◌∷◌, get_elem?}
use localsend_switchboard.Std.Channel.{Outcome, done, panicked, ◌>>=◌}
use localsend_switchboard.Services.SwitchLounge.{
  Store, SwitchLounge, WriteResult, written, closed_error, inconsistent, full_error,
}
use localsend_switchboard.Services.SwitchLounge
use localsend_switchboard.Services.LocalClientLounge.{LocalClientLounge}
use localsend_switchboard.Services.LocalClientLounge
use localsend_switchboard.Entities.{SwitchMessage}
use localsend_switchboard.Utils.Switch.{switch_message_to_local_send_client_info}

pub record Core : Type 0 where
  pub lounge : SwitchLounge
  pub clients : LocalClientLounge

-- The channel that the `select` took a message from, and the time.
pub data Event : Type 0 where
  from_multicast : ℕ → ℕ → Event
  from_tcp : ℕ → ℕ → Event

-- The conversion of a multicast message, and the client that it names.
unfoldable pub add_client : ℕ → ℕ → Option SwitchMessage → LocalClientLounge → LocalClientLounge
add_client now lifetime none clients = clients
add_client now lifetime (some m) clients = elim (switch_message_to_local_send_client_info m) [
  | none ↦ clients
  | some info ↦ LocalClientLounge.add now lifetime info clients
]

-- What follows Write for a multicast message.
unfoldable pub after_write :
    ℕ → ℕ → Store → ℕ → LocalClientLounge → WriteResult × SwitchLounge → Core
unfolding add_client
after_write now lifetime store msg clients (written, lounge) = record {
  lounge = lounge;
  clients = add_client now lifetime (get_elem? store msg) clients;
}
after_write now lifetime store msg clients (closed_error, lounge) = record {
  lounge = lounge;
  clients = clients;
}
after_write now lifetime store msg clients (inconsistent, lounge) = record {
  lounge = lounge;
  clients = clients;
}
after_write now lifetime store msg clients (full_error, lounge) = record {
  lounge = lounge;
  clients = clients;
}

-- One round of the loop.
unfoldable pub on_event : ℕ → Store → Core → Event → Outcome Core
unfolding after_write
on_event lifetime store core (from_multicast now msg) =
    SwitchLounge.write now store msg core.lounge >>= λ r.
    done (after_write now lifetime store msg core.clients r)
on_event lifetime store core (from_tcp now msg) =
    SwitchLounge.write now store msg core.lounge >>= λ r.
    done (record { lounge = r.1; clients = core.clients })

-- The loop, until the interrupt.
unfoldable pub core_loop : ℕ → Store → Core → List Event → Outcome Core
unfolding on_event
core_loop lifetime store core [] = done core
core_loop lifetime store core (e ∷ events) =
    on_event lifetime store core e >>= λ core'. core_loop lifetime store core' events
