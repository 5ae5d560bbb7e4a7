-- ===== src/Services/SwitchCore/Loop.antt =====
-- The loop never panics on messages with a payload, keeps the invariant of the waiting room, and
-- tells the messages of this host from those of the peers.
use localsend_switchboard.Prelude.{
  ℕ, ◌+◌, ◌*◌, ◌≡◌, ◌∙◌, refl, Option, none, some, List, [], ◌∷◌, ◌≢◌, inl, inr, Option-cases,
  Bool-cases, ℕ_discrete, arith, get_elem?, All,
}
use localsend_switchboard.Entities.{DiscoveryMessage, SwitchMessage, LocalSendClientInfo}
use localsend_switchboard.Std.Channel.{done}
use localsend_switchboard.Prelude.Assoc
use localsend_switchboard.Services.SwitchLounge.{
  Store, SwitchLounge, WriteResult, written, closed_error, inconsistent, full_error, write, load,
  second,
}
use localsend_switchboard.Services.SwitchLounge.Inv.{Inv, write_id-Inv}
use localsend_switchboard.Services.LocalClientLounge.{LocalClientLounge}
use localsend_switchboard.Services.LocalClientLounge
use localsend_switchboard.Services.SwitchCore.{
  Core, Event, from_multicast, from_tcp, add_client, after_write, on_event, core_loop,
}
use localsend_switchboard.Utils.Switch.{get_discovery_id, switch_message_to_local_send_client_info}

-- The pointer of the event leads to a message with a payload.
abbrev pub HasPayload : Store → Event → Type 0
HasPayload store (from_multicast now msg) = (p : DiscoveryMessage) × (load store msg ≡ done p)
HasPayload store (from_tcp now msg) = (p : DiscoveryMessage) × (load store msg ≡ done p)

pub write-Inv :
    (now : ℕ) (store : Store) (msg : ℕ) (p : DiscoveryMessage) (sl : SwitchLounge)
    → load store msg ≡ done p
    → Inv sl
    → (r : WriteResult) × (sl' : SwitchLounge) × (write now store msg sl ≡ done (r, sl')) × Inv sl'
unfolding write
write-Inv now store msg p sl e v =
    let (r, sl', w, _, v') = write_id-Inv now (get_discovery_id p) msg sl v in (r, sl', rw e w, v')

pub after_write-lounge :
    (now lifetime : ℕ) (store : Store) (msg : ℕ) (clients : LocalClientLounge) (r : WriteResult)
    (sl : SwitchLounge)
    → (after_write now lifetime store msg clients (r, sl)).lounge ≡ sl
unfolding after_write
after_write-lounge now lifetime store msg clients written sl = refl
after_write-lounge now lifetime store msg clients closed_error sl = refl
after_write-lounge now lifetime store msg clients inconsistent sl = refl
after_write-lounge now lifetime store msg clients full_error sl = refl

abbrev pub entry : ℕ → LocalClientLounge → Option LocalClientLounge.LocalClientInfoWithTtl
entry port clients = Assoc.get? ℕ_discrete port clients.client_infos

-- A message that names no client at the port.
abbrev pub IsApart : ℕ → Option SwitchMessage → Type 0
IsApart port none = Unit
IsApart port (some m) = elim (switch_message_to_local_send_client_info m) [
  | none ↦ Unit
  | some info ↦ info.port ≢ port
]

-- Every message of this host among the events names another port; those of the peers are free.
abbrev pub IsElsewhere : ℕ → Store → Event → Type 0
IsElsewhere port store (from_multicast now msg) = IsApart port (get_elem? store msg)
IsElsewhere port store (from_tcp now msg) = Unit

add-entry :
    (now lifetime port : ℕ) (info : LocalSendClientInfo) (clients : LocalClientLounge)
    → info.port ≢ port
    → entry port (LocalClientLounge.add now lifetime info clients) ≡ entry port clients
unfolding LocalClientLounge.add
add-entry now lifetime port info clients h = elim (Bool-cases clients.closed) [
  | inl e ↦ rw e refl
  | inr e ↦ rw e (
      ground (
        arith,
        Assoc.get?-put ℕ_discrete info.port port
            (record { info = info; expire_at = now + lifetime * second }) clients.client_infos,
      ))
]

add_client_other :
    (now lifetime port : ℕ) (m : Option SwitchMessage) (clients : LocalClientLounge)
    → IsApart port m
    → entry port (add_client now lifetime m clients) ≡ entry port clients
unfolding add_client
add_client_other now lifetime port none clients h = refl
add_client_other now lifetime port (some m) clients h =
    elim (Option-cases (switch_message_to_local_send_client_info m)) [
      | inl e ↦ rw (e, add_client) refl
      | inr (info, e) ↦
          rw (e, add_client) (add-entry now lifetime port info clients (rw (e, IsApart) at h))
    ]

after_write_other :
    (now lifetime port msg : ℕ) (store : Store) (clients : LocalClientLounge) (r : WriteResult)
    (sl : SwitchLounge)
    → IsApart port (get_elem? store msg)
    → entry port (after_write now lifetime store msg clients (r, sl)).clients ≡ entry port clients
unfolding after_write
after_write_other now lifetime port msg store clients written sl h =
    add_client_other now lifetime port (get_elem? store msg) clients h
after_write_other now lifetime port msg store clients closed_error sl h = refl
after_write_other now lifetime port msg store clients inconsistent sl h = refl
after_write_other now lifetime port msg store clients full_error sl h = refl

on_event-Inv :
    (lifetime : ℕ) (store : Store) (core : Core) (e : Event)
    → HasPayload store e
    → Inv core.lounge
    → (core' : Core) × (on_event lifetime store core e ≡ done core')
      × Inv core'.lounge
      × ((port : ℕ) → IsElsewhere port store e → entry port core'.clients ≡ entry port core.clients)
unfolding on_event
on_event-Inv lifetime store core (from_tcp now msg) (p, l) v =
    let (r, sl', w, v') = write-Inv now store msg p core.lounge l v in
    (record { lounge = sl'; clients = core.clients }, rw w refl, v', λ port h. refl)
on_event-Inv lifetime store core (from_multicast now msg) (p, l) v =
    let (r, sl', w, v') = write-Inv now store msg p core.lounge l v in
    (
      after_write now lifetime store msg core.clients (r, sl'),
      rw w refl,
      rw (after_write-lounge now lifetime store msg core.clients r sl') v',
      λ port h. after_write_other now lifetime port msg store core.clients r sl' h,
    )

core_loop_lem :
    (lifetime : ℕ) (store : Store) (core : Core) (events : List Event)
    → All (HasPayload store) events
    → Inv core.lounge
    → (core' : Core) × (core_loop lifetime store core events ≡ done core')
      × Inv core'.lounge
      × ((port : ℕ)
          → All (IsElsewhere port store) events
          → entry port core'.clients ≡ entry port core.clients)
unfolding core_loop
core_loop_lem lifetime store core [] h v = (core, refl, v, λ port o. refl)
core_loop_lem lifetime store core (e ∷ events) h v =
    let (core', one, v', same) = on_event-Inv lifetime store core e h.0 v in
    let (core'', rest, v'', same') = core_loop_lem lifetime store core' events h.1 v' in
    (core'', rw one rest, v'', λ port o. same' port o.1 ∙ same port o.0)

-- On messages with a payload the loop handles every event without a panic or a wait, whatever the
-- order, and keeps the invariant of the waiting room.
pub core_loop-Inv :
    (lifetime : ℕ) (store : Store) (core : Core) (events : List Event)
    → All (HasPayload store) events
    → Inv core.lounge
    → (core' : Core) × (core_loop lifetime store core events ≡ done core') × Inv core'.lounge
core_loop-Inv lifetime store core events h v =
    let (core', e, v', _) = core_loop_lem lifetime store core events h v in (core', e, v')

-- On messages with a payload the entry of a port changes only by the messages of this host that name
-- the port, never by those of the peers.
pub core_loop_keeps :
    (lifetime port : ℕ) (store : Store) (core : Core) (events : List Event)
    → All (HasPayload store) events
    → Inv core.lounge
    → All (IsElsewhere port store) events
    → (core' : Core) × (core_loop lifetime store core events ≡ done core')
      × (entry port core'.clients ≡ entry port core.clients)
core_loop_keeps lifetime port store core events h v o =
    let (core', e, _, same) = core_loop_lem lifetime store core events h v in
    (core', e, same port o)
