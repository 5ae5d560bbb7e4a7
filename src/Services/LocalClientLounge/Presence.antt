-- ===== src/Services/LocalClientLounge/Presence.antt =====
-- A client is listed from the time that it is added until its lifetime is over, and a client that is
-- probed in time stays listed.
use localsend_switchboard.Prelude.{
  ℕ, ◌+◌, ◌*◌, ◌≤◌, ◌≡◌, refl, false, Option, none, some, ite, List, [], ◌∷◌, arith, ltb,
  if◌then◌else◌, ℕ_discrete,
}
use localsend_switchboard.Prelude.Assoc
use localsend_switchboard.Entities.{LocalSendClientInfo}
use localsend_switchboard.Services.SwitchLounge.{second}
use localsend_switchboard.Services.LocalClientLounge.{
  LocalClientInfoWithTtl, LocalClientLounge, add, drop_expired, purge,
}

abbrev pub IsMap : LocalClientLounge → Type 0
IsMap lcl = Assoc.IsMap ℕ_discrete lcl.client_infos

-- The entry of a port, unless it has expired.
abbrev pub fresh : ℕ → Option LocalClientInfoWithTtl → Option LocalClientInfoWithTtl
fresh now none = none
fresh now (some c) = if ltb c.expire_at now then none else some c

get?-drop_expired :
    (now port : ℕ) (m : List (ℕ × LocalClientInfoWithTtl))
    → Assoc.IsMap ℕ_discrete m
    → Assoc.get? ℕ_discrete port (drop_expired now m) ≡ fresh now (Assoc.get? ℕ_discrete port m)
unfolding drop_expired Assoc.get?
get?-drop_expired now port [] u = refl
get?-drop_expired now port ((q, c) ∷ m) u = ground (arith, get?-drop_expired now port m u.1)

drop_expired-IsMap :
    (now : ℕ) (m : List (ℕ × LocalClientInfoWithTtl))
    → Assoc.IsMap ℕ_discrete m
    → Assoc.IsMap ℕ_discrete (drop_expired now m)
unfolding drop_expired
drop_expired-IsMap now [] u = tt
drop_expired-IsMap now ((q, c) ∷ m) u =
    ground (arith, drop_expired-IsMap now m u.1, get?-drop_expired now q m u.1)

-- What happens to an open lounge: Add at a time, or a tick of the cleaner.
pub data Op : Type 0 where
  adds : ℕ → LocalSendClientInfo → Op
  ticks : ℕ → Op

pub step : ℕ → LocalClientLounge → Op → LocalClientLounge
step lifetime lcl (adds now info) = add now lifetime info lcl
step lifetime lcl (ticks now) = purge now lcl

pub run : ℕ → LocalClientLounge → List Op → LocalClientLounge
run lifetime lcl [] = lcl
run lifetime lcl (op ∷ ops) = run lifetime (step lifetime lcl op) ops

-- After a tick exactly the entries that expire before it are gone; after Add the port has the new
-- information and expiry, and the other ports are as before.
pub step_lem :
    (lifetime : ℕ) (lcl : LocalClientLounge)
    → IsMap lcl
    → lcl.closed ≡ false
    → ((now port : ℕ)
        → Assoc.get? ℕ_discrete port (step lifetime lcl (ticks now)).client_infos
          ≡ fresh now (Assoc.get? ℕ_discrete port lcl.client_infos))
      × ((now port : ℕ) (info : LocalSendClientInfo)
          → Assoc.get? ℕ_discrete port (step lifetime lcl (adds now info)).client_infos
            ≡ ite
                (ℕ_discrete info.port port)
                (some (record { info = info; expire_at = now + lifetime * second }))
                (Assoc.get? ℕ_discrete port lcl.client_infos))
unfolding step add purge
step_lem lifetime lcl u live = (
  λ now port. get?-drop_expired now port lcl.client_infos u,
  λ now port info. rw live (Assoc.get?-put ℕ_discrete info.port port _ lcl.client_infos),
)

step_keeps :
    (lifetime : ℕ) (lcl : LocalClientLounge) (op : Op)
    → IsMap lcl
    → lcl.closed ≡ false
    → IsMap (step lifetime lcl op) × ((step lifetime lcl op).closed ≡ false)
unfolding step add purge
step_keeps lifetime lcl (adds now info) u live =
    rw live (Assoc.put-IsMap ℕ_discrete info.port _ lcl.client_infos u, refl)
step_keeps lifetime lcl (ticks now) u live = (drop_expired-IsMap now lcl.client_infos u, live)

-- At every tick of the history the last Add of the port is at most `lifetime` seconds back.
abbrev pub IsProbed : ℕ → ℕ → ℕ → List Op → Type 0
IsProbed lifetime port last [] = Unit
IsProbed lifetime port last (adds now info ∷ ops) =
    ite (ℕ_discrete info.port port) (IsProbed lifetime port now ops)
      (IsProbed lifetime port last ops)
IsProbed lifetime port last (ticks now ∷ ops) =
    (now ≤ last + lifetime * second) × IsProbed lifetime port last ops

-- The port has an entry that expires `lifetime` seconds after `last`.
abbrev pub IsListed : ℕ → ℕ → ℕ → LocalClientLounge → Type 0
IsListed lifetime port last lcl =
    (c : LocalClientInfoWithTtl) × (Assoc.get? ℕ_discrete port lcl.client_infos ≡ some c)
    × (c.expire_at ≡ last + lifetime * second)

-- In an open lounge, a listed client that is added again within its lifetime before every tick of the
-- cleaner stays listed.
pub run-IsListed :
    (lifetime port last : ℕ) (lcl : LocalClientLounge) (ops : List Op)
    → IsMap lcl
    → lcl.closed ≡ false
    → IsListed lifetime port last lcl
    → IsProbed lifetime port last ops
    → (t : ℕ) × IsListed lifetime port t (run lifetime lcl ops)
unfolding run
run-IsListed lifetime port last lcl [] u live listed h = (last, listed)
run-IsListed lifetime port last lcl (ticks now ∷ ops) u live (c, e, x) h =
    let (u', live') = step_keeps lifetime lcl (ticks now) u live in
    run-IsListed lifetime port last (step lifetime lcl (ticks now)) ops u' live'
      (c, ground (arith, (step_lem lifetime lcl u live).0 now port), x) h.1
run-IsListed lifetime port last lcl (adds now info ∷ ops) u live (c, e, x) h =
    let (u', live') = step_keeps lifetime lcl (adds now info) u live in
    let at = (step_lem lifetime lcl u live).1 now port info in
    elim (ℕ_discrete info.port port) [
      | yes p ↦
          run-IsListed lifetime port now (step lifetime lcl (adds now info)) ops u' live'
            (record { info = info; expire_at = now + lifetime * second }, ground (arith, at), refl)
            (ground arith)
      | no p ↦
          run-IsListed lifetime port last (step lifetime lcl (adds now info)) ops u' live'
            (c, ground (arith, at), x) (ground arith)
    ]
