-- ===== src/Services/SwitchCore/Feed.antt =====
-- The listener feeds the waiting room: what it passes on, over all its restarts, is let in.
use mathlib.Core.List.{append_assoc}
use localsend_switchboard.Prelude.{
  ℕ, zero, suc, ◌+◌, ◌^◌, ◌≤◌, ◌<◌, ◌≡◌, ◌≢◌, refl, sym, ap, ◌∙◌, subst, inl, inr, false, none,
  some, List, [], ◌∷◌, ◌++◌, arith, leb, Bool-cases, Bytes, Bytes-discrete, length, length-append,
  get_elem?, All,
}
use localsend_switchboard.Prelude.Assoc
use localsend_switchboard.Configs.{switch_lounge_size, switch_id_cache_max_entries}
use localsend_switchboard.Entities.{DiscoveryMessage, SwitchMessage}
use localsend_switchboard.Std.Channel.{done}
use localsend_switchboard.Services.SwitchLounge.{
  Store, SwitchLounge, written, new_switch_lounge, load, write,
}
use localsend_switchboard.Services.SwitchLounge.Inv.{Inv, write_id-Inv, new-Inv}
use localsend_switchboard.Services.SwitchLounge.Write.{remembered, Accepted, write_id-Accepted}
use localsend_switchboard.Services.LocalClientLounge.{LocalClientLounge}
use localsend_switchboard.Services.MulticastListener.{Listener, Round, serve}
use localsend_switchboard.Services.MulticastListener.Laws.{
  AreNumbered, NoRepeat, id_of, AreNumbered-NoRepeat,
}
use localsend_switchboard.Services.MulticastListener.Rounds.{total, serve-AreNumbered}
use localsend_switchboard.Services.SwitchCore.{
  Core, Event, from_multicast, after_write, on_event, core_loop,
}
use localsend_switchboard.Services.SwitchCore.Loop.{after_write-lounge}
use localsend_switchboard.Utils.Switch.{get_discovery_id}

-- The events of the messages from the pointer `i` on, each at the time that a clock gives it.
abbrev pub events : (ℕ → ℕ) → ℕ → List SwitchMessage → List Event
events clock i [] = []
events clock i (m ∷ ms) = from_multicast (clock i) i ∷ events clock (suc i) ms

-- The pointers from `i` on, `n` of them.
abbrev pub pointers : ℕ → ℕ → List ℕ
pointers i zero = []
pointers i (suc n) = i ∷ pointers (suc i) n

-- The messages stand in the store from the pointer `i` on.
abbrev Stand : Store → ℕ → List SwitchMessage → Type 0
Stand store i [] = Unit
Stand store i (m ∷ ms) = (get_elem? store i ≡ some m) × Stand store (suc i) ms

abbrev ArePayloads : List SwitchMessage → Type 0
ArePayloads = All (λ m. (p : DiscoveryMessage) × (m.payload ≡ some p))

-- The waiting room does not know the message's identifier.
abbrev IsNew : SwitchLounge → SwitchMessage → Type 0
IsNew sl m =
    (p : DiscoveryMessage)
    → m.payload ≡ some p
    → Assoc.get? Bytes-discrete (get_discovery_id p) sl.forwarded_ids ≡ none

append_nil : (xs : List ℕ) → xs ++ [] ≡ xs
append_nil [] = refl
append_nil (x ∷ xs) = ap (◌∷◌ x) (append_nil xs)

still_new :
    (sl : SwitchLounge) (id j : Bytes)
    → id ≢ j
    → Assoc.get? Bytes-discrete j sl.forwarded_ids ≡ none
    → remembered sl id j ≡ none
still_new sl id j other new =
    elim (Bool-cases (leb switch_id_cache_max_entries (length sl.forwarded_ids))) [
      | inl full ↦ ground (arith, other, new, full)
      | inr roomy ↦ ground (arith, other, new, roomy)
    ]

All-IsNew :
    (sl sl' : SwitchLounge) (m : SwitchMessage) (p : DiscoveryMessage) (msg : ℕ)
    (ms : List SwitchMessage)
    → m.payload ≡ some p
    → Accepted (get_discovery_id p) msg sl sl'
    → All (λ n. id_of m ≢ id_of n) ms
    → All (IsNew sl) ms
    → All (IsNew sl') ms
All-IsNew sl sl' m p msg [] e a o h = tt
All-IsNew sl sl' m p msg (n ∷ ms) e a (o, os) (new, h) = (
  λ q f.
      let other : get_discovery_id p ≢ get_discovery_id q =
        λ same. o (ground (arith, e, f, same)) in
      a.ids (get_discovery_id q)
      ∙ still_new sl (get_discovery_id p) (get_discovery_id q) other (new q f),
  All-IsNew sl sl' m p msg ms e a os h,
)

-- A new message is let in.
event_new :
    (lifetime now i : ℕ) (store : Store) (core : Core) (m : SwitchMessage) (p : DiscoveryMessage)
    → get_elem? store i ≡ some m
    → m.payload ≡ some p
    → Inv core.lounge
    → core.lounge.closed ≡ false
    → IsNew core.lounge m
    → length core.lounge.lounge.buffer < switch_lounge_size
    → (core' : Core) × (on_event lifetime store core (from_multicast now i) ≡ done core')
      × Inv core'.lounge
      × Accepted (get_discovery_id p) i core.lounge core'.lounge
unfolding on_event write
event_new lifetime now i store core m p at e v live new room =
    let loaded : load store i ≡ done p = unfold load in ground (arith, at, e) in
    let (sl', w, a) =
      write_id-Accepted now (get_discovery_id p) i core.lounge v live (new p e)
        (omega (arith, room, v.size)) in
    let (r, sl'', w', _, v') = write_id-Inv now (get_discovery_id p) i core.lounge v in
    let same : sl'' ≡ sl' = cc (w, w') in
    let core' = after_write now lifetime store i core.clients (written, sl') in
    let kept = after_write-lounge now lifetime store i core.clients written sl' in
    (
      core',
      rw loaded (rw (w, on_event) refl),
      subst Inv (same ∙ sym kept) v',
      subst (Accepted (get_discovery_id p) i core.lounge) (sym kept) a,
    )

core_loop_new :
    (lifetime : ℕ) (clock : ℕ → ℕ) (i : ℕ) (store : Store) (core : Core) (ms : List SwitchMessage)
    → Stand store i ms
    → ArePayloads ms
    → NoRepeat ms
    → Inv core.lounge
    → core.lounge.closed ≡ false
    → All (IsNew core.lounge) ms
    → length core.lounge.lounge.buffer + length ms ≤ switch_lounge_size
    → (core' : Core) × (core_loop lifetime store core (events clock i ms) ≡ done core')
      × (core'.lounge.lounge.buffer ≡ core.lounge.lounge.buffer ++ pointers i (length ms))
unfolding core_loop
core_loop_new lifetime clock i store core [] st ps nr v live new room =
    (core, refl, sym (append_nil core.lounge.lounge.buffer))
core_loop_new lifetime clock i store core (m ∷ ms) (at, st) ((p, e), ps) (o, nr) v live (n, new)
      room =
    let (core', one, v', a) =
      event_new lifetime (clock i) i store core m p at e v live n (omega arith) in
    let size = ap length a.queued ∙ length-append core.lounge.lounge.buffer (i ∷ []) in
    let (core'', rest, queue) =
      core_loop_new lifetime clock (suc i) store core' ms st ps nr v' (a.still ∙ live)
        (All-IsNew core.lounge core'.lounge m p i ms e a o new) (omega (arith, size, room)) in
    (
      core'',
      rw one rest,
      queue
          ∙ ap (λ b. b ++ pointers (suc i) (length ms)) a.queued
          ∙ append_assoc core.lounge.lounge.buffer (i ∷ []) (pointers (suc i) (length ms)),
    )

AreNumbered-ArePayloads :
    (l : Listener) (lo : ℕ) (ms : List SwitchMessage) → AreNumbered l lo ms → ArePayloads ms
AreNumbered-ArePayloads l lo [] h = tt
AreNumbered-ArePayloads l lo (m ∷ ms) (p, e, _, _, _, h) =
    ((p, e), AreNumbered-ArePayloads l (suc lo) ms h)

all-Stand : (before ms : List SwitchMessage) → Stand (before ++ ms) (length before) ms
all-Stand before [] = tt
all-Stand before (m ∷ ms) = (
  here before,
  subst (λ s. Stand s (suc (length before)) ms) (append_assoc before (m ∷ []) ms)
      (subst (λ i. Stand ((before ++ m ∷ []) ++ ms) i ms)
        (length-append before (m ∷ []) ∙ plus_one (length before))
        (all-Stand (before ++ m ∷ []) ms)),
)
  where
    here : (xs : List SwitchMessage) → get_elem? (xs ++ m ∷ ms) (length xs) ≡ some m
    here [] = refl
    here (x ∷ xs) = here xs

    plus_one : (n : ℕ) → n + 1 ≡ suc n
    plus_one n = omega arith

all-IsNew : (ms : List SwitchMessage) → All (IsNew new_switch_lounge) ms
unfolding new_switch_lounge Assoc.get?
all-IsNew [] = tt
all-IsNew (m ∷ ms) = (λ p e. refl, all-IsNew ms)

-- As long as the counter of 64 bits does not wrap and there are no more than the waiting room holds, a
-- new waiting room lets in every message that the listener passes on over all its restarts, whatever
-- the times: they wait in the order in which they came.
pub serve-core_loop :
    {S : Type 0} (l : Listener) (network : Bytes) (rs : List (Round S)) (seq lifetime : ℕ)
    (clock : ℕ → ℕ) (clients : LocalClientLounge)
    → seq + total rs < 2 ^ 64
    → length (serve l network rs seq).0 ≤ switch_lounge_size
    → (core : Core) × (core_loop lifetime
          (serve l network rs seq).0
          (record { lounge = new_switch_lounge; clients = clients })
          (events clock 0 (serve l network rs seq).0)
        ≡ done core)
      × (core.lounge.lounge.buffer ≡ pointers 0 (length (serve l network rs seq).0))
serve-core_loop l network rs seq lifetime clock clients few size =
    let ms = (serve l network rs seq).0 in
    let numbered = serve-AreNumbered l network rs seq few in
    let (core, e, queue) =
      core_loop_new lifetime clock 0 ms (record { lounge = new_switch_lounge; clients = clients })
        ms (all-Stand [] ms) (AreNumbered-ArePayloads l seq ms numbered)
        (AreNumbered-NoRepeat l seq ms numbered) new-Inv open_new (all-IsNew ms) (fits ms size) in
    (core, e, queue ∙ waits_new (length ms))
  where
    open_new : new_switch_lounge.closed ≡ false
    open_new = unfold new_switch_lounge in refl

    fits :
        (ms : List SwitchMessage)
        → length ms ≤ switch_lounge_size
        → length new_switch_lounge.lounge.buffer + length ms ≤ switch_lounge_size
    fits ms h = unfold new_switch_lounge in omega arith

    waits_new : (n : ℕ) → new_switch_lounge.lounge.buffer ++ pointers 0 n ≡ pointers 0 n
    waits_new n = unfold new_switch_lounge in refl
