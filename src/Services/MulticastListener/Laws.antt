-- ===== src/Services/MulticastListener/Laws.antt =====
-- The messages that the listener passes on are this node's own, and have identifiers of their own.
use localsend_switchboard.Prelude.{
  ℕ, suc, ◌+◌, ◌^◌, ◌<◌, ◌≡◌, ◌≢◌, refl, Option, none, some, List, [], ◌∷◌, arith, Bytes, length,
  All, inl, inr, ◌⊎◌, Option-cases, Bool-cases,
}
use localsend_switchboard.Entities.{DiscoveryMessage, SwitchMessage}
use localsend_switchboard.Services.MulticastListener.{
  Listener, Read, no_deadline, times_out, fails, interrupted, datagram, stamped, receive_datagram,
  listen_loop,
}
use localsend_switchboard.Services.ProactiveBroadcaster.{next_seq}
use localsend_switchboard.Std.Ip.{equal}
use localsend_switchboard.Utils.Switch.{get_discovery_id}
use localsend_switchboard.Utils.Switch.Ids.{get_discovery_id-eq_iff}

-- The messages have consecutive numbers from `lo` on, the node's identifier and the full TTL.
abbrev pub AreNumbered : Listener → ℕ → List SwitchMessage → Type 0
AreNumbered l lo [] = Unit
AreNumbered l lo (m ∷ ms) =
    (p : DiscoveryMessage) × (m.payload ≡ some p)
    × (p.switch_id ≡ l.node_id)
    × (p.discovery_seq ≡ lo)
    × (p.discovery_ttl ≡ 255)
    × AreNumbered l (suc lo) ms

-- A datagram is passed over, or becomes a message.
pub taken :
    (l : Listener) (ip addr bytes : Bytes) (seq : ℕ)
    → (receive_datagram l ip addr bytes seq ≡ (none, seq))
      ⊎ ((m : DiscoveryMessage) × (receive_datagram l ip addr bytes seq
            ≡ (some (stamped l seq ip addr m), next_seq seq)))
unfolding receive_datagram
taken l ip addr bytes seq = elim (Option-cases (l.unmarshal bytes)) [
  | inl e ↦ inl (ground arith)
  | inr (m, e) ↦ elim (Bool-cases (equal ip l.self_ip)) [
    | inl own ↦ inr (m, ground arith)
    | inr other ↦ inl (ground arith)
  ]
]

-- The messages of a run carry the node's identifier, the full TTL, and consecutive numbers, as long
-- as the counter of 64 bits does not wrap.
pub listen_loop-AreNumbered :
    (l : Listener) (rs : List Read) (seq : ℕ)
    → seq + length rs < 2 ^ 64
    → AreNumbered l seq (listen_loop l rs seq).0
unfolding listen_loop
listen_loop-AreNumbered l [] seq h = tt
listen_loop-AreNumbered l (no_deadline ∷ rs) seq h = tt
listen_loop-AreNumbered l (times_out ∷ rs) seq h = listen_loop-AreNumbered l rs seq (omega arith)
listen_loop-AreNumbered l (fails ∷ rs) seq h = tt
listen_loop-AreNumbered l (interrupted ∷ rs) seq h = tt
listen_loop-AreNumbered l (datagram ip addr bytes ∷ rs) seq h = elim (taken l ip addr bytes seq) [
  | inl e ↦ rw e (listen_loop-AreNumbered l rs seq (omega arith))
  | inr (m, e) ↦
      let next : next_seq seq ≡ suc seq = omega arith in
      rw (e, next) (_, refl, refl, refl, refl, listen_loop-AreNumbered l rs (suc seq) (omega arith))
]

-- What identifies a message in the waiting room.
abbrev pub id_of : SwitchMessage → Option Bytes
id_of m = elim m.payload [ none ↦ none | some p ↦ some (get_discovery_id p) ]

abbrev pub NoRepeat : List SwitchMessage → Type 0
NoRepeat [] = Unit
NoRepeat (m ∷ ms) = All (λ n. id_of m ≢ id_of n) ms × NoRepeat ms

later_ids :
    (l : Listener) (m : SwitchMessage) (p : DiscoveryMessage) (lo : ℕ) (ms : List SwitchMessage)
    → m.payload ≡ some p
    → p.discovery_seq < lo
    → AreNumbered l lo ms
    → All (λ n. id_of m ≢ id_of n) ms
later_ids l m p lo [] e b ns = tt
later_ids l m p lo (n ∷ ms) e b (q, eq, _, at, _, ns) = (
  λ same.
      let ids : get_discovery_id p ≡ get_discovery_id q = ground arith in
      absurd (omega (arith, ((get_discovery_id-eq_iff p q).0 ids).1)),
  later_ids l m p (suc lo) ms e (omega arith) ns,
)

pub AreNumbered-NoRepeat :
    (l : Listener) (lo : ℕ) (ms : List SwitchMessage) → AreNumbered l lo ms → NoRepeat ms
AreNumbered-NoRepeat l lo [] ns = tt
AreNumbered-NoRepeat l lo (m ∷ ms) (p, e, _, at, _, ns) =
    (later_ids l m p (suc lo) ms e (omega arith) ns, AreNumbered-NoRepeat l (suc lo) ms ns)

-- As long as the counter of 64 bits does not wrap, no two messages of a run have one identifier.
pub listen_loop-NoRepeat :
    (l : Listener) (rs : List Read) (seq : ℕ)
    → seq + length rs < 2 ^ 64
    → NoRepeat (listen_loop l rs seq).0
listen_loop-NoRepeat l rs seq h =
    AreNumbered-NoRepeat l seq (listen_loop l rs seq).0 (listen_loop-AreNumbered l rs seq h)
