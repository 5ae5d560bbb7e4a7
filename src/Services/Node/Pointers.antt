-- ===== src/Services/Node/Pointers.antt =====
-- What the acts of a node keep: pointers lead to messages, and open channels stay open.
use localsend_switchboard.Prelude.{
  ℕ, ◌≡◌, refl, sym, ◌∙◌, subst, ◌⊎◌, inl, inr, false, some, List, [], ◌∷◌, ◌++◌, arith, leb, Bytes,
  ℕ_discrete, length, get_elem?, set, All, Bool-cases, Option-cases, get_elem?-snoc,
  get_elem?-set_self, get_elem?-set_other, dec_lt,
}
use localsend_switchboard.Entities.{DiscoveryMessage, SwitchMessage}
use localsend_switchboard.Std.Channel.{done, blocked, Channel, send-done, send-blocked}
use localsend_switchboard.Services.SwitchLounge.{Store, load}
use localsend_switchboard.Services.TcpConnectionHub.{ConnWithChan, TcpConnectionHub, send_on}
use localsend_switchboard.Services.TcpConnectionHub.Inv.{IsOpen, IsEntry, Inv}
use localsend_switchboard.Services.PassiveForwarder.{decrement, with_ttl, put_ttl, forward_one}
use localsend_switchboard.Configs.{tcp_socket_send_chan_size}
use localsend_switchboard.Services.Node.{drain}

-- The pointer leads to a message with a payload.
abbrev pub HasMessage : Store → ℕ → Type 0
HasMessage store msg =
    (m : SwitchMessage) × (p : DiscoveryMessage) × (get_elem? store msg ≡ some m)
    × (m.payload ≡ some p)

pub HasMessage-load :
    (store : Store) (msg : ℕ)
    → HasMessage store msg
    → (p : DiscoveryMessage) × (load store msg ≡ done p)
unfolding load
HasMessage-load store msg (m, p, e, f) = (p, ground arith)

-- Pointers that lead to a message in one store do so in the other.
abbrev pub KeepsMessages : Store → Store → Type 0
KeepsMessages store store' = (msg : ℕ) → HasMessage store msg → HasMessage store' msg

pub KeepsMessages-snoc : (store : Store) (m : SwitchMessage) → KeepsMessages store (store ++ m ∷ [])
KeepsMessages-snoc store m msg (x, p, e, f) = (x, p, get_elem?-snoc store m x msg e, f)

pub KeepsMessages-put_ttl :
    (store : Store) (msg ttl : ℕ) → KeepsMessages store (put_ttl store msg ttl)
unfolding put_ttl
KeepsMessages-put_ttl store msg ttl k (x, p, e, f) = elim (Option-cases (get_elem? store msg)) [
  | inl g ↦ rw (g, put_ttl) (x, p, e, f)
  | inr (y, g) ↦ elim (ℕ_discrete k msg) [
    | no other ↦
        rw (g, put_ttl) (x, p, get_elem?-set_other store msg k (with_ttl ttl y) other ∙ e, f)
    | yes same ↦
        let own : y ≡ x = cc (sym g, subst (λ j. get_elem? store j ≡ some x) same e) in
        rw (g, put_ttl)
          (
            with_ttl ttl y,
            record p { discovery_ttl = ttl },
            subst (λ j. get_elem? (set store msg (with_ttl ttl y)) j ≡ some (with_ttl ttl y))
                (sym same) (get_elem?-set_self store msg (with_ttl ttl y) y g),
            ground (arith, own, f),
          )
  ]
]

abbrev pub KeepsOpen : List (Channel ℕ) → List (Channel ℕ) → Type 0
KeepsOpen chans chans' = (c : ℕ) → IsOpen chans c → IsOpen chans' c

pub KeepsOpen-snoc :
    (chans : List (Channel ℕ)) (ch : Channel ℕ) → KeepsOpen chans (chans ++ ch ∷ [])
KeepsOpen-snoc chans ch c (x, e, live, size) = (x, get_elem?-snoc chans ch x c e, live, size)

-- A channel with another buffer is as open as before.
KeepsOpen-set :
    (chans : List (Channel ℕ)) (c : ℕ) (ch : Channel ℕ) (ms : List ℕ)
    → get_elem? chans c ≡ some ch
    → KeepsOpen chans (set chans c (record ch { buffer = ms }))
KeepsOpen-set chans c ch ms e d (x, f, live, size) = elim (ℕ_discrete d c) [
  | no other ↦ (x, get_elem?-set_other chans c d (record ch { buffer = ms }) other ∙ f, live, size)
  | yes same ↦
      let own : x ≡ ch = cc (f, e, same) in
      (
        record ch { buffer = ms },
        subst
            (λ j.
              get_elem? (set chans c (record ch { buffer = ms })) j
              ≡ some (record ch { buffer = ms }))
            (sym same) (get_elem?-set_self chans c (record ch { buffer = ms }) ch e),
        subst (λ (y : Channel ℕ). y.is_closed ≡ false) own live,
        subst (λ (y : Channel ℕ). y.capacity ≡ tcp_socket_send_chan_size) own size,
      )
]

-- A send to an open channel waits, or succeeds and keeps every open channel open.
pub send_on-KeepsOpen :
    (chans : List (Channel ℕ)) (c msg : ℕ)
    → IsOpen chans c
    → (send_on chans c msg ≡ blocked)
      ⊎ ((chans' : List (Channel ℕ)) × (send_on chans c msg ≡ done chans') × KeepsOpen chans chans')
unfolding send_on
send_on-KeepsOpen chans c msg (ch, e, live, size) = elim (dec_lt (length ch.buffer) ch.capacity) [
  | yes room ↦
      let sent = send-done ch msg live room in
      inr (
        set chans c (record ch { buffer = ch.buffer ++ msg ∷ [] }),
        ground (arith, e, sent),
        KeepsOpen-set chans c ch (ch.buffer ++ msg ∷ []) e,
      )
  | no full ↦ let waits = send-blocked ch msg live (omega arith) in inl (ground (arith, e, waits))
]

-- A round of the forwarder waits, or keeps messages and open channels.
pub forward_one-keeps :
    (msg : ℕ) (c : ConnWithChan) (store : Store) (chans : List (Channel ℕ))
    → HasMessage store msg
    → IsOpen chans c.send_chan
    → (forward_one msg c (store, chans) ≡ blocked)
      ⊎ ((store' : Store) × (chans' : List (Channel ℕ)) × (forward_one msg c (store, chans)
            ≡ done (store', chans'))
          × KeepsMessages store store'
          × KeepsOpen chans chans')
unfolding forward_one
forward_one-keeps msg c store chans there live =
    let (p, e) = HasMessage-load store msg there in
    let ttl = decrement p.discovery_ttl in
    let kept = KeepsMessages-put_ttl store msg ttl in
    elim (Bool-cases (leb ttl 0)) [
      | inl spent ↦
          inr (put_ttl store msg ttl, chans, rw e (rw (spent, forward_one) refl), kept, λ d o. o)
      | inr alive ↦ elim (send_on-KeepsOpen chans c.send_chan msg live) [
        | inl waits ↦ inl (rw e (rw (alive, forward_one) (rw (waits, forward_one) refl)))
        | inr (chans', sent, open_) ↦ inr (
          put_ttl store msg ttl,
          chans',
          rw e (rw (alive, forward_one) (rw (sent, forward_one) refl)),
          kept,
          open_,
        )
      ]
    ]

pub drain-keeps :
    (c : ℕ) (chans : List (Channel ℕ))
    → (drain c chans ≡ blocked)
      ⊎ ((chans' : List (Channel ℕ)) × (drain c chans ≡ done chans') × KeepsOpen chans chans')
unfolding drain
drain-keeps c chans = elim (Option-cases (get_elem? chans c)) [
  | inl e ↦ inl (ground arith)
  | inr (ch, e) ↦ elim (List-cases ch.buffer) [
    | inl f ↦ inl (ground arith)
    | inr (m, ms, f) ↦ inr (
      set chans c (record ch { buffer = ms }),
      ground (arith, e, f),
      KeepsOpen-set chans c ch ms e,
    )
  ]
]
  where
    List-cases : (xs : List ℕ) → (xs ≡ []) ⊎ ((x : ℕ) × (ys : List ℕ) × (xs ≡ x ∷ ys))
    List-cases [] = inl refl
    List-cases (x ∷ ys) = inr (x, ys, refl)

-- The hub with other channels.
abbrev pub with_chans : List (Channel ℕ) → TcpConnectionHub → TcpConnectionHub
with_chans chans hub = record hub { chans = chans }

pub with_chans-Inv :
    (chans : List (Channel ℕ)) (hub : TcpConnectionHub)
    → KeepsOpen hub.chans chans
    → Inv hub
    → Inv (with_chans chans hub)
with_chans-Inv chans hub open_ v = record {
  is_map = v.is_map;
  bounded = v.bounded;
  entries = entries_keep hub.conns v.entries;
  distinct = v.distinct;
}
  where
    entries_keep :
        (m : List (Bytes × ConnWithChan)) → All (IsEntry hub.chans) m → All (IsEntry chans) m
    entries_keep [] h = tt
    entries_keep ((a, c) ∷ m) ((addr, o), h) = ((addr, open_ c.send_chan o), entries_keep m h)
