-- ===== src/Services/TcpConnectionHub/Methods.antt =====
-- The methods of the hub keep its invariant and do to the map what they promise.
use mathlib.Core.Logic.{if_pos, if_neg}
use localsend_switchboard.Prelude.{
  ℕ, ◌≤◌, ◌<◌, ◌≡◌, refl, sym, subst, ◌≢◌, true, none, some, ite, List, [], ◌∷◌, ◌++◌, arith, Bytes,
  Bytes-discrete, length, set, All, Option-cases, inl, inr,
}
use localsend_switchboard.Prelude.Assoc
use localsend_switchboard.Configs.{max_tcp_connections, tcp_socket_send_chan_size}
use localsend_switchboard.Std.Channel.{Outcome, done, blocked, panicked, Channel}
use localsend_switchboard.Std.Channel
use localsend_switchboard.Services.TcpConnectionHub.{
  TcpConn, ConnWithChan, TcpConnectionHub, added, already_exists, maximum_reached,
  new_tcp_connection_hub, add_connection, remove_connection,
}
use localsend_switchboard.Services.TcpConnectionHub.Inv.{
  IsEntry, IsFree, AreDistinct, Inv, entries-append, new-IsFree, entries-set, get_elem?-last,
}

abbrev Conns : Type 0
Conns = List (Bytes × ConnWithChan)

module _ (P : Bytes × ConnWithChan → Type 0) where
  All-put :
      (a : Bytes) (c : ConnWithChan) (m : Conns)
      → P (a, c)
      → All P m
      → All P (Assoc.put Bytes-discrete a c m)
  unfolding Assoc.put
  All-put a c [] p h = (p, tt)
  All-put a c ((b, d) ∷ m) p h = ground (arith, All-put a c m p h.1)

  All-delete : (a : Bytes) (m : Conns) → All P m → All P (Assoc.delete Bytes-discrete a m)
  unfolding Assoc.delete
  All-delete a [] h = tt
  All-delete a ((b, d) ∷ m) h = ground (arith, All-delete a m h.1)

  pub All-get? :
      (a : Bytes) (c : ConnWithChan) (m : Conns)
      → All P m
      → Assoc.get? Bytes-discrete a m ≡ some c
      → P (a, c)
  unfolding Assoc.get?
  All-get? a c [] h e = absurd (ground arith)
  All-get? a c ((b, d) ∷ m) (p, h) e = elim (Bytes-discrete b a) [
    | yes same ↦
        let value : d ≡ c = ground arith in
        subst (λ k. P (k, c)) same (subst (λ v. P (b, v)) value p)
    | no other ↦ All-get? a c m h (ground arith)
  ]

AreDistinct-put :
    (a : Bytes) (c : ConnWithChan) (m : Conns)
    → Assoc.get? Bytes-discrete a m ≡ none
    → IsFree c.send_chan m
    → AreDistinct m
    → AreDistinct (Assoc.put Bytes-discrete a c m)
unfolding Assoc.put Assoc.get?
AreDistinct-put a c [] new f d = (tt, tt)
AreDistinct-put a c ((b, x) ∷ m) new (other, f) (free, d) = elim (Bytes-discrete b a) [
  | yes same ↦ absurd (ground arith)
  | no differ ↦ rw (if_neg _ differ) (
    All-put (λ e. e.1.send_chan ≢ x.send_chan) a c m (λ e. other (sym e)) free,
    AreDistinct-put a c m (ground arith) f d,
  )
]

AreDistinct-delete :
    (a : Bytes) (m : Conns) → AreDistinct m → AreDistinct (Assoc.delete Bytes-discrete a m)
unfolding Assoc.delete
AreDistinct-delete a [] d = tt
AreDistinct-delete a ((b, x) ∷ m) (free, d) =
    ground (arith, AreDistinct-delete a m d, All-delete (λ e. e.1.send_chan ≢ x.send_chan) a m free)

-- The channel of a deleted entry is free.
delete-IsFree :
    (a : Bytes) (c : ConnWithChan) (m : Conns)
    → Assoc.IsMap Bytes-discrete m
    → AreDistinct m
    → Assoc.get? Bytes-discrete a m ≡ some c
    → IsFree c.send_chan (Assoc.delete Bytes-discrete a m)
unfolding Assoc.delete Assoc.get?
delete-IsFree a c [] u d e = tt
delete-IsFree a c ((b, x) ∷ m) (new, u) (free, d) e = elim (Bytes-discrete b a) [
  | yes same ↦
      let gone : Assoc.get? Bytes-discrete a m ≡ none =
        subst (λ k. Assoc.get? Bytes-discrete k m ≡ none) same new in
      let value : x ≡ c = ground arith in
      rw (if_pos _ same, Assoc.delete_absent Bytes-discrete a m gone)
        (subst (λ v. IsFree v.send_chan m) value free)
  | no differ ↦
      let there : Assoc.get? Bytes-discrete a m ≡ some c = ground arith in
      let other = All-get? (λ y. y.1.send_chan ≢ x.send_chan) a c m free there in
      rw (if_neg _ differ) (λ same. other (sym same), delete-IsFree a c m u d there)
]

pub new-Inv : Inv new_tcp_connection_hub
unfolding new_tcp_connection_hub
new-Inv = record { is_map = tt; bounded = omega arith; entries = tt; distinct = tt }

-- AddConnection: a registered address and a full hub are refused and nothing changes; else the
-- connection stands under its address with a new open channel, and the rest of the map is as before.
pub add_connection_lem :
    (conn : TcpConn) (hub : TcpConnectionHub)
    → Inv hub
    → ((cwc : ConnWithChan)
        → Assoc.get? Bytes-discrete conn.remote_addr hub.conns ≡ some cwc
        → add_connection conn hub ≡ (already_exists, hub))
      × (Assoc.get? Bytes-discrete conn.remote_addr hub.conns ≡ none
          → max_tcp_connections ≤ length hub.conns
          → add_connection conn hub ≡ (maximum_reached, hub))
      × (Assoc.get? Bytes-discrete conn.remote_addr hub.conns ≡ none
          → length hub.conns < max_tcp_connections
          → (c : ℕ) × (hub' : TcpConnectionHub) × (add_connection conn hub ≡ (added c, hub'))
            × Inv hub'
            × ((a : Bytes)
                → Assoc.get? Bytes-discrete a hub'.conns
                  ≡ ite
                      (Bytes-discrete conn.remote_addr a)
                      (some (record { conn = conn; send_chan = c }))
                      (Assoc.get? Bytes-discrete a hub.conns)))
unfolding add_connection
add_connection_lem conn hub v = (
  λ cwc known. ground arith,
  λ new full. ground arith,
  λ new room.
      let cwc : ConnWithChan = record { conn = conn; send_chan = length hub.chans } in
      let ch : Channel ℕ = Channel.make tcp_socket_send_chan_size in
      (
        length hub.chans,
        record hub {
          conns = Assoc.put Bytes-discrete conn.remote_addr cwc hub.conns;
          chans = hub.chans ++ ch ∷ [];
        },
        ground arith,
        record {
          is_map = Assoc.put-IsMap Bytes-discrete conn.remote_addr cwc hub.conns v.is_map;
          bounded =
              omega (arith, Assoc.length-put-le Bytes-discrete conn.remote_addr cwc hub.conns);
          entries =
              All-put (IsEntry (hub.chans ++ ch ∷ [])) conn.remote_addr cwc hub.conns
                (refl, (ch, get_elem?-last hub.chans ch, refl, refl))
                (entries-append hub.chans ch hub.conns v.entries);
          distinct =
              AreDistinct-put conn.remote_addr cwc hub.conns new
                (new-IsFree hub.chans hub.conns v.entries) v.distinct;
        },
        λ a. Assoc.get?-put Bytes-discrete conn.remote_addr a cwc hub.conns,
      ),
)

-- AddConnection on a hub that is not full registers a new address: the connection stands under it
-- with a channel of its own, the other addresses are as before, and the invariant holds.
pub add_connection_registers :
    (conn : TcpConn) (hub : TcpConnectionHub)
    → Inv hub
    → Assoc.get? Bytes-discrete conn.remote_addr hub.conns ≡ none
    → length hub.conns < max_tcp_connections
    → (c : ℕ) × (hub' : TcpConnectionHub) × (add_connection conn hub ≡ (added c, hub'))
      × Inv hub'
      × ((a : Bytes)
          → Assoc.get? Bytes-discrete a hub'.conns
            ≡ ite
                (Bytes-discrete conn.remote_addr a)
                (some (record { conn = conn; send_chan = c }))
                (Assoc.get? Bytes-discrete a hub.conns))
add_connection_registers conn hub v new room = (add_connection_lem conn hub v).2 new room

-- RemoveConnection never panics; afterwards the address is not registered, every other address is
-- as before, and the invariant holds.
pub remove_connection_lem :
    (conn : TcpConn) (hub : TcpConnectionHub)
    → Inv hub
    → (hub' : TcpConnectionHub) × (remove_connection conn hub ≡ done hub')
      × Inv hub'
      × ((a : Bytes)
          → Assoc.get? Bytes-discrete a hub'.conns
            ≡ ite (Bytes-discrete conn.remote_addr a) none (Assoc.get? Bytes-discrete a hub.conns))
unfolding remove_connection Channel.close
remove_connection_lem conn hub v =
    elim (Option-cases (Assoc.get? Bytes-discrete conn.remote_addr hub.conns)) [
      | inl e ↦ (hub, ground arith, v, λ a. ground arith)
      | inr (cwc, e) ↦
          let (addr, (ch, at, live, size)) =
            All-get? (IsEntry hub.chans) conn.remote_addr cwc hub.conns v.entries e in
          let free = delete-IsFree conn.remote_addr cwc hub.conns v.is_map v.distinct e in
          (
            record {
              conns = Assoc.delete Bytes-discrete conn.remote_addr hub.conns;
              chans = set hub.chans cwc.send_chan (record ch { is_closed = true });
              closed_sockets = cwc.conn.socket ∷ hub.closed_sockets;
            },
            ground arith,
            record {
              is_map = Assoc.delete-IsMap Bytes-discrete conn.remote_addr hub.conns v.is_map;
              bounded =
                  omega (arith, Assoc.length-delete-le Bytes-discrete conn.remote_addr hub.conns);
              entries =
                  entries-set hub.chans cwc.send_chan (record ch { is_closed = true })
                    (Assoc.delete Bytes-discrete conn.remote_addr hub.conns) free
                    (All-delete (IsEntry hub.chans) conn.remote_addr hub.conns v.entries);
              distinct = AreDistinct-delete conn.remote_addr hub.conns v.distinct;
            },
            λ a. Assoc.get?-delete Bytes-discrete conn.remote_addr a hub.conns,
          )
    ]
