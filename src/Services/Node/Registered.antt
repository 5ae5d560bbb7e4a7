-- ===== src/Services/Node/Registered.antt =====
-- The connections that the forwarder has still to serve are registered, and so have open channels.
use mathlib.Core.Logic.{if_pos, if_neg}
use localsend_switchboard.Prelude.{
  ◌≡◌, ◌≢◌, refl, sym, ◌∙◌, subst, inl, inr, Option, none, some, List, [], ◌∷◌, map, arith, Bytes,
  Bytes-discrete, length, All, Option-cases, dec_lt, ite,
}
use localsend_switchboard.Prelude.Assoc
use localsend_switchboard.Configs.{max_tcp_connections}
use localsend_switchboard.Std.Channel.{done}
use localsend_switchboard.Services.TcpConnectionHub.{
  TcpConn, ConnWithChan, TcpConnectionHub, except, get_connections_except, add_connection,
  remove_connection,
}
use localsend_switchboard.Services.TcpConnectionHub.Inv.{IsOpen, IsEntry, Inv}
use localsend_switchboard.Services.TcpConnectionHub.Methods.{
  All-get?, add_connection_lem, remove_connection_lem,
}

abbrev Conns : Type 0
Conns = List (Bytes × ConnWithChan)

-- The connection stands under its address.
abbrev pub IsRegistered : TcpConnectionHub → ConnWithChan → Type 0
IsRegistered hub c = Assoc.get? Bytes-discrete c.conn.remote_addr hub.conns ≡ some c

pub IsRegistered-IsOpen :
    (hub : TcpConnectionHub) (c : ConnWithChan)
    → Inv hub
    → IsRegistered hub c
    → IsOpen hub.chans c.send_chan
IsRegistered-IsOpen hub c v at =
    (All-get? (IsEntry hub.chans) c.conn.remote_addr c hub.conns v.entries at).1

none_other : {x : ConnWithChan} → some x ≡ none → ⊥
none_other e = absurd (cc e)

-- An entry as its own connection.
abbrev Own : Conns → Bytes × ConnWithChan → Type 0
Own m (a, c) = (c.conn.remote_addr ≡ a) × (Assoc.get? Bytes-discrete c.conn.remote_addr m ≡ some c)

Own-cons :
    (k : Bytes) (v : ConnWithChan) (m xs : Conns)
    → Assoc.get? Bytes-discrete k m ≡ none
    → All (Own m) xs
    → All (Own ((k, v) ∷ m)) xs
unfolding Assoc.get?
Own-cons k v m [] new h = tt
Own-cons k v m ((a, c) ∷ xs) new ((own, at), h) =
    let other : k ≢ c.conn.remote_addr =
      λ same. none_other (sym at ∙ subst (λ j. Assoc.get? Bytes-discrete j m ≡ none) same new) in
    ((own, rw (if_neg _ other) at), Own-cons k v m xs new h)

conns-Own :
    (hub : TcpConnectionHub) (m : Conns)
    → Assoc.IsMap Bytes-discrete m
    → All (IsEntry hub.chans) m
    → All (Own m) m
unfolding Assoc.get?
conns-Own hub [] u h = tt
conns-Own hub ((a, c) ∷ m) (new, u) ((own, _), h) =
    ((own, rw (if_pos _ (sym own)) refl), Own-cons a c m m new (conns-Own hub m u h))

-- What the hub gives out is registered.
pub get_connections_except-IsRegistered :
    (addr : Option Bytes) (hub : TcpConnectionHub)
    → Inv hub
    → All (IsRegistered hub) (get_connections_except addr hub)
unfolding get_connections_except except
get_connections_except-IsRegistered none hub v =
    all hub.conns (conns-Own hub hub.conns v.is_map v.entries)
  where
    all : (m : Conns) → All (Own hub.conns) m → All (IsRegistered hub) (map (λ e. e.1) m)
    all [] h = tt
    all ((a, c) ∷ m) ((_, at), h) = (at, all m h)
get_connections_except-IsRegistered (some addr) hub v =
    all hub.conns (conns-Own hub hub.conns v.is_map v.entries)
  where
    all : (m : Conns) → All (Own hub.conns) m → All (IsRegistered hub) (except addr m)
    all [] h = tt
    all ((a, c) ∷ m) ((_, at), h) = elim (Bytes-discrete a addr) [
      | yes same ↦ rw (if_pos _ same) (all m h)
      | no other ↦ rw (if_neg _ other) (at, all m h)
    ]

unequal : (a b : Bytes) (o o' : Option ConnWithChan) → a ≢ b → ite (Bytes-discrete a b) o o' ≡ o'
unequal a b o o' h = ground arith

-- AddConnection keeps the invariant and whoever is registered.
pub add_connection-keeps :
    (conn : TcpConn) (hub : TcpConnectionHub)
    → Inv hub
    → Inv (add_connection conn hub).1
      × ((c : ConnWithChan) → IsRegistered hub c → IsRegistered (add_connection conn hub).1 c)
add_connection-keeps conn hub v =
    let (known, full, new) = add_connection_lem conn hub v in
    elim (Option-cases (Assoc.get? Bytes-discrete conn.remote_addr hub.conns)) [
      | inr (cwc, e) ↦ rw (known cwc e) (v, λ c at. at)
      | inl e ↦ elim (dec_lt (length hub.conns) max_tcp_connections) [
        | no h ↦ rw (full e (omega arith)) (v, λ c at. at)
        | yes h ↦
            let (chan, hub', added_, v', lookups) = new e h in
            rw added_ (
              v',
              λ c at.
                  let other : conn.remote_addr ≢ c.conn.remote_addr = λ same.
                    none_other
                      (sym at ∙ subst (λ j. Assoc.get? Bytes-discrete j hub.conns ≡ none) same e) in
                  lookups c.conn.remote_addr
                  ∙ unequal conn.remote_addr c.conn.remote_addr
                      (some (record { conn = conn; send_chan = chan })) _ other
                  ∙ at,
            )
      ]
    ]

-- RemoveConnection keeps the registrations of the other addresses.
pub remove_connection-keeps :
    (conn : TcpConn) (hub : TcpConnectionHub)
    → Inv hub
    → (hub' : TcpConnectionHub) × (remove_connection conn hub ≡ done hub')
      × Inv hub'
      × ((c : ConnWithChan)
          → c.conn.remote_addr ≢ conn.remote_addr
          → IsRegistered hub c
          → IsRegistered hub' c)
remove_connection-keeps conn hub v =
    let (hub', e, v', lookups) = remove_connection_lem conn hub v in
    (
      hub',
      e,
      v',
      λ c other at.
          lookups c.conn.remote_addr
          ∙ unequal conn.remote_addr c.conn.remote_addr none _ (λ same. other (sym same))
          ∙ at,
    )
