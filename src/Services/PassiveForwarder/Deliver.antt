-- ===== src/Services/PassiveForwarder/Deliver.antt =====
-- What arrives where: a message whose destinations have room reaches each of them once.
use localsend_switchboard.Prelude.{
  ℕ, ◌-◌, ◌^◌, ◌<◌, ◌≡◌, refl, ap, subst, ◌∙◌, ℕ_discrete, ◌≢◌, Bool, false, ◌||◌, some, List, [],
  ◌∷◌, arith, ◌==◌, if◌then◌else◌, Bytes, Bytes-discrete, length, get_elem?, All,
}
use localsend_switchboard.Prelude.Assoc
use localsend_switchboard.Entities.{DiscoveryMessage}
use localsend_switchboard.Std.Channel.{done, panicked, ◌>>=◌, Channel}
use localsend_switchboard.Services.SwitchLounge.{Store}
use localsend_switchboard.Services.TcpConnectionHub.{
  TcpConn, ConnWithChan, TcpConnectionHub, except, get_connections_except, remove_connection,
}
use localsend_switchboard.Services.TcpConnectionHub.Inv.{Inv, IsFree, AreDistinct}
use localsend_switchboard.Services.TcpConnectionHub.Sends.{
  IsReady, with_message, send_on_ready, remove_connection_then_send,
}
use localsend_switchboard.Services.PassiveForwarder.{decrement, put_ttl, forward_one, forward_loop}
use localsend_switchboard.Services.PassiveForwarder.Forward.{
  Points, send_all, forward_loop_above, forward_one_lem,
}

-- The channel is that of one of the connections.
abbrev pub hits : ℕ → List ConnWithChan → Bool
hits d [] = false
hits d (c ∷ cs) = c.send_chan == d || hits d cs

abbrev pub AreApart : List ConnWithChan → Type 0
AreApart [] = Unit
AreApart (c ∷ cs) = (hits c.send_chan cs ≡ false) × AreApart cs

abbrev pub AreReady : List (Channel ℕ) → List ConnWithChan → Type 0
AreReady chans cs = All (λ c. IsReady chans c.send_chan) cs

-- Each connection's channel has the message at its end, and every other channel is as before.
abbrev pub Delivers : ℕ → List ConnWithChan → List (Channel ℕ) → List (Channel ℕ) → Type 0
Delivers msg cs chans chans' =
    (d : ℕ) (ch : Channel ℕ)
    → get_elem? chans d ≡ some ch
    → get_elem? chans' d ≡ some (if hits d cs then with_message msg ch else ch)

still_ready :
    (msg c : ℕ) (cs : List ConnWithChan) (chans chans' : List (Channel ℕ))
    → ((d : ℕ) (ch : Channel ℕ)
        → get_elem? chans d ≡ some ch
        → get_elem? chans' d ≡ some (if c == d then with_message msg ch else ch))
    → hits c cs ≡ false
    → AreReady chans cs
    → AreReady chans' cs
still_ready msg c [] chans chans' sent apart ready = tt
still_ready msg c (e ∷ cs) chans chans' sent apart ((ch, at, live, room), ready) =
    let other : (c == e.send_chan) ≡ false = ground arith in
    (
      (ch, rw other at (sent e.send_chan ch at), live, room),
      still_ready msg c cs chans chans' sent (ground arith) ready,
    )

pub send_all_ready :
    (msg : ℕ) (cs : List ConnWithChan) (chans : List (Channel ℕ))
    → AreReady chans cs
    → AreApart cs
    → (chans' : List (Channel ℕ)) × (send_all msg cs chans ≡ done chans')
      × Delivers msg cs chans chans'
unfolding send_all
send_all_ready msg [] chans ready apart = (chans, refl, λ d ch at. at)
send_all_ready msg (c ∷ cs) chans (r, ready) (lone, apart) =
    let (chans', sent, at) = send_on_ready chans c.send_chan msg r in
    let (chans'', rest, at') =
      send_all_ready msg cs chans' (still_ready msg c.send_chan cs chans chans' at lone ready)
        apart in
    (chans'', rw sent rest, λ d ch e. together d ch e chans' chans'' at at')
  where
    together :
        (d : ℕ) (ch : Channel ℕ)
        → get_elem? chans d ≡ some ch
        → (chans' chans'' : List (Channel ℕ))
        → ((d : ℕ) (ch : Channel ℕ)
            → get_elem? chans d ≡ some ch
            → get_elem? chans' d ≡ some (if c.send_chan == d then with_message msg ch else ch))
        → Delivers msg cs chans' chans''
        → get_elem? chans'' d ≡ some (if hits d (c ∷ cs) then with_message msg ch else ch)
    together d ch e chans' chans'' at at' = elim (ℕ_discrete c.send_chan d) [
      | yes same ↦
          let free : hits d cs ≡ false = subst (λ x. hits x cs ≡ false) same lone in
          ground (arith, at d ch, at' d (with_message msg ch), free)
      | no other ↦ ground (arith, at d ch, at' d ch)
    ]

IsFree-hits :
    (addr : Bytes) (c : ℕ) (m : List (Bytes × ConnWithChan))
    → IsFree c m
    → hits c (except addr m) ≡ false
unfolding except
IsFree-hits addr c [] f = refl
IsFree-hits addr c ((a, x) ∷ m) f = ground (arith, IsFree-hits addr c m f.1)

-- Connections of the hub have channels of their own.
pub except-AreApart :
    (addr : Bytes) (m : List (Bytes × ConnWithChan)) → AreDistinct m → AreApart (except addr m)
unfolding except
except-AreApart addr [] d = tt
except-AreApart addr ((a, x) ∷ m) d =
    ground (arith, except-AreApart addr m d.1, IsFree-hits addr x.send_chan m d.0)

-- A message with a TTL above the number of its destinations, which all have room, is sent without a
-- wait or a panic: it ends up at the end of a channel that belongs to a connection other than that of
-- its source address, any other channel is as before, and the shared TTL has fallen by the number of
-- destinations.
pub forward_loop_delivers :
    (msg : ℕ) (source : Bytes) (hub : TcpConnectionHub) (store : Store) (p : DiscoveryMessage)
    → Points store msg p
    → Inv hub
    → let cs = get_connections_except (some source) hub in
      length cs < p.discovery_ttl
      → p.discovery_ttl < 2 ^ 32
      → AreReady hub.chans cs
      → (d : ℕ) (ch : Channel ℕ) → get_elem? hub.chans d ≡ some ch
      → (chans' : List (Channel ℕ)) × (forward_loop msg cs (store, hub.chans)
          ≡ done (put_ttl store msg (p.discovery_ttl - length cs), chans'))
        × (get_elem? chans' d ≡ some (if hits d cs then with_message msg ch else ch))
unfolding get_connections_except
forward_loop_delivers msg source hub store p s v above bound ready d ch at_d =
    let cs = except source hub.conns in
    let (chans', sent, at) =
      send_all_ready msg cs hub.chans ready (except-AreApart source hub.conns v.distinct) in
    (
      chans',
      forward_loop_above msg cs store hub.chans p s above bound
          ∙ ap (λ o. o >>= λ ch. done (put_ttl store msg (p.discovery_ttl - length cs), ch)) sent,
      at d ch at_d,
    )

-- The forwarder takes the connections from the hub and then sends to them one by one. If one of
-- them is removed from the hub in between, the round of the loop that reaches it with a TTL other
-- than 1 panics.
pub forward_one_removed :
    (conn : TcpConn) (hub hub' : TcpConnectionHub) (cwc : ConnWithChan) (msg : ℕ) (store : Store)
    (p : DiscoveryMessage)
    → Points store msg p
    → p.discovery_ttl < 2 ^ 32
    → p.discovery_ttl ≢ 1
    → Assoc.get? Bytes-discrete conn.remote_addr hub.conns ≡ some cwc
    → remove_connection conn hub ≡ done hub'
    → forward_one msg cwc (store, hub'.chans) ≡ panicked
unfolding decrement
forward_one_removed conn hub hub' cwc msg store p s bound ne known e =
    let dead = remove_connection_then_send conn hub hub' cwc msg known e in
    rw (forward_one_lem msg cwc store hub'.chans p s) (ground (arith, dead))
