-- ===== src/Services/TcpConnectionHub/Inv.antt =====
-- The invariant of the hub: every connection is registered under its own remote address, with an open
-- send channel that no other registered connection has.
use localsend_switchboard.Prelude.{
  ℕ, zero, suc, ◌≤◌, ◌<◌, ◌≡◌, refl, ap, ◌∙◌, ◌≢◌, false, some, List, [], ◌∷◌, ◌++◌, arith, Bytes,
  Bytes-discrete, length, get_elem?, set, All,
}
use localsend_switchboard.Prelude.Assoc
use localsend_switchboard.Configs.{max_tcp_connections, tcp_socket_send_chan_size}
use localsend_switchboard.Std.Channel.{Channel}
use localsend_switchboard.Services.TcpConnectionHub.{ConnWithChan, TcpConnectionHub}

-- The channel at an address is there, open, and of the size of a send channel.
abbrev pub IsOpen : List (Channel ℕ) → ℕ → Type 0
IsOpen chans c =
    (ch : Channel ℕ) × (get_elem? chans c ≡ some ch)
    × (ch.is_closed ≡ false)
    × (ch.capacity ≡ tcp_socket_send_chan_size)

-- An entry of the map: it stands under its address, and its channel is open.
abbrev pub IsEntry : List (Channel ℕ) → Bytes × ConnWithChan → Type 0
IsEntry chans (a, c) = (c.conn.remote_addr ≡ a) × IsOpen chans c.send_chan

-- No entry has the channel `c`.
abbrev pub IsFree : ℕ → List (Bytes × ConnWithChan) → Type 0
IsFree c m = All (λ e. e.1.send_chan ≢ c) m

abbrev pub AreDistinct : List (Bytes × ConnWithChan) → Type 0
AreDistinct [] = Unit
AreDistinct ((a, c) ∷ m) = IsFree c.send_chan m × AreDistinct m

pub record Inv (hub : TcpConnectionHub) : Type 0 where
  pub is_map : Assoc.IsMap Bytes-discrete hub.conns
  pub bounded : length hub.conns ≤ max_tcp_connections
  pub entries : All (IsEntry hub.chans) hub.conns
  pub distinct : AreDistinct hub.conns

pub get_elem?-append :
    (chans : List (Channel ℕ)) (ch x : Channel ℕ) (c : ℕ)
    → get_elem? chans c ≡ some x
    → get_elem? (chans ++ ch ∷ []) c ≡ some x
get_elem?-append [] ch x c e = ground arith
get_elem?-append (y ∷ chans) ch x zero e = e
get_elem?-append (y ∷ chans) ch x (suc c) e = get_elem?-append chans ch x c e

pub get_elem?-last :
    (chans : List (Channel ℕ)) (ch : Channel ℕ)
    → get_elem? (chans ++ ch ∷ []) (length chans) ≡ some ch
get_elem?-last [] ch = refl
get_elem?-last (y ∷ chans) ch = get_elem?-last chans ch

pub get_elem?-lt :
    (chans : List (Channel ℕ)) (c : ℕ) (x : Channel ℕ)
    → get_elem? chans c ≡ some x
    → c < length chans
get_elem?-lt [] c x e = ground arith
get_elem?-lt (y ∷ chans) zero x e = omega arith
get_elem?-lt (y ∷ chans) (suc c) x e = omega (arith, get_elem?-lt chans c x e)

pub get_elem?-set_ne :
    (chans : List (Channel ℕ)) (c d : ℕ) (x : Channel ℕ)
    → d ≢ c
    → get_elem? (set chans c x) d ≡ get_elem? chans d
get_elem?-set_ne [] c d x h = refl
get_elem?-set_ne (y ∷ chans) zero zero x h = absurd (h refl)
get_elem?-set_ne (y ∷ chans) zero (suc d) x h = refl
get_elem?-set_ne (y ∷ chans) (suc c) zero x h = refl
get_elem?-set_ne (y ∷ chans) (suc c) (suc d) x h = get_elem?-set_ne chans c d x (λ e. h (ap suc e))

pub get_elem?-set_self :
    (chans : List (Channel ℕ)) (c : ℕ) (x y : Channel ℕ)
    → get_elem? chans c ≡ some y
    → get_elem? (set chans c x) c ≡ some x
get_elem?-set_self [] c x y e = absurd (cc)
get_elem?-set_self (z ∷ chans) zero x y e = refl
get_elem?-set_self (z ∷ chans) (suc c) x y e = get_elem?-set_self chans c x y e

-- Entries stay entries when a channel is added at the end of the store.
pub entries-append :
    (chans : List (Channel ℕ)) (ch : Channel ℕ) (m : List (Bytes × ConnWithChan))
    → All (IsEntry chans) m
    → All (IsEntry (chans ++ ch ∷ [])) m
entries-append chans ch [] h = tt
entries-append chans ch ((a, c) ∷ m) ((addr, (x, e, live, size)), h) = (
  (addr, (x, get_elem?-append chans ch x c.send_chan e, live, size)),
  entries-append chans ch m h,
)

-- A new address of the store is free.
pub new-IsFree :
    (chans : List (Channel ℕ)) (m : List (Bytes × ConnWithChan))
    → All (IsEntry chans) m
    → IsFree (length chans) m
new-IsFree chans [] h = tt
new-IsFree chans ((a, c) ∷ m) ((addr, (x, e, live, size)), h) =
    (λ same. absurd (omega (arith, get_elem?-lt chans c.send_chan x e)), new-IsFree chans m h)

-- Entries stay entries when a channel that none of them has is changed.
pub entries-set :
    (chans : List (Channel ℕ)) (d : ℕ) (ch : Channel ℕ) (m : List (Bytes × ConnWithChan))
    → IsFree d m
    → All (IsEntry chans) m
    → All (IsEntry (set chans d ch)) m
entries-set chans d ch [] f h = tt
entries-set chans d ch ((a, c) ∷ m) (other, f) ((addr, (x, e, live, size)), h) = (
  (addr, (x, get_elem?-set_ne chans d c.send_chan ch other ∙ e, live, size)),
  entries-set chans d ch m f h,
)
