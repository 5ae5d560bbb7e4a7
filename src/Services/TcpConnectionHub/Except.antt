-- ===== src/Services/TcpConnectionHub/Except.antt =====
-- Which connections GetConnectionsExcept returns.
use mathlib.Core.List.{Mem, not-mem-nil, mem-cons_self, mem-cons_of_mem, eq-or-mem_of_mem-cons}
use mathlib.Core.Logic.Or
use mathlib.Core.Logic.{if_pos, if_neg}
use mathlib.Core.HLevel.{⊥_prop}
use localsend_switchboard.Prelude.{
  ◌≡◌, ◌↔◌, sym, ◌∙◌, ap, subst, ◌≢◌, some, List, [], ◌∷◌, map, Bytes, Bytes-discrete, All,
}
use localsend_switchboard.Services.TcpConnectionHub.{
  ConnWithChan, TcpConnectionHub, except, get_connections_except,
}
use localsend_switchboard.Services.TcpConnectionHub.Inv.{IsEntry, Inv}

-- All registered connections, in the order of the map.
abbrev pub registered : List (Bytes × ConnWithChan) → List ConnWithChan
registered = map (λ e. e.1)

abbrev IsKeyed : Bytes × ConnWithChan → Type 0
IsKeyed (a, c) = c.conn.remote_addr ≡ a

IsEntry-IsKeyed :
    (hub : TcpConnectionHub) (m : List (Bytes × ConnWithChan))
    → All (IsEntry hub.chans) m
    → All IsKeyed m
IsEntry-IsKeyed hub [] h = tt
IsEntry-IsKeyed hub ((a, c) ∷ m) (e, h) = (e.0, IsEntry-IsKeyed hub m h)

mem_of_except :
    (addr : Bytes) (m : List (Bytes × ConnWithChan)) {c : ConnWithChan}
    → Mem c (except addr m)
    → Mem c (registered m)
unfolding except
mem_of_except addr [] h = h
mem_of_except addr ((a, d) ∷ m) {c} h = elim (Bytes-discrete a addr) [
  | yes same ↦ mem-cons_of_mem d (mem_of_except addr m (rw (if_pos _ same) at h))
  | no other ↦
      Or.elim squash₁ (eq-or-mem_of_mem-cons (rw (if_neg _ other) at h))
        (λ e. subst (λ x. Mem x (d ∷ registered m)) (sym e) mem-cons_self)
        (λ t. mem-cons_of_mem d (mem_of_except addr m t))
]

ne_of_except :
    (addr : Bytes) (m : List (Bytes × ConnWithChan)) {c : ConnWithChan}
    → All IsKeyed m
    → Mem c (except addr m)
    → c.conn.remote_addr ≢ addr
unfolding except
ne_of_except addr [] k h = absurd (not-mem-nil h)
ne_of_except addr ((a, d) ∷ m) {c} (k, ks) h = λ hit. elim (Bytes-discrete a addr) [
  | yes same ↦ ne_of_except addr m ks (rw (if_pos _ same) at h) hit
  | no other ↦
      Or.elim ⊥_prop (eq-or-mem_of_mem-cons (rw (if_neg _ other) at h))
        (λ e. other (sym k ∙ sym (ap (λ (x : ConnWithChan). x.conn.remote_addr) e) ∙ hit))
        (λ t. ne_of_except addr m ks t hit)
]

mem-except_of :
    (addr : Bytes) (m : List (Bytes × ConnWithChan)) {c : ConnWithChan}
    → All IsKeyed m
    → Mem c (registered m)
    → c.conn.remote_addr ≢ addr
    → Mem c (except addr m)
unfolding except
mem-except_of addr [] k h ne = h
mem-except_of addr ((a, d) ∷ m) {c} (k, ks) h ne = elim (Bytes-discrete a addr) [
  | yes same ↦ rw (if_pos _ same) (
      Or.elim squash₁ (eq-or-mem_of_mem-cons h)
        (λ e. absurd (ne (ap (λ (x : ConnWithChan). x.conn.remote_addr) e ∙ k ∙ same)))
        (λ t. mem-except_of addr m ks t ne))
  | no other ↦ rw (if_neg _ other) (
      Or.elim squash₁ (eq-or-mem_of_mem-cons h)
        (λ e. subst (λ x. Mem x (d ∷ except addr m)) (sym e) mem-cons_self)
        (λ t. mem-cons_of_mem d (mem-except_of addr m ks t ne)))
]

-- Under the hub's invariant, GetConnectionsExcept on an address returns exactly the registered
-- connections with another remote address.
pub mem-get_connections_except :
    (hub : TcpConnectionHub) (addr : Bytes) (c : ConnWithChan)
    → Inv hub
    → Mem c (get_connections_except (some addr) hub)
      ↔ (Mem c (registered hub.conns) × (c.conn.remote_addr ≢ addr))
unfolding get_connections_except
mem-get_connections_except hub addr c v =
    let keyed = IsEntry-IsKeyed hub hub.conns v.entries in
    (
      λ h. (mem_of_except addr hub.conns h, ne_of_except addr hub.conns keyed h),
      λ (h, ne). mem-except_of addr hub.conns keyed h ne,
    )
