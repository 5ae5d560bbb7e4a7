-- ===== src/Main/Launch/Network.antt =====
-- The network that `main` chooses is one that the listener can set up.
use localsend_switchboard.Prelude.{
  ℕ, ◌≡◌, ◌≢◌, refl, subst, ◌⊎◌, inl, inr, Bool, true, false, Option, none, some, List, [], ◌∷◌,
  Bytes, codes, Bool-cases, Option-cases,
}
use localsend_switchboard.Entities.PacketConn.{PacketConn, has_conn}
use localsend_switchboard.Entities.{SwitchMessage}
use localsend_switchboard.Services.MulticastListener.{
  Listener, ListenEnd, listening, exits, restarts, listen_loop, Round, set_up, crashed, Served,
  and_then, serve,
}
use localsend_switchboard.Std.Ip.{IpText, bytes_equal}
use localsend_switchboard.Utils.Net.{
  is_ipv6, Interface, Found, interface_at, no_interface, lookup_error, get_interface_by_ip,
}
use localsend_switchboard.Main.Launch.{
  Endpoints, with_defaults, network_of, returns, launches, launch,
}

-- One of the two networks that the listener knows.
abbrev pub IsNetwork : Bytes → Type 0
IsNetwork network = (network ≡ codes "udp4") ⊎ (network ≡ codes "udp6")

network_of-IsNetwork : (text : IpText) (address : Bytes) → IsNetwork (network_of text address)
unfolding network_of
network_of-IsNetwork text address = elim (Bool-cases (is_ipv6 text address)) [
  | inl e ↦ rw e (inr refl)
  | inr e ↦ rw e (inl refl)
]

launch-IsNetwork :
    (text : IpText) (dialled : Option Bytes) (interfaces : Option (List Interface))
    (e e' : Endpoints) (network : Bytes) (i : Interface)
    → launch text dialled interfaces e ≡ launches network e' i
    → IsNetwork network
unfolding launch
launch-IsNetwork text none interfaces e e' network i h = absurd (cc h)
launch-IsNetwork text (some ip) interfaces e e' network i h =
    go (get_interface_by_ip ip interfaces) h
  where
    go :
        (found : Found)
        → (elim found [
          | interface_at j ↦
              launches (network_of text (with_defaults e).ls_addr) (with_defaults e) j
          | no_interface ↦ returns
          | lookup_error ↦ returns
        ])
          ≡ launches network e' i
        → IsNetwork network
    go (interface_at j) h =
        let same : network_of text (with_defaults e).ls_addr ≡ network = cc h in
        subst IsNetwork same (network_of-IsNetwork text (with_defaults e).ls_addr)
    go no_interface h = absurd (cc h)
    go lookup_error h = absurd (cc h)

set_up-has_conn_ipv4 :
    {S : Type 0} (socket : Option S) (joins : Bool) (pc : PacketConn S S)
    → set_up (codes "udp4") socket joins ≡ some pc
    → has_conn pc ≡ true
unfolding set_up has_conn bytes_equal
set_up-has_conn_ipv4 none joins pc e = absurd (cc e)
set_up-has_conn_ipv4 {S} (some s) true pc e =
    let same : record { ipv4_conn = some s; ipv6_conn = none } ≡ pc = cc e in
    subst (λ (q : PacketConn S S). has_conn q ≡ true) same refl
set_up-has_conn_ipv4 (some s) false pc e = absurd (cc e)

set_up-has_conn_ipv6 :
    {S : Type 0} (socket : Option S) (joins : Bool) (pc : PacketConn S S)
    → set_up (codes "udp6") socket joins ≡ some pc
    → has_conn pc ≡ true
unfolding set_up has_conn bytes_equal
set_up-has_conn_ipv6 none joins pc e = absurd (cc e)
set_up-has_conn_ipv6 {S} (some s) true pc e =
    let same : record { ipv4_conn = none; ipv6_conn = some s } ≡ pc = cc e in
    subst (λ (q : PacketConn S S). has_conn q ≡ true) same refl
set_up-has_conn_ipv6 (some s) false pc e = absurd (cc e)

set_up-has_conn :
    {S : Type 0} (network : Bytes) (socket : Option S) (joins : Bool) (pc : PacketConn S S)
    → IsNetwork network
    → set_up network socket joins ≡ some pc
    → has_conn pc ≡ true
set_up-has_conn network socket joins pc (inl v4) e =
    set_up-has_conn_ipv4 socket joins pc (subst (λ n. set_up n socket joins ≡ some pc) v4 e)
set_up-has_conn network socket joins pc (inr v6) e =
    set_up-has_conn_ipv6 socket joins pc (subst (λ n. set_up n socket joins ≡ some pc) v6 e)

and_then-ends :
    (ms : List SwitchMessage) (seq : ℕ) (e : ListenEnd) (later : Served)
    → later.2 ≢ crashed
    → (and_then ms seq e later).2 ≢ crashed
unfolding and_then
and_then-ends ms seq listening later h = λ e. absurd (cc e)
and_then-ends ms seq exits later h = λ e. absurd (cc e)
and_then-ends ms seq restarts later h = h

-- On the network that `main` launches it with, the listener always has a connection: over any runs of
-- the service it goes on, stops or reports an error, and never reads from none.
pub launch-serve :
    {S : Type 0} (text : IpText) (dialled : Option Bytes) (interfaces : Option (List Interface))
    (e e' : Endpoints) (network : Bytes) (i : Interface) (l : Listener) (rs : List (Round S))
    (seq : ℕ)
    → launch text dialled interfaces e ≡ launches network e' i
    → (serve l network rs seq).2 ≢ crashed
unfolding serve
launch-serve text dialled interfaces e e' network i l [] seq h = λ c. absurd (cc c)
launch-serve text dialled interfaces e e' network i l (r ∷ rs) seq h =
    let known = launch-IsNetwork text dialled interfaces e e' network i h in
    let (ms, seq', ending) = listen_loop l r.reads seq in
    let later = launch-serve text dialled interfaces e e' network i l rs seq' h in
    elim (Option-cases (set_up network r.socket r.joins)) [
      | inl f ↦ rw (f, serve) (λ c. absurd (cc c))
      | inr (pc, f) ↦
          let there = set_up-has_conn network r.socket r.joins pc known f in
          rw (f, serve)
            (rw (there, serve) (and_then-ends ms seq' ending (serve l network rs seq') later))
    ]
