-- ===== src/Services/MulticastListener/Rounds.antt =====
-- The messages of the service over all its runs.
use localsend_switchboard.Prelude.{
  ℕ, suc, ◌+◌, ◌^◌, ◌≤◌, ◌<◌, ◌≡◌, subst, inl, inr, List, [], ◌∷◌, ◌++◌, arith, Bytes, length,
  Bool-cases, Option-cases,
}
use localsend_switchboard.Entities.{SwitchMessage}
use localsend_switchboard.Entities.PacketConn.{has_conn}
use localsend_switchboard.Services.ProactiveBroadcaster.{next_seq}
use localsend_switchboard.Services.MulticastListener.{
  Listener, Read, no_deadline, times_out, fails, interrupted, datagram, ListenEnd, listening, exits,
  restarts, listen_loop, Round, set_up, Served, and_then, serve,
}
use localsend_switchboard.Services.MulticastListener.Laws.{
  AreNumbered, NoRepeat, taken, listen_loop-AreNumbered, AreNumbered-NoRepeat,
}

-- The reads of all runs.
abbrev pub total : {S : Type 0} → List (Round S) → ℕ
total [] = 0
total (r ∷ rs) = length r.reads + total rs

-- The counter moves by the number of messages, of which there is at most one for each read.
listen_loop-seq :
    (l : Listener) (rs : List Read) (seq : ℕ)
    → seq + length rs < 2 ^ 64
    → ((listen_loop l rs seq).1 ≡ seq + length (listen_loop l rs seq).0)
      × (length (listen_loop l rs seq).0 ≤ length rs)
unfolding listen_loop
listen_loop-seq l [] seq h = (omega arith, omega arith)
listen_loop-seq l (no_deadline ∷ rs) seq h = (omega arith, omega arith)
listen_loop-seq l (times_out ∷ rs) seq h =
    let (a, b) = listen_loop-seq l rs seq (omega arith) in (a, omega (arith, b))
listen_loop-seq l (fails ∷ rs) seq h = (omega arith, omega arith)
listen_loop-seq l (interrupted ∷ rs) seq h = (omega arith, omega arith)
listen_loop-seq l (datagram ip addr bytes ∷ rs) seq h = elim (taken l ip addr bytes seq) [
  | inl e ↦ rw e (let (a, b) = listen_loop-seq l rs seq (omega arith) in (a, omega (arith, b)))
  | inr (m, e) ↦
      let next : next_seq seq ≡ suc seq = omega arith in
      rw (e, next)
        (let (a, b) = listen_loop-seq l rs (suc seq) (omega arith) in
          (omega (arith, a), omega (arith, b)))
]

AreNumbered-append :
    (l : Listener) (lo : ℕ) (ms ns : List SwitchMessage)
    → AreNumbered l lo ms
    → AreNumbered l (lo + length ms) ns
    → AreNumbered l lo (ms ++ ns)
AreNumbered-append l lo [] ns h k = subst (λ i. AreNumbered l i ns) (omega arith) k
AreNumbered-append l lo (m ∷ ms) ns (p, e, own, at, ttl, h) k = (
  p,
  e,
  own,
  at,
  ttl,
  AreNumbered-append l (suc lo) ms ns h (subst (λ i. AreNumbered l i ns) (omega arith) k),
)

and_then-AreNumbered :
    (l : Listener) (lo seq : ℕ) (ms : List SwitchMessage) (e : ListenEnd) (later : Served)
    → AreNumbered l lo ms
    → AreNumbered l (lo + length ms) later.0
    → AreNumbered l lo (and_then ms seq e later).0
unfolding and_then
and_then-AreNumbered l lo seq ms listening later h k = h
and_then-AreNumbered l lo seq ms exits later h k = h
and_then-AreNumbered l lo seq ms restarts later h k = AreNumbered-append l lo ms later.0 h k

pub serve-AreNumbered :
    {S : Type 0} (l : Listener) (network : Bytes) (rs : List (Round S)) (seq : ℕ)
    → seq + total rs < 2 ^ 64
    → AreNumbered l seq (serve l network rs seq).0
unfolding serve
serve-AreNumbered l network [] seq h = tt
serve-AreNumbered l network (r ∷ rs) seq h =
    let (moved, few) = listen_loop-seq l r.reads seq (omega arith) in
    let (ms, seq', e) = listen_loop l r.reads seq in
    elim (Option-cases (set_up network r.socket r.joins)) [
      | inl f ↦ rw (f, serve) tt
      | inr (pc, f) ↦ elim (Bool-cases (has_conn pc)) [
        | inr lost ↦ rw (f, serve) (rw (lost, serve) tt)
        | inl there ↦
            rw (f, serve)
              (rw (there, serve)
                (and_then-AreNumbered l seq seq' ms e (serve l network rs seq')
                  (listen_loop-AreNumbered l r.reads seq (omega arith))
                  (subst (λ i. AreNumbered l i (serve l network rs seq').0) moved
                    (serve-AreNumbered l network rs seq' (omega (arith, moved, few))))))
      ]
    ]

-- As long as the counter of 64 bits does not wrap, no two messages that the service passes on have one
-- identifier, over all its restarts.
pub serve-NoRepeat :
    {S : Type 0} (l : Listener) (network : Bytes) (rs : List (Round S)) (seq : ℕ)
    → seq + total rs < 2 ^ 64
    → NoRepeat (serve l network rs seq).0
serve-NoRepeat l network rs seq h =
    AreNumbered-NoRepeat l seq (serve l network rs seq).0 (serve-AreNumbered l network rs seq h)
