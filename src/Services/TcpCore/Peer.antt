-- ===== src/Services/TcpCore/Peer.antt =====
-- services/tcp_core.go, connectPeer: the retries of the connection to another node. How each attempt
-- ends is an argument; the pause between two attempts is left out.
use localsend_switchboard.Prelude.{
  ℕ, zero, suc, ◌+◌, ◌≤◌, ◌≡◌, ◌≢◌, Bool, false, Option, none, some, List, [], ◌∷◌, ◌++◌, arith,
  ltb, ◌==◌, ◌||◌, if◌then◌else◌, Bytes, length, leb,
}
use localsend_switchboard.Prelude.Int.{ℤ, pos, negsuc}
use localsend_switchboard.Std.Strconv.{Parsed, ok, failed, atoi}

-- How an attempt ends: the dial fails, the hub refuses the connection, the connection breaks, or the
-- process is asked to stop while it is up.
pub data Attempt : Type 0 where
  dial_fails add_fails drops interrupted : Attempt

-- How connectPeer stands: it was not started, it sent an error and returned, it returned, or it will
-- try again, with so many retries counted.
pub data PeerEnd : Type 0 where
  not_started invalid_port gave_up exited : PeerEnd
  retrying : ℕ → PeerEnd

-- The retry counter after an attempt and `retryCount++`; `none` where the attempt says to exit.
unfoldable pub counted : ℕ → Attempt → Option ℕ
counted n dial_fails = some (n + 1)
counted n drops = some 1
counted n add_fails = none
counted n interrupted = none

-- Whether the limit ends the retries; a negative limit never does.
abbrev pub is_exhausted : ℤ → ℕ → Bool
is_exhausted (negsuc _) n = false
is_exhausted (pos max) n = ltb max n

-- The loop of connectPeer, over what happens.
unfoldable pub connect_loop : ℤ → List Attempt → ℕ → PeerEnd
unfolding counted
connect_loop max [] n = retrying n
connect_loop max (a ∷ as_) n = elim (counted n a) [
  | none ↦ exited
  | some k ↦ let again = connect_loop max as_ k in if is_exhausted max k then gave_up else again
]

dialled : ℤ → List Attempt → Parsed ℤ → PeerEnd
dialled max attempts (failed _ _) = invalid_port
dialled max attempts (ok _) = connect_loop max attempts 0

-- connectPeer
unfoldable pub connect_peer : Bytes → Bytes → ℤ → List Attempt → PeerEnd
unfolding dialled connect_loop
connect_peer peer_addr peer_port max attempts =
    if length peer_addr == 0 || length peer_port == 0
    then not_started
    else dialled max attempts (atoi peer_port)

abbrev pub failures : ℕ → List Attempt
failures zero = []
failures (suc j) = dial_fails ∷ failures j

-- From a count within the limit, `j` failed dials in a row lead to giving up exactly if the count
-- with them exceeds the limit; else the loop goes on with the count higher by `j`.
pub connect_loop-failures :
    (max j n : ℕ) (rest : List Attempt)
    → n ≤ max
    → connect_loop (pos max) (failures j ++ rest) n
      ≡ (if leb (n + j) max then connect_loop (pos max) rest (n + j) else gave_up)
unfolding connect_loop
connect_loop-failures max zero n rest h =
    let same : n + 0 ≡ n = omega arith in rw same (ground arith)
connect_loop-failures max (suc j) n rest h =
    let same : n + 1 + j ≡ n + suc j = omega arith in
    ground (arith, connect_loop-failures max j (n + 1) rest, same)

-- Once a connection that was up breaks, whatever was counted before, `j` failed dials in a row lead to
-- giving up exactly if one more than `j` exceeds the limit; else the loop goes on with that count.
pub connect_loop-drops :
    (max j n : ℕ) (rest : List Attempt)
    → connect_loop (pos max) (drops ∷ failures j ++ rest) n
      ≡ (if leb (1 + j) max then connect_loop (pos max) rest (1 + j) else gave_up)
unfolding connect_loop
connect_loop-drops zero j n rest = ground arith
connect_loop-drops (suc m) j n rest = ground (arith, connect_loop-failures (suc m) j 1 rest)

-- With a negative limit the loop never gives up.
pub connect_loop_unlimited :
    (attempts : List Attempt) (n k : ℕ) → connect_loop (negsuc k) attempts n ≢ gave_up
unfolding connect_loop
connect_loop_unlimited [] n k = λ e. ground arith
connect_loop_unlimited (dial_fails ∷ as_) n k = λ e. connect_loop_unlimited as_ (n + 1) k e
connect_loop_unlimited (drops ∷ as_) n k = λ e. connect_loop_unlimited as_ 1 k e
connect_loop_unlimited (add_fails ∷ as_) n k = λ e. absurd (cc)
connect_loop_unlimited (interrupted ∷ as_) n k = λ e. absurd (cc)
