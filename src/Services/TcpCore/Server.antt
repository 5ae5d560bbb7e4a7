-- ===== src/Services/TcpCore/Server.antt =====
-- services/tcp_core.go, setUpTCPServer: the loop that accepts connections. What AcceptTCP delivers is
-- an argument; a failed listen ends the goroutine with an error.
use localsend_switchboard.Prelude.{
  ℕ, Bool, true, false, List, [], ◌∷◌, arith, ◌==◌, if◌then◌else◌, Bytes, length, Option-cases, inl,
  inr, Bytes-discrete, leb, Bool-cases,
}
use localsend_switchboard.Prelude.Assoc
use localsend_switchboard.Configs.{max_tcp_connections}
use localsend_switchboard.Prelude.Int.{ℤ}
use localsend_switchboard.Std.Strconv.{Parsed, ok, failed, atoi}
use localsend_switchboard.Services.TcpConnectionHub.{
  TcpConn, TcpConnectionHub, AddResult, added, already_exists, maximum_reached, add_connection,
}
use localsend_switchboard.Services.TcpConnectionHub.Inv.{Inv}
use localsend_switchboard.Services.TcpConnectionHub.Methods.{add_connection_lem}

-- What AcceptTCP returns: a connection, an error such as a timeout, or an error after the signal.
pub data Accept : Type 0 where
  accepts : TcpConn → Accept
  fails interrupted : Accept

-- The state of the loop: the hub, and the connections that handlers were started for, each with the
-- address of its send channel, latest first.
pub record Serving : Type 0 where
  pub hub : TcpConnectionHub
  pub handled : List (TcpConn × ℕ)

after_add : TcpConn → List (TcpConn × ℕ) → AddResult × TcpConnectionHub → Serving
after_add conn handled (added c, hub) = record { hub = hub; handled = (conn, c) ∷ handled }
after_add conn handled (already_exists, hub) = record {
  hub = record hub { closed_sockets = conn.socket ∷ hub.closed_sockets };
  handled = handled;
}
after_add conn handled (maximum_reached, hub) = record {
  hub = record hub { closed_sockets = conn.socket ∷ hub.closed_sockets };
  handled = handled;
}

-- A new connection: registered and handled, or closed.
unfoldable pub accept : TcpConn → Serving → Serving
unfolding after_add
accept conn s = after_add conn s.handled (add_connection conn s.hub)

-- The accept loop: the state, and whether the server has ended.
unfoldable pub accept_loop : List Accept → Serving → Serving × Bool
unfolding accept
accept_loop [] s = (s, false)
accept_loop (accepts conn ∷ as_) s = accept_loop as_ (accept conn s)
accept_loop (fails ∷ as_) s = accept_loop as_ s
accept_loop (interrupted ∷ as_) s = (s, true)

-- How the goroutine ends: not started, with an error, or as the accept loop does.
pub data ServerEnd : Type 0 where
  not_started invalid_port listen_failed : ServerEnd
  serves : Serving → Bool → ServerEnd

listening : Bool → List Accept → TcpConnectionHub → Parsed ℤ → ServerEnd
listening can_listen events hub (failed _ _) = invalid_port
listening can_listen events hub (ok _) =
    if can_listen
    then (let r = accept_loop events (record { hub = hub; handled = [] }) in serves r.0 r.1)
    else listen_failed

-- setUpTCPServer
unfoldable pub set_up_tcp_server : Bytes → Bool → List Accept → TcpConnectionHub → ServerEnd
unfolding listening accept_loop
set_up_tcp_server serv_port can_listen events hub =
    if length serv_port == 0 then not_started else listening can_listen events hub (atoi serv_port)

-- A socket that is closed as well changes nothing of the hub's invariant.
closed-Inv :
    (conn : TcpConn) (hub : TcpConnectionHub)
    → Inv hub
    → Inv (record hub { closed_sockets = conn.socket ∷ hub.closed_sockets })
closed-Inv conn hub v = record {
  is_map = v.is_map;
  bounded = v.bounded;
  entries = v.entries;
  distinct = v.distinct;
}

pub accept-Inv : (conn : TcpConn) (s : Serving) → Inv s.hub → Inv (accept conn s).hub
unfolding accept
accept-Inv conn s v =
    let lem = add_connection_lem conn s.hub v in
    elim (Option-cases (Assoc.get? Bytes-discrete conn.remote_addr s.hub.conns)) [
      | inr (cwc, known) ↦ rw (lem.0 cwc known, accept) (closed-Inv conn s.hub v)
      | inl new ↦ elim (Bool-cases (leb max_tcp_connections (length s.hub.conns))) [
        | inl full ↦ rw (lem.1 new (ground arith), accept) (closed-Inv conn s.hub v)
        | inr room ↦ let (c, hub', e, v', _) = lem.2 new (ground arith) in rw (e, accept) v'
      ]
    ]

-- Whatever connects, the accept loop keeps the hub's invariant: no address twice, an open channel of its
-- own for each connection, and no more connections than the limit.
pub accept_loop-Inv :
    (events : List Accept) (s : Serving) → Inv s.hub → Inv (accept_loop events s).0.hub
unfolding accept_loop
accept_loop-Inv [] s v = v
accept_loop-Inv (accepts conn ∷ es) s v = accept_loop-Inv es (accept conn s) (accept-Inv conn s v)
accept_loop-Inv (fails ∷ es) s v = accept_loop-Inv es s v
accept_loop-Inv (interrupted ∷ es) s v = v
