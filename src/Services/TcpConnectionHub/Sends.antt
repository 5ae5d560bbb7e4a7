-- ===== src/Services/TcpConnectionHub/Sends.antt =====
-- Sends on the channels of connections.
use localsend_switchboard.Prelude.{
  ℕ, ◌<◌, ◌≡◌, refl, sym, ℕ_discrete, true, false, some, List, [], ◌∷◌, ◌++◌, arith, ◌==◌,
  if◌then◌else◌, Bytes-discrete, length, get_elem?, set, get_elem?-set_self, Option-cases, inl, inr,
}
use localsend_switchboard.Prelude.Assoc
use localsend_switchboard.Std.Channel.{
  Outcome, done, blocked, panicked, ◌>>=◌, Channel, send, send-done, send-panicked,
}
use localsend_switchboard.Std.Channel
use localsend_switchboard.Services.TcpConnectionHub.{
  TcpConn, ConnWithChan, TcpConnectionHub, send_on, remove_connection,
}
use localsend_switchboard.Services.TcpConnectionHub.Inv.{get_elem?-set_ne}

-- The channel at an address is open and has room.
abbrev pub IsReady : List (Channel ℕ) → ℕ → Type 0
IsReady chans c =
    (ch : Channel ℕ) × (get_elem? chans c ≡ some ch)
    × (ch.is_closed ≡ false)
    × (length ch.buffer < ch.capacity)

abbrev pub with_message : ℕ → Channel ℕ → Channel ℕ
with_message msg ch = record ch { buffer = ch.buffer ++ msg ∷ [] }

-- A send to a ready channel appends to its buffer; the other channels are as before.
pub send_on_ready :
    (chans : List (Channel ℕ)) (c msg : ℕ)
    → IsReady chans c
    → (chans' : List (Channel ℕ)) × (send_on chans c msg ≡ done chans')
      × ((d : ℕ) (ch : Channel ℕ)
          → get_elem? chans d ≡ some ch
          → get_elem? chans' d ≡ some (if c == d then with_message msg ch else ch))
unfolding send_on
send_on_ready chans c msg (ch, at, live, room) =
    let sent = send-done ch msg live room in
    (
      set chans c (with_message msg ch),
      ground (arith, at, sent),
      λ d ch' at'. elim (ℕ_discrete c d) [
        | yes same ↦
            ground (arith, get_elem?-set_self chans c (with_message msg ch) ch at, at, at', same)
        | no other ↦
            ground
              (arith, get_elem?-set_ne chans c d (with_message msg ch) (λ e. other (sym e)), at')
      ],
    )

-- A channel that RemoveConnection has closed panics under a send: a goroutine that took the
-- connection from the hub before and sends to it afterwards stops the process.
pub remove_connection_then_send :
    (conn : TcpConn) (hub hub' : TcpConnectionHub) (cwc : ConnWithChan) (msg : ℕ)
    → Assoc.get? Bytes-discrete conn.remote_addr hub.conns ≡ some cwc
    → remove_connection conn hub ≡ done hub'
    → send_on hub'.chans cwc.send_chan msg ≡ panicked
unfolding remove_connection send_on Channel.close
remove_connection_then_send conn hub hub' cwc msg known e =
    elim (Option-cases (get_elem? hub.chans cwc.send_chan)) [
      | inl missing ↦ absurd (ground arith)
      | inr (ch, at) ↦
          let shut =
            get_elem?-set_self hub.chans cwc.send_chan (record ch { is_closed = true }) ch at in
          let dead = send-panicked (record ch { is_closed = true }) msg refl in
          ground (arith, shut, dead)
    ]
