-- ===== src/Services/Node/Waiting.antt =====
-- Which messages wait: those of before, and the new one behind a Write.
use localsend_switchboard.Prelude.{
  ℕ, ◌≡◌, sym, subst, inl, inr, some, [], ◌∷◌, arith, Bytes, Bytes-discrete, length, All,
  All-append, dec_lt, Bool-cases, Option-cases,
}
use localsend_switchboard.Prelude.Assoc
use localsend_switchboard.Std.Channel.{
  Outcome, done, blocked, panicked, send-done, send-blocked, send-panicked,
}
use localsend_switchboard.Entities.{DiscoveryMessage}
use localsend_switchboard.Services.SwitchLounge.{
  Store, SwitchLounge, make_room, offer, write_id, load, write,
}
use localsend_switchboard.Utils.Switch.{get_discovery_id}

module _ (P : ℕ → Type 0) where
  -- The messages that wait behind an operation have the property.
  abbrev pub Wait {ℓ} : {A : Type ℓ} → Outcome (A × SwitchLounge) → Type 0
  Wait (done (_, sl)) = All P sl.lounge.buffer
  Wait blocked = Unit
  Wait panicked = Unit

  offer-Wait :
      (now : ℕ) (id : Bytes) (msg : ℕ) (sl : SwitchLounge)
      → All P sl.lounge.buffer
      → P msg
      → Wait (offer now id msg sl)
  unfolding offer
  offer-Wait now id msg sl h p = elim (Bool-cases sl.lounge.is_closed) [
    | inl shut ↦ rw (send-panicked sl.lounge msg shut, offer) tt
    | inr live ↦ elim (dec_lt (length sl.lounge.buffer) sl.lounge.capacity) [
      | yes room ↦
          rw (send-done sl.lounge msg live room, offer)
            (All-append P sl.lounge.buffer (msg ∷ []) h (p, tt))
      | no full ↦ rw (send-blocked sl.lounge msg live (omega arith), offer) h
    ]
  ]

  write_id-Wait :
      (now : ℕ) (id : Bytes) (msg : ℕ) (sl : SwitchLounge)
      → All P sl.lounge.buffer
      → P msg
      → Wait (write_id now id msg sl)
  unfolding write_id make_room
  write_id-Wait now id msg sl h p = elim (Bool-cases sl.closed) [
    | inl shut ↦ rw shut h
    | inr live ↦ elim (Option-cases (Assoc.get? Bytes-discrete id sl.forwarded_ids)) [
      | inr (b, known) ↦ rw live (rw (known, write_id) h)
      | inl new ↦ elim (Option-cases (make_room sl)) [
        | inl lost ↦ rw live (rw (new, write_id) (rw (lost, write_id) h))
        | inr (roomy, made) ↦ rw live (
            rw (new, write_id)
              (rw (made, write_id)
                (offer-Wait now id msg roomy
                  (subst (All P) (sym (make_room-buffer sl roomy made)) h) p)))
      ]
    ]
  ]
    where
      make_room-buffer :
          (sl roomy : SwitchLounge)
          → make_room sl ≡ some roomy
          → roomy.lounge.buffer ≡ sl.lounge.buffer
      make_room-buffer sl roomy e = ground arith

  pub write-Wait :
      (now : ℕ) (store : Store) (msg : ℕ) (m : DiscoveryMessage) (sl : SwitchLounge)
      → load store msg ≡ done m
      → All P sl.lounge.buffer
      → P msg
      → Wait (write now store msg sl)
  unfolding write
  write-Wait now store msg m sl e h p = rw e (write_id-Wait now (get_discovery_id m) msg sl h p)
