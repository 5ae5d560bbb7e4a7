-- ===== src/Services/SwitchLounge/Fifo.antt =====
-- The waiting room as a queue: what a history lets in comes out in the same order.
use localsend_switchboard.Prelude.{
  ℕ, zero, suc, Bool, subst, ◌≡◌, refl, sym, ap, ◌∙◌, true, Option, none, some, List, [], ◌∷◌, ◌++◌,
  arith, Bytes, Bytes-discrete, length, Option-cases, Bool-cases, dec_lt, inl, inr,
}
use localsend_switchboard.Prelude.Assoc
use localsend_switchboard.Std.Channel.{
  Outcome, done, blocked, panicked, Channel, send, send-panicked, send-done, send-blocked,
}
use localsend_switchboard.Std.Channel
use localsend_switchboard.Std.Heap
use localsend_switchboard.Services.SwitchLounge.{
  SwitchLounge, WriteResult, written, closed_error, inconsistent, make_room, offer, write_id,
  purge_loop, purge, read, close,
}
use localsend_switchboard.Services.SwitchLounge.Drain.{List-cases}
use localsend_switchboard.Services.SwitchLounge.History.{
  Op, writes, ticks, reads, closes, step, run, left, left_closed,
}
use mathlib.Core.List.{append_assoc, append-nil}

purge_loop-lounge : (f now : ℕ) (sl : SwitchLounge) → (purge_loop f now sl).lounge ≡ sl.lounge
unfolding purge_loop
purge_loop-lounge zero now sl = refl
purge_loop-lounge (suc f) now sl = elim (Option-cases (Heap.pop sl.ttl_heap)) [
  | inl e ↦ rw (e, purge_loop) refl
  | inr ((x, rest), e) ↦
      let top = Heap.item_at sl.ttl_heap 0 in
      let kept = purge_loop-lounge f now (record sl {
        ttl_heap = rest;
        forwarded_ids = Assoc.delete Bytes-discrete top.id sl.forwarded_ids;
      }) in
      rw (e, purge_loop) (ground (arith, kept))
]

pub purge-lounge : (now : ℕ) (sl : SwitchLounge) → (purge now sl).lounge ≡ sl.lounge
unfolding purge
purge-lounge now sl = purge_loop-lounge (length sl.ttl_heap) now sl

-- A Write that returned no error, under an identifier that was not in the cache, let its message in.
abbrev pub let_in_if : ℕ → Outcome (WriteResult × SwitchLounge) → List ℕ
let_in_if msg (done (written, _)) = msg ∷ []
let_in_if msg _ = []

-- The messages that an operation lets in.
unfoldable pub let_in_by : SwitchLounge → Op → List ℕ
let_in_by sl (writes now id msg) = elim (Assoc.get? Bytes-discrete id sl.forwarded_ids) [
  | some _ ↦ []
  | none ↦ let_in_if msg (write_id now id msg sl)
]
let_in_by sl (ticks _) = []
let_in_by sl reads = []
let_in_by sl closes = []

abbrev pub got : Outcome (Option ℕ × SwitchLounge) → List ℕ
got (done (some msg, _)) = msg ∷ []
got _ = []

-- The messages that an operation receives.
unfoldable pub taken_by : SwitchLounge → Op → List ℕ
taken_by sl reads = got (read sl)
taken_by sl (writes _ _ _) = []
taken_by sl (ticks _) = []
taken_by sl closes = []

-- The messages that a history lets in, in order.
unfoldable pub let_in : SwitchLounge → List Op → List ℕ
let_in sl [] = []
let_in sl (op ∷ ops) = let_in_by sl op ++ let_in (step sl op) ops

-- The messages that the receives of a history return, in order.
unfoldable pub taken : SwitchLounge → List Op → List ℕ
taken sl [] = []
taken sl (op ∷ ops) = taken_by sl op ++ taken (step sl op) ops

make_room-lounge : (sl roomy : SwitchLounge) → make_room sl ≡ some roomy → roomy.lounge ≡ sl.lounge
unfolding make_room
make_room-lounge sl roomy e = elim (Option-cases (Heap.pop sl.ttl_heap)) [
  | inl h ↦ ground (arith, h, e)
  | inr ((oldest, rest), h) ↦ ground (arith, h, e)
]

-- What a Write that ended in `r` let in stands behind what waited.
abbrev IsQueued : SwitchLounge → ℕ → Outcome (WriteResult × SwitchLounge) → Type 0
IsQueued sl msg r = sl.lounge.buffer ++ let_in_if msg r ≡ (left sl r).lounge.buffer

offer-IsQueued :
    (now : ℕ) (id : Bytes) (msg : ℕ) (sl roomy : SwitchLounge)
    → roomy.lounge ≡ sl.lounge
    → IsQueued sl msg (offer now id msg roomy)
unfolding offer
offer-IsQueued now id msg sl roomy e = elim (Bool-cases roomy.lounge.is_closed) [
  | inl c ↦ rw (send-panicked roomy.lounge msg c, offer) (append-nil sl.lounge.buffer)
  | inr c ↦ elim (dec_lt (length roomy.lounge.buffer) roomy.lounge.capacity) [
    | yes h ↦
        rw (send-done roomy.lounge msg c h, offer) (ap (λ l. Channel.buffer l ++ msg ∷ []) (sym e))
    | no h ↦
        rw (send-blocked roomy.lounge msg c (omega arith), offer)
          (append-nil sl.lounge.buffer ∙ ap (λ l. Channel.buffer l) (sym e))
  ]
]

write_id-IsQueued :
    (now : ℕ) (id : Bytes) (msg : ℕ) (sl : SwitchLounge)
    → Assoc.get? Bytes-discrete id sl.forwarded_ids ≡ none
    → IsQueued sl msg (write_id now id msg sl)
unfolding write_id
write_id-IsQueued now id msg sl new = elim (Bool-cases sl.closed) [
  | inl c ↦
      let e : write_id now id msg sl ≡ done (closed_error, sl) = ground (arith, c) in
      subst (IsQueued sl msg) (sym e) (append-nil sl.lounge.buffer)
  | inr c ↦ elim (Option-cases (make_room sl)) [
    | inl h ↦
        let e : write_id now id msg sl ≡ done (inconsistent, sl) = ground (arith, c, new, h) in
        subst (IsQueued sl msg) (sym e) (append-nil sl.lounge.buffer)
    | inr (roomy, h) ↦
        let e : write_id now id msg sl ≡ offer now id msg roomy = ground (arith, c, new, h) in
        subst (IsQueued sl msg) (sym e)
          (offer-IsQueued now id msg sl roomy (make_room-lounge sl roomy h))
  ]
]

write_id_known :
    (now : ℕ) (id : Bytes) (msg : ℕ) (sl : SwitchLounge) (x : Bool)
    → Assoc.get? Bytes-discrete id sl.forwarded_ids ≡ some x
    → left sl (write_id now id msg sl) ≡ sl
unfolding write_id
write_id_known now id msg sl x e = ground (arith, e)

step_writes-fifo :
    (now : ℕ) (id : Bytes) (msg : ℕ) (sl : SwitchLounge)
    → sl.lounge.buffer ++ let_in_by sl (writes now id msg)
      ≡ (step sl (writes now id msg)).lounge.buffer
unfolding step let_in_by
step_writes-fifo now id msg sl =
    elim (Option-cases (Assoc.get? Bytes-discrete id sl.forwarded_ids)) [
      | inl new ↦
          let e : let_in_by sl (writes now id msg) ≡ let_in_if msg (write_id now id msg sl) =
            ground (arith, new) in
          ap (λ l. sl.lounge.buffer ++ l) e ∙ write_id-IsQueued now id msg sl new
      | inr (x, known) ↦
          let e : let_in_by sl (writes now id msg) ≡ [] = ground (arith, known) in
          ap (λ l. sl.lounge.buffer ++ l) e
          ∙ append-nil sl.lounge.buffer
          ∙ sym (ap (λ s. (SwitchLounge.lounge s).buffer) (write_id_known now id msg sl x known))
    ]

-- What a receive that ended in `r` returned stood before what waits now.
abbrev pub IsTaken : SwitchLounge → Outcome (Option ℕ × SwitchLounge) → Type 0
IsTaken sl r = sl.lounge.buffer ++ [] ≡ got r ++ (left sl r).lounge.buffer

pub read-IsTaken : (sl : SwitchLounge) → IsTaken sl (read sl)
unfolding read
read-IsTaken sl = elim (List-cases sl.lounge.buffer) [
  | inr (msg, rest, e) ↦
      let taken = record sl { lounge = record sl.lounge { buffer = rest } } in
      let r : read sl ≡ done (some msg, taken) = ground (arith, e) in
      subst (IsTaken sl) (sym r) (append-nil sl.lounge.buffer ∙ e)
  | inl e ↦ elim (Bool-cases sl.lounge.is_closed) [
    | inl c ↦
        let r : read sl ≡ done (none, sl) = ground (arith, e, c) in
        subst (IsTaken sl) (sym r) (append-nil sl.lounge.buffer)
    | inr c ↦
        let r : read sl ≡ blocked = ground (arith, e, c) in
        subst (IsTaken sl) (sym r) (append-nil sl.lounge.buffer)
  ]
]

pub close-buffer :
    (sl : SwitchLounge) → sl.lounge.buffer ≡ (left_closed sl (close sl)).lounge.buffer
unfolding close Channel.close
close-buffer sl = elim (Bool-cases sl.closed) [
  | inl c ↦
      let e : close sl ≡ done sl = ground (arith, c) in
      ap (λ r. (left_closed sl r).lounge.buffer) (sym e)
  | inr c ↦ elim (Bool-cases sl.close_signal.is_closed) [
    | inl s ↦
        let e : close sl ≡ panicked = ground (arith, c, s) in
        ap (λ r. (left_closed sl r).lounge.buffer) (sym e)
    | inr s ↦ elim (Bool-cases sl.lounge.is_closed) [
      | inl l ↦
          let e : close sl ≡ panicked = ground (arith, c, s, l) in
          ap (λ r. (left_closed sl r).lounge.buffer) (sym e)
      | inr l ↦
          let shut = record sl {
            closed = true;
            close_signal = record sl.close_signal { is_closed = true };
            lounge = record sl.lounge { is_closed = true };
          } in
          let e : close sl ≡ done shut = ground (arith, c, s, l) in
          ap (λ r. (left_closed sl r).lounge.buffer) (sym e)
    ]
  ]
]

-- One operation puts what it lets in behind what waits, and takes from the front.
step-fifo :
    (sl : SwitchLounge) (op : Op)
    → sl.lounge.buffer ++ let_in_by sl op ≡ taken_by sl op ++ (step sl op).lounge.buffer
unfolding step let_in_by taken_by
step-fifo sl (writes now id msg) = step_writes-fifo now id msg sl
step-fifo sl (ticks now) =
    append-nil sl.lounge.buffer ∙ sym (ap (λ l. Channel.buffer l) (purge-lounge now sl))
step-fifo sl reads = read-IsTaken sl
step-fifo sl closes = append-nil sl.lounge.buffer ∙ close-buffer sl

-- The waiting room is a queue that loses nothing: over every history of Writes, ticks of the cleaner,
-- receives and Close, from any state, the messages that waited at the start, followed by those that
-- were let in, are those that were received, followed by those that wait at the end, in that order.
pub run-fifo :
    (sl : SwitchLounge) (ops : List Op)
    → sl.lounge.buffer ++ let_in sl ops ≡ taken sl ops ++ (run sl ops).lounge.buffer
unfolding let_in taken run
run-fifo sl [] = append-nil sl.lounge.buffer
run-fifo sl (op ∷ ops) =
    let now = step-fifo sl op in
    let later = run-fifo (step sl op) ops in grind (arith, append_assoc, now, later)
