-- ===== src/Services/SwitchLounge/Write.antt =====
-- What Write does on each branch, and what it does to the cache.
use localsend_switchboard.Prelude.{
  ℕ, ◌+◌, ◌*◌, ◌≤◌, ◌<◌, ◌≡◌, Bool, true, false, Option, none, some, ite, [], ◌∷◌, ◌++◌, arith, leb,
  if◌then◌else◌, Bytes, Bytes-discrete, length,
}
use localsend_switchboard.Prelude.Assoc
use localsend_switchboard.Configs.{switch_id_cache_lifetime, switch_id_cache_max_entries}
use localsend_switchboard.Std.Channel.{done, send-done, send-blocked}
use localsend_switchboard.Std.Heap.{TtlHeapItem, TtlHeap, item_at}
use localsend_switchboard.Std.Heap
use localsend_switchboard.Services.SwitchLounge.{
  SwitchLounge, written, full_error, second, offer, write_id,
}
use localsend_switchboard.Services.SwitchLounge.Inv.{Inv, make_room-Roomy}

-- What is remembered of `j` once room is made: what was there, but for the entry that expires first
-- if the cache was full.
abbrev pub left_over : SwitchLounge → Bytes → Option Bool
left_over sl j =
    if leb switch_id_cache_max_entries (length sl.forwarded_ids)
    then ite (Bytes-discrete (item_at sl.ttl_heap 0).id j) none
        (Assoc.get? Bytes-discrete j sl.forwarded_ids)
    else Assoc.get? Bytes-discrete j sl.forwarded_ids

-- What is remembered of `j` after a new identifier `id` came in: `id` itself, and what was there,
-- but for the entry that expires first if the cache was full.
abbrev pub remembered : SwitchLounge → Bytes → Bytes → Option Bool
remembered sl id j = ite (Bytes-discrete id j) (some true) (left_over sl j)

-- The result of letting a message in.
pub record Accepted (id : Bytes) (msg : ℕ) (sl sl' : SwitchLounge) : Type 0 where
  pub queued : sl'.lounge.buffer ≡ sl.lounge.buffer ++ msg ∷ []
  pub ids : (j : Bytes) → Assoc.get? Bytes-discrete j sl'.forwarded_ids ≡ remembered sl id j
  pub still : sl'.closed ≡ sl.closed

-- In an open waiting room with the invariant that is not full, Write of a message with a new identifier puts exactly
-- that message at the end and remembers the identifier; the other identifiers stay remembered, but
-- for the one that expires first, which a full cache forgets.
pub write_id-Accepted :
    (now : ℕ) (id : Bytes) (msg : ℕ) (sl : SwitchLounge)
    → Inv sl
    → sl.closed ≡ false
    → Assoc.get? Bytes-discrete id sl.forwarded_ids ≡ none
    → length sl.lounge.buffer < sl.lounge.capacity
    → (sl' : SwitchLounge) × (write_id now id msg sl ≡ done (written, sl')) × Accepted id msg sl sl'
unfolding write_id offer
write_id-Accepted now id msg sl v live new room =
    let (roomy, made, p) = make_room-Roomy sl v in
    let sent =
      send-done roomy.lounge msg (ground (arith, p.lounge, v.shut)) (ground (arith, p.lounge)) in
    let entry : TtlHeapItem = record {
      id = id;
      expire_at = now + switch_id_cache_lifetime * second;
    } in
    (
      record roomy {
        lounge = record roomy.lounge { buffer = roomy.lounge.buffer ++ msg ∷ [] };
        forwarded_ids = Assoc.put Bytes-discrete id true roomy.forwarded_ids;
        ttl_heap = Heap.push roomy.ttl_heap entry;
      },
      ground (arith, made, sent),
      record {
        queued = rw p.lounge;
        ids = λ j. ground (
          arith,
          Assoc.get?-put Bytes-discrete id j true roomy.forwarded_ids,
          p.ids j,
          Assoc.get?-delete Bytes-discrete (item_at sl.ttl_heap 0).id j sl.forwarded_ids,
        );
        still = p.still;
      },
    )

-- In an open waiting room with the invariant that is full, Write of a message with a new identifier returns the error of
-- a full room and queues nothing; but a full cache has forgotten the identifier that expires first.
pub write_id_full :
    (now : ℕ) (id : Bytes) (msg : ℕ) (sl : SwitchLounge)
    → Inv sl
    → sl.closed ≡ false
    → Assoc.get? Bytes-discrete id sl.forwarded_ids ≡ none
    → sl.lounge.capacity ≤ length sl.lounge.buffer
    → (sl' : SwitchLounge) × (write_id now id msg sl ≡ done (full_error, sl'))
      × (sl'.lounge ≡ sl.lounge)
      × ((j : Bytes) → Assoc.get? Bytes-discrete j sl'.forwarded_ids ≡ left_over sl j)
unfolding write_id offer
write_id_full now id msg sl v live new full =
    let (roomy, made, p) = make_room-Roomy sl v in
    let stuck =
      send-blocked roomy.lounge msg (ground (arith, p.lounge, v.shut)) (ground (arith, p.lounge)) in
    (
      roomy,
      ground (arith, made, stuck),
      p.lounge,
      λ j. ground (
        arith,
        p.ids j,
        Assoc.get?-delete Bytes-discrete (item_at sl.ttl_heap 0).id j sl.forwarded_ids,
      ),
    )
