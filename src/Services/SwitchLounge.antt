-- ===== src/Services/SwitchLounge.antt =====
-- services/switch_lounge.go: the waiting room of messages, with the cache of the identifiers that
-- were let in and the heap of their expiry times. Times are nanoseconds; the mutex makes each
-- operation one step, and the time that it reads is an argument. Messages are pointers: the waiting
-- room holds their addresses, and `Store` is what they point to.
pub mod Keys
pub mod Inv
pub mod Drain
pub mod Write
pub mod Purge
pub mod History
pub mod Fifo
use localsend_switchboard.Prelude.{
  ℕ, zero, suc, ◌+◌, ◌*◌, ◌^◌, Bool, true, false, Option, none, some, List, [], ◌∷◌, leb, ltb, ◌==◌,
  if◌then◌else◌, Bytes, Bytes-discrete, length, get_elem?,
}
use localsend_switchboard.Prelude.Assoc
use localsend_switchboard.Configs.{
  switch_id_cache_lifetime, switch_id_cache_max_entries, switch_lounge_size,
}
use localsend_switchboard.Entities.{DiscoveryMessage, SwitchMessage}
use localsend_switchboard.Std.Channel.{Outcome, done, blocked, panicked, ◌>>=◌, Channel, send}
use localsend_switchboard.Std.Channel
use localsend_switchboard.Std.Heap.{TtlHeapItem, TtlHeap, item_at}
use localsend_switchboard.Std.Heap
use localsend_switchboard.Utils.Switch.{get_discovery_id}

-- What pointers to messages point to; an address is an index.
abbrev pub Store : Type 0
Store = List SwitchMessage

pub record SwitchLounge : Type 0 where
  pub forwarded_ids : List (Bytes × Bool)
  pub close_signal : Channel (Unit {0})
  pub closed : Bool
  pub ttl_heap : TtlHeap
  pub lounge : Channel ℕ

-- NewSwitchLounge
unfoldable pub new_switch_lounge : SwitchLounge
new_switch_lounge = record {
  forwarded_ids = [];
  close_signal = Channel.make 0;
  closed = false;
  ttl_heap = [];
  lounge = Channel.make switch_lounge_size;
}

-- The errors that Write returns, and nil.
pub data WriteResult : Type 0 where
  written closed_error inconsistent full_error : WriteResult

abbrev pub second : ℕ
second = 10 ^ 9

-- Drops the entry that expires first if the cache is full; `none` is the inconsistent state.
unfoldable pub make_room : SwitchLounge → Option SwitchLounge
make_room sl =
    if leb switch_id_cache_max_entries (length sl.forwarded_ids)
    then (elim (Heap.pop sl.ttl_heap) [
      | none ↦ none
      | some (oldest, rest) ↦ some (record sl {
        ttl_heap = rest;
        forwarded_ids = Assoc.delete Bytes-discrete oldest.id sl.forwarded_ids;
      })
    ])
    else some sl

-- The `select` that puts the message into the waiting room, or gives up if that is full.
unfoldable pub offer : ℕ → Bytes → ℕ → SwitchLounge → Outcome (WriteResult × SwitchLounge)
offer now id msg sl = elim (send sl.lounge msg) [
  | done lounge ↦ done (
    written,
    record sl {
      lounge = lounge;
      forwarded_ids = Assoc.put Bytes-discrete id true sl.forwarded_ids;
      ttl_heap =
          Heap.push sl.ttl_heap
            (record { id = id; expire_at = now + switch_id_cache_lifetime * second });
    },
  )
  | blocked ↦ done (full_error, sl)
  | panicked ↦ panicked
]

-- Write, behind the computation of the identifier.
unfoldable pub write_id : ℕ → Bytes → ℕ → SwitchLounge → Outcome (WriteResult × SwitchLounge)
unfolding make_room offer
write_id now id msg sl =
    if sl.closed
    then done (closed_error, sl)
    else elim (Assoc.get? Bytes-discrete id sl.forwarded_ids) [
      | some _ ↦ done (written, sl)
      | none ↦ elim (make_room sl) [
        | none ↦ done (inconsistent, sl)
        | some roomy ↦ offer now id msg roomy
      ]
    ]

-- The payload behind a pointer; a nil pointer is a panic.
unfoldable pub load : Store → ℕ → Outcome DiscoveryMessage
load store msg = elim (get_elem? store msg) [
  | none ↦ panicked
  | some m ↦ elim m.payload [ none ↦ panicked | some p ↦ done p ]
]

-- Write
unfoldable pub write : ℕ → Store → ℕ → SwitchLounge → Outcome (WriteResult × SwitchLounge)
unfolding write_id load
write now store msg sl = load store msg >>= λ m. write_id now (get_discovery_id m) msg sl

-- The inner loop of the cleaning goroutine; the heap shrinks in every round.
unfoldable pub purge_loop : ℕ → ℕ → SwitchLounge → SwitchLounge
purge_loop zero now sl = sl
purge_loop (suc f) now sl =
    let item = item_at sl.ttl_heap 0 in
    elim (Heap.pop sl.ttl_heap) [
      | none ↦ sl
      | some (_, rest) ↦
          let cleaned = purge_loop f now (record sl {
            ttl_heap = rest;
            forwarded_ids = Assoc.delete Bytes-discrete item.id sl.forwarded_ids;
          }) in
          if ltb now item.expire_at then sl else cleaned
    ]

-- One tick of the cleaning goroutine.
unfoldable pub purge : ℕ → SwitchLounge → SwitchLounge
unfolding purge_loop
purge now sl = purge_loop (length sl.ttl_heap) now sl

-- A receive from the channel that Read returns: `none` where it is closed and drained.
unfoldable pub read : SwitchLounge → Outcome (Option ℕ × SwitchLounge)
read sl = elim sl.lounge.buffer [
  | [] ↦ if sl.lounge.is_closed then done (none, sl) else blocked
  | msg ∷ rest ↦ done (some msg, record sl { lounge = record sl.lounge { buffer = rest } })
]

-- Close
unfoldable pub close : SwitchLounge → Outcome SwitchLounge
close sl =
    if sl.closed
    then done sl
    else (Channel.close sl.close_signal >>= λ signal. Channel.close sl.lounge >>= λ lounge.
        done (record sl { closed = true; close_signal = signal; lounge = lounge }))
