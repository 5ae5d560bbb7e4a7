-- ===== src/Services/SwitchLounge/Inv.antt =====
-- The invariant of the waiting room, kept by Write and the cleaner.
use mathlib.Core.List.Perm
use localsend_switchboard.Prelude.{
  ℕ, zero, suc, ◌+◌, ◌*◌, ◌≤◌, ◌<◌, ◌≡◌, refl, subst, true, false, ◌≢◌, inl, inr, none, some, [],
  ◌∷◌, ◌++◌, arith, leb, ltb, if◌then◌else◌, Bytes, Bytes-discrete, length, length-append,
  length-perm, ◌∙◌, Bool-cases, Option-cases,
}
use localsend_switchboard.Prelude.Assoc
use localsend_switchboard.Configs.{
  switch_id_cache_lifetime, switch_id_cache_max_entries, switch_lounge_size,
}
use localsend_switchboard.Std.Channel.{
  Outcome, done, blocked, panicked, Channel, send-done, send-blocked,
}
use localsend_switchboard.Std.Channel
use localsend_switchboard.Std.Heap.{TtlHeapItem, TtlHeap, item_at}
use localsend_switchboard.Std.Heap
use localsend_switchboard.Std.Heap.Queue.{pop-Popped, pop_lem}
use localsend_switchboard.Services.SwitchLounge.{
  SwitchLounge, WriteResult, written, closed_error, inconsistent, full_error, second,
  new_switch_lounge, make_room, offer, write_id, purge_loop, purge,
}
use localsend_switchboard.Services.SwitchLounge.Keys.{IsCache, same_size, pop-IsCache, push-IsCache}

pub record Inv (sl : SwitchLounge) : Type 0 where
  pub cache : IsCache sl.ttl_heap sl.forwarded_ids
  pub bounded : length sl.forwarded_ids ≤ switch_id_cache_max_entries
  pub within : Channel.IsWithin sl.lounge
  pub size : sl.lounge.capacity ≡ switch_lounge_size
  pub shut : sl.lounge.is_closed ≡ sl.closed
  pub signalled : sl.close_signal.is_closed ≡ sl.closed

pub new-Inv : Inv new_switch_lounge
unfolding new_switch_lounge
new-Inv = record {
  cache = record { ordered = λ c p q. absurd (omega arith); is_map = tt; same_ids = Perm.nil };
  bounded = omega arith;
  within = omega arith;
  size = refl;
  shut = refl;
  signalled = refl;
}

-- Room is made by dropping the entry at the top of the heap, and only from a full cache.
pub record Roomy (sl sl' : SwitchLounge) : Type 0 where
  pub inv : Inv sl'
  pub room : length sl'.forwarded_ids < switch_id_cache_max_entries
  pub lounge : sl'.lounge ≡ sl.lounge
  pub still : sl'.closed ≡ sl.closed
  pub ids :
      (j : Bytes)
      → Assoc.get? Bytes-discrete j sl'.forwarded_ids ≡ (
          if leb switch_id_cache_max_entries (length sl.forwarded_ids)
          then Assoc.get? Bytes-discrete j
              (Assoc.delete Bytes-discrete (item_at sl.ttl_heap 0).id sl.forwarded_ids)
          else Assoc.get? Bytes-discrete j sl.forwarded_ids)

pub make_room-Roomy :
    (sl : SwitchLounge) → Inv sl → (sl' : SwitchLounge) × (make_room sl ≡ some sl') × Roomy sl sl'
unfolding make_room
make_room-Roomy sl v =
    elim (Bool-cases (leb switch_id_cache_max_entries (length sl.forwarded_ids))) [
      | inr e ↦ (
        sl,
        rw e,
        record { inv = v; room = ground arith; lounge = refl; still = refl; ids = λ j. rw e },
      )
      | inl e ↦
          let (x, rest, popped, p) =
            pop_lem sl.ttl_heap (ground (arith, same_size v.cache)) v.cache.ordered in
          let cache = pop-IsCache sl.ttl_heap sl.forwarded_ids x rest v.cache popped in
          let smaller : suc (length rest) ≡ length sl.ttl_heap = length-perm p.same in
          let room : length (Assoc.delete Bytes-discrete x.id sl.forwarded_ids)
              < switch_id_cache_max_entries =
            omega (arith, same_size v.cache, same_size cache, v.bounded) in
          (
            record sl {
              ttl_heap = rest;
              forwarded_ids = Assoc.delete Bytes-discrete x.id sl.forwarded_ids;
            },
            rw (e, popped),
            record {
              inv = record {
                cache = cache;
                bounded = omega arith;
                within = v.within;
                size = v.size;
                shut = v.shut;
                signalled = v.signalled;
              };
              room = room;
              lounge = refl;
              still = refl;
              ids = λ j. rw (e, p.first);
            },
          )
    ]

-- `offer` lets the message in if there is room, and changes nothing otherwise.
pub offer-Inv :
    (now : ℕ) (id : Bytes) (msg : ℕ) (sl : SwitchLounge)
    → Inv sl
    → length sl.forwarded_ids < switch_id_cache_max_entries
    → sl.closed ≡ false
    → Assoc.get? Bytes-discrete id sl.forwarded_ids ≡ none
    → (r : WriteResult) × (sl' : SwitchLounge) × (offer now id msg sl ≡ done (r, sl'))
      × (r ≢ inconsistent)
      × Inv sl'
unfolding offer
offer-Inv now id msg sl v room live new =
    elim (Bool-cases (ltb (length sl.lounge.buffer) sl.lounge.capacity)) [
      | inr e ↦ (
        full_error,
        sl,
        rw (send-blocked sl.lounge msg (v.shut ∙ live) (ground arith), offer),
        λ d. cc,
        v,
      )
      | inl e ↦ (
        written,
        record sl {
          lounge = record sl.lounge { buffer = sl.lounge.buffer ++ msg ∷ [] };
          forwarded_ids = Assoc.put Bytes-discrete id true sl.forwarded_ids;
          ttl_heap = Heap.push sl.ttl_heap (entry);
        },
        rw (send-done sl.lounge msg (v.shut ∙ live) (ground arith), offer),
        λ d. cc,
        record {
          cache = push-IsCache sl.ttl_heap sl.forwarded_ids entry v.cache new;
          bounded = omega (arith, Assoc.length-put-le Bytes-discrete id true sl.forwarded_ids);
          within = ground (arith, length-append sl.lounge.buffer (msg ∷ []));
          size = v.size;
          shut = v.shut;
          signalled = v.signalled;
        },
      )
    ]
  where
    entry : TtlHeapItem
    entry = record { id = id; expire_at = now + switch_id_cache_lifetime * second }

-- Without panic or inconsistency Write ends, and keeps the invariant.
pub write_id-Inv :
    (now : ℕ) (id : Bytes) (msg : ℕ) (sl : SwitchLounge)
    → Inv sl
    → (r : WriteResult) × (sl' : SwitchLounge) × (write_id now id msg sl ≡ done (r, sl'))
      × (r ≢ inconsistent)
      × Inv sl'
unfolding write_id
write_id-Inv now id msg sl v = elim (Bool-cases sl.closed) [
  | inl e ↦ (closed_error, sl, ground arith, λ d. cc, v)
  | inr live ↦ elim (Option-cases (Assoc.get? Bytes-discrete id sl.forwarded_ids)) [
    | inr (b, known) ↦ (written, sl, ground arith, λ d. cc, v)
    | inl new ↦
        let (roomy, made, p) = make_room-Roomy sl v in
        let absent : Assoc.get? Bytes-discrete id roomy.forwarded_ids ≡ none = ground (
          arith,
          p.ids id,
          Assoc.get?-delete Bytes-discrete (item_at sl.ttl_heap 0).id id sl.forwarded_ids,
        ) in
        let (r, sl', e, d, v') = offer-Inv now id msg roomy p.inv p.room (p.still ∙ live) absent in
        (r, sl', ground arith, d, v')
  ]
]

purge_loop-Inv : (f now : ℕ) (sl : SwitchLounge) → Inv sl → Inv (purge_loop f now sl)
unfolding purge_loop
purge_loop-Inv zero now sl v = v
purge_loop-Inv (suc f) now sl v = elim (Option-cases (Heap.pop sl.ttl_heap)) [
  | inl e ↦ rw (e, purge_loop) v
  | inr ((x, rest), e) ↦
      let p = pop-Popped sl.ttl_heap x rest v.cache.ordered e in
      let top = item_at sl.ttl_heap 0 in
      let cache : IsCache rest (Assoc.delete Bytes-discrete top.id sl.forwarded_ids) =
        subst (λ y. IsCache rest (Assoc.delete Bytes-discrete y.id sl.forwarded_ids)) p.first
          (pop-IsCache sl.ttl_heap sl.forwarded_ids x rest v.cache e) in
      let cleaned =
        purge_loop-Inv f now
          (record sl {
            ttl_heap = rest;
            forwarded_ids = Assoc.delete Bytes-discrete top.id sl.forwarded_ids;
          })
          (record {
            cache = cache;
            bounded =
                omega
                  (arith, Assoc.length-delete-le Bytes-discrete top.id sl.forwarded_ids, v.bounded);
            within = v.within;
            size = v.size;
            shut = v.shut;
            signalled = v.signalled;
          }) in
      elim (Bool-cases (ltb now top.expire_at)) [
        | inl later ↦ rw (e, purge_loop) (rw later v)
        | inr over ↦ rw (e, purge_loop) (rw over cleaned)
      ]
]

pub purge-Inv : (now : ℕ) (sl : SwitchLounge) → Inv sl → Inv (purge now sl)
unfolding purge
purge-Inv now sl v = purge_loop-Inv (length sl.ttl_heap) now sl v
