-- ===== src/Tests/Lounges.antt =====
-- The waiting rooms and the core at concrete values.
use localsend_switchboard.Prelude.{
  ℕ, zero, suc, ◌+◌, ◌++◌, ◌*◌, ◌^◌, ap, ◌≢◌, ◌≡◌, refl, true, false, Option, none, some, List, [],
  ◌∷◌, Bytes, Bytes-discrete, ℕ_discrete, codes, arith, length,
}
use localsend_switchboard.Prelude.Assoc
use localsend_switchboard.Std.Channel.{done, send}
use localsend_switchboard.Std.Heap
use localsend_switchboard.Services.SwitchLounge.{
  SwitchLounge, WriteResult, written, full_error, second, new_switch_lounge, write_id, offer,
  make_room, purge,
}
use localsend_switchboard.Services.SwitchLounge
use localsend_switchboard.Services.SwitchLounge.Inv.{Inv, new-Inv}
use localsend_switchboard.Services.SwitchLounge.Write.{
  Accepted, left_over, write_id-Accepted, write_id_full,
}
use localsend_switchboard.Services.SwitchLounge.Purge.{Kept, purge-Kept}
use localsend_switchboard.Services.SwitchLounge.History.{
  Op, writes, ticks, reads, closes, step, run, run-Inv, write_id_once,
}
use localsend_switchboard.Services.SwitchLounge.Fifo.{let_in, let_in_by, taken, run-fifo}
use localsend_switchboard.Services.LocalClientLounge.{
  LocalClientLounge, new_local_client_lounge, add,
}
use localsend_switchboard.Services.LocalClientLounge.Presence
use localsend_switchboard.Services.LocalClientLounge.Presence.{
  IsListed, fresh, run-IsListed, step_lem,
}
use localsend_switchboard.Services.SwitchCore.{Core, from_multicast, from_tcp, core_loop}
use localsend_switchboard.Services.SwitchCore.Loop.{entry, core_loop_keeps}
use localsend_switchboard.Services.ClientAliveChecker.{alive_tick, ListedAs, alive_tick_lists}
use localsend_switchboard.Entities.{HttpResponse}
use localsend_switchboard.Utils.Net.{parse_port}
use localsend_switchboard.Utils.Switch.{switch_message_to_local_send_client_info}
use localsend_switchboard.Std.Strconv.{parse_uint}
use localsend_switchboard.Tests.Data.{client, store_of, one_json}

abbrev id : Bytes
id = codes "n1_7"

-- The waiting room after the first message.
abbrev one_in : SwitchLounge
one_in = record new_switch_lounge {
  forwarded_ids = (id, true) ∷ [];
  ttl_heap = record { id = id; expire_at = 300 * 10 ^ 9 } ∷ [];
  lounge = record { buffer = 0 ∷ []; capacity = 65025; is_closed = false };
}

first_write : write_id 0 id 0 new_switch_lounge ≡ done (written, one_in)
unfolding write_id new_switch_lounge Assoc.get? make_room offer Heap.push Heap.up send Assoc.put
first_write = refl

write_id_once_example :
    step (run one_in (ticks 5 ∷ reads ∷ [])) (writes 1 id 0) ≡ run one_in (ticks 5 ∷ reads ∷ [])
unfolding new_switch_lounge Assoc.get?
write_id_once_example =
    write_id_once 0 1 id 0 0 new_switch_lounge one_in (ticks 5 ∷ reads ∷ []) new-Inv refl
      first_write (omega arith, tt) (omega arith)

write_id-Accepted_example :
    (sl' : SwitchLounge) × (write_id 0 id 0 new_switch_lounge ≡ done (written, sl'))
    × Accepted id 0 new_switch_lounge sl'
unfolding new_switch_lounge Assoc.get?
write_id-Accepted_example =
    write_id-Accepted 0 id 0 new_switch_lounge new-Inv refl refl (omega arith)

unfoldable zeros : ℕ → List ℕ
zeros zero = []
zeros (suc n) = 0 ∷ zeros n

length-zeros : (n : ℕ) → length (zeros n) ≡ n
unfolding zeros
length-zeros zero = refl
length-zeros (suc n) = ap suc (length-zeros n)

-- A waiting room without a free place.
abbrev filled : SwitchLounge
filled = record new_switch_lounge {
  lounge = record { buffer = zeros 65025; capacity = 65025; is_closed = false };
}

filled-Inv : Inv filled
unfolding new_switch_lounge
filled-Inv = record {
  cache = new-Inv.cache;
  bounded = omega arith;
  within = omega (arith, length-zeros 65025);
  size = refl;
  shut = refl;
  signalled = refl;
}

write_id_full_example :
    (sl' : SwitchLounge) × (write_id 0 id 0 filled ≡ done (full_error, sl'))
    × (sl'.lounge ≡ filled.lounge)
    × ((j : Bytes) → Assoc.get? Bytes-discrete j sl'.forwarded_ids ≡ left_over filled j)
unfolding new_switch_lounge Assoc.get?
write_id_full_example =
    write_id_full 0 id 0 filled filled-Inv refl refl (omega (arith, length-zeros 65025))

purge-Kept_example : Kept 5 new_switch_lounge.ttl_heap (purge 5 new_switch_lounge).ttl_heap
purge-Kept_example = purge-Kept 5 new_switch_lounge new-Inv

run-Inv_example : Inv (run new_switch_lounge (writes 0 id 0 ∷ ticks 5 ∷ reads ∷ closes ∷ []))
run-Inv_example = run-Inv new_switch_lounge (writes 0 id 0 ∷ ticks 5 ∷ reads ∷ closes ∷ []) new-Inv

-- A message, a second one under the same identifier, a receive, a third message, and Close.
abbrev history : List Op
history = writes 0 id 7 ∷ writes 1 id 8 ∷ reads ∷ writes 2 (65 ∷ []) 9 ∷ closes ∷ []

run-fifo_example :
    new_switch_lounge.lounge.buffer ++ let_in new_switch_lounge history
    ≡ taken new_switch_lounge history ++ (run new_switch_lounge history).lounge.buffer
run-fifo_example = run-fifo new_switch_lounge history

history-let_in : let_in new_switch_lounge (writes 0 id 7 ∷ writes 1 id 8 ∷ []) ≡ 7 ∷ []
unfolding let_in let_in_by step write_id make_room offer Heap.push Heap.up send new_switch_lounge
    Assoc.get? Assoc.put Bytes-discrete
history-let_in = refl

-- A client that was added at time 3.
abbrev listed : LocalClientLounge
listed = add 3 60 client new_local_client_lounge

run-IsListed_example :
    (t : ℕ) × IsListed 60 53317 t
      (Presence.run 60 listed (Presence.ticks 4 ∷ Presence.adds 9 client ∷ Presence.ticks 10 ∷ []))
unfolding add new_local_client_lounge Assoc.put Assoc.get? ℕ_discrete
run-IsListed_example =
    run-IsListed 60 53317 3 listed
      (Presence.ticks 4 ∷ Presence.adds 9 client ∷ Presence.ticks 10 ∷ []) ((refl, tt)) refl
      (record { info = client; expire_at = 3 + 60 * 10 ^ 9 }, refl, refl)
      (omega arith, (omega arith, tt))

abbrev start : Core
start = record { lounge = new_switch_lounge; clients = new_local_client_lounge }

elsewhere : ◌≢◌ {A = ℕ} 53317 8080
elsewhere e = absurd (omega (arith, e))

core_loop_keeps_example :
    (core' : Core) × (core_loop 60 (store_of 9) start (from_multicast 0 0 ∷ from_tcp 1 0 ∷ [])
      ≡ done core')
    × (entry 8080 core'.clients ≡ entry 8080 start.clients)
unfolding SwitchLounge.load switch_message_to_local_send_client_info
core_loop_keeps_example =
    core_loop_keeps 60 8080 (store_of 9) start (from_multicast 0 0 ∷ from_tcp 1 0 ∷ [])
      ((_, refl), ((_, refl), tt)) new-Inv (elsewhere, (tt, tt))

abbrev answer : HttpResponse
answer = record { status_code = 200; body = codes "{}" }

alive_tick_lists_example :
    ((http : Option HttpResponse)
      → ListedAs 9 60 53317
          (codes "https")
          client
          new_local_client_lounge
          (alive_tick one_json (codes "53317") 9 60 http (some answer) new_local_client_lounge))
    × ListedAs 9 60 53317
        (codes "http")
        client
        new_local_client_lounge
        (alive_tick one_json (codes "53317") 9 60 (some answer) none new_local_client_lounge)
    × (alive_tick one_json (codes "53317") 9 60 none none new_local_client_lounge
        ≡ new_local_client_lounge)
unfolding new_local_client_lounge parse_port parse_uint
alive_tick_lists_example =
    alive_tick_lists one_json (codes "53317") 9 60 53317 new_local_client_lounge answer client refl
      refl refl
