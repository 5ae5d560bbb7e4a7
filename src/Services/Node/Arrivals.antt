-- ===== src/Services/Node/Arrivals.antt =====
-- What a message that arrives does to the waiting room.
use localsend_switchboard.Prelude.{
  ℕ, ◌≡◌, refl, subst, [], ◌∷◌, ◌++◌, Bytes, length, All, get_elem?-snoc_last,
}
use localsend_switchboard.Entities.{DiscoveryMessage}
use localsend_switchboard.Std.Channel.{done, ◌>>=◌}
use localsend_switchboard.Services.SwitchLounge.{Store, SwitchLounge, WriteResult, write}
use localsend_switchboard.Services.SwitchLounge.Inv as LoungeInv
use localsend_switchboard.Services.SwitchCore.{after_write, on_event, from_multicast, from_tcp}
use localsend_switchboard.Services.SwitchCore.Loop.{write-Inv}
use localsend_switchboard.Services.Node.{Host, Node, message}
use localsend_switchboard.Services.Node.Pointers.{HasMessage, HasMessage-load, KeepsMessages-snoc}
use localsend_switchboard.Services.Node.Waiting.{Wait, write-Wait}
use localsend_switchboard.Services.Node.Inv.{
  IsAt, IsCasting, IsCasting-keeps, NodeInv, All-HasMessage, IsAt-keeps,
}

-- A new message in the store, and the state of the waiting room behind its Write.
pub record Arrived (n : Node) (now : ℕ) (store : Store) : Type 0 where
  pub result : WriteResult
  pub lounge : SwitchLounge
  pub wrote : write now store (length n.store) n.core.lounge ≡ done (result, lounge)
  pub inv : LoungeInv.Inv lounge
  pub waiting : All (HasMessage store) lounge.lounge.buffer
  pub at : IsAt store n.hub n.task
  pub casting : IsCasting store n.hub n.cast

pub arrives :
    (n : Node) (now : ℕ) (addr : Bytes) (p : DiscoveryMessage)
    → NodeInv n
    → Arrived n now (n.store ++ message addr p ∷ [])
arrives n now addr p v =
    let store = n.store ++ message addr p ∷ [] in
    let kept = KeepsMessages-snoc n.store (message addr p) in
    let new : HasMessage store (length n.store) =
      (message addr p, p, get_elem?-snoc_last n.store (message addr p), refl) in
    let (q, e) = HasMessage-load store (length n.store) new in
    let (r, sl', w, v') = write-Inv now store (length n.store) q n.core.lounge e v.lounge in
    record {
      result = r;
      lounge = sl';
      wrote = w;
      inv = v';
      waiting = subst (Wait (HasMessage store)) w (
          write-Wait (HasMessage store) now store (length n.store) q n.core.lounge e
            (All-HasMessage n.store store n.core.lounge.lounge.buffer kept v.waiting) new);
      at = IsAt-keeps n.store store n.hub n.hub n.task kept (λ c e. e) v.at;
      casting = IsCasting-keeps n.store store n.hub n.hub n.cast kept (λ c e. e) v.casting;
    }

-- The core's part of an arrival.
pub from_multicast_lem :
    (host : Host) (n : Node) (now : ℕ) (store : Store) (r : WriteResult) (sl : SwitchLounge)
    → write now store (length n.store) n.core.lounge ≡ done (r, sl)
    → (on_event host.lifetime store n.core (from_multicast now (length n.store)) >>= λ core.
        done (record n { core = core; store = store }))
      ≡ done (record n {
        core = after_write now host.lifetime store (length n.store) n.core.clients (r, sl);
        store = store;
      })
unfolding on_event
from_multicast_lem host n now store r sl e = rw e refl

pub from_tcp_lem :
    (host : Host) (n : Node) (now : ℕ) (store : Store) (sl : SwitchLounge) (r : WriteResult)
    → write now store (length n.store) n.core.lounge ≡ done (r, sl)
    → (on_event host.lifetime store n.core (from_tcp now (length n.store)) >>= λ core.
        done (record n { core = core; store = store }))
      ≡ done (record n { core = record n.core { lounge = sl }; store = store })
unfolding on_event
from_tcp_lem host n now store sl r e = rw e refl
