-- ===== src/Services/Node/Inv.antt =====
-- The invariant of a node.
use localsend_switchboard.Prelude.{ℕ, ◌≡◌, ◌⊎◌, Option, none, some, List, [], ◌∷◌, All}
use localsend_switchboard.Std.Channel.{Outcome, done, blocked}
use localsend_switchboard.Services.LocalClientLounge.{LocalClientLounge}
use localsend_switchboard.Services.SwitchLounge.{Store}
use localsend_switchboard.Services.SwitchLounge.Inv as LoungeInv
use localsend_switchboard.Services.TcpConnectionHub.{ConnWithChan, TcpConnectionHub}
use localsend_switchboard.Services.TcpConnectionHub.Inv as HubInv
use localsend_switchboard.Services.Node.{Task, Node, Cast, idle, packs, casts}
use localsend_switchboard.Services.Node.Pointers.{HasMessage, KeepsMessages}
use localsend_switchboard.Services.Node.Registered.{IsRegistered}

-- The forwarder is at a message, and has registered connections left.
abbrev pub IsAt : Store → TcpConnectionHub → Option Task → Type 0
IsAt store hub none = Unit
IsAt store hub (some t) = HasMessage store t.msg × All (IsRegistered hub) t.rest

-- The broadcaster is at a message, and has registered connections left.
abbrev pub IsCasting : Store → TcpConnectionHub → Cast → Type 0
IsCasting store hub idle = Unit
IsCasting store hub (packs _) = Unit
IsCasting store hub (casts _ msg cs) = HasMessage store msg × All (IsRegistered hub) cs

-- The signal that the cleaner of the clients waits for is closed with their lounge.
abbrev pub IsSignalled : LocalClientLounge → Type 0
IsSignalled lcl = lcl.close_signal.is_closed ≡ lcl.closed

pub record NodeInv (n : Node) : Type 0 where
  pub lounge : LoungeInv.Inv n.core.lounge
  pub hub : HubInv.Inv n.hub
  pub waiting : All (HasMessage n.store) n.core.lounge.lounge.buffer
  pub at : IsAt n.store n.hub n.task
  pub casting : IsCasting n.store n.hub n.cast
  pub clients : IsSignalled n.core.clients

-- An act waits, or leaves a state with the invariant.
abbrev pub Goes : Outcome Node → Type 0
Goes o = (o ≡ blocked) ⊎ ((n : Node) × (o ≡ done n) × NodeInv n)

pub All-HasMessage :
    (store store' : Store) (ms : List ℕ)
    → KeepsMessages store store'
    → All (HasMessage store) ms
    → All (HasMessage store') ms
All-HasMessage store store' [] k h = tt
All-HasMessage store store' (m ∷ ms) k (e, h) = (k m e, All-HasMessage store store' ms k h)

All-IsRegistered :
    (hub hub' : TcpConnectionHub) (cs : List ConnWithChan)
    → ((c : ConnWithChan) → IsRegistered hub c → IsRegistered hub' c)
    → All (IsRegistered hub) cs
    → All (IsRegistered hub') cs
All-IsRegistered hub hub' [] k h = tt
All-IsRegistered hub hub' (c ∷ cs) k (e, h) = (k c e, All-IsRegistered hub hub' cs k h)

pub IsAt-keeps :
    (store store' : Store) (hub hub' : TcpConnectionHub) (t : Option Task)
    → KeepsMessages store store'
    → ((c : ConnWithChan) → IsRegistered hub c → IsRegistered hub' c)
    → IsAt store hub t
    → IsAt store' hub' t
IsAt-keeps store store' hub hub' none k r h = tt
IsAt-keeps store store' hub hub' (some t) k r (e, h) =
    (k t.msg e, All-IsRegistered hub hub' t.rest r h)

pub IsCasting-keeps :
    (store store' : Store) (hub hub' : TcpConnectionHub) (b : Cast)
    → KeepsMessages store store'
    → ((c : ConnWithChan) → IsRegistered hub c → IsRegistered hub' c)
    → IsCasting store hub b
    → IsCasting store' hub' b
IsCasting-keeps store store' hub hub' idle k r h = tt
IsCasting-keeps store store' hub hub' (packs _) k r h = tt
IsCasting-keeps store store' hub hub' (casts _ msg cs) k r (e, h) =
    (k msg e, All-IsRegistered hub hub' cs r h)
