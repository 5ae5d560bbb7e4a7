-- ===== src/Services/SwitchLounge/Keys.antt =====
-- The cache: the map of identifiers and the heap of their expiry times name the same identifiers.
use mathlib.Core.List.{Mem, Perm, mem-cons_self}
use mathlib.Core.List.Perm
use localsend_switchboard.Prelude.{
  ◌≡◌, sym, ◌∙◌, Bool, true, List, ◌∷◌, map, Bytes, Bytes-discrete, length, length-map, length-perm,
  none, some,
}
use localsend_switchboard.Prelude.Assoc
use localsend_switchboard.Prelude.AssocKeys.{keys, keys-put_new, keys-delete}
use localsend_switchboard.Std.Heap.{TtlHeapItem, TtlHeap, item_at}
use localsend_switchboard.Std.Heap
use localsend_switchboard.Std.Heap.Order.{IsHeap}
use localsend_switchboard.Std.Heap.Perms.{push-perm}
use localsend_switchboard.Std.Heap.Queue.{push-IsHeap, pop-Popped}

abbrev pub heap_ids : TtlHeap → List Bytes
heap_ids = map (λ x. x.id)

pub record IsCache (h : TtlHeap) (ids : List (Bytes × Bool)) : Type 0 where
  pub ordered : IsHeap (length h) h
  pub is_map : Assoc.IsMap Bytes-discrete ids
  pub same_ids : Perm (heap_ids h) (keys ids)

pub same_size : {h : TtlHeap} {ids : List (Bytes × Bool)} → IsCache h ids → length h ≡ length ids
same_size {h} {ids} c =
    sym (length-map (λ x. x.id) h) ∙ length-perm c.same_ids ∙ length-map (λ e. e.0) ids

-- Taking the earliest entry out of both.
pub pop-IsCache :
    (h : TtlHeap) (ids : List (Bytes × Bool)) (x : TtlHeapItem) (rest : TtlHeap)
    → IsCache h ids
    → Heap.pop h ≡ some (x, rest)
    → IsCache rest (Assoc.delete Bytes-discrete x.id ids)
pop-IsCache h ids x rest c e =
    let p = pop-Popped h x rest c.ordered e in
    let both : Perm (x.id ∷ heap_ids rest) (keys ids) =
      Perm.trans (Perm.map (λ y. y.id) p.same) c.same_ids in
    let there : Mem x.id (keys ids) = (Perm.mem_iff both).0 mem-cons_self in
    record {
      ordered = p.ordered;
      is_map = Assoc.delete-IsMap Bytes-discrete x.id ids c.is_map;
      same_ids =
          Perm.cons_inv (Perm.trans both (keys-delete Bytes-discrete x.id ids c.is_map there));
    }

-- Adding an entry under a new identifier to both.
pub push-IsCache :
    (h : TtlHeap) (ids : List (Bytes × Bool)) (x : TtlHeapItem)
    → IsCache h ids
    → Assoc.get? Bytes-discrete x.id ids ≡ none
    → IsCache (Heap.push h x) (Assoc.put Bytes-discrete x.id true ids)
push-IsCache h ids x c e = record {
  ordered = push-IsHeap h x c.ordered;
  is_map = Assoc.put-IsMap Bytes-discrete x.id true ids c.is_map;
  same_ids = Perm.trans (Perm.map (λ y. y.id) (push-perm h x)) (
      Perm.trans (Perm.cons x.id c.same_ids)
        (Perm.symm (keys-put_new Bytes-discrete x.id true ids e)));
}
