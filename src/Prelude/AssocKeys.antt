-- ===== src/Prelude/AssocKeys.antt =====
-- The keys of a map, up to order.
use mathlib.Core.List.Perm
use mathlib.Core.Logic.Or
use mathlib.Core.HLevel.{⊥_prop}
use mathlib.Core.Path.{◌≡◌, refl, sym, subst}
use mathlib.Core.Logic.{if_pos, if_neg}
use mathlib.Core.List.{
  List, [], ◌∷◌, map, Mem, Perm, not-mem-nil, mem-cons_self, mem-cons_of_mem, eq-or-mem_of_mem-cons,
}
use mathlib.Core.Option.{none}
use native.Mathlib.Omega.{arith}
use localsend_switchboard.Prelude.Assoc.{get?, put, delete, IsMap, delete_absent}

module _ {ℓ} {K V : Type ℓ} where
  abbrev pub keys : List (K × V) → List K
  keys = map (λ e. e.0)

module _ {ℓ} {K V : Type ℓ} (dec : Discrete K) where
  pub not-mem_of_none : (k : K) (m : List (K × V)) → get? dec k m ≡ none → ¬ Mem k (keys m)
  unfolding get?
  not-mem_of_none k [] e = not-mem-nil
  not-mem_of_none k ((j, w) ∷ m) e = λ here.
      Or.elim ⊥_prop (eq-or-mem_of_mem-cons here) (λ same. ground arith)
        (not-mem_of_none k m (ground arith))

  pub none_of_not-mem : (k : K) (m : List (K × V)) → ¬ Mem k (keys m) → get? dec k m ≡ none
  unfolding get?
  none_of_not-mem k [] h = refl
  none_of_not-mem k ((j, w) ∷ m) h = elim (dec j k) [
    | yes p ↦ absurd (h (subst (λ x. Mem x (j ∷ keys m)) p mem-cons_self))
    | no p ↦ rw (if_neg _ p) (none_of_not-mem k m (λ there. h (mem-cons_of_mem j there)))
  ]

  -- A new key comes in addition to the others.
  pub keys-put_new :
      (k : K) (v : V) (m : List (K × V))
      → get? dec k m ≡ none
      → Perm (keys (put dec k v m)) (k ∷ keys m)
  unfolding get? put
  keys-put_new k v [] e = Perm.refl (k ∷ [])
  keys-put_new k v ((j, w) ∷ m) e = elim (dec j k) [
    | yes p ↦ absurd (ground arith)
    | no p ↦
        rw (if_neg _ p)
          (Perm.trans (Perm.cons j (keys-put_new k v m (ground arith))) (Perm.swap k j (keys m)))
  ]

  -- Deleting a key that is there takes out that key and no other.
  pub keys-delete :
      (k : K) (m : List (K × V))
      → IsMap dec m
      → Mem k (keys m)
      → Perm (keys m) (k ∷ keys (delete dec k m))
  unfolding get? delete
  keys-delete k [] u h = absurd (not-mem-nil h)
  keys-delete k ((j, w) ∷ m) u h = elim (dec j k) [
    | yes p ↦
        let gone : get? dec k m ≡ none = subst (λ x. get? dec x m ≡ none) p u.0 in
        rw (if_pos _ p, delete_absent dec k m gone, p) (Perm.refl (k ∷ keys m))
    | no p ↦
        let there : Mem k (keys m) =
          Or.elim squash₁ (eq-or-mem_of_mem-cons h) (λ same. absurd (p (sym same))) (λ t. t) in
        rw (if_neg _ p) (
          Perm.trans (Perm.cons j (keys-delete k m u.1 there))
            (Perm.swap k j (keys (delete dec k m))))
  ]
