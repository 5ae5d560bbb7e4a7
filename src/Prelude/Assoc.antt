-- ===== src/Prelude/Assoc.antt =====
-- Go maps as association lists. A Go map has no order: every statement is about every order of the
-- entries. Meant to be used qualified, `Assoc.put`.
use Prim.Native.Nat.{suc, ◌≤◌}
use mathlib.Core.Path.{◌≡◌, refl}
use mathlib.Core.Logic.{◌≢◌, ite}
use mathlib.Core.List.{List, [], ◌∷◌}
use mathlib.Core.Option.{Option, none, some}
use native.Mathlib.Omega.{arith}
use localsend_switchboard.Prelude.Lists.{length}

module _ {ℓ} {K V : Type ℓ} (dec : Discrete K) where
  -- `v, ok := m[k]`
  unfoldable pub get? : K → List (K × V) → Option V
  get? k [] = none
  get? k ((j, w) ∷ m) = ite (dec j k) (some w) (get? k m)

  -- `m[k] = v`
  unfoldable pub put : K → V → List (K × V) → List (K × V)
  put k v [] = (k, v) ∷ []
  put k v ((j, w) ∷ m) = ite (dec j k) ((k, v) ∷ m) ((j, w) ∷ put k v m)

  -- `delete(m, k)`
  unfoldable pub delete : K → List (K × V) → List (K × V)
  delete k [] = []
  delete k ((j, w) ∷ m) = ite (dec j k) (delete k m) ((j, w) ∷ delete k m)

  -- Every key has one entry.
  abbrev pub IsMap : List (K × V) → Type ℓ
  IsMap [] = Unit
  IsMap ((k, v) ∷ m) = (get? k m ≡ none) × IsMap m

  pub get?-put :
      (k j : K) (v : V) (m : List (K × V)) → get? j (put k v m) ≡ ite (dec k j) (some v) (get? j m)
  unfolding get? put
  get?-put k j v [] = refl
  get?-put k j v ((i, w) ∷ m) = ground (arith, get?-put k j v m)

  pub get?-delete :
      (k j : K) (m : List (K × V)) → get? j (delete k m) ≡ ite (dec k j) none (get? j m)
  unfolding get? delete
  get?-delete k j [] = ground arith
  get?-delete k j ((i, w) ∷ m) = ground (arith, get?-delete k j m)

  pub get?-put_own : (k : K) (v : V) (m : List (K × V)) → get? k (put k v m) ≡ some v
  get?-put_own k v m = ground (arith, get?-put k k v m)

  pub get?-put_other : (k j : K) (v : V) (m : List (K × V)) → k ≢ j → get? j (put k v m) ≡ get? j m
  get?-put_other k j v m other = ground (arith, get?-put k j v m)

  pub get?-delete_own : (k : K) (m : List (K × V)) → get? k (delete k m) ≡ none
  get?-delete_own k m = ground (arith, get?-delete k k m)

  pub get?-delete_other : (k j : K) (m : List (K × V)) → k ≢ j → get? j (delete k m) ≡ get? j m
  get?-delete_other k j m other = ground (arith, get?-delete k j m)

  pub put-IsMap : (k : K) (v : V) (m : List (K × V)) → IsMap m → IsMap (put k v m)
  unfolding get? put
  put-IsMap k v [] h = (refl, tt)
  put-IsMap k v ((i, w) ∷ m) h = ground (arith, get?-put k i v m, put-IsMap k v m h.1)

  pub delete-IsMap : (k : K) (m : List (K × V)) → IsMap m → IsMap (delete k m)
  unfolding delete
  delete-IsMap k [] h = tt
  delete-IsMap k ((i, w) ∷ m) h = ground (arith, get?-delete k i m, delete-IsMap k m h.1)

  pub length-delete-le : (k : K) (m : List (K × V)) → length (delete k m) ≤ length m
  unfolding delete
  length-delete-le k [] = omega arith
  length-delete-le k ((i, w) ∷ m) = ground (arith, length-delete-le k m)

  pub length-put-le : (k : K) (v : V) (m : List (K × V)) → length (put k v m) ≤ suc (length m)
  unfolding put
  length-put-le k v [] = omega arith
  length-put-le k v ((i, w) ∷ m) = ground (arith, length-put-le k v m)

  pub delete_absent : (k : K) (m : List (K × V)) → get? k m ≡ none → delete k m ≡ m
  unfolding get? delete
  delete_absent k [] h = refl
  delete_absent k ((i, w) ∷ m) h = ground (arith, delete_absent k m)

  pub length-put_new :
      (k : K) (v : V) (m : List (K × V)) → get? k m ≡ none → length (put k v m) ≡ suc (length m)
  unfolding get? put
  length-put_new k v [] h = refl
  length-put_new k v ((i, w) ∷ m) h = ground (arith, length-put_new k v m)

  pub length-delete_present :
      (k : K) (v : V) (m : List (K × V))
      → IsMap m
      → get? k m ≡ some v
      → suc (length (delete k m)) ≡ length m
  unfolding get? delete
  length-delete_present k v [] u h = ground arith
  length-delete_present k v ((i, w) ∷ m) u h =
      ground (arith, length-delete_present k v m u.1, delete_absent k m)
