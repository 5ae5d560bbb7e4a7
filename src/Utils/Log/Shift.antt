-- ===== src/Utils/Log/Shift.antt =====
-- What the two loops of a rotation do to the history: the first drops its end, the second makes room
-- for a new first one.
use mathlib.Core.List.{reverse, reverse-append}
use localsend_switchboard.Prelude.{
  ℕ, zero, suc, ◌+◌, ◌≤◌, ◌<◌, ◌≡◌, ◌≢◌, refl, sym, ap, ◌∙◌, subst, ◌⊎◌, inl, inr, Bool, true, none,
  some, [], ◌∷◌, ◌++◌, arith, Bytes, Bytes-discrete, Option-cases, dec_lt,
}
use localsend_switchboard.Prelude.Assoc
use localsend_switchboard.Utils.Log.{
  Call, Files, os_rename, remove_all, rename_all, rotated_log_file,
}
use localsend_switchboard.Utils.Log.Rep.{entry, entries, has}
use localsend_switchboard.Utils.Log.Places.{
  nth, Frame, Works, Frame-trans, Frame-delete, Frame-put, name_other, kept, os_remove_lem,
  os_rename_lem,
}

module _ (base : Bytes) (permits : Call → Bool) (all : (call : Call) → permits call ≡ true) where
  -- Of the files behind `lo`, `n` are gone.
  abbrev pub Cleared : ℕ → ℕ → Files → Files → Type 0
  Cleared lo n files files' =
      (i : ℕ)
      → ((lo ≤ i) × (i < lo + n) × (has files' (nth base i) ≡ none))
        ⊎ (((i < lo) ⊎ (lo + n ≤ i)) × (has files' (nth base i) ≡ has files (nth base i)))

  Cleared-suc :
      (lo n : ℕ) (files files' : Files)
      → Cleared (suc lo) n (Assoc.delete Bytes-discrete (nth base lo) files) files'
      → Cleared lo (suc n) files files'
  Cleared-suc lo n files files' rest i = elim (rest i) [
    | inl (h, b, e) ↦ inl (omega arith, omega arith, e)
    | inr (inr above, e) ↦ inr (inr (omega arith), e ∙ kept base lo i files (omega arith))
    | inr (inl below, e) ↦ elim (dec_lt i lo) [
      | yes h ↦ inr (inl h, e ∙ kept base lo i files (omega arith))
      | no h ↦
          let same : lo ≡ i = omega arith in
          let at =
            subst (λ j. has (Assoc.delete Bytes-discrete (nth base lo) files) (nth base j) ≡ none)
              same (Assoc.get?-delete_own Bytes-discrete (nth base lo) files) in
          inl (omega arith, omega arith, e ∙ at)
    ]
  ]

  pub remove_all-Cleared :
      (n lo : ℕ) (files : Files)
      → Assoc.IsMap Bytes-discrete files
      → ((i : ℕ) → lo ≤ i → i < lo + n → has files (nth base i) ≢ none)
      → Works base (Cleared lo n files) files (remove_all permits (entries base (suc lo) n) files)
  unfolding remove_all
  remove_all-Cleared zero lo files u there = record {
    succeeds = refl;
    is_map = u;
    frame = λ k. inl refl;
    gives = λ i. inr (elim (dec_lt i lo) [ yes h ↦ inl h | no h ↦ inr (omega arith) ], refl);
  }
  remove_all-Cleared (suc n) lo files u there = elim (Option-cases (has files (nth base lo))) [
    | inl e ↦ absurd (there lo (omega arith) (omega arith) e)
    | inr (c, e) ↦
        let files' = Assoc.delete Bytes-discrete (nth base lo) files in
        let w =
          remove_all-Cleared n (suc lo) files' (Assoc.delete-IsMap Bytes-discrete _ files u)
            (λ i h b g.
              there i (omega arith) (omega arith) (sym (kept base lo i files (omega arith)) ∙ g)) in
        rw (os_remove_lem base permits all (nth base lo) c files e, remove_all)
          (record {
            succeeds = w.succeeds;
            is_map = w.is_map;
            frame = Frame-trans base files files' _ (Frame-delete base lo files) w.frame;
            gives = Cleared-suc lo n files _ w.gives;
          })
  ]

  -- The first `n` places have moved up by one; those behind have not changed.
  abbrev pub Raised : ℕ → Files → Files → Type 0
  Raised n files files' =
      ((i : ℕ) → i < n → has files' (nth base (suc i)) ≡ has files (nth base i))
      × ((i : ℕ) → n < i → has files' (nth base i) ≡ has files (nth base i))

  -- A place is moved up.
  raise : ℕ → Bytes → Files → Files
  raise i c files =
      Assoc.put Bytes-discrete (nth base (suc i)) c (Assoc.delete Bytes-discrete (nth base i) files)

  raise_new :
      (i : ℕ) (c : Bytes) (files : Files) → has (raise i c files) (nth base (suc i)) ≡ some c
  unfolding raise
  raise_new i c files = Assoc.get?-put_own Bytes-discrete (nth base (suc i)) c _

  raise_other :
      (i j : ℕ) (c : Bytes) (files : Files)
      → i ≢ j
      → suc i ≢ j
      → has (raise i c files) (nth base j) ≡ has files (nth base j)
  unfolding raise
  raise_other i j c files other other' =
      Assoc.get?-put_other Bytes-discrete (nth base (suc i)) (nth base j) c _
        (name_other base (suc i) j other')
      ∙ kept base i j files other

  raise-IsMap :
      (i : ℕ) (c : Bytes) (files : Files)
      → Assoc.IsMap Bytes-discrete files
      → Assoc.IsMap Bytes-discrete (raise i c files)
  unfolding raise
  raise-IsMap i c files u =
      Assoc.put-IsMap Bytes-discrete _ c _ (Assoc.delete-IsMap Bytes-discrete _ files u)

  Frame-raise : (i : ℕ) (c : Bytes) (files : Files) → Frame base files (raise i c files)
  unfolding raise
  Frame-raise i c files =
      Frame-trans base files (Assoc.delete Bytes-discrete (nth base i) files) _
        (Frame-delete base i files) (Frame-put base (suc i) c _)

  entries_last :
      (lo n : ℕ) → entries base lo (suc n) ≡ entries base lo n ++ (entry base (lo + n) ∷ [])
  entries_last lo zero = ap (λ i. entry base i ∷ []) (omega arith)
  entries_last lo (suc n) = ap (◌∷◌ (entry base lo)) (
      entries_last (suc lo) n
      ∙ ap (λ i. entries base (suc lo) n ++ (entry base i ∷ [])) (omega arith))

  reverse-entries :
      (n : ℕ) → reverse (entries base 1 (suc n)) ≡ entry base (suc n) ∷ reverse (entries base 1 n)
  reverse-entries n =
      ap reverse (entries_last 1 n)
      ∙ reverse-append (entries base 1 n) (entry base (1 + n) ∷ [])
      ∙ ap (λ i. entry base i ∷ reverse (entries base 1 n)) (omega arith)

  Raised-suc :
      (n : ℕ) (c : Bytes) (files files' : Files)
      → has files (nth base n) ≡ some c
      → Raised n (raise n c files) files'
      → Raised (suc n) files files'
  Raised-suc n c files files' e (up, same) = (
    λ i h. elim (dec_lt i n) [
      | yes b ↦ up i b ∙ raise_other n i c files (omega arith) (omega arith)
      | no b ↦
          let last : n ≡ i = omega arith in
          subst (λ j. has files' (nth base (suc j)) ≡ has files (nth base j)) last
            (same (suc n) (omega arith) ∙ raise_new n c files ∙ sym e)
    ],
    λ i h. same i (omega arith) ∙ raise_other n i c files (omega arith) (omega arith),
  )

  pub rename_all-Raised :
      (n : ℕ) (files : Files)
      → Assoc.IsMap Bytes-discrete files
      → ((i : ℕ) → i < n → has files (nth base i) ≢ none)
      → Works base (Raised n files) files (rename_all permits (reverse (entries base 1 n)) files)
  unfolding rename_all
  rename_all-Raised zero files u there = record {
    succeeds = refl;
    is_map = u;
    frame = λ k. inl refl;
    gives = (λ i h. absurd (omega arith), λ i h. refl);
  }
  rename_all-Raised (suc n) files u there = elim (Option-cases (has files (nth base n))) [
    | inl e ↦ absurd (there n (omega arith) e)
    | inr (c, e) ↦
        let w = rename_all-Raised n (raise n c files) (raise-IsMap n c files u) (λ i h g.
          there i (omega arith) (sym (raise_other n i c files (omega arith) (omega arith)) ∙ g)) in
        rw (reverse-entries n, rename_all)
          (rw (rename_last n c files e, rename_all)
            (record {
              succeeds = w.succeeds;
              is_map = w.is_map;
              frame = Frame-trans base files (raise n c files) _ (Frame-raise n c files) w.frame;
              gives = Raised-suc n c files _ e w.gives;
            }))
  ]
    where
      rename_last :
          (n : ℕ) (c : Bytes) (files : Files)
          → has files (nth base n) ≡ some c
          → os_rename permits (nth base n) (rotated_log_file base (suc n + 1)) files
            ≡ some (raise n c files)
      rename_last n c files e =
          unfold raise in
          subst
            (λ k.
              os_rename permits (nth base n) (rotated_log_file base k) files
              ≡ some (
                  Assoc.put Bytes-discrete (nth base (suc n)) c
                    (Assoc.delete Bytes-discrete (nth base n) files)))
            (omega arith) (os_rename_lem base permits all (nth base n) (nth base (suc n)) c files e)
