-- ===== src/Utils/Log/Names.antt =====
-- The names that rotation gives are read back, with their base and identifier.
use localsend_switchboard.Prelude.{
  ℕ, ◌^◌, ◌<◌, ◌≡◌, ◌≢◌, refl, sym, ap, ◌∙◌, subst, false, Option, none, some, [], ◌∷◌, ◌++◌, arith,
  ◌==◌, Bytes, codes, length, drop, drop-append, All, Option-cases, Bool-cases, inl, inr,
}
use localsend_switchboard.Std.Strconv.{
  IsDigit, is_digit, value, value-format_uint, format_uint, format_uint-IsDigit, format_uint-filled,
  parse_int-format_uint,
}
use localsend_switchboard.Utils.Log.{
  strip, digits_log, suffix, find_submatch, rotated_of, rotated_log_file,
}

-- No byte is a newline.
abbrev pub IsLine : Bytes → Type 0
IsLine = All (λ c. c ≢ 10)

strip_own : (p s : Bytes) → strip p (p ++ s) ≡ some s
unfolding strip
strip_own [] s = refl
strip_own (c ∷ p) s = ground (arith, strip_own p s)

strip_inv : (p s t : Bytes) → strip p s ≡ some t → s ≡ p ++ t
unfolding strip
strip_inv [] s t e = cc
strip_inv (c ∷ p) [] t e = absurd (cc)
strip_inv (c ∷ p) (d ∷ s) t e = ground (arith, strip_inv p s t)

-- No byte is an underscore.
abbrev IsPlain : Bytes → Type 0
IsPlain = All (λ c. c ≢ b'_')

log_only : (s : Bytes) (o : Option Bytes) → strip (codes ".log") s ≡ o → o ≡ some [] → IsPlain s
log_only s o e f = rw (strip_inv (codes ".log") s [] (e ∙ f)) (omega arith)

digits_log-IsPlain : (s ds : Bytes) → digits_log s ≡ some ds → IsPlain s
unfolding digits_log
digits_log-IsPlain [] ds e = absurd (cc)
digits_log-IsPlain (c ∷ s) ds e = elim (Bool-cases (is_digit c)) [
  | inr other ↦ absurd (ground arith)
  | inl digit ↦ elim (Option-cases (digits_log s)) [
    | inr (r, f) ↦ (λ u. absurd (ground arith), digits_log-IsPlain s r f)
    | inl f ↦
        let taken : strip (codes ".log") s ≡ some [] = ground arith in
        (λ u. absurd (ground arith), log_only s _ refl taken)
  ]
]

digits_log_own :
    (d : ℕ) (ds : Bytes)
    → All IsDigit (d ∷ ds)
    → digits_log (d ∷ (ds ++ codes ".log")) ≡ some (d ∷ ds)
unfolding digits_log strip
digits_log_own d [] h = ground arith
digits_log_own d (c ∷ ds) h = ground (arith, digits_log_own c ds h.1)

suffix_own :
    (id : ℕ)
    → suffix (codes "_rotated." ++ (format_uint id ++ codes ".log")) ≡ some (format_uint id)
unfolding suffix strip
suffix_own id = digits_own (format_uint id) (format_uint-filled id) (format_uint-IsDigit id)
  where
    digits_own :
        (s : Bytes)
        → (d : ℕ) × (t : Bytes) × (s ≡ d ∷ t)
        → All IsDigit s
        → digits_log (s ++ codes ".log") ≡ some s
    digits_own s (d, t, e) h = rw e (digits_log_own d t (rw e at h))

-- Over two texts, both have the property.
All-append_inv : (xs ys : Bytes) → IsPlain (xs ++ ys) → IsPlain ys
All-append_inv [] ys h = h
All-append_inv (x ∷ xs) ys h = All-append_inv xs ys h.1

-- An underscore behind the first byte rules the suffix out.
suffix_early : (c : ℕ) (b rest : Bytes) → suffix (c ∷ (b ++ b'_' ∷ rest)) ≡ none
unfolding suffix
suffix_early c b rest = elim (Option-cases (strip (codes "_rotated.") (c ∷ (b ++ b'_' ∷ rest)))) [
  | inl e ↦ rw (e, suffix)
  | inr (t, e) ↦
      let whole = strip_inv (codes "_rotated.") (c ∷ (b ++ b'_' ∷ rest)) t e in
      elim (Option-cases (digits_log t)) [
        | inl f ↦ rw (e, suffix) f
        | inr (ds, f) ↦
            let plain : IsPlain (codes "rotated." ++ t) =
              ground (arith, digits_log-IsPlain t ds f) in
            let same : b ++ b'_' ∷ rest ≡ codes "rotated." ++ t = cc (whole) in
            absurd ((All-append_inv b (b'_' ∷ rest) (subst IsPlain (sym same) plain)).0 refl)
      ]
]

find_submatch_own :
    (b : Bytes) (id c : ℕ)
    → IsLine (c ∷ b)
    → find_submatch (rotated_log_file (c ∷ b) id) ≡ some (c ∷ b, format_uint id)
unfolding find_submatch rotated_log_file
find_submatch_own [] id c h = rw (suffix_own id, find_submatch) (ground (arith, h.0))
find_submatch_own (d ∷ b) id c h =
    let early = suffix_early d b (codes "rotated." ++ (format_uint id ++ codes ".log")) in
    let other : (c == 10) ≡ false = ground (arith, h.0) in
    rw other (rw (early, find_submatch) (rw (find_submatch_own b id d h.1, find_submatch) refl))

-- A name that rotation gives to a file is read back with its base and its identifier, for a base that
-- is not empty and has no newline, and an identifier below 2 ^ 31.
pub rotated_of-rotated_log_file :
    (b : Bytes) (id c : ℕ)
    → IsLine (c ∷ b)
    → id < 2 ^ 31
    → rotated_of (rotated_log_file (c ∷ b) id)
      ≡ some (record { base_name = c ∷ b; log_id = id; full_name = rotated_log_file (c ∷ b) id })
unfolding rotated_of
rotated_of-rotated_log_file b id c h small =
    rw (find_submatch_own b id c h, rotated_of)
      (rw (parse_int-format_uint 32 id (omega arith) small, rotated_of) refl)

-- Different identifiers give different names.
pub rotated_log_file_injective :
    (b : Bytes) (i j : ℕ) → rotated_log_file b i ≡ rotated_log_file b j → i ≡ j
unfolding rotated_log_file
rotated_log_file_injective b i j e =
    let tails = sym (drop-append b _) ∙ ap (drop (length b)) e ∙ drop-append b _ in
    let digits = sym (suffix_own i) ∙ ap suffix tails ∙ suffix_own j in
    let same : format_uint i ≡ format_uint j = cc digits in
    sym (value-format_uint i) ∙ ap (value 0) same ∙ value-format_uint j
