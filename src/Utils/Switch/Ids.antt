-- ===== src/Utils/Switch/Ids.antt =====
-- The identifier that GetDiscoveryId builds names one message of one node, and the identifiers of
-- nodes are made of letters and digits.
use localsend_switchboard.Prelude.{
  ℕ, ◌%◌, ◌≤◌, ◌<◌, ◌≡◌, ◌↔◌, refl, sym, ap, ◌∙◌, ◌⊎◌, [], ◌∷◌, ◌++◌, arith, Bytes, All, length,
  length-map, subst,
}
use localsend_switchboard.Entities.{DiscoveryMessage}
use localsend_switchboard.Std.Strconv.{
  format_uint, value, value-format_uint, format_uint-IsDigit, IsDigit,
}
use localsend_switchboard.Utils.Switch.{id_letter, generate_random_switch_id, get_discovery_id}

separator_clash : (ys es : Bytes) → ¬ All IsDigit (ys ++ b'_' ∷ es)
separator_clash [] es h = omega arith
separator_clash (y ∷ ys) es h = separator_clash ys es h.1

-- The last `_` splits an identifier.
split_unique :
    (xs ys ds es : Bytes)
    → All IsDigit ds
    → All IsDigit es
    → xs ++ b'_' ∷ ds ≡ ys ++ b'_' ∷ es
    → (xs ≡ ys) × (ds ≡ es)
split_unique [] [] ds es hd he e = (refl, cc)
split_unique [] (y ∷ ys) ds es hd he e =
    let tail : ds ≡ ys ++ b'_' ∷ es = cc in
    absurd (separator_clash ys es (subst (All IsDigit) tail hd))
split_unique (x ∷ xs) [] ds es hd he e =
    let tail : es ≡ xs ++ b'_' ∷ ds = cc in
    absurd (separator_clash xs ds (subst (All IsDigit) tail he))
split_unique (x ∷ xs) (y ∷ ys) ds es hd he e =
    let (same, rest) = split_unique xs ys ds es hd he (cc) in (cc (same), rest)

-- Two messages have one identifier exactly when they agree on the node and on the sequence number.
pub get_discovery_id-eq_iff :
    (m n : DiscoveryMessage)
    → (get_discovery_id m ≡ get_discovery_id n)
      ↔ ((m.switch_id ≡ n.switch_id) × (m.discovery_seq ≡ n.discovery_seq))
unfolding get_discovery_id
get_discovery_id-eq_iff m n = (
  λ e.
      let (same, digits) =
        split_unique m.switch_id n.switch_id (format_uint m.discovery_seq)
          (format_uint n.discovery_seq) (format_uint-IsDigit m.discovery_seq)
          (format_uint-IsDigit n.discovery_seq) e in
      (
        same,
        sym (value-format_uint m.discovery_seq)
            ∙ ap (value 0) digits
            ∙ value-format_uint n.discovery_seq,
      ),
  λ h. rw (h.0, h.1),
)

-- A byte of `ID_LETTERS`.
abbrev pub IsLetter : ℕ → Type 0
IsLetter c = ((b'a' ≤ c) × (c ≤ b'z')) ⊎ ((b'A' ≤ c) × (c ≤ b'Z')) ⊎ ((b'0' ≤ c) × (c ≤ b'9'))

id_letter-IsLetter : (i : ℕ) → i < 62 → IsLetter (id_letter i)
unfolding id_letter
id_letter-IsLetter i h = grind arith

letters : (random : Bytes) → All IsLetter (generate_random_switch_id random)
unfolding generate_random_switch_id
letters [] = tt
letters (b ∷ bs) = (id_letter-IsLetter (b % 62) (omega arith), letters bs)

-- Whatever the random bytes, a generated identifier is as long as they are, and consists of ASCII letters and digits.
pub generate_random_switch_id-letters :
    (random : Bytes)
    → (length (generate_random_switch_id random) ≡ length random)
      × All IsLetter (generate_random_switch_id random)
unfolding generate_random_switch_id
generate_random_switch_id-letters random = (length-map _ random, letters random)
