-- ===== src/Std/Strconv.antt =====
-- Go's strconv, base 10, as utils/switch.go, utils/net.go, main.go and services/tcp_core.go call it.
-- A digit is a byte from 48 to 57.
use localsend_switchboard.Prelude.{
  ℕ, zero, suc, ◌+◌, ◌-◌, ◌*◌, ◌/◌, ◌%◌, ◌^◌, ◌≤◌, ◌<◌, ◌≡◌, refl, subst, ap, ◌∙◌, Bool, true,
  false, ◌&&◌, [], ◌∷◌, arith, ltb, leb, ◌==◌, if◌then◌else◌, Bytes, Bool-cases, inl, inr, All,
}
use localsend_switchboard.Prelude.Int.{ℤ, pos, negsuc}

abbrev pub is_digit : ℕ → Bool
is_digit c = leb b'0' c && leb c b'9'

-- The digits of `n` in front of `acc`.
digits_loop : ℕ → ℕ → Bytes → Bytes
digits_loop zero n acc = acc
digits_loop (suc f) n acc =
    let rest = digits_loop f (n / 10) ((48 + n % 10) ∷ acc) in
    if n / 10 == 0 then (48 + n % 10) ∷ acc else rest

-- `strconv.FormatUint(n, 10)`; each round divides by ten, so `n + 1` rounds are enough.
unfoldable pub format_uint : ℕ → Bytes
unfolding digits_loop
format_uint n = digits_loop (suc n) n []

-- The number that digits stand for, after those that `acc` stands for.
unfoldable pub value : ℕ → Bytes → ℕ
value acc [] = acc
value acc (d ∷ ds) = value (acc * 10 + (d - 48)) ds

unfoldable pub all_digits : Bytes → Bool
all_digits [] = true
all_digits (c ∷ s) = is_digit c && all_digits s

-- Why a conversion failed.
pub data NumError : Type 0 where
  syntax_error range_error : NumError

pub data Parsed {ℓ} (A : Type ℓ) : Type ℓ where
  ok : A → Parsed A
  failed : NumError → A → Parsed A

-- `strconv.ParseUint(s, 10, bits)`. A failure has a value too: 0, or the greatest one.
unfoldable pub parse_uint : ℕ → Bytes → Parsed ℕ
unfolding value all_digits
parse_uint bits [] = failed syntax_error 0
parse_uint bits (c ∷ s) =
    if all_digits (c ∷ s)
    then (if ltb (value 0 (c ∷ s)) (2 ^ bits)
        then ok (value 0 (c ∷ s))
        else failed range_error (2 ^ bits - 1))
    else failed syntax_error 0

-- `strconv.ParseInt` of what stands behind the sign.
positive : ℕ → Parsed ℕ → Parsed ℤ
positive bits (failed syntax_error n) = failed syntax_error (pos 0)
positive bits (failed range_error n) = failed range_error (pos (2 ^ (bits - 1) - 1))
positive bits (ok n) =
    if ltb n (2 ^ (bits - 1)) then ok (pos n) else failed range_error (pos (2 ^ (bits - 1) - 1))

abbrev pub negate : ℕ → ℤ
negate zero = pos 0
negate (suc n) = negsuc n

negative : ℕ → Parsed ℕ → Parsed ℤ
negative bits (failed syntax_error n) = failed syntax_error (pos 0)
negative bits (failed range_error n) = failed range_error (negsuc (2 ^ (bits - 1) - 1))
negative bits (ok n) =
    if leb n (2 ^ (bits - 1))
    then ok (negate n)
    else failed range_error (negsuc (2 ^ (bits - 1) - 1))

-- `strconv.ParseInt(s, 10, bits)`.
unfoldable pub parse_int : ℕ → Bytes → Parsed ℤ
unfolding positive negative parse_uint
parse_int bits [] = failed syntax_error (pos 0)
parse_int bits (c ∷ s) =
    if c == b'-'
    then negative bits (parse_uint bits s)
    else if c == b'+'
    then positive bits (parse_uint bits s)
    else positive bits (parse_uint bits (c ∷ s))

-- `strconv.Atoi`: `int` has 64 bits.
unfoldable pub atoi : Bytes → Parsed ℤ
unfolding parse_int
atoi = parse_int 64

-- The value of a conversion, failed or not.
abbrev pub result {ℓ} : {A : Type ℓ} → Parsed A → A
result (ok a) = a
result (failed e a) = a

abbrev pub is_ok {ℓ} : {A : Type ℓ} → Parsed A → Bool
is_ok (ok a) = true
is_ok (failed e a) = false

value-digits_loop : (f n : ℕ) (acc : Bytes) → n < f → value 0 (digits_loop f n acc) ≡ value n acc
unfolding digits_loop value
value-digits_loop zero n acc h = elim h [ ]
value-digits_loop (suc f) n acc h = elim (Bool-cases (n / 10 == 0)) [
  | inl e ↦
      let same : 0 * 10 + (48 + n % 10 - 48) ≡ n = ground arith in rw e (ap (λ k. value k acc) same)
  | inr e ↦
      let less : n / 10 < f = ground arith in
      let same : n / 10 * 10 + (48 + n % 10 - 48) ≡ n = omega arith in
      rw e (value-digits_loop f (n / 10) ((48 + n % 10) ∷ acc) less ∙ ap (λ k. value k acc) same)
]

-- Printing keeps the number.
pub value-format_uint : (n : ℕ) → value 0 (format_uint n) ≡ n
unfolding format_uint value
value-format_uint n = value-digits_loop (suc n) n [] (omega arith)

-- A byte that is a decimal digit.
abbrev pub IsDigit : ℕ → Type 0
IsDigit c = (48 ≤ c) × (c ≤ 57)

digits_loop-IsDigit : (f n : ℕ) (acc : Bytes) → All IsDigit acc → All IsDigit (digits_loop f n acc)
unfolding digits_loop
digits_loop-IsDigit zero n acc h = h
digits_loop-IsDigit (suc f) n acc h =
    let one : IsDigit (48 + n % 10) = omega arith in
    elim (Bool-cases (n / 10 == 0)) [
      | inl e ↦ rw e (one, h)
      | inr e ↦ rw e (digits_loop-IsDigit f (n / 10) ((48 + n % 10) ∷ acc) (one, h))
    ]

pub format_uint-IsDigit : (n : ℕ) → All IsDigit (format_uint n)
unfolding format_uint
format_uint-IsDigit n = digits_loop-IsDigit (suc n) n [] tt

digits_loop-filled :
    (f n c : ℕ) (acc : Bytes) → (d : ℕ) × (s : Bytes) × (digits_loop f n (c ∷ acc) ≡ d ∷ s)
unfolding digits_loop
digits_loop-filled zero n c acc = (c, acc, refl)
digits_loop-filled (suc f) n c acc = elim (Bool-cases (n / 10 == 0)) [
  | inl e ↦ (48 + n % 10, c ∷ acc, rw e)
  | inr e ↦ rw e (digits_loop-filled f (n / 10) (48 + n % 10) (c ∷ acc))
]

pub format_uint-filled : (n : ℕ) → (d : ℕ) × (s : Bytes) × (format_uint n ≡ d ∷ s)
unfolding format_uint
format_uint-filled n = elim (Bool-cases (n / 10 == 0)) [
  | inl e ↦ (48 + n % 10, [], rw e)
  | inr e ↦ rw e (digits_loop-filled n (n / 10) (48 + n % 10) [])
]

all_digits_of : (s : Bytes) → All IsDigit s → all_digits s ≡ true
unfolding all_digits
all_digits_of [] h = refl
all_digits_of (c ∷ s) h = ground (arith, all_digits_of s h.1)

-- A number within the width parses back from its digits.
pub parse_uint-format_uint : (bits n : ℕ) → n < 2 ^ bits → parse_uint bits (format_uint n) ≡ ok n
unfolding parse_uint
parse_uint-format_uint bits n h =
    let (d, s, e) = format_uint-filled n in
    let digits : all_digits (d ∷ s) ≡ true =
      subst (λ t. all_digits t ≡ true) e (all_digits_of (format_uint n) (format_uint-IsDigit n)) in
    let same : value 0 (d ∷ s) ≡ n = subst (λ t. value 0 t ≡ n) e (value-format_uint n) in
    rw e (rw digits (rw same (parsed h)))
  where
    parsed :
        n < 2 ^ bits → (if ltb n (2 ^ bits) then ok n else failed range_error (2 ^ bits - 1)) ≡ ok n
    parsed h = ground arith

-- A successful conversion fits the width.
pub parse_uint-ok : (bits n : ℕ) (s : Bytes) → parse_uint bits s ≡ ok n → n < 2 ^ bits
unfolding parse_uint
parse_uint-ok bits n [] e = absurd (cc)
parse_uint-ok bits n (c ∷ s) e = ground arith

-- The digits of a number below half of the width parse back as an integer.
pub parse_int-format_uint :
    (bits n : ℕ)
    → 2 ^ (bits - 1) ≤ 2 ^ bits
    → n < 2 ^ (bits - 1)
    → parse_int bits (format_uint n) ≡ ok (pos n)
unfolding parse_int positive
parse_int-format_uint bits n wide h =
    let (d, s, e) = format_uint-filled n in
    let digit : IsDigit d = (subst (All IsDigit) e (format_uint-IsDigit n)).0 in
    let parsed : parse_uint bits (d ∷ s) ≡ ok n =
      subst (λ t. parse_uint bits t ≡ ok n) e (parse_uint-format_uint bits n (omega arith)) in
    rw e (ground (arith, parsed))
