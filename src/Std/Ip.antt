-- ===== src/Std/Ip.antt =====
-- Go's net.IP, a slice of 4 or 16 bytes, as services/switch_core.go, services/multicast_listener.go
-- and utils/net.go use it.
use localsend_switchboard.Prelude.{
  ℕ, ◌*◌, ◌/◌, ◌≡◌, refl, Bool, true, false, ◌&&◌, ◌||◌, Option, none, some, [], ◌∷◌, ◌++◌, arith,
  ◌==◌, if◌then◌else◌, Bytes, length, take, drop, codes,
}

unfoldable pub bytes_equal : Bytes → Bytes → Bool
bytes_equal [] [] = true
bytes_equal (x ∷ xs) (y ∷ ys) = x == y && bytes_equal xs ys
bytes_equal _ _ = false

-- `v4InV6Prefix`
abbrev pub prefix : Bytes
prefix = 0 ∷ 0 ∷ 0 ∷ 0 ∷ 0 ∷ 0 ∷ 0 ∷ 0 ∷ 0 ∷ 0 ∷ 255 ∷ 255 ∷ []

-- `ip.To4()`, with `none` for nil.
unfoldable pub to4 : Bytes → Option Bytes
unfolding bytes_equal
to4 ip =
    if length ip == 4
    then some ip
    else if length ip == 16 && bytes_equal (take 12 ip) prefix
    then some (drop 12 ip)
    else none

-- `ip.Equal(x)`
unfoldable pub equal : Bytes → Bytes → Bool
unfolding bytes_equal
equal ip x =
    if length ip == length x
    then bytes_equal ip x
    else if length ip == 4 && length x == 16
    then bytes_equal (take 12 x) prefix && bytes_equal ip (drop 12 x)
    else if length ip == 16 && length x == 4
    then bytes_equal (take 12 ip) prefix && bytes_equal (drop 12 ip) x
    else false

-- 10/8, 172.16/12 and 192.168/16.
private4 : Bytes → Bool
private4 (a ∷ b ∷ _) = a == 10 || (a == 172 && b / 16 * 16 == 16) || (a == 192 && b == 168)
private4 _ = false

-- fc00::/7
private6 : Bytes → Bool
private6 [] = false
private6 (a ∷ _) = a / 2 * 2 == 252

-- `ip.IsPrivate()`
unfoldable pub is_private : Bytes → Bool
unfolding private4 private6 to4
is_private ip = elim (to4 ip) [ some v4 ↦ private4 v4 | none ↦ length ip == 16 && private6 ip ]

-- `net.JoinHostPort`, which puts brackets round an IPv6 address.
abbrev pub contains : ℕ → Bytes → Bool
contains c [] = false
contains c (x ∷ xs) = x == c || contains c xs

unfoldable pub join_host_port : Bytes → Bytes → Bytes
join_host_port host port =
    if contains b':' host
    then codes "[" ++ host ++ codes "]:" ++ port
    else host ++ codes ":" ++ port

-- Text of addresses, which the program takes from the runtime: `net.ParseIP` and `IP.String`.
pub record IpText : Type 0 where
  pub parse_ip : Bytes → Option Bytes
  pub ip_string : Bytes → Bytes

pub bytes_equal_refl : (xs : Bytes) → bytes_equal xs xs ≡ true
unfolding bytes_equal
bytes_equal_refl [] = refl
bytes_equal_refl (x ∷ xs) = ground (arith, bytes_equal_refl xs)

pub bytes_equal→eq : (xs ys : Bytes) → bytes_equal xs ys ≡ true → xs ≡ ys
unfolding bytes_equal
bytes_equal→eq [] [] h = refl
bytes_equal→eq (x ∷ xs) (y ∷ ys) h = ground (arith, bytes_equal→eq xs ys)
bytes_equal→eq [] (y ∷ ys) h = ground arith
bytes_equal→eq (x ∷ xs) [] h = ground arith

pub equal_refl : (ip : Bytes) → equal ip ip ≡ true
unfolding equal
equal_refl ip = ground (arith, bytes_equal_refl ip)
