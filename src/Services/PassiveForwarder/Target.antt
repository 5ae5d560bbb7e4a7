-- ===== src/Services/PassiveForwarder/Target.antt =====
-- Where a registration request goes: the authority of its URL, read as a client reads it.
use mathlib.Core.List.{append_assoc}
use localsend_switchboard.Prelude.{
  ℕ, ◌≡◌, ◌≢◌, refl, ap, ◌∙◌, inl, inr, ◌&&◌, ◌||◌, Option, none, some, [], ◌∷◌, ◌++◌, arith, ◌==◌,
  if◌then◌else◌, Bytes, codes, All, All-append, Bool-cases,
}
use localsend_switchboard.Std.Ip.{IpText, contains, join_host_port}
use localsend_switchboard.Std.Strconv.{IsDigit, format_uint, format_uint-IsDigit}
use localsend_switchboard.Services.PassiveForwarder.{make_http_request}

-- What stands behind the two slashes at the front of a text.
unfoldable pub behind_slashes : Bytes → Option Bytes
behind_slashes (a ∷ b ∷ s) = if a == b'/' && b == b'/' then some s else none
behind_slashes _ = none

-- What stands behind the first colon of a URL and its two slashes.
unfoldable pub after_scheme : Bytes → Option Bytes
unfolding behind_slashes
after_scheme [] = none
after_scheme (c ∷ s) = let rest = after_scheme s in if c == b':' then behind_slashes s else rest

-- A text up to the first slash, question mark or number sign.
unfoldable pub until_path : Bytes → Bytes
until_path [] = []
until_path (c ∷ s) =
    let rest = until_path s in if c == b'/' || (c == b'?' || c == b'#') then [] else c ∷ rest

-- The authority of a URL, RFC 3986.
unfoldable pub authority : Bytes → Option Bytes
unfolding after_scheme until_path
authority url = elim (after_scheme url) [ none ↦ none | some s ↦ some (until_path s) ]

-- No byte is a colon.
abbrev pub HasNoColon : Bytes → Type 0
HasNoColon = All (λ c. c ≢ b':')

-- No byte ends an authority or stands for a user in it.
abbrev pub IsHostByte : ℕ → Type 0
IsHostByte c = (c ≢ b'/') × (c ≢ b'?') × (c ≢ b'#') × (c ≢ b'@')

-- `IP.String` gives digits, letters, dots and colons; all that counts is that no byte ends an authority.
abbrev pub IsHostText : IpText → Type 0
IsHostText text = (ip : Bytes) → All IsHostByte (text.ip_string ip)

after_scheme_lem :
    (protocol s : Bytes)
    → HasNoColon protocol
    → after_scheme (protocol ++ (codes "://" ++ s)) ≡ some s
unfolding after_scheme behind_slashes
after_scheme_lem [] s h = refl
after_scheme_lem (c ∷ protocol) s (other, h) = ground (arith, after_scheme_lem protocol s h)

until_path_lem : (host s : Bytes) → All IsHostByte host → until_path (host ++ b'/' ∷ s) ≡ host
unfolding until_path
until_path_lem [] s h = refl
until_path_lem (c ∷ host) s (other, h) = ground (arith, until_path_lem host s h)

authority_lem :
    (protocol host s : Bytes)
    → HasNoColon protocol
    → All IsHostByte host
    → authority (protocol ++ (codes "://" ++ (host ++ b'/' ∷ s))) ≡ some host
unfolding authority
authority_lem protocol host s p h =
    let found = after_scheme_lem protocol (host ++ b'/' ∷ s) p in
    rw (found, authority) (ap some (until_path_lem host s h))

pub format_uint-IsHostByte : (n : ℕ) → All IsHostByte (format_uint n)
format_uint-IsHostByte n = go (format_uint n) (format_uint-IsDigit n)
  where
    go : (s : Bytes) → All IsDigit s → All IsHostByte s
    go [] h = tt
    go (c ∷ s) (d, h) = ((omega arith, omega arith, omega arith, omega arith), go s h)

join_host_port-IsHostByte :
    (host : Bytes) (port : ℕ)
    → All IsHostByte host
    → All IsHostByte (join_host_port host (format_uint port))
unfolding join_host_port
join_host_port-IsHostByte host port h =
    let digits = format_uint-IsHostByte port in
    let bytes : IsHostByte b']' × IsHostByte b':' × IsHostByte b'[' = (
      (omega arith, omega arith, omega arith, omega arith),
      (omega arith, omega arith, omega arith, omega arith),
      (omega arith, omega arith, omega arith, omega arith),
    ) in
    let bracketed : All IsHostByte (host ++ codes "]:" ++ format_uint port) =
      All-append IsHostByte (host ++ codes "]:") (format_uint port)
        (All-append IsHostByte host (codes "]:") h (bytes.0, (bytes.1, tt))) digits in
    let plain : All IsHostByte (host ++ codes ":" ++ format_uint port) =
      All-append IsHostByte (host ++ codes ":") (format_uint port)
        (All-append IsHostByte host (codes ":") h (bytes.1, tt)) digits in
    elim (Bool-cases (contains b':' host)) [
      | inl e ↦ rw e (bytes.2, bracketed)
      | inr e ↦ rw e plain
    ]

-- Where the protocol has no colon, a registration request goes to the address and the port that it was
-- made for.
pub make_http_request-authority :
    (text : IpText) (ip : Bytes) (port : ℕ) (protocol body : Bytes)
    → IsHostText text
    → HasNoColon protocol
    → authority (make_http_request text ip port protocol body).url
      ≡ some (join_host_port (text.ip_string ip) (format_uint port))
unfolding make_http_request
make_http_request-authority text ip port protocol body t p =
    authority_lem protocol (join_host_port (text.ip_string ip) (format_uint port))
      (codes "api/localsend/v2/register") p
      (join_host_port-IsHostByte (text.ip_string ip) port (t ip))

-- Under a protocol that is `http://`, a host and `/?`, the request goes to that host, whatever the address
-- that it was made for.
pub make_http_request_elsewhere :
    (text : IpText) (ip : Bytes) (port : ℕ) (host body : Bytes)
    → All IsHostByte host
    → authority (make_http_request text ip port (codes "http://" ++ host ++ codes "/?") body).url
      ≡ some host
unfolding make_http_request
make_http_request_elsewhere text ip port host body h =
    ap (λ u. authority (codes "http://" ++ u)) (append_assoc host (codes "/?") _)
    ∙ authority_lem (codes "http") host _
        (omega arith, (omega arith, (omega arith, (omega arith, tt)))) h
