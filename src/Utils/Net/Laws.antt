-- ===== src/Utils/Net/Laws.antt =====
-- WriteAllBytes writes a prefix, and all of it if it returns no error; a printed port parses back.
use mathlib.Core.List.{append_assoc, append-nil}
use localsend_switchboard.Prelude.{
  ℕ, ◌^◌, ◌<◌, ◌≡◌, refl, sym, ap, ◌∙◌, some, List, [], ◌∷◌, ◌++◌, arith, Bytes, take, drop,
  take-append-drop,
}
use localsend_switchboard.Std.Strconv.{format_uint, parse_uint-format_uint}
use localsend_switchboard.Utils.Net.{
  WriteStep, wrote, breaks, complete, write_all_bytes, parse_port,
}

write_all_bytes-wrote :
    (n b : ℕ) (steps : List WriteStep) (bytes : Bytes)
    → write_all_bytes (wrote n ∷ steps) (b ∷ bytes) ≡ (
      take n (b ∷ bytes) ++ (write_all_bytes steps (drop n (b ∷ bytes))).0,
      (write_all_bytes steps (drop n (b ∷ bytes))).1,
    )
unfolding write_all_bytes
write_all_bytes-wrote n b steps bytes = ground arith

write_all_bytes_prefix :
    (steps : List WriteStep) (bytes : Bytes)
    → (rest : Bytes) × ((write_all_bytes steps bytes).0 ++ rest ≡ bytes)
      × ((write_all_bytes steps bytes).1 ≡ complete → rest ≡ [])
unfolding write_all_bytes
write_all_bytes_prefix [] [] = ([], refl, λ e. refl)
write_all_bytes_prefix [] (b ∷ bytes) = (b ∷ bytes, refl, λ e. absurd (ground arith))
write_all_bytes_prefix (breaks n ∷ steps) [] = ([], refl, λ e. refl)
write_all_bytes_prefix (breaks n ∷ steps) (b ∷ bytes) =
    (drop n (b ∷ bytes), ground (arith, take-append-drop n (b ∷ bytes)), λ e. absurd (ground arith))
write_all_bytes_prefix (wrote n ∷ steps) [] = ([], refl, λ e. refl)
write_all_bytes_prefix (wrote n ∷ steps) (b ∷ bytes) =
    let (rest, whole, none_left) = write_all_bytes_prefix steps (drop n (b ∷ bytes)) in
    let later = write_all_bytes steps (drop n (b ∷ bytes)) in
    let joined : (take n (b ∷ bytes) ++ later.0) ++ rest ≡ b ∷ bytes =
      append_assoc (take n (b ∷ bytes)) later.0 rest
      ∙ ap (λ t. take n (b ∷ bytes) ++ t) whole
      ∙ take-append-drop n (b ∷ bytes) in
    let step = write_all_bytes-wrote n b steps bytes in
    (rest, ground (arith, step, joined), λ e. none_left (ground (arith, step)))

-- When WriteAllBytes returns without an error, all of the data has gone out, once and in order,
-- however the connection split it.
pub write_all_bytes-complete :
    (steps : List WriteStep) (bytes : Bytes)
    → (write_all_bytes steps bytes).1 ≡ complete
    → (write_all_bytes steps bytes).0 ≡ bytes
write_all_bytes-complete steps bytes e =
    let (rest, joined, none_left) = write_all_bytes_prefix steps bytes in
    sym (append-nil (write_all_bytes steps bytes).0)
    ∙ ap (λ r. (write_all_bytes steps bytes).0 ++ r) (sym (none_left e))
    ∙ joined

-- However the connection behaves, what goes out is a prefix of the data.
pub write_all_bytes-prefix :
    (steps : List WriteStep) (bytes : Bytes)
    → (rest : Bytes) × ((write_all_bytes steps bytes).0 ++ rest ≡ bytes)
write_all_bytes-prefix steps bytes =
    let (rest, joined, _) = write_all_bytes_prefix steps bytes in (rest, joined)

-- ParsePort reads a printed port of 16 bits back.
pub parse_port-format_uint : (port : ℕ) → port < 2 ^ 16 → parse_port (format_uint port) ≡ some port
unfolding parse_port
parse_port-format_uint port h = rw (parse_uint-format_uint 16 port h, parse_port)
