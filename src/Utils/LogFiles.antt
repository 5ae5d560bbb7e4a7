-- ===== src/Utils/LogFiles.antt =====
-- utils/log.go: the names of the rotated log files, their regular expression and their order.
use localsend_switchboard.Prelude.{
  ℕ, Option, none, some, List, [], ◌∷◌, ◌++◌, leb, ◌==◌, if◌then◌else◌, Bytes, codes,
}
use localsend_switchboard.Prelude.Int.{pos}
use localsend_switchboard.Entities.{RotatedLogFileName}
use localsend_switchboard.Std.Strconv.{is_digit, format_uint, ok, parse_int}

abbrev pub Files : Type 0
Files = List (Bytes × Bytes)

-- A text without the prefix that it must begin with.
unfoldable pub strip : Bytes → Bytes → Option Bytes
strip [] s = some s
strip (c ∷ p) [] = none
strip (c ∷ p) (d ∷ s) = let rest = strip p s in if c == d then rest else none

-- `(\d+)\.log$`
unfoldable pub digits_log : Bytes → Option Bytes
digits_log [] = none
digits_log (c ∷ s) =
    let rest = digits_log s in
    if is_digit c
    then (elim rest [
      | some ds ↦ some (c ∷ ds)
      | none ↦ elim (strip (codes ".log") s) [ some [] ↦ some (c ∷ []) | _ ↦ none ]
    ])
    else none

-- `_rotated\.(\d+)\.log$`
unfoldable pub suffix : Bytes → Option Bytes
unfolding strip digits_log
suffix s = elim (strip (codes "_rotated.") s) [ none ↦ none | some t ↦ digits_log t ]

-- rotatedLogFileRegex.FindStringSubmatch: the shortest base and the digits; a dot matches no newline.
unfoldable pub find_submatch : Bytes → Option (Bytes × Bytes)
unfolding suffix
find_submatch [] = none
find_submatch (c ∷ s) = if c == 10 then none else elim (suffix s) [
  | some ds ↦ some (c ∷ [], ds)
  | none ↦ elim (find_submatch s) [ none ↦ none | some (b, ds) ↦ some (c ∷ b, ds) ]
]

-- A file of the directory as a rotated log file, if its name is that of one with an identifier of 32
-- bits.
unfoldable pub rotated_of : Bytes → Option RotatedLogFileName
unfolding find_submatch
rotated_of name = elim (find_submatch name) [
  | none ↦ none
  | some (b, ds) ↦ elim (parse_int 32 ds) [
    | ok (pos n) ↦ some (record { base_name = b; log_id = n; full_name = name })
    | _ ↦ none
  ]
]

-- `fmt.Sprintf(rotatedLogFileFormat, base, id)`
unfoldable pub rotated_log_file : Bytes → ℕ → Bytes
rotated_log_file b id = b ++ (codes "_rotated." ++ (format_uint id ++ codes ".log"))

-- The loop that collects the rotated log files of the directory.
unfoldable pub collect : Files → List RotatedLogFileName
unfolding rotated_of
collect [] = []
collect ((name, _) ∷ files) = elim (rotated_of name) [
  | none ↦ collect files
  | some e ↦ e ∷ collect files
]

unfoldable pub insert_by_id : RotatedLogFileName → List RotatedLogFileName → List RotatedLogFileName
insert_by_id x [] = x ∷ []
insert_by_id x (y ∷ l) = if leb x.log_id y.log_id then x ∷ y ∷ l else y ∷ insert_by_id x l

-- `sort.Slice` by identifier; of equal identifiers it promises no order.
unfoldable pub sort_by_id : List RotatedLogFileName → List RotatedLogFileName
unfolding insert_by_id
sort_by_id [] = []
sort_by_id (x ∷ l) = insert_by_id x (sort_by_id l)
