-- ===== src/Utils/Path.antt =====
-- utils/path.go: GetBaseNameWithoutExt, with filepath.Base and filepath.Ext on Unix. The other two
-- functions ask the system for the path of the executable.
use localsend_switchboard.Prelude.{Option, none, some, [], ◌∷◌, ◌==◌, if◌then◌else◌, Bytes, codes}
use mathlib.Core.List.{reverse}

-- A text without its leading slashes.
unfoldable pub drop_slashes : Bytes → Bytes
drop_slashes [] = []
drop_slashes (c ∷ s) = if c == b'/' then drop_slashes s else c ∷ s

-- A text up to its first slash.
unfoldable pub to_slash : Bytes → Bytes
to_slash [] = []
to_slash (c ∷ s) = if c == b'/' then [] else c ∷ to_slash s

or_slash : Bytes → Bytes
or_slash [] = codes "/"
or_slash (c ∷ s) = c ∷ s

-- `filepath.Base`: the last element without the slashes behind it.
unfoldable pub base : Bytes → Bytes
unfolding drop_slashes to_slash or_slash
base [] = codes "."
base (c ∷ s) = or_slash (reverse (to_slash (drop_slashes (reverse (c ∷ s)))))

-- What stands before the last dot, if there is one.
unfoldable pub before_ext : Bytes → Option Bytes
before_ext [] = none
before_ext (c ∷ s) = elim (before_ext s) [
  | some r ↦ some (c ∷ r)
  | none ↦ if c == b'.' then some [] else none
]

-- The last element of a path has no slash, so its extension begins at its last dot.
unfoldable pub without_ext : Bytes → Bytes
unfolding before_ext
without_ext name = elim (before_ext name) [ some r ↦ r | none ↦ name ]

-- GetBaseNameWithoutExt
unfoldable pub get_base_name_without_ext : Bytes → Bytes
unfolding without_ext base
get_base_name_without_ext path = without_ext (base path)
