-- ===== src/Base/Paths.antt =====
-- `std::path::Path` on Unix, as far as the program uses it: a path is its text.
use mathlib.Core.Bool.{Bool, true, false, not, ◌||◌}
use mathlib.Core.Option.{Option, none, some}
use mathlib.Core.List.{List, [], ◌∷◌, ◌++◌}
use Prim.Native.Nat.{ℕ}
use agent_gov.Base.Boolean.{nat_eqb, if◌then◌else◌}
use agent_gov.Base.Lists.{filter}
use agent_gov.Base.Bytes.{Text, lit, text_eqb, ends_with, has_byte, after_last}

abbrev pub FilePath : Type 0
FilePath = Text

-- `split(c)`: the pieces between the occurrences of a character, which is never empty.
split_onto : ℕ → Text → Text → List Text
split_onto c piece [] = piece ∷ []
split_onto c piece (x ∷ s) = elim (nat_eqb x c) [
  | true ↦ piece ∷ split_onto c [] s
  | false ↦ split_onto c (piece ++ x ∷ []) s
]

unfoldable pub split_on : ℕ → Text → List Text
unfolding split_onto
split_on c s = split_onto c [] s

-- Empty pieces and `.` are no components.
is_component : Text → Bool
unfolding text_eqb lit
is_component s = not (text_eqb s [] || text_eqb s (lit "."))

last? : List Text → Option Text
last? [] = none
last? (x ∷ []) = some x
last? (x ∷ y ∷ xs) = last? (y ∷ xs)

not_parent : Option Text → Option Text
unfolding text_eqb lit
not_parent none = none
not_parent (some s) = if text_eqb s (lit "..") then none else some s

-- `Path::file_name`
unfoldable pub file_name : FilePath → Option Text
unfolding split_on is_component last? not_parent filter
file_name p = not_parent (last? (filter is_component (split_on b'/' p)))

-- `Path::is_absolute`
unfoldable pub is_absolute : FilePath → Bool
is_absolute [] = false
is_absolute (c ∷ p) = nat_eqb c b'/'

-- `Path::join` with a relative path.
unfoldable pub join_path : FilePath → Text → FilePath
join_path base [] = base
join_path [] name = name
join_path (c ∷ base) name =
    if ends_with (c ∷ base) (b'/' ∷ []) then (c ∷ base) ++ name else (c ∷ base) ++ b'/' ∷ name

-- The part of a file name before its last dot, unless the name has no other dot than a first one.
stem_of : Text → Option Text
stem_of [] = none
stem_of (c ∷ s) = elim (stem_of s) [
  | some stem ↦ some (c ∷ stem)
  | none ↦ if nat_eqb c b'.' then some [] else none
]

stem_or_whole : Text → Option Text → Text
stem_or_whole name none = name
stem_or_whole name (some []) = name
stem_or_whole name (some (c ∷ stem)) = c ∷ stem

-- `Path::with_extension`, for a path whose last component is a file name.
directory_of : Text → Text
directory_of [] = []
directory_of (c ∷ s) = elim (has_byte b'/' (c ∷ s)) [ true ↦ c ∷ directory_of s | false ↦ [] ]

unfoldable pub with_extension : FilePath → Text → FilePath
unfolding stem_of stem_or_whole directory_of
with_extension p extension =
    directory_of p
    ++ stem_or_whole (after_last b'/' p) (stem_of (after_last b'/' p))
    ++ b'.' ∷ extension
