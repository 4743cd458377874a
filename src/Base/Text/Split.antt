-- ===== src/Base/Text/Split.antt =====
-- `str.replace`, `str.split` and `str.partition` for separators of one character, and `str.startswith`.
use Prim.Native.Char.{Char, code}
use Prim.Native.String as Str
use Prim.Native.String.{String}
use mathlib.Core.Bool.{Bool, true, false}
use mathlib.Core.List.{List, [], ◌∷◌}
use xyn.Base.Tests.{if◌then◌else◌, ◌==◌}

abbrev pub is_char : Char → Char → Bool
is_char c d = code c == code d

-- `s.replace(c, d)`
unfoldable pub replace : Char → Char → String → String
replace c d Str.[] = ""
replace c d (Str.◌∷◌ e s) =
    let rest = replace c d s in if is_char e c then Str.◌∷◌ d rest else Str.◌∷◌ e rest

unfoldable pub in_front : Char → List String → List String
in_front c [] = Str.◌∷◌ c "" ∷ []
in_front c (s ∷ ss) = Str.◌∷◌ c s ∷ ss

-- `s.split(c)`, which has at least one part.
unfoldable pub split_on : Char → String → List String
unfolding in_front
split_on c Str.[] = "" ∷ []
split_on c (Str.◌∷◌ d s) =
    let rest = split_on c s in if is_char d c then "" ∷ rest else in_front d rest

-- `s.partition(c)`: what stands before and after, and whether the separator was found.
unfoldable pub partition : Char → String → String × Bool × String
partition c Str.[] = ("", false, "")
partition c (Str.◌∷◌ d s) =
    let (before, found, after) = partition c s in
    if is_char d c then ("", true, s) else (Str.◌∷◌ d before, found, after)

-- `s.startswith(c)`
unfoldable pub starts_with_char : Char → String → Bool
starts_with_char c Str.[] = false
starts_with_char c (Str.◌∷◌ d s) = is_char d c
