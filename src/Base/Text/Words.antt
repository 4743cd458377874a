-- ===== src/Base/Text/Words.antt =====
-- `str.split()`: the words between white space.
use Prim.Native.String.{String, [], ◌∷◌}
use mathlib.Core.Bool.{Bool, true, false}
use mathlib.Core.List.{List}
use xyn.Base.Tests.{if◌then◌else◌}
use xyn.Base.Text.{is_space}

-- A word goes on unless white space or the end follows.
unfoldable pub goes_on : String → Bool
unfolding is_space
goes_on [] = false
goes_on (c ∷ s) = if is_space c then false else true

unfoldable pub longer : String → List String → List String
longer w List.[] = List.◌∷◌ w List.[]
longer w (List.◌∷◌ v vs) = List.◌∷◌ (Prim.Native.String.◌++◌ w v) vs

unfoldable pub split : String → List String
unfolding is_space goes_on longer
split [] = List.[]
split (c ∷ s) =
    let rest = split s in
    if is_space c
    then rest
    else (if goes_on s then longer (c ∷ []) rest else List.◌∷◌ (c ∷ []) rest)
