-- ===== src/Base/Text/Contains.antt =====
-- `part in text`.
use Prim.Native.Char.{code}
use Prim.Native.String.{String, [], ◌∷◌}
use mathlib.Core.Bool.{Bool, true, false}
use xyn.Base.Tests.{if◌then◌else◌, ◌==◌}

unfoldable pub begins_with : String → String → Bool
begins_with [] s = true
begins_with (c ∷ p) [] = false
begins_with (c ∷ p) (d ∷ s) = let rest = begins_with p s in if code c == code d then rest else false

unfoldable pub contains : String → String → Bool
unfolding begins_with
contains part [] = begins_with part []
contains part (c ∷ s) =
    let rest = contains part s in if begins_with part (c ∷ s) then true else rest
