-- ===== src/Base/Text/Order.antt =====
-- `<=` of Python on two texts: lexicographic by the numbers of the characters.
use Prim.Native.Char.{code}
use Prim.Native.String.{String, [], ◌∷◌}
use mathlib.Core.Path.{◌≡◌, refl}
use mathlib.Core.Bool.{Bool, true, false}
use native.Mathlib.Omega.{arith}
use text.Mathlib.TextEquality.{Char-path}
use xyn.Base.Tests.{ltb, if◌then◌else◌}

unfoldable pub text_leb : String → String → Bool
text_leb [] t = true
text_leb (c ∷ s) [] = false
text_leb (c ∷ s) (d ∷ t) =
    let rest = text_leb s t in
    if ltb (code c) (code d) then true else (if ltb (code d) (code c) then false else rest)

pub text_leb_total : (s t : String) → text_leb s t ≡ false → text_leb t s ≡ true
unfolding text_leb
text_leb_total [] t h = ground arith
text_leb_total (c ∷ s) [] h = refl
text_leb_total (c ∷ s) (d ∷ t) h = ground (arith, text_leb_total s t)

pub text_leb_trans :
    (s t u : String) → text_leb s t ≡ true → text_leb t u ≡ true → text_leb s u ≡ true
unfolding text_leb
text_leb_trans [] t u h i = refl
text_leb_trans (c ∷ s) [] u h i = ground arith
text_leb_trans (c ∷ s) (d ∷ t) [] h i = ground arith
text_leb_trans (c ∷ s) (d ∷ t) (e ∷ u) h i = ground (arith, text_leb_trans s t u)

pub text_leb_antisym : (s t : String) → text_leb s t ≡ true → text_leb t s ≡ true → s ≡ t
unfolding text_leb
text_leb_antisym [] [] h i = refl
text_leb_antisym [] (d ∷ t) h i = ground arith
text_leb_antisym (c ∷ s) [] h i = ground arith
text_leb_antisym (c ∷ s) (d ∷ t) h i =
    let q : code c ≡ code d = ground arith in
    cc (Char-path c d q, text_leb_antisym s t (ground arith) (ground arith))
