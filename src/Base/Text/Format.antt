-- ===== src/Base/Text/Format.antt =====
-- The texts that f-strings and `str.join` build, and `str` of a natural number.
use Prim.Native.Nat.{ℕ, zero, suc, ◌+◌, ◌*◌, ◌/◌, ◌%◌, ◌<◌}
use Prim.Native.String as Str
use Prim.Native.String.{String}
use mathlib.Core.Path.{◌≡◌, refl}
use mathlib.Core.Logic.{inl, inr}
use mathlib.Core.List.{List, [], ◌∷◌, ◌++◌}
use native.Mathlib.Omega.{arith}
use xyn.Base.Tests.{ltb, ◌==◌, if◌then◌else◌, Bool-cases}

-- The parts of an f-string, one after the other.
unfoldable pub concat : List String → String
concat [] = ""
concat (s ∷ ss) = Str.◌++◌ s (concat ss)

-- `separator.join(texts)`
unfoldable pub join : String → List String → String
join separator [] = ""
join separator (s ∷ []) = s
join separator (s ∷ t ∷ ts) = Str.◌++◌ s (Str.◌++◌ separator (join separator (t ∷ ts)))

-- The decimal digits of a number, the highest first; its own size is fuel enough.
unfoldable pub digits : ℕ → ℕ → List ℕ
digits zero n = []
digits (suc fuel) n =
    let higher = digits fuel (n / 10) in if ltb n 10 then n ∷ [] else (higher ++ (n % 10) ∷ [])

unfoldable pub digit_text : ℕ → String
digit_text d =
    if d == 0
    then "0"
    else (if d == 1
        then "1"
        else (if d == 2
            then "2"
            else (if d == 3
                then "3"
                else (if d == 4
                    then "4"
                    else (if d == 5
                        then "5"
                        else (if d == 6
                            then "6"
                            else (if d == 7 then "7" else (if d == 8 then "8" else ("9")))))))))

unfoldable pub digits_text : List ℕ → String
unfolding digit_text
digits_text [] = ""
digits_text (d ∷ ds) = Str.◌++◌ (digit_text d) (digits_text ds)

-- `str(n)`
unfoldable pub decimal : ℕ → String
unfolding digits digits_text
decimal n = digits_text (digits (suc n) n)

unfoldable pub value_from : ℕ → List ℕ → ℕ
value_from n [] = n
value_from n (d ∷ ds) = value_from (n * 10 + d) ds

value_from-append : (n d : ℕ) (ds : List ℕ) → value_from n (ds ++ d ∷ []) ≡ value_from n ds * 10 + d
unfolding value_from
value_from-append n d [] = refl
value_from-append n d (e ∷ ds) = value_from-append (n * 10 + e) d ds

-- With fuel above the number, its digits have its value.
pub value_from-digits : (fuel n : ℕ) → n < fuel → value_from 0 (digits fuel n) ≡ n
unfolding digits value_from
value_from-digits zero n h = ground arith
value_from-digits (suc fuel) n h = elim (Bool-cases (ltb n 10)) [
  | inl e ↦ rw e (omega arith)
  | inr e ↦ rw e (
      rw (value_from-append 0 (n % 10) (digits fuel (n / 10)))
        (rw (value_from-digits fuel (n / 10) (ground arith)) (omega arith)))
]
