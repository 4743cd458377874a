-- ===== src/Base/Text.antt =====
-- `str.strip` and `str.lower`. Texts are sequences of Unicode scalar values. `lower` maps the
-- letters A to Z; case mappings outside ASCII are not modelled.
pub mod Order
pub mod Contains
pub mod Split
pub mod Words
pub mod Format
use Prim.Native.Char.{Char, char, code, IsScalar}
use Prim.Native.Nat.{ℕ, ◌+◌, ◌<◌, compare, Ordering}
use Prim.Native.String.{String, [], ◌∷◌}
use mathlib.Core.Path.{◌≡◌, refl, ap}
use mathlib.Core.Logic.{inl, inr}
use mathlib.Core.Logic.{dite, dif_pos, dif_neg}
use mathlib.Core.Bool.{Bool, ◌&&◌, ◌||◌}
use native.Mathlib.Omega.{arith}
use native.Mathlib.Bridge.{le_prop}
use native.Mathlib.Decide.{dec_lt}
use text.Mathlib.TextEquality.{Char-path}
use xyn.Base.Tests.{leb, ◌==◌, if◌then◌else◌, Bool-cases}

compare-lt : (m n : ℕ) → m < n → compare m n ≡ Ordering.lt
compare-lt m n h = ground arith

scalar_of_ascii : (n : ℕ) → n < 128 → IsScalar n
scalar_of_ascii n h = rw (compare-lt n 55296 (omega arith)) tt

-- `str.isspace` of one character.
unfoldable pub is_space : Char → Bool
is_space c =
    let n = code c in
    (leb 9 n && leb n 13)
    || (leb 28 n && leb n 32)
    || (n == 133)
    || (n == 160)
    || (n == 5760)
    || (leb 8192 n && leb n 8202)
    || (leb 8232 n && leb n 8233)
    || (n == 8239)
    || (n == 8287)
    || (n == 12288)

lower_code : ℕ → ℕ
lower_code n = if leb 65 n && leb n 90 then n + 32 else n

lower_char : Char → Char
unfolding dec_lt scalar_of_ascii
lower_char c =
    dite (dec_lt 64 (code c))
      (λ above.
        dite (dec_lt (code c) 91)
          (λ below. char (code c + 32) (scalar_of_ascii (code c + 32) (omega arith))) (λ _. c))
      (λ _. c)

code-lower_char : (c : Char) → code (lower_char c) ≡ lower_code (code c)
unfolding lower_char lower_code
code-lower_char c = elim (dec_lt 64 (code c)) [
  | yes p ↦ elim (dec_lt (code c) 91) [
    | yes q ↦
        rw (dif_pos _ le_prop p, lower_char) (rw (dif_pos _ le_prop q, lower_char) (ground arith))
    | no q ↦ rw (dif_pos _ le_prop p, lower_char) (rw (dif_neg _ q, lower_char) (ground arith))
  ]
  | no p ↦ rw (dif_neg _ p, lower_char) (ground arith)
]

lower_char_idem : (c : Char) → lower_char (lower_char c) ≡ lower_char c
unfolding lower_code
lower_char_idem c =
    Char-path _ _ (ground (arith, code-lower_char (lower_char c), code-lower_char c))

is_space-lower_char : (c : Char) → is_space (lower_char c) ≡ is_space c
unfolding is_space lower_code
is_space-lower_char c = ground (arith, code-lower_char c)

-- `s.lower()`
unfoldable pub lower : String → String
unfolding lower_char scalar_of_ascii compare-lt
lower [] = []
lower (c ∷ s) = lower_char c ∷ lower s

-- `s.lstrip()`
unfoldable pub lstrip : String → String
lstrip [] = []
lstrip (c ∷ s) = let rest = lstrip s in if is_space c then rest else (c ∷ s)

-- A character is dropped at the right end if nothing but white space follows it.
keep_unless_blank : Char → String → String
keep_unless_blank c [] = if is_space c then [] else (c ∷ [])
keep_unless_blank c (d ∷ s) = c ∷ d ∷ s

-- `s.rstrip()`
unfoldable pub rstrip : String → String
unfolding keep_unless_blank
rstrip [] = []
rstrip (c ∷ s) = keep_unless_blank c (rstrip s)

-- `s.strip()`
unfoldable pub strip : String → String
unfolding lstrip rstrip
strip s = lstrip (rstrip s)

pub lower_idem : (s : String) → lower (lower s) ≡ lower s
unfolding lower
lower_idem [] = refl
lower_idem (c ∷ s) = cc (lower_char_idem c, lower_idem s)

lstrip-lower : (s : String) → lstrip (lower s) ≡ lower (lstrip s)
unfolding lstrip lower
lstrip-lower [] = refl
lstrip-lower (c ∷ s) =
    rw is_space-lower_char
      (elim (Bool-cases (is_space c)) [ inl e ↦ rw e (lstrip-lower s) | inr e ↦ rw e refl ])

keep_unless_blank-lower :
    (c : Char) (s : String)
    → keep_unless_blank (lower_char c) (lower s) ≡ lower (keep_unless_blank c s)
unfolding keep_unless_blank lower
keep_unless_blank-lower c [] =
    rw is_space-lower_char
      (elim (Bool-cases (is_space c)) [ inl e ↦ rw e refl | inr e ↦ rw e refl ])
keep_unless_blank-lower c (d ∷ s) = refl

rstrip-lower : (s : String) → rstrip (lower s) ≡ lower (rstrip s)
unfolding rstrip lower
rstrip-lower [] = refl
rstrip-lower (c ∷ s) = rw (rstrip-lower s) (keep_unless_blank-lower c (rstrip s))

-- Stripping and lowering commute.
pub strip-lower : (s : String) → strip (lower s) ≡ lower (strip s)
unfolding strip
strip-lower s = rw rstrip-lower (lstrip-lower (rstrip s))

lstrip_idem : (s : String) → lstrip (lstrip s) ≡ lstrip s
unfolding lstrip
lstrip_idem [] = refl
lstrip_idem (c ∷ s) = ground (arith, lstrip_idem s)

lstrip-keep_unless_blank :
    (c : Char) (s : String)
    → lstrip (keep_unless_blank c s) ≡ (if is_space c then lstrip s else keep_unless_blank c s)
unfolding lstrip keep_unless_blank
lstrip-keep_unless_blank c [] = elim (Bool-cases (is_space c)) [
  | inl e ↦ rw e refl
  | inr e ↦ rw e (rw e refl)
]
lstrip-keep_unless_blank c (d ∷ s) = refl

rstrip-keep_unless_blank :
    (c : Char) (s : String) → rstrip s ≡ s → rstrip (keep_unless_blank c s) ≡ keep_unless_blank c s
unfolding rstrip keep_unless_blank
rstrip-keep_unless_blank c [] h = elim (Bool-cases (is_space c)) [
  | inl e ↦ rw e refl
  | inr e ↦ rw e (rw e refl)
]
rstrip-keep_unless_blank c (d ∷ s) h = ap (keep_unless_blank c) h

rstrip_idem : (s : String) → rstrip (rstrip s) ≡ rstrip s
unfolding rstrip
rstrip_idem [] = refl
rstrip_idem (c ∷ s) = rstrip-keep_unless_blank c (rstrip s) (rstrip_idem s)

rstrip-lstrip : (s : String) → rstrip (lstrip s) ≡ lstrip (rstrip s)
unfolding rstrip lstrip
rstrip-lstrip [] = refl
rstrip-lstrip (c ∷ s) =
    rw lstrip-keep_unless_blank
      (elim (Bool-cases (is_space c)) [ inl e ↦ rw e (rstrip-lstrip s) | inr e ↦ rw e refl ])

-- A second `strip` changes nothing.
pub strip_idem : (s : String) → strip (strip s) ≡ strip s
unfolding strip
strip_idem s =
    rw (rstrip-lstrip (rstrip s), lstrip_idem (rstrip (rstrip s))) (ap lstrip (rstrip_idem s))
