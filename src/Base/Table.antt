-- ===== src/Base/Table.antt =====
-- A table of the database as the list of its rows: `query.filter(p).first()`, and an update of the
-- rows that a condition selects.
use mathlib.Core.Path.{◌≡◌, refl}
use mathlib.Core.Bool.{Bool, true, false}
use mathlib.Core.Option
use mathlib.Core.Option.{Option, none, some}
use mathlib.Core.List.{List, [], ◌∷◌, ◌++◌}
use native.Mathlib.Omega.{arith}
use xyn.Base.Tests.{if◌then◌else◌}

module _ {A : Type 0} where
  unfoldable pub first : (A → Bool) → List A → Option A
  first p [] = none
  first p (x ∷ xs) = if p x then some x else first p xs

  unfoldable pub update : (A → Bool) → (A → A) → List A → List A
  update p f [] = []
  update p f (x ∷ xs) = (if p x then f x else x) ∷ update p f xs

  unfoldable pub select : (A → Bool) → List A → List A
  select p [] = []
  select p (x ∷ xs) = let rest = select p xs in if p x then x ∷ rest else rest

  -- Replaces the first row that is selected, or appends the row.
  unfoldable pub put : (A → Bool) → A → List A → List A
  put p a [] = a ∷ []
  put p a (x ∷ xs) = let rest = put p a xs in if p x then a ∷ xs else (x ∷ rest)

  -- An update of the selected rows is read back, if it leaves the selection as it is.
  pub first-update_self :
      (p : A → Bool) (f : A → A) (xs : List A)
      → ((x : A) → p x ≡ true → p (f x) ≡ true)
      → first p (update p f xs) ≡ Option.map f (first p xs)
  unfolding first update
  first-update_self p f [] h = refl
  first-update_self p f (x ∷ xs) h = ground (arith, first-update_self p f xs h, h x)

  -- An update leaves the rows of another selection alone.
  pub first-update_ne :
      (p q : A → Bool) (f : A → A) (xs : List A)
      → ((x : A) → p x ≡ true → p (f x) ≡ true)
      → ((x : A) → p x ≡ true → q x ≡ false)
      → first q (update p f xs) ≡ first q xs
  unfolding first update
  first-update_ne p q f [] k h = refl
  first-update_ne p q f (x ∷ xs) k h =
      ground (arith, first-update_ne p q f xs k h, k x, h x, h (f x))

  pub first-append :
      (p : A → Bool) (xs ys : List A) (x : A) → first p xs ≡ some x → first p (xs ++ ys) ≡ some x
  unfolding first
  first-append p [] ys x h = ground arith
  first-append p (y ∷ xs) ys x h = ground (arith, first-append p xs ys x)

  pub first-put_self :
      (p : A → Bool) (a : A) (xs : List A) → p a ≡ true → first p (put p a xs) ≡ some a
  unfolding first put
  first-put_self p a [] h = ground arith
  first-put_self p a (x ∷ xs) h = ground (arith, first-put_self p a xs h)

  -- What a row replaces is not among the rows of a selection apart from it.
  pub first-put_ne :
      (p q : A → Bool) (a : A) (xs : List A)
      → ((x : A) → p x ≡ true → q x ≡ false)
      → q a ≡ false
      → first q (put p a xs) ≡ first q xs
  unfolding first put
  first-put_ne p q a [] h n = ground arith
  first-put_ne p q a (x ∷ xs) h n = ground (arith, first-put_ne p q a xs h n, h x)
