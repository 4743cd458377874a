-- ===== src/Base/Sort/Reorder.antt =====
-- Sorting by keys that tell the entries apart does not depend on the order of the list.
use mathlib.Core.Path.{◌≡◌, refl, sym, ◌∙◌, subst}
use mathlib.Core.Bool.{Bool, true, false}
use mathlib.Core.List.{List, [], ◌∷◌}
use mathlib.Core.List.{Permᴰ}
use native.Mathlib.Omega.{arith}
use xyn.Base.Sort.{All, insert_sorted, sort_by}

-- What holds of all entries holds of them in any order.
All-perm : {A : Type 0} (P : A → Type 0) (xs ys : List A) → Permᴰ xs ys → All P xs → All P ys
All-perm P xs ys Permᴰ.nil h = tt
All-perm P xs ys (Permᴰ.cons {a = x} {b = y} {l₁ = us} {l₂ = vs} e p) h =
    (subst P e h.0, All-perm P us vs p h.1)
All-perm P xs ys (Permᴰ.swap {a = a} {b = b} {l = us} e f) h =
    subst (All P) (λ i. f i ∷ e i ∷ us) (h.1.0, (h.0, h.1.1))
All-perm P xs ys (Permᴰ.trans {l₂ = zs} p q) h = All-perm P zs ys q (All-perm P xs zs p h)

module _ {A : Type 0} (before : A → A → Bool) where
  abbrev IsTiedOnly : A → A → Type 0
  IsTiedOnly x y = before x y ≡ true → before y x ≡ true → x ≡ y

  -- Two entries of the list that stand level are equal.
  abbrev pub Distinguishes : List A → Type 0
  Distinguishes [] = Unit
  Distinguishes (x ∷ xs) = All (IsTiedOnly x) xs × Distinguishes xs

  Distinguishes-perm : (xs ys : List A) → Permᴰ xs ys → Distinguishes xs → Distinguishes ys
  Distinguishes-perm xs ys Permᴰ.nil h = tt
  Distinguishes-perm xs ys (Permᴰ.cons {a = x} {b = y} {l₁ = us} {l₂ = vs} e p) h = (
    subst (λ z. All (IsTiedOnly z) vs) e (All-perm (IsTiedOnly x) us vs p h.0),
    Distinguishes-perm us vs p h.1,
  )
  Distinguishes-perm xs ys (Permᴰ.swap {a = a} {b = b} {l = us} e f) h =
      subst Distinguishes (λ i. f i ∷ e i ∷ us) ((λ p q. sym (h.0.0 q p), h.1.0), (h.0.1, h.1.1))
  Distinguishes-perm xs ys (Permᴰ.trans {l₂ = zs} p q) h =
      Distinguishes-perm zs ys q (Distinguishes-perm xs zs p h)

module _ {A : Type 0} (before : A → A → Bool)
    (total : (x y : A) → before x y ≡ false → before y x ≡ true)
    (trans : (x y z : A) → before x y ≡ true → before y z ≡ true → before x z ≡ true) where
  insert_swap :
      (x y : A) (xs : List A)
      → (before x y ≡ true → before y x ≡ true → x ≡ y)
      → insert_sorted before x (insert_sorted before y xs)
        ≡ insert_sorted before y (insert_sorted before x xs)
  unfolding insert_sorted
  insert_swap x y [] anti = ground (arith, total x y)
  insert_swap x y (z ∷ zs) anti = ground (
    arith,
    insert_swap x y zs anti,
    total x y,
    total x z,
    total y z,
    trans x y z,
    trans y x z,
    trans x z y,
    trans y z x,
  )

  pub sort_by_reorder :
      (xs ys : List A)
      → Permᴰ xs ys
      → Distinguishes before xs
      → sort_by before xs ≡ sort_by before ys
  unfolding sort_by
  sort_by_reorder xs ys Permᴰ.nil h = refl
  sort_by_reorder xs ys (Permᴰ.cons {a = x} {b = y} {l₁ = us} {l₂ = vs} e p) h =
      cc (e, sort_by_reorder us vs p h.1)
  sort_by_reorder xs ys (Permᴰ.swap {a = a} {b = b} {l = us} e f) h =
      cc (e, f, insert_swap a b (sort_by before us) h.0.0)
  sort_by_reorder xs ys (Permᴰ.trans {l₂ = zs} p q) h =
      sort_by_reorder xs zs p h ∙ sort_by_reorder zs ys q (Distinguishes-perm before xs zs p h)
