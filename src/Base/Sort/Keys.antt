-- ===== src/Base/Sort/Keys.antt =====
-- `sorted` by a text key: it commutes with functions that keep the key, and sorts once for all.
use mathlib.Core.Path.{◌≡◌, refl}
use mathlib.Core.Bool.{Bool, true, false}
use mathlib.Core.List.{List, [], ◌∷◌, map, Permᴰ}
use mathlib.Core.Logic.{inl, inr}
use Prim.Native.String.{String}
use native.Mathlib.Omega.{arith}
use text.Mathlib.TextEquality.{eq_iff}
use xyn.Base.Tests.{◌=?◌, Bool-cases}
use xyn.Base.Text.Order.{text_leb, text_leb_total, text_leb_trans, text_leb_antisym}
use xyn.Base.Sort.{All, All-mono, IsSorted, insert_sorted, sort_by, sort_by-IsSorted}
use xyn.Base.Table.{select}
use xyn.Base.Sort.Reorder.{Distinguishes, sort_by_reorder}

-- `sorted(xs, key=key)`
abbrev pub sort_on : {A : Type 0} → (A → String) → List A → List A
sort_on key xs = sort_by (λ x y. text_leb (key x) (key y)) xs

abbrev pub IsSortedOn : {A : Type 0} → (A → String) → List A → Type 0
IsSortedOn key xs = IsSorted (λ x y. text_leb (key x) (key y)) xs

module _ {A : Type 0} (key : A → String) where
  pub sort_on-IsSortedOn : (xs : List A) → IsSortedOn key (sort_on key xs)
  sort_on-IsSortedOn =
      sort_by-IsSorted (λ x y. text_leb (key x) (key y)) (λ x y. text_leb_total (key x) (key y))
        (λ x y z. text_leb_trans (key x) (key y) (key z))

  insert-sorted_front :
      (x : A) (xs : List A)
      → All (λ y. text_leb (key x) (key y) ≡ true) xs
      → insert_sorted (λ y z. text_leb (key y) (key z)) x xs ≡ x ∷ xs
  unfolding insert_sorted
  insert-sorted_front x [] h = refl
  insert-sorted_front x (y ∷ ys) h = rw h.0 refl

  -- A sorted list is left as it is.
  pub sort_on-sorted : (xs : List A) → IsSortedOn key xs → sort_on key xs ≡ xs
  unfolding sort_by
  sort_on-sorted [] h = refl
  sort_on-sorted (x ∷ xs) h = rw (sort_on-sorted xs h.1) (insert-sorted_front x xs h.0)

  -- No two entries have one key.
  abbrev pub HasKeys : List A → Type 0
  HasKeys [] = Unit
  HasKeys (x ∷ xs) = All (λ y. (key x =? key y) ≡ false) xs × HasKeys xs

  HasKeys-Distinguishes :
      (xs : List A) → HasKeys xs → Distinguishes (λ x y. text_leb (key x) (key y)) xs
  HasKeys-Distinguishes [] h = tt
  HasKeys-Distinguishes (x ∷ xs) h = (
    All-mono _ _ xs
        (λ y n p q.
          let same : key x ≡ key y = text_leb_antisym (key x) (key y) p q in
          ground (arith, (eq_iff (key x) (key y)).1 same))
        h.0,
    HasKeys-Distinguishes xs h.1,
  )

  pub sort_on_reorder :
      (xs ys : List A) → Permᴰ xs ys → HasKeys xs → sort_on key xs ≡ sort_on key ys
  sort_on_reorder xs ys p h =
      sort_by_reorder (λ x y. text_leb (key x) (key y)) (λ x y. text_leb_total (key x) (key y))
        (λ x y z. text_leb_trans (key x) (key y) (key z)) xs ys p (HasKeys-Distinguishes xs h)

module _ {A B : Type 0} (key : A → String) (key' : B → String) (f : A → B)
    (keeps : (x : A) → key' (f x) ≡ key x) where
  insert-map :
      (x : A) (xs : List A)
      → insert_sorted (λ y z. text_leb (key' y) (key' z)) (f x) (map f xs)
        ≡ map f (insert_sorted (λ y z. text_leb (key y) (key z)) x xs)
  unfolding insert_sorted
  insert-map x [] = refl
  insert-map x (y ∷ ys) =
      rw (keeps x, keeps y)
        (elim (Bool-cases (text_leb (key x) (key y))) [
          | inl e ↦ rw e refl
          | inr e ↦ rw e (cc (insert-map x ys))
        ])

  pub sort_on-map : (xs : List A) → sort_on key' (map f xs) ≡ map f (sort_on key xs)
  unfolding sort_by
  sort_on-map [] = refl
  sort_on-map (x ∷ xs) = rw (sort_on-map xs) (insert-map x (sort_on key xs))

module _ {A : Type 0} (p : A → Bool) where
  select-All : (P : A → Type 0) (xs : List A) → All P xs → All P (select p xs)
  unfolding select
  select-All P [] h = tt
  select-All P (x ∷ xs) h = elim (Bool-cases (p x)) [
    | inl e ↦ rw e (h.0, select-All P xs h.1)
    | inr e ↦ rw e (select-All P xs h.1)
  ]

  -- What is selected from a sorted list is sorted.
  pub select-IsSortedOn :
      (key : A → String) (xs : List A) → IsSortedOn key xs → IsSortedOn key (select p xs)
  unfolding select
  select-IsSortedOn key [] h = tt
  select-IsSortedOn key (x ∷ xs) h = elim (Bool-cases (p x)) [
    | inl e ↦
        rw e
          (select-All (λ y. text_leb (key x) (key y) ≡ true) xs h.0, select-IsSortedOn key xs h.1)
    | inr e ↦ rw e (select-IsSortedOn key xs h.1)
  ]
