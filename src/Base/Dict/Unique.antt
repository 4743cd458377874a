-- ===== src/Base/Dict/Unique.antt =====
-- Dictionaries hold each key once.
use Prim.Native.String.{String}
use mathlib.Core.Path.{◌≡◌, refl, ◌∙◌}
use mathlib.Core.Logic.{inl, inr}
use mathlib.Core.Bool.{false}
use mathlib.Core.Option.{Option, none, some}
use mathlib.Core.List.{List, [], ◌∷◌, Mem, mem-cons_self, mem-cons_of_mem}
use native.Mathlib.Omega.{arith}
use text.Mathlib.TextEquality.{eq_iff}
use xyn.Base.Tests.{◌=?◌, Bool-cases}
use xyn.Base.Sort.{All, All-mono}
use xyn.Base.Dict.{lookup, insert, lookup-insert}

module _ {V : Type 0} where
  -- No key stands twice.
  abbrev pub IsUnique : List (String × V) → Type 0
  IsUnique [] = Unit
  IsUnique ((k, v) ∷ d) = (lookup k d ≡ none) × IsUnique d

  pub insert-IsUnique :
      (k : String) (v : V) (d : List (String × V)) → IsUnique d → IsUnique (insert k v d)
  unfolding insert lookup
  insert-IsUnique k v [] u = (refl, tt)
  insert-IsUnique k v ((j, w) ∷ d) u = elim (Bool-cases (j =? k)) [
    | inl e ↦ rw e u
    | inr e ↦ rw e (
      lookup-insert k j v d ∙ ground (arith, eq_iff k j, eq_iff j k, u.0),
      insert-IsUnique k v d u.1,
    )
  ]

  lookup-ne_none :
      (k j : String) (d : List (String × V)) (v : V)
      → lookup k d ≡ none
      → lookup j d ≡ some v
      → (k =? j) ≡ false
  lookup-ne_none k j d v h i = elim (Bool-cases (k =? j)) [
    | inl e ↦ cc ((eq_iff k j).0 e, h, i)
    | inr e ↦ e
  ]

  -- Each entry of a dictionary is found under its key.
  pub lookup-entries : (d : List (String × V)) → IsUnique d → All (λ e. lookup e.0 d ≡ some e.1) d
  unfolding lookup
  lookup-entries [] u = tt
  lookup-entries ((k, v) ∷ d) u = (
    rw ((eq_iff k k).1 refl) refl,
    All-mono (λ e. lookup e.0 d ≡ some e.1) (λ e. lookup e.0 ((k, v) ∷ d) ≡ some e.1) d
        (λ e h. rw (lookup-ne_none k e.0 d e.1 u.0 h) h) (lookup-entries d u.1),
  )

  -- What a dictionary finds is one of its entries.
  pub mem-lookup : (k : String) (v : V) (d : List (String × V)) → lookup k d ≡ some v → Mem (k, v) d
  unfolding lookup
  mem-lookup k v [] h = ground arith
  mem-lookup k v ((j, w) ∷ d) h = elim (Bool-cases (j =? k)) [
    | inl e ↦
        let same : ◌≡◌ {A = Option V} (some w) (some v) = rw e at h in
        let path : w ≡ v = cc same in
        let key : j ≡ k = (eq_iff j k).0 e in rw (key, path) mem-cons_self
    | inr e ↦ mem-cons_of_mem (j, w) (mem-lookup k v d (rw e at h))
  ]
