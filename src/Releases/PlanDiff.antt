-- ===== src/Releases/PlanDiff.antt =====
-- The actions of a plan are exactly the differences of the two specs.
use mathlib.Core.List.{Mem, mem-cons_self, mem-cons_of_mem}
use xyn.Base.{
  String, ◌≡◌, refl, false, inl, inr, Option, none, some, List, [], ◌∷◌, ◌=?◌, Bool-cases, arith,
  eq_iff,
}
use xyn.Base.Dict.{lookup, insert}
use xyn.Base.Dict.Unique.{IsUnique, insert-IsUnique}
use xyn.Base.Sort.{All}
use xyn.Releases.Spec.{RuntimeSpec}
use xyn.Releases.Plan.{
  TargetType, Target, target_name, targets_of, same_target, Action, create, update, delete,
  index_from, index_by_name, with_change, create_or_update, with_deletion, delete_missing,
}

-- The named items of a type in a spec that may be missing.
abbrev pub named : TargetType → Option RuntimeSpec → List (String × Target)
named type none = []
named type (some spec) = index_by_name (targets_of type spec)

-- What an action says is a difference of the two indexes.
abbrev pub IsChange : List (String × Target) → List (String × Target) → Action → Type 0
IsChange before after (create type name) =
    (lookup name before ≡ none) × (x : Target) × (lookup name after ≡ some x)
IsChange before after (update type name x y) =
    (lookup name before ≡ some x) × (lookup name after ≡ some y) × (same_target x y ≡ false)
IsChange before after (delete type name) =
    (lookup name after ≡ none) × (x : Target) × (lookup name before ≡ some x)

abbrev pub action_type : Action → TargetType
action_type (create type name) = type
action_type (update type name x y) = type
action_type (delete type name) = type

index_from-IsUnique :
    (index : List (String × Target)) (targets : List Target)
    → IsUnique index
    → IsUnique (index_from index targets)
unfolding index_from
index_from-IsUnique index [] u = u
index_from-IsUnique index (t ∷ ts) u = elim (Bool-cases (target_name t =? "")) [
  | inl e ↦ rw e (index_from-IsUnique index ts u)
  | inr e ↦ rw e (
      index_from-IsUnique (insert (target_name t) t index) ts
        (insert-IsUnique (target_name t) t index u))
]

pub named-IsUnique : (type : TargetType) (spec : Option RuntimeSpec) → IsUnique (named type spec)
unfolding index_by_name
named-IsUnique type none = tt
named-IsUnique type (some spec) = index_from-IsUnique [] (targets_of type spec) tt

module _ (type : TargetType) (before after : List (String × Target)) where
  abbrev pub IsChangeOf : Action → Type 0
  IsChangeOf a = (action_type a ≡ type) × IsChange before after a

  with_change_sound :
      (name : String) (o : Option Target) (current : Target) (actions : List Action)
      → lookup name before ≡ o
      → lookup name after ≡ some current
      → All IsChangeOf actions
      → All IsChangeOf (with_change type name o current actions)
  unfolding with_change
  with_change_sound name none current actions p c h = ((refl, (p, current, c)), h)
  with_change_sound name (some item) current actions p c h =
      elim (Bool-cases (same_target item current)) [
        | inl s ↦ rw s h
        | inr s ↦ rw s ((refl, (p, c, s)), h)
      ]

  pub create_or_update_sound :
      (entries : List (String × Target))
      → All (λ e. lookup e.0 after ≡ some e.1) entries
      → All IsChangeOf (create_or_update type before entries)
  unfolding create_or_update
  create_or_update_sound [] h = tt
  create_or_update_sound ((name, current) ∷ rest) h =
      with_change_sound name (lookup name before) current (create_or_update type before rest) refl
        h.0 (create_or_update_sound rest h.1)

  with_deletion_sound :
      (name : String) (o : Option Target) (item : Target) (actions : List Action)
      → lookup name after ≡ o
      → lookup name before ≡ some item
      → All IsChangeOf actions
      → All IsChangeOf (with_deletion type name o actions)
  unfolding with_deletion
  with_deletion_sound name none item actions c p h = ((refl, (c, item, p)), h)
  with_deletion_sound name (some _) item actions c p h = h

  pub delete_missing_sound :
      (entries : List (String × Target))
      → All (λ e. lookup e.0 before ≡ some e.1) entries
      → All IsChangeOf (delete_missing type entries after)
  unfolding delete_missing
  delete_missing_sound [] h = tt
  delete_missing_sound ((name, item) ∷ rest) h =
      with_deletion_sound name (lookup name after) item (delete_missing type rest after) refl h.0
        (delete_missing_sound rest h.1)

  with_change-keeps :
      (a : Action) (name : String) (o : Option Target) (current : Target) (actions : List Action)
      → Mem a actions
      → Mem a (with_change type name o current actions)
  unfolding with_change
  with_change-keeps a name none current actions m = mem-cons_of_mem (create type name) m
  with_change-keeps a name (some item) current actions m =
      elim (Bool-cases (same_target item current)) [
        | inl s ↦ rw s m
        | inr s ↦ rw s (mem-cons_of_mem (update type name item current) m)
      ]

  pub create-complete :
      (name : String) (x : Target) (entries : List (String × Target))
      → lookup name before ≡ none
      → lookup name entries ≡ some x
      → Mem (create type name) (create_or_update type before entries)
  unfolding create_or_update lookup
  create-complete name x [] p c = ground arith
  create-complete name x ((key, current) ∷ rest) p c = elim (Bool-cases (key =? name)) [
    | inl e ↦
        let same : key ≡ name = (eq_iff key name).0 e in
        rw same (rw p (unfold with_change in mem-cons_self))
    | inr e ↦
        with_change-keeps (create type name) key (lookup key before) current
          (create_or_update type before rest) (create-complete name x rest p (rw e at c))
  ]

  pub update-complete :
      (name : String) (x y : Target) (entries : List (String × Target))
      → lookup name before ≡ some x
      → lookup name entries ≡ some y
      → same_target x y ≡ false
      → Mem (update type name x y) (create_or_update type before entries)
  unfolding create_or_update lookup
  update-complete name x y [] p c s = ground arith
  update-complete name x y ((key, current) ∷ rest) p c s = elim (Bool-cases (key =? name)) [
    | inl e ↦
        let same : key ≡ name = (eq_iff key name).0 e in
        let found : ◌≡◌ {A = Option Target} (some current) (some y) = rw e at c in
        let item : current ≡ y = cc found in
        rw (same, item) (rw p (unfold with_change in rw s mem-cons_self))
    | inr e ↦
        with_change-keeps (update type name x y) key (lookup key before) current
          (create_or_update type before rest) (update-complete name x y rest p (rw e at c) s)
  ]

  with_deletion-keeps :
      (a : Action) (name : String) (o : Option Target) (actions : List Action)
      → Mem a actions
      → Mem a (with_deletion type name o actions)
  unfolding with_deletion
  with_deletion-keeps a name none actions m = mem-cons_of_mem (delete type name) m
  with_deletion-keeps a name (some _) actions m = m

  pub delete-complete :
      (name : String) (x : Target) (entries : List (String × Target))
      → lookup name after ≡ none
      → lookup name entries ≡ some x
      → Mem (delete type name) (delete_missing type entries after)
  unfolding delete_missing lookup
  delete-complete name x [] p c = ground arith
  delete-complete name x ((key, item) ∷ rest) p c = elim (Bool-cases (key =? name)) [
    | inl e ↦
        let same : key ≡ name = (eq_iff key name).0 e in
        rw same (rw p (unfold with_deletion in mem-cons_self))
    | inr e ↦
        with_deletion-keeps (delete type name) key (lookup key after)
          (delete_missing type rest after) (delete-complete name x rest p (rw e at c))
  ]
