-- ===== src/Releases/Changes.antt =====
-- The plan of a release lists the differences from the revision before, and all of them.
use mathlib.Core.List.Perm
use mathlib.Core.List.{Mem, mem-cons_self, mem-cons_of_mem, mem-append_left, mem-append_right}
use xyn.Base.{
  String, ◌≡◌, refl, ◌∙◌, false, inl, inr, Option, none, some, List, [], ◌∷◌, ◌++◌, ◌=?◌,
  if◌then◌else◌, Bool-cases, arith, eq_iff,
}
use xyn.Base.Dict.{lookup, insert, lookup-insert}
use xyn.Base.Dict.Unique.{lookup-entries}
use xyn.Base.Sort.{All, All-mono, sort_by-All, sort_by-perm}
use xyn.Releases.Spec.{RuntimeSpec}
use xyn.Releases.Plan.{
  TargetType, deployment, service, volume, network, route, Target, target_name, targets_of, Action,
  create, update, delete, index_from, index_by_name, create_all, create_or_update, delete_missing,
  actions_for, action_order, diff_actions,
}
use xyn.Releases.PlanDiff.{
  named, IsChange, action_type, IsChangeOf, named-IsUnique, create_or_update_sound,
  delete_missing_sound, create-complete, update-complete, delete-complete,
}

-- A name that an index has is kept while items are added.
index_from-keeps :
    (name : String) (index : List (String × Target)) (targets : List Target) (x : Target)
    → lookup name index ≡ some x
    → (y : Target) × (lookup name (index_from index targets) ≡ some y)
unfolding index_from
index_from-keeps name index [] x h = (x, h)
index_from-keeps name index (t ∷ ts) x h = elim (Bool-cases (target_name t =? "")) [
  | inl e ↦ rw e (index_from-keeps name index ts x h)
  | inr e ↦ rw e (
      let index' : List (String × Target) = insert (target_name t) t index in
      let found : lookup name index'
          ≡ (if target_name t =? name then some t else lookup name index) =
        lookup-insert (target_name t) name t index in
      elim (Bool-cases (target_name t =? name)) [
        | inl s ↦ index_from-keeps name index' ts t (rw s at found)
        | inr s ↦ index_from-keeps name index' ts x ((rw s at found) ∙ h)
      ])
]

index_from-All :
    (final index : List (String × Target)) (targets : List Target)
    → index_from index targets ≡ final
    → All
        (λ t.
          (target_name t =? "") ≡ false → (y : Target) × (lookup (target_name t) final ≡ some y))
        targets
unfolding index_from
index_from-All final index [] q = tt
index_from-All final index (t ∷ ts) q = elim (Bool-cases (target_name t =? "")) [
  | inl e ↦ (λ h. ground arith, index_from-All final index ts (rw e at q))
  | inr e ↦
      let rest : index_from (insert (target_name t) t index) ts ≡ final = rw e at q in
      (
        λ h. rw rest at (
            index_from-keeps (target_name t) (insert (target_name t) t index) ts t (
              lookup-insert (target_name t) (target_name t) t index
              ∙ rw ((eq_iff (target_name t) (target_name t)).1 refl) refl)),
        index_from-All final (insert (target_name t) t index) ts rest,
      )
]

create_all_sound :
    (type : TargetType) (after : List (String × Target)) (targets : List Target)
    → All
        (λ t.
          (target_name t =? "") ≡ false → (y : Target) × (lookup (target_name t) after ≡ some y))
        targets
    → All (IsChangeOf type [] after) (create_all type targets)
unfolding create_all lookup
create_all_sound type after [] h = tt
create_all_sound type after (t ∷ ts) h = elim (Bool-cases (target_name t =? "")) [
  | inl e ↦ rw e (create_all_sound type after ts h.1)
  | inr e ↦ rw e (
      let found : (y : Target) × (lookup (target_name t) after ≡ some y) = h.0 e in
      ((refl, (refl, found.0, found.1)), create_all_sound type after ts h.1))
]

create_all-complete :
    (type : TargetType) (name : String) (x : Target) (index : List (String × Target))
    (targets : List Target)
    → lookup name index ≡ none
    → lookup name (index_from index targets) ≡ some x
    → Mem (create type name) (create_all type targets)
unfolding create_all index_from
create_all-complete type name x index [] n h = ground arith
create_all-complete type name x index (t ∷ ts) n h = elim (Bool-cases (target_name t =? "")) [
  | inl e ↦ rw e (create_all-complete type name x index ts n (rw e at h))
  | inr e ↦ rw e (elim (Bool-cases (target_name t =? name)) [
    | inl s ↦
        let same : target_name t ≡ name = (eq_iff (target_name t) name).0 s in rw same mem-cons_self
    | inr s ↦
        let found : lookup name (insert (target_name t) t index)
            ≡ (if target_name t =? name then some t else lookup name index) =
          lookup-insert (target_name t) name t index in
        mem-cons_of_mem (create type (target_name t)) (
          create_all-complete type name x (insert (target_name t) t index) ts ((rw s at found) ∙ n)
            (rw e at h))
  ])
]

All-append : {A : Type 0} (P : A → Type 0) (xs ys : List A) → All P xs → All P ys → All P (xs ++ ys)
All-append P [] ys h i = i
All-append P (x ∷ xs) ys h i = (h.0, All-append P xs ys h.1 i)

actions_for_sound :
    (type : TargetType) (previous : Option RuntimeSpec) (current : RuntimeSpec)
    → All
        (IsChangeOf type (named type previous) (named type (some current)))
        (actions_for type previous current)
unfolding actions_for index_by_name
actions_for_sound type none current =
    create_all_sound type (named type (some current)) (targets_of type current)
      (index_from-All (named type (some current)) [] (targets_of type current) refl)
actions_for_sound type (some previous) current =
    let before : List (String × Target) = named type (some previous) in
    let after : List (String × Target) = named type (some current) in
    All-append (IsChangeOf type before after) (create_or_update type before after)
      (delete_missing type before after)
      (create_or_update_sound type before after after
        (lookup-entries after (named-IsUnique type (some current))))
      (delete_missing_sound type before after before
        (lookup-entries before (named-IsUnique type (some previous))))

actions_for-complete :
    (type : TargetType) (previous : Option RuntimeSpec) (current : RuntimeSpec) (a : Action)
    → IsChangeOf type (named type previous) (named type (some current)) a
    → Mem a (actions_for type previous current)
unfolding actions_for index_by_name lookup
actions_for-complete type none current (create _ name) (same, (p, x, c)) =
    rw same (create_all-complete type name x [] (targets_of type current) refl c)
actions_for-complete type none current (update _ name x y) (same, (p, c, s)) = ground arith
actions_for-complete type none current (delete _ name) (same, (c, x, p)) = ground arith
actions_for-complete type (some previous) current (create _ name) (same, (p, x, c)) = rw same (
    mem-append_left (delete_missing type (named type (some previous)) (named type (some current))) (
      create-complete type (named type (some previous)) (named type (some current)) name x
        (named type (some current)) p c))
actions_for-complete type (some previous) current (update _ name x y) (same, (p, c, s)) = rw same (
    mem-append_left (delete_missing type (named type (some previous)) (named type (some current))) (
      update-complete type (named type (some previous)) (named type (some current)) name x y
        (named type (some current)) p c s))
actions_for-complete type (some previous) current (delete _ name) (same, (c, x, p)) = rw same (
    mem-append_right
      (create_or_update type (named type (some previous)) (named type (some current)))
      (delete-complete type (named type (some previous)) (named type (some current)) name x
        (named type (some previous)) c p))

IsChangeOf-any :
    (previous : Option RuntimeSpec) (current : RuntimeSpec) (type : TargetType) (a : Action)
    → IsChangeOf type (named type previous) (named type (some current)) a
    → IsChange (named (action_type a) previous) (named (action_type a) (some current)) a
IsChangeOf-any previous current type a (same, h) = rw same h

-- Each action of the plan from one spec to the next is a difference between the items that their
-- lists name: it creates what only the next one has, deletes what only the one before has, and
-- updates what both have but not equal. A first release only creates.
pub diff_actions_sound :
    (previous : Option RuntimeSpec) (current : RuntimeSpec)
    → All
        (λ a. IsChange (named (action_type a) previous) (named (action_type a) (some current)) a)
        (diff_actions previous current)
unfolding diff_actions
diff_actions_sound previous current = sort_by-All action_order Change _ (
    All-append Change (actions_for deployment previous current) _ (each deployment) (
      All-append Change (actions_for service previous current) _ (each service) (
        All-append Change (actions_for volume previous current) _ (each volume) (
          All-append Change (actions_for network previous current) _ (each network) (each route)))))
  where
    Change : Action → Type 0
    Change a = IsChange (named (action_type a) previous) (named (action_type a) (some current)) a

    each : (type : TargetType) → All Change (actions_for type previous current)
    each type =
        All-mono (IsChangeOf type (named type previous) (named type (some current))) Change
          (actions_for type previous current) (IsChangeOf-any previous current type)
          (actions_for_sound type previous current)

member-all_actions :
    (type : TargetType) (f : TargetType → List Action) (a : Action)
    → Mem a (f type)
    → Mem a (f deployment ++ (f service ++ (f volume ++ (f network ++ f route))))
member-all_actions deployment f a m = mem-append_left _ m
member-all_actions service f a m = mem-append_right (f deployment) (mem-append_left _ m)
member-all_actions volume f a m =
    mem-append_right (f deployment) (mem-append_right (f service) (mem-append_left _ m))
member-all_actions network f a m =
    mem-append_right (f deployment)
      (mem-append_right (f service) (mem-append_right (f volume) (mem-append_left _ m)))
member-all_actions route f a m =
    mem-append_right (f deployment)
      (mem-append_right (f service) (mem-append_right (f volume) (mem-append_right (f network) m)))

-- Each difference between the named items of two specs is an action of the plan: whatever only one
-- of them has, and whatever both have but not equal.
pub diff_actions-complete :
    (previous : Option RuntimeSpec) (current : RuntimeSpec) (a : Action)
    → IsChange (named (action_type a) previous) (named (action_type a) (some current)) a
    → Mem a (diff_actions previous current)
unfolding diff_actions
diff_actions-complete previous current a h = (Perm.mem_iff (sort_by-perm action_order _)).1 (
    member-all_actions (action_type a) (λ t. actions_for t previous current) a
      (actions_for-complete (action_type a) previous current a (refl, h)))
