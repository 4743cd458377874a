-- ===== src/Jobs/RoundTrip.antt =====
-- What a stage writes as a dictionary reads back.
use mathlib.Core.List.{append-nil}
use xyn.Base.{
  String, ◌≡◌, refl, sym, ap, ◌∙◌, false, inl, inr, none, List, [], ◌∷◌, ◌++◌, ◌=?◌, Bool-cases,
  arith, eq_iff,
}
use xyn.Base.Sort.{All}
use xyn.Base.Table.{select}
use xyn.Base.Dict.{lookup, insert, merge}
use xyn.Base.Dict.Unique.{IsUnique}
use xyn.Base.Json.{Json, entries, of_entries, elements, of_elements}
use xyn.Jobs.StageContracts.{JsonDict, extra_of}

pub entries-of_entries : (d : JsonDict) → entries (of_entries d) ≡ d
unfolding entries of_entries
entries-of_entries [] = refl
entries-of_entries ((k, v) ∷ d) = ap (λ e. (k, v) ∷ e) (entries-of_entries d)

pub elements-of_elements : (vs : List Json) → elements (of_elements vs) ≡ vs
unfolding elements of_elements
elements-of_elements [] = refl
elements-of_elements (v ∷ vs) = ap (λ ws. v ∷ ws) (elements-of_elements vs)

-- None of the keys is one of these two.
abbrev pub IsFree : String → String → JsonDict → Type 0
IsFree k j d = All (λ e. ((e.0 =? k) ≡ false) × ((e.0 =? j) ≡ false)) d

insert-new :
    (k : String) (v : Json) (d : JsonDict) → lookup k d ≡ none → insert k v d ≡ d ++ (k, v) ∷ []
unfolding insert lookup
insert-new k v [] h = refl
insert-new k v ((j, w) ∷ d) h = elim (Bool-cases (j =? k)) [
  | inl e ↦ ground (arith, h)
  | inr e ↦ rw e (ap (λ r. (j, w) ∷ r) (insert-new k v d (rw e at h)))
]

lookup-append_new :
    (j k : String) (v : Json) (d : JsonDict)
    → lookup j d ≡ none
    → (k =? j) ≡ false
    → lookup j (d ++ (k, v) ∷ []) ≡ none
unfolding lookup
lookup-append_new j k v [] h n = rw n refl
lookup-append_new j k v ((i, w) ∷ d) h n = elim (Bool-cases (i =? j)) [
  | inl e ↦ ground (arith, h)
  | inr e ↦ rw e (lookup-append_new j k v d (rw e at h) n)
]

All-append_new :
    (k : String) (v : Json) (d e : JsonDict)
    → lookup k e ≡ none
    → All (λ p. lookup p.0 d ≡ none) e
    → All (λ p. lookup p.0 (d ++ (k, v) ∷ []) ≡ none) e
unfolding lookup
All-append_new k v d [] n h = tt
All-append_new k v d ((j, w) ∷ e) n h = elim (Bool-cases (j =? k)) [
  | inl q ↦ ground (arith, n)
  | inr q ↦ (
    lookup-append_new j k v d h.0 (ground (arith, eq_iff j k, eq_iff k j)),
    All-append_new k v d e (rw q at n) h.1,
  )
]

append-cons : (d e : JsonDict) (p : String × Json) → (d ++ p ∷ []) ++ e ≡ d ++ p ∷ e
append-cons [] e p = refl
append-cons (x ∷ d) e p = ap (λ r. x ∷ r) (append-cons d e p)

-- Keys that are new are appended in their order.
pub merge-new :
    (d e : JsonDict) → IsUnique e → All (λ p. lookup p.0 d ≡ none) e → merge d e ≡ d ++ e
unfolding merge
merge-new d [] u h = sym (append-nil d)
merge-new d ((k, v) ∷ e) u h =
    rw (insert-new k v d h.0)
      (merge-new (d ++ (k, v) ∷ []) e u.1 (All-append_new k v d e u.0 h.1) ∙ append-cons d e (k, v))

module _ (k j : String) (apart : (k =? j) ≡ false) where
  pub IsFree-new :
      (v w : Json) (e : JsonDict)
      → IsFree k j e
      → All (λ p. lookup p.0 ((k, v) ∷ (j, w) ∷ []) ≡ none) e
  unfolding lookup
  IsFree-new v w [] h = tt
  IsFree-new v w ((i, x) ∷ e) h = (
    ground (arith, h.0.0, h.0.1, eq_iff i k, eq_iff k i, eq_iff i j, eq_iff j i),
    IsFree-new v w e h.1,
  )

  extra_of-free : (e : JsonDict) → IsFree k j e → extra_of k j e ≡ e
  unfolding extra_of select
  extra_of-free [] h = refl
  extra_of-free ((i, x) ∷ e) h = rw (h.0.0, h.0.1) (ap (λ r. (i, x) ∷ r) (extra_of-free e h.1))

  -- The entries beside the two keys are what was merged in.
  pub extra_of-merge :
      (v w : Json) (e : JsonDict)
      → IsUnique e
      → IsFree k j e
      → extra_of k j (merge ((k, v) ∷ (j, w) ∷ []) e) ≡ e
  unfolding extra_of select
  extra_of-merge v w e u h =
      rw (merge-new ((k, v) ∷ (j, w) ∷ []) e u (IsFree-new v w e h))
        (ground (arith, eq_iff k k, eq_iff j j, extra_of-free e h))
