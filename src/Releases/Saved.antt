-- ===== src/Releases/Saved.antt =====
-- What saving a revision, a plan or an operation leaves in the store.
use xyn.Base.{
  ℕ, ◌<◌, String, ◌≡◌, refl, sym, ap, true, false, ◌&&◌, inl, inr, Option, none, some, List, [],
  ◌∷◌, ◌==◌, ◌=?◌, Bool-cases, arith, eq_iff,
}
use xyn.Base.Table.{first, put, first-put_self, first-put_ne}
use xyn.Releases.Spec.{ReleaseSpec, RuntimeSpec}
use xyn.Releases.Store.{
  Revision, Store, is_revision, larger, latest_number, latest_revision, find_revision, yaml_after,
  save_revision_artifacts,
}

larger-larger :
    (m n : ℕ) (o : Option ℕ) → larger m (some (larger n o)) ≡ larger n (some (larger m o))
larger-larger m n none = ground arith
larger-larger m n (some k) = ground arith

larger_idem : (n : ℕ) (o : Option ℕ) → larger n (some (larger n o)) ≡ larger n o
larger_idem n none = ground arith
larger_idem n (some k) = ground arith

-- A saved revision counts for the latest one, whether it is new or was there.
pub latest_number-put :
    (release_id : String) (r : Revision) (rs : List Revision)
    → r.release_id ≡ release_id
    → latest_number release_id (put (is_revision release_id r.number) r rs)
      ≡ some (larger r.number (latest_number release_id rs))
unfolding latest_number put
latest_number-put release_id r [] h = ground (arith, eq_iff r.release_id release_id)
latest_number-put release_id r (x ∷ xs) h =
    let ih = latest_number-put release_id r xs h in
    let same : (r.release_id =? release_id) ≡ true = (eq_iff r.release_id release_id).1 h in
    elim (Bool-cases (x.release_id =? release_id)) [
      | inl e ↦ elim (Bool-cases (x.number == r.number)) [
        | inl n ↦
            let number : x.number ≡ r.number = ground arith in
            rw (e, n) (rw same (rw number (ap some (sym (larger_idem r.number _)))))
        | inr n ↦ rw (e, n) (rw e (rw ih (ap some (larger-larger x.number r.number _))))
      ]
      | inr e ↦ rw e (rw e ih)
    ]

larger-bound : (m k : ℕ) (o : Option ℕ) → larger m o < k → m < k
larger-bound m k none b = b
larger-bound m k (some j) b = ground arith

-- The directory of a number above the latest revision is not there yet.
pub first-above_latest :
    (release_id : String) (n : ℕ) (rs : List Revision)
    → ((m : ℕ) → latest_number release_id rs ≡ some m → m < n)
    → first (is_revision release_id n) rs ≡ none
unfolding latest_number first
first-above_latest release_id n [] h = refl
first-above_latest release_id n (x ∷ xs) h = elim (Bool-cases (x.release_id =? release_id)) [
  | inl e ↦
      let below : (m : ℕ) → some (larger x.number (latest_number release_id xs)) ≡ some m → m < n =
        rw e at h in
      let top : larger x.number (latest_number release_id xs) < n = below _ refl in
      let rest : first (is_revision release_id n) xs ≡ none =
        first-above_latest release_id n xs
          (λ m q. let bound : larger x.number (some m) < n = rw q at top in ground arith) in
      rw e (ground (arith, larger-bound x.number n (latest_number release_id xs) top))
  | inr e ↦ rw e (first-above_latest release_id n xs (rw e at h))
]

is_revision_self : (release_id : String) (n : ℕ) → ((release_id =? release_id) && (n == n)) ≡ true
is_revision_self release_id n = ground (arith, eq_iff release_id release_id)

module _ (release_id : String) (n : ℕ) (spec : ReleaseSpec) (runtime : RuntimeSpec)
    (yaml : Option String) (store : Store) where
  -- A saved revision is read back, with its compose file unless an older one stayed.
  pub find_revision-save :
      find_revision release_id n (save_revision_artifacts release_id n spec runtime yaml store).1
      ≡ some (record {
        release_id = release_id;
        number = n;
        release_spec = some spec;
        runtime_spec = some runtime;
        compose_yaml = yaml_after (find_revision release_id n store) yaml;
      })
  unfolding find_revision save_revision_artifacts
  find_revision-save =
      first-put_self (is_revision release_id n) _ store.revisions (is_revision_self release_id n)

  pub latest_revision-save :
      latest_revision release_id (save_revision_artifacts release_id n spec runtime yaml store).1
      ≡ some (larger n (latest_revision release_id store))
  unfolding latest_revision save_revision_artifacts
  latest_revision-save = latest_number-put release_id _ store.revisions refl

  -- The other revisions, of this release or another, stay as they are.
  pub find_revision-save_other :
      (other : String) (m : ℕ)
      → ((other =? release_id) && (m == n)) ≡ false
      → find_revision other m (save_revision_artifacts release_id n spec runtime yaml store).1
        ≡ find_revision other m store
  unfolding find_revision save_revision_artifacts
  find_revision-save_other other m h =
      first-put_ne (is_revision release_id n) (is_revision other m) _ store.revisions
        (λ x p. ground (
          arith,
          eq_iff x.release_id release_id,
          eq_iff x.release_id other,
          eq_iff other release_id,
        ))
        (ground (arith, eq_iff other release_id, eq_iff release_id other))
