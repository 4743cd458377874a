-- ===== src/Config/Aliases.antt =====
-- A variable of the environment that was read under an alias is found again.
use text.Mathlib.TextEquality.{eq_iff}
use xyn.Base.{
  arith, String, ◌≡◌, refl, sym, ap, ◌∙◌, false, inl, inr, ◌⊎◌, Option, none, some, List, [], ◌∷◌,
  ◌=?◌, Bool-cases,
}
use xyn.Base.Text.{strip, lstrip, rstrip, strip_idem}
use xyn.Base.Exec.{Result, ok}
use xyn.Base.Dict.{lookup, insert, lookup-insert}
use xyn.Config.Ai.{ConfigFault, Environ, stripped, set_missing, from_aliases, env}

-- A call leaves the variables as they were, or sets `key` to the value that it returns.
abbrev Leaves : String → Environ → Result ConfigFault String × Environ → Type 0
Leaves key environ result =
    (result.1 ≡ environ)
    ⊎ ((value : String) × (result ≡ (ok value, insert key value environ))
        × (strip value ≡ value)
        × ((value =? "") ≡ false))

strip-stripped : (o : Option String) → strip (stripped o) ≡ stripped o
unfolding strip lstrip rstrip
strip-stripped none = refl
strip-stripped (some s) = strip_idem s

set_missing-Leaves :
    (o : Option String) (key value : String) (environ : Environ)
    → strip value ≡ value
    → (value =? "") ≡ false
    → Leaves key environ (ok value, set_missing o key value environ)
set_missing-Leaves none key value environ s b = inr (value, refl, s, b)
set_missing-Leaves (some t) key value environ s b = inl refl

from_aliases-Leaves :
    (key default : String) (aliases : List String) (environ : Environ)
    → Leaves key environ (from_aliases key default aliases environ)
unfolding from_aliases
from_aliases-Leaves key default [] environ = inl refl
from_aliases-Leaves key default (alias ∷ aliases) environ =
    let value = stripped (lookup alias environ) in
    elim (Bool-cases (value =? "")) [
      | inl e ↦ rw e (from_aliases-Leaves key default aliases environ)
      | inr e ↦ rw e (
          set_missing-Leaves (lookup key environ) key value environ
            (strip-stripped (lookup alias environ)) e)
    ]

env-Leaves :
    (key default : String) (aliases : List String) (environ : Environ)
    → Leaves key environ (env key default aliases environ)
unfolding env
env-Leaves key default aliases environ = elim (Bool-cases (stripped (lookup key environ) =? "")) [
  | inl e ↦ rw e (from_aliases-Leaves key default aliases environ)
  | inr e ↦ rw e (inl refl)
]

lookup-insert_self :
    (key value : String) (environ : Environ) → lookup key (insert key value environ) ≡ some value
lookup-insert_self key value environ =
    ground (arith, eq_iff key key, lookup-insert key key value environ)

env-insert :
    (key default value : String) (aliases : List String) (environ : Environ)
    → strip value ≡ value
    → (value =? "") ≡ false
    → env key default aliases (insert key value environ) ≡ (ok value, insert key value environ)
unfolding env
env-insert key default value aliases environ s b =
    rw (lookup-insert_self key value environ) (rw s (rw b refl))

-- Reading a variable again, with the same aliases and default, returns the same value and leaves the
-- environment as the first reading left it, also where that reading set the variable from an alias.
pub env-again :
    (key default : String) (aliases : List String) (environ : Environ)
    → env key default aliases (env key default aliases environ).1 ≡ env key default aliases environ
env-again key default aliases environ = elim (env-Leaves key default aliases environ) [
  | inl q ↦ ap (env key default aliases) q
  | inr (value, q, s, b) ↦
      ap (λ r. env key default aliases r.1) q
      ∙ env-insert key default value aliases environ s b
      ∙ sym q
]
