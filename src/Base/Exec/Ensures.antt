-- ===== src/Base/Exec/Ensures.antt =====
-- What an action guarantees of the session before and after it, one rule for each way to build an
-- action. The guarantee is a preorder, so that it holds of a sequence if it holds of its parts.
use mathlib.Core.Bool.{Bool, true, false}
use xyn.Base.Tests.{if◌then◌else◌}
use xyn.Base.Exec.{Result, ok, err, Exec, pure, raise, lift, gets, continue, ◌>>=◌}

pub record IsPreorder {S : Type 0} (G : S → S → Type 0) : Type 0 where
  pub here : (s : S) → G s s
  pub next : (s t u : S) → G s t → G t u → G s u

pub record Ensures {E S A : Type 0} (G : S → S → Type 0) (m : Exec E S A) : Type 0 where
  pub at : (s : S) → G s (m s).1

module _ {E S A : Type 0} {G : S → S → Type 0} ⦃p : IsPreorder G⦄ where
  pub Ensures-pure : (a : A) → Ensures {E = E} G (pure a)
  Ensures-pure a = record { at = λ s. p.here s }

  pub Ensures-raise : (e : E) → Ensures {A = A} G (raise e)
  Ensures-raise e = record { at = λ s. p.here s }

  pub Ensures-lift : (r : Result E A) → Ensures G (lift r)
  Ensures-lift r = record { at = λ s. p.here s }

  pub Ensures-gets : (f : S → A) → Ensures {E = E} G (gets f)
  Ensures-gets f = record { at = λ s. p.here s }

  pub Ensures-if :
      (b : Bool) (m n : Exec E S A) → Ensures G m → Ensures G n → Ensures G (if b then m else n)
  Ensures-if true m n km kn = km
  Ensures-if false m n km kn = kn

module _ {E S A B : Type 0} {G : S → S → Type 0} ⦃p : IsPreorder G⦄ where
  Ensures-continue :
      (r : Result E A) (f : A → Exec E S B) → ((a : A) → Ensures G (f a)) → Ensures G (continue r f)
  Ensures-continue (ok a) f kf = kf a
  Ensures-continue (err e) f kf = Ensures-raise e

  pub Ensures-bind :
      (m : Exec E S A) (f : A → Exec E S B)
      → Ensures G m
      → ((a : A) → Ensures G (f a))
      → Ensures G (m >>= f)
  unfolding ◌>>=◌
  Ensures-bind m f km kf = record {
    at = λ s.
        let (r, s') = m s in
        p.next s s' (continue r f s').1 (km.at s) ((Ensures-continue r f kf).at s');
  }

pub ruleset ensures_rules =
    (Ensures-pure, Ensures-raise, Ensures-lift, Ensures-gets, Ensures-if, Ensures-bind)
