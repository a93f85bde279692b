-- ===== src/Core/Store/Keeps.antt =====
-- Actions that leave a part of the files alone, by the parts they are made of.
use ge360_bridge.Base.{◌≡◌, refl, ◌∙◌, Bool, true, false, Option, none, some}
use ge360_bridge.Core.Data.{Error, Result, ok, err}
use ge360_bridge.Core.Store.{Act, ◌>>=◌, pure, gets, or_raise, raise_if}

-- An action that leaves one part of the files as it is.
pub record Keeps {S X A : Type 0} (part : S → X) (m : Act S A) : Type 0 where
  pub same : (s : S) → part (m s).1 ≡ part s

module _ {S X : Type 0} {part : S → X} where
  pub bind-Keeps :
      {A B : Type 0} (m : Act S A) {k : A → Act S B}
      → Keeps part m
      → ((a : A) → Keeps part (k a))
      → Keeps part (m >>= k)
  bind-Keeps {A = A} {B = B} m {k = k} p q = record { same = λ s. go s (m s) (p.same s) }
    where
      go :
          (s : S) (r : Result A × S)
          → part r.1 ≡ part s
          → let x : Result B × S = elim (r.0) [ ok a ↦ k a r.1 | err e ↦ (err e, r.1) ] in
            part x.1 ≡ part s
      go s (ok a, t) h = (q a).same t ∙ h
      go s (err e, t) h = h

  pub pure-Keeps : {A : Type 0} (a : A) → Keeps part (pure {S = S} a)
  pure-Keeps a = record { same = λ s. refl }

  pub gets-Keeps : {A : Type 0} (f : S → A) → Keeps part (gets f)
  gets-Keeps f = record { same = λ s. refl }

  pub raise_if-Keeps : (b : Bool) (e : Error) → Keeps part (raise_if b e)
  raise_if-Keeps true e = record { same = λ s. refl }
  raise_if-Keeps false e = record { same = λ s. refl }

  pub or_raise-Keeps : {A : Type 0} (o : Option A) (e : Error) → Keeps part (or_raise o e)
  or_raise-Keeps none e = record { same = λ s. refl }
  or_raise-Keeps (some a) e = record { same = λ s. refl }
