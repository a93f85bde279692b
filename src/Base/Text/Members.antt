-- ===== src/Base/Text/Members.antt =====
-- `in` on a list of texts against membership.
use ge360_bridge.Base.Text.{Text, text_eq, text_eq_iff, contains}
use ge360_bridge.Base.Tests.{Bool-cases}
use ge360_bridge.Base.Lists.{keep, all}
use mathlib.Core.Path.{◌≡◌, refl, sym, ap}
use mathlib.Core.Logic.{inl, inr}
use mathlib.Core.Bool.{true, ◌&&◌, ◌||◌, not}
use mathlib.Core.List.{List, [], ◌∷◌, ◌++◌, Memᴰ}
use native.Mathlib.Omega.{arith}

pub contains-of_Memᴰ : {a : Text} {xs : List Text} → Memᴰ a xs → contains xs a ≡ true
unfolding contains
contains-of_Memᴰ {a} (Memᴰ.head {x = x} e) = ground (arith, text_eq_iff x a, sym e)
contains-of_Memᴰ (Memᴰ.tail m) = ground (arith, contains-of_Memᴰ m)

pub Memᴰ-of_contains : (a : Text) (xs : List Text) → contains xs a ≡ true → Memᴰ a xs
unfolding contains
Memᴰ-of_contains a [] h = absurd (ground arith)
Memᴰ-of_contains a (x ∷ xs) h = elim (Bool-cases (text_eq x a)) [
  | inl e ↦ Memᴰ.head (sym ((text_eq_iff x a).0 e))
  | inr e ↦ Memᴰ.tail (Memᴰ-of_contains a xs (ground arith))
]

-- `discard` takes out one text and keeps the others.
pub contains-discard :
    (a b : Text) (xs : List Text)
    → contains (keep (λ y. not (text_eq y b)) xs) a ≡ (contains xs a && not (text_eq a b))
unfolding contains
contains-discard a b [] = refl
contains-discard a b (x ∷ xs) =
    ground (arith, contains-discard a b xs, text_eq_iff x a, text_eq_iff x b, text_eq_iff a b)

pub contains-append :
    (a : Text) (xs ys : List Text) → contains (xs ++ ys) a ≡ (contains xs a || contains ys a)
unfolding contains
contains-append a [] ys = refl
contains-append a (x ∷ xs) ys = ground (arith, contains-append a xs ys)

-- Every member of one list is in the other.
pub contains-of_all :
    (ys xs : List Text) (a : Text)
    → all (contains ys) xs ≡ true
    → contains xs a ≡ true
    → contains ys a ≡ true
unfolding contains
contains-of_all ys [] a h m = ground arith
contains-of_all ys (x ∷ xs) a h m = elim (Bool-cases (text_eq x a)) [
  | inl e ↦ let p = ap (contains ys) ((text_eq_iff x a).0 e) in ground arith
  | inr e ↦ ground (arith, contains-of_all ys xs a)
]
