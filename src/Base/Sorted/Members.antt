-- ===== src/Base/Sorted/Members.antt =====
-- Tests over a sorted set, and sorted sets with some texts taken out.
use ge360_bridge.Base.Sorted.{text_lt, insert_sorted, sort_set, sort_set_idem, Ascending}
use ge360_bridge.Base.Text.{Text, text_eq, text_eq_iff}
use ge360_bridge.Base.Tests.{Bool-cases}
use ge360_bridge.Base.Lists.{all, keep}
use mathlib.Core.Path.{◌≡◌, refl, ap, ◌∙◌}
use mathlib.Core.Logic.{inl, inr}
use mathlib.Core.Bool.{Bool, true, ◌&&◌}
use mathlib.Core.List.{List, [], ◌∷◌}
use native.Mathlib.Omega.{arith}

all-insert_sorted :
    (p : Text → Bool) (a : Text) (xs : List Text) → all p (insert_sorted a xs) ≡ (p a && all p xs)
unfolding insert_sorted
all-insert_sorted p a [] = refl
all-insert_sorted p a (x ∷ xs) = elim (Bool-cases (text_eq a x)) [
  | inl e ↦ let same = ap p ((text_eq_iff a x).0 e) in ground arith
  | inr e ↦ ground (arith, all-insert_sorted p a xs)
]

-- A sorted set passes a test when the list does.
pub all-sort_set : (p : Text → Bool) (xs : List Text) → all p (sort_set xs) ≡ all p xs
unfolding sort_set
all-sort_set p [] = refl
all-sort_set p (x ∷ xs) = ground (arith, all-insert_sorted p x (sort_set xs), all-sort_set p xs)

pub all-keep : (p q : Text → Bool) (xs : List Text) → all p xs ≡ true → all p (keep q xs) ≡ true
all-keep p q [] h = refl
all-keep p q (x ∷ xs) h = ground (arith, all-keep p q xs)

pub all-keep_self : (q : Text → Bool) (xs : List Text) → all q (keep q xs) ≡ true
all-keep_self q [] = refl
all-keep_self q (x ∷ xs) = ground (arith, all-keep_self q xs)

pub keep_of_all : (q : Text → Bool) (xs : List Text) → all q xs ≡ true → keep q xs ≡ xs
keep_of_all q [] h = refl
keep_of_all q (x ∷ xs) h = ground (arith, keep_of_all q xs)

-- Cleaning a cleaned set changes nothing.
pub sort_set-keep_idem :
    (q : Text → Bool) (xs : List Text)
    → sort_set (keep q (sort_set (keep q xs))) ≡ sort_set (keep q xs)
sort_set-keep_idem q xs =
    ap sort_set
      (keep_of_all q (sort_set (keep q xs)) (all-sort_set q (keep q xs) ∙ all-keep_self q xs))
    ∙ sort_set_idem (keep q xs)

text_lt_trans : (a b c : Text) → text_lt a b ≡ true → text_lt b c ≡ true → text_lt a c ≡ true
unfolding text_lt
text_lt_trans a b [] h k = ground arith
text_lt_trans [] b (z ∷ c) h k = refl
text_lt_trans (x ∷ a) [] (z ∷ c) h k = ground arith
text_lt_trans (x ∷ a) (y ∷ b) (z ∷ c) h k = ground (arith, text_lt_trans a b c)

all_above :
    (x y : Text) (xs : List Text)
    → text_lt x y ≡ true
    → all (text_lt y) xs ≡ true
    → all (text_lt x) xs ≡ true
all_above x y [] h k = refl
all_above x y (z ∷ xs) h k = ground (arith, text_lt_trans x y z, all_above x y xs)

Ascending-all : (x : Text) (xs : List Text) → Ascending (x ∷ xs) → all (text_lt x) xs ≡ true
Ascending-all x [] h = refl
Ascending-all x (y ∷ xs) h = ground (arith, h.0, all_above x y xs h.0 (Ascending-all y xs h.1))

Ascending-tail : (x : Text) (xs : List Text) → Ascending (x ∷ xs) → Ascending xs
Ascending-tail x [] h = tt
Ascending-tail x (y ∷ xs) h = h.1

Ascending-cons :
    (x : Text) (xs : List Text) → all (text_lt x) xs ≡ true → Ascending xs → Ascending (x ∷ xs)
Ascending-cons x [] h k = tt
Ascending-cons x (y ∷ xs) h k = (ground arith, k)

-- What is left of a sorted set is sorted.
pub Ascending-keep : (q : Text → Bool) (xs : List Text) → Ascending xs → Ascending (keep q xs)
Ascending-keep q [] h = tt
Ascending-keep q (x ∷ xs) h = elim (Bool-cases (q x)) [
  | inl e ↦ rw e (
      Ascending-cons x (keep q xs) (all-keep (text_lt x) q xs (Ascending-all x xs h))
        (Ascending-keep q xs (Ascending-tail x xs h)))
  | inr e ↦ rw e (Ascending-keep q xs (Ascending-tail x xs h))
]
