-- ===== src/Base/Sorted.antt =====
-- `sorted(set(xs))`: the distinct texts of a list in the order of their code points.
pub mod Members
use ge360_bridge.Base.Text.{Text, text_eq, text_eq_iff, contains}
use Prim.Native.Nat.{ℕ}
use mathlib.Core.Path.{◌≡◌, refl, ap, ◌∙◌}
use mathlib.Core.Logic.{◌↔◌, ◌⊎◌, inl, inr}
use mathlib.Core.Bool.{Bool, true, false, ◌&&◌, ◌||◌}
use mathlib.Core.List.{List, [], ◌∷◌}
use native.Mathlib.Omega.{arith}
use ge360_bridge.Base.Tests.{ltb, ◌==◌, if◌then◌else◌}

unfoldable pub text_lt : Text → Text → Bool
text_lt s [] = false
text_lt [] (d ∷ t) = true
text_lt (c ∷ s) (d ∷ t) = ltb c d || c == d && text_lt s t

unfoldable pub insert_sorted : Text → List Text → List Text
unfolding text_lt
insert_sorted a [] = a ∷ []
insert_sorted a (x ∷ xs) =
    if text_eq a x then x ∷ xs else if text_lt a x then a ∷ x ∷ xs else x ∷ insert_sorted a xs

-- `sorted(set(xs))`
unfoldable pub sort_set : List Text → List Text
unfolding insert_sorted
sort_set [] = []
sort_set (x ∷ xs) = insert_sorted x (sort_set xs)

-- Every element is strictly above the one before it: a sorted list with no repetition.
abbrev pub Ascending : List Text → Type 0
Ascending [] = Unit
Ascending (x ∷ []) = Unit
Ascending (x ∷ y ∷ xs) = (text_lt x y ≡ true) × Ascending (y ∷ xs)

pub text_lt_irrefl : (s : Text) → text_lt s s ≡ false
unfolding text_lt
text_lt_irrefl [] = refl
text_lt_irrefl (c ∷ s) = ground (arith, text_lt_irrefl s)

pub text_lt_connex : (s t : Text) → text_eq s t ≡ false → text_lt s t ≡ false → text_lt t s ≡ true
unfolding text_lt text_eq
text_lt_connex [] [] e h = ground arith
text_lt_connex [] (d ∷ t) e h = ground arith
text_lt_connex (c ∷ s) [] e h = refl
text_lt_connex (c ∷ s) (d ∷ t) e h = ground (arith, text_lt_connex s t)

pub contains-insert_sorted :
    (a b : Text) (xs : List Text) → contains (insert_sorted a xs) b ≡ (text_eq a b || contains xs b)
unfolding insert_sorted contains
contains-insert_sorted a b [] = refl
contains-insert_sorted a b (x ∷ xs) =
    ground (arith, contains-insert_sorted a b xs, text_eq_iff a x, text_eq_iff a b, text_eq_iff x b)

-- Sorting into a set keeps exactly the members.
pub contains-sort_set : (a : Text) (xs : List Text) → contains (sort_set xs) a ≡ contains xs a
unfolding sort_set contains
contains-sort_set a [] = refl
contains-sort_set a (x ∷ xs) =
    ground (arith, contains-insert_sorted x a (sort_set xs), contains-sort_set a xs)

pub insert_sorted-Ascending :
    (a : Text) (xs : List Text) → Ascending xs → Ascending (insert_sorted a xs)
unfolding insert_sorted
insert_sorted-Ascending a [] h = tt
insert_sorted-Ascending a (x ∷ []) h = ground (arith, text_lt_connex a x)
insert_sorted-Ascending a (x ∷ y ∷ xs) h =
    ground (arith, text_lt_connex a x, text_lt_connex a y, insert_sorted-Ascending a (y ∷ xs) h.1)

-- The result is strictly ascending, so it is sorted and has no repetition.
pub sort_set-Ascending : (xs : List Text) → Ascending (sort_set xs)
unfolding sort_set
sort_set-Ascending [] = tt
sort_set-Ascending (x ∷ xs) = insert_sorted-Ascending x (sort_set xs) (sort_set-Ascending xs)

insert_sorted_below :
    (a x : Text) (xs : List Text) → text_lt a x ≡ true → insert_sorted a (x ∷ xs) ≡ a ∷ x ∷ xs
unfolding insert_sorted
insert_sorted_below a x xs h = ground (arith, text_eq_iff a x, text_lt_irrefl a)

-- A strictly ascending list is its own sorted set.
pub sort_set_fixed : (xs : List Text) → Ascending xs → sort_set xs ≡ xs
unfolding sort_set
sort_set_fixed [] h = refl
sort_set_fixed (x ∷ []) h = unfold insert_sorted in refl
sort_set_fixed (x ∷ y ∷ xs) h =
    ap (insert_sorted x) (sort_set_fixed (y ∷ xs) h.1) ∙ insert_sorted_below x y xs h.0

pub sort_set_idem : (xs : List Text) → sort_set (sort_set xs) ≡ sort_set xs
sort_set_idem xs = sort_set_fixed (sort_set xs) (sort_set-Ascending xs)
