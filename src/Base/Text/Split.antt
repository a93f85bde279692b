-- ===== src/Base/Text/Split.antt =====
-- `s.split(sep)` and `sep.join(parts)` for a separator of one code point.
use Prim.Native.Nat.{ℕ}
use mathlib.Core.Path.{◌≡◌, refl, ap}
use mathlib.Core.Bool.{Bool, false}
use mathlib.Core.List.{List, [], ◌∷◌, ◌++◌}
use mathlib.Core.Logic.{inl, inr}
use native.Mathlib.Omega.{arith}
use ge360_bridge.Base.Tests.{◌==◌, if◌then◌else◌, Bool-cases}
use ge360_bridge.Base.Lists.{any, All}
use ge360_bridge.Base.Text.{Text}

-- One more code point at the head of the first piece.
abbrev pub cons_head : ℕ → List Text → List Text
cons_head c [] = (c ∷ []) ∷ []
cons_head c (w ∷ ws) = (c ∷ w) ∷ ws

unfoldable pub split_on : ℕ → Text → List Text
split_on sep [] = [] ∷ []
split_on sep (c ∷ s) = let rest = split_on sep s in if c == sep then [] ∷ rest else cons_head c rest

unfoldable pub join_with : ℕ → List Text → Text
join_with sep [] = []
join_with sep (w ∷ []) = w
join_with sep (w ∷ x ∷ ws) = w ++ (sep ∷ join_with sep (x ∷ ws))

-- The code points that pass the test occur in no piece.
abbrev pub IsFree : (ℕ → Bool) → Text → Type 0
IsFree p w = any p w ≡ false

cons_head-IsFree :
    (p : ℕ → Bool) (c : ℕ) (ws : List Text)
    → p c ≡ false
    → All (IsFree p) ws
    → All (IsFree p) (cons_head c ws)
cons_head-IsFree p c [] h a = (rw h refl, tt)
cons_head-IsFree p c (w ∷ ws) h a = (rw (h, a.0) refl, a.1)

-- The separator occurs in no piece.
pub split_on-separator : (sep : ℕ) (s : Text) → All (IsFree (λ d. d == sep)) (split_on sep s)
unfolding split_on
split_on-separator sep [] = (refl, tt)
split_on-separator sep (c ∷ s) = elim (Bool-cases (c == sep)) [
  | inl e ↦ rw e (refl, split_on-separator sep s)
  | inr e ↦ rw e (cons_head-IsFree (λ d. d == sep) c (split_on sep s) e (split_on-separator sep s))
]

-- What occurs nowhere in a text occurs in no piece of it.
pub split_on-IsFree :
    (p : ℕ → Bool) (sep : ℕ) (s : Text) → IsFree p s → All (IsFree p) (split_on sep s)
unfolding split_on
split_on-IsFree p sep [] h = (refl, tt)
split_on-IsFree p sep (c ∷ s) h = elim (Bool-cases (c == sep)) [
  | inl e ↦ rw e (refl, split_on-IsFree p sep s (ground arith))
  | inr e ↦ rw e (
      cons_head-IsFree p c (split_on sep s) (ground arith) (split_on-IsFree p sep s (ground arith)))
]

pub any-append_free :
    (p : ℕ → Bool) (xs ys : Text) → any p xs ≡ false → any p ys ≡ false → any p (xs ++ ys) ≡ false
any-append_free p [] ys h k = k
any-append_free p (x ∷ xs) ys h k = ground (arith, any-append_free p xs ys)

pub join_with-IsFree :
    (p : ℕ → Bool) (sep : ℕ) (ws : List Text)
    → p sep ≡ false
    → All (IsFree p) ws
    → IsFree p (join_with sep ws)
unfolding join_with
join_with-IsFree p sep [] h a = refl
join_with-IsFree p sep (w ∷ []) h a = a.0
join_with-IsFree p sep (w ∷ x ∷ ws) h a =
    any-append_free p w (sep ∷ join_with sep (x ∷ ws)) a.0
      (rw h (join_with-IsFree p sep (x ∷ ws) h a.1))

split_on_piece : (sep : ℕ) (w : Text) → IsFree (λ d. d == sep) w → split_on sep w ≡ w ∷ []
unfolding split_on
split_on_piece sep [] h = refl
split_on_piece sep (c ∷ w) h = ground (arith, split_on_piece sep w)

split_on_append :
    (sep : ℕ) (w s : Text)
    → IsFree (λ d. d == sep) w
    → split_on sep (w ++ (sep ∷ s)) ≡ w ∷ split_on sep s
unfolding split_on
split_on_append sep [] s h = ground arith
split_on_append sep (c ∷ w) s h = ground (arith, split_on_append sep w s)

-- Splitting takes a join apart again.
pub split_on-join_with :
    (sep : ℕ) (w : Text) (ws : List Text)
    → All (IsFree (λ d. d == sep)) (w ∷ ws)
    → split_on sep (join_with sep (w ∷ ws)) ≡ w ∷ ws
unfolding join_with
split_on-join_with sep w [] a = split_on_piece sep w a.0
split_on-join_with sep w (x ∷ ws) a =
    rw (split_on_append sep w (join_with sep (x ∷ ws)) a.0)
      (ap (λ t. w ∷ t) (split_on-join_with sep x ws a.1))
