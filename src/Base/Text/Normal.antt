-- ===== src/Base/Text/Normal.antt =====
-- `strip` and `lower` give texts that they leave alone.
use ge360_bridge.Base.Text.{Text, is_space, lstrip, rstrip, strip, lower_char, lower}
use ge360_bridge.Base.Tests.{Bool-cases}
use mathlib.Core.Path.{◌≡◌, refl, ap, ◌∙◌}
use mathlib.Core.Logic.{inl, inr}
use mathlib.Core.Bool.{false}
use mathlib.Core.List.{[], ◌∷◌}
use Prim.Native.Nat.{ℕ}
use native.Mathlib.Omega.{arith}

lower_char_idem : (c : ℕ) → lower_char (lower_char c) ≡ lower_char c
unfolding lower_char
lower_char_idem c = ground arith

pub lower_idem : (s : Text) → lower (lower s) ≡ lower s
unfolding lower
lower_idem [] = refl
lower_idem (c ∷ s) = unfold lower in cc (lower_char_idem c, lower_idem s)

-- A text that begins with no space, or is empty.
abbrev Bare : Text → Type 0
Bare [] = Unit
Bare (c ∷ s) = is_space c ≡ false

lstrip-Bare : (s : Text) → Bare (lstrip s)
unfolding lstrip
lstrip-Bare [] = tt
lstrip-Bare (c ∷ s) = elim (Bool-cases (is_space c)) [
  | inl e ↦ rw e (lstrip-Bare s)
  | inr e ↦ rw e e
]

lstrip_of_Bare : (s : Text) → Bare s → lstrip s ≡ s
unfolding lstrip
lstrip_of_Bare [] h = refl
lstrip_of_Bare (c ∷ s) h = rw h

rstrip-Bare : (s : Text) → Bare s → Bare (rstrip s)
unfolding rstrip
rstrip-Bare [] h = tt
rstrip-Bare (c ∷ s) h = rw h h

rstrip_idem : (s : Text) → rstrip (rstrip s) ≡ rstrip s
unfolding rstrip
rstrip_idem [] = refl
rstrip_idem (c ∷ s) = ground (arith, rstrip_idem s)

-- Stripping twice is stripping once.
pub strip_idem : (s : Text) → strip (strip s) ≡ strip s
unfolding strip
strip_idem s =
    ap rstrip (lstrip_of_Bare (rstrip (lstrip s)) (rstrip-Bare (lstrip s) (lstrip-Bare s)))
    ∙ rstrip_idem (lstrip s)
