-- ===== src/Core/Validate/Names.antt =====
-- core.py: the names that `validate_name` accepts.
use ge360_bridge.Base.{
  ℕ, zero, suc, ◌≡◌, refl, ap, ◌∙◌, inl, inr, Bool, true, false, ◌&&◌, ◌||◌, [], ◌∷◌, all, length,
  leb, ◌==◌, is_empty, arith, if◌then◌else◌, Bool-cases,
}
use ge360_bridge.Base.Text.{Text, is_alnum}
use ge360_bridge.Core.Data.{ok, is_ok, guard, ◌>>◌, invalid_name}
use ge360_bridge.Core.Validate.{is_name_char, name_tail, matches_name, validate_name}

-- The names that the message of the error describes: letters, digits, dots, dashes and
-- underscores, the first a letter or a digit, and 64 of them at most.
abbrev pub is_name : Text → Bool
is_name [] = false
is_name (c ∷ s) = is_alnum c && (all is_name_char s && leb (length s) 63)

-- A text without the line feed that it ends in, if it ends in one.
abbrev pub without_feed : Text → Text
without_feed [] = []
without_feed (c ∷ s) =
    let rest = without_feed s in if is_empty s then if c == 10 then [] else c ∷ [] else c ∷ rest

-- The step of the lemma below, for any test `b` of the first character.
step_last : (b e : Bool) (n : ℕ) → (if b then true else e && true) ≡ (e || (b && leb 1 (suc n)))
step_last b e n = ground arith

step_more :
    (b e x a : Bool) (k n : ℕ)
    → x ≡ (a && leb k n)
    → (if b then x else e && false) ≡ ((b && a) && leb (suc k) (suc n))
step_more b e x a k n h = ground (arith, h)

last_char :
    (p : ℕ → Bool) (c n : ℕ)
    → (c == 10 || (p c && leb 1 (suc n)))
      ≡ (all p (without_feed (c ∷ [])) && leb (length (without_feed (c ∷ []))) (suc n))
last_char p c n = elim (Bool-cases (c == 10)) [
  | inl e ↦ ground (arith, e)
  | inr e ↦ ground (arith, e)
]

name_tail_lem :
    (n : ℕ) (s : Text)
    → name_tail n s ≡ (all is_name_char (without_feed s) && leb (length (without_feed s)) n)
unfolding name_tail
name_tail_lem n [] = ground arith
name_tail_lem zero (c ∷ []) = no_room is_name_char c
  where
    no_room :
        (p : ℕ → Bool) (c : ℕ)
        → (c == 10 && true)
          ≡ (all p (without_feed (c ∷ [])) && leb (length (without_feed (c ∷ []))) 0)
    no_room p c = ground arith
name_tail_lem zero (c ∷ d ∷ s) =
    no_room is_name_char (all is_name_char (without_feed (d ∷ s))) c (length (without_feed (d ∷ s)))
  where
    no_room :
        (p : ℕ → Bool) (a : Bool) (c k : ℕ) → (c == 10 && false) ≡ ((p c && a) && leb (suc k) 0)
    no_room p a c k = ground arith
name_tail_lem (suc n) (c ∷ []) = step_last (is_name_char c) (c == 10) n ∙ last_char is_name_char c n
name_tail_lem (suc n) (c ∷ d ∷ s) =
    step_more (is_name_char c) (c == 10) (name_tail n (d ∷ s))
      (all is_name_char (without_feed (d ∷ s))) (length (without_feed (d ∷ s))) n
      (name_tail_lem n (d ∷ s))

alone : (c : ℕ) → (is_alnum c && true) ≡ is_name (without_feed (c ∷ []))
alone c = elim (Bool-cases (c == 10)) [
  | inl e ↦ let same : c ≡ 10 = ground (arith, e) in rw same refl
  | inr e ↦ rw e refl
]

is_ok-guard : (b : Bool) (name : Text) → is_ok (guard b invalid_name >> ok name) ≡ b
is_ok-guard true name = refl
is_ok-guard false name = refl

-- The accepted names are those that the message describes, and each of them with a line feed
-- after it.
pub validate_name_accepts : (name : Text) → is_ok (validate_name name) ≡ is_name (without_feed name)
unfolding validate_name matches_name
validate_name_accepts [] = refl
validate_name_accepts (c ∷ []) =
    is_ok-guard (matches_name 63 (c ∷ [])) (c ∷ [])
    ∙ (ap (λ b. is_alnum c && b) (name_tail_lem 63 []) ∙ alone c)
validate_name_accepts (c ∷ d ∷ s) =
    is_ok-guard (matches_name 63 (c ∷ d ∷ s)) (c ∷ d ∷ s)
    ∙ ap (λ b. is_alnum c && b) (name_tail_lem 63 (d ∷ s))
