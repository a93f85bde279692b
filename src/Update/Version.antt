-- ===== src/Update/Version.antt =====
-- update_engine.py: the versions of packages, and which of two is the later one.
use ge360_bridge.Base.{
  ℕ, ◌+◌, ◌*◌, ◌-◌, ◌==◌, not, ◌&&◌, ◌||◌, Bool, true, false, List, [], ◌∷◌, map, all, length,
  is_empty, ltb, leb, if◌then◌else◌,
}
use ge360_bridge.Base.Text.{Text, strip, is_digit, is_alnum}
use ge360_bridge.Base.Text.Split.{split_on}
use ge360_bridge.Core.Data.{Result, ok, ◌>>◌, guard, update_invalid_version}

abbrev pub is_sign : ℕ → Bool
is_sign c = c == b'-' || c == b'+'

-- The text before the first sign, `value.split("-", 1)[0].split("+", 1)[0]`.
unfoldable pub version_base : Text → Text
version_base [] = []
version_base (c ∷ s) = let rest = version_base s in if is_sign c then [] else c ∷ rest

-- The text from the first sign on.
unfoldable pub version_suffix : Text → Text
version_suffix [] = []
version_suffix (c ∷ s) = let rest = version_suffix s in if is_sign c then c ∷ s else rest

-- `[0-9]+`
abbrev pub is_number : Text → Bool
is_number s = not (is_empty s) && all is_digit s

-- `(?:[-+][A-Za-z0-9._-]+)?`
abbrev pub is_suffix : Text → Bool
is_suffix [] = true
is_suffix (c ∷ s) =
    is_sign c && not (is_empty s) && all (λ d. is_alnum d || d == b'.' || d == b'_' || d == b'-') s

-- `VERSION_RE`, by `fullmatch`
unfoldable pub is_version : Text → Bool
unfolding split_on version_base version_suffix
is_version v =
    let numbers = split_on b'.' (version_base v) in
    leb 2 (length numbers)
    && leb (length numbers) 4
    && all is_number numbers
    && is_suffix (version_suffix v)

unfoldable pub validate_version : Text → Result Text
unfolding strip is_version
validate_version value = do
  guard (is_version (strip value)) update_invalid_version
  ok (strip value)

-- `int(s)` of decimal digits, with the number read so far.
unfoldable pub read_digits : ℕ → Text → ℕ
read_digits n [] = n
read_digits n (c ∷ s) = read_digits (n * 10 + (c - b'0')) s

-- `_version_tuple`; it is called on versions alone, so what else `int` accepts does not matter.
unfoldable pub version_tuple : Text → Result (List ℕ)
unfolding split_on version_base read_digits
version_tuple value = do
  let numbers = split_on b'.' (version_base value)
  guard (all is_number numbers) update_invalid_version
  ok (map (read_digits 0) numbers)

-- `a <= b` of two tuples.
unfoldable pub tuple_le : List ℕ → List ℕ → Bool
tuple_le [] ys = true
tuple_le (x ∷ xs) [] = false
tuple_le (x ∷ xs) (y ∷ ys) = ltb x y || x == y && tuple_le xs ys
