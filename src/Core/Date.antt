-- ===== src/Core/Date.antt =====
-- core.py's use of `datetime.date`: a day is the number year * 10000 + month * 100 + day, whose
-- order is the order of the days. `fromisoformat` is given for YYYY-MM-DD and YYYYMMDD; the
-- week forms of Python 3.11 are not modelled.
use ge360_bridge.Base.{
  ℕ, ◌+◌, ◌-◌, ◌*◌, ◌%◌, Bool, ◌&&◌, ◌||◌, not, Option, none, some, [], ◌∷◌, leb, ◌==◌,
  if◌then◌else◌,
}
use ge360_bridge.Base.Text.{Text, is_digit}

is_leap : ℕ → Bool
is_leap y = y % 4 == 0 && (not (y % 100 == 0) || y % 400 == 0)

days_in_month : ℕ → ℕ → ℕ
unfolding is_leap
days_in_month y m =
    if m == 2
    then if is_leap y then 29 else 28
    else if m == 4 || m == 6 || m == 9 || m == 11
    then 30
    else 31

-- `date(y, m, d)`, or `ValueError`
unfoldable pub make_date : ℕ → ℕ → ℕ → Option ℕ
unfolding days_in_month
make_date y m d =
    if leb 1 y && leb 1 m && leb m 12 && leb 1 d && leb d (days_in_month y m)
    then some (y * 10000 + m * 100 + d)
    else none

abbrev two_digits : ℕ → ℕ → ℕ
two_digits a b = (a - b'0') * 10 + (b - b'0')

from_digits : ℕ → ℕ → ℕ → ℕ → ℕ → ℕ → ℕ → ℕ → Option ℕ
unfolding make_date
from_digits a b c d e f g h =
    if is_digit a
      && is_digit b
      && is_digit c
      && is_digit d
      && is_digit e
      && is_digit f
      && is_digit g
      && is_digit h
    then make_date (two_digits a b * 100 + two_digits c d) (two_digits e f) (two_digits g h)
    else none

-- `date.fromisoformat`
unfoldable pub from_iso_format : Text → Option ℕ
unfolding from_digits
from_iso_format (a ∷ b ∷ c ∷ d ∷ s ∷ e ∷ f ∷ t ∷ g ∷ h ∷ []) =
    if s == b'-' && t == b'-' then from_digits a b c d e f g h else none
from_iso_format (a ∷ b ∷ c ∷ d ∷ e ∷ f ∷ g ∷ h ∷ []) = from_digits a b c d e f g h
from_iso_format _ = none
