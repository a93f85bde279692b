-- ===== src/Update/Paths/Normal.antt =====
-- update_engine.py: an accepted logical path is its own normal form, so that `target_for` and
-- `mode_for` accept what `_safe_logical_path` returned.
use mathlib.Core.Path.{subst}
use ge360_bridge.Base.{
  ◌==◌, ◌≡◌, refl, ap, inl, inr, Bool, true, false, Bool-cases, if◌then◌else◌, List, [], ◌∷◌, any,
  all, keep, drop, length, All, All-keep, is_empty, arith,
}
use ge360_bridge.Base.Text.{Text, text, text_eq, contains, starts_with, ends_with}
use ge360_bridge.Base.Text.Split.{
  split_on, join_with, IsFree, split_on-separator, split_on-IsFree, join_with-IsFree,
  split_on-join_with,
}
use ge360_bridge.Core.Data.{
  ok, err, ◌>>◌, guard, update_not_python, update_invalid_module, update_unit_not_allowed,
  update_unit_path, update_unmanaged_file,
}
use ge360_bridge.Update.Paths.{
  is_part, parts_of, as_posix, starts_absolute, check_logical, safe_logical_path, fixed_scripts,
  is_module_part, is_unit_name, last_part,
}

-- The branches of `check_logical`, with its tests as Booleans.
branches-eq :
    (a b c d e f g : Bool) (m : Text) {n : Text}
    → (if a
        then (do guard b update_not_python; guard c update_invalid_module; ok m)
        else if d
        then ok m
        else if e
        then (do guard f update_unit_not_allowed; guard g update_unit_path; ok m)
        else err update_unmanaged_file)
      ≡ ok n
    → m ≡ n
branches-eq a b c d e f g m h = ground arith

-- What `check_logical` returns is what it was given.
pub check_logical-eq : (m : Text) (ps : List Text) {n : Text} → check_logical m ps ≡ ok n → m ≡ n
unfolding check_logical
check_logical-eq m ps h =
    branches-eq (starts_with m (text "ge360_bridge/")) (ends_with m (text ".py"))
      (all is_module_part (drop 1 ps)) (contains fixed_scripts m) (starts_with m (text "systemd/"))
      (is_unit_name (last_part ps)) (length ps == 2) m h

pub check_logical_none : {n : Text} → check_logical (text ".") [] ≡ ok n → ⊥
unfolding check_logical text_eq
check_logical_none h = ground arith

pub All-of_keep : (ps : List Text) → All (λ p. is_part p ≡ true) (keep is_part ps)
All-of_keep [] = tt
All-of_keep (p ∷ ps) = elim (Bool-cases (is_part p)) [
  | inl e ↦ rw e (e, All-of_keep ps)
  | inr e ↦ rw e (All-of_keep ps)
]

pub keep-of_All : (ps : List Text) → All (λ p. is_part p ≡ true) ps → keep is_part ps ≡ ps
keep-of_All [] a = refl
keep-of_All (p ∷ ps) a = rw a.0 (ap (λ t. p ∷ t) (keep-of_All ps a.1))

starts_absolute_join :
    (p : Text) (qs : List Text)
    → is_part p ≡ true
    → IsFree (λ d. d == b'/') p
    → (starts_absolute (join_with b'/' (p ∷ qs)) ≡ false)
      × (is_empty (join_with b'/' (p ∷ qs)) ≡ false)
unfolding join_with
starts_absolute_join [] qs i f = absurd (ground arith)
starts_absolute_join (c ∷ p) [] i f = (ground arith, refl)
starts_absolute_join (c ∷ p) (q ∷ qs) i f = (ground arith, refl)

-- A path that is put together from accepted parts.
safe_of_parts :
    (ps : List Text) {n : Text}
    → All (λ p. is_part p ≡ true) ps
    → All (IsFree (λ d. d == b'/')) ps
    → All (IsFree (λ d. d == b'\\')) ps
    → contains ps (text "..") ≡ false
    → contains ps (text ".") ≡ false
    → check_logical (as_posix ps) ps ≡ ok n
    → safe_logical_path n ≡ ok n
unfolding safe_logical_path
safe_of_parts [] i f b d e h = absurd (check_logical_none h)
safe_of_parts (p ∷ qs) {n} i f b d e h =
    let same : join_with b'/' (p ∷ qs) ≡ n = check_logical-eq _ (p ∷ qs) h in
    let checked : check_logical n (p ∷ qs) ≡ ok n =
      subst (λ (m : Text). check_logical m (p ∷ qs) ≡ ok n) same h in
    subst (λ (m : Text). safe_logical_path m ≡ ok m) same
      (unfold safe_logical_path in
        (rw
          (
            (starts_absolute_join p qs i.0 f.0).0,
            (starts_absolute_join p qs i.0 f.0).1,
            split_on-join_with b'/' p qs f,
            keep-of_All (p ∷ qs) i,
            d,
            e,
            join_with-IsFree (λ c. c == b'\\') b'/' (p ∷ qs) refl b,
          )
          (rw same checked)))

-- What is known of an accepted value.
pub accepted :
    (value : Text) {n : Text}
    → safe_logical_path value ≡ ok n
    → (contains (parts_of value) (text "..") ≡ false)
      × (contains (parts_of value) (text ".") ≡ false)
      × (any (λ c. c == b'\\') value ≡ false)
      × (check_logical (as_posix (parts_of value)) (parts_of value) ≡ ok n)
unfolding safe_logical_path
accepted value h = ground arith

-- A path that was accepted is accepted again, as it is.
pub safe_logical_path_idem :
    (value : Text) {n : Text} → safe_logical_path value ≡ ok n → safe_logical_path n ≡ ok n
safe_logical_path_idem value h =
    let (d, e, b, c) = accepted value h in
    safe_of_parts (parts_of value) (All-of_keep (split_on b'/' value))
      (All-keep (IsFree (λ d. d == b'/')) is_part (split_on b'/' value)
        (split_on-separator b'/' value))
      (All-keep (IsFree (λ d. d == b'\\')) is_part (split_on b'/' value)
        (split_on-IsFree (λ d. d == b'\\') b'/' value b))
      d e c
