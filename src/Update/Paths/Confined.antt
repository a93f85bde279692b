-- ===== src/Update/Paths/Confined.antt =====
-- update_engine.py: where `target_for` may point, whatever a package names.
use mathlib.Core.Path.{subst}
use ge360_bridge.Base.{
  ◌==◌, ◌≡◌, refl, ap, ◌∙◌, ◌⊎◌, inl, inr, ◌||◌, if◌then◌else◌, Bool, true, false, Bool-cases, List,
  [], ◌∷◌, ◌++◌, all, drop, length, All, All-keep, arith,
}
use ge360_bridge.Base.Text.{
  Text, text, text_eq, text_eq_comm, text_eq_refl, contains, starts_with, ends_with,
}
use ge360_bridge.Base.Text.Split.{
  split_on, join_with, IsFree, split_on-separator, split_on-join_with,
}
use ge360_bridge.Core.Data.{
  ok, err, ◌>>◌, guard, >>=-eq-ok, update_not_python, update_invalid_module,
  update_unit_not_allowed, update_unit_path, update_unmanaged_file,
}
use ge360_bridge.Update.Paths.{
  Roots, is_part, parts_of, as_posix, check_logical, safe_logical_path, locate, target_for,
  fixed_scripts, is_module_part, is_unit_name, last_part,
}
use ge360_bridge.Update.Paths.Normal.{
  accepted, check_logical-eq, check_logical_none, All-of_keep, keep-of_All,
}

-- A Python file below the package, whose folders and name are words; one of the three scripts; or a
-- unit of the bridge, directly in the folder of units.
pub data IsConfined (r : Roots) (t : Text) : Type 0 where
  in_package :
      (p : Text) (ps : List Text)
      → t ≡ r.software_root ++ (b'/' ∷ (text "ge360_bridge/" ++ join_with b'/' (p ∷ ps)))
      → all is_module_part (p ∷ ps) ≡ true
      → ends_with (text "ge360_bridge/" ++ join_with b'/' (p ∷ ps)) (text ".py") ≡ true
      → IsConfined r t
  script :
      contains
          ((r.local_sbin ++ text "/ge360-bridge")
            ∷ (r.local_sbin ++ text "/ge360-bridge-firewall")
            ∷ (r.local_sbin ++ text "/ge360-bridge-boot-verify")
            ∷ [])
          t
        ≡ true
      → IsConfined r t
  unit :
      (name : Text) → t ≡ r.systemd_dir ++ (b'/' ∷ name) → is_unit_name name ≡ true → IsConfined r t

parts_of-as_posix :
    (p : Text) (ps : List Text)
    → All (λ q. is_part q ≡ true) (p ∷ ps)
    → All (IsFree (λ d. d == b'/')) (p ∷ ps)
    → parts_of (as_posix (p ∷ ps)) ≡ p ∷ ps
parts_of-as_posix p ps i f = rw (split_on-join_with b'/' p ps f) (keep-of_All (p ∷ ps) i)

-- A text with no slash does not begin with one that has it.
no_folder : (w p : Text) → IsFree (λ d. d == b'/') p → starts_with p (w ++ (b'/' ∷ [])) ≡ true → ⊥
unfolding starts_with
no_folder [] [] f h = ground arith
no_folder [] (c ∷ p) f h = ground arith
no_folder (d ∷ w) [] f h = ground arith
no_folder (d ∷ w) (c ∷ p) f h = ground (arith, no_folder w p)

-- The folder that a path begins with is its first part.
first_folder :
    (w p s : Text)
    → IsFree (λ d. d == b'/') w
    → IsFree (λ d. d == b'/') p
    → starts_with (p ++ (b'/' ∷ s)) (w ++ (b'/' ∷ [])) ≡ true
    → p ≡ w
unfolding starts_with
first_folder [] [] s e f h = refl
first_folder [] (c ∷ p) s e f h = absurd (ground arith)
first_folder (d ∷ w) [] s e f h = absurd (ground arith)
first_folder (d ∷ w) (c ∷ p) s e f h = ground (arith, first_folder w p s)

module_case :
    (r : Roots) (ps : List Text)
    → All (IsFree (λ d. d == b'/')) ps
    → starts_with (as_posix ps) (text "ge360_bridge/") ≡ true
    → ends_with (as_posix ps) (text ".py") ≡ true
    → all is_module_part (drop 1 ps) ≡ true
    → IsConfined r (r.software_root ++ (b'/' ∷ as_posix ps))
module_case r [] f s e m = absurd (unfold starts_with in (ground arith))
module_case r (p ∷ []) f s e m =
    absurd (no_folder (text "ge360_bridge") p f.0 (unfold join_with in s))
module_case r (p ∷ q ∷ qs) f s e m =
    let same : p ≡ text "ge360_bridge" =
      first_folder (text "ge360_bridge") p (join_with b'/' (q ∷ qs)) refl f.0
        (unfold join_with in s) in
    let whole : as_posix (p ∷ q ∷ qs) ≡ text "ge360_bridge/" ++ join_with b'/' (q ∷ qs) =
      unfold join_with in (ap (λ (t : Text). t ++ (b'/' ∷ join_with b'/' (q ∷ qs))) same) in
    IsConfined.in_package q qs (ap (λ (t : Text). r.software_root ++ (b'/' ∷ t)) whole) m
      (subst (λ (t : Text). ends_with t (text ".py") ≡ true) whole e)

or_second : (x y : Bool) → (x || (true || y)) ≡ true
or_second x y = ground arith

or_third : (x y : Bool) → (x || (y || (true || false))) ≡ true
or_third x y = ground arith

script_case :
    (r : Roots) (n : Text)
    → starts_with n (text "ge360_bridge/") ≡ false
    → contains fixed_scripts n ≡ true
    → IsConfined r (locate r n)
unfolding locate contains
script_case r n a d = elim (Bool-cases (text_eq n (text "ge360-bridge"))) [
  | inl e ↦ IsConfined.script (rw (a, e, text_eq_refl) refl)
  | inr e ↦ elim (Bool-cases (text_eq n (text "scripts/apply-firewall.sh"))) [
    | inl e' ↦ IsConfined.script (
        rw (a, e, e', text_eq_refl)
          (or_second _ (
            text_eq (r.local_sbin ++ text "/ge360-bridge-boot-verify")
              (r.local_sbin ++ text "/ge360-bridge-firewall")
            || false)))
    | inr e' ↦ elim (Bool-cases (text_eq n (text "scripts/boot-verify.sh"))) [
      | inl e'' ↦ IsConfined.script (rw (a, e, e', e'', text_eq_refl) (or_third _ _))
      | inr e'' ↦ absurd (
          ground (
            arith,
            text_eq_comm n (text "ge360-bridge"),
            text_eq_comm n (text "scripts/apply-firewall.sh"),
            text_eq_comm n (text "scripts/boot-verify.sh"),
          ))
    ]
  ]
]

-- The branches of `check_logical`, with its tests as Booleans.
branches :
    (a b c d e f g : Bool) (m : Text) {n : Text}
    → (if a
        then (do guard b update_not_python; guard c update_invalid_module; ok m)
        else if d
        then ok m
        else if e
        then (do guard f update_unit_not_allowed; guard g update_unit_path; ok m)
        else err update_unmanaged_file)
      ≡ ok n
    → ((a ≡ true) × (b ≡ true) × (c ≡ true))
      ⊎ ((a ≡ false) × (d ≡ true))
      ⊎ ((a ≡ false) × (d ≡ false) × (f ≡ true))
branches true b c d e f g m h = inl (refl, ground arith, ground arith)
branches false b c true e f g m h = inr (inl (refl, refl))
branches false b c false e f g m h = inr (inr (refl, refl, ground arith))

none_of :
    (n : Text)
    → contains fixed_scripts n ≡ false
    → (text_eq (text "ge360-bridge") n ≡ false)
      × (text_eq (text "scripts/apply-firewall.sh") n ≡ false)
      × (text_eq (text "scripts/boot-verify.sh") n ≡ false)
unfolding contains
none_of n d = (ground arith, ground arith, ground arith)

unit_case :
    (r : Roots) (p : Text) (ps : List Text)
    → All (λ q. is_part q ≡ true) (p ∷ ps)
    → All (IsFree (λ d. d == b'/')) (p ∷ ps)
    → starts_with (as_posix (p ∷ ps)) (text "ge360_bridge/") ≡ false
    → contains fixed_scripts (as_posix (p ∷ ps)) ≡ false
    → is_unit_name (last_part (p ∷ ps)) ≡ true
    → IsConfined r (locate r (as_posix (p ∷ ps)))
unfolding locate contains
unit_case r p ps i f a d u =
    let n = as_posix (p ∷ ps) in
    IsConfined.unit (last_part (p ∷ ps))
      (rw
        (
          a,
          text_eq_comm n (text "ge360-bridge"),
          text_eq_comm n (text "scripts/apply-firewall.sh"),
          text_eq_comm n (text "scripts/boot-verify.sh"),
          (none_of n d).0,
          (none_of n d).1,
          (none_of n d).2,
        )
        (ap (λ (qs : List Text). r.systemd_dir ++ (b'/' ∷ last_part qs))
          (parts_of-as_posix p ps i f)))
      u

locate_module :
    (r : Roots) (n : Text)
    → starts_with n (text "ge360_bridge/") ≡ true
    → r.software_root ++ (b'/' ∷ n) ≡ locate r n
unfolding locate
locate_module r n a = rw a refl

IsConfined-parts :
    (r : Roots) (ps : List Text) {n : Text}
    → All (λ q. is_part q ≡ true) ps
    → All (IsFree (λ d. d == b'/')) ps
    → check_logical (as_posix ps) ps ≡ ok n
    → IsConfined r (locate r (as_posix ps))
unfolding check_logical
IsConfined-parts r [] i f h = absurd (check_logical_none h)
IsConfined-parts r (p ∷ ps) i f h =
    let n = as_posix (p ∷ ps) in
    elim (branches (starts_with n (text "ge360_bridge/")) (ends_with n (text ".py"))
      (all is_module_part ps) (contains fixed_scripts n) (starts_with n (text "systemd/"))
      (is_unit_name (last_part (p ∷ ps))) (length (p ∷ ps) == 2) n h) [
        | inl x ↦
            subst (IsConfined r) (locate_module r n x.0) (module_case r (p ∷ ps) f x.0 x.1 x.2)
        | inr (inl x) ↦ script_case r n x.0 x.1
        | inr (inr x) ↦ unit_case r p ps i f x.0 x.1 x.2
      ]

-- Where a file of an update may go, whatever its package calls it: below the package of the program
-- in Python files whose folders and names are words, to one of the three scripts, or to a unit of
-- the bridge directly in the folder of units.
pub target_for-IsConfined :
    (r : Roots) (value : Text) {t : Text} → target_for r value ≡ ok t → IsConfined r t
unfolding target_for
target_for-IsConfined r value {t} h =
    let (n, e, q) = >>=-eq-ok (safe_logical_path value) (λ n. ok (locate r n)) h in
    let c = (accepted value e).3 in
    let same : as_posix (parts_of value) ≡ n = check_logical-eq _ (parts_of value) c in
    let there : locate r (as_posix (parts_of value)) ≡ t = ap (locate r) same ∙ ground (arith, q) in
    subst (IsConfined r) there (
      IsConfined-parts r (parts_of value) (All-of_keep (split_on b'/' value))
        (All-keep (IsFree (λ d. d == b'/')) is_part (split_on b'/' value)
          (split_on-separator b'/' value))
        c)
