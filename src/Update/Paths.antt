-- ===== src/Update/Paths.antt =====
-- update_engine.py: the logical paths of a package, and the files of the system they stand for.
pub mod Normal
pub mod Confined
use ge360_bridge.Base.{
  ℕ, ◌-◌, ◌==◌, not, ◌&&◌, ◌||◌, Bool, true, false, Option, none, some, List, [], ◌∷◌, ◌++◌, any,
  all, keep, length, take, drop, is_empty, if◌then◌else◌,
}
use ge360_bridge.Base.Text.{Text, text, text_eq, contains, starts_with, ends_with, is_alnum}
use ge360_bridge.Base.Text.Split.{split_on, join_with}
use ge360_bridge.Core.Data.{
  Result, ok, err, ◌>>=◌, ◌>>◌, guard, raise_if, update_invalid_path, update_path_not_allowed,
  update_not_python, update_invalid_module, update_unit_not_allowed, update_unit_path,
  update_unmanaged_file,
}

-- The folders that an update writes to, from the environment or by default.
pub record Roots : Type 0 where
  pub software_root : Text
  pub local_sbin : Text
  pub systemd_dir : Text

-- `[A-Za-z0-9_]`
abbrev pub is_word_char : ℕ → Bool
is_word_char c = is_alnum c || c == b'_'

-- `[A-Za-z0-9_]+`
abbrev pub is_word : Text → Bool
is_word s = not (is_empty s) && all is_word_char s

-- `s[:-n]`
abbrev pub drop_end : ℕ → Text → Text
drop_end n s = take (length s - n) s

-- `[A-Za-z0-9_]+(?:\.py)?`
unfoldable pub is_module_part : Text → Bool
unfolding ends_with
is_module_part p = is_word (if ends_with p (text ".py") then drop_end 3 p else p)

-- `[A-Za-z0-9_.@-]`
abbrev pub is_unit_char : ℕ → Bool
is_unit_char c = is_word_char c || c == b'.' || c == b'@' || c == b'-'

-- `(?:-[A-Za-z0-9_.@-]+)?`
abbrev pub is_unit_middle : Text → Bool
is_unit_middle [] = true
is_unit_middle (c ∷ s) = c == b'-' && not (is_empty s) && all is_unit_char s

-- `ge360-bridge(?:-[A-Za-z0-9_.@-]+)?\.(?:service|timer)`
unfoldable pub is_unit_name : Text → Bool
unfolding starts_with ends_with
is_unit_name name =
    starts_with name (text "ge360-bridge")
    && (ends_with name (text ".service") && is_unit_middle (drop 12 (drop_end 8 name))
        || ends_with name (text ".timer") && is_unit_middle (drop 12 (drop_end 6 name)))

-- `PurePosixPath(value).parts` of a path that is not absolute.
abbrev pub is_part : Text → Bool
is_part p = not (is_empty p || text_eq p (text "."))

abbrev pub parts_of : Text → List Text
parts_of value = keep is_part (split_on b'/' value)

-- `path.as_posix()`
abbrev pub as_posix : List Text → Text
as_posix [] = text "."
as_posix (p ∷ ps) = join_with b'/' (p ∷ ps)

-- `path.name`
unfoldable pub last_part : List Text → Text
last_part [] = []
last_part (p ∷ []) = p
last_part (p ∷ q ∷ ps) = last_part (q ∷ ps)

-- The keys of `FIXED_SCRIPT_TARGETS`.
abbrev pub fixed_scripts : List Text
fixed_scripts =
    text "ge360-bridge" ∷ text "scripts/apply-firewall.sh" ∷ text "scripts/boot-verify.sh" ∷ []

abbrev pub starts_absolute : Text → Bool
starts_absolute [] = false
starts_absolute (c ∷ s) = c == b'/'

-- What the normalized path of these parts may be.
unfoldable pub check_logical : Text → List Text → Result Text
unfolding starts_with ends_with contains is_module_part is_unit_name last_part
check_logical normalized ps =
    if starts_with normalized (text "ge360_bridge/")
    then (do
      guard (ends_with normalized (text ".py")) update_not_python
      guard (all is_module_part (drop 1 ps)) update_invalid_module
      ok normalized)
    else if contains fixed_scripts normalized
    then ok normalized
    else if starts_with normalized (text "systemd/")
    then (do
      guard (is_unit_name (last_part ps)) update_unit_not_allowed
      guard (length ps == 2) update_unit_path
      ok normalized)
    else err update_unmanaged_file

-- `_safe_logical_path`
unfoldable pub safe_logical_path : Text → Result Text
unfolding split_on join_with check_logical contains
safe_logical_path value = do
  raise_if (is_empty value) update_invalid_path
  raise_if
      (starts_absolute value
        || contains (parts_of value) (text "..")
        || contains (parts_of value) (text ".")
        || any (λ c. c == b'\\') value)
      update_path_not_allowed
  check_logical (as_posix (parts_of value)) (parts_of value)

-- `FIXED_SCRIPT_TARGETS.get(logical)`
fixed_target : Roots → Text → Option Text
unfolding text_eq
fixed_target r logical =
    if text_eq logical (text "ge360-bridge")
    then some (r.local_sbin ++ text "/ge360-bridge")
    else if text_eq logical (text "scripts/apply-firewall.sh")
    then some (r.local_sbin ++ text "/ge360-bridge-firewall")
    else if text_eq logical (text "scripts/boot-verify.sh")
    then some (r.local_sbin ++ text "/ge360-bridge-boot-verify")
    else none

-- Where an accepted path lies.
unfoldable pub locate : Roots → Text → Text
unfolding fixed_target starts_with last_part split_on
locate r logical =
    if starts_with logical (text "ge360_bridge/")
    then r.software_root ++ (b'/' ∷ logical)
    else elim (fixed_target r logical) [
      | some t ↦ t
      | none ↦ r.systemd_dir ++ (b'/' ∷ last_part (parts_of logical))
    ]

unfoldable pub target_for : Roots → Text → Result Text
unfolding safe_logical_path locate
target_for r logical_path = do logical ← safe_logical_path logical_path; ok (locate r logical)

unfoldable pub mode_for : Text → Result ℕ
unfolding safe_logical_path contains
mode_for logical_path = do
  logical ← safe_logical_path logical_path
  ok (if contains fixed_scripts logical then 493 else 420)
