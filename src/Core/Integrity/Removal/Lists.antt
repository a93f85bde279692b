-- ===== src/Core/Integrity/Removal/Lists.antt =====
-- What `remove_resource` does to the lists of resources and groups.
use ge360_bridge.Base.{
  ℕ, ◌<◌, length-keep, ◌≡◌, refl, ◌∙◌, Bool, true, false, not, ◌&&◌, List, [], ◌∷◌, map, arith,
  keep, all, any, is_empty, length, ◌==◌, some,
}
use ge360_bridge.Base.Text.{Text, text_eq, text_eq_iff, contains}
use ge360_bridge.Base.Sorted.Members.{all-sort_set, all-keep, all-keep_self}
use ge360_bridge.Core.Data.{ok, Resource, Group}
use ge360_bridge.Core.Normalize.{normalize_group, raw_group, list_or, clean_set}
use ge360_bridge.Core.Normalize.Stable.{or_else-nil}
use ge360_bridge.Core.Store.{check_group, check_groups, has_duplicates, has_duplicate_ports}
use ge360_bridge.Core.Store.ResourceFile.{names, ports}
use ge360_bridge.Core.Store.Checks.{group_names, renormalized_groups}
use ge360_bridge.Core.Resources.Checks.{has_name}
use ge360_bridge.Core.Resources.{without_resource}

module _ (name : Text) where
  unfoldable pub without_names : List Resource → List Text
  without_names rs = names (keep (λ r. not (has_name name r)) rs)

  contains-without :
      (rs : List Resource) (a : Text)
      → contains (without_names rs) a ≡ (contains (names rs) a && not (text_eq a name))
  unfolding contains without_names
  contains-without [] a = refl
  contains-without (r ∷ rs) a = ground (
    arith,
    contains-without rs a,
    text_eq_iff r.name a,
    text_eq_iff r.name name,
    text_eq_iff a name,
  )

  -- What is left of the grants of a group is known among what is left of the resources.
  all-without :
      (rs : List Resource) (xs : List Text)
      → all (contains (names rs)) xs ≡ true
      → all (contains (without_names rs)) (keep (λ x. not (text_eq x name)) xs) ≡ true
  all-without rs [] h = refl
  all-without rs (x ∷ xs) h = ground (arith, contains-without rs x, all-without rs xs)

  list_or_same : (xs : List Text) → list_or (some xs) (some xs) ≡ xs
  list_or_same [] = refl
  list_or_same (x ∷ xs) = refl

  all-clean_set : (p : Text → Bool) (xs : List Text) → all p xs ≡ true → all p (clean_set xs) ≡ true
  all-clean_set p xs h =
      all-sort_set p (keep (λ x. not (is_empty x)) xs) ∙ all-keep p (λ x. not (is_empty x)) xs h

  check_group-without :
      (devices : List Text) (rs : List Resource) (g : Group)
      → check_group devices (names rs) g ≡ ok tt
      → check_group devices
          (without_names rs)
          (normalize_group (raw_group (without_resource name g)))
        ≡ ok tt
  unfolding check_group normalize_group
  check_group-without devices rs g h = ground (
    arith,
    or_else-nil g.name,
    list_or_same (keep (λ x. not (text_eq x name)) g.allowed_services),
    all-clean_set (contains devices) g.device_ids,
    all-clean_set (contains (without_names rs))
        (keep (λ x. not (text_eq x name)) g.allowed_services),
    all-without rs g.allowed_services,
  )

  unfoldable pub stripped : List Group → List Group
  stripped gs = renormalized_groups (map (without_resource name) gs)

  abbrev pub is_granted : Group → Bool
  is_granted g = contains g.allowed_services name

  pub check_groups-without :
      (devices : List Text) (rs : List Resource) (gs : List Group)
      → check_groups devices (names rs) gs ≡ ok tt
      → check_groups devices (without_names rs) (stripped gs) ≡ ok tt
  unfolding check_groups stripped
  check_groups-without devices rs [] h = refl
  check_groups-without devices rs (g ∷ gs) h =
      ground (arith, check_group-without devices rs g, check_groups-without devices rs gs)

  all-unnamed :
      (rs : List Resource) (xs : List Text)
      → contains xs name ≡ false
      → all (contains (names rs)) xs ≡ true
      → all (contains (without_names rs)) xs ≡ true
  unfolding contains
  all-unnamed rs [] k h = refl
  all-unnamed rs (x ∷ xs) k h = ground (arith, contains-without rs x, all-unnamed rs xs)

  pub check_groups-unnamed :
      (devices : List Text) (rs : List Resource) (gs : List Group)
      → any is_granted gs ≡ false
      → check_groups devices (names rs) gs ≡ ok tt
      → check_groups devices (without_names rs) gs ≡ ok tt
  unfolding check_groups check_group
  check_groups-unnamed devices rs [] k h = refl
  check_groups-unnamed devices rs (g ∷ gs) k h =
      ground (arith, all-unnamed rs g.allowed_services, check_groups-unnamed devices rs gs)

  pub group_names-stripped : (gs : List Group) → group_names (stripped gs) ≡ group_names gs
  unfolding normalize_group stripped
  group_names-stripped [] = refl
  group_names-stripped (g ∷ gs) = cc (or_else-nil g.name, group_names-stripped gs)

  contains-none :
      (xs : List Text) → all (λ x. not (text_eq x name)) xs ≡ true → contains xs name ≡ false
  unfolding contains
  contains-none [] h = refl
  contains-none (x ∷ xs) h = ground (arith, contains-none xs)

  -- After the groups are rewritten none of them names the resource.
  pub stripped_unnamed : (gs : List Group) → any is_granted (stripped gs) ≡ false
  unfolding normalize_group stripped
  stripped_unnamed [] = refl
  stripped_unnamed (g ∷ gs) =
      let left = keep (λ x. not (text_eq x name)) g.allowed_services in
      ground (
        arith,
        stripped_unnamed gs,
        list_or_same left,
        contains-none (clean_set left) (
            all-clean_set (λ x. not (text_eq x name)) left
              (all-keep_self (λ x. not (text_eq x name)) g.allowed_services)),
      )

pub length-keep_named :
    (name : Text) (rs : List Resource)
    → contains (names rs) name ≡ true
    → length (keep (λ r. not (has_name name r)) rs) < length rs
unfolding contains
length-keep_named name [] h = absurd (ground arith)
length-keep_named name (r ∷ rs) h =
    ground (arith, length-keep_named name rs, length-keep (λ r. not (has_name name r)) rs)

pub keep_unnamed :
    (name : Text) (rs : List Resource)
    → contains (names rs) name ≡ false
    → keep (λ r. not (has_name name r)) rs ≡ rs
unfolding contains
keep_unnamed name [] h = refl
keep_unnamed name (r ∷ rs) h = ground (arith, keep_unnamed name rs)

contains-keep :
    (p : Resource → Bool) (rs : List Resource) (a : Text)
    → contains (names rs) a ≡ false
    → contains (names (keep p rs)) a ≡ false
unfolding contains
contains-keep p [] a h = refl
contains-keep p (r ∷ rs) a h = ground (arith, contains-keep p rs a)

pub names-keep_unique :
    (p : Resource → Bool) (rs : List Resource)
    → has_duplicates (names rs) ≡ false
    → has_duplicates (names (keep p rs)) ≡ false
unfolding has_duplicates
names-keep_unique p [] h = refl
names-keep_unique p (r ∷ rs) h = ground (arith, contains-keep p rs r.name, names-keep_unique p rs)

any-keep :
    (p : Resource → Bool) (q : ℕ → Bool) (rs : List Resource)
    → any q (ports rs) ≡ false
    → any q (ports (keep p rs)) ≡ false
any-keep p q [] h = refl
any-keep p q (r ∷ rs) h = ground (arith, any-keep p q rs)

pub ports-keep_unique :
    (p : Resource → Bool) (rs : List Resource)
    → has_duplicate_ports (ports rs) ≡ false
    → has_duplicate_ports (ports (keep p rs)) ≡ false
unfolding has_duplicate_ports
ports-keep_unique p [] h = refl
ports-keep_unique p (r ∷ rs) h =
    ground (arith, any-keep p (λ y. y == r.bridge_port) rs, ports-keep_unique p rs)
