-- ===== src/Core/Integrity/Resources.antt =====
-- The operations on resources keep the registries consistent.
use ge360_bridge.Base.{
  ◌≡◌, refl, sym, ap, ◌∙◌, inl, inr, true, List, [], ◌∷◌, ◌++◌, arith, Bool-cases, update_first,
}
use ge360_bridge.Base.Text.{Text, text_eq_iff, contains}
use ge360_bridge.Base.Text.Members.{contains-append}
use ge360_bridge.Core.Data.{Stdlib, Resource, Result-cases}
use ge360_bridge.Core.Normalize.{normalize_resource, get_or}
use ge360_bridge.Core.Normalize.Stable.{or_else-nil}
use mathlib.Core.Path.{subst}
use ge360_bridge.Core.Store.{
  Store, ◌>>=◌, ◌>>◌, pure, gets, Action, list_resources, list_devices, save_resources,
  find_resource,
}
use ge360_bridge.Core.Store.ResourceFile.{names}
use ge360_bridge.Core.Store.Checks.{renormalized, store-bind}
use ge360_bridge.Core.Resources.Checks.{
  NewResource, ResourceChanges, has_name, checked_resource, checked_changes,
}
use ge360_bridge.Core.Resources.Checks.Laws.{checked_changes_name}
use ge360_bridge.Core.Resources.{register_resource, update_resource}
use ge360_bridge.Core.Integrity.{IsConsistent, save_resources-IsConsistent}

pub names-renormalized : (rs : List Resource) → names (renormalized rs) ≡ names rs
unfolding normalize_resource
names-renormalized [] = refl
names-renormalized (r ∷ rs) = cc (or_else-nil r.name, names-renormalized rs)

names-append : (rs : List Resource) (r : Resource) → names (rs ++ r ∷ []) ≡ names rs ++ r.name ∷ []
names-append [] r = refl
names-append (x ∷ rs) r = ap (λ l. x.name ∷ l) (names-append rs r)

-- The names of the list that is saved in place of the old one.
contains-renormalized :
    (rs : List Resource) (a : Text)
    → contains (names rs) a ≡ true
    → contains (names (renormalized rs)) a ≡ true
contains-renormalized rs a h = ap (λ l. contains l a) (names-renormalized rs) ∙ h

contains-appended :
    (rs : List Resource) (r : Resource) (a : Text)
    → contains (names rs) a ≡ true
    → contains (names (rs ++ r ∷ [])) a ≡ true
contains-appended rs r a h =
    ap (λ l. contains l a) (names-append rs r)
    ∙ contains-append a (names rs) (r.name ∷ [])
    ∙ ground arith

module _ (lib : Stdlib) (s : Store) (c : IsConsistent lib s) where
  pub register_resource-IsConsistent :
      (a : NewResource) → IsConsistent lib (register_resource lib a s).1
  unfolding register_resource
  register_resource-IsConsistent a =
      elim (Result-cases (checked_resource lib a (list_resources s) (list_devices lib s))) [
        | inl (r, e) ↦ rw e (saved r)
        | inr (x, e) ↦ rw e c
      ]
    where
      saved :
          (r : Resource)
          → IsConsistent lib ((save_resources (list_resources s ++ r ∷ []) >> pure r) s).1
      saved r =
          subst (IsConsistent lib)
            (sym (
              store-bind (save_resources (list_resources s ++ r ∷ [])) (λ u. pure r) s
                (λ u t. refl)))
            (save_resources-IsConsistent lib s c (list_resources s ++ r ∷ []) (λ a h.
              contains-renormalized (list_resources s ++ r ∷ []) a
                (contains-appended (list_resources s) r a h)))

-- A change of the first resource of a name that keeps the name.
names-update_first :
    (name : Text) (r : Resource) (rs : List Resource)
    → r.name ≡ name
    → names (update_first (has_name name) (λ x. r) rs) ≡ names rs
names-update_first name r [] e = refl
names-update_first name r (x ∷ rs) e = elim (Bool-cases (has_name name x)) [
  | inl found ↦ rw found (ap (λ n. n ∷ names rs) (e ∙ sym ((text_eq_iff x.name name).0 found)))
  | inr other ↦ rw other (ap (λ l. x.name ∷ l) (names-update_first name r rs e))
]

module _ (lib : Stdlib) (s : Store) (c : IsConsistent lib s) where
  pub update_resource-IsConsistent :
      (name : Text) (changes : ResourceChanges)
      → IsConsistent lib (update_resource lib name changes s).1
  unfolding update_resource
  update_resource-IsConsistent name changes =
      elim (Result-cases (checked_changes lib name changes (list_resources s))) [
        | inl (r, e) ↦ rw e (saved r (checked_changes_name lib name changes (list_resources s) e))
        | inr (x, e) ↦ rw e c
      ]
    where
      changed_list : Resource → List Resource
      changed_list r = update_first (has_name name) (λ x. r) (list_resources s)

      answer : Resource → Unit {0} → Action Resource
      answer r u = gets (find_resource name) >>= λ found. pure (get_or found r)

      saved :
          (r : Resource)
          → r.name ≡ name
          → IsConsistent lib ((save_resources (changed_list r) >>= answer r) s).1
      saved r n =
          subst (IsConsistent lib)
            (sym (store-bind (save_resources (changed_list r)) (answer r) s (λ u t. refl)))
            (save_resources-IsConsistent lib s c (changed_list r) (λ a h.
              contains-renormalized (changed_list r) a
                (ap (λ l. contains l a) (names-update_first name r (list_resources s) n) ∙ h)))
