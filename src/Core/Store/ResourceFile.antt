-- ===== src/Core/Store/ResourceFile.antt =====
-- The resource files: what is saved is what is listed, and nothing else is saved.
use ge360_bridge.Base.{
  ℕ, ◌≡◌, refl, ap, ◌∙◌, inl, inr, Bool, false, some, List, [], ◌∷◌, map, update_first, All, arith,
  Bool-cases, if◌then◌else◌,
}
use ge360_bridge.Base.Text.{Text}
use ge360_bridge.Core.Data.{ok, err, Resource, RawResource, duplicate_name, duplicate_port}
use ge360_bridge.Core.Normalize.{normalize_resource, raw_resource, get_or}
use ge360_bridge.Core.Normalize.Stable.{normalize_resource_idem}
use ge360_bridge.Core.Store.{
  Store, has_duplicates, has_duplicate_ports, resource_source, list_resources, save_resources,
}

-- A resource that normalisation leaves alone, as every listed resource is.
abbrev pub IsNormal : Resource → Type 0
IsNormal r = normalize_resource (raw_resource r) ≡ r

abbrev pub names : List Resource → List Text
names = map (λ (r : Resource). r.name)

abbrev pub ports : List Resource → List ℕ
ports = map (λ (r : Resource). r.bridge_port)

-- The files after a save.
abbrev pub with_resources : List Resource → Store → Store
with_resources rs s = record s {
  resources_file = some (map raw_resource rs);
  services_file = some (map raw_resource rs);
}

map-normalize-IsNormal : (raws : List RawResource) → All IsNormal (map normalize_resource raws)
map-normalize-IsNormal [] = tt
map-normalize-IsNormal (r ∷ raws) = (normalize_resource_idem r, map-normalize-IsNormal raws)

pub list_resources-IsNormal : (s : Store) → All IsNormal (list_resources s)
unfolding list_resources
list_resources-IsNormal s =
    map-normalize-IsNormal
      (resource_source (get_or s.resources_file []) (get_or s.services_file []))

map_of_IsNormal :
    (rs : List Resource) → All IsNormal rs → map (λ r. normalize_resource (raw_resource r)) rs ≡ rs
map_of_IsNormal [] h = refl
map_of_IsNormal (r ∷ rs) h = cc (h.0, map_of_IsNormal rs h.1)

map-map_of_IsNormal :
    (rs : List Resource) → All IsNormal rs → map normalize_resource (map raw_resource rs) ≡ rs
map-map_of_IsNormal [] h = refl
map-map_of_IsNormal (r ∷ rs) h = cc (h.0, map-map_of_IsNormal rs h.1)

-- What was saved is listed.
pub list_resources-with :
    (rs : List Resource) (s : Store) → All IsNormal rs → list_resources (with_resources rs s) ≡ rs
unfolding list_resources
list_resources-with [] s h = refl
list_resources-with (r ∷ rs) s h = map-map_of_IsNormal (r ∷ rs) h

pub save_resources_lem :
    (rs : List Resource) (s : Store)
    → All IsNormal rs
    → save_resources rs s ≡ (
        if has_duplicates (names rs)
        then (err duplicate_name, s)
        else if has_duplicate_ports (ports rs)
        then (err duplicate_port, s)
        else (ok tt, with_resources rs s))
unfolding save_resources
save_resources_lem rs s h = rw (map_of_IsNormal rs h) (ground arith)

pub save_resources_ok :
    (rs : List Resource) (s : Store)
    → All IsNormal rs
    → has_duplicates (names rs) ≡ false
    → has_duplicate_ports (ports rs) ≡ false
    → save_resources rs s ≡ (ok tt, with_resources rs s)
save_resources_ok rs s h n p = save_resources_lem rs s h ∙ rw (n, p)

-- A change of the first match keeps what each element has.
pub All-update_first {ℓ κ} :
    {A : Type ℓ} (P : A → Type κ) (p : A → Bool) (f : A → A) (xs : List A)
    → ((x : A) → P x → P (f x))
    → All P xs
    → All P (update_first p f xs)
All-update_first P p f [] step h = h
All-update_first P p f (x ∷ xs) step h = elim (Bool-cases (p x)) [
  | inl e ↦ rw e (step x h.0, h.1)
  | inr e ↦ rw e (h.0, All-update_first P p f xs step h.1)
]

-- Where the change keeps a field, the list of that field is kept.
pub map-update_first {ℓ κ} :
    {A : Type ℓ} {B : Type κ} (g : A → B) (p : A → Bool) (f : A → A) (xs : List A)
    → ((x : A) → g (f x) ≡ g x)
    → map g (update_first p f xs) ≡ map g xs
map-update_first g p f [] same = refl
map-update_first g p f (x ∷ xs) same = elim (Bool-cases (p x)) [
  | inl e ↦ rw e (ap (λ y. y ∷ map g xs) (same x))
  | inr e ↦ rw e (ap (λ ys. g x ∷ ys) (map-update_first g p f xs same))
]
