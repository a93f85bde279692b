-- ===== src/Core/Access/Semantics.antt =====
-- The access decision against its meaning: who may reach a resource.
use ge360_bridge.Base.{
  ℕ, ◌≡◌, refl, sym, ◌∙◌, ◌↔◌, ◌⊎◌, inl, inr, Bool, true, false, not, ◌&&◌, ◌||◌, List, [], ◌∷◌,
  Memᴰ, any, arith, Bool-cases, Memᴰ-of_any, any-of_Memᴰ,
}
use ge360_bridge.Base.Text.{Text, text, text_eq, contains, starts_with}
use ge360_bridge.Base.Text.Members.{contains-of_Memᴰ, Memᴰ-of_contains}
use ge360_bridge.Core.Data.{Resource, Device, Group}
use ge360_bridge.Core.Access.{
  device_is_active, groups_for_device, group_source, resource_access_source, resource_allows_device,
}

-- The group is on, the device is in it, and it grants the resource.
abbrev pub Grants : Group → Text → Text → Type 0
Grants g device_id name =
    (g.enabled ≡ true) × Memᴰ device_id g.device_ids × Memᴰ name g.allowed_services

-- The device is on and not expired, is not denied by name, and is allowed by name or by a group.
abbrev pub MayReach : ℕ → Resource → Device → List Group → Type 0
MayReach today r d groups =
    (device_is_active today d ≡ true)
    × (¬ Memᴰ d.name r.denied_devices)
    × (Memᴰ d.name r.allowed_devices ⊎ ((g : Group) × Memᴰ g groups × Grants g d.device_id r.name))

abbrev pub grants : Text → Text → Group → Bool
grants device_id name g =
    g.enabled && contains g.device_ids device_id && contains g.allowed_services name

group_source-starts_with :
    (name : Text) (d : Device) (groups : List Group)
    → let source = group_source name (groups_for_device d groups) in
      (starts_with source (text "group:") ≡ any (grants d.device_id name) groups)
      × (text_eq source (text "allow_override") ≡ false)
unfolding group_source groups_for_device starts_with text_eq
group_source-starts_with name d [] = (refl, refl)
group_source-starts_with name d (g ∷ gs) = ground (arith, group_source-starts_with name d gs)

-- The decision as one Boolean expression, with the strings gone.
pub resource_allows_device_lem :
    (today : ℕ) (r : Resource) (d : Device) (groups : List Group)
    → resource_allows_device today r d groups ≡ (
        device_is_active today d
        && not (contains r.denied_devices d.name)
        && (contains r.allowed_devices d.name || any (grants d.device_id r.name) groups))
unfolding resource_allows_device resource_access_source starts_with text_eq
resource_allows_device_lem today r d groups =
    ground (arith, group_source-starts_with r.name d groups)

grants-of_Grants : (g : Group) (i n : Text) → Grants g i n → grants i n g ≡ true
grants-of_Grants g i n (on, member, granted) =
    ground (arith, contains-of_Memᴰ member, contains-of_Memᴰ granted)

Grants-of_grants : (g : Group) (i n : Text) → grants i n g ≡ true → Grants g i n
Grants-of_grants g i n h = (
  ground arith,
  Memᴰ-of_contains i g.device_ids (ground arith),
  Memᴰ-of_contains n g.allowed_services (ground arith),
)

granted_by :
    (d : Device) (r : Resource) (groups : List Group)
    → (contains r.allowed_devices d.name || any (grants d.device_id r.name) groups) ≡ true
    → Memᴰ d.name r.allowed_devices ⊎ ((g : Group) × Memᴰ g groups × Grants g d.device_id r.name)
granted_by d r groups h = elim (Bool-cases (contains r.allowed_devices d.name)) [
  | inl e ↦ inl (Memᴰ-of_contains d.name r.allowed_devices e)
  | inr e ↦
      let (g, m, p) = Memᴰ-of_any (grants d.device_id r.name) groups (ground arith) in
      inr (g, m, Grants-of_grants g d.device_id r.name p)
]

MayReach-sound :
    (today : ℕ) (r : Resource) (d : Device) (groups : List Group)
    → resource_allows_device today r d groups ≡ true
    → MayReach today r d groups
MayReach-sound today r d groups h =
    let e = sym (resource_allows_device_lem today r d groups) ∙ h in
    (ground arith, λ m. ground (arith, contains-of_Memᴰ m), granted_by d r groups (ground arith))

MayReach-complete :
    (today : ℕ) (r : Resource) (d : Device) (groups : List Group)
    → MayReach today r d groups
    → resource_allows_device today r d groups ≡ true
MayReach-complete today r d groups (active, allowed, by) =
    resource_allows_device_lem today r d groups ∙ all_true (granted by)
  where
    not_denied : contains r.denied_devices d.name ≡ false
    not_denied = elim (Bool-cases (contains r.denied_devices d.name)) [
      | inl e ↦ absurd (allowed (Memᴰ-of_contains d.name r.denied_devices e))
      | inr e ↦ e
    ]

    granted :
        Memᴰ d.name r.allowed_devices ⊎ ((g : Group) × Memᴰ g groups × Grants g d.device_id r.name)
        → (contains r.allowed_devices d.name || any (grants d.device_id r.name) groups) ≡ true
    granted (inl m) = ground (arith, contains-of_Memᴰ m)
    granted (inr (g, m, p)) =
        ground (
          arith,
          any-of_Memᴰ (grants d.device_id r.name) m (grants-of_Grants g d.device_id r.name p),
        )

    all_true :
        (contains r.allowed_devices d.name || any (grants d.device_id r.name) groups) ≡ true
        → (device_is_active today d
            && not (contains r.denied_devices d.name)
            && (contains r.allowed_devices d.name || any (grants d.device_id r.name) groups))
          ≡ true
    all_true e = ground (arith, not_denied)

-- A resource is open to a device exactly when the device is enabled and not expired, is not denied
-- by name, and is allowed by name or by an enabled group that has it as a member.
pub resource_allows_device_iff :
    (today : ℕ) (r : Resource) (d : Device) (groups : List Group)
    → (resource_allows_device today r d groups ≡ true) ↔ MayReach today r d groups
resource_allows_device_iff today r d groups =
    (MayReach-sound today r d groups, MayReach-complete today r d groups)
