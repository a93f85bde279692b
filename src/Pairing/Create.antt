-- ===== src/Pairing/Create.antt =====
-- pairing.py: `create_enrollment`.
use ge360_bridge.Base.{
  ℕ, ◌+◌, ◌&&◌, ◌||◌, not, Bool, true, false, Option, none, some, List, [], ◌∷◌, ◌++◌, map, any,
  all, take, ltb, if◌then◌else◌,
}
use ge360_bridge.Base.Text.{Text, text_eq, contains, strip}
use ge360_bridge.Base.Sorted.{sort_set}
use ge360_bridge.Core.Data.{
  Result, ok, err, Stdlib, Group, invalid_ttl, unknown_groups, device_exists, pairing_exists,
}
use ge360_bridge.Core.Validate.{
  validate_name, validate_device_type, validate_expiry, normalize_tags,
}
use ge360_bridge.Core.Store.{Act, ◌>>=◌, ◌>>◌, pure, gets, lift, raise_if, list_groups, find_device}
use ge360_bridge.Pairing.Enrollments.{
  Enrollment, pending, min_ttl_seconds, max_ttl_seconds, Site, load_enrollments, save_enrollments,
  is_pending, cleanup_enrollments,
}

-- The arguments of `create_enrollment`.
pub record NewEnrollment : Type 0 where
  pub name : Text
  pub device_type : Text
  pub owner : Text
  pub expires_at : Option Text
  pub notes : Text
  pub tags : List Text
  pub group_names : List Text
  pub ttl_seconds : ℕ

-- What `secrets` and the clock supply.
pub record Drawn : Type 0 where
  pub now : ℕ
  pub token : Text
  pub enrollment_id : Text

unfoldable pub validate_ttl : ℕ → Result ℕ
validate_ttl ttl =
    if ltb ttl min_ttl_seconds || ltb max_ttl_seconds ttl then err invalid_ttl else ok ttl

abbrev pub is_pending_for : Text → Enrollment → Bool
is_pending_for name x = is_pending x && text_eq x.device_name name

abbrev pub is_some {ℓ} : {A : Type ℓ} → Option A → Bool
is_some none = false
is_some (some a) = true

-- `token_digest` is the keyed hash of pairing.py, for the key on the disk.
module _ (lib : Stdlib) (token_digest : Text → Text) where
  abbrev pub new_enrollment :
      NewEnrollment → Drawn → Text → Option Text → List Text → ℕ → Enrollment
  new_enrollment a drawn device_type expires_at tags ttl = record {
    enrollment_id = drawn.enrollment_id;
    device_name = a.name;
    device_type = device_type;
    owner = take 120 (strip a.owner);
    device_expires_at = expires_at;
    notes = take 1000 (strip a.notes);
    tags = tags;
    groups = sort_set a.group_names;
    token_hash = token_digest drawn.token;
    created_at = drawn.now;
    expires_at = drawn.now + ttl;
    status = pending;
    used_at = none;
    expired_at = none;
    device_id = none;
  }

  unfoldable pub create_enrollment : NewEnrollment → Drawn → Act Site (Enrollment × Text)
  create_enrollment a drawn = do
    lift (validate_name a.name)
    device_type ← lift (validate_device_type a.device_type)
    expires_at ← lift (validate_expiry a.expires_at)
    tags ← lift (normalize_tags a.tags)
    ttl ← lift (validate_ttl a.ttl_seconds)
    known ← gets (λ (s : Site). map (λ (g : Group). g.name) (list_groups s.registries))
    raise_if (not (all (contains known) (sort_set a.group_names))) unknown_groups
    found ← gets (λ (s : Site). find_device lib a.name s.registries)
    raise_if (is_some found) device_exists
    items ← gets (λ s. cleanup_enrollments drawn.now (load_enrollments s))
    raise_if (any (is_pending_for a.name) items) pairing_exists
    let made = new_enrollment a drawn device_type expires_at tags ttl
    save_enrollments (items ++ made ∷ [])
    pure (made, drawn.token)
