-- ===== src/Relay/Invariant.antt =====
-- relay_server.py: what holds of the sessions whatever happens to the server.
use ge360_bridge.Base.{
  ℕ, suc, ◌≤◌, ◌≡◌, refl, ap, ◌∙◌, inl, inr, Bool, false, not, List, [], ◌∷◌, map, keep, length,
  update_first, arith, Bool-cases, length-keep,
}
use ge360_bridge.Base.Text.{Text, text_eq, text_eq_iff, contains}
use ge360_bridge.Core.Store.{has_duplicates}
use ge360_bridge.Core.Store.ResourceFile.{map-update_first}
use ge360_bridge.Relay.Sessions.{
  Settings, Role, bridge, client, Datagram, RelaySession, pump, expired, cleanup_sessions,
  has_session_id, set_session,
}

abbrev pub session_ids : List RelaySession → List Text
session_ids = map (λ (x : RelaySession). x.session_id)

abbrev pub device_ids : List RelaySession → List Text
device_ids = map (λ (x : RelaySession). x.device_id)

-- No two sessions of one id or of one device, and no more sessions than the settings allow.
pub record IsSound (c : Settings) (xs : List RelaySession) : Type 0 where
  pub ids : has_duplicates (session_ids xs) ≡ false
  pub devices : has_duplicates (device_ids xs) ≡ false
  pub capacity : length xs ≤ c.max_sessions

module _ (f : RelaySession → Text) where
  contains-keep :
      (p : RelaySession → Bool) (a : Text) (xs : List RelaySession)
      → contains (map f xs) a ≡ false
      → contains (map f (keep p xs)) a ≡ false
  unfolding contains
  contains-keep p a [] h = refl
  contains-keep p a (x ∷ xs) h = ground (arith, contains-keep p a xs)

  has_duplicates-keep :
      (p : RelaySession → Bool) (xs : List RelaySession)
      → has_duplicates (map f xs) ≡ false
      → has_duplicates (map f (keep p xs)) ≡ false
  unfolding has_duplicates
  has_duplicates-keep p [] h = refl
  has_duplicates-keep p (x ∷ xs) h =
      ground (arith, contains-keep p (f x) xs, has_duplicates-keep p xs)

pub cleanup-IsSound :
    (c : Settings) (now : ℕ) (xs : List RelaySession)
    → IsSound c xs
    → IsSound c (cleanup_sessions c now xs)
unfolding cleanup_sessions
cleanup-IsSound c now xs h = record {
  ids = has_duplicates-keep (λ x. x.session_id) (λ x. not (expired c now x)) xs h.ids;
  devices = has_duplicates-keep (λ x. x.device_id) (λ x. not (expired c now x)) xs h.devices;
  capacity = omega (arith, length-keep (λ x. not (expired c now x)) xs, h.capacity);
}

-- A change that keeps the two ids.
pub update_first-IsSound :
    (c : Settings) (p : RelaySession → Bool) (f : RelaySession → RelaySession)
    (xs : List RelaySession)
    → ((x : RelaySession) → (f x).session_id ≡ x.session_id)
    → ((x : RelaySession) → (f x).device_id ≡ x.device_id)
    → IsSound c xs
    → IsSound c (update_first p f xs)
update_first-IsSound c p f xs same_id same_device h = record {
  ids = ap has_duplicates (map-update_first (λ x. x.session_id) p f xs same_id) ∙ h.ids;
  devices = ap has_duplicates (map-update_first (λ x. x.device_id) p f xs same_device) ∙ h.devices;
  capacity = omega (arith, same_length xs, h.capacity);
}
  where
    same_length : (ys : List RelaySession) → length (update_first p f ys) ≡ length ys
    same_length [] = refl
    same_length (y ∷ ys) = ground (arith, same_length ys)

pub pump-ids :
    (now : ℕ) (role : Role) (d : Datagram) (x : RelaySession)
    → ((pump now role d x).session_id ≡ x.session_id)
      × ((pump now role d x).device_id ≡ x.device_id)
unfolding pump
pump-ids now bridge d x = ground arith
pump-ids now client d x = ground arith

contains-set_session :
    (s : RelaySession) (a : Text) (xs : List RelaySession)
    → contains (session_ids xs) a ≡ false
    → text_eq s.session_id a ≡ false
    → contains (session_ids (set_session s xs)) a ≡ false
unfolding contains set_session
contains-set_session s a [] h e = ground arith
contains-set_session s a (x ∷ xs) h e = ground (arith, contains-set_session s a xs)

contains-set_session_device :
    (s : RelaySession) (a : Text) (xs : List RelaySession)
    → contains (device_ids xs) a ≡ false
    → text_eq s.device_id a ≡ false
    → contains (device_ids (set_session s xs)) a ≡ false
unfolding contains set_session
contains-set_session_device s a [] h e = ground arith
contains-set_session_device s a (x ∷ xs) h e = ground (arith, contains-set_session_device s a xs)

text_eq-false_sym : (s t : Text) → text_eq s t ≡ false → text_eq t s ≡ false
text_eq-false_sym s t h = ground (arith, text_eq_iff s t, text_eq_iff t s)

set_session-ids :
    (s : RelaySession) (xs : List RelaySession)
    → has_duplicates (session_ids xs) ≡ false
    → has_duplicates (session_ids (set_session s xs)) ≡ false
unfolding has_duplicates set_session
set_session-ids s [] h = unfold contains in refl
set_session-ids s (x ∷ xs) h = elim (Bool-cases (has_session_id s.session_id x)) [
  | inl e ↦
      let same : x.session_id ≡ s.session_id = (text_eq_iff x.session_id s.session_id).0 e in
      rw e (rw (← same) (ground arith))
  | inr e ↦
      let gone =
        contains-set_session s x.session_id xs (ground arith)
          (text_eq-false_sym x.session_id s.session_id e) in
      rw e (ground (arith, gone, set_session-ids s xs (ground arith)))
]

set_session-devices :
    (s : RelaySession) (xs : List RelaySession)
    → has_duplicates (device_ids xs) ≡ false
    → contains (device_ids xs) s.device_id ≡ false
    → has_duplicates (device_ids (set_session s xs)) ≡ false
unfolding has_duplicates set_session contains
set_session-devices s [] h n = refl
set_session-devices s (x ∷ xs) h n = elim (Bool-cases (has_session_id s.session_id x)) [
  | inl e ↦ rw e (ground arith)
  | inr e ↦
      let apart = text_eq-false_sym x.device_id s.device_id (ground arith) in
      let gone = contains-set_session_device s x.device_id xs (ground arith) apart in
      rw e (ground (arith, gone, set_session-devices s xs (ground arith) (ground arith)))
]

length-set_session :
    (s : RelaySession) (xs : List RelaySession) → length (set_session s xs) ≤ suc (length xs)
unfolding set_session
length-set_session s [] = omega arith
length-set_session s (x ∷ xs) = ground (arith, length-set_session s xs)

-- A session of a device that has none, where there is room for it.
pub set_session-IsSound :
    (c : Settings) (s : RelaySession) (xs : List RelaySession)
    → IsSound c xs
    → contains (device_ids xs) s.device_id ≡ false
    → suc (length xs) ≤ c.max_sessions
    → IsSound c (set_session s xs)
set_session-IsSound c s xs h n room = record {
  ids = set_session-ids s xs h.ids;
  devices = set_session-devices s xs h.devices n;
  capacity = omega (arith, length-set_session s xs);
}
