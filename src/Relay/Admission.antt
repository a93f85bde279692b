-- ===== src/Relay/Admission.antt =====
-- relay_server.py: a request that is not admitted is refused and changes nothing.
use ge360_bridge.Base.{
  ◌≡◌, refl, inl, inr, Bool, true, false, ◌||◌, Option, none, some, both_branches, Bool-cases,
  if◌then◌else◌,
}
use ge360_bridge.Base.Text.{Text, text, text_eq, starts_with}
use ge360_bridge.Core.Data.{Stdlib}
use ge360_bridge.Relay.Registry.{authenticate_device, admin_authorized}
use ge360_bridge.Relay.Sessions.{Settings, Chance}
use ge360_bridge.Relay.Handlers.{
  Relay, Body, Request, Reply, invalid_request, unauthorized, not_found, admin_post, device_post,
  post_body, do_post,
}

-- The replies with the status 401 or 404, or 400 for a body that cannot be read.
abbrev pub is_refusal : Reply → Bool
is_refusal invalid_request = true
is_refusal unauthorized = true
is_refusal not_found = true
is_refusal _ = false

module _ (lib : Stdlib) (c : Settings) (admin_token : Text) (global_ip : Text → Option Text) where
  -- The administrator under the admin paths, and a registered device with its token elsewhere.
  abbrev pub is_admitted : Request → Relay → Bool
  is_admitted q s = elim q.body [
    | none ↦ false
    | some body ↦
        if starts_with q.path (text "/v1/admin/")
        then admin_authorized admin_token q.authorization
        else authenticate_device lib s.registry_file body.device_id body.device_token
  ]

  abbrev Refuses : Relay → Reply × Relay → Type 0
  Refuses s x = (is_refusal x.0 ≡ true) × (x.1 ≡ s)

  post_body-Refuses :
      (chance : Chance) (q : Request) (body : Body) (s : Relay)
      → (if starts_with q.path (text "/v1/admin/")
          then admin_authorized admin_token q.authorization
          else authenticate_device lib s.registry_file body.device_id body.device_token)
        ≡ false
      → Refuses s (post_body lib c admin_token global_ip chance q body s)
  unfolding post_body admin_post device_post
  post_body-Refuses chance q body s = elim (Bool-cases (starts_with q.path (text "/v1/admin/"))) [
    | inl e ↦ rw e (λ h. rw h (refl, refl))
    | inr e ↦ rw e (λ h.
        both_branches (Refuses s)
          (text_eq q.path (text "/v1/device/request") || text_eq q.path (text "/v1/device/status"))
          (λ _. rw h (refl, refl)) (λ _. (refl, refl)))
  ]

  -- A POST that comes neither from the administrator on an admin path nor, on another path, from an
  -- enabled device with its token, is refused and leaves the registry and the sessions as they are.
  pub do_post-refused :
      (chance : Chance) (q : Request) (s : Relay)
      → is_admitted q s ≡ false
      → let (reply, s') = do_post lib c admin_token global_ip chance q s in
        (is_refusal reply ≡ true) × (s' ≡ s)
  unfolding do_post
  do_post-refused chance q s = go q.body
    where
      go :
          (o : Option Body)
          → (elim o [
            | none ↦ false
            | some body ↦
                if starts_with q.path (text "/v1/admin/")
                then admin_authorized admin_token q.authorization
                else authenticate_device lib s.registry_file body.device_id body.device_token
          ])
            ≡ false
          → Refuses s (elim o [
            | none ↦ (invalid_request, s)
            | some body ↦ post_body lib c admin_token global_ip chance q body s
          ])
      go none h = (refl, refl)
      go (some body) h = post_body-Refuses chance q body s h
