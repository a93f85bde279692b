-- ===== src/Pairing/Sound.antt =====
-- pairing.py: what a consumed enrollment was, and what it has become.
use ge360_bridge.Base.{
  ◌<◌, ◌≡◌, refl, sym, ap, ◌∙◌, true, false, not, Option, none, some, List, [], ◌∷◌, ◌++◌, map,
  find, all, is_empty, update_first, leb, arith, both_branches,
}
use ge360_bridge.Base.Text.{Text, text_eq, contains}
use ge360_bridge.Core.Data.{
  Result, ok, err, Device, Group, pairing_group_gone, no_preshared_key, no_server_key,
}
use ge360_bridge.Core.Store.{
  Act, ◌>>=◌, ◌>>◌, pure, gets, or_raise, raise_if, list_groups, list_resources, lift, list_devices,
  find_device, save_devices,
}
use ge360_bridge.Core.Store.Checks.{bind-eq-ok}
use ge360_bridge.Core.Store.Keeps.{
  Keeps, bind-Keeps, pure-Keeps, gets-Keeps, raise_if-Keeps, or_raise-Keeps,
}
use ge360_bridge.Core.Devices.{next_device_ip}
use ge360_bridge.Core.Access.{effective_resources_for_device}
use ge360_bridge.Pairing.Enrollments.{
  Enrollment, Site, in_core, undo_on_error, load_enrollments, save_enrollments, is_pending,
  cleanup_enrollments,
}
use ge360_bridge.Pairing.Create.{is_some}
use ge360_bridge.Pairing.Consume.{
  Response, response, respond, validate_wireguard_public_key, consume_enrollment, Outside, Supply,
  has_id, use_for, enrolled_device, save_device, add_device, consume_found, consume_item,
  consume_in_lock,
}

abbrev enrollments : Site → Option (List Enrollment)
enrollments s = s.enrollments_file

undo-Keeps :
    {A B : Type 0} (undo : Act Site B) {m : Act Site A}
    → Keeps enrollments undo
    → Keeps enrollments m
    → Keeps enrollments (undo_on_error undo m)
undo-Keeps {A = A} {B = B} undo {m = m} p q = record { same = λ s. go s (m s) (q.same s) }
  where
    go :
        (s : Site) (r : Result A × Site)
        → r.1.enrollments_file ≡ s.enrollments_file
        → let u : Result B × Site = undo r.1 in
          let x : Result A × Site = elim r.0 [
            | ok a ↦ (ok a, r.1)
            | err e ↦ elim u.0 [ ok b ↦ (err e, u.1) | err f ↦ (err f, u.1) ]
          ] in
          x.1.enrollments_file ≡ s.enrollments_file
    go s (ok a, t) e = e
    go s (err why, t) e = undone (undo t) (p.same t ∙ e)
      where
        undone :
            (u : Result B × Site)
            → u.1.enrollments_file ≡ s.enrollments_file
            → let x : Result A × Site = elim u.0 [ ok b ↦ (err why, u.1) | err f ↦ (err f, u.1) ] in
              x.1.enrollments_file ≡ s.enrollments_file
        undone (ok b, t) e = e
        undone (err f, t) e = e

module _ (env : Outside) (supply : Supply) where
  -- What the checks ask of the enrollment before a device is made of it.
  pub record IsRedeemable (x : Enrollment) (token : Text) (s : Site) : Type 0 where
    pub pending : is_pending x ≡ true
    pub digest : text_eq x.token_hash (env.token_digest token) ≡ true
    pub in_time : supply.now < x.expires_at
    pub fresh : is_some (find_device env.stdlib x.device_name s.registries) ≡ false

  save_device-Keeps :
      (x : Enrollment) (before : List Device) (groups : List Group) (device : Device)
      → Keeps enrollments (save_device env supply x before groups device)
  unfolding save_device
  save_device-Keeps x before groups device =
      bind-Keeps (in_core (save_devices env.stdlib supply.utc_now (before ++ device ∷ [])))
        (record { same = λ s. refl })
        λ _.
          undo-Keeps (in_core (save_devices env.stdlib supply.utc_now before))
            (record { same = λ s. refl })
            (both_branches (Keeps enrollments) (is_empty x.groups) (λ e. pure-Keeps _)
              (λ e. record { same = λ s. refl }))

  add_device-Keeps :
      (x : Enrollment) (public_key : Text) → Keeps enrollments (add_device env supply x public_key)
  unfolding add_device save_device
  add_device-Keeps x public_key =
      bind-Keeps (gets (λ (s : Site). list_groups s.registries)) (gets-Keeps _) λ groups.
        bind-Keeps
          (raise_if (not (all (contains (map (λ (g : Group). g.name) groups)) x.groups))
            pairing_group_gone)
          (raise_if-Keeps _ _)
          λ _. bind-Keeps (or_raise supply.psk no_preshared_key) (or_raise-Keeps _ _) λ psk.
            bind-Keeps (λ (s : Site). (next_device_ip env.stdlib s.registries, s))
              (record { same = λ s. refl })
              λ vpn_ip.
                bind-Keeps (gets (λ (s : Site). list_devices env.stdlib s.registries))
                  (gets-Keeps _)
                  λ before.
                    let device = enrolled_device x supply vpn_ip public_key psk in
                    bind-Keeps (save_device env supply x before groups device)
                      (save_device-Keeps x before groups device) λ _. pure-Keeps device

  -- The state in which a device was made of the enrollment.
  pub record IsConsumed (items : List Enrollment) (x : Enrollment) (token : Text) (s s' : Site)
      : Type 0 where
    pub redeemable : IsRedeemable x token s
    pub device_id : Text
    pub marked :
        load_enrollments s'
        ≡ update_first (has_id x.enrollment_id) (use_for supply.now device_id) items

  consume_found_ok :
      (items : List Enrollment) (x : Enrollment) (token public_key : Text) (s : Site) {d : Device}
      → (consume_found env supply items x token public_key s).0 ≡ ok d
      → IsConsumed items x token s (consume_found env supply items x token public_key s).1
  unfolding consume_found
  consume_found_ok items x token public_key s {d = d} =
      both_branches goal (not (is_pending x)) (λ e h. absurd (ground arith))
        (λ e.
          both_branches goal (not (text_eq x.token_hash (env.token_digest token)))
            (λ f h. absurd (ground arith))
            (λ f.
              both_branches goal (leb x.expires_at supply.now) (λ g h. absurd (ground arith))
                (λ g.
                  both_branches goal (is_some (find_device env.stdlib x.device_name s.registries))
                    (λ k h. absurd (ground arith))
                    (λ k h.
                      let redeemable : IsRedeemable x token s = record {
                        pending = ground arith;
                        digest = ground arith;
                        in_time = ground arith;
                        fresh = k;
                      } in
                      let (device, e1, e2) =
                        bind-eq-ok (add_device env supply x public_key) finish s h in
                      record {
                        redeemable = redeemable;
                        device_id = device.device_id;
                        marked = ap (λ (r : Result Device × Site). load_enrollments r.1) e2;
                      }))))
    where
      finish : Device → Act Site Device
      finish device =
          save_enrollments
            (update_first (has_id x.enrollment_id) (use_for supply.now device.device_id) items)
          >> pure device

      goal : Act Site Device → Type 0
      goal m = (m s).0 ≡ ok d → IsConsumed items x token s (m s).1

  consume_item_ok :
      (items : List Enrollment) (o : Option Enrollment) (token public_key : Text) (s : Site)
      {x : Enrollment} {d : Device}
      → (consume_item env supply items o token public_key s).0 ≡ ok (x, d)
      → (o ≡ some x)
        × IsConsumed items x token s (consume_item env supply items o token public_key s).1
  unfolding consume_item
  consume_item_ok items none token public_key s h = absurd (ground arith)
  consume_item_ok items (some y) token public_key s {x = x} {d = d} h =
      let m = consume_found env supply items y token public_key in
      let (device, e1, e2) = bind-eq-ok m (λ device. pure (y, device)) s h in
      let same : y ≡ x =
        ap (λ (r : Result (Enrollment × Device)). answered r)
          (sym (ap (λ (r : Result (Enrollment × Device) × Site). r.0) e2) ∙ h) in
      let consumed = consume_found_ok items y token public_key s e1 in
      (ap some same, rw (e2, ← same) consumed)
    where
      answered : Result (Enrollment × Device) → Enrollment
      answered (ok p) = p.0
      answered (err e) = y

  -- A consumed enrollment was found, was redeemable, and is marked as used.
  pub consume_in_lock_ok :
      (id token public_key : Text) (s : Site) {x : Enrollment} {d : Device}
      → (consume_in_lock env supply id token public_key s).0 ≡ ok (x, d)
      → let items = cleanup_enrollments supply.now (load_enrollments s) in
        (find (has_id id) items ≡ some x)
        × IsConsumed items x token s (consume_in_lock env supply id token public_key s).1
  unfolding consume_in_lock
  consume_in_lock_ok id token public_key s h =
      let items = cleanup_enrollments supply.now (load_enrollments s) in
      consume_item_ok items (find (has_id id) items) token public_key s h

  respond-Keeps : (x : Enrollment) (d : Device) → Keeps (λ (s : Site). s) (respond env supply x d)
  unfolding respond
  respond-Keeps x d =
      bind-Keeps
        (gets (λ (s : Site).
          effective_resources_for_device supply.today d (list_resources s.registries)
            (list_groups s.registries)))
        (gets-Keeps _)
        λ resources.
          bind-Keeps (or_raise env.server_public_key no_server_key) (or_raise-Keeps _ _)
            λ server_key. pure-Keeps (response x d resources server_key)

  -- A response is made of what was done inside the lock.
  pub consume_enrollment_ok :
      (id token public_key : Text) (s : Site) {r : Response}
      → (consume_enrollment env supply id token public_key s).0 ≡ ok r
      → (key : Text) × (x : Enrollment) × (d : Device) × ((consume_in_lock env supply id token key
            s).0
          ≡ ok (x, d))
        × ((consume_enrollment env supply id token public_key s).1
            ≡ (consume_in_lock env supply id token key s).1)
  unfolding consume_enrollment
  consume_enrollment_ok id token public_key s {r = r} h =
      let (key, e1, e2) =
        bind-eq-ok (lift (validate_wireguard_public_key env public_key)) after s h in
      let h2 : (after key s).0 ≡ ok r = ap (λ (y : Result Response × Site). y.0) (sym e2) ∙ h in
      let ((x, d), f1, f2) = bind-eq-ok (consume_in_lock env supply id token key) answer s h2 in
      let kept = (respond-Keeps x d).same (consume_in_lock env supply id token key s).1 in
      (key, x, d, f1, ap (λ (y : Result Response × Site). y.1) (e2 ∙ f2) ∙ kept)
    where
      answer : Enrollment × Device → Act Site Response
      answer (x, d) = respond env supply x d

      after : Text → Act Site Response
      after key = consume_in_lock env supply id token key >>= λ p. answer p
