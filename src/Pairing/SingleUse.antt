-- ===== src/Pairing/SingleUse.antt =====
-- pairing.py: an enrollment is consumed at most once.
use ge360_bridge.Base.{◌≡◌, refl, inl, inr, false, arith, find-holds}
use ge360_bridge.Base.Text.{Text, text_eq_iff}
use ge360_bridge.Core.Data.{is_ok, Result-cases, ok, Device}
use ge360_bridge.Core.Store.{has_duplicates}
use ge360_bridge.Pairing.Enrollments.{Enrollment, Site, load_enrollments, cleanup_enrollments}
use ge360_bridge.Pairing.Sound.{consume_in_lock_ok, consume_enrollment_ok}
use ge360_bridge.Pairing.Lookup.{
  enrollment_ids, IsSpent, cleanup-IsSpent, find-IsSpent, update_first-IsSpent,
  cleanup-has_duplicates,
}
use ge360_bridge.Pairing.Consume.{
  Response, consume_enrollment, Outside, Supply, has_id, use_for, consume_in_lock,
}

module _ (env : Outside) (supply : Supply) where
  -- Consuming an enrollment leaves it spent.
  pub consume_in_lock-IsSpent :
      (id token public_key : Text) (s : Site) {x : Enrollment} {d : Device}
      → has_duplicates (enrollment_ids (load_enrollments s)) ≡ false
      → (consume_in_lock env supply id token public_key s).0 ≡ ok (x, d)
      → IsSpent id (load_enrollments (consume_in_lock env supply id token public_key s).1)
  consume_in_lock-IsSpent id token public_key s {x = x} distinct h =
      let items = cleanup_enrollments supply.now (load_enrollments s) in
      let (found, c) = consume_in_lock_ok env supply id token public_key s h in
      let same : x.enrollment_id ≡ id =
        (text_eq_iff x.enrollment_id id).0 (find-holds (has_id id) items found) in
      rw (c.marked, same)
        (update_first-IsSpent id (use_for supply.now c.device_id) items
          (cleanup-has_duplicates supply.now (load_enrollments s) distinct) (λ y. refl))

  -- A spent enrollment is refused.
  refused-IsSpent :
      (id token public_key : Text) (s : Site)
      → IsSpent id (load_enrollments s)
      → is_ok (consume_in_lock env supply id token public_key s).0 ≡ false
  refused-IsSpent id token public_key s spent =
      elim (Result-cases (consume_in_lock env supply id token public_key s).0) [
        | inr (e, f) ↦ rw f refl
        | inl ((x, d), f) ↦
            let (found, c) = consume_in_lock_ok env supply id token public_key s f in
            let old = cleanup-IsSpent supply.now id (load_enrollments s) spent in
            let gone =
              find-IsSpent id (cleanup_enrollments supply.now (load_enrollments s)) old found in
            absurd (ground (arith, c.redeemable.pending))
      ]

  pub refused_consume :
      (id token public_key : Text) (s : Site)
      → IsSpent id (load_enrollments s)
      → is_ok (consume_enrollment env supply id token public_key s).0 ≡ false
  refused_consume id token public_key s spent =
      elim (Result-cases (consume_enrollment env supply id token public_key s).0) [
        | inr (e, f) ↦ rw f refl
        | inl (r, f) ↦
            let (key, x, d, g, k) = consume_enrollment_ok env supply id token public_key s f in
            let no = refused-IsSpent id token key s spent in absurd (ground (arith, g))
      ]

  pub consume_enrollment-IsSpent :
      (id token public_key : Text) (s : Site) {r : Response}
      → has_duplicates (enrollment_ids (load_enrollments s)) ≡ false
      → (consume_enrollment env supply id token public_key s).0 ≡ ok r
      → IsSpent id (load_enrollments (consume_enrollment env supply id token public_key s).1)
  consume_enrollment-IsSpent id token public_key s distinct h =
      let (key, x, d, e, f) = consume_enrollment_ok env supply id token public_key s h in
      rw f (consume_in_lock-IsSpent id token key s distinct e)
