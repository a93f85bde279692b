-- ===== src/Pairing/Lookup.antt =====
-- The enrollments after a clean-up and after a change of one of them.
use ge360_bridge.Base.{
  ℕ, ◌≡◌, refl, ap, inl, inr, true, false, some, List, [], ◌∷◌, map, find, update_first, All, arith,
  Bool-cases,
}
use ge360_bridge.Base.Text.{Text, text_eq_iff, contains}
use ge360_bridge.Core.Store.{has_duplicates}
use ge360_bridge.Pairing.Enrollments.{
  Enrollment, is_pending, expire_old, is_stale, cleanup_enrollments,
}
use ge360_bridge.Pairing.Consume.{has_id}

abbrev pub enrollment_ids : List Enrollment → List Text
enrollment_ids = map (λ (x : Enrollment). x.enrollment_id)

-- Every enrollment of this id can no longer be used.
abbrev pub IsSpent : Text → List Enrollment → Type 0
IsSpent enrollment_id xs =
    All (λ (x : Enrollment). has_id enrollment_id x ≡ true → is_pending x ≡ false) xs

expire_old-has_id :
    (now : ℕ) (id : Text) (x : Enrollment) → has_id id (expire_old now x) ≡ has_id id x
unfolding expire_old
expire_old-has_id now id x = ground arith

expire_old-is_pending :
    (now : ℕ) (x : Enrollment) → is_pending x ≡ false → is_pending (expire_old now x) ≡ false
unfolding expire_old
expire_old-is_pending now x h = ground arith

pub cleanup-IsSpent :
    (now : ℕ) (id : Text) (xs : List Enrollment)
    → IsSpent id xs
    → IsSpent id (cleanup_enrollments now xs)
unfolding cleanup_enrollments
cleanup-IsSpent now id [] h = tt
cleanup-IsSpent now id (x ∷ xs) h =
    let head : has_id id (expire_old now x) ≡ true → is_pending (expire_old now x) ≡ false =
      λ e. expire_old-is_pending now x (h.0 (ap (λ b. b) (rw (← expire_old-has_id now id x) e))) in
    elim (Bool-cases (is_stale now (expire_old now x))) [
      | inl e ↦ rw e (cleanup-IsSpent now id xs h.1)
      | inr e ↦ rw e (head, cleanup-IsSpent now id xs h.1)
    ]

-- What is found among spent enrollments is not pending.
pub find-IsSpent :
    (id : Text) (xs : List Enrollment) {x : Enrollment}
    → IsSpent id xs
    → find (has_id id) xs ≡ some x
    → is_pending x ≡ false
find-IsSpent id [] h e = absurd (ground arith)
find-IsSpent id (y ∷ ys) {x = x} h e = elim (Bool-cases (has_id id y)) [
  | inl f ↦ ground (arith, h.0 f)
  | inr f ↦ find-IsSpent id ys {x = x} h.1 (ground arith)
]

absent-IsSpent :
    (id : Text) (xs : List Enrollment) → contains (enrollment_ids xs) id ≡ false → IsSpent id xs
unfolding contains
absent-IsSpent id [] h = tt
absent-IsSpent id (x ∷ xs) h = (λ e. absurd (ground arith), absent-IsSpent id xs (ground arith))

-- Where the ids are distinct, marking the one enrollment of an id spends it.
pub update_first-IsSpent :
    (id : Text) (f : Enrollment → Enrollment) (xs : List Enrollment)
    → has_duplicates (enrollment_ids xs) ≡ false
    → ((x : Enrollment) → is_pending (f x) ≡ false)
    → IsSpent id (update_first (has_id id) f xs)
unfolding has_duplicates
update_first-IsSpent id f [] d h = tt
update_first-IsSpent id f (x ∷ xs) d h = elim (Bool-cases (has_id id x)) [
  | inl e ↦
      let same : x.enrollment_id ≡ id = (text_eq_iff x.enrollment_id id).0 e in
      let gone : contains (enrollment_ids xs) id ≡ false = rw (← same) (ground arith) in
      rw e (λ _. h x, absent-IsSpent id xs gone)
  | inr e ↦ rw e (λ t. absurd (ground arith), update_first-IsSpent id f xs (ground arith) h)
]

contains-cleanup :
    (now : ℕ) (id : Text) (xs : List Enrollment)
    → contains (enrollment_ids xs) id ≡ false
    → contains (enrollment_ids (cleanup_enrollments now xs)) id ≡ false
unfolding cleanup_enrollments contains expire_old
contains-cleanup now id [] h = refl
contains-cleanup now id (x ∷ xs) h = ground (arith, contains-cleanup now id xs)

-- A clean-up leaves the ids distinct.
pub cleanup-has_duplicates :
    (now : ℕ) (xs : List Enrollment)
    → has_duplicates (enrollment_ids xs) ≡ false
    → has_duplicates (enrollment_ids (cleanup_enrollments now xs)) ≡ false
unfolding cleanup_enrollments has_duplicates expire_old
cleanup-has_duplicates now [] h = refl
cleanup-has_duplicates now (x ∷ xs) h =
    ground (arith, contains-cleanup now x.enrollment_id xs, cleanup-has_duplicates now xs)
