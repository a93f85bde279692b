-- ===== src/P2p/RateLimit.antt =====
-- p2p.py: a device prepares no more sessions than the rate limit allows.
use ge360_bridge.Base.{
  ℕ, suc, ◌+◌, ◌≤◌, ◌<◌, ◌≡◌, refl, ap, inl, inr, true, false, ◌&&◌, List, [], ◌∷◌, ◌++◌, keep,
  length, is_empty, All, ltb, leb, arith, if◌then◌else◌, Bool-cases,
}
use ge360_bridge.Base.Text.{Text, text_eq, text_eq_iff}
use ge360_bridge.P2p.Sessions.{
  Attempts, rate_window, rate_limit_per_device, is_fresh, fresh_attempts, attempts_of, add_attempt,
}
use ge360_bridge.SelfHeal.Limit.Counts.{between, count, count-length, count-append}

-- A session that was granted: to which device, and when.
pub record Grant : Type 0 where
  pub device_id : Text
  pub granted_at : ℕ

abbrev pub grants_between : Text → ℕ → ℕ → List Grant → ℕ
grants_between id a b [] = 0
grants_between id a b (g ∷ gs) =
    if text_eq g.device_id id && between a b g.granted_at
    then suc (grants_between id a b gs)
    else grants_between id a b gs

-- The grants of the last window are among the attempts of the dictionary.
abbrev pub IsCovered : ℕ → Attempts → List Grant → Type 0
IsCovered now t gs =
    (id : Text) (a : ℕ)
    → now ≤ a + rate_window
    → grants_between id a now gs ≤ count a now (attempts_of id t)

abbrev pub IsPast : ℕ → List Grant → Type 0
IsPast now gs = All (λ (g : Grant). g.granted_at ≤ now) gs

abbrev pub IsLimited : List Grant → Type 0
IsLimited gs =
    (id : Text) (a : ℕ) → grants_between id a (a + rate_window) gs ≤ rate_limit_per_device

count-keep :
    (a b now : ℕ) (ts : List ℕ)
    → now ≤ a + rate_window
    → count a b (keep (is_fresh now) ts) ≡ count a b ts
count-keep a b now [] w = refl
count-keep a b now (t ∷ ts) w = ground (arith, count-keep a b now ts w)

-- The clean-up keeps what lies inside the window.
fresh_attempts-keeps :
    (a b now : ℕ) (id : Text) (t : Attempts)
    → now ≤ a + rate_window
    → count a b (attempts_of id t) ≤ count a b (attempts_of id (fresh_attempts now t))
unfolding fresh_attempts attempts_of
fresh_attempts-keeps a b now id [] w = omega arith
fresh_attempts-keeps a b now id ((d, ts) ∷ t) w =
    elim (Bool-cases (is_empty (keep (is_fresh now) ts))) [
      | inl e ↦ rw e (
          ground (
            arith,
            count-keep a b now ts w,
            fresh_attempts-keeps a b now id t w,
            no_count (keep (is_fresh now) ts),
          ))
      | inr e ↦ rw e (ground (arith, count-keep a b now ts w, fresh_attempts-keeps a b now id t w))
    ]
  where
    no_count : (us : List ℕ) → is_empty us ≡ true → count a b us ≡ 0
    no_count [] e = refl
    no_count (u ∷ us) e = absurd (ground arith)

attempts_of-add_attempt :
    (id other : Text) (now : ℕ) (t : Attempts)
    → attempts_of other (add_attempt id now t)
      ≡ (if text_eq id other then attempts_of other t ++ now ∷ [] else attempts_of other t)
unfolding attempts_of add_attempt
attempts_of-add_attempt id other now [] = refl
attempts_of-add_attempt id other now ((d, ts) ∷ t) = elim (Bool-cases (text_eq d id)) [
  | inl e ↦ let same : d ≡ id = (text_eq_iff d id).0 e in rw e (rw (← same) (ground arith))
  | inr e ↦ rw e (elim (Bool-cases (text_eq d other)) [
    | inl f ↦
        let same : d ≡ other = (text_eq_iff d other).0 f in
        let apart : text_eq id other ≡ false = ground (arith, text_eq_iff id other) in
        rw (f, apart) refl
    | inr f ↦ rw f (attempts_of-add_attempt id other now t)
  ])
]

grants_between_past :
    (id : Text) (a b c : ℕ) (gs : List Grant)
    → IsPast b gs
    → grants_between id a c gs ≤ grants_between id a b gs
grants_between_past id a b c [] h = omega arith
grants_between_past id a b c (g ∷ gs) h = ground (arith, grants_between_past id a b c gs h.1)

pub IsCovered-later :
    (now later : ℕ) (t : Attempts) (gs : List Grant)
    → now ≤ later
    → IsPast now gs
    → IsCovered now t gs
    → IsCovered later t gs
IsCovered-later now later t gs le past c id a w = omega (
  arith,
  grants_between_past id a now later gs past,
  c id a (omega arith),
  longer (attempts_of id t),
)
  where
    longer : (ts : List ℕ) → count a now ts ≤ count a later ts
    longer [] = omega arith
    longer (u ∷ us) = ground (arith, longer us)

pub IsPast-later : (now later : ℕ) (gs : List Grant) → now ≤ later → IsPast now gs → IsPast later gs
IsPast-later now later [] le past = tt
IsPast-later now later (g ∷ gs) le past =
    (omega (arith, past.0), IsPast-later now later gs le past.1)

pub fresh_attempts-IsCovered :
    (now : ℕ) (t : Attempts) (gs : List Grant)
    → IsCovered now t gs
    → IsCovered now (fresh_attempts now t) gs
fresh_attempts-IsCovered now t gs c id a w =
    omega (arith, c id a w, fresh_attempts-keeps a now now id t w)

module _ (now : ℕ) (id : Text) (gs : List Grant) where
  abbrev granted : List Grant
  granted = (record { device_id = id; granted_at = now }) ∷ gs

  -- A grant that the dictionary notes.
  pub grant-IsCovered :
      (t : Attempts) → IsCovered now t gs → IsCovered now (add_attempt id now t) granted
  grant-IsCovered t c other a w =
      rw (attempts_of-add_attempt id other now t) (elim (Bool-cases (text_eq id other)) [
        | inl e ↦
            let same : id ≡ other = (text_eq_iff id other).0 e in
            rw e (ground (arith, c other a w, count-append a now (attempts_of other t) (now ∷ [])))
        | inr e ↦ rw e (c other a w)
      ])

  -- A grant below the limit.
  pub grant-IsLimited :
      (t : Attempts)
      → IsPast now gs
      → IsCovered now t gs
      → length (attempts_of id t) < rate_limit_per_device
      → IsLimited gs
      → IsLimited granted
  grant-IsLimited t past c below limited other a =
      elim (Bool-cases (text_eq id other && (ltb a now && leb now (a + rate_window)))) [
        | inl e ↦
            let same : id ≡ other = (text_eq_iff id other).0 (ground arith) in
            let w : now ≤ a + rate_window = ground arith in
            let moved = ap (λ n. grants_between n a (a + rate_window) gs) same in
            rw e (
              omega (
                arith,
                moved,
                grants_between_past id a now (a + rate_window) gs past,
                c id a w,
                count-length a now (attempts_of id t),
              ))
        | inr e ↦ rw e (limited other a)
      ]
