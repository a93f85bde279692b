-- ===== src/Health/Many/Order.antt =====
-- health.py: the results of many checks come in the order of the resources.
use ge360_bridge.Base.{
  ℕ, suc, ◌≡◌, ◌∙◌, refl, sym, ap, ◌⊎◌, inl, inr, Bool, true, false, Option, none, some, List, [],
  ◌∷◌, map, All, arith, Bool-cases, if◌then◌else◌,
}
use mathlib.Core.Path.{subst}
use ge360_bridge.Base.Text.{Text, text_eq, text_eq_iff, text_eq_comm, contains}
use ge360_bridge.Core.Data.{Resource}
use ge360_bridge.Core.Store.{has_duplicates}
use ge360_bridge.Health.Check.{HealthResult}
use ge360_bridge.Health.Many.{
  index_from, set_at, settle, Out, place, place_all, present, check_resources,
}

abbrev pub names_of : List Resource → List Text
names_of [] = []
names_of (r ∷ rs) = r.name ∷ names_of rs

-- What the slots hold, by the resource.
abbrev Slots : Type 0
Slots = Resource → Option HealthResult

abbrev write : Text → HealthResult → Slots → Slots
write name h g x = if text_eq x.name name then some h else g x

index_from_absent :
    (i : ℕ) (name : Text) (rs : List Resource)
    → contains (names_of rs) name ≡ false
    → index_from i name rs ≡ none
unfolding index_from contains
index_from_absent i name [] h = refl
index_from_absent i name (r ∷ rs) h =
    let e = index_from_absent (suc i) name rs (ground arith) in
    let f : text_eq r.name name ≡ false = ground arith in rw (e, f) refl

abbrev shift : Option ℕ → Option ℕ
shift none = none
shift (some j) = some (suc j)

shift_choice :
    (o : Option ℕ) (b : Bool) (i : ℕ)
    → elim (shift o) [ some j ↦ some j | none ↦ if b then some (suc i) else none ]
      ≡ shift (elim o [ some j ↦ some j | none ↦ if b then some i else none ])
shift_choice none true i = refl
shift_choice none false i = refl
shift_choice (some j) b i = refl

index_from-shift :
    (i : ℕ) (name : Text) (rs : List Resource)
    → index_from (suc i) name rs ≡ shift (index_from i name rs)
unfolding index_from
index_from-shift i name [] = refl
index_from-shift i name (r ∷ rs) =
    rw (index_from-shift (suc i) name rs)
      (shift_choice (index_from (suc i) name rs) (text_eq r.name name) i)

map-write_absent :
    (name : Text) (h : HealthResult) (g : Slots) (rs : List Resource)
    → contains (names_of rs) name ≡ false
    → map (write name h g) rs ≡ map g rs
unfolding contains
map-write_absent name h g [] e = refl
map-write_absent name h g (r ∷ rs) e =
    let rest = map-write_absent name h g rs (ground arith) in
    let f : text_eq r.name name ≡ false = ground arith in rw (f, rest) refl

abbrev put_at : Option ℕ → HealthResult → Out → Out
put_at none h out = out
put_at (some i) h out = set_at i (some h) out

put_at-shift :
    (o : Option ℕ) (h : HealthResult) (y : Option HealthResult) (out : Out)
    → put_at (shift o) h (y ∷ out) ≡ y ∷ put_at o h out
unfolding set_at
put_at-shift none h y out = refl
put_at-shift (some i) h y out = refl

other_choice :
    (o : Option ℕ) (b : Bool)
    → b ≡ false
    → elim (shift o) [ some j ↦ some j | none ↦ if b then some 0 else none ] ≡ shift o
other_choice none b e = rw e refl
other_choice (some j) b e = refl

-- A resource that is not the one: the search goes on behind it.
index_other :
    (name : Text) (r : Resource) (rs : List Resource)
    → text_eq r.name name ≡ false
    → index_from 0 name (r ∷ rs) ≡ shift (index_from 0 name rs)
unfolding index_from
index_other name r rs e =
    rw (index_from-shift 0 name rs) (other_choice (index_from 0 name rs) (text_eq r.name name) e)

index_same :
    (name : Text) (r : Resource) (rs : List Resource)
    → text_eq r.name name ≡ true
    → contains (names_of rs) name ≡ false
    → index_from 0 name (r ∷ rs) ≡ some 0
unfolding index_from
index_same name r rs e absent = rw (index_from_absent 1 name rs absent, e) refl

put_at-map :
    (name : Text) (h : HealthResult) (g : Slots) (rs : List Resource)
    → has_duplicates (names_of rs) ≡ false
    → put_at (index_from 0 name rs) h (map g rs) ≡ map (write name h g) rs
unfolding index_from has_duplicates set_at
put_at-map name h g [] d = refl
put_at-map name h g (r ∷ rs) d = elim (Bool-cases (text_eq r.name name)) [
  | inl e ↦
      let absent =
        subst (λ n. contains (names_of rs) n ≡ false) ((text_eq_iff r.name name).0 e)
          (ground arith) in
      ap (λ o. put_at o h (map g (r ∷ rs))) (index_same name r rs e absent)
      ∙ rw (e, map-write_absent name h g rs absent) refl
  | inr e ↦
      ap (λ o. put_at o h (map g (r ∷ rs))) (index_other name r rs e)
      ∙ put_at-shift (index_from 0 name rs) h (g r) (map g rs)
      ∙ rw (e, put_at-map name h g rs (ground arith)) refl
]

place_choice :
    (o : Option ℕ) (h : HealthResult) (out : Out)
    → elim o [ none ↦ out | some i ↦ set_at i (some h) out ] ≡ put_at o h out
place_choice none h out = refl
place_choice (some i) h out = refl

place-map :
    (r : Resource) (ended : Option HealthResult) (g : Slots) (rs : List Resource)
    → has_duplicates (names_of rs) ≡ false
    → place rs r ended (map g rs) ≡ map (write r.name (settle r ended) g) rs
unfolding place
place-map r ended g rs d =
    place_choice (index_from 0 r.name rs) (settle r ended) (map g rs)
    ∙ put_at-map r.name (settle r ended) g rs d

abbrev Ended : Type 0
Ended = List (Resource × Option HealthResult)

write_all : Ended → Slots → Slots
write_all [] g = g
write_all ((r, o) ∷ rest) g = write_all rest (write r.name (settle r o) g)

abbrev pub ended_names : Ended → List Text
ended_names [] = []
ended_names ((r, o) ∷ rest) = r.name ∷ ended_names rest

place_all-map :
    (ended : Ended) (g : Slots) (rs : List Resource)
    → has_duplicates (names_of rs) ≡ false
    → place_all rs ended (map g rs) ≡ map (write_all ended g) rs
unfolding place_all write_all
place_all-map [] g rs d = refl
place_all-map ((r, o) ∷ rest) g rs d =
    ap (place_all rs rest) (place-map r o g rs d)
    ∙ place_all-map rest (write r.name (settle r o) g) rs d

settle_name : (r x : Resource) (o : Option HealthResult) → r.name ≡ x.name → settle r o ≡ settle x o
settle_name r x none e = λ i. settle (record r { name = e i }) none
settle_name r x (some h) e = refl

module _ (outcome : Text → Option HealthResult) where
  -- A check ends with the outcome of its resource.
  abbrev pub EndsWell : Resource × Option HealthResult → Type 0
  EndsWell y = y.1 ≡ outcome y.0.name

  abbrev pub result_of : Resource → HealthResult
  result_of x = settle x (outcome x.name)

  write_all-result :
      (x : Resource) (ended : Ended) (g : Slots)
      → All EndsWell ended
      → (contains (ended_names ended) x.name ≡ true) ⊎ (g x ≡ some (result_of x))
      → write_all ended g x ≡ some (result_of x)
  unfolding write_all contains
  write_all-result x [] g hs (inl c) = ground arith
  write_all-result x [] g hs (inr e) = e
  write_all-result x ((r, o) ∷ rest) g (h, hs) c = elim (Bool-cases (text_eq x.name r.name)) [
    | inl e ↦
        let same = (text_eq_iff x.name r.name).0 e in
        let value = settle_name r x o (sym same) ∙ ap (settle x) (h ∙ ap outcome (sym same)) in
        write_all-result x rest (write r.name (settle r o) g) hs
          (inr (rw e (ap (λ v. some v) value)))
    | inr e ↦
        write_all-result x rest (write r.name (settle r o) g) hs (elim c [
          | inl t ↦ inl (ground (arith, text_eq_comm x.name r.name))
          | inr q ↦ inr (rw e q)
        ])
  ]

  present-map :
      (f : Slots) (rs : List Resource)
      → All (λ x. f x ≡ some (result_of x)) rs
      → present (map f rs) ≡ map result_of rs
  unfolding present
  present-map f [] h = refl
  present-map f (x ∷ rs) (h, hs) =
      ap (λ y. present (y ∷ map f rs)) h ∙ ap (λ ys. result_of x ∷ ys) (present-map f rs hs)

  slots_filled :
      (ended : Ended) (rs : List Resource)
      → All EndsWell ended
      → All (λ x. contains (ended_names ended) x.name ≡ true) rs
      → All (λ x. write_all ended (λ r. none) x ≡ some (result_of x)) rs
  slots_filled ended [] hs c = tt
  slots_filled ended (x ∷ rs) hs (c, cs) =
      (write_all-result x ended (λ r. none) hs (inl c), slots_filled ended rs hs cs)

  -- Where no two resources share a name and the check of each ends, the results are the outcomes
  -- in the order of the resources, in whatever order the checks end; a check that ends in an
  -- exception gives BAD_RESPONSE.
  pub check_resources_lem :
      (ended : Ended) (rs : List Resource)
      → has_duplicates (names_of rs) ≡ false
      → All EndsWell ended
      → All (λ x. contains (ended_names ended) x.name ≡ true) rs
      → check_resources rs ended ≡ map result_of rs
  unfolding check_resources
  check_resources_lem ended rs d hs cs =
      ap present (place_all-map ended (λ r. none) rs d)
      ∙ present-map (write_all ended (λ r. none)) rs (slots_filled ended rs hs cs)
