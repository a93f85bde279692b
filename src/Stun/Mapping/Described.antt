-- ===== src/Stun/Mapping/Described.antt =====
-- nat_discovery.py: what the types of NAT say of the observations.
use ge360_bridge.Base.{
  ℕ, ◌≡◌, ◌∙◌, refl, sym, ap, ◌==◌, not, ◌&&◌, inl, inr, Bool, true, false, Bool-cases, Option,
  some, List, [], ◌∷◌, length, ltb, keep, all, map, arith, if◌then◌else◌,
}
use ge360_bridge.Base.Text.{Text, text_eq_iff}
use ge360_bridge.Stun.Mapping.{
  Endpoint, same_endpoint, Observation, unknown_nat, no_nat, endpoint_independent_mapping,
  symmetric_like_mapping, distinct, report_of, preserves, is_direct, classify_nat,
}

pub same_endpoint_path : (a b : Endpoint) → same_endpoint a b ≡ true → a ≡ b
same_endpoint_path a b h =
    let ip = (text_eq_iff a.0 b.0).0 (ground arith) in
    let port : a.1 ≡ b.1 = ground arith in λ i. (ip i, port i)

all-keep_others :
    (p : Endpoint → Bool) (x : Endpoint) (ys : List Endpoint)
    → p x ≡ true
    → all p (keep (λ y. not (same_endpoint x y)) ys) ≡ all p ys
all-keep_others p x [] h = refl
all-keep_others p x (y ∷ ys) h = elim (Bool-cases (same_endpoint x y)) [
  | inl e ↦
      let same : p y ≡ true = ap p (sym (same_endpoint_path x y e)) ∙ h in
      rw (e, same) (all-keep_others p x ys h)
  | inr e ↦ rw e (ap (λ b. p y && b) (all-keep_others p x ys h))
]

all-distinct : (p : Endpoint → Bool) (xs : List Endpoint) → all p (distinct xs) ≡ all p xs
unfolding distinct
all-distinct p [] = refl
all-distinct p (x ∷ xs) = elim (Bool-cases (p x)) [
  | inl e ↦ rw e (all-keep_others p x (distinct xs) e ∙ all-distinct p xs)
  | inr e ↦ rw e refl
]

length-keep_others :
    (x : Endpoint) (ys : List Endpoint)
    → (length (keep (λ y. not (same_endpoint x y)) ys) == 0) ≡ all (same_endpoint x) ys
length-keep_others x [] = refl
length-keep_others x (y ∷ ys) = ground (arith, length-keep_others x ys)

-- A set of one element.
length-distinct :
    (x : Endpoint) (xs : List Endpoint)
    → (length (distinct (x ∷ xs)) == 1) ≡ all (same_endpoint x) xs
unfolding distinct
length-distinct x xs =
    let others = length-keep_others x (distinct xs) in
    let every = all-distinct (same_endpoint x) xs in ground arith

few_distinct :
    (x : Endpoint) (xs : List Endpoint)
    → ltb (length (distinct (x ∷ xs))) 2 ≡ all (same_endpoint x) xs
unfolding distinct
few_distinct x xs =
    let others = length-keep_others x (distinct xs) in
    let every = all-distinct (same_endpoint x) xs in ground arith

all-map :
    (p : Endpoint → Bool) (g : Observation → Endpoint) (os : List Observation)
    → all p (map g os) ≡ all (λ x. p (g x)) os
all-map p g [] = refl
all-map p g (o ∷ os) = ap (λ b. p (g o) && b) (all-map p g os)

type_choice :
    (direct few one : Bool) (r : Option Bool)
    → (if direct
        then report_of no_nat (some true)
        else if few
        then report_of unknown_nat r
        else if one
        then report_of endpoint_independent_mapping r
        else report_of symmetric_like_mapping r).nat_type
      ≡ (if direct
          then no_nat
          else if few
          then unknown_nat
          else if one
          then endpoint_independent_mapping
          else symmetric_like_mapping)
type_choice true few one r = refl
type_choice false true one r = refl
type_choice false false true r = refl
type_choice false false false r = refl

-- The type of the NAT is decided by whether the observations agree: it is NO_NAT where every server
-- saw the global address of this machine; else unknown where one server alone was asked; else the
-- mapping is independent of the endpoint where all saw the same address and port, and symmetric-like
-- where two saw different ones.
pub classify_nat_lem :
    (is_global_ipv4 : Text → Bool) (o : Observation) (os : List Observation)
    (local_ip : Option Text) (local_port : Option ℕ)
    → (classify_nat is_global_ipv4 (o ∷ os) local_ip local_port).nat_type ≡ (
        if is_direct is_global_ipv4 local_ip local_port
          (map (λ (x : Observation). x.mapped) (o ∷ os))
        then no_nat
        else if all (λ (x : Observation). same_endpoint o.remote x.remote) os
        then unknown_nat
        else if all (λ (x : Observation). same_endpoint o.mapped x.mapped) os
        then endpoint_independent_mapping
        else symmetric_like_mapping)
unfolding classify_nat
classify_nat_lem is_global_ipv4 o os local_ip local_port =
    let mapped = map (λ (x : Observation). x.mapped) (o ∷ os) in
    let direct = is_direct is_global_ipv4 local_ip local_port mapped in
    let few =
      few_distinct o.remote (map (λ (x : Observation). x.remote) os)
      ∙ all-map (same_endpoint o.remote) (λ x. x.remote) os in
    let one =
      length-distinct o.mapped (map (λ (x : Observation). x.mapped) os)
      ∙ all-map (same_endpoint o.mapped) (λ x. x.mapped) os in
    type_choice direct _ _ (preserves local_port mapped) ∙ (λ i.
      if direct
      then no_nat
      else if few i
      then unknown_nat
      else if one i
      then endpoint_independent_mapping
      else symmetric_like_mapping)
