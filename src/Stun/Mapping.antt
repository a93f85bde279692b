-- ===== src/Stun/Mapping.antt =====
-- nat_discovery.py: `classify_nat`. The reasons are left out; `is_global_ipv4` is the test of
-- `ipaddress.IPv4Address`, false for a text that is no address.
pub mod Described
use ge360_bridge.Base.{
  ℕ, ◌==◌, not, ◌&&◌, Bool, true, false, Option, none, some, List, [], ◌∷◌, length, ltb, keep, all,
  is_empty, map, if◌then◌else◌,
}
use ge360_bridge.Base.Text.{Text, text_eq}

abbrev pub Endpoint : Type 0
Endpoint = Text × ℕ

abbrev pub same_endpoint : Endpoint → Endpoint → Bool
same_endpoint a b = text_eq a.0 b.0 && a.1 == b.1

-- An observation, with what `classify_nat` reads of it.
pub record Observation : Type 0 where
  pub remote : Endpoint
  pub mapped : Endpoint

pub data NatType : Type 0 where
  unknown_nat no_nat endpoint_independent_mapping symmetric_like_mapping : NatType

pub record NatReport : Type 0 where
  pub nat_type : NatType
  pub port_preservation : Option Bool

-- The elements of the set of a list.
unfoldable pub distinct : List Endpoint → List Endpoint
unfolding text_eq
distinct [] = []
distinct (x ∷ xs) = x ∷ keep (λ y. not (same_endpoint x y)) (distinct xs)

abbrev pub report_of : NatType → Option Bool → NatReport
report_of nat_type preserved = record { nat_type = nat_type; port_preservation = preserved }

-- The global address and the port of this machine are what every server saw.
unfoldable pub is_direct : (Text → Bool) → Option Text → Option ℕ → List Endpoint → Bool
unfolding text_eq
is_direct is_global_ipv4 none port mapped = false
is_direct is_global_ipv4 (some ip) none mapped = false
is_direct is_global_ipv4 (some ip) (some port) mapped =
    not (is_empty ip)
    && is_global_ipv4 ip
    && all (λ (m : Endpoint). same_endpoint m (ip, port)) mapped

abbrev pub preserves : Option ℕ → List Endpoint → Option Bool
preserves none mapped = none
preserves (some port) mapped = some (all (λ (m : Endpoint). m.1 == port) mapped)

-- `classify_nat`
unfoldable pub classify_nat : (Text → Bool) → List Observation → Option Text → Option ℕ → NatReport
unfolding distinct is_direct
classify_nat is_global_ipv4 [] local_ip local_port = report_of unknown_nat none
classify_nat is_global_ipv4 (o ∷ os) local_ip local_port =
    let mapped = map (λ (x : Observation). x.mapped) (o ∷ os) in
    let remotes = map (λ (x : Observation). x.remote) (o ∷ os) in
    if is_direct is_global_ipv4 local_ip local_port mapped
    then report_of no_nat (some true)
    else if ltb (length (distinct remotes)) 2
    then report_of unknown_nat (preserves local_port mapped)
    else if length (distinct mapped) == 1
    then report_of endpoint_independent_mapping (preserves local_port mapped)
    else report_of symmetric_like_mapping (preserves local_port mapped)
