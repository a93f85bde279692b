-- ===== src/Stun/Probe/Unique.antt =====
-- nat_discovery.py: no remote is observed twice.
use ge360_bridge.Base.{
  ℕ, ◌≡◌, ◌∙◌, refl, ap, inl, inr, Bool, true, false, Bool-cases, Option, none, some, List, [], ◌∷◌,
  All, all, map, arith, both_branches, both_options, if◌then◌else◌,
}
use mathlib.Core.Path.{subst}
use ge360_bridge.Base.Text.{Text, text_eq_refl}
use ge360_bridge.Core.Data.{both_results}
use ge360_bridge.Stun.Mapping.{
  Endpoint, same_endpoint, Observation, NatType, unknown_nat, no_nat, endpoint_independent_mapping,
  symmetric_like_mapping, classify_nat,
}
use ge360_bridge.Stun.Mapping.Described.{same_endpoint_path, classify_nat_lem}
use ge360_bridge.Stun.Probe.{
  Network, Probed, member, Found, prepend, try_remotes, probe_server, probe_all, probe_stun_servers,
  resolve_ipv4,
}

-- The observation, if there is one, is of a remote that was not seen before and is seen now.
abbrev IsNew : List Endpoint → Option Found → List Endpoint → Type 0
IsNew seen none after = Unit
IsNew seen (some f) after = (member seen f.0.remote ≡ false) × (member after f.0.remote ≡ true)

-- What was seen stays seen.
abbrev IsWider : List Endpoint → List Endpoint → Type 0
IsWider seen after = (a : Endpoint) → member seen a ≡ true → member after a ≡ true

abbrev IsFresh : List Endpoint → Probed → Type 0
IsFresh seen p = IsNew seen p.found p.seen × IsWider seen p.seen

same_endpoint_refl : (a : Endpoint) → same_endpoint a a ≡ true
same_endpoint_refl a = ground (arith, text_eq_refl a.0)

member_cons :
    (x : Endpoint) (xs : List Endpoint) (a : Endpoint)
    → member xs a ≡ true
    → member (x ∷ xs) a ≡ true
member_cons x xs a h = ground arith

not_member_cons :
    (x : Endpoint) (xs : List Endpoint) (a : Endpoint)
    → member (x ∷ xs) a ≡ false
    → member xs a ≡ false
not_member_cons x xs a h = ground arith

earlier_seen :
    (x : Endpoint) (seen : List Endpoint) (found : Option Found) (after : List Endpoint)
    → IsNew (x ∷ seen) found after
    → IsNew seen found after
earlier_seen x seen none after h = tt
earlier_seen x seen (some f) after (h, g) = (not_member_cons x seen f.0.remote h, g)

try_remotes-IsFresh :
    (net : Network) (remotes seen : List Endpoint) → IsFresh seen (try_remotes net remotes seen)
unfolding try_remotes
try_remotes-IsFresh net [] seen = (tt, λ a h. h)
try_remotes-IsFresh net (remote ∷ rest) seen =
    both_branches (IsFresh seen) (member seen remote) (λ e. try_remotes-IsFresh net rest seen)
      (λ e.
        both_results (IsFresh seen) (net.exchange remote none)
          (λ reply t.
            ((e, ground (arith, same_endpoint_refl remote)), λ a h. member_cons remote seen a h))
          (λ why t.
            let (new, wider) = try_remotes-IsFresh net rest (remote ∷ seen) in
            (earlier_seen remote seen _ _ new, λ a h. wider a (member_cons remote seen a h))))

probe_server-IsFresh :
    (net : Network) (server : Endpoint) (seen : List Endpoint)
    → IsFresh seen (probe_server net server seen)
unfolding probe_server
probe_server-IsFresh net (host, port) seen =
    both_options (IsFresh seen) (resolve_ipv4 net host port) (λ e. (tt, λ a h. h))
      (λ remotes e. try_remotes-IsFresh net _ seen)

IsNewList : List Endpoint → List Observation → Type 0
IsNewList seen = All (λ o. member seen o.remote ≡ false)

-- No two of the observations have the same remote.
abbrev pub IsUnique : List Observation → Type 0
IsUnique [] = Unit
IsUnique (o ∷ os) = All (λ x. same_endpoint o.remote x.remote ≡ false) os × IsUnique os

earlier_seen_list :
    (seen after : List Endpoint) (os : List Observation)
    → IsWider seen after
    → IsNewList after os
    → IsNewList seen os
unfolding IsNewList
earlier_seen_list seen after [] wider h = tt
earlier_seen_list seen after (o ∷ os) wider (h, hs) =
    let old : member seen o.remote ≡ false = elim (Bool-cases (member seen o.remote)) [
      | inl e ↦ let later = wider o.remote e in ground arith
      | inr e ↦ e
    ] in
    (old, earlier_seen_list seen after os wider hs)

differs :
    (after : List Endpoint) (a b : Endpoint)
    → member after a ≡ true
    → member after b ≡ false
    → same_endpoint a b ≡ false
differs after a b ha hb = elim (Bool-cases (same_endpoint a b)) [
  | inl e ↦ let same = ap (member after) (same_endpoint_path a b e) in ground arith
  | inr e ↦ e
]

later_differ :
    (after : List Endpoint) (a : Endpoint) (os : List Observation)
    → member after a ≡ true
    → IsNewList after os
    → All (λ x. same_endpoint a x.remote ≡ false) os
unfolding IsNewList
later_differ after a [] ha h = tt
later_differ after a (o ∷ os) ha (h, hs) =
    (differs after a o.remote ha h, later_differ after a os ha hs)

abbrev observations_of : List Found → List Observation
observations_of = map (λ (f : Found). f.0)

prepend-IsUnique :
    (seen after : List Endpoint) (found : Option Found) (rest : List Found)
    → IsNew seen found after
    → IsWider seen after
    → IsNewList after (observations_of rest)
    → IsUnique (observations_of rest)
    → IsNewList seen (observations_of (prepend found rest))
      × IsUnique (observations_of (prepend found rest))
unfolding IsNewList
prepend-IsUnique seen after none rest new wider hs u =
    (earlier_seen_list seen after (observations_of rest) wider hs, u)
prepend-IsUnique seen after (some f) rest (old, now) wider hs u = (
  (old, earlier_seen_list seen after (observations_of rest) wider hs),
  (later_differ after f.0.remote (observations_of rest) now hs, u),
)

probe_all-IsUnique :
    (net : Network) (servers : List Endpoint) (seen : List Endpoint)
    → IsNewList seen (observations_of (probe_all net servers seen).0)
      × IsUnique (observations_of (probe_all net servers seen).0)
unfolding probe_all IsNewList
probe_all-IsUnique net [] seen = (tt, tt)
probe_all-IsUnique net (server ∷ servers) seen =
    let probed = probe_server net server seen in
    let (new, wider) = probe_server-IsFresh net server seen in
    let (hs, u) = probe_all-IsUnique net servers probed.seen in
    prepend-IsUnique seen probed.seen probed.found (probe_all net servers probed.seen).0 new wider
      hs u

-- However the network answers, no two observations of a probe are of the same remote.
pub probe_stun_servers-IsUnique :
    (net : Network) (servers : List Endpoint)
    → IsUnique (probe_stun_servers net servers).observations
unfolding probe_stun_servers
probe_stun_servers-IsUnique net servers = (probe_all-IsUnique net servers []).1

abbrev pub is_unknown : NatType → Bool
is_unknown unknown_nat = true
is_unknown no_nat = false
is_unknown endpoint_independent_mapping = false
is_unknown symmetric_like_mapping = false

unknown_choice :
    (direct few one : Bool)
    → few ≡ false
    → is_unknown (
        if direct
        then no_nat
        else if few
        then unknown_nat
        else if one
        then endpoint_independent_mapping
        else symmetric_like_mapping)
      ≡ false
unknown_choice true few one h = refl
unknown_choice false true one h = h
unknown_choice false false true h = refl
unknown_choice false false false h = refl

-- A probe that has two observations or more is classified: its type is never UNKNOWN, whatever the
-- addresses of this machine.
pub probe_stun_servers_classified :
    (net : Network) (servers : List Endpoint) (is_global_ipv4 : Text → Bool)
    (local_ip : Option Text) (local_port : Option ℕ) (o p : Observation) (os : List Observation)
    → (probe_stun_servers net servers).observations ≡ o ∷ p ∷ os
    → is_unknown
        (classify_nat is_global_ipv4
          (probe_stun_servers net servers).observations
          local_ip
          local_port).nat_type
      ≡ false
probe_stun_servers_classified net servers is_global_ipv4 local_ip local_port o p os e =
    let unique = subst IsUnique e (probe_stun_servers-IsUnique net servers) in
    let first : same_endpoint o.remote p.remote ≡ false = unique.0.0 in
    let two : all (λ (x : Observation). same_endpoint o.remote x.remote) (p ∷ os) ≡ false =
      rw first refl in
    ap (λ xs. is_unknown (classify_nat is_global_ipv4 xs local_ip local_port).nat_type) e
    ∙ ap is_unknown (classify_nat_lem is_global_ipv4 o (p ∷ os) local_ip local_port)
    ∙ unknown_choice _ _ _ two
