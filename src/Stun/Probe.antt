-- ===== src/Stun/Probe.antt =====
-- nat_discovery.py: `_resolve_ipv4` and `probe_stun_servers` without the texts of the errors. The
-- resolver and `_exchange` are arguments; as no remote is asked twice with one change request, an
-- exchange is a function of the two. `no_remote_endpoint` cannot occur, since the resolver's empty list
-- is an error before.
pub mod Unique
use ge360_bridge.Base.{
  ℕ, suc, ◌+◌, ◌==◌, ◌&&◌, ◌||◌, Bool, true, false, Option, none, some, List, [], ◌∷◌, ◌++◌, map,
  take, any, is_empty, if◌then◌else◌,
}
use ge360_bridge.Base.Text.{Text, text_eq}
use ge360_bridge.Core.Data.{Result, ok, err}
use ge360_bridge.Stun.Mapping.{Endpoint, same_endpoint, Observation}

-- What `_exchange` returns: the mapped address, the other address, and the source of the answer.
pub record Reply : Type 0 where
  pub mapped : Endpoint
  pub other_address : Option Endpoint
  pub source : Endpoint

-- The resolver gives `none` where it raises `OSError`.
pub record Network : Type 0 where
  pub resolver : Text → ℕ → Option (List Endpoint)
  pub exchange : Endpoint → Option ℕ → Result Reply

abbrev pub member : List Endpoint → Endpoint → Bool
member xs a = any (same_endpoint a) xs

-- The rows that are not in `out` yet, in their order.
unfoldable pub without_repeats : List Endpoint → List Endpoint → List Endpoint
unfolding text_eq
without_repeats [] out = out
without_repeats (x ∷ rows) out =
    without_repeats rows (if member out x then out else out ++ (x ∷ []))

-- `_resolve_ipv4`; no address is `none`, as an exception is.
unfoldable pub resolve_ipv4 : Network → Text → ℕ → Option (List Endpoint)
unfolding without_repeats
resolve_ipv4 net host port = elim (net.resolver host port) [
  | none ↦ none
  | some rows ↦ let out = without_repeats rows [] in if is_empty out then none else some out
]

-- What a server gives: an observation with its other address, the errors, and the seen remotes.
pub record Probed : Type 0 where
  pub found : Option (Observation × Option Endpoint)
  pub failures : ℕ
  pub seen : List Endpoint

-- The loop over the remotes of a server, which stops at the first answer.
unfoldable pub try_remotes : Network → List Endpoint → List Endpoint → Probed
unfolding text_eq
try_remotes net [] seen = record { found = none; failures = 0; seen = seen }
try_remotes net (remote ∷ rest) seen =
    let skipped = try_remotes net rest seen in
    let failed = try_remotes net rest (remote ∷ seen) in
    if member seen remote then skipped else elim (net.exchange remote none) [
      | ok reply ↦ record {
        found = some (record { remote = remote; mapped = reply.mapped }, reply.other_address);
        failures = 0;
        seen = remote ∷ seen;
      }
      | err why ↦ record failed { failures = suc failed.failures }
    ]

unfoldable pub probe_server : Network → Endpoint → List Endpoint → Probed
unfolding resolve_ipv4 try_remotes
probe_server net (host, port) seen = elim (resolve_ipv4 net host port) [
  | none ↦ record { found = none; failures = 1; seen = seen }
  | some remotes ↦ try_remotes net (take 2 remotes) seen
]

abbrev pub Found : Type 0
Found = Observation × Option Endpoint

abbrev pub prepend : Option Found → List Found → List Found
prepend none found = found
prepend (some f) found = f ∷ found

-- The loop over the servers: what was found, and the number of the errors.
unfoldable pub probe_all : Network → List Endpoint → List Endpoint → List Found × ℕ
unfolding probe_server
probe_all net [] seen = ([], 0)
probe_all net (server ∷ servers) seen =
    let probed = probe_server net server seen in
    let (found, failures) = probe_all net servers probed.seen in
    (prepend probed.found found, probed.failures + failures)

pub data Filtering : Type 0 where
  unknown_filtering endpoint_independent_filtering : Filtering

-- Whether the first server answers from another endpoint when it is asked to.
unfoldable pub filtering_of : Network → List Found → Filtering
unfolding text_eq
filtering_of net [] = unknown_filtering
filtering_of net ((o, none) ∷ found) = unknown_filtering
filtering_of net ((o, some other) ∷ found) =
    if same_endpoint other o.remote
    then unknown_filtering
    else elim (net.exchange o.remote (some 6)) [
      | ok reply ↦
          if same_endpoint reply.source o.remote
          then unknown_filtering
          else endpoint_independent_filtering
      | err why ↦ unknown_filtering
    ]

pub record ProbeReport : Type 0 where
  pub observations : List Observation
  pub failures : ℕ
  pub filtering : Filtering

-- `probe_stun_servers`
unfoldable pub probe_stun_servers : Network → List Endpoint → ProbeReport
unfolding probe_all filtering_of
probe_stun_servers net servers =
    let (found, failures) = probe_all net servers [] in
    record {
      observations = map (λ (f : Found). f.0) found;
      failures = failures;
      filtering = filtering_of net found;
    }
