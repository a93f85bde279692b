-- ===== src/Stun/Tests.antt =====
-- nat_discovery.py: the theorems on an answer for 198.51.100.7, port 40000.
use ge360_bridge.Base.{ℕ, ◌≡◌, refl, if◌then◌else◌, false, none, some, List, [], ◌∷◌, ◌++◌, arith}
use ge360_bridge.Base.Text.{Text, text, text_eq}
use ge360_bridge.Core.Data.{ok, err, stun_truncated}
use ge360_bridge.Stun.Message.{Bytes, parse_stun_response, cookie_bytes}
use ge360_bridge.Stun.Total.{IsHandled, parse_stun_response-IsHandled}
use ge360_bridge.Stun.Mapping.{
  Endpoint, Observation, endpoint_independent_mapping, symmetric_like_mapping, is_direct,
  classify_nat,
}
use ge360_bridge.Stun.Mapping.Described.{classify_nat_lem}
use ge360_bridge.Stun.Probe.{Network, probe_stun_servers}
use ge360_bridge.Stun.Probe.Unique.{
  IsUnique, probe_stun_servers-IsUnique, is_unknown, probe_stun_servers_classified,
}
use ge360_bridge.Stun.Answer.{answer_with, xor_mapped, parse_stun_response_answer}

abbrev sent : Bytes
sent = 1 ∷ 2 ∷ 3 ∷ 4 ∷ 5 ∷ 6 ∷ 7 ∷ 8 ∷ 9 ∷ 10 ∷ 11 ∷ 12 ∷ []

-- The only attribute claims more bytes than there are.
abbrev cut_short : Bytes
cut_short = (1 ∷ 1 ∷ 0 ∷ 8 ∷ []) ++ cookie_bytes ++ sent ++ (0 ∷ 1 ∷ 0 ∷ 8 ∷ 0 ∷ 1 ∷ 2 ∷ 3 ∷ [])

cut_short_refused : parse_stun_response cut_short sent ≡ err stun_truncated
unfolding parse_stun_response text_eq
cut_short_refused = refl

parse_stun_response-IsHandled_example : IsHandled (parse_stun_response cut_short sent)
parse_stun_response-IsHandled_example = parse_stun_response-IsHandled cut_short sent

parse_stun_response_answer_example :
    parse_stun_response (answer_with sent (xor_mapped 198 51 100 7 40000)) sent
    ≡ ok (record {
      mapped = record { packed = 198 ∷ 51 ∷ 100 ∷ 7 ∷ []; port = 40000 };
      response_origin = none;
      other_address = none;
    })
parse_stun_response_answer_example =
    parse_stun_response_answer 1 2 3 4 5 6 7 8 9 10 11 12 198 51 100 7 40000 (omega arith)
      (omega arith) (omega arith) (omega arith) (omega arith)

abbrev seen : Text → ℕ → Observation
seen server port = record { remote = (server, 3478); mapped = (text "198.51.100.7", port) }

-- Two servers see different ports.
symmetric :
    (classify_nat
      (λ ip. false)
      (seen (text "a") 40000 ∷ seen (text "b") 40001 ∷ [])
      (some (text "10.0.0.2"))
      (some 40000)).nat_type
    ≡ symmetric_like_mapping
unfolding classify_nat text_eq
symmetric = refl

abbrev agreeing : List Observation
agreeing = seen (text "a") 40000 ∷ seen (text "b") 40000 ∷ []

classify_nat_lem_example :
    (classify_nat (λ ip. false) agreeing none none).nat_type ≡ endpoint_independent_mapping
unfolding is_direct text_eq
classify_nat_lem_example =
    classify_nat_lem (λ ip. false) (seen (text "a") 40000) (seen (text "b") 40000 ∷ []) none none

-- Both names have the address of `a` first; only the last server has another.
abbrev network : Network
network = record {
  resolver = λ host port. some (
      (text "192.0.2.1", port)
      ∷ (if text_eq host (text "a") then text "192.0.2.1" else text "192.0.2.2", port)
      ∷ []);
  exchange = λ remote change.
      ok (record { mapped = (text "198.51.100.7", 40000); other_address = none; source = remote });
}

abbrev asked : List Endpoint
asked = (text "a", 3478) ∷ (text "b", 3478) ∷ []

abbrev observed : Text → Observation
observed ip = record { remote = (ip, 3478); mapped = (text "198.51.100.7", 40000) }

asked-observed :
    (probe_stun_servers network asked).observations
    ≡ observed (text "192.0.2.1") ∷ observed (text "192.0.2.2") ∷ []
unfolding probe_stun_servers text_eq
asked-observed = refl

probe_stun_servers-IsUnique_example : IsUnique (probe_stun_servers network asked).observations
probe_stun_servers-IsUnique_example = probe_stun_servers-IsUnique network asked

probe_stun_servers_classified_example :
    is_unknown
      (classify_nat
        (λ ip. false)
        (probe_stun_servers network asked).observations
        none
        none).nat_type
    ≡ false
probe_stun_servers_classified_example =
    probe_stun_servers_classified network asked (λ ip. false) none none
      (observed (text "192.0.2.1")) (observed (text "192.0.2.2")) [] asked-observed
