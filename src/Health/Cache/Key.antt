-- ===== src/Health/Cache/Key.antt =====
-- health.py: the signature holds all that a check reads.
use ge360_bridge.Base.{◌≡◌, refl, ap, ◌∙◌, sym, true, false, [], arith}
use ge360_bridge.Base.Text.{text_eq_iff}
use ge360_bridge.Core.Data.{Resource}
use ge360_bridge.Health.Check.{Probe, check_fresh}
use ge360_bridge.Health.Cache.{Signature, signature, signature_eq}

-- A resource of the signature.
abbrev blank : Signature → Resource
blank s = record {
  name = s.name;
  bridge_port = 0;
  target_host = s.target_host;
  target_port = s.target_port;
  allowed_devices = [];
  icon = [];
  description = [];
  protocol = s.protocol;
  health_url = s.health_url;
  timeout_ms = s.timeout_ms;
  systemd_unit = [];
  self_heal_enabled = false;
  denied_devices = [];
  enabled = s.enabled;
}

check_fresh-blank :
    (probe : Probe) (r : Resource) → check_fresh probe r ≡ check_fresh probe (blank (signature r))
unfolding check_fresh
check_fresh-blank probe r = refl

signature_eq_path : (s t : Signature) → signature_eq s t ≡ true → s ≡ t
unfolding signature_eq
signature_eq_path s t h =
    let name = (text_eq_iff s.name t.name).0 (ground arith) in
    let protocol = (text_eq_iff s.protocol t.protocol).0 (ground arith) in
    let host = (text_eq_iff s.target_host t.target_host).0 (ground arith) in
    let url = (text_eq_iff s.health_url t.health_url).0 (ground arith) in
    let port : s.target_port ≡ t.target_port = ground arith in
    let timeout : s.timeout_ms ≡ t.timeout_ms = ground arith in
    let enabled : s.enabled ≡ t.enabled = ground arith in
    λ i. record {
      name = name i;
      protocol = protocol i;
      target_host = host i;
      target_port = port i;
      health_url = url i;
      timeout_ms = timeout i;
      enabled = enabled i;
    }

-- Resources of equal signatures have the same health, whatever else they differ in: a result in the
-- cache that the signature lets through is one of the resource that is asked for.
pub signature_eq-check_fresh :
    (probe : Probe) (r t : Resource)
    → signature_eq (signature r) (signature t) ≡ true
    → check_fresh probe r ≡ check_fresh probe t
signature_eq-check_fresh probe r t h =
    check_fresh-blank probe r
    ∙ ap (λ s. check_fresh probe (blank s)) (signature_eq_path (signature r) (signature t) h)
    ∙ sym (check_fresh-blank probe t)
