-- ===== src/Core/Normalize/Stable.antt =====
-- A normalised resource, device or group is left alone by another normalisation, so what the
-- registries write is what they read back.
use ge360_bridge.Base.{
  ℕ, suc, ◌≡◌, refl, ap, ◌∙◌, Bool, true, false, ◌&&◌, not, Option, none, some, List, [], ◌∷◌,
  is_empty, take, take-take, arith,
}
use ge360_bridge.Base.Text.{Text, text, text_eq, text_eq_iff, contains, lower, or_else}
use ge360_bridge.Base.Text.Normal.{lower_idem}
use ge360_bridge.Base.Sorted.{sort_set_idem}
use ge360_bridge.Core.Data.{RawResource, or_default}
use ge360_bridge.Core.Validate.{resource_protocols, validate_timeout, validate_systemd_unit}
use ge360_bridge.Core.Validate.Units.{unit_stable}
use ge360_bridge.Core.Normalize.{text_or, get_or, one_of, normalize_resource, raw_resource}

pub text_or_idem : (o : Option Text) (d : Text) → text_or (some (text_or o d)) d ≡ text_or o d
text_or_idem none [] = refl
text_or_idem none (c ∷ s) = refl
text_or_idem (some []) [] = refl
text_or_idem (some []) (c ∷ s) = refl
text_or_idem (some (c ∷ s)) d = refl

lower-or_else : (s d : Text) → lower (or_else (lower s) d) ≡ or_else (lower s) (lower d)
lower-or_else [] d = unfold lower in refl
lower-or_else (c ∷ s) d = unfold lower in lower_idem (c ∷ s)

lower_or_idem :
    (o : Option Text) (c : ℕ) (s : Text)
    → let d : Text = c ∷ s in lower (text_or (some (lower (text_or o d))) d) ≡ lower (text_or o d)
lower_or_idem none c s = unfold lower in lower_idem (c ∷ s)
lower_or_idem (some []) c s = unfold lower in lower_idem (c ∷ s)
lower_or_idem (some (x ∷ t)) c s = unfold lower in lower_idem (x ∷ t)

take_or_idem :
    (n : ℕ) (o : Option Text) (c : ℕ) (s : Text)
    → let d : Text = c ∷ s in
      take (suc n) (text_or (some (take (suc n) (text_or o d))) d) ≡ take (suc n) (text_or o d)
take_or_idem n none c s = take-take (suc n) (c ∷ s)
take_or_idem n (some []) c s = take-take (suc n) (c ∷ s)
take_or_idem n (some (x ∷ t)) c s = take-take (suc n) (x ∷ t)

pub or_else-nil : (s : Text) → or_else s [] ≡ s
or_else-nil [] = refl
or_else-nil (c ∷ s) = refl

-- A choice among lower-case texts, made again, is the same choice.
module _ (allowed : List Text) (c : ℕ) (s : Text)
    (plain : (v : Text) → contains allowed v ≡ true → lower (or_else v (c ∷ s)) ≡ v)
    (has_default : contains allowed (c ∷ s) ≡ true) where
  one_of-contains : (v : Text) → contains allowed (one_of allowed (c ∷ s) v) ≡ true
  one_of-contains v = ground (arith, has_default)

  one_of_idem :
      (v : Text)
      → one_of allowed (c ∷ s) (lower (or_else (one_of allowed (c ∷ s) v) (c ∷ s)))
        ≡ one_of allowed (c ∷ s) v
  one_of_idem v =
      let w = one_of allowed (c ∷ s) v in
      let h = one_of-contains v in ap (one_of allowed (c ∷ s)) (plain w h) ∙ rw h refl

protocol_plain :
    (v : Text) → contains resource_protocols v ≡ true → lower (or_else v (text "tcp")) ≡ v
unfolding contains lower
protocol_plain v h =
    ground
      (arith, text_eq_iff (text "tcp") v, text_eq_iff (text "http") v, text_eq_iff (text "https") v)

timeout_stable :
    (ms : ℕ)
    → or_default (validate_timeout (or_default (validate_timeout ms) 2000)) 2000
      ≡ or_default (validate_timeout ms) 2000
unfolding validate_timeout
timeout_stable ms = ground arith

pub take_nil_idem :
    (o : Option Text)
    → take 500 (text_or (some (take 500 (text_or o []))) []) ≡ take 500 (text_or o [])
take_nil_idem o =
    ap (take 500) (or_else-nil (take 500 (text_or o []))) ∙ take-take 500 (text_or o [])

protocol_stable :
    (v : Text)
    → one_of resource_protocols
        (text "tcp")
        (lower (or_else (one_of resource_protocols (text "tcp") v) (text "tcp")))
      ≡ one_of resource_protocols (text "tcp") v
unfolding contains
protocol_stable =
    one_of_idem resource_protocols 116 (text "cp") protocol_plain (unfold text_eq in refl)

heal_stable :
    (b : Bool) (u : Text)
    → let v = or_default (validate_systemd_unit u) [] in
      let w = or_default (validate_systemd_unit v) [] in
      ((b && not (is_empty v)) && not (is_empty w)) ≡ (b && not (is_empty v))
heal_stable b u = rw (unit_stable u) (ground arith)

-- Normalising twice is normalising once.
pub normalize_resource_idem :
    (r : RawResource)
    → normalize_resource (raw_resource (normalize_resource r)) ≡ normalize_resource r
unfolding normalize_resource
normalize_resource_idem r = λ i. record {
  name = text_or_idem r.name [] i;
  bridge_port = get_or r.bridge_port (get_or r.listen_port 0);
  target_host = lower_or_idem r.target_host 49 (text "27.0.0.1") i;
  target_port = get_or r.target_port 0;
  allowed_devices = sort_set_idem (get_or r.allowed_devices []) i;
  icon = take_or_idem 63 r.icon 115 (text "erver") i;
  description = take_nil_idem r.description i;
  protocol = protocol_stable (lower (text_or r.protocol (text "tcp"))) i;
  health_url = take_nil_idem r.health_url i;
  timeout_ms = timeout_stable (get_or r.timeout_ms 2000) i;
  systemd_unit = unit_stable (get_or r.systemd_unit []) i;
  self_heal_enabled = heal_stable (get_or r.self_heal_enabled false) (get_or r.systemd_unit []) i;
  denied_devices = sort_set_idem (get_or r.denied_devices []) i;
  enabled = get_or r.enabled true;
}
