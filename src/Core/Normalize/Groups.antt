-- ===== src/Core/Normalize/Groups.antt =====
-- A normalised group is left alone by another normalisation.
use ge360_bridge.Base.{◌≡◌, refl, ap, ◌∙◌, true, not, some, List, [], ◌∷◌, is_empty}
use ge360_bridge.Base.Text.{Text}
use ge360_bridge.Base.Sorted.Members.{sort_set-keep_idem}
use ge360_bridge.Core.Data.{RawGroup}
use ge360_bridge.Core.Normalize.{get_or, list_or, clean_set, normalize_group, raw_group}
use ge360_bridge.Core.Normalize.Stable.{text_or_idem, take_nil_idem}

list_or_same : (xs : List Text) → list_or (some xs) (some xs) ≡ xs
list_or_same [] = refl
list_or_same (x ∷ xs) = refl

clean_set_idem : (xs : List Text) → clean_set (clean_set xs) ≡ clean_set xs
clean_set_idem xs = sort_set-keep_idem (λ x. not (is_empty x)) xs

-- Normalising a group twice is normalising it once.
pub normalize_group_idem :
    (g : RawGroup) → normalize_group (raw_group (normalize_group g)) ≡ normalize_group g
unfolding normalize_group
normalize_group_idem g = λ i. record {
  name = text_or_idem g.name [] i;
  description = take_nil_idem g.description i;
  device_ids = clean_set_idem (get_or g.device_ids []) i;
  allowed_services =
      (ap clean_set (list_or_same (clean_set (list_or g.allowed_services g.allowed_resources)))
          ∙ clean_set_idem (list_or g.allowed_services g.allowed_resources))
        i;
  enabled = get_or g.enabled true;
}
