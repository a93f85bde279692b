-- ===== src/Base/Dict.antt =====
-- A dictionary with texts as keys, in the order of insertion.
use mathlib.Core.Path.{◌≡◌, refl, ap, subst}
use mathlib.Core.Logic.{◌⊎◌, inl, inr}
use mathlib.Core.Bool.{Bool, true, false}
use mathlib.Core.Option.{Option, none, some}
use mathlib.Core.List.{List, [], ◌∷◌, ◌++◌}
use native.Mathlib.Omega.{arith}
use ge360_bridge.Base.Tests.{if◌then◌else◌, both_branches}
use ge360_bridge.Base.Lists.{All}
use ge360_bridge.Base.Text.{Text, text_eq, text_eq_refl, contains}

module _ {V : Type 0} where
  -- `d.get(key)`
  unfoldable pub lookup : Text → List (Text × V) → Option V
  lookup key [] = none
  lookup key ((k, v) ∷ d) = if text_eq k key then some v else lookup key d

  abbrev pub keys : List (Text × V) → List Text
  keys [] = []
  keys ((k, v) ∷ d) = k ∷ keys d

  abbrev pub is_some : Option V → Bool
  is_some none = false
  is_some (some v) = true

  -- A key is there when it has a value.
  pub contains-keys :
      (key : Text) (d : List (Text × V)) → contains (keys d) key ≡ is_some (lookup key d)
  unfolding contains lookup
  contains-keys key [] = refl
  contains-keys key ((k, v) ∷ d) = ground (arith, contains-keys key d)

  -- A key that is put at the end is found there, if it is new.
  pub lookup-append :
      (key : Text) (k : Text) (v : V) (d : List (Text × V))
      → lookup key (d ++ (k, v) ∷ [])
        ≡ (if is_some (lookup key d) then lookup key d else if text_eq k key then some v else none)
  unfolding lookup
  lookup-append key k v [] = refl
  lookup-append key k v ((j, w) ∷ d) = ground (arith, lookup-append key k v d)

  -- `d[key] = v`
  unfoldable pub put : Text → V → List (Text × V) → List (Text × V)
  put key v [] = (key, v) ∷ []
  put key v ((k, w) ∷ d) =
      let rest = put key v d in if text_eq k key then (k, v) ∷ d else (k, w) ∷ rest

  -- `d.pop(key, None)`
  unfoldable pub drop_key : Text → List (Text × V) → List (Text × V)
  drop_key key [] = []
  drop_key key ((k, w) ∷ d) =
      let rest = drop_key key d in if text_eq k key then rest else (k, w) ∷ rest

  pub lookup-put : (key : Text) (v : V) (d : List (Text × V)) → lookup key (put key v d) ≡ some v
  unfolding lookup put
  lookup-put key v [] = ground (arith, text_eq_refl key)
  lookup-put key v ((k, w) ∷ d) = ground (arith, lookup-put key v d)

  pub All-put :
      (P : Text × V → Type 0) (key : Text) (v : V) (d : List (Text × V))
      → ((k : Text) → text_eq k key ≡ true → P (k, v))
      → All P d
      → All P (put key v d)
  unfolding put
  All-put P key v [] new h = (new key (text_eq_refl key), tt)
  All-put P key v ((k, w) ∷ d) new (h, hs) =
      both_branches (All P) (text_eq k key) (λ e. (new k e, hs))
        (λ e. (h, All-put P key v d new hs))

  pub All-drop_key :
      (P : Text × V → Type 0) (key : Text) (d : List (Text × V)) → All P d → All P (drop_key key d)
  unfolding drop_key
  All-drop_key P key [] h = h
  All-drop_key P key ((k, w) ∷ d) (h, hs) =
      both_branches (All P) (text_eq k key) (λ e. All-drop_key P key d hs)
        (λ e. (h, All-drop_key P key d hs))

  lookup_head :
      (b : Bool) (w v : V) (rest : Option V)
      → (if b then some w else rest) ≡ some v
      → ((b ≡ true) × (w ≡ v)) ⊎ (rest ≡ some v)
  lookup_head true w v rest e = inl (refl, ap (λ o. elim o [ none ↦ w | some x ↦ x ]) e)
  lookup_head false w v rest e = inr e

  pub lookup-All :
      (P : Text × V → Type 0) (key : Text) (v : V) (d : List (Text × V))
      → All P d
      → lookup key d ≡ some v
      → (k : Text) × (text_eq k key ≡ true) × P (k, v)
  unfolding lookup
  lookup-All P key v [] h e = ground arith
  lookup-All P key v ((k, w) ∷ d) (h, hs) e =
      elim (lookup_head (text_eq k key) w v (lookup key d) e) [
        | inl (t, p) ↦ (k, t, subst (λ x. P (k, x)) p h)
        | inr q ↦ lookup-All P key v d hs q
      ]
