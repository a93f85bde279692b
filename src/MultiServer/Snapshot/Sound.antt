-- ===== src/MultiServer/Snapshot/Sound.antt =====
-- multi_server.py: what holds of a snapshot that was accepted.
use mathlib.Core.Path.{subst}
use ge360_bridge.Base.{
  ◌≡◌, refl, ap, inl, inr, true, false, Bool-cases, Option, none, some, List, [], ◌∷◌, map, length,
  leb, arith,
}
use ge360_bridge.Base.Text.{Text, text, or_else, text_eq, text_eq_iff, text_eq_refl, contains}
use ge360_bridge.Core.Data.{ok, ok-inj, guarded, passed, >>=-eq-ok}
use ge360_bridge.Core.Store.{has_duplicates}
use ge360_bridge.Core.Validate.{
  validate_name, validate_resource_protocol, validate_port, validate_resource_icon,
}
use ge360_bridge.MultiServer.Snapshot.{
  Address, RawRemote, Remote, RawSnapshot, Snapshot, sanitize_resource, sanitize_resources,
  resources_of, sanitize_agent_snapshot, max_resources_per_server,
}

abbrev pub names_of : List Remote → List Text
names_of = map (λ (x : Remote). x.name)

-- The name of an accepted resource was not seen before.
new_name :
    (names : List Text) (raw : Option RawRemote) {x : Remote}
    → sanitize_resource names raw ≡ ok x
    → contains names x.name ≡ false
unfolding sanitize_resource
new_name names none h = absurd (ground arith)
new_name names (some raw) h =
    let (name, e, h1) = >>=-eq-ok (validate_name raw.name) _ h in
    let (new, h2) = passed (contains names name) _ _ h1 in
    let (protocol, e2, h3) =
      >>=-eq-ok (validate_resource_protocol (or_else raw.protocol (text "tcp"))) _ h2 in
    let (port, e3, h4) = >>=-eq-ok (validate_port raw.target_port) _ h3 in
    let (icon, e4, h5) =
      >>=-eq-ok (validate_resource_icon (or_else raw.icon (text "server"))) _ h4 in
    subst (λ (x : Remote). contains names x.name ≡ false) (ok-inj h5) new

-- The names of what is accepted differ from those seen before, and from one another.
sanitize_resources-names :
    (names : List Text) (raws : List (Option RawRemote)) {xs : List Remote}
    → sanitize_resources names raws ≡ ok xs
    → (has_duplicates (names_of xs) ≡ false)
      × ((k : Text) → contains names k ≡ true → contains (names_of xs) k ≡ false)
unfolding sanitize_resources has_duplicates contains
sanitize_resources-names names [] h =
    subst
      (λ (xs : List Remote).
        (has_duplicates (names_of xs) ≡ false)
        × ((k : Text) → contains names k ≡ true → contains (names_of xs) k ≡ false))
      (ok-inj h) (refl, λ k c. refl)
sanitize_resources-names names (raw ∷ raws) h =
    let (x, e, h1) = >>=-eq-ok (sanitize_resource names raw) _ h in
    let (xs, f, h2) = >>=-eq-ok (sanitize_resources (x.name ∷ names) raws) (λ xs. ok (x ∷ xs)) h1 in
    let (distinct, apart) = sanitize_resources-names (x.name ∷ names) raws f in
    let new = new_name names raw e in
    subst
      (λ (xs : List Remote).
        (has_duplicates (names_of xs) ≡ false)
        × ((k : Text) → contains names k ≡ true → contains (names_of xs) k ≡ false))
      (ok-inj h2)
      (
        rw (apart x.name (rw (text_eq_refl x.name) refl)) distinct,
        λ k c. elim (Bool-cases (text_eq x.name k)) [
          | inl s ↦ absurd (let same = ap (contains names) ((text_eq_iff x.name k).0 s) in cc)
          | inr s ↦ rw s (apart k (rw (s, c) refl))
        ],
      )

listed_names :
    (ip : Text → Option Address) (raws : Option (List (Option RawRemote))) {xs : List Remote}
    → resources_of ip raws ≡ ok xs
    → has_duplicates (names_of xs) ≡ false
unfolding resources_of
listed_names ip none h = absurd (ground arith)
listed_names ip (some raws) h =
    (sanitize_resources-names [] raws
      (guarded (leb (length raws) max_resources_per_server) _ _ h).1).0

-- No two resources of an accepted snapshot have one name.
pub snapshot_names :
    (ip : Text → Option Address) (raw : Option RawSnapshot) {s : Snapshot}
    → sanitize_agent_snapshot ip raw ≡ ok s
    → has_duplicates (names_of s.resources) ≡ false
unfolding sanitize_agent_snapshot
snapshot_names ip none h = absurd (ground arith)
snapshot_names ip (some raw) h =
    let (xs, e, h1) = >>=-eq-ok (resources_of ip raw.resources) _ h in
    subst (λ (s : Snapshot). has_duplicates (names_of s.resources) ≡ false) (ok-inj h1)
      (listed_names ip raw.resources e)
