-- ===== src/MultiServer/Catalog/Distinct.antt =====
-- multi_server.py: no two resources of a catalog have one id.
use mathlib.Core.Path.{subst}
use ge360_bridge.Base.{
  ℕ, ◌==◌, ◌≡◌, refl, sym, ap, ◌∙◌, ◌&&◌, true, false, Option, none, some, List, [], ◌∷◌, ◌++◌, map,
  all, All, arith, both_branches, &&-true, ||-false, length, leb,
}
use ge360_bridge.Base.Text.{Text, text, text_eq, contains, starts_with}
use ge360_bridge.Base.Text.Members.{contains-append}
use ge360_bridge.Base.Text.Split.{IsFree}
use ge360_bridge.Base.Dict.{lookup}
use ge360_bridge.Core.Data.{Result, ok, err, ok-inj, guarded, >>=-eq-ok, Resource}
use ge360_bridge.Core.Store.{has_duplicates}
use ge360_bridge.MultiServer.Servers.{
  Server, Registry, list_servers, is_server_id, is_id_rest, is_id_char, is_lower_alnum,
  validate_control_url, validate_server_token, validate_fingerprint,
}
use ge360_bridge.MultiServer.Servers.Valid.{list_servers-valid}
use ge360_bridge.MultiServer.Snapshot.{Remote, RawSnapshot, Snapshot, sanitize_agent_snapshot}
use ge360_bridge.MultiServer.Snapshot.Sound.{names_of, snapshot_names}
use ge360_bridge.MultiServer.Catalog.{
  CatalogResource, ServerEntry, Catalog, Network, resource_id_of, local_resource, remote_resource,
  remote_resources, snapshot_of, server_part, merge_servers, build_catalog, fetch_server_snapshot,
}

-- No colon.
abbrev pub IsColonFree : Text → Type 0
IsColonFree = IsFree (λ c. c == b':')

id_chars-IsColonFree : (s : Text) → all is_id_char s ≡ true → IsColonFree s
id_chars-IsColonFree [] h = refl
id_chars-IsColonFree (c ∷ s) h =
    let (a, b) = &&-true (is_id_char c) (all is_id_char s) h in
    rw (id_chars-IsColonFree s b) (ground arith)

-- Two ids of resources are equal exactly where the servers and the names are.
id_of-eq :
    (a b n m : Text)
    → IsColonFree a
    → IsColonFree b
    → text_eq (resource_id_of a n) (resource_id_of b m) ≡ (text_eq a b && text_eq n m)
unfolding text_eq
id_of-eq [] [] n m f g = refl
id_of-eq [] (d ∷ b) n m f g = ground arith
id_of-eq (c ∷ a) [] n m f g = ground arith
id_of-eq (c ∷ a) (d ∷ b) n m f g = ground (arith, id_of-eq a b n m)

abbrev pub ids_of : List CatalogResource → List Text
ids_of = map (λ (x : CatalogResource). x.resource_id)

-- The ids of the resources of one server.
abbrev block : Text → List Remote → List Text
block a [] = []
block a (x ∷ xs) = resource_id_of a x.name ∷ block a xs

ids_of_local :
    (a : Text) (registered : List Resource) (xs : List Remote)
    → ids_of (map (local_resource a registered) xs) ≡ block a xs
ids_of_local a registered [] = refl
ids_of_local a registered (x ∷ xs) =
    ap (λ t. resource_id_of a x.name ∷ t) (ids_of_local a registered xs)

ids_of_remote :
    (s : Server) (xs : List Remote) → ids_of (map (remote_resource s) xs) ≡ block s.server_id xs
ids_of_remote s [] = refl
ids_of_remote s (x ∷ xs) = ap (λ t. resource_id_of s.server_id x.name ∷ t) (ids_of_remote s xs)

contains-block :
    (a b k : Text) (xs : List Remote)
    → IsColonFree a
    → IsColonFree b
    → contains (block a xs) (resource_id_of b k) ≡ (text_eq a b && contains (names_of xs) k)
unfolding contains
contains-block a b k [] f g = ground arith
contains-block a b k (x ∷ xs) f g = ground (arith, id_of-eq a b x.name k, contains-block a b k xs)

-- One more server: its ids differ from one another and from those that come after.
block-append :
    (a : Text) (xs : List Remote) (ys : List Text)
    → IsColonFree a
    → has_duplicates (names_of xs) ≡ false
    → has_duplicates ys ≡ false
    → ((k : Text) → contains ys (resource_id_of a k) ≡ false)
    → has_duplicates (block a xs ++ ys) ≡ false
unfolding has_duplicates
block-append a [] ys f d e n = e
block-append a (x ∷ xs) ys f d e n =
    let (u, v) = ||-false (contains (names_of xs) x.name) (has_duplicates (names_of xs)) d in
    rw
      (
        contains-append (resource_id_of a x.name) (block a xs) ys,
        contains-block a a x.name xs f f,
        u,
        n x.name,
        block-append a xs ys f v e n,
      )
      (ground arith)

id_rest-IsColonFree : (e : ℕ) (s : Text) → is_id_rest (e ∷ s) ≡ true → IsColonFree (e ∷ s)
id_rest-IsColonFree e s h =
    let (w, z) = &&-true _ (all is_id_char s) h in
    let (x, y) = &&-true _ (leb (length s) 63) w in
    let (u, v) = &&-true (is_lower_alnum e) (leb 2 (length s)) x in
    rw (id_chars-IsColonFree s z) (ground arith)

pub server_id-IsColonFree : (s : Text) → is_server_id s ≡ true → IsColonFree s
unfolding is_server_id starts_with
server_id-IsColonFree [] h = refl
server_id-IsColonFree (a ∷ []) h = absurd (ground arith)
server_id-IsColonFree (a ∷ b ∷ []) h = absurd (ground arith)
server_id-IsColonFree (a ∷ b ∷ c ∷ []) h = absurd (ground arith)
server_id-IsColonFree (a ∷ b ∷ c ∷ d ∷ []) h = absurd (ground arith)
server_id-IsColonFree (a ∷ b ∷ c ∷ d ∷ e ∷ s) h =
    let (u, v) =
      &&-true (a == b's' && (b == b'r' && (c == b'v' && (d == b'_' && true)))) (is_id_rest (e ∷ s))
        h in
    let rest = id_rest-IsColonFree e s v in ground arith

ids_of-append : (xs ys : List CatalogResource) → ids_of (xs ++ ys) ≡ ids_of xs ++ ids_of ys
ids_of-append [] ys = refl
ids_of-append (x ∷ xs) ys = ap (λ t. x.resource_id ∷ t) (ids_of-append xs ys)

abbrev pub server_ids : List Server → List Text
server_ids = map (λ (x : Server). x.server_id)

-- Every id is that of a server.
abbrev pub AreServers : List Server → Type 0
AreServers = All (λ (x : Server). is_server_id x.server_id ≡ true)

module _ (net : Network) (supplied : List (Text × Option RawSnapshot)) where
  snapshot_of_names :
      (given : Option (Option RawSnapshot)) (x : Server) {s : Snapshot}
      → snapshot_of net given x ≡ ok s
      → has_duplicates (names_of s.resources) ≡ false
  unfolding snapshot_of fetch_server_snapshot
  snapshot_of_names (some given) x h = snapshot_names net.ip_address given h
  snapshot_of_names none x h =
      let (u, h1) = guarded x.enabled _ _ h in
      let (base, e1, h2) = >>=-eq-ok (validate_control_url net.lib x.control_url) _ h1 in
      let (token, e2, h3) = >>=-eq-ok (validate_server_token x.token) _ h2 in
      let (pin, e3, h4) = >>=-eq-ok (validate_fingerprint x.tls_cert_sha256) _ h3 in
      let (root, e4, h5) =
        >>=-eq-ok (net.request (base ++ text "/v1/control/snapshot") token pin)
          (sanitize_agent_snapshot net.ip_address) h4 in
      snapshot_names net.ip_address root h5

  -- The resources that a server adds are a block with distinct names, which may be empty.
  record IsBlock (a : Text) (rs : List CatalogResource) : Type 0 where
    remotes : List Remote
    ids : ids_of rs ≡ block a remotes
    distinct : has_duplicates (names_of remotes) ≡ false

  found-IsBlock :
      (x : Server) (found : Result Snapshot)
      → ((s : Snapshot) → found ≡ ok s → has_duplicates (names_of s.resources) ≡ false)
      → IsBlock x.server_id (remote_resources x found)
  unfolding has_duplicates
  found-IsBlock x (err e) h = record { remotes = []; ids = refl; distinct = refl }
  found-IsBlock x (ok s) h = record {
    remotes = s.resources;
    ids = ids_of_remote x s.resources;
    distinct = h s refl;
  }

  part-IsBlock : (x : Server) → IsBlock x.server_id (server_part net supplied x).1
  unfolding server_part has_duplicates
  part-IsBlock x =
      let found = snapshot_of net (lookup x.server_id supplied) x in
      both_branches (λ (y : ServerEntry × List CatalogResource). IsBlock x.server_id y.1) x.enabled
        (λ e. found-IsBlock x found (λ s q. snapshot_of_names (lookup x.server_id supplied) x q))
        (λ e. record { remotes = []; ids = refl; distinct = refl })

  -- The ids that the registered servers add.
  merged_ids :
      (xs : List Server)
      → AreServers xs
      → has_duplicates (server_ids xs) ≡ false
      → (has_duplicates (ids_of (merge_servers net supplied xs).1) ≡ false)
        × ((b k : Text)
            → IsColonFree b
            → contains (server_ids xs) b ≡ false
            → contains (ids_of (merge_servers net supplied xs).1) (resource_id_of b k) ≡ false)
  unfolding merge_servers has_duplicates contains
  merged_ids [] a d = (refl, λ b k f n. refl)
  merged_ids (x ∷ xs) a d =
      let (new, rest) =
        ||-false (contains (server_ids xs) x.server_id) (has_duplicates (server_ids xs)) d in
      let (distinct, apart) = merged_ids xs a.1 rest in
      let part = part-IsBlock x in
      let free = server_id-IsColonFree x.server_id a.0 in
      let later = (merge_servers net supplied xs).1 in
      let same : ids_of ((server_part net supplied x).1 ++ later)
          ≡ block x.server_id part.remotes ++ ids_of later =
        ids_of-append (server_part net supplied x).1 later ∙ ap (λ t. t ++ ids_of later) part.ids in
      (
        ap has_duplicates same
            ∙ block-append x.server_id part.remotes (ids_of later) free part.distinct distinct
                (λ k. apart x.server_id k free new),
        λ b k f n.
            let (u, v) = ||-false (text_eq x.server_id b) (contains (server_ids xs) b) n in
            ap (λ t. contains t (resource_id_of b k)) same
            ∙ contains-append (resource_id_of b k) (block x.server_id part.remotes) (ids_of later)
            ∙ rw (contains-block x.server_id b k part.remotes free f, u) (apart b k f v),
      )

-- In a catalog that is built no two resources have one id, where the id of this server is a valid
-- one and differs from those of the registered servers, which differ from one another.
pub build_catalog_ids :
    (net : Network) (now local_id : Text) (local : Option RawSnapshot) (registered : List Resource)
    (supplied : List (Text × Option RawSnapshot)) (s : Registry) {servers : List Server}
    {c : Catalog}
    → list_servers net.lib now s ≡ ok servers
    → is_server_id local_id ≡ true
    → has_duplicates (local_id ∷ server_ids servers) ≡ false
    → build_catalog net local_id local registered supplied (list_servers net.lib now s) ≡ ok c
    → has_duplicates (ids_of c.resources) ≡ false
unfolding build_catalog has_duplicates
build_catalog_ids net now local_id local registered supplied s {servers} l valid d h =
    let (snapshot, e, h1) = >>=-eq-ok (sanitize_agent_snapshot net.ip_address local) _ h in
    let (found, f, h2) = >>=-eq-ok (list_servers net.lib now s) _ h1 in
    let same : found ≡ servers = ok-inj (sym f ∙ l) in
    let (new, rest) =
      ||-false (contains (server_ids servers) local_id) (has_duplicates (server_ids servers)) d in
    let free = server_id-IsColonFree local_id valid in
    let (distinct, apart) =
      merged_ids net supplied servers (list_servers-valid net.lib now s l) rest in
    let mine = map (local_resource local_id registered) snapshot.resources in
    let later = (merge_servers net supplied servers).1 in
    subst (λ (x : Catalog). has_duplicates (ids_of x.resources) ≡ false) (ok-inj h2)
      (subst
        (λ (xs : List Server).
          has_duplicates (ids_of (mine ++ (merge_servers net supplied xs).1)) ≡ false)
        (sym same)
        (ap has_duplicates (
            ids_of-append mine later
            ∙ ap (λ t. t ++ ids_of later) (ids_of_local local_id registered snapshot.resources))
          ∙ block-append local_id snapshot.resources (ids_of later) free
              (snapshot_names net.ip_address local e) distinct (λ k. apart local_id k free new)))
