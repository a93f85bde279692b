-- ===== src/MultiServer/Servers/Valid.antt =====
-- multi_server.py: the servers that the registry lists have valid ids.
use mathlib.Core.Path.{subst}
use ge360_bridge.Base.{◌≡◌, true, List, [], ◌∷◌, All}
use ge360_bridge.Base.Text.{Text, strip, lower}
use ge360_bridge.Core.Data.{ok, ok-inj, guarded, >>=-eq-ok, Stdlib}
use ge360_bridge.MultiServer.Servers.{
  Server, RawServer, Registry, is_server_id, validate_server_id, validate_server_name,
  validate_control_url, validate_fingerprint, validate_server_token, normalize_server,
  normalize_servers, list_servers, or_none_left,
}

pub validate_server_id-valid :
    (value : Text) {v : Text} → validate_server_id value ≡ ok v → is_server_id v ≡ true
unfolding validate_server_id
validate_server_id-valid value h =
    let (valid, h1) = guarded (is_server_id (lower (strip value))) _ _ h in
    subst (λ (v : Text). is_server_id v ≡ true) (ok-inj h1) valid

module _ (lib : Stdlib) (now : Text) where
  pub normalize_server-valid :
      (raw : RawServer) {x : Server}
      → normalize_server lib now raw ≡ ok x
      → is_server_id x.server_id ≡ true
  unfolding normalize_server
  normalize_server-valid raw h =
      let (id, e, h1) = >>=-eq-ok (validate_server_id raw.server_id) _ h in
      let (name, e1, h2) = >>=-eq-ok (validate_server_name raw.name) _ h1 in
      let (url, e2, h3) = >>=-eq-ok (validate_control_url lib raw.control_url) _ h2 in
      let (pin, e3, h4) = >>=-eq-ok (validate_fingerprint raw.tls_cert_sha256) _ h3 in
      let (token, e4, h5) = >>=-eq-ok (validate_server_token raw.token) _ h4 in
      subst (λ (x : Server). is_server_id x.server_id ≡ true) (ok-inj h5)
        (validate_server_id-valid raw.server_id e)

  pub normalize_servers-valid :
      (raws : List RawServer) {xs : List Server}
      → normalize_servers lib now raws ≡ ok xs
      → All (λ (x : Server). is_server_id x.server_id ≡ true) xs
  unfolding normalize_servers
  normalize_servers-valid [] h =
      subst (All (λ (x : Server). is_server_id x.server_id ≡ true)) (ok-inj h) tt
  normalize_servers-valid (raw ∷ raws) h =
      let (x, e, h1) = >>=-eq-ok (normalize_server lib now raw) _ h in
      let (xs, f, h2) = >>=-eq-ok (normalize_servers lib now raws) (λ xs. ok (x ∷ xs)) h1 in
      subst (All (λ (x : Server). is_server_id x.server_id ≡ true)) (ok-inj h2)
        (normalize_server-valid raw e, normalize_servers-valid raws f)

  pub list_servers-valid :
      (s : Registry) {xs : List Server}
      → list_servers lib now s ≡ ok xs
      → All (λ (x : Server). is_server_id x.server_id ≡ true) xs
  unfolding list_servers
  list_servers-valid s h = normalize_servers-valid (or_none_left s.servers_file) h
