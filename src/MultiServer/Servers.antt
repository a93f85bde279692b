-- ===== src/MultiServer/Servers.antt =====
-- multi_server.py: the validators, `servers.json`, and the operations on it.
pub mod Valid
pub mod Steps
use ge360_bridge.Base.{
  ℕ, ◌==◌, not, ◌&&◌, ◌||◌, Bool, true, false, Option, none, some, List, [], ◌∷◌, ◌++◌, map, keep,
  find, update_first, all, length, take, drop, is_empty, ltb, leb, if◌then◌else◌,
}
use ge360_bridge.Base.Text.{
  Text, text, text_eq, contains, starts_with, strip, lower, or_else, is_digit, is_alnum, is_hex,
}
use ge360_bridge.Core.Data.{
  Result, ok, err, guard, ◌>>=◌, ◌>>◌, Stdlib, UrlParts, value_error, server_invalid_id,
  server_invalid_name, server_invalid_url, server_invalid_port, server_invalid_pin,
  server_invalid_token, server_too_many, server_duplicate, server_not_found,
}
use ge360_bridge.Core.Store.{Act, has_duplicates}
use ge360_bridge.Core.Validate.{is_name_char, validate_port}

abbrev pub max_servers : ℕ
max_servers = 64

pub record Server : Type 0 where
  pub server_id : Text
  pub name : Text
  pub control_url : Text
  pub tls_cert_sha256 : Text
  pub token : Text
  pub enabled : Bool
  pub notes : Text
  pub created_at : Text

-- An object of the file; a text that the JSON lacks is empty.
pub record RawServer : Type 0 where
  pub server_id : Text
  pub name : Text
  pub control_url : Text
  pub tls_cert_sha256 : Text
  pub token : Text
  pub enabled : Option Bool
  pub notes : Text
  pub created_at : Text

-- `[a-z0-9]`
abbrev pub is_lower_alnum : ℕ → Bool
is_lower_alnum c = is_digit c || leb b'a' c && leb c b'z'

-- `[a-z0-9_-]`
abbrev pub is_id_char : ℕ → Bool
is_id_char c = is_lower_alnum c || c == b'_' || c == b'-'

-- `[a-z0-9][a-z0-9_-]{2,63}`
abbrev pub is_id_rest : Text → Bool
is_id_rest [] = false
is_id_rest (c ∷ s) = is_lower_alnum c && leb 2 (length s) && leb (length s) 63 && all is_id_char s

-- `SERVER_ID_RE`, by `fullmatch`
unfoldable pub is_server_id : Text → Bool
unfolding starts_with
is_server_id s = starts_with s (text "srv_") && is_id_rest (drop 4 s)

-- `SERVER_ALIAS_RE`, by `fullmatch`
unfoldable pub is_server_alias : Text → Bool
is_server_alias [] = false
is_server_alias (c ∷ s) = is_alnum c && leb (length s) 63 && all is_name_char s

-- `SERVER_TOKEN_RE`, by `fullmatch`
unfoldable pub is_server_token : Text → Bool
is_server_token s =
    leb 32 (length s) && leb (length s) 256 && all (λ c. is_alnum c || c == b'_' || c == b'-') s

unfoldable pub validate_server_id : Text → Result Text
unfolding strip lower is_server_id
validate_server_id value = do
  guard (is_server_id (lower (strip value))) server_invalid_id
  ok (lower (strip value))

unfoldable pub validate_server_name : Text → Result Text
unfolding strip is_server_alias
validate_server_name value = do
  guard (is_server_alias (strip value)) server_invalid_name
  ok (strip value)

-- `s.rstrip("/")`
unfoldable pub rstrip_slash : Text → Text
rstrip_slash [] = []
rstrip_slash (c ∷ s) =
    let rest = rstrip_slash s in if is_empty rest && c == b'/' then [] else c ∷ rest

-- The port that the URL names, if it names one.
abbrev pub check_control_port : Option (Option ℕ) → Result (Unit {0})
check_control_port none = err server_invalid_port
check_control_port (some none) = ok tt
check_control_port (some (some p)) = validate_port p >> ok tt

unfoldable pub check_control_parts : Option UrlParts → Result (Unit {0})
unfolding text_eq
check_control_parts none = err value_error
check_control_parts (some u) = do
  guard
      (text_eq u.scheme (text "https")
        && not (is_empty u.hostname)
        && is_empty u.username
        && is_empty u.password
        && is_empty u.fragment)
      server_invalid_url
  check_control_port u.port

unfoldable pub validate_control_url : Stdlib → Text → Result Text
unfolding strip rstrip_slash check_control_parts
validate_control_url lib value = do
  let url = rstrip_slash (strip value)
  check_control_parts (lib.urlsplit url)
  ok url

unfoldable pub validate_fingerprint : Text → Result Text
unfolding strip lower
validate_fingerprint value = do
  let digest = lower (strip value)
  guard (length digest == 64 && all is_hex digest) server_invalid_pin
  ok digest

unfoldable pub validate_server_token : Text → Result Text
unfolding strip is_server_token
validate_server_token value = do
  guard (is_server_token (strip value)) server_invalid_token
  ok (strip value)

abbrev pub or_true : Option Bool → Bool
or_true none = true
or_true (some b) = b

-- The registry file; `none` is a file that does not exist.
pub record Registry : Type 0 where
  pub servers_file : Option (List RawServer)

abbrev pub raw_server : Server → RawServer
raw_server x = record {
  server_id = x.server_id;
  name = x.name;
  control_url = x.control_url;
  tls_cert_sha256 = x.tls_cert_sha256;
  token = x.token;
  enabled = some x.enabled;
  notes = x.notes;
  created_at = x.created_at;
}

abbrev pub or_none_left : Option (List RawServer) → List RawServer
or_none_left none = []
or_none_left (some xs) = xs

-- The checks of `save_servers` on what will be written.
unfoldable pub check_servers : List Server → Result (List Server)
unfolding has_duplicates
check_servers xs = do
  guard (leb (length xs) max_servers) server_too_many
  guard
      (not (
        has_duplicates (map (λ (x : Server). x.server_id) xs)
        || has_duplicates (map (λ (x : Server). x.name) xs)
        || has_duplicates (map (λ (x : Server). x.control_url) xs)))
      server_duplicate
  ok xs

abbrev pub is_server : Text → Server → Bool
is_server identifier x = text_eq x.server_id identifier || text_eq x.name identifier

module _ (lib : Stdlib) (now : Text) where
  -- `_normalize_server`
  unfoldable pub normalize_server : RawServer → Result Server
  unfolding validate_server_id validate_server_name validate_control_url validate_fingerprint
      validate_server_token
  normalize_server raw = do
    server_id ← validate_server_id raw.server_id
    name ← validate_server_name raw.name
    control_url ← validate_control_url lib raw.control_url
    tls_cert_sha256 ← validate_fingerprint raw.tls_cert_sha256
    token ← validate_server_token raw.token
    ok (record {
      server_id = server_id;
      name = name;
      control_url = control_url;
      tls_cert_sha256 = tls_cert_sha256;
      token = token;
      enabled = or_true raw.enabled;
      notes = take 500 raw.notes;
      created_at = or_else raw.created_at now;
    })

  unfoldable pub normalize_servers : List RawServer → Result (List Server)
  unfolding normalize_server
  normalize_servers [] = ok []
  normalize_servers (x ∷ xs) = do y ← normalize_server x; ys ← normalize_servers xs; ok (y ∷ ys)

  -- `list_servers(include_secrets=True)`
  unfoldable pub list_servers : Registry → Result (List Server)
  unfolding normalize_servers
  list_servers s = normalize_servers (or_none_left s.servers_file)

  unfoldable pub save_servers : List RawServer → Act Registry (List Server)
  unfolding normalize_servers check_servers
  save_servers items s = elim (normalize_servers items >>= check_servers) [
    | err e ↦ (err e, s)
    | ok xs ↦ (ok xs, record { servers_file = some (map raw_server xs) })
  ]

  unfoldable pub find_server : Text → Registry → Result (Option Server)
  unfolding list_servers text_eq
  find_server identifier s = do xs ← list_servers s; ok (find (is_server identifier) xs)

  -- The save that ends an operation, and what the operation returns then.
  abbrev pub save_and : {A : Type 0} → List RawServer → A → Act Registry A
  save_and items a s =
      let (saved, s') = save_servers items s in
      elim saved [ err e ↦ (err e, s') | ok xs ↦ (ok a, s') ]

  -- `add_server`, of a record whose id was drawn where none was given.
  unfoldable pub add_server : RawServer → Act Registry Server
  unfolding list_servers normalize_server save_servers
  add_server raw s = elim (list_servers s) [
    | err e ↦ (err e, s)
    | ok items ↦ elim (normalize_server raw) [
      | err e ↦ (err e, s)
      | ok x ↦ save_and (map raw_server (items ++ x ∷ [])) x s
    ]
  ]

  unfoldable pub remove_server : Text → Act Registry Bool
  unfolding list_servers save_servers text_eq
  remove_server identifier s = elim (list_servers s) [
    | err e ↦ (err e, s)
    | ok items ↦
        let left = keep (λ x. not (is_server identifier x)) items in
        if length left == length items then (ok false, s) else save_and (map raw_server left) true s
  ]

  unfoldable pub set_server_enabled : Text → Bool → Act Registry Server
  unfolding list_servers save_servers text_eq
  set_server_enabled identifier enabled s = elim (list_servers s) [
    | err e ↦ (err e, s)
    | ok items ↦ elim (find (is_server identifier) items) [
      | none ↦ (err server_not_found, s)
      | some x ↦
          save_and
            (map raw_server
              (update_first (is_server identifier) (λ y. record y { enabled = enabled }) items))
            (record x { enabled = enabled }) s
    ]
  ]
