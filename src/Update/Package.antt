-- ===== src/Update/Package.antt =====
-- update_engine.py: reading a package, `_read_package`. The bytes of a file are a list of numbers.
pub mod Sound
pub mod Verified
use ge360_bridge.Base.{
  ℕ, ◌+◌, ◌==◌, not, ◌&&◌, ◌||◌, Bool, true, false, Option, none, some, List, [], ◌∷◌, ◌++◌, all,
  length, take, drop, is_empty, ltb, leb, if◌then◌else◌,
}
use ge360_bridge.Base.Text.{Text, text, text_eq, contains, starts_with, strip, lower, is_hex}
use ge360_bridge.Base.Dict.{lookup, keys, is_some}
use ge360_bridge.Core.Data.{
  Result, ok, err, ◌>>=◌, ◌>>◌, guard, raise_if, value_error, update_invalid_file, update_bad_size,
  update_too_many_files, update_too_large, update_irregular_member, update_member_too_large,
  update_foreign_member, update_duplicate, update_member_size, update_no_manifest,
  update_bad_manifest, update_schema, update_no_files, update_bad_mode, update_payload_missing,
  update_size_mismatch, update_bad_digest, update_checksum_mismatch, update_payload_mismatch,
  update_incomplete, update_no_version, update_not_newer,
}
use ge360_bridge.Update.Paths.{safe_logical_path, mode_for}
use ge360_bridge.Update.Version.{validate_version, version_tuple, tuple_le}

abbrev pub max_package_bytes : ℕ
max_package_bytes = 33554432

abbrev pub max_member_bytes : ℕ
max_member_bytes = 4194304

abbrev pub max_package_files : ℕ
max_package_files = 256

abbrev pub max_unpacked_bytes : ℕ
max_unpacked_bytes = 33554432

abbrev pub required_runtime_paths : List Text
required_runtime_paths =
    text "ge360_bridge/__init__.py"
    ∷ text "ge360_bridge/cli.py"
    ∷ text "ge360_bridge/core.py"
    ∷ text "ge360_bridge/daemon.py"
    ∷ text "ge360_bridge/dashboard.py"
    ∷ text "ge360_bridge/pairing_server.py"
    ∷ text "ge360-bridge"
    ∷ []

-- A member of a tar archive; `content` is `none` where `extractfile` returns none.
pub record Member : Type 0 where
  pub name : Text
  pub is_regular : Bool
  pub size : ℕ
  pub content : Option Text

-- An item of the "files" of a manifest.
pub record Declared : Type 0 where
  pub path : Text
  pub mode : Option ℕ
  pub size : Option ℕ
  pub sha256 : Text

-- "files" is the empty list where the JSON has no list.
pub record Manifest : Type 0 where
  pub schema : Text
  pub version : Text
  pub files : List Declared

-- Functions of the Python library that the model does not define: the hash; the manifest in a JSON
-- (`none` where it is not UTF-8 or no JSON; a JSON that is no object has no schema); and
-- `INIT_VERSION_RE` (`none` where the text is not UTF-8, `some none` where nothing matches).
pub record Tools : Type 0 where
  pub sha256_hex : Text → Text
  pub read_manifest : Text → Option Manifest
  pub find_version : Text → Option (Option Text)

-- A file, with the members of the archive that it holds (`none` where `tarfile` raises).
pub record PackageFile : Type 0 where
  pub is_symlink : Bool
  pub is_file : Bool
  pub bytes : Text
  pub members : Option (List Member)

abbrev pub Files : Type 0
Files = List (Text × Text)

unfoldable pub validate_sha256_hex : Text → Result Text
unfolding strip lower
validate_sha256_hex value = do
  let digest = lower (strip value)
  guard (length digest == 64 && all is_hex digest) update_bad_digest
  ok digest

unfoldable pub read_regular_file : PackageFile → Result Text
read_regular_file f = do
  raise_if (f.is_symlink || not f.is_file) update_invalid_file
  raise_if (is_empty f.bytes || ltb max_package_bytes (length f.bytes)) update_bad_size
  ok f.bytes

-- The key of a member. The program writes "payload/" before a logical path.
pub data MemberKey : Type 0 where
  manifest_key : MemberKey
  payload_key : (logical : Text) → MemberKey

unfoldable pub key_of : Text → Result MemberKey
unfolding text_eq starts_with safe_logical_path
key_of name =
    if text_eq name (text "manifest.json")
    then ok manifest_key
    else if starts_with name (text "payload/")
    then (do logical ← safe_logical_path (drop 8 name); ok (payload_key logical))
    else err update_foreign_member

-- What the loop over the members has gathered.
pub record Reading : Type 0 where
  pub unpacked : ℕ
  pub members : Files
  pub manifest_raw : Option Text

abbrev pub is_known : MemberKey → Reading → Bool
is_known manifest_key r = is_some r.manifest_raw
is_known (payload_key logical) r = is_some (lookup logical r.members)

-- `stream.read(MAX_MEMBER_BYTES + 1)`
unfoldable pub read_stream : Option Text → Result Text
read_stream none = err update_invalid_file
read_stream (some content) = ok (take (max_member_bytes + 1) content)

unfoldable pub keep_member : MemberKey → Text → ℕ → Reading → Reading
keep_member manifest_key content unpacked r = record r {
  unpacked = unpacked;
  manifest_raw = some content;
}
keep_member (payload_key logical) content unpacked r = record r {
  unpacked = unpacked;
  members = r.members ++ (logical, content) ∷ [];
}

-- The body of the loop over the members.
unfoldable pub read_member : Member → Reading → Result Reading
unfolding key_of read_stream keep_member lookup
read_member m r = do
  raise_if (ltb max_unpacked_bytes (r.unpacked + m.size)) update_too_large
  guard m.is_regular update_irregular_member
  raise_if (ltb max_member_bytes m.size) update_member_too_large
  key ← key_of m.name
  raise_if (is_known key r) update_duplicate
  content ← read_stream m.content
  guard (length content == m.size && leb (length content) max_member_bytes) update_member_size
  ok (keep_member key content (r.unpacked + m.size) r)

unfoldable pub read_members : List Member → Reading → Result Reading
unfolding read_member
read_members [] r = ok r
read_members (m ∷ ms) r = do s ← read_member m r; read_members ms s

-- `int(item.get(key, -1)) == n`
abbrev pub is_number_of : Option ℕ → ℕ → Bool
is_number_of none n = false
is_number_of (some k) n = k == n

abbrev pub found_payload : Option Text → Result Text
found_payload none = err update_payload_missing
found_payload (some content) = ok content

-- `if require_newer and _version_tuple(version) <= _version_tuple(__version__)`
unfoldable pub check_newer : Bool → Text → Text → Result (Unit {0})
unfolding version_tuple tuple_le
check_newer false version current = ok tt
check_newer true version current = do
  new ← version_tuple version
  old ← version_tuple current
  raise_if (tuple_le new old) update_not_newer

module _ (lib : Tools) where
  -- The body of the loop over the declared files: the path it accepts.
  unfoldable pub check_declared : Files → List Text → Declared → Result Text
  unfolding safe_logical_path mode_for lookup contains validate_sha256_hex text_eq
  check_declared members seen item = do
    logical ← safe_logical_path item.path
    raise_if (contains seen logical) update_duplicate
    mode ← mode_for logical
    guard (is_number_of item.mode mode) update_bad_mode
    content ← found_payload (lookup logical members)
    guard (is_number_of item.size (length content)) update_size_mismatch
    digest ← validate_sha256_hex item.sha256
    guard (text_eq digest (lib.sha256_hex content)) update_checksum_mismatch
    ok logical

  unfoldable pub check_all_declared : Files → List Text → List Declared → Result (List Text)
  unfolding check_declared
  check_all_declared members seen [] = ok seen
  check_all_declared members seen (item ∷ items) = do
    logical ← check_declared members seen item
    check_all_declared members (logical ∷ seen) items

  -- The version that the new `__init__.py` names.
  unfoldable pub check_init : Text → Option Text → Result (Unit {0})
  unfolding text_eq
  check_init version none = err value_error
  check_init version (some init) = elim (lib.find_version init) [
    | none ↦ err update_no_version
    | some none ↦ err update_no_version
    | some (some found) ↦ guard (text_eq found version) update_no_version
  ]

  -- The dictionary that is returned is made of the same paths, checked once more.
  unfoldable pub recheck : Files → Result Files
  unfolding safe_logical_path
  recheck [] = ok []
  recheck ((k, v) ∷ members) = do
    logical ← safe_logical_path k
    rest ← recheck members
    ok ((logical, v) ∷ rest)

  unfoldable pub check_manifest : Manifest → Files → Result (Manifest × Files)
  unfolding check_all_declared check_init recheck validate_version contains text_eq
  check_manifest manifest members = do
    guard (text_eq manifest.schema (text "ge360-bridge-update/v1")) update_schema
    version ← validate_version manifest.version
    raise_if (is_empty manifest.files) update_no_files
    seen ← check_all_declared members [] manifest.files
    guard (all (contains (keys members)) seen && all (contains seen) (keys members))
        update_payload_mismatch
    guard (all (contains seen) required_runtime_paths) update_incomplete
    check_init version (lookup (text "ge360_bridge/__init__.py") members)
    checked ← recheck members
    ok (manifest, checked)

  unfoldable pub parse_manifest : Option Text → Result Manifest
  parse_manifest none = err update_no_manifest
  parse_manifest (some raw) = elim (lib.read_manifest raw) [
    | none ↦ err update_bad_manifest
    | some m ↦ ok m
  ]

  unfoldable pub archive_members : Option (List Member) → Result (List Member)
  archive_members none = err update_invalid_file
  archive_members (some ms) = ok ms

  abbrev pub nothing_read : Reading
  nothing_read = record { unpacked = 0; members = []; manifest_raw = none }

  -- `_read_package`
  unfoldable pub read_package : PackageFile → Result (Manifest × Files)
  unfolding read_regular_file archive_members read_members parse_manifest check_manifest
  read_package f = do
    read_regular_file f
    ms ← archive_members f.members
    raise_if (ltb (max_package_files + 1) (length ms)) update_too_many_files
    r ← read_members ms nothing_read
    manifest ← parse_manifest r.manifest_raw
    check_manifest manifest r.members

  -- What `verify_update` returns: the version, and how many files the package holds.
  unfoldable pub verify_update : Text → PackageFile → Bool → Result (Text × ℕ)
  unfolding read_package validate_version check_newer
  verify_update current f require_newer = do
    (manifest, members) ← read_package f
    version ← validate_version manifest.version
    check_newer require_newer version current
    ok (version, length members)
