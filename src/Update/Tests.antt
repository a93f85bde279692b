-- ===== src/Update/Tests.antt =====
-- update_engine.py: the theorems and the engine on a small package.
use ge360_bridge.Base.{
  ℕ, ◌≡◌, refl, ◌==◌, true, false, none, some, [], ◌∷◌, ◌++◌, Memᴰ, all, All, map, length, arith,
  if◌then◌else◌,
}
use ge360_bridge.Base.Text.{Text, text, text_eq, contains}
use ge360_bridge.Base.Dict.{keys}
use ge360_bridge.Core.Data.{ok, err, update_rolled_back}
use ge360_bridge.Update.Paths.{Roots, safe_logical_path, target_for}
use ge360_bridge.Update.Paths.Normal.{safe_logical_path_idem}
use ge360_bridge.Update.Paths.Confined.{IsConfined, target_for-IsConfined}
use ge360_bridge.Update.Version.{validate_version}
use ge360_bridge.Update.Package.{
  Member, Declared, Manifest, Tools, PackageFile, Files, read_package, required_runtime_paths,
}
use ge360_bridge.Update.Package.Verified.{IsVerified, read_package-IsVerified}
use ge360_bridge.Update.Disk.{Disk, World, file}
use ge360_bridge.Update.Runtime.{Engine}
use ge360_bridge.Update.Apply.{apply_update}
use ge360_bridge.Update.Apply.Safety.{Unchanged, apply_update-Unchanged}
use ge360_bridge.Update.Encoding.{print_manifest, read_manifest, read_manifest-print}

abbrev roots : Roots
roots = record {
  software_root = text "/opt";
  local_sbin = text "/sbin";
  systemd_dir = text "/units";
}

safe_logical_path_idem_example :
    safe_logical_path (text "scripts/boot-verify.sh") ≡ ok (text "scripts/boot-verify.sh")
unfolding safe_logical_path text_eq
safe_logical_path_idem_example = safe_logical_path_idem (text "scripts//./boot-verify.sh") refl

target_for-IsConfined_example : IsConfined roots (text "/units/ge360-bridge.service")
unfolding target_for
target_for-IsConfined_example =
    target_for-IsConfined roots (text "systemd/ge360-bridge.service") refl

abbrev digest : Text
digest = text "aaaaaaaaaaaaaaaaaaaaaaaaaaaaaaaaaaaaaaaaaaaaaaaaaaaaaaaaaaaaaaaa"

abbrev mode_of_path : Text → ℕ
mode_of_path path = if length path == 12 then 493 else 420

abbrev declared : Text → Declared
declared path = record {
  path = path;
  mode = some (mode_of_path path);
  size = some 1;
  sha256 = digest;
}

abbrev manifest : Manifest
manifest = record {
  schema = text "ge360-bridge-update/v1";
  version = text "2.0";
  files = map declared required_runtime_paths;
}

abbrev payload : Text → Member
payload path = record {
  name = text "payload/" ++ path;
  is_regular = true;
  size = 1;
  content = some (7 ∷ []);
}

abbrev tools : Tools
tools = record {
  sha256_hex = λ t. digest;
  read_manifest = λ t. some manifest;
  find_version = λ t. some (some (text "2.0"));
}

abbrev bundle : PackageFile
bundle = record {
  is_symlink = false;
  is_file = true;
  bytes = 1 ∷ [];
  members = some (
      record { name = text "manifest.json"; is_regular = true; size = 1; content = some (5 ∷ []) }
      ∷ map payload required_runtime_paths);
}

abbrev bundle_files : Files
bundle_files = map (λ (p : Text). (p, 7 ∷ [])) required_runtime_paths

read_package-IsVerified_example :
    All (IsVerified tools bundle_files) manifest.files
    × ((k : Text)
        → contains (keys bundle_files) k ≡ true
        → (item : Declared) × Memᴰ item manifest.files × (safe_logical_path item.path ≡ ok k))
    × ((version : Text) × (validate_version manifest.version ≡ ok version))
    × (all (contains (keys bundle_files)) required_runtime_paths ≡ true)
unfolding read_package
read_package-IsVerified_example = read_package-IsVerified tools bundle refl

-- The first restart fails and all that comes after works.
abbrev engine : Engine
engine = record {
  roots = roots;
  tools = tools;
  snapshots = record {
    sha256_hex = λ t. digest;
    print_saved = print_manifest;
    read_saved = read_manifest;
  };
  current_version = text "1.9";
  run = λ earlier args. if length earlier == 0 then 1 else 0;
  http_ok = λ earlier url. true;
  compiles = λ files. true;
  shell_ok = λ script. true;
  create_backup = λ w. ok (some (text "backup"));
  restore_backup = λ name w. ok tt;
}

abbrev old_file : Disk
old_file path = file (1 ∷ []) 420

abbrev world : World
world = record { disk = old_file; faults = []; rollbacks = []; history = none; commands = [] }

apply_update-Unchanged_example :
    Unchanged old_file (apply_update engine (text "rollback-1") bundle world).1.disk
unfolding apply_update text_eq print_manifest read_manifest
apply_update-Unchanged_example =
    apply_update-Unchanged engine read_manifest-print world (λ l n e. absurd (ground arith))
      (text "rollback-1") bundle refl

-- It ends in the rollback.
rolls_back : (apply_update engine (text "rollback-1") bundle world).0 ≡ err update_rolled_back
unfolding apply_update text_eq print_manifest read_manifest
rolls_back = refl
