-- ===== src/Update/Package/Sound.antt =====
-- update_engine.py: what holds of a package that `_read_package` accepts.
use mathlib.Core.Path.{subst}
use ge360_bridge.Base.{◌≡◌, ap, ◌∙◌, ◌&&◌, true, List, [], ◌∷◌, all, All}
use ge360_bridge.Base.Text.{Text, contains}
use ge360_bridge.Base.Dict.{keys}
use ge360_bridge.Core.Data.{ok, ok-inj, last_of, guarded, ◌>>=◌, >>=-eq-ok}
use ge360_bridge.Update.Paths.{safe_logical_path}
use ge360_bridge.Update.Paths.Normal.{safe_logical_path_idem}
use ge360_bridge.Update.Version.{validate_version}
use ge360_bridge.Update.Package.{
  Manifest, Tools, PackageFile, Files, read_regular_file, archive_members, read_members,
  nothing_read, parse_manifest, check_all_declared, recheck, check_manifest, read_package,
  required_runtime_paths,
}

module _ (lib : Tools) where
  recheck-normal :
      (members : Files) {checked : Files}
      → recheck lib members ≡ ok checked
      → All (λ (x : Text × Text). safe_logical_path x.0 ≡ ok x.0) checked
  unfolding recheck
  recheck-normal [] h =
      subst (All (λ (x : Text × Text). safe_logical_path x.0 ≡ ok x.0)) (ok-inj h) tt
  recheck-normal ((k, v) ∷ members) {checked} h =
      let (l, e, h1) =
        >>=-eq-ok (safe_logical_path k) (λ l. recheck lib members >>= λ rest. ok ((l, v) ∷ rest))
          h in
      let (rest, f, h2) = >>=-eq-ok (recheck lib members) (λ rest. ok ((l, v) ∷ rest)) h1 in
      subst (All (λ (x : Text × Text). safe_logical_path x.0 ≡ ok x.0)) (ok-inj h2)
        (safe_logical_path_idem k e, recheck-normal members f)

  -- What a check of the manifest that returned has found.
  pub record IsChecked (m : Manifest) (members : Files) (y : Manifest × Files) : Type 0 where
    pub seen : List Text
    pub version : Text
    pub declared : check_all_declared lib members [] m.files ≡ ok seen
    pub matching : (all (contains (keys members)) seen && all (contains seen) (keys members)) ≡ true
    pub complete : all (contains seen) required_runtime_paths ≡ true
    pub valid : validate_version m.version ≡ ok version
    pub checked : recheck lib members ≡ ok y.1
    pub same : m ≡ y.0

  pub check_manifest-IsChecked :
      (m : Manifest) (members : Files) {y : Manifest × Files}
      → check_manifest lib m members ≡ ok y
      → IsChecked m members y
  unfolding check_manifest
  check_manifest-IsChecked m members {y} h =
      let (version, v, h2) = >>=-eq-ok (validate_version m.version) _ (last_of _ _ h) in
      let (seen, d, h3) =
        >>=-eq-ok (check_all_declared lib members [] m.files) _ (last_of _ _ h2) in
      let (matching, h4) = guarded _ _ _ h3 in
      let (complete, h5) = guarded _ _ _ h4 in
      let (checked, r, h6) =
        >>=-eq-ok (recheck lib members) (λ checked. ok (m, checked)) (last_of _ _ h5) in
      record {
        seen = seen;
        version = version;
        declared = d;
        matching = matching;
        complete = complete;
        valid = v;
        checked = r ∙ ap (λ (x : Manifest × Files). ok x.1) (ok-inj h6);
        same = ap (λ (x : Manifest × Files). x.0) (ok-inj h6);
      }

  -- A package that was read: its members, and its manifest, which was checked against them.
  pub read_package-IsChecked :
      (f : PackageFile) {y : Manifest × Files}
      → read_package lib f ≡ ok y
      → (m : Manifest) × (members : Files) × IsChecked m members y
  unfolding read_package
  read_package-IsChecked f {y} h =
      let (u, e, h1) = >>=-eq-ok (read_regular_file f) _ h in
      let (ms, e1, h2) = >>=-eq-ok (archive_members lib f.members) _ h1 in
      let (r, e2, h3) = >>=-eq-ok (read_members ms (nothing_read lib)) _ (last_of _ _ h2) in
      let (m, e3, h4) = >>=-eq-ok (parse_manifest lib r.manifest_raw) _ h3 in
      (m, r.members, check_manifest-IsChecked m r.members h4)

  -- The paths that are returned are accepted as they are.
  pub read_package-normal :
      (f : PackageFile) {y : Manifest × Files}
      → read_package lib f ≡ ok y
      → All (λ (x : Text × Text). safe_logical_path x.0 ≡ ok x.0) y.1
  read_package-normal f h =
      let (m, members, c) = read_package-IsChecked f h in recheck-normal members c.checked
