-- ===== src/Update/Rollback.antt =====
-- update_engine.py: the snapshot of the installed files, and its restoration.
use ge360_bridge.Base.{
  ℕ, not, Bool, true, false, Option, some, List, [], ◌∷◌, ◌++◌, map, take, length, ltb,
  if◌then◌else◌, keep,
}
use ge360_bridge.Base.Text.{Text, text, text_eq}
use ge360_bridge.Core.Data.{Result, ok, err, raise_if, ◌>>=◌, ◌>>◌, rollback_file_too_large}
use ge360_bridge.Core.Store.{Act}
use ge360_bridge.Update.Paths.{Roots, target_for}
use ge360_bridge.Update.Package.{Member, PackageFile, Files, max_member_bytes}
use ge360_bridge.Update.Disk.{Entry, absent, file, link, Disk, World, attempt_write}

abbrev pub rollback_retention : ℕ
rollback_retention = 3

-- An item of the "files" of a snapshot.
pub record Saved : Type 0 where
  pub path : Text
  pub existed : Bool
  pub size : Option ℕ
  pub sha256 : Text

-- "files" is `none` where the JSON has no list.
pub record SavedManifest : Type 0 where
  pub schema : Text
  pub files : Option (List Saved)

-- The Python library again: the hash, and the JSON of the manifest of a snapshot, written and read
-- (`none` where it is not UTF-8 or no JSON).
pub record SnapshotTools : Type 0 where
  pub sha256_hex : Text → Text
  pub print_saved : SavedManifest → Text
  pub read_saved : Text → Option SavedManifest

abbrev pub content_of : Entry → Text
content_of absent = []
content_of (file content mode) = content
content_of link = []

-- `target.is_file() and not target.is_symlink()`
abbrev pub is_regular_entry : Entry → Bool
is_regular_entry absent = false
is_regular_entry (file content mode) = true
is_regular_entry link = false

module _ (r : Roots) (lib : SnapshotTools) where
  unfoldable pub saved_item : Text → Entry → Saved
  saved_item logical e = record {
    path = logical;
    existed = is_regular_entry e;
    size = some (length (content_of e));
    sha256 = lib.sha256_hex (content_of e);
  }

  -- The loop of `_create_software_rollback`: the items, and the contents of those that exist.
  unfoldable pub save_files : Disk → List Text → Result (List Saved × Files)
  unfolding target_for saved_item
  save_files disk [] = ok ([], [])
  save_files disk (logical ∷ files) = do
    target ← target_for r logical
    raise_if (ltb max_member_bytes (length (content_of (disk target)))) rollback_file_too_large
    rest ← save_files disk files
    ok (
      saved_item logical (disk target) ∷ rest.0,
      if is_regular_entry (disk target)
          then (logical, content_of (disk target)) ∷ rest.1
          else rest.1,
    )

  abbrev pub member_of : Text → Text → Member
  member_of name content = record {
    name = name;
    is_regular = true;
    size = length content;
    content = some content;
  }

  abbrev pub payload_member : Text × Text → Member
  payload_member (logical, content) = member_of (text "payload/" ++ logical) content

  -- The archive that is written. The paths come in order, so the sorting of the payload does not
  -- change it. The bytes of the compressed file are not read again.
  unfoldable pub snapshot_archive : List Saved × Files → PackageFile
  snapshot_archive (items, payload) = record {
    is_symlink = false;
    is_file = true;
    bytes = [];
    members = some (
        member_of (text "manifest.json") (
          lib.print_saved
            (record { schema = text "ge360-bridge-software-rollback/v1"; files = some items }))
        ∷ map payload_member payload);
  }

  -- The new snapshot takes the place of one of its name, and `_prune_rollbacks` keeps the newest.
  unfoldable pub add_rollback : Text → PackageFile → World → World
  add_rollback name archive w = record w {
    rollbacks =
        take rollback_retention
          ((name, archive) ∷ keep (λ (x : Text × PackageFile). not (text_eq x.0 name)) w.rollbacks);
  }

  -- `_create_software_rollback`, with the name that `_rollback_path` made.
  unfoldable pub create_software_rollback : Text → List Text → Act World (Unit {0})
  unfolding save_files snapshot_archive attempt_write add_rollback
  create_software_rollback name files w = elim (save_files w.disk files) [
    | err e ↦ (err e, w)
    | ok saved ↦ attempt_write (add_rollback name (snapshot_archive saved)) w.faults w
  ]
