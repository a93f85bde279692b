-- ===== src/Update/Restore.antt =====
-- update_engine.py: reading a snapshot, and putting the files back, `_restore_software_rollback`.
pub mod Copies
pub mod Gather
pub mod Same
pub mod Whole
use ge360_bridge.Base.{
  ℕ, ◌+◌, ◌==◌, not, ◌&&◌, Bool, true, false, Option, none, some, List, [], ◌∷◌, drop, length, ltb,
  leb, if◌then◌else◌,
}
use ge360_bridge.Base.Text.{Text, text, text_eq, starts_with}
use ge360_bridge.Base.Dict.{lookup, is_some}
use ge360_bridge.Core.Data
use ge360_bridge.Core.Data.{
  Result, ok, err, guard, raise_if, ◌>>=◌, ◌>>◌, update_too_many_files, update_too_large,
  update_irregular_member, update_foreign_member, update_member_size, rollback_invalid,
  rollback_schema, rollback_checksum, rollback_unexpected_payload,
}
use ge360_bridge.Core.Store.{Act}
use ge360_bridge.Update.Paths.{Roots, safe_logical_path, target_for, mode_for}
use ge360_bridge.Update.Package.{
  Member, PackageFile, Files, read_stream, is_number_of, max_member_bytes, max_package_files,
  max_unpacked_bytes,
}
use ge360_bridge.Update.Disk.{World, atomic_install, unlink}
use ge360_bridge.Update.Rollback.{Saved, SavedManifest, SnapshotTools}

-- What the loop of `_read_rollback` has gathered; a later member takes the place of an earlier one.
pub record Gathered : Type 0 where
  pub unpacked : ℕ
  pub payload : Files
  pub manifest : Option SavedManifest

-- `payload.get(logical, b"")`
abbrev pub payload_of : Option Text → Text
payload_of none = []
payload_of (some content) = content

module _ (r : Roots) (lib : SnapshotTools) where
  -- The member's place, once its content is read.
  unfoldable pub gather : Text → Text → Gathered → Result Gathered
  unfolding text_eq starts_with safe_logical_path
  gather name content g =
      if text_eq name (text "manifest.json")
      then elim (lib.read_saved content) [
        | none ↦ err rollback_invalid
        | some m ↦ ok (record g { manifest = some m })
      ]
      else if starts_with name (text "payload/")
      then elim (safe_logical_path (drop 8 name)) [
        | err e ↦ err e
        | ok logical ↦ ok (record g { payload = (logical, content) ∷ g.payload })
      ]
      else err update_foreign_member

  unfoldable pub gather_member : Member → Gathered → Result Gathered
  unfolding read_stream gather
  gather_member m g = do
    raise_if (ltb max_unpacked_bytes (g.unpacked + m.size)) update_too_large
    guard m.is_regular update_irregular_member
    content ← read_stream m.content
    guard (length content == m.size && leb (length content) max_member_bytes) update_member_size
    gather m.name content (record g { unpacked = g.unpacked + m.size })

  unfoldable pub gather_members : List Member → Gathered → Result Gathered
  unfolding gather_member
  gather_members [] g = ok g
  gather_members (m ∷ ms) g = do h ← gather_member m g; gather_members ms h

  check_saved : Option SavedManifest → Result SavedManifest
  unfolding text_eq
  check_saved none = err rollback_schema
  check_saved (some m) = do
    guard (text_eq m.schema (text "ge360-bridge-software-rollback/v1")) rollback_schema
    ok m

  read_members_of : Option (List Member) → Result (SavedManifest × Files)
  unfolding gather_members check_saved
  read_members_of none = err rollback_invalid
  read_members_of (some ms) = do
    raise_if (ltb (max_package_files + 1) (length ms)) update_too_many_files
    g ← gather_members ms (record { unpacked = 0; payload = []; manifest = none })
    m ← check_saved g.manifest
    ok (m, g.payload)

  -- `_read_rollback`
  unfoldable pub read_rollback : Option PackageFile → Result (SavedManifest × Files)
  unfolding read_members_of
  read_rollback none = err rollback_invalid
  read_rollback (some f) = do
    raise_if (if f.is_symlink then true else not f.is_file) rollback_invalid
    read_members_of f.members

  -- The part of the loop of `_restore_software_rollback` after the paths are known.
  unfoldable pub restore_file : Saved → Text → Text → ℕ → Option Text → Act World (Unit {0})
  unfolding text_eq atomic_install unlink
  restore_file item logical target mode found w =
      if item.existed
      then if is_number_of item.size (length (payload_of found))
          && text_eq item.sha256 (lib.sha256_hex (payload_of found))
        then atomic_install target (payload_of found) mode w
        else (err rollback_checksum, w)
      else if is_some found
      then (err rollback_unexpected_payload, w)
      else unlink target w

  -- An item, once its path was read.
  unfoldable pub restore_at : Saved → Files → Text → Act World (Unit {0})
  unfolding target_for mode_for lookup restore_file
  restore_at item payload logical w = elim (target_for r logical) [
    | err e ↦ (err e, w)
    | ok target ↦ elim (mode_for logical) [
      | err e ↦ (err e, w)
      | ok mode ↦ restore_file item logical target mode (lookup logical payload) w
    ]
  ]

  unfoldable pub restore_item : Saved → Files → Act World (Unit {0})
  unfolding safe_logical_path restore_at
  restore_item item payload w = elim (safe_logical_path item.path) [
    | err e ↦ (err e, w)
    | ok logical ↦ restore_at item payload logical w
  ]

  -- The loop over the items of the manifest, which a raise ends.
  unfoldable pub restore_items : List Saved → Files → Act World (Unit {0})
  unfolding restore_item
  restore_items [] payload w = (ok tt, w)
  restore_items (item ∷ items) payload w =
      let (done, w') = restore_item item payload w in
      elim done [ err e ↦ (err e, w') | ok u ↦ restore_items items payload w' ]

  -- The "files" of the manifest have to be a list.
  unfoldable pub restore_manifest : Option (List Saved) → Files → Act World (Unit {0})
  unfolding restore_items
  restore_manifest none payload w = (err rollback_invalid, w)
  restore_manifest (some items) payload w = restore_items items payload w

  unfoldable pub restore_read : Result (SavedManifest × Files) → Act World (Unit {0})
  unfolding restore_manifest
  restore_read (err e) w = (err e, w)
  restore_read (ok y) w = restore_manifest y.0.files y.1 w

  -- `_restore_software_rollback`, on the snapshot of that name.
  unfoldable pub restore_software_rollback : Text → Act World (Unit {0})
  unfolding restore_read read_rollback lookup
  restore_software_rollback name w = restore_read (read_rollback (lookup name w.rollbacks)) w
