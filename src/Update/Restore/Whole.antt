-- ===== src/Update/Restore/Whole.antt =====
-- update_engine.py: a restoration from the snapshot of an update that returns.
use mathlib.Core.Path.{subst}
use ge360_bridge.Base.{◌≡◌, ◌≢◌, refl, sym, Option, none, some, List, [], ◌∷◌, map, All, arith}
use ge360_bridge.Base.Text.{Text}
use ge360_bridge.Base.Dict.{lookup}
use ge360_bridge.Core.Data.{Result, ok, err}
use ge360_bridge.Update.Paths.{Roots, safe_logical_path, locate}
use ge360_bridge.Update.Package.{PackageFile, Files}
use ge360_bridge.Update.Disk.{link, Disk, World}
use ge360_bridge.Update.Rollback.{Saved, SavedManifest, SnapshotTools, save_files, snapshot_archive}
use ge360_bridge.Update.Restore.{
  restore_manifest, restore_read, read_rollback, restore_software_rollback,
}
use ge360_bridge.Update.Restore.Copies.{Copies, IsItem, save_files_lem}
use ge360_bridge.Update.Restore.Gather.{read_rollback-Copies}
use ge360_bridge.Update.Restore.Same.{shown, Agrees, restore_items-Agrees}

module _ (r : Roots) (lib : SnapshotTools) (disk : Disk) where
  no_links :
      (items : List Saved)
      → ((l : Text) → safe_logical_path l ≡ ok l → disk (locate r l) ≢ link)
      → All (IsItem r lib disk) items
      → All (λ (x : Saved). disk (locate r x.path) ≢ link) items
  no_links [] k i = tt
  no_links (item ∷ items) k i = (k item.path i.0.0, no_links items k i.1)

  restore_manifest-Agrees :
      (f : Option (List Saved)) (items : List Saved) (payload : Files) (w : World) {u : Unit {0}}
      → f ≡ some items
      → All (IsItem r lib disk) items
      → All (λ (x : Saved). disk (locate r x.path) ≢ link) items
      → Copies r lib disk payload
      → Agrees r lib disk (map (λ (x : Saved). x.path) items) w.disk
      → (restore_manifest r lib f payload w).0 ≡ ok u
      → Agrees r lib disk [] (restore_manifest r lib f payload w).1.disk
  unfolding restore_manifest
  restore_manifest-Agrees none items payload w e i k c a h = absurd (ground arith)
  restore_manifest-Agrees (some others) items payload w {u} e i k c a h =
      let same : items ≡ others = ground (arith, e) in
      restore_items-Agrees r lib disk others payload w (subst (All (IsItem r lib disk)) same i)
        (subst (All (λ (x : Saved). disk (locate r x.path) ≢ link)) same k) c
        (subst (λ (t : List Saved). Agrees r lib disk (map (λ (x : Saved). x.path) t) w.disk) same
          a)
        h

-- A restoration from the snapshot of that name which returns: whatever happened since to the files
-- it was made of, and to no others, every path shows what it showed.
module _ (r : Roots) (lib : SnapshotTools)
    (printed : (m : SavedManifest) → lib.read_saved (lib.print_saved m) ≡ some m)
    (disk : Disk) where
  pub restore-Agrees :
      (name : Text) (files : List Text) (saved : List Saved × Files) (w : World) {u : Unit {0}}
      → All (λ (l : Text). safe_logical_path l ≡ ok l) files
      → ((l : Text) → safe_logical_path l ≡ ok l → disk (locate r l) ≢ link)
      → save_files r lib disk files ≡ ok saved
      → lookup name w.rollbacks ≡ some (snapshot_archive r lib saved)
      → Agrees r lib disk files w.disk
      → (restore_software_rollback r lib name w).0 ≡ ok u
      → (p : Text) → shown ((restore_software_rollback r lib name w).1.disk p) ≡ shown (disk p)
  unfolding restore_software_rollback
  restore-Agrees name files saved w {u} n k made found a h =
      let (items, copies, paths) = save_files_lem r lib disk files n made in
      go (read_rollback r lib (lookup name w.rollbacks))
        (λ y e.
          read_rollback-Copies r lib printed disk saved copies
            (subst (λ (o : Option PackageFile). read_rollback r lib o ≡ ok y) found e))
        h
    where
      go :
          (x : Result (SavedManifest × Files))
          → ((y : SavedManifest × Files)
              → x ≡ ok y
              → (y.0.files ≡ some saved.0) × Copies r lib disk y.1)
          → (restore_read r lib x w).0 ≡ ok u
          → (p : Text) → shown ((restore_read r lib x w).1.disk p) ≡ shown (disk p)
      go (err e) f g = absurd (ground arith)
      go (ok y) f g =
          let (items, copies, paths) = save_files_lem r lib disk files n made in
          λ p.
            restore_manifest-Agrees r lib disk (y.0.files) saved.0 y.1 w ((f y refl).0) items
              (no_links r lib disk saved.0 k items) ((f y refl).1)
              (subst (λ (t : List Text). Agrees r lib disk t w.disk) (sym paths) a) g p refl
