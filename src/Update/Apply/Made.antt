-- ===== src/Update/Apply/Made.antt =====
-- update_engine.py: a snapshot that was created is found under its name.
use ge360_bridge.Base.{◌≡◌, refl, Bool, true, false, some, List, [], ◌∷◌, arith}
use ge360_bridge.Base.Text.{Text, text_eq_refl}
use ge360_bridge.Base.Dict.{lookup}
use ge360_bridge.Core.Data.{Result, ok, err}
use ge360_bridge.Update.Package.{PackageFile, Files}
use ge360_bridge.Update.Disk.{World, attempt_write}
use ge360_bridge.Update.Rollback.{
  Saved, save_files, snapshot_archive, add_rollback, create_software_rollback,
}
use ge360_bridge.Update.Runtime.{Engine}

pub record IsMade (o : Engine) (name : Text) (files : List Text) (w w' : World) : Type 0 where
  pub saved : List Saved × Files
  pub made : save_files o.roots o.snapshots w.disk files ≡ ok saved
  pub found : lookup name w'.rollbacks ≡ some (snapshot_archive o.roots o.snapshots saved)

pub added_found :
    (o : Engine) (name : Text) (archive : PackageFile) (w : World)
    → lookup name (add_rollback o.roots o.snapshots name archive w).rollbacks ≡ some archive
unfolding add_rollback lookup
added_found o name archive w = rw (text_eq_refl name) refl

pub snapshot_written :
    (o : Engine) (name : Text) (archive : PackageFile) (faults : List Bool) (w : World)
    → let x = attempt_write (add_rollback o.roots o.snapshots name archive) faults w in
      (x.1.disk ≡ w.disk) × ((u : Unit {0}) → x.0 ≡ ok u → lookup name x.1.rollbacks ≡ some archive)
unfolding attempt_write add_rollback
snapshot_written o name archive [] w = (refl, λ u e. added_found o name archive w)
snapshot_written o name archive (true ∷ rest) w = (refl, λ u e. absurd (ground arith))
snapshot_written o name archive (false ∷ rest) w =
    (refl, λ u e. added_found o name archive (record w { faults = rest }))

pub snapshot_created :
    (o : Engine) (name : Text) (files : List Text) (w : World)
    → let x = create_software_rollback o.roots o.snapshots name files w in
      (x.1.disk ≡ w.disk) × ((u : Unit {0}) → x.0 ≡ ok u → IsMade o name files w x.1)
unfolding create_software_rollback
snapshot_created o name files w = go (save_files o.roots o.snapshots w.disk files) refl
  where
    go :
        (r : Result (List Saved × Files))
        → save_files o.roots o.snapshots w.disk files ≡ r
        → let x : Result (Unit {0}) × World = elim r [
          | err e ↦ (err e, w)
          | ok saved ↦
              attempt_write
                (add_rollback o.roots o.snapshots name (snapshot_archive o.roots o.snapshots saved))
                w.faults
                w
        ] in
          (x.1.disk ≡ w.disk) × ((u : Unit {0}) → x.0 ≡ ok u → IsMade o name files w x.1)
    go (err e) q = (refl, λ u f. absurd (ground arith))
    go (ok saved) q =
        let (d, f) =
          snapshot_written o name (snapshot_archive o.roots o.snapshots saved) w.faults w in
        (d, λ u e. record { saved = saved; made = q; found = f u e })
