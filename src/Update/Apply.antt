-- ===== src/Update/Apply.antt =====
-- update_engine.py: `apply_update`, from the preflight to the rollback. Its lock makes the updates
-- follow one another.
pub mod Keeps
pub mod Staged
pub mod Made
pub mod Safety
use ge360_bridge.Base.{Bool, true, false, Option, none, some, List, map}
use ge360_bridge.Base.Text.{Text}
use ge360_bridge.Base.Dict.{keys}
use ge360_bridge.Core.Data.{
  Result, ok, err, no_config_backup, update_rolled_back, update_rollback_failed, update_aborted,
}
use ge360_bridge.Core.Store.{Act, ◌>>=◌, ◌>>◌, lift}
use ge360_bridge.Update.Package.{PackageFile, Files}
use ge360_bridge.Update.Disk.{World, History, install_payload, write_history}
use ge360_bridge.Update.Rollback.{create_software_rollback}
use ge360_bridge.Update.Restore.{restore_software_rollback}
use ge360_bridge.Update.Runtime.{
  Engine, stage_package, preflight_update, restart_runtime, check_health,
}

abbrev pub failed_update : Bool → Option Text → History
failed_update rolled_back name = record {
  succeeded = false;
  rolled_back = rolled_back;
  software_rollback = name;
}

abbrev pub good_update : Text → History
good_update name = record { succeeded = true; rolled_back = false; software_rollback = some name }

-- The end of the handler of a failed update, after what the rollback answered.
unfoldable pub conclude_rollback : Text → Result (Unit {0}) → Act World History
unfolding write_history
conclude_rollback name (ok u) = do
  write_history (failed_update true (some name))
  lift (err update_rolled_back)
conclude_rollback name (err e) = do
  write_history (failed_update false (some name))
  lift (err update_rollback_failed)

-- The handler where no snapshot was made.
unfoldable pub conclude_abort : Act World History
unfolding write_history
conclude_abort = do write_history (failed_update false none); lift (err update_aborted)

module _ (o : Engine) where
  -- The body of the inner `try`: everything goes back to what it was.
  unfoldable pub roll_back : Text → Text → Act World (Unit {0})
  unfolding restore_software_rollback restart_runtime check_health
  roll_back backup name = do
    restore_software_rollback o.roots o.snapshots name
    (λ w. (o.restore_backup backup w, w))
    restart_runtime o
    check_health o

  -- The handler where a snapshot was made.
  unfoldable pub conclude_failure : Text → Text → Act World History
  unfolding roll_back conclude_rollback
  conclude_failure backup name w =
      let (done, w') = roll_back backup name w in conclude_rollback name done w'

  -- The body of the outer `try` from the installation on.
  unfoldable pub install_update : Text → Files → Act World History
  unfolding install_payload restart_runtime check_health write_history
  install_update name staged = do
    install_payload o.roots staged
    restart_runtime o
    check_health o
    write_history (good_update name)
    lift (ok (good_update name))

  unfoldable pub install_or_roll_back : Text → Text → Files → Act World History
  unfolding install_update conclude_failure
  install_or_roll_back backup name staged w =
      let (done, w') = install_update name staged w in
      elim done [ ok h ↦ (ok h, w') | err e ↦ conclude_failure backup name w' ]

  -- The update once the settings are saved.
  unfoldable pub update_with_backup : Text → Text → Files → Act World History
  unfolding create_software_rollback install_or_roll_back conclude_abort
  update_with_backup backup name staged w =
      let (made, w') = create_software_rollback o.roots o.snapshots name (keys staged) w in
      elim made [ err e ↦ conclude_abort w' | ok u ↦ install_or_roll_back backup name staged w' ]

  -- The outer `try`, by what `create_backup` answered.
  unfoldable pub update_staged : Text → Files → Result (Option Text) → Act World History
  unfolding update_with_backup conclude_abort
  update_staged name staged (err e) = conclude_abort
  update_staged name staged (ok none) = conclude_abort
  update_staged name staged (ok (some backup)) = update_with_backup backup name staged

  -- `apply_update`, where `name` is the name that `_rollback_path` makes.
  unfoldable pub apply_update : Text → PackageFile → Act World History
  unfolding preflight_update stage_package update_staged
  apply_update name f w = elim (preflight_update o f true) [
    | err e ↦ (err e, w)
    | ok u ↦ elim (stage_package o f) [
      | err e ↦ (err e, w)
      | ok staged ↦ update_staged name staged.1 (o.create_backup w) w
    ]
  ]
