-- ===== src/Update/Apply/Safety.antt =====
-- update_engine.py: an update that fails leaves every file as it was, or says that it could not.
use ge360_bridge.Base.{
  ◌≡◌, ◌≢◌, refl, ap, ◌∙◌, Bool, true, false, Option, none, some, List, [], ◌∷◌, map, All, arith,
}
use ge360_bridge.Base.Text.{Text, contains}
use ge360_bridge.Base.Dict.{keys}
use ge360_bridge.Core.Data.{
  Error, Result, ok, err, both_results, os_error, update_rolled_back, update_rollback_failed,
  update_aborted,
}
use ge360_bridge.Core.Store.{Act, ◌>>◌, lift}
use ge360_bridge.Core.Store.Checks.{keeps-bind, bind-eq-ok}
use ge360_bridge.Update.Paths.{safe_logical_path, locate}
use ge360_bridge.Update.Package.{PackageFile, Files}
use ge360_bridge.Update.Disk.{link, Disk, World, History, attempt_write, write_history}
use ge360_bridge.Update.Rollback.{
  Saved, SavedManifest, save_files, snapshot_archive, create_software_rollback,
}
use ge360_bridge.Update.Restore.{restore_software_rollback}
use ge360_bridge.Update.Restore.Same.{shown}
use ge360_bridge.Update.Restore.Whole.{restore-Agrees}
use ge360_bridge.Update.Runtime.{
  Engine, restart_runtime, check_health, stage_package, preflight_update,
}
use ge360_bridge.Update.Apply.{
  failed_update, roll_back, conclude_rollback, conclude_failure, conclude_abort, install_update,
  install_or_roll_back, update_with_backup, update_staged, apply_update,
}
use ge360_bridge.Update.Apply.Keeps.{
  Still, restart_runtime-Still, check_health-Still, write_history-Still, InPlace, IsStaged,
  install_update-InPlace,
}
use ge360_bridge.Update.Apply.Staged.{
  IsNormalFile, stage_package-normal, keys-normal, staged_targets,
}
use ge360_bridge.Update.Apply.Made.{snapshot_created}

-- The answers that promise that nothing has changed: every error but that of a rollback that did
-- not work, and that of a write of the history.
abbrev pub is_harmless : Error → Bool
is_harmless e = elim e [ update_rollback_failed ↦ false | os_error ↦ false | _ ↦ true ]

abbrev pub IsHarmless : Result History → Type 0
IsHarmless (ok h) = ⊥
IsHarmless (err e) = is_harmless e ≡ true

-- Every path shows what it showed.
abbrev pub Unchanged : Disk → Disk → Type 0
Unchanged before after = (p : Text) → shown (after p) ≡ shown (before p)

written_or_os_error :
    (f : World → World) (faults : List Bool) (w : World) {e : Error}
    → (attempt_write f faults w).0 ≡ err e
    → e ≡ os_error
unfolding attempt_write
written_or_os_error f [] w h = absurd (ground arith)
written_or_os_error f (true ∷ rest) w h = ground arith
written_or_os_error f (false ∷ rest) w h = absurd (ground arith)

not_harmless :
    (name : Text) (e : Error) (w : World) → IsHarmless (conclude_rollback name (err e) w).0 → ⊥
unfolding conclude_rollback write_history
not_harmless name e w h =
    let f = λ (x : World). record x { history = some (failed_update false (some name)) } in
    let x = attempt_write f w.faults w in
    both_results (λ (y : Result History × World). IsHarmless y.0 → ⊥) (x.0)
      (λ u q g. absurd (ground arith))
      (λ e q g. absurd (let same = ap is_harmless (written_or_os_error f w.faults w q) in cc)) h

All-pair :
    (P Q : Text × Text → Type 0) (xs : Files)
    → All P xs
    → All Q xs
    → All (λ (x : Text × Text). P x × Q x) xs
All-pair P Q [] p q = tt
All-pair P Q (x ∷ xs) p q = ((p.0, q.0), All-pair P Q xs p.1 q.1)

module _ (disk : Disk) where
  abbrev IsBack : World → Type 0
  IsBack w = Unchanged disk w.disk

  Still-IsBack : (w w' : World) → Still w w' → IsBack w → IsBack w'
  Still-IsBack w w' s i = λ p. ap (λ (d : Disk). shown (d p)) s.0 ∙ i p

  concluded :
      (name : Text) (r : Result (Unit {0})) (w : World)
      → ((u : Unit {0}) → r ≡ ok u → IsBack w)
      → IsHarmless (conclude_rollback name r w).0
      → IsBack (conclude_rollback name r w).1
  unfolding conclude_rollback
  concluded name (ok u) w i h =
      keeps-bind IsBack (write_history (failed_update true (some name)))
        (λ v. lift (err update_rolled_back)) w
        (Still-IsBack w (write_history (failed_update true (some name)) w).1
          (write_history-Still (failed_update true (some name)) w) (i u refl))
        (λ v x k. k)
  concluded name (err e) w i h = absurd (not_harmless name e w h)

  aborted : (w : World) → IsBack w → IsBack (conclude_abort w).1
  unfolding conclude_abort
  aborted w i =
      keeps-bind IsBack (write_history (failed_update false none)) (λ v. lift (err update_aborted))
        w
        (Still-IsBack w (write_history (failed_update false none) w).1
          (write_history-Still (failed_update false none) w) i)
        (λ v x k. k)

module _ (o : Engine)
    (printed : (m : SavedManifest) → o.snapshots.read_saved (o.snapshots.print_saved m) ≡ some m)
    (disk : Disk)
    (regular : (l : Text) → safe_logical_path l ≡ ok l → disk (locate o.roots l) ≢ link)
    (files : List Text) (normal : All (λ (l : Text). safe_logical_path l ≡ ok l) files)
    (saved : List Saved × Files) (made : save_files o.roots o.snapshots disk files ≡ ok saved)
    (name : Text) where
  abbrev IsRunning : World → Type 0
  IsRunning = InPlace o disk files name (snapshot_archive o.roots o.snapshots saved)

  rolled-IsBack :
      (backup : Text) (w : World) (u : Unit {0})
      → IsRunning w
      → (roll_back o backup name w).0 ≡ ok u
      → IsBack disk (roll_back o backup name w).1
  unfolding roll_back
  rolled-IsBack backup w u i h =
      let healthy : Act World (Unit {0}) = check_health o in
      let restarted : Act World (Unit {0}) = restart_runtime o >> healthy in
      let settings : Act World (Unit {0}) =
        (λ (w : World). (o.restore_backup backup w, w)) >> restarted in
      let restored = restore_software_rollback o.roots o.snapshots name in
      let (v, first, rest) = bind-eq-ok restored (λ v. settings) w h in
      let back =
        restore-Agrees o.roots o.snapshots printed disk name files saved w normal regular made
          i.snapshot i.agrees first in
      keeps-bind (IsBack disk) restored (λ v. settings) w back
        (λ v x k.
          keeps-bind (IsBack disk) (λ (w : World). (o.restore_backup backup w, w)) (λ v. restarted)
            x k
            (λ v x k.
              keeps-bind (IsBack disk) (restart_runtime o) (λ v. healthy) x
                (Still-IsBack disk x (restart_runtime o x).1 (restart_runtime-Still o x) k)
                (λ v x k. Still-IsBack disk x (check_health o x).1 (check_health-Still o x) k)))

  failed :
      (backup : Text) (w : World)
      → IsRunning w
      → IsHarmless (conclude_failure o backup name w).0
      → IsBack disk (conclude_failure o backup name w).1
  unfolding conclude_failure
  failed backup w i h =
      let x = roll_back o backup name w in
      concluded disk name (x.0) x.1 (λ u e. rolled-IsBack backup w u i e) h

  installed :
      (backup : Text) (staged : Files) (w : World)
      → All (IsStaged o disk files name (snapshot_archive o.roots o.snapshots saved)) staged
      → IsRunning w
      → IsHarmless (install_or_roll_back o backup name staged w).0
      → IsBack disk (install_or_roll_back o backup name staged w).1
  unfolding install_or_roll_back
  installed backup staged w s i h =
      let archive = snapshot_archive o.roots o.snapshots saved in
      let x = install_update o name staged w in
      both_results (λ (y : Result History × World). IsHarmless y.0 → IsBack disk y.1) (x.0)
        (λ r e g. absurd g)
        (λ e q g.
          failed backup x.1 (install_update-InPlace o disk files name archive staged w s i) g)
        h

-- What the making of a snapshot leaves behind.

module _ (o : Engine)
    (printed : (m : SavedManifest) → o.snapshots.read_saved (o.snapshots.print_saved m) ≡ some m)
    (w : World)
    (regular : (l : Text) → safe_logical_path l ≡ ok l → w.disk (locate o.roots l) ≢ link) where
  with_backup :
      (backup name : Text) (staged : Files)
      → All IsNormalFile staged
      → IsHarmless (update_with_backup o backup name staged w).0
      → IsBack w.disk (update_with_backup o backup name staged w).1
  unfolding update_with_backup
  with_backup backup name staged n h =
      let x = create_software_rollback o.roots o.snapshots name (keys staged) w in
      let (d, made) = snapshot_created o name (keys staged) w in
      let same : IsBack w.disk x.1 = λ p. ap (λ (t : Disk). shown (t p)) d in
      both_results (λ (y : Result History × World). IsHarmless y.0 → IsBack w.disk y.1) (x.0)
        (λ u e g.
          let m = made u e in
          installed o printed w.disk regular (keys staged) (keys-normal staged n) m.saved m.made
            name backup staged x.1
            (All-pair IsNormalFile
              (λ (x : Text × Text).
                contains (map (locate o.roots) (keys staged)) (locate o.roots x.0) ≡ true)
              staged n (staged_targets o.roots staged))
            (record { agrees = λ p k. same p; snapshot = m.found }) g)
        (λ e q g. aborted w.disk x.1 same) h

  by_backup :
      (name : Text) (staged : Files) (r : Result (Option Text))
      → All IsNormalFile staged
      → IsHarmless (update_staged o name staged r w).0
      → IsBack w.disk (update_staged o name staged r w).1
  unfolding update_staged
  by_backup name staged (err e) n h = aborted w.disk w (λ p. refl)
  by_backup name staged (ok none) n h = aborted w.disk w (λ p. refl)
  by_backup name staged (ok (some backup)) n h = with_backup backup name staged n h

  -- An update that is refused, aborted or rolled back leaves every path of the disk with what it
  -- showed before, whichever writes fail, whatever the services answer, and wherever it stopped:
  -- where no file of an update is a link before, and the JSON of a snapshot is read back as written.
  pub apply_update-Unchanged :
      (name : Text) (f : PackageFile)
      → IsHarmless (apply_update o name f w).0
      → Unchanged w.disk (apply_update o name f w).1.disk
  unfolding apply_update
  apply_update-Unchanged name f h =
      both_results (λ (y : Result History × World). IsHarmless y.0 → IsBack w.disk y.1)
        (preflight_update o f true)
        (λ u e.
          both_results (λ (y : Result History × World). IsHarmless y.0 → IsBack w.disk y.1)
            (stage_package o f)
            (λ staged e g.
              by_backup name staged.1 (o.create_backup w) (stage_package-normal o f e) g)
            (λ e q g p. refl))
        (λ e q g p. refl) h
