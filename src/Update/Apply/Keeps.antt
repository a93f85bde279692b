-- ===== src/Update/Apply/Keeps.antt =====
-- update_engine.py: what each part of an update leaves alone.
use mathlib.Core.Path.{subst}
use ge360_bridge.Base.{
  ℕ, zero, suc, ◌==◌, ◌≡◌, refl, sym, ap, ◌∙◌, inl, inr, Bool, true, false, Bool-cases, some, List,
  [], ◌∷◌, map, All, arith, both_branches,
}
use ge360_bridge.Base.Text.{Text, text_eq, text_eq_iff, contains}
use ge360_bridge.Base.Dict.{lookup}
use ge360_bridge.Core.Data.{Result, ok, both_results}
use ge360_bridge.Core.Store.{Act, ◌>>◌, lift}
use ge360_bridge.Core.Store.Checks.{keeps-bind}
use ge360_bridge.Update.Paths.{safe_logical_path, locate}
use ge360_bridge.Update.Package.{PackageFile, Files}
use ge360_bridge.Update.Disk.{
  Entry, file, Disk, World, History, update_entry, set_entry, attempt_write, atomic_install,
  install_payload, write_history,
}
use ge360_bridge.Update.Restore.Copies.{target_for_normal}
use ge360_bridge.Update.Restore.Same.{Agrees, mode_for_normal}
use ge360_bridge.Update.Apply.{good_update, install_update}
use ge360_bridge.Update.Runtime.{
  Engine, restart_all, restart_monitor, restart_runtime, services_active, check_rounds,
  check_health, run_command, core_services, restart_commands,
}

-- A world with the same files and the same snapshots.
abbrev pub Still : World → World → Type 0
Still w w' = (w'.disk ≡ w.disk) × (w'.rollbacks ≡ w.rollbacks)

Still-trans : (u v w : World) → Still u v → Still v w → Still u w
Still-trans u v w a b = (b.0 ∙ a.0, b.1 ∙ a.1)

module _ (o : Engine) where
  restart_all-Still : (cs : List (List Text)) (w : World) → Still w (restart_all o cs w).1
  unfolding restart_all
  restart_all-Still [] w = (refl, refl)
  restart_all-Still (c ∷ cs) w =
      both_branches (λ (x : Result (Unit {0}) × World). Still w x.1) ((run_command o c w).0 == 0)
        (λ e. restart_all-Still cs (run_command o c w).1) (λ e. (refl, refl))

  restart_monitor-Still : (w : World) → Still w (restart_monitor o w).1
  unfolding restart_monitor
  restart_monitor-Still w = ground arith

  pub restart_runtime-Still : (w : World) → Still w (restart_runtime o w).1
  unfolding restart_runtime
  restart_runtime-Still w =
      let x = restart_all o restart_commands w in
      both_results (λ (y : Result (Unit {0}) × World). Still w y.1) (x.0)
        (λ u e.
          Still-trans w x.1 (restart_monitor o x.1).1 (restart_all-Still restart_commands w)
            (restart_monitor-Still x.1))
        (λ e q. restart_all-Still restart_commands w)

  services_active-Still : (units : List Text) (w : World) → Still w (services_active o units w).1
  unfolding services_active
  services_active-Still [] w = (refl, refl)
  services_active-Still (x ∷ units) w = services_active-Still units _

  check_rounds-Still : (n : ℕ) (w : World) → Still w (check_rounds o n w).1
  unfolding check_rounds
  check_rounds-Still zero w = (refl, refl)
  check_rounds-Still (suc n) w =
      let x = services_active o core_services w in
      both_branches (λ (y : Bool × World). Still w y.1) _
        (λ e. services_active-Still core_services w)
        (λ e.
          Still-trans w x.1 (check_rounds o n x.1).1 (services_active-Still core_services w)
            (check_rounds-Still n x.1))

  pub check_health-Still : (w : World) → Still w (check_health o w).1
  unfolding check_health
  check_health-Still w =
      both_branches (λ (x : Result (Unit {0}) × World). Still w x.1) (check_rounds o 10 w).0
        (λ e. check_rounds-Still 10 w) (λ e. check_rounds-Still 10 w)

history_written :
    (h : History) (faults : List Bool) (w : World)
    → Still w (attempt_write (λ (x : World). record x { history = some h }) faults w).1
unfolding attempt_write
history_written h [] w = (refl, refl)
history_written h (true ∷ rest) w = (refl, refl)
history_written h (false ∷ rest) w = (refl, refl)

pub write_history-Still : (h : History) (w : World) → Still w (write_history h w).1
unfolding write_history
write_history-Still h w = history_written h w.faults w

set-Agrees :
    (o : Engine) (disk : Disk) (files : List Text) (p : Text) (e : Entry) (now : Disk)
    → contains (map (locate o.roots) files) p ≡ true
    → Agrees o.roots o.snapshots disk files now
    → Agrees o.roots o.snapshots disk files (update_entry p e now)
set-Agrees o disk files p e now h a q k = elim (Bool-cases (text_eq p q)) [
  | inl f ↦ absurd (
      let g = ap (contains (map (locate o.roots) files)) ((text_eq_iff p q).0 f) in
      ground (arith, g))
  | inr f ↦ rw f (a q k)
]

-- While an update runs: the paths outside its files show what they showed, and the snapshot is there.
module _ (o : Engine) (disk : Disk) (files : List Text) (name : Text) (archive : PackageFile) where
  pub record InPlace (w : World) : Type 0 where
    pub agrees : Agrees o.roots o.snapshots disk files w.disk
    pub snapshot : lookup name w.rollbacks ≡ some archive

  pub Still-InPlace : (w w' : World) → Still w w' → InPlace w → InPlace w'
  Still-InPlace w w' (d, s) i = record {
    agrees = subst (Agrees o.roots o.snapshots disk files) (sym d) i.agrees;
    snapshot = ap (lookup name) s ∙ i.snapshot;
  }

  written :
      (p : Text) (e : Entry) (faults : List Bool) (w : World)
      → contains (map (locate o.roots) files) p ≡ true
      → InPlace w
      → InPlace (attempt_write (set_entry p e) faults w).1
  unfolding attempt_write
  written p e [] w h i = record {
    agrees = set-Agrees o disk files p e w.disk h i.agrees;
    snapshot = i.snapshot;
  }
  written p e (true ∷ rest) w h i = record { agrees = i.agrees; snapshot = i.snapshot }
  written p e (false ∷ rest) w h i = record {
    agrees = set-Agrees o disk files p e w.disk h i.agrees;
    snapshot = i.snapshot;
  }

  -- The files of the staged package are among those that are watched.
  abbrev pub IsStaged : Text × Text → Type 0
  IsStaged x =
      (safe_logical_path x.0 ≡ ok x.0)
      × (contains (map (locate o.roots) files) (locate o.roots x.0) ≡ true)

  install_payload-InPlace :
      (staged : Files) (w : World)
      → All IsStaged staged
      → InPlace w
      → InPlace (install_payload o.roots staged w).1
  unfolding install_payload atomic_install
  install_payload-InPlace [] w s i = i
  install_payload-InPlace ((l, content) ∷ staged) w s i =
      let (m, e) = mode_for_normal l s.0.0 in
      rw (target_for_normal o.roots l s.0.0, e)
        (keeps-bind InPlace (atomic_install (locate o.roots l) content m)
          (λ u. install_payload o.roots staged) w
          (written (locate o.roots l) (file content m) w.faults w s.0.1 i)
          (λ u t k. install_payload-InPlace staged t s.1 k))

  pub install_update-InPlace :
      (staged : Files) (w : World)
      → All IsStaged staged
      → InPlace w
      → InPlace (install_update o name staged w).1
  unfolding install_update
  install_update-InPlace staged w s i =
      let recorded : Act World History =
        write_history (good_update name) >> lift (ok (good_update name)) in
      let checked : Act World History = check_health o >> recorded in
      let restarted : Act World History = restart_runtime o >> checked in
      keeps-bind InPlace (install_payload o.roots staged) (λ u. restarted) w
        (install_payload-InPlace staged w s i)
        (λ u v k.
          keeps-bind InPlace (restart_runtime o) (λ u. checked) v
            (Still-InPlace v (restart_runtime o v).1 (restart_runtime-Still o v) k)
            (λ u x k.
              keeps-bind InPlace (check_health o) (λ u. recorded) x
                (Still-InPlace x (check_health o x).1 (check_health-Still o x) k)
                (λ u y k.
                  keeps-bind InPlace (write_history (good_update name))
                    (λ u. lift (ok (good_update name))) y
                    (Still-InPlace y (write_history (good_update name) y).1
                      (write_history-Still (good_update name) y) k)
                    (λ u z k. k))))
