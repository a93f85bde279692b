-- ===== src/Update/Runtime.antt =====
-- update_engine.py: the preflight of a package, the restart of the services and their health check.
use ge360_bridge.Base.{
  ℕ, zero, suc, ◌==◌, ◌&&◌, ◌||◌, Bool, true, false, Option, List, [], ◌∷◌, all, keep,
  if◌then◌else◌, map,
}
use ge360_bridge.Base.Text.{Text, text, text_eq, starts_with, has_substring}
use ge360_bridge.Base.Sorted.{text_lt}
use ge360_bridge.Core.Data.{
  Result, ok, err, ◌>>=◌, ◌>>◌, guard, preflight_python, preflight_shell, preflight_unit,
  restart_failed, health_failed,
}
use ge360_bridge.Core.Store.{Act}
use ge360_bridge.Update.Paths.{Roots}
use ge360_bridge.Update.Package.{Tools, PackageFile, Files, Manifest, read_package, verify_update}
use ge360_bridge.Update.Disk.{World}
use ge360_bridge.Update.Rollback.{SnapshotTools}

-- What the engine calls: the folders, the Python library, the version that runs, the return code of
-- a `systemctl` command after the commands before it, the answer of a health URL, `compileall` on
-- the staged package, `bash -n` on a script, and the two functions of backup.py on the settings,
-- which are no files of an update (`create_backup` may return no name).
pub record Engine : Type 0 where
  pub roots : Roots
  pub tools : Tools
  pub snapshots : SnapshotTools
  pub current_version : Text
  pub run : List (List Text) → List Text → ℕ
  pub http_ok : List (List Text) → Text → Bool
  pub compiles : Files → Bool
  pub shell_ok : Text → Bool
  pub create_backup : World → Result (Option Text)
  pub restore_backup : Text → World → Result (Unit {0})

-- `sorted` of the staged files, by their paths.
unfoldable pub insert_file : Text × Text → Files → Files
unfolding text_lt
insert_file f [] = f ∷ []
insert_file f (g ∷ fs) = if text_lt f.0 g.0 then f ∷ g ∷ fs else g ∷ insert_file f fs

unfoldable pub sort_files : Files → Files
unfolding insert_file
sort_files [] = []
sort_files (f ∷ fs) = insert_file f (sort_files fs)

abbrev pub is_shell_file : Text × Text → Bool
is_shell_file f = text_eq f.0 (text "ge360-bridge") || starts_with f.0 (text "scripts/")

abbrev pub is_unit_file : Text × Text → Bool
is_unit_file f = starts_with f.0 (text "systemd/")

abbrev pub is_unit_text : Text → Bool
is_unit_text s =
    has_substring s (text "[Unit]")
    && (has_substring s (text "[Service]") || has_substring s (text "[Timer]"))

-- `CORE_SERVICES`
abbrev pub core_services : List Text
core_services =
    text "wg-quick@wg0.service"
    ∷ text "ge360-bridge-firewall.service"
    ∷ text "ge360-bridge.service"
    ∷ text "ge360-bridge-dashboard.service"
    ∷ text "ge360-bridge-enrollment.service"
    ∷ text "ge360-bridge-multi-server.service"
    ∷ []

abbrev pub relay_monitor : Text
relay_monitor = text "ge360-bridge-relay-monitor.service"

abbrev pub is_active_command : Text → List Text
is_active_command unit = text "is-active" ∷ text "--quiet" ∷ unit ∷ []

abbrev pub restart_command : Text → List Text
restart_command unit = text "restart" ∷ unit ∷ []

abbrev pub restart_commands : List (List Text)
restart_commands = (text "daemon-reload" ∷ []) ∷ map restart_command core_services

module _ (o : Engine) where
  -- `_stage_package`: the manifest, and the staged files in order.
  unfoldable pub stage_package : PackageFile → Result (Manifest × Files)
  unfolding read_package sort_files
  stage_package f = do
    (manifest, members) ← read_package o.tools f
    ok (manifest, sort_files members)

  -- `preflight_update`, up to what it returns.
  unfoldable pub preflight_update : PackageFile → Bool → Result (Unit {0})
  unfolding verify_update stage_package text_eq starts_with has_substring
  preflight_update f require_newer = do
    verify_update o.tools o.current_version f require_newer
    (manifest, staged) ← stage_package f
    guard (o.compiles staged) preflight_python
    guard (all (λ (x : Text × Text). o.shell_ok x.1) (keep is_shell_file staged)) preflight_shell
    guard (all (λ (x : Text × Text). is_unit_text x.1) (keep is_unit_file staged)) preflight_unit
    ok tt

  -- One `systemctl` command: its return code.
  unfoldable pub run_command : List Text → World → ℕ × World
  run_command args w = (o.run w.commands args, record w { commands = args ∷ w.commands })

  -- The commands of `restart_runtime`, up to the first that fails.
  unfoldable pub restart_all : List (List Text) → Act World (Unit {0})
  unfolding run_command
  restart_all [] w = (ok tt, w)
  restart_all (args ∷ rest) w =
      let (code, w') = run_command args w in
      let others = restart_all rest w' in if code == 0 then others else (err restart_failed, w')

  -- The relay monitor, which is restarted where it runs.
  unfoldable pub restart_monitor : Act World (Unit {0})
  unfolding run_command
  restart_monitor w =
      let (code, w') = run_command (is_active_command relay_monitor) w in
      let (done, w'') = run_command (restart_command relay_monitor) w' in
      if code == 0
      then if done == 0 then (ok tt, w'') else (err restart_failed, w'')
      else (ok tt, w')

  unfoldable pub restart_runtime : Act World (Unit {0})
  unfolding restart_all restart_monitor
  restart_runtime w =
      let (done, w') = restart_all restart_commands w in
      elim done [ err e ↦ (err e, w') | ok u ↦ restart_monitor w' ]

  -- Whether the units are active; each is asked for, also after one that is not.
  unfoldable pub services_active : List Text → World → Bool × World
  unfolding run_command
  services_active [] w = (true, w)
  services_active (unit ∷ units) w =
      let (code, w') = run_command (is_active_command unit) w in
      let (others, w'') = services_active units w' in (code == 0 && others, w'')

  -- The loop of `health_check_runtime`, with the attempts left.
  unfoldable pub check_rounds : ℕ → World → Bool × World
  unfolding services_active
  check_rounds zero w = (false, w)
  check_rounds (suc n) w =
      let (active, w') = services_active core_services w in
      let rest = check_rounds n w' in
      if active
        && o.http_ok w'.commands (text "http://127.0.0.1:8789/healthz")
        && o.http_ok w'.commands (text "https://127.0.0.1:8790/healthz")
      then (true, w')
      else rest

  -- `health_checker(runner=runner)` and the raise where it is not well.
  unfoldable pub check_health : Act World (Unit {0})
  unfolding check_rounds
  check_health w =
      let (healthy, w') = check_rounds 10 w in
      if healthy then (ok tt, w') else (err health_failed, w')
