-- ===== src/Update/Disk.antt =====
-- update_engine.py: the files of the system, and what the engine does to them.
use ge360_bridge.Base.{ℕ, Bool, true, false, Option, some, List, [], ◌∷◌, if◌then◌else◌}
use ge360_bridge.Base.Text.{Text, text_eq}
use ge360_bridge.Core.Data.{ok, err, os_error}
use ge360_bridge.Core.Store.{Act, ◌>>=◌, ◌>>◌, lift}
use ge360_bridge.Update.Paths.{Roots, target_for, mode_for}
use ge360_bridge.Update.Package.{PackageFile}

-- What stands at a path. A link is a symbolic link or anything else that is no regular file.
pub data Entry : Type 0 where
  absent : Entry
  file : (content : Text) (mode : ℕ) → Entry
  link : Entry

abbrev pub Disk : Type 0
Disk = Text → Entry

abbrev pub update_entry : Text → Entry → Disk → Disk
update_entry p e d q = if text_eq p q then e else d q

-- `last-update.json`, as far as the outcome goes.
pub record History : Type 0 where
  pub succeeded : Bool
  pub rolled_back : Bool
  pub software_rollback : Option Text

-- The world of an update. `faults` says of each coming write whether it raises `OSError`; `commands`
-- holds the `systemctl` commands issued, with the latest first, and `rollbacks` the snapshots in the
-- folder of updates, with the newest first.
pub record World : Type 0 where
  pub disk : Disk
  pub faults : List Bool
  pub rollbacks : List (Text × PackageFile)
  pub history : Option History
  pub commands : List (List Text)

-- A write, which raises before it has changed anything or does its work.
unfoldable pub attempt_write : (World → World) → List Bool → Act World (Unit {0})
attempt_write f [] w = (ok tt, f w)
attempt_write f (true ∷ rest) w = (err os_error, record w { faults = rest })
attempt_write f (false ∷ rest) w = (ok tt, f (record w { faults = rest }))

abbrev pub set_entry : Text → Entry → World → World
set_entry p e w = record w { disk = update_entry p e w.disk }

-- `_atomic_install`: a temporary file takes the place of the target.
unfoldable pub atomic_install : Text → Text → ℕ → Act World (Unit {0})
unfolding attempt_write
atomic_install target content mode w =
    attempt_write (set_entry target (file content mode)) w.faults w

-- `target.unlink(missing_ok=True)`
unfoldable pub unlink : Text → Act World (Unit {0})
unfolding attempt_write
unlink target w = attempt_write (set_entry target absent) w.faults w

-- `_write_history`
unfoldable pub write_history : History → Act World (Unit {0})
unfolding attempt_write
write_history h w = attempt_write (λ (x : World). record x { history = some h }) w.faults w

-- `_install_payload`: the files that were staged, in the order of their paths.
unfoldable pub install_payload : Roots → List (Text × Text) → Act World (Unit {0})
unfolding target_for mode_for atomic_install
install_payload r [] w = (ok tt, w)
install_payload r ((logical, content) ∷ staged) w =
    (do
      target ← lift (target_for r logical)
      mode ← lift (mode_for logical)
      atomic_install target content mode
      install_payload r staged)
      w
