-- ===== src/Update/Apply/Staged.antt =====
-- update_engine.py: the files that a package stages.
use mathlib.Core.Path.{subst}
use ge360_bridge.Base.{◌≡◌, refl, inl, inr, true, Bool-cases, List, [], ◌∷◌, map, All, arith}
use ge360_bridge.Base.Text.{Text, text_eq_refl, contains}
use ge360_bridge.Base.Dict.{keys}
use ge360_bridge.Base.Sorted.{text_lt}
use ge360_bridge.Core.Data.{ok, ok-inj, >>=-eq-ok}
use ge360_bridge.Update.Paths.{Roots, safe_logical_path, locate}
use ge360_bridge.Update.Package.{Manifest, PackageFile, Files, read_package}
use ge360_bridge.Update.Package.Sound.{read_package-normal}
use ge360_bridge.Update.Runtime.{Engine, insert_file, sort_files, stage_package}

module _ (P : Text × Text → Type 0) where
  insert_file-All : (f : Text × Text) (fs : Files) → P f → All P fs → All P (insert_file f fs)
  unfolding insert_file
  insert_file-All f [] p a = (p, tt)
  insert_file-All f (g ∷ fs) p a = elim (Bool-cases (text_lt f.0 g.0)) [
    | inl e ↦ rw e (p, a)
    | inr e ↦ rw e (a.0, insert_file-All f fs p a.1)
  ]

  sort_files-All : (fs : Files) → All P fs → All P (sort_files fs)
  unfolding sort_files
  sort_files-All [] a = tt
  sort_files-All (f ∷ fs) a = insert_file-All f (sort_files fs) a.0 (sort_files-All fs a.1)

abbrev pub IsNormalFile : Text × Text → Type 0
IsNormalFile x = safe_logical_path x.0 ≡ ok x.0

pub stage_package-normal :
    (o : Engine) (f : PackageFile) {y : Manifest × Files}
    → stage_package o f ≡ ok y
    → All IsNormalFile y.1
unfolding stage_package
stage_package-normal o f h =
    let (x, e, h1) = >>=-eq-ok (read_package o.tools f) (λ x. ok (x.0, sort_files x.1)) h in
    subst (λ (y : Manifest × Files). All IsNormalFile y.1) (ok-inj h1)
      (sort_files-All IsNormalFile x.1 (read_package-normal o.tools f e))

pub keys-normal :
    (staged : Files)
    → All IsNormalFile staged
    → All (λ (l : Text). safe_logical_path l ≡ ok l) (keys staged)
keys-normal [] a = tt
keys-normal ((l, content) ∷ staged) a = (a.0, keys-normal staged a.1)

-- A text that stands in a list of texts, and in any longer one.
abbrev Below : List Text → List Text → Type 0
Below xs ys = (t : Text) → contains xs t ≡ true → contains ys t ≡ true

-- The place of a staged file is among those of the staged files.
staged-Below :
    (r : Roots) (staged : Files) (all_targets : List Text)
    → Below (map (locate r) (keys staged)) all_targets
    → All (λ (x : Text × Text). contains all_targets (locate r x.0) ≡ true) staged
unfolding contains
staged-Below r [] ts b = tt
staged-Below r ((l, content) ∷ staged) ts b = (
  b (locate r l) (rw (text_eq_refl (locate r l)) refl),
  staged-Below r staged ts (λ t c. b t (rw c (ground arith))),
)

pub staged_targets :
    (r : Roots) (staged : Files)
    → All
        (λ (x : Text × Text). contains (map (locate r) (keys staged)) (locate r x.0) ≡ true)
        staged
staged_targets r staged = staged-Below r staged (map (locate r) (keys staged)) (λ t c. c)
