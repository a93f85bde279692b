-- ===== src/Update/Restore/Copies.antt =====
-- update_engine.py: what a snapshot holds when it is read back: copies of the files it was made of.
use mathlib.Core.Path.{subst}
use ge360_bridge.Base.{
  ◌≡◌, refl, ap, inl, inr, Bool, true, false, Bool-cases, List, [], ◌∷◌, map, length, ltb, All,
  arith, if◌then◌else◌,
}
use ge360_bridge.Base.Text.{Text}
use ge360_bridge.Core.Data.{Result, ok, err, raise_if, ◌>>=◌, ◌>>◌, ok-inj, rollback_file_too_large}
use ge360_bridge.Update.Paths.{Roots, safe_logical_path, locate, target_for}
use ge360_bridge.Update.Package.{Files, max_member_bytes}
use ge360_bridge.Update.Disk.{Disk}
use ge360_bridge.Update.Rollback.{
  Saved, SnapshotTools, content_of, is_regular_entry, saved_item, save_files,
}

-- A path that is its own normal form, and whose file had this content.
module _ (r : Roots) (lib : SnapshotTools) (disk : Disk) where
  pub record IsCopy (logical content : Text) : Type 0 where
    pub normal : safe_logical_path logical ≡ ok logical
    pub regular : is_regular_entry (disk (locate r logical)) ≡ true
    pub same : content_of (disk (locate r logical)) ≡ content

  abbrev pub Copies : Files → Type 0
  Copies payload = All (λ (x : Text × Text). IsCopy x.0 x.1) payload

  -- The item that a snapshot has of a path.
  abbrev pub IsItem : Saved → Type 0
  IsItem item =
      (safe_logical_path item.path ≡ ok item.path)
      × (item ≡ saved_item r lib item.path (disk (locate r item.path)))

saved_step :
    {X Y : Type 0} (b : Bool) (m : Result X) (f : X → Y) {y : Y}
    → (raise_if b rollback_file_too_large >> (m >>= λ x. ok (f x))) ≡ ok y
    → (x : X) × (m ≡ ok x) × (f x ≡ y)
saved_step true m f h = absurd (ground arith)
saved_step false (ok x) f h = (x, refl, ok-inj h)
saved_step false (err e) f h = absurd (ground arith)

pub target_for_normal :
    (r : Roots) (l : Text) → safe_logical_path l ≡ ok l → target_for r l ≡ ok (locate r l)
unfolding target_for
target_for_normal r l n = rw n refl

module _ (r : Roots) (lib : SnapshotTools) (disk : Disk) where
  saved_copy :
      (l : Text) (payload : Files)
      → safe_logical_path l ≡ ok l
      → Copies r lib disk payload
      → Copies r lib disk (
          if is_regular_entry (disk (locate r l))
          then (l, content_of (disk (locate r l))) ∷ payload
          else payload)
  saved_copy l payload n c = elim (Bool-cases (is_regular_entry (disk (locate r l)))) [
    | inl e ↦ rw e (record { normal = n; regular = e; same = refl }, c)
    | inr e ↦ rw e c
  ]

  -- What a snapshot is made of.
  pub save_files_lem :
      (files : List Text) {saved : List Saved × Files}
      → All (λ (l : Text). safe_logical_path l ≡ ok l) files
      → save_files r lib disk files ≡ ok saved
      → All (IsItem r lib disk) saved.0
        × Copies r lib disk saved.1
        × (map (λ (x : Saved). x.path) saved.0 ≡ files)
  unfolding save_files
  save_files_lem [] {saved} n h =
      let e : ([], []) ≡ saved = ok-inj h in
      subst
        (λ (x : List Saved × Files).
          All (IsItem r lib disk) x.0
          × Copies r lib disk x.1
          × (map (λ (y : Saved). y.path) x.0 ≡ []))
        e (tt, tt, refl)
  save_files_lem (l ∷ files) {saved} n h =
      let e = disk (locate r l) in
      let (rest, g, q) =
        saved_step (ltb max_member_bytes (length (content_of e))) (save_files r lib disk files)
          (λ rest. (
            saved_item r lib l e ∷ rest.0,
            if is_regular_entry e then (l, content_of e) ∷ rest.1 else rest.1,
          ))
          (rw (target_for_normal r l n.0) at h) in
      let (items, copies, paths) = save_files_lem files n.1 g in
      subst
        (λ (x : List Saved × Files).
          All (IsItem r lib disk) x.0
          × Copies r lib disk x.1
          × (map (λ (y : Saved). y.path) x.0 ≡ l ∷ files))
        q
        (((n.0, refl), items), saved_copy l rest.1 n.0 copies, ap (λ (t : List Text). l ∷ t) paths)
