-- ===== src/Update/Restore/Same.antt =====
-- update_engine.py: a restoration that returns has put back what the snapshot was made of.
use mathlib.Core.Path.{subst}
use ge360_bridge.Base.{
  ℕ, ◌≡◌, ◌≢◌, refl, sym, ap, ◌∙◌, inl, inr, Bool, true, false, Bool-cases, Option, none, some,
  List, [], ◌∷◌, map, length, All, arith, if◌then◌else◌,
}
use ge360_bridge.Base.Text.{Text, text_eq, text_eq_iff, contains}
use ge360_bridge.Base.Dict.{lookup}
use ge360_bridge.Core.Data.{Result, ok, both_results}
use ge360_bridge.Update.Paths.{Roots, safe_logical_path, locate, mode_for, fixed_scripts}
use ge360_bridge.Update.Package.{Files, is_number_of}
use ge360_bridge.Update.Disk.{
  Entry, absent, file, link, Disk, World, update_entry, set_entry, attempt_write,
}
use ge360_bridge.Update.Rollback.{Saved, SnapshotTools, content_of, saved_item}
use ge360_bridge.Update.Restore.{payload_of, restore_file, restore_at, restore_item, restore_items}
use ge360_bridge.Update.Restore.Copies.{Copies, IsItem, target_for_normal}

-- What a path shows: nothing, a file with its content, or a link.
abbrev pub shown : Entry → Option (Option Text)
shown absent = none
shown (file content mode) = some (some content)
shown link = some none

-- A write that returned did its work.
set_entry-ok :
    (p : Text) (e : Entry) (faults : List Bool) (w : World) {u : Unit {0}}
    → (attempt_write (set_entry p e) faults w).0 ≡ ok u
    → (attempt_write (set_entry p e) faults w).1.disk ≡ update_entry p e w.disk
unfolding attempt_write
set_entry-ok p e [] w h = refl
set_entry-ok p e (true ∷ rest) w h = absurd (ground arith)
set_entry-ok p e (false ∷ rest) w h = refl

-- What was found in the payload is the content that the entry had.
abbrev IsFound : Entry → Option Text → Type 0
IsFound e none = Unit
IsFound e (some v) = content_of e ≡ v

found_content :
    (c : Text) (m : ℕ) (found : Option Text)
    → IsFound (file c m) found
    → is_number_of (some (length c)) (length (payload_of found)) ≡ true
    → payload_of found ≡ c
found_content c m (some v) f h = sym f
found_content [] m none f h = refl
found_content (d ∷ c) m none f h = absurd (ground arith)

module _ (r : Roots) (lib : SnapshotTools) where
  restored_file :
      (e : Entry) (l target : Text) (mode : ℕ) (found : Option Text) (w : World) {u : Unit {0}}
      → e ≢ link
      → IsFound e found
      → (restore_file r lib (saved_item r lib l e) l target mode found w).0 ≡ ok u
      → (e' : Entry) × (shown e' ≡ shown e)
        × ((restore_file r lib (saved_item r lib l e) l target mode found w).1.disk
            ≡ update_entry target e' w.disk)
  unfolding restore_file saved_item
  restored_file link l target mode found w n f h = absurd (n refl)
  restored_file absent l target mode (some v) w n f h = absurd (ground arith)
  restored_file absent l target mode none w n f h =
      (absent, refl, set_entry-ok target absent w.faults w h)
  restored_file (file c m) l target mode found w n f h =
      elim (Bool-cases (is_number_of (some (length c)) (length (payload_of found)))) [
        | inl e ↦
            elim (Bool-cases (text_eq (lib.sha256_hex c) (lib.sha256_hex (payload_of found)))) [
              | inl e' ↦ (
                file (payload_of found) mode,
                ap (λ t. some (some t)) (found_content c m found f e),
                rw (e, e')
                    (set_entry-ok target (file (payload_of found) mode) w.faults w
                      (rw (e, e') at h)),
              )
              | inr e' ↦ absurd (let g = rw (e, e') at h in ground arith)
            ]
        | inr e ↦ absurd (let g = rw e at h in ground arith)
      ]

pub mode_for_normal : (l : Text) → safe_logical_path l ≡ ok l → (m : ℕ) × (mode_for l ≡ ok m)
unfolding mode_for
mode_for_normal l n = (if contains fixed_scripts l then 493 else 420, rw n refl)

-- Nothing but the target differs from the disk before, and it shows what it showed.
abbrev pub IsPutBack : Disk → Text → Disk → Disk → Type 0
IsPutBack disk target before after =
    (e : Entry) × (shown e ≡ shown (disk target)) × (after ≡ update_entry target e before)

module _ (r : Roots) (lib : SnapshotTools) (disk : Disk) where
  Copies-IsFound :
      (l : Text) (payload : Files)
      → Copies r lib disk payload
      → IsFound (disk (locate r l)) (lookup l payload)
  unfolding lookup
  Copies-IsFound l [] c = tt
  Copies-IsFound l ((k, v) ∷ payload) c = elim (Bool-cases (text_eq k l)) [
    | inl e ↦
        rw e (
          subst (λ (t : Text). content_of (disk (locate r t)) ≡ v) ((text_eq_iff k l).0 e) c.0.same)
    | inr e ↦ rw e (Copies-IsFound l payload c.1)
  ]

  restore_at-eq :
      (item : Saved) (payload : Files) (l : Text) (w : World) (m : ℕ)
      → safe_logical_path l ≡ ok l
      → mode_for l ≡ ok m
      → restore_at r lib item payload l w
        ≡ restore_file r lib item l (locate r l) m (lookup l payload) w
  unfolding restore_at
  restore_at-eq item payload l w m n e = rw (restore_at, target_for_normal r l n, e) refl

  restore_item-eq :
      (item : Saved) (payload : Files) (w : World)
      → safe_logical_path item.path ≡ ok item.path
      → restore_item r lib item payload w ≡ restore_at r lib item payload item.path w
  unfolding restore_item
  restore_item-eq item payload w n = rw (restore_item, n) refl

  restored_saved :
      (l : Text) (payload : Files) (w : World) {u : Unit {0}}
      → safe_logical_path l ≡ ok l
      → disk (locate r l) ≢ link
      → Copies r lib disk payload
      → (restore_item r lib (saved_item r lib l (disk (locate r l))) payload w).0 ≡ ok u
      → IsPutBack disk
          (locate r l)
          w.disk
          (restore_item r lib (saved_item r lib l (disk (locate r l))) payload w).1.disk
  unfolding saved_item
  restored_saved l payload w {u} n k c h =
      let e = disk (locate r l) in
      let (m, f) = mode_for_normal l n in
      let same =
        restore_item-eq (saved_item r lib l e) payload w n
        ∙ restore_at-eq (saved_item r lib l e) payload l w m n f in
      let (e', s, d) =
        restored_file r lib e l (locate r l) m (lookup l payload) w k (Copies-IsFound l payload c)
          (ap (λ (x : Result (Unit {0}) × World). x.0) (sym same) ∙ h) in
      (e', s, ap (λ (x : Result (Unit {0}) × World). x.1.disk) same ∙ d)

  restored_item :
      (item : Saved) (payload : Files) (w : World) {u : Unit {0}}
      → IsItem r lib disk item
      → disk (locate r item.path) ≢ link
      → Copies r lib disk payload
      → (restore_item r lib item payload w).0 ≡ ok u
      → IsPutBack disk (locate r item.path) w.disk (restore_item r lib item payload w).1.disk
  restored_item item payload w {u} (n, i) k c =
      subst
        (λ (x : Saved).
          (restore_item r lib x payload w).0 ≡ ok u
          → IsPutBack disk (locate r item.path) w.disk (restore_item r lib x payload w).1.disk)
        (sym i) (restored_saved item.path payload w n k c)

  -- The paths that are put back.
  abbrev pub targets_of : List Text → List Text
  targets_of = map (locate r)

  -- A path that shows what it showed, or will be put back.
  abbrev pub Agrees : List Text → Disk → Type 0
  Agrees files now =
      (p : Text) → contains (targets_of files) p ≡ false → shown (now p) ≡ shown (disk p)

  put_back-Agrees :
      (l : Text) (files : List Text) (before after : Disk)
      → IsPutBack disk (locate r l) before after
      → Agrees (l ∷ files) before
      → Agrees files after
  unfolding contains
  put_back-Agrees l files before after (e, s, d) a p k =
      rw (ap (λ (x : Disk). x p) d) (elim (Bool-cases (text_eq (locate r l) p)) [
        | inl f ↦ rw f (s ∙ ap (λ (t : Text). shown (disk t)) ((text_eq_iff (locate r l) p).0 f))
        | inr f ↦ rw f (a p (rw (f, k) refl))
      ])

  pub restore_items-Agrees :
      (items : List Saved) (payload : Files) (w : World) {u : Unit {0}}
      → All (IsItem r lib disk) items
      → All (λ (x : Saved). disk (locate r x.path) ≢ link) items
      → Copies r lib disk payload
      → Agrees (map (λ (x : Saved). x.path) items) w.disk
      → (restore_items r lib items payload w).0 ≡ ok u
      → Agrees [] (restore_items r lib items payload w).1.disk
  unfolding restore_items
  restore_items-Agrees [] payload w i k c a h = a
  restore_items-Agrees (item ∷ items) payload w {u} i k c a h =
      let x = restore_item r lib item payload w in
      both_results (λ (y : Result (Unit {0}) × World). y.0 ≡ ok u → Agrees [] y.1.disk) (x.0)
        (λ v e g.
          restore_items-Agrees items payload x.1 i.1 k.1 c
            (put_back-Agrees item.path (map (λ (x : Saved). x.path) items) w.disk x.1.disk
              (restored_item item payload w i.0 k.0 c e) a)
            g)
        (λ e q g. absurd (ground arith)) h
