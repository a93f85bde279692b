-- ===== src/Update/Restore/Gather.antt =====
-- update_engine.py: the reading of a snapshot gives the copies that it was made of.
use mathlib.Core.Path.{subst}
use ge360_bridge.Base.{
  ℕ, ◌+◌, ◌==◌, ◌&&◌, ◌≡◌, refl, sym, ap, ◌∙◌, inl, inr, Bool, true, false, Bool-cases, none, some,
  List, [], ◌∷◌, ◌++◌, map, length, take, take-all, length-take, ltb, leb, arith,
}
use ge360_bridge.Base.Text.{Text, text, text_eq, starts_with}
use ge360_bridge.Core.Data.{
  Result, ok, err, raise_if, guard, update_too_large, update_member_size, ◌>>=◌, ◌>>◌, ok-inj,
  update_too_many_files, rollback_schema, >>=-eq-ok,
}
use ge360_bridge.Update.Paths.{Roots, safe_logical_path}
use ge360_bridge.Update.Package.{Files, read_stream, max_member_bytes, max_unpacked_bytes}
use ge360_bridge.Update.Disk.{Disk}
use ge360_bridge.Update.Rollback.{
  Saved, SavedManifest, SnapshotTools, snapshot_archive, member_of, payload_member,
  snapshot_archive,
}
use ge360_bridge.Update.Restore.{
  Gathered, gather, gather_member, gather_members, check_saved, read_rollback,
}
use ge360_bridge.Update.Restore.Copies.{IsCopy, Copies}

take-full {ℓ} : {A : Type ℓ} (n : ℕ) (xs : List A) → length (take n xs) ≡ length xs → take n xs ≡ xs
take-full n xs h = take-all n xs (omega (arith, length-take {ℓ} n xs))

-- The checks on a member passed, and its content was placed.
member_step :
    {X : Type 0} (a : Bool) (b : Text → Bool) (t : Text) (size : ℕ) (k : Text → Result X) {x : X}
    → (raise_if a update_too_large
        >> (ok t >>= λ c. guard (length c == size && b c) update_member_size >> k c))
      ≡ ok x
    → (length t ≡ size) × (k t ≡ ok x)
member_step true b t size k h = absurd (ground arith)
member_step false b t size k h = elim (Bool-cases (length t == size)) [
  | inl e ↦ elim (Bool-cases (b t)) [
    | inl f ↦ (ground arith, rw (e, f) at h)
    | inr f ↦ absurd (let g = rw (e, f) at h in ground arith)
  ]
  | inr e ↦ absurd (let g = rw e at h in ground arith)
]

gather_payload :
    (r : Roots) (lib : SnapshotTools) (l content : Text) (g : Gathered)
    → safe_logical_path l ≡ ok l
    → gather r lib (text "payload/" ++ l) content g
      ≡ ok (record g { payload = (l, content) ∷ g.payload })
unfolding gather text_eq starts_with
gather_payload r lib l content g n = rw n refl

module _ (r : Roots) (lib : SnapshotTools) (disk : Disk) where
  -- A member of the payload adds a copy.
  gather_copy :
      (l content : Text) (g : Gathered) {h : Gathered}
      → IsCopy r lib disk l content
      → Copies r lib disk g.payload
      → gather_member r lib (payload_member r lib (l, content)) g ≡ ok h
      → Copies r lib disk h.payload × (h.manifest ≡ g.manifest)
  unfolding gather_member read_stream
  gather_copy l content g {h} c cs e =
      let (len, placed) =
        member_step (ltb max_unpacked_bytes (g.unpacked + length content))
          (λ t. leb (length t) max_member_bytes) (take (max_member_bytes + 1) content)
          (length content)
          (λ t.
            gather r lib (text "payload/" ++ l) t
              (record g { unpacked = g.unpacked + length content }))
          e in
      let whole : take (max_member_bytes + 1) content ≡ content =
        take-full (max_member_bytes + 1) content len in
      let g' : Gathered = record g { unpacked = g.unpacked + length content } in
      let same = ok-inj (
        sym (gather_payload r lib l content g' c.normal)
        ∙ subst (λ (t : Text). gather r lib (text "payload/" ++ l) t g' ≡ ok h) whole placed) in
      (
        subst (λ (x : Gathered). Copies r lib disk x.payload) same (c, cs),
        subst (λ (x : Gathered). x.manifest ≡ g.manifest) same refl,
      )

  gather-Copies :
      (payload : Files) (g : Gathered) {h : Gathered}
      → Copies r lib disk payload
      → Copies r lib disk g.payload
      → gather_members r lib (map (payload_member r lib) payload) g ≡ ok h
      → Copies r lib disk h.payload × (h.manifest ≡ g.manifest)
  unfolding gather_members
  gather-Copies [] g c cs e =
      let same = ok-inj e in
      (
        subst (λ (x : Gathered). Copies r lib disk x.payload) same cs,
        subst (λ (x : Gathered). x.manifest ≡ g.manifest) same refl,
      )
  gather-Copies ((l, content) ∷ payload) g c cs e =
      let (k, first, rest) =
        >>=-eq-ok (gather_member r lib (payload_member r lib (l, content)) g)
          (gather_members r lib (map (payload_member r lib) payload)) e in
      let (cs', m) = gather_copy l content g c.0 cs first in
      let (cs'', m') = gather-Copies payload k c.1 cs' rest in (cs'', m' ∙ m)

  -- The member of the manifest.
  gather_manifest :
      (raw : Text) (m : SavedManifest) (g : Gathered) {h : Gathered}
      → lib.read_saved raw ≡ some m
      → gather_member r lib (member_of r lib (text "manifest.json") raw) g ≡ ok h
      → (h.payload ≡ g.payload) × (h.manifest ≡ some m)
  unfolding gather_member read_stream gather text_eq
  gather_manifest raw m g {h} p e =
      let (len, placed) =
        member_step (ltb max_unpacked_bytes (g.unpacked + length raw))
          (λ t. leb (length t) max_member_bytes) (take (max_member_bytes + 1) raw) (length raw)
          (λ t.
            gather r lib (text "manifest.json") t (record g { unpacked = g.unpacked + length raw }))
          e in
      let whole : take (max_member_bytes + 1) raw ≡ raw =
        take-full (max_member_bytes + 1) raw len in
      let same = ok-inj (
        rw p at (
          subst
            (λ (t : Text).
              gather r lib (text "manifest.json") t
                (record g { unpacked = g.unpacked + length raw })
              ≡ ok h)
            whole placed)) in
      (
        subst (λ (x : Gathered). x.payload ≡ g.payload) same refl,
        subst (λ (x : Gathered). x.manifest ≡ some m) same refl,
      )

archive_step :
    (r : Roots) (lib : SnapshotTools) (b : Bool) (first : Result Gathered)
    {y : SavedManifest × Files}
    → (raise_if b update_too_many_files
        >> (first >>= λ g. check_saved r lib g.manifest >>= λ m. ok (m, g.payload)))
      ≡ ok y
    → (g : Gathered) × (first ≡ ok g) × (check_saved r lib g.manifest ≡ ok y.0) × (g.payload ≡ y.1)
archive_step r lib true first h = absurd (ground arith)
archive_step r lib false (err e) h = absurd (ground arith)
archive_step r lib false (ok g) h =
    let (m, e, q) = >>=-eq-ok (check_saved r lib g.manifest) (λ m. ok (m, g.payload)) h in
    let same = ok-inj q in (g, refl, e ∙ ap (λ x. ok x.0) same, ap (λ x. x.1) same)

check_saved-eq :
    (r : Roots) (lib : SnapshotTools) (m : SavedManifest) {n : SavedManifest}
    → check_saved r lib (some m) ≡ ok n
    → m ≡ n
unfolding check_saved
check_saved-eq r lib m h =
    let (u, e, q) =
      >>=-eq-ok
        (guard (text_eq m.schema (text "ge360-bridge-software-rollback/v1")) rollback_schema)
        (λ u. ok m) h in
    ok-inj q

-- A snapshot that can be read gives back the items it was made of, and copies of the contents.
module _ (r : Roots) (lib : SnapshotTools)
    (printed : (m : SavedManifest) → lib.read_saved (lib.print_saved m) ≡ some m)
    (disk : Disk) where
  pub read_rollback-Copies :
      (saved : List Saved × Files) {y : SavedManifest × Files}
      → Copies r lib disk saved.1
      → read_rollback r lib (some (snapshot_archive r lib saved)) ≡ ok y
      → (y.0.files ≡ some saved.0) × Copies r lib disk y.1
  unfolding read_rollback snapshot_archive gather_members
  read_rollback-Copies saved {y} cs h =
      let start : Gathered = record { unpacked = 0; payload = []; manifest = none } in
      let m : SavedManifest = record {
        schema = text "ge360-bridge-software-rollback/v1";
        files = some saved.0;
      } in
      let members = map (payload_member r lib) saved.1 in
      let (g, got, checked, same) = archive_step r lib _ _ h in
      let (k, first, rest) =
        >>=-eq-ok
          (gather_member r lib (member_of r lib (text "manifest.json") (lib.print_saved m)) start)
          (gather_members r lib members) got in
      let (empty, found) =
        gather_manifest r lib disk (lib.print_saved m) m start (printed m) first in
      let (copies, kept) =
        gather-Copies r lib disk saved.1 k cs
          (subst (λ (p : Files). Copies r lib disk p) (sym empty) tt) rest in
      (
        ap (λ (x : SavedManifest). x.files)
            (sym (check_saved-eq r lib m (ap (check_saved r lib) (sym (kept ∙ found)) ∙ checked))),
        subst (Copies r lib disk) same copies,
      )
