-- ===== src/Update/Package/Verified.antt =====
-- update_engine.py: the files of a package that was read are those that its manifest declares, with
-- the sizes, the modes and the hashes that it declares.
use mathlib.Core.Path.{subst}
use ge360_bridge.Base.{
  ℕ, ◌+◌, ◌==◌, ◌≡◌, refl, sym, ap, ◌∙◌, inl, inr, ◌&&◌, true, false, Bool-cases, Option, none,
  some, List, [], ◌∷◌, Memᴰ, drop, all, ltb, leb, All, All-append, length, arith, &&-true,
}
use ge360_bridge.Base.Text.{Text, text, text_eq, text_eq_iff, contains, starts_with}
use ge360_bridge.Base.Dict.{lookup, keys}
use ge360_bridge.Core.Data.{ok, ok-inj, last_of, guarded, passed, >>=-eq-ok}
use ge360_bridge.Update.Paths.{safe_logical_path, mode_for}
use ge360_bridge.Update.Paths.Normal.{safe_logical_path_idem}
use ge360_bridge.Update.Version.{validate_version}
use ge360_bridge.Update.Package.{
  Member, MemberKey, manifest_key, payload_key, Declared, Manifest, Tools, PackageFile, Files,
  Reading, read_regular_file, archive_members, read_member, read_members, nothing_read,
  parse_manifest, check_declared, check_all_declared, recheck, keep_member, key_of, read_stream,
  read_package, required_runtime_paths, validate_sha256_hex, is_number_of, found_payload, is_known,
  max_package_files, max_unpacked_bytes, max_member_bytes,
}
use ge360_bridge.Update.Package.Sound.{IsChecked, check_manifest-IsChecked}

abbrev IsNormal : Text × Text → Type 0
IsNormal x = safe_logical_path x.0 ≡ ok x.0

key_of-normal :
    (name : Text) {logical : Text}
    → key_of name ≡ ok (payload_key logical)
    → safe_logical_path logical ≡ ok logical
unfolding key_of
key_of-normal name {logical} h = elim (Bool-cases (text_eq name (text "manifest.json"))) [
  | inl e ↦ absurd (let g = rw e at h in ground arith)
  | inr e ↦ elim (Bool-cases (starts_with name (text "payload/"))) [
    | inl f ↦
        let (l, p, q) =
          >>=-eq-ok (safe_logical_path (drop 8 name)) (λ l. ok (payload_key l)) (rw (e, f) at h) in
        subst (λ (t : Text). safe_logical_path t ≡ ok t)
          (ap (λ k. elim k [ manifest_key ↦ l | payload_key t ↦ t ]) (ok-inj q))
          (safe_logical_path_idem (drop 8 name) p)
    | inr f ↦ absurd (let g = rw (e, f) at h in ground arith)
  ]
]

keep_member-IsNormal :
    (key : MemberKey) (content : Text) (n : ℕ) (r : Reading)
    → ((l : Text) → key ≡ payload_key l → safe_logical_path l ≡ ok l)
    → All IsNormal r.members
    → All IsNormal (keep_member key content n r).members
unfolding keep_member
keep_member-IsNormal manifest_key content n r k a = a
keep_member-IsNormal (payload_key l) content n r k a =
    All-append IsNormal r.members ((l, content) ∷ []) a (k l refl, tt)

read_member-IsNormal :
    (m : Member) (r : Reading) {s : Reading}
    → read_member m r ≡ ok s
    → All IsNormal r.members
    → All IsNormal s.members
unfolding read_member
read_member-IsNormal m r {s} h a =
    let (small, h1) = passed (ltb max_unpacked_bytes (r.unpacked + m.size)) _ _ h in
    let (regular, h2) = guarded m.is_regular _ _ h1 in
    let (fits, h3) = passed (ltb max_member_bytes m.size) _ _ h2 in
    let (key, e, h4) = >>=-eq-ok (key_of m.name) _ h3 in
    let (new, h5) = passed (is_known key r) _ _ h4 in
    let (content, f, h6) = >>=-eq-ok (read_stream m.content) _ h5 in
    subst (λ (x : Reading). All IsNormal x.members)
      (ok-inj
        (guarded (length content == m.size && leb (length content) max_member_bytes) _ _ h6).1)
      (keep_member-IsNormal key content (r.unpacked + m.size) r
        (λ l q. key_of-normal m.name (e ∙ ap (λ k. ok k) q)) a)

read_members-IsNormal :
    (ms : List Member) (r : Reading) {s : Reading}
    → read_members ms r ≡ ok s
    → All IsNormal r.members
    → All IsNormal s.members
unfolding read_members
read_members-IsNormal [] r h a = subst (λ (x : Reading). All IsNormal x.members) (ok-inj h) a
read_members-IsNormal (m ∷ ms) r h a =
    let (s, e, h1) = >>=-eq-ok (read_member m r) (read_members ms) h in
    read_members-IsNormal ms s h1 (read_member-IsNormal m r e a)

found_some : (o : Option Text) {c : Text} → found_payload o ≡ ok c → o ≡ some c
found_some none h = absurd (ground arith)
found_some (some c) h = ap (λ x. some x) (ok-inj h)

module _ (lib : Tools) where
  recheck-same : (members : Files) → All IsNormal members → recheck lib members ≡ ok members
  unfolding recheck
  recheck-same [] a = refl
  recheck-same ((k, v) ∷ members) a = rw (recheck, a.0, recheck-same members a.1) refl

  -- An item of a manifest, with the file of the package that it describes.
  pub record IsVerified (members : Files) (item : Declared) : Type 0 where
    pub logical : Text
    pub content : Text
    pub mode : ℕ
    pub path : safe_logical_path item.path ≡ ok logical
    pub found : lookup logical members ≡ some content
    pub size : is_number_of item.size (length content) ≡ true
    pub mode_of : mode_for logical ≡ ok mode
    pub same_mode : is_number_of item.mode mode ≡ true
    pub hash : validate_sha256_hex item.sha256 ≡ ok (lib.sha256_hex content)

  check_declared-IsVerified :
      (members : Files) (seen : List Text) (item : Declared) {l : Text}
      → check_declared lib members seen item ≡ ok l
      → (v : IsVerified members item) × (v.logical ≡ l)
  unfolding check_declared
  check_declared-IsVerified members seen item {l} h =
      let (logical, p, h1) = >>=-eq-ok (safe_logical_path item.path) _ h in
      let h1' = last_of _ _ h1 in
      let (mode, q, h2) = >>=-eq-ok (mode_for logical) _ h1' in
      let (same_mode, h3) = guarded _ _ _ h2 in
      let (content, f, h4) = >>=-eq-ok (found_payload (lookup logical members)) _ h3 in
      let (size, h5) = guarded _ _ _ h4 in
      let (digest, d, h6) = >>=-eq-ok (validate_sha256_hex item.sha256) _ h5 in
      let (same, h7) = guarded _ _ _ h6 in
      (
        record {
          logical = logical;
          content = content;
          mode = mode;
          path = p;
          found = found_some (lookup logical members) f;
          size = size;
          mode_of = q;
          same_mode = same_mode;
          hash = d ∙ ap (λ x. ok x) ((text_eq_iff digest (lib.sha256_hex content)).0 same);
        },
        ok-inj h7,
      )

  check-All-IsVerified :
      (members : Files) (seen : List Text) (items : List Declared) {seen' : List Text}
      → check_all_declared lib members seen items ≡ ok seen'
      → All (IsVerified members) items
  unfolding check_all_declared
  check-All-IsVerified members seen [] h = tt
  check-All-IsVerified members seen (item ∷ items) h =
      let (l, e, h1) =
        >>=-eq-ok (check_declared lib members seen item)
          (λ l. check_all_declared lib members (l ∷ seen) items) h in
      (
        (check_declared-IsVerified members seen item e).0,
        check-All-IsVerified members (l ∷ seen) items h1,
      )

  -- A path that was added to the seen ones is that of an item.
  seen_declared :
      (members : Files) (seen : List Text) (items : List Declared) (k : Text) {seen' : List Text}
      → check_all_declared lib members seen items ≡ ok seen'
      → contains seen' k ≡ true
      → contains seen k ≡ false
      → (item : Declared) × Memᴰ item items × (safe_logical_path item.path ≡ ok k)
  unfolding check_all_declared contains
  seen_declared members seen [] k h c n =
      absurd (let same = ap (λ (t : List Text). contains t k) (ok-inj h) in cc)
  seen_declared members seen (item ∷ items) k h c n =
      let (l, e, h1) =
        >>=-eq-ok (check_declared lib members seen item)
          (λ l. check_all_declared lib members (l ∷ seen) items) h in
      let (v, q) = check_declared-IsVerified members seen item e in
      elim (Bool-cases (text_eq l k)) [
        | inl f ↦ (item, Memᴰ.head refl, v.path ∙ ap (λ x. ok x) (q ∙ (text_eq_iff l k).0 f))
        | inr f ↦
            let (i, m, p) = seen_declared members (l ∷ seen) items k h1 c (rw (f, n) refl) in
            (i, Memᴰ.tail m, p)
      ]

all-contains :
    (seen xs : List Text) (k : Text)
    → all (contains seen) xs ≡ true
    → contains xs k ≡ true
    → contains seen k ≡ true
unfolding contains
all-contains seen [] k a c = absurd (ground arith)
all-contains seen (x ∷ xs) k a c = elim (Bool-cases (text_eq x k)) [
  | inl e ↦
      subst (λ t. contains seen t ≡ true) ((text_eq_iff x k).0 e)
        (&&-true (contains seen x) (all (contains seen) xs) a).0
  | inr e ↦
      all-contains seen xs k (&&-true (contains seen x) (all (contains seen) xs) a).1 (rw e at c)
]

all_through :
    (seen ks xs : List Text)
    → all (contains ks) seen ≡ true
    → all (contains seen) xs ≡ true
    → all (contains ks) xs ≡ true
all_through seen ks [] a b = refl
all_through seen ks (x ∷ xs) a b =
    let (c, d) = &&-true (contains seen x) (all (contains seen) xs) b in
    rw (all-contains ks seen x a c) (all_through seen ks xs a d)

of_checked :
    (lib : Tools) (m m' : Manifest) (members members' : Files) {y : Manifest × Files}
    → IsChecked lib m members y
    → m ≡ m'
    → members ≡ members'
    → All (IsVerified lib members') m'.files
      × ((k : Text)
          → contains (keys members') k ≡ true
          → (item : Declared) × Memᴰ item m'.files × (safe_logical_path item.path ≡ ok k))
      × ((version : Text) × (validate_version m'.version ≡ ok version))
      × (all (contains (keys members')) required_runtime_paths ≡ true)
of_checked lib m m' members members' c p q =
    let (a, b) =
      &&-true (all (contains (keys members)) c.seen) (all (contains c.seen) (keys members))
        c.matching in
    subst
      (λ (z : Manifest × Files).
        All (IsVerified lib z.1) z.0.files
        × ((k : Text)
            → contains (keys z.1) k ≡ true
            → (item : Declared) × Memᴰ item z.0.files × (safe_logical_path item.path ≡ ok k))
        × ((version : Text) × (validate_version z.0.version ≡ ok version))
        × (all (contains (keys z.1)) required_runtime_paths ≡ true))
      (λ i. (p i, q i))
      (
        check-All-IsVerified lib members [] m.files c.declared,
        λ k e.
            seen_declared lib members [] m.files k c.declared
              (all-contains c.seen (keys members) k b e) (unfold contains in refl),
        (c.version, c.valid),
        all_through c.seen (keys members) required_runtime_paths a c.complete,
      )

-- A package that is accepted is the one that its manifest describes: each item has its file, with
-- the size, the mode and the hash of the item; each file is that of an item; the version is a
-- version; and the files that the program needs to run are there.
pub read_package-IsVerified :
    (lib : Tools) (f : PackageFile) {m : Manifest} {members : Files}
    → read_package lib f ≡ ok (m, members)
    → All (IsVerified lib members) m.files
      × ((k : Text)
          → contains (keys members) k ≡ true
          → (item : Declared) × Memᴰ item m.files × (safe_logical_path item.path ≡ ok k))
      × ((version : Text) × (validate_version m.version ≡ ok version))
      × (all (contains (keys members)) required_runtime_paths ≡ true)
unfolding read_package
read_package-IsVerified lib f {m} {members} h =
    let (u, e, h1) = >>=-eq-ok (read_regular_file f) _ h in
    let (ms, e1, h2) = >>=-eq-ok (archive_members lib f.members) _ h1 in
    let (few, h3) = passed (ltb (max_package_files + 1) (length ms)) _ _ h2 in
    let (r, e2, h4) = >>=-eq-ok (read_members ms (nothing_read lib)) _ h3 in
    let (m', e3, h5) = >>=-eq-ok (parse_manifest lib r.manifest_raw) _ h4 in
    let c = check_manifest-IsChecked lib m' r.members h5 in
    let normal = read_members-IsNormal ms (nothing_read lib) e2 tt in
    let same : r.members ≡ members = ok-inj (sym (recheck-same lib r.members normal) ∙ c.checked) in
    of_checked lib m' m r.members members c c.same same
