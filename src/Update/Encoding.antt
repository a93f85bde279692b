-- ===== src/Update/Encoding.antt =====
-- A printed form of the manifest of a snapshot that can be read back, in the place of JSON: every
-- text and every list comes with its length.
use ge360_bridge.Base.{
  ℕ, zero, suc, ◌≡◌, refl, ap, ◌∙◌, Bool, true, false, Option, none, some, List, [], ◌∷◌, ◌++◌,
  length, take, drop,
}
use ge360_bridge.Base.Text.{Text}
use ge360_bridge.Update.Rollback.{Saved, SavedManifest}

take-append : (t s : Text) → take (length t) (t ++ s) ≡ t
take-append [] s = refl
take-append (c ∷ t) s = ap (λ r. c ∷ r) (take-append t s)

drop-append : (t s : Text) → drop (length t) (t ++ s) ≡ s
drop-append [] s = refl
drop-append (c ∷ t) s = drop-append t s

abbrev print_bool : Bool → ℕ
print_bool true = 1
print_bool false = 0

abbrev read_bool : ℕ → Bool
read_bool zero = false
read_bool (suc n) = true

abbrev print_option : Option ℕ → ℕ
print_option none = 0
print_option (some n) = suc n

abbrev read_option : ℕ → Option ℕ
read_option zero = none
read_option (suc n) = some n

-- A text, before what follows it.
abbrev print_text : Text → Text → Text
print_text t rest = length t ∷ (t ++ rest)

abbrev print_item : Saved → Text → Text
print_item x rest =
    print_text x.path (print_bool x.existed ∷ print_option x.size ∷ print_text x.sha256 rest)

abbrev print_items : List Saved → Text
print_items [] = []
print_items (x ∷ xs) = print_item x (print_items xs)

abbrev print_files : Option (List Saved) → Text
print_files none = 0 ∷ []
print_files (some xs) = suc (length xs) ∷ print_items xs

unfoldable pub print_manifest : SavedManifest → Text
print_manifest m = print_text m.schema (print_files m.files)

-- The text at the head and what follows it.
abbrev read_text : Text → Text × Text
read_text [] = ([], [])
read_text (n ∷ s) = (take n s, drop n s)

abbrev read_flags : Text → Bool × Option ℕ × Text
read_flags [] = (false, none, [])
read_flags (b ∷ []) = (false, none, [])
read_flags (b ∷ n ∷ s) = (read_bool b, read_option n, s)

abbrev read_item : Text → Saved × Text
read_item s =
    let (path, s1) = read_text s in
    let (existed, size, s2) = read_flags s1 in
    let (sha256, s3) = read_text s2 in
    (record { path = path; existed = existed; size = size; sha256 = sha256 }, s3)

read_items : ℕ → Text → List Saved
read_items zero s = []
read_items (suc n) s = (read_item s).0 ∷ read_items n (read_item s).1

abbrev read_files : Text → Option (List Saved)
read_files [] = none
read_files (zero ∷ s) = none
read_files (suc n ∷ s) = some (read_items n s)

unfoldable pub read_manifest : Text → Option SavedManifest
unfolding read_items
read_manifest s = some (record { schema = (read_text s).0; files = read_files (read_text s).1 })

read_bool-print : (b : Bool) → read_bool (print_bool b) ≡ b
read_bool-print true = refl
read_bool-print false = refl

read_option-print : (o : Option ℕ) → read_option (print_option o) ≡ o
read_option-print none = refl
read_option-print (some n) = refl

read_item-print : (x : Saved) (rest : Text) → read_item (print_item x rest) ≡ (x, rest)
read_item-print x rest = simp (take-append, drop-append, read_bool-print, read_option-print)

read_items-print : (xs : List Saved) → read_items (length xs) (print_items xs) ≡ xs
unfolding read_items
read_items-print [] = refl
read_items-print (x ∷ xs) =
    ap (λ (y : Saved × Text). y.0 ∷ read_items (length xs) y.1) (read_item-print x (print_items xs))
    ∙ ap (λ (t : List Saved). x ∷ t) (read_items-print xs)

read_files-print : (f : Option (List Saved)) → read_files (print_files f) ≡ f
read_files-print none = refl
read_files-print (some xs) = ap (λ t. some t) (read_items-print xs)

pub read_manifest-print : (m : SavedManifest) → read_manifest (print_manifest m) ≡ some m
unfolding read_manifest print_manifest
read_manifest-print m =
    rw
      (
        take-append m.schema (print_files m.files),
        drop-append m.schema (print_files m.files),
        read_files-print m.files,
      )
      refl
