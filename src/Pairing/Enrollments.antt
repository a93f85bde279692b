-- ===== src/Pairing/Enrollments.antt =====
-- pairing.py: the enrollment file and its clean-up. Times are whole seconds since the epoch.
use ge360_bridge.Base.{
  ℕ, ◌+◌, ◌*◌, ◌==◌, not, ◌&&◌, Bool, true, false, Option, none, some, List, [], ◌∷◌, map, ltb, leb,
  if◌then◌else◌,
}
use ge360_bridge.Base.Text.{Text}
use ge360_bridge.Core.Data.{ok, err}
use ge360_bridge.Core.Store.{Store, Action, Act}

-- The "status" of an enrollment.
pub data Status : Type 0 where
  pending used expired : Status

pub record Enrollment : Type 0 where
  pub enrollment_id : Text
  pub device_name : Text
  pub device_type : Text
  pub owner : Text
  pub device_expires_at : Option Text
  pub notes : Text
  pub tags : List Text
  pub groups : List Text
  pub token_hash : Text
  pub created_at : ℕ
  pub expires_at : ℕ
  pub status : Status
  pub used_at : Option ℕ
  pub expired_at : Option ℕ
  pub device_id : Option Text

abbrev pub used_retention_seconds : ℕ
used_retention_seconds = 7 * 24 * 3600

abbrev pub min_ttl_seconds : ℕ
min_ttl_seconds = 60

abbrev pub max_ttl_seconds : ℕ
max_ttl_seconds = 24 * 3600

-- The state directory: the registries, and the enrollments, `none` where the file is missing.
pub record Site : Type 0 where
  pub registries : Store
  pub enrollments_file : Option (List Enrollment)

-- A call of core.py.
abbrev pub in_core {ℓ} : {A : Type ℓ} → Action A → Act Site A
in_core m s = let (r, files) = m s.registries in (r, record s { registries = files })

-- `try: m; except Exception: undo; raise`
abbrev pub undo_on_error {ℓ κ} : {A : Type ℓ} {B : Type κ} → Act Site B → Act Site A → Act Site A
undo_on_error undo m s =
    let (r, s') = m s in
    let (u, s'') = undo s' in
    elim r [ ok a ↦ (ok a, s') | err e ↦ elim u [ ok b ↦ (err e, s'') | err f ↦ (err f, s'') ] ]

abbrev pub load_enrollments : Site → List Enrollment
load_enrollments s = elim s.enrollments_file [ none ↦ [] | some items ↦ items ]

abbrev pub save_enrollments : List Enrollment → Act Site (Unit {0})
save_enrollments items s = (ok tt, record s { enrollments_file = some items })

abbrev pub is_pending : Enrollment → Bool
is_pending x = elim x.status [ pending ↦ true | _ ↦ false ]

-- The change of a pending enrollment that is too old.
abbrev pub expire_at : ℕ → Enrollment → Enrollment
expire_at now x = record x { status = expired; expired_at = some now }

unfoldable pub expire_old : ℕ → Enrollment → Enrollment
expire_old now x = if is_pending x && leb x.expires_at now then expire_at now x else x

-- `int(record.get("used_at") or record.get("expired_at") or 0)`
abbrev pub or_zero : Option ℕ → ℕ
or_zero none = 0
or_zero (some t) = t

unfoldable pub terminal_at : Enrollment → ℕ
terminal_at x = if or_zero x.used_at == 0 then or_zero x.expired_at else or_zero x.used_at

-- The enrollments that are used or expired for longer than the retention are dropped.
unfoldable pub is_stale : ℕ → Enrollment → Bool
unfolding terminal_at
is_stale now x =
    not (is_pending x)
    && (not (terminal_at x == 0) && ltb (terminal_at x + used_retention_seconds) now)

unfoldable pub cleanup_enrollments : ℕ → List Enrollment → List Enrollment
unfolding expire_old is_stale
cleanup_enrollments now [] = []
cleanup_enrollments now (x ∷ xs) =
    let rest = cleanup_enrollments now xs in
    if is_stale now (expire_old now x) then rest else expire_old now x ∷ rest

-- `list_enrollments`, whose answer leaves the hash of the token out.
unfoldable pub list_enrollments : ℕ → Act Site (List Enrollment)
unfolding cleanup_enrollments
list_enrollments now s =
    let items = cleanup_enrollments now (load_enrollments s) in
    (
      ok (map (λ (x : Enrollment). record x { token_hash = [] }) items),
      record s { enrollments_file = some items },
    )
