-- ===== src/Relay/Authentication.antt =====
-- relay_server.py: whom the server serves.
use ge360_bridge.Base.{
  ℕ, ◌≡◌, refl, sym, ap, ◌∙◌, inl, inr, Bool, true, false, not, ◌&&◌, ◌||◌, some, List, [], ◌∷◌,
  any, length, is_empty, arith, Bool-cases, if◌then◌else◌, ◌==◌, ltb, all,
}
use ge360_bridge.Base.Text.{Text, text_eq, text_eq_iff, strip, lower, is_alnum}
use ge360_bridge.Base.Text.Normal.{lower_idem}
use ge360_bridge.Core.Data.{
  ok, >>=-eq-ok, raise_if, raise_if-eq-ok, guard, relay_invalid_device_id, relay_invalid_token_hash,
  Result-cases, Stdlib,
}
use ge360_bridge.Relay.Registry.{
  Registry, Credential, SyncItem, safe_device_id, is_hex, set_credential, get_credential,
  load_credentials, load_registry, clean_item, clean_items, sync_devices, accepts_token,
  authenticate_device,
}

-- The item that lets the device of an id in with a token.
abbrev pub lets_in : Stdlib → Text → Text → SyncItem → Bool
lets_in lib device_id token i =
    i.enabled
    && (text_eq (strip i.device_id) device_id
        && text_eq (lower (strip i.token_sha256)) (lib.sha256_hex token))

module _ (lib : Stdlib) (key token : Text) where
  abbrev pub accepts : Credential → Bool
  accepts v = v.enabled && text_eq (lower v.token_sha256) (lib.sha256_hex token)

  -- Whether a registry lets the device in: by its first entry that can be read.
  abbrev pub opens : Registry → Bool
  opens [] = false
  opens ((k, v) ∷ items) =
      if (length (lower v.token_sha256) == 64) && text_eq k key then accepts v else opens items

  opens_lem :
      (items : Registry)
      → accepts_token lib token (get_credential key (load_credentials items)) ≡ opens items
  unfolding get_credential load_credentials accepts_token
  opens_lem [] = refl
  opens_lem ((k, v) ∷ items) = elim (Bool-cases (length (lower v.token_sha256) == 64)) [
    | inr e ↦ rw e (opens_lem items)
    | inl e ↦
        rw e
          (elim (Bool-cases (text_eq k key)) [ inl f ↦ rw f refl | inr f ↦ rw f (opens_lem items) ])
  ]

  set_credential-opens :
      (k : Text) (v : Credential) (items : Registry)
      → (length (lower v.token_sha256) == 64) ≡ true
      → opens (set_credential k v items) ≡ true
      → ((text_eq k key && accepts v) || opens items) ≡ true
  unfolding set_credential
  set_credential-opens k v [] n h = ground arith
  set_credential-opens k v ((k0, v0) ∷ items) n h = ground (
    arith,
    set_credential-opens k v items n,
    text_eq_iff k0 k,
    text_eq_iff k key,
    text_eq_iff k0 key,
  )

-- An id that is accepted is stripped.
safe_device_id_ok : (t : Text) {k : Text} → safe_device_id t ≡ ok k → k ≡ strip t
unfolding safe_device_id
safe_device_id_ok t h =
    let (u1, e1, h1) =
      >>=-eq-ok
        (raise_if (is_empty (strip t) || ltb 128 (length (strip t))) relay_invalid_device_id) _ h in
    let (u2, e2, h2) =
      >>=-eq-ok
        (guard (all (λ d. is_alnum d || (d == b'_' || (d == b'-' || d == b'.'))) (strip t))
          relay_invalid_device_id)
        _ h1 in
    ground arith

ok-pair : {A B : Type 0} {p q : A × B} → ok p ≡ ok q → (p.0 ≡ q.0) × (p.1 ≡ q.1)
ok-pair {A = A} {B = B} {p = p} {q = q} h =
    let same : p ≡ q = cc in (ap (λ (x : A × B). x.0) same, ap (λ (x : A × B). x.1) same)

-- An item that was cleaned: its id and its digest, which is long enough to be read again.
clean_item_ok :
    (i : SyncItem) {k digest : Text}
    → clean_item i ≡ ok (k, digest)
    → (k ≡ strip i.device_id)
      × (digest ≡ lower (strip i.token_sha256))
      × ((length digest == 64) ≡ true)
unfolding clean_item
clean_item_ok i {k = k} {digest = digest} h =
    let (id, e1, h1) = >>=-eq-ok (safe_device_id i.device_id) _ h in
    let fresh = lower (strip i.token_sha256) in
    let bad = not (length fresh == 64) || not (all is_hex fresh) in
    let (u2, e2, h2) = >>=-eq-ok (raise_if bad relay_invalid_token_hash) _ h1 in
    let same = ok-pair h2 in
    let stripped = safe_device_id_ok i.device_id e1 in
    let valid = raise_if-eq-ok bad relay_invalid_token_hash e2 in
    (
      sym same.0 ∙ stripped,
      sym same.1,
      ap (λ t. length t == 64) (sym same.1) ∙ ground (arith, valid),
    )

module _ (lib : Stdlib) (key token : Text) where
  -- What a registry lets in that the loop has made of items came from an item, or from before.
  clean_items-opens :
      (now : ℕ) (items : List SyncItem) (clean : Registry) {result : Registry}
      → clean_items now items clean ≡ ok result
      → opens lib key token result ≡ true
      → (any (lets_in lib key token) items || opens lib key token clean) ≡ true
  unfolding clean_items
  clean_items-opens now [] clean {result = result} h o = let same : clean ≡ result = cc in rw same o
  clean_items-opens now (i ∷ items) clean h o =
      let ((k, digest), e1, h1) = >>=-eq-ok (clean_item i) _ h in
      let v : Credential = record {
        token_sha256 = digest;
        enabled = i.enabled;
        updated_at = now;
      } in
      let (own_id, own_digest, readable) = clean_item_ok i e1 in
      let again : lower digest ≡ digest =
        ap lower own_digest ∙ (lower_idem (strip i.token_sha256) ∙ sym own_digest) in
      let long : (length (lower digest) == 64) ≡ true = ap (λ t. length t == 64) again ∙ readable in
      let later = clean_items-opens now items (set_credential k v clean) h1 o in
      elim (Bool-cases (any (lets_in lib key token) items)) [
        | inl e ↦ rw e (ground arith)
        | inr e ↦
            let set : opens lib key token (set_credential k v clean) ≡ true = ground arith in
            let from = set_credential-opens lib key token k v clean long set in
            let p = ap (λ t. text_eq t key) own_id in
            let q = ap (λ t. text_eq t (lib.sha256_hex token)) (again ∙ own_digest) in
            ground (arith, from, p, q)
      ]

-- After a sync that succeeds a device is let in with a token only if one of the items has its id, is
-- enabled, and holds the hash of that token.
pub sync-authenticate :
    (lib : Stdlib) (now : ℕ) (items : List SyncItem) (device_id token : Text) {result : Registry}
    → sync_devices now items ≡ ok result
    → authenticate_device lib (some result) device_id token ≡ true
    → any (lets_in lib (strip device_id) token) items ≡ true
unfolding sync_devices authenticate_device load_registry
sync-authenticate lib now items device_id token {result = result} h a =
    elim (Result-cases (safe_device_id device_id)) [
      | inr (e, f) ↦ absurd (ground arith)
      | inl (key, f) ↦
          let stripped = safe_device_id_ok device_id f in
          let found : accepts_token lib token (get_credential key (load_credentials result))
              ≡ true =
            ground arith in
          let o = sym (opens_lem lib key token result) ∙ found in
          let came = clean_items-opens lib key token now items [] h o in
          rw (← stripped) (ground arith)
    ]
