-- ===== src/P2p/Kept.antt =====
-- p2p.py: sessions stay in their table, and the endpoints that `wg set` is called with.
use ge360_bridge.Base.{
  ℕ, ◌≡◌, refl, ap, ◌∙◌, inl, inr, Bool, true, false, Option, none, some, List, [], ◌∷◌, any, find,
  update_first, arith, Bool-cases,
}
use ge360_bridge.Base.Text.{Text, text_eq}
use ge360_bridge.P2p.Sessions.{
  Session, succeeded, Tables, has_session_id, write_mirror, update_found, update_session,
}
use ge360_bridge.P2p.WireGuard.{Runtime, SetEndpoint}

abbrev pub is_succeeded : Session → Bool
is_succeeded x = elim x.status [ succeeded ↦ true | _ ↦ false ]

-- The `wg set` that was issued last.
abbrev pub last_set : {W : Type 0} → Runtime W → Option SetEndpoint
last_set s = elim s.set_endpoints [ [] ↦ none | e ∷ es ↦ some e ]

abbrev pub IsThere : Text → Tables → Type 0
IsThere id t = any (has_session_id id) t.sessions ≡ true

pub find-any :
    (id : Text) (xs : List Session)
    → any (has_session_id id) xs ≡ true
    → (x : Session) × (find (has_session_id id) xs ≡ some x)
find-any id [] h = absurd (ground arith)
find-any id (x ∷ xs) h = elim (Bool-cases (has_session_id id x)) [
  | inl e ↦ rw e (x, refl)
  | inr e ↦ rw e (find-any id xs (ground arith))
]

pub any-update_first :
    (id : Text) (f : Session → Session) (xs : List Session)
    → ((x : Session) → (f x).session_id ≡ x.session_id)
    → any (has_session_id id) (update_first (has_session_id id) f xs) ≡ any (has_session_id id) xs
any-update_first id f [] h = refl
any-update_first id f (x ∷ xs) h =
    ground (arith, any-update_first id f xs h, ap (λ t. text_eq t id) (h x))

-- A session that is there is changed, and stays there.
pub update_session-IsThere :
    (id : Text) (f : Session → Session) (t : Tables)
    → ((x : Session) → (f x).session_id ≡ x.session_id)
    → IsThere id t
    → (z : Session) × ((update_session id f t).0 ≡ some (f z))
      × IsThere id (update_session id f t).1
unfolding update_session update_found write_mirror
update_session-IsThere id f t h there =
    let (z, e) = find-any id t.sessions there in
    (
      z,
      ap (λ o. (update_found id f t o).0) e,
      ap (λ o. any (has_session_id id) (update_found id f t o).1.sessions) e
          ∙ (any-update_first id f t.sessions h ∙ there),
    )

-- The `wg set` for the candidate that ends a success, and the one that restores the peer.
abbrev pub candidate_set : Session → SetEndpoint
candidate_set x = record {
  public_key = x.peer_public_key;
  endpoint = x.client_endpoint;
  keepalive = 25;
}

abbrev pub previous_set : Session → Text → ℕ → SetEndpoint
previous_set x endpoint keepalive = record {
  public_key = x.peer_public_key;
  endpoint = endpoint;
  keepalive = keepalive;
}
