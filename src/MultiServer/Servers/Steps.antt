-- ===== src/MultiServer/Servers/Steps.antt =====
-- multi_server.py: the operations on the registry one after the other, and what the file holds.
use mathlib.Core.Path.{subst}
use ge360_bridge.Base.{
  ◌≡◌, refl, ◌⊎◌, inr, ◌==◌, not, ◌||◌, Bool, true, false, none, some, List, [], ◌∷◌, ◌++◌, map,
  keep, find, update_first, length, leb, All, arith, both_branches, both_options,
}
use ge360_bridge.Base.Text.{Text}
use ge360_bridge.Core.Data.{
  Result, ok, ok-inj, guarded, both_results, server_duplicate, Stdlib, >>=-eq-ok, ◌>>=◌,
}
use ge360_bridge.Core.Store.{has_duplicates}
use ge360_bridge.MultiServer.Servers.{
  Server, RawServer, Registry, max_servers, raw_server, is_server, is_server_id, normalize_server,
  normalize_servers, list_servers, check_servers, save_servers, save_and, add_server, remove_server,
  set_server_enabled,
}
use ge360_bridge.MultiServer.Servers.Valid.{normalize_servers-valid}

-- Servers that may stand in the file.
pub record AreDistinct (xs : List Server) : Type 0 where
  pub few : leb (length xs) max_servers ≡ true
  pub valid : All (λ (x : Server). is_server_id x.server_id ≡ true) xs
  pub ids : has_duplicates (map (λ (x : Server). x.server_id) xs) ≡ false
  pub names : has_duplicates (map (λ (x : Server). x.name) xs) ≡ false
  pub urls : has_duplicates (map (λ (x : Server). x.control_url) xs) ≡ false

-- There is no file, or it holds such servers.
abbrev pub IsSound : Registry → Type 0
IsSound s =
    (s.servers_file ≡ none)
    ⊎ ((xs : List Server) × (s.servers_file ≡ some (map raw_server xs)) × AreDistinct xs)

pub data Operation : Type 0 where
  add : RawServer → Operation
  remove : (identifier : Text) → Operation
  set_enabled : (identifier : Text) (enabled : Bool) → Operation

none_of : (a b c : Bool) → not (a || b || c) ≡ true → (a ≡ false) × (b ≡ false) × (c ≡ false)
none_of a b c h = (ground arith, ground arith, ground arith)

module _ (lib : Stdlib) (now : Text) where
  abbrev pub perform : Operation → Registry → Registry
  perform (add raw) s = (add_server lib now raw s).1
  perform (remove identifier) s = (remove_server lib now identifier s).1
  perform (set_enabled identifier enabled) s = (set_server_enabled lib now identifier enabled s).1

  abbrev pub perform_all : List Operation → Registry → Registry
  perform_all [] s = s
  perform_all (x ∷ xs) s = perform_all xs (perform x s)

  checked_distinct :
      (items : List RawServer) {xs : List Server}
      → (normalize_servers lib now items >>= check_servers) ≡ ok xs
      → AreDistinct xs
  unfolding check_servers
  checked_distinct items h =
      let (ys, e, h1) = >>=-eq-ok (normalize_servers lib now items) check_servers h in
      let (few, h2) = guarded (leb (length ys) max_servers) _ _ h1 in
      let a = has_duplicates (map (λ (x : Server). x.server_id) ys) in
      let b = has_duplicates (map (λ (x : Server). x.name) ys) in
      let c = has_duplicates (map (λ (x : Server). x.control_url) ys) in
      let (apart, h3) = guarded (not (a || b || c)) server_duplicate (ok ys) h2 in
      let (u, v, w) = none_of a b c apart in
      subst AreDistinct (ok-inj h3) (record {
        few = few;
        valid = normalize_servers-valid lib now items e;
        ids = u;
        names = v;
        urls = w;
      })

  save_servers-IsSound :
      (items : List RawServer) (s : Registry) → IsSound s → IsSound (save_servers lib now items s).1
  unfolding save_servers
  save_servers-IsSound items s i =
      both_results (λ (y : Result (List Server) × Registry). IsSound y.1)
        (normalize_servers lib now items >>= check_servers)
        (λ xs e. inr (xs, refl, checked_distinct items e)) (λ e q. i)

  save_and-IsSound :
      {A : Type 0} (items : List RawServer) (a : A) (s : Registry)
      → IsSound s
      → IsSound (save_and lib now items a s).1
  save_and-IsSound {A} items a s i =
      let x = save_servers lib now items s in
      both_results (λ (y : Result A × Registry). IsSound y.1) (x.0)
        (λ xs e. save_servers-IsSound items s i) (λ e q. save_servers-IsSound items s i)

  add_server-IsSound :
      (raw : RawServer) (s : Registry) → IsSound s → IsSound (add_server lib now raw s).1
  unfolding add_server
  add_server-IsSound raw s i =
      let P = λ (y : Result Server × Registry). IsSound y.1 in
      both_results P (list_servers lib now s)
        (λ items e.
          both_results P (normalize_server lib now raw)
            (λ x f. save_and-IsSound (map raw_server (items ++ x ∷ [])) x s i) (λ e q. i))
        (λ e q. i)

  remove_server-IsSound :
      (identifier : Text) (s : Registry)
      → IsSound s
      → IsSound (remove_server lib now identifier s).1
  unfolding remove_server
  remove_server-IsSound identifier s i =
      let P = λ (y : Result Bool × Registry). IsSound y.1 in
      both_results P (list_servers lib now s)
        (λ items e.
          let left = keep (λ (x : Server). not (is_server identifier x)) items in
          both_branches P (length left == length items) (λ f. i)
            (λ f. save_and-IsSound (map raw_server left) true s i))
        (λ e q. i)

  set_server_enabled-IsSound :
      (identifier : Text) (enabled : Bool) (s : Registry)
      → IsSound s
      → IsSound (set_server_enabled lib now identifier enabled s).1
  unfolding set_server_enabled
  set_server_enabled-IsSound identifier enabled s i =
      let P = λ (y : Result Server × Registry). IsSound y.1 in
      both_results P (list_servers lib now s)
        (λ items e.
          both_options P (find (is_server identifier) items) (λ f. i)
            (λ x f.
              save_and-IsSound
                (map raw_server
                  (update_first (is_server identifier) (λ y. record y { enabled = enabled }) items))
                (record x { enabled = enabled }) s i))
        (λ e q. i)

  perform-IsSound : (x : Operation) (s : Registry) → IsSound s → IsSound (perform x s)
  perform-IsSound (add raw) s i = add_server-IsSound raw s i
  perform-IsSound (remove identifier) s i = remove_server-IsSound identifier s i
  perform-IsSound (set_enabled identifier enabled) s i =
      set_server_enabled-IsSound identifier enabled s i

  -- From no file, or one of the kind, any additions, removals and switches end in a registry with no
  -- file, or one with at most 64 servers of valid ids, with distinct ids, names and URLs.
  pub perform_all-IsSound :
      (xs : List Operation) (s : Registry) → IsSound s → IsSound (perform_all xs s)
  perform_all-IsSound [] s i = i
  perform_all-IsSound (x ∷ xs) s i = perform_all-IsSound xs (perform x s) (perform-IsSound x s i)
