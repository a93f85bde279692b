-- ===== src/SelfHeal/State.antt =====
-- self_healing.py: the restart history, which maps the name of a resource to the times of its
-- restarts. Times are whole milliseconds since the epoch.
use ge360_bridge.Base.{
  ℕ, ◌+◌, ◌-◌, ◌*◌, ◌/◌, Bool, ◌&&◌, Option, none, some, List, [], ◌∷◌, keep, is_empty, ltb, leb,
  if◌then◌else◌,
}
use ge360_bridge.Base.Text.{Text, text_eq}

abbrev pub History : Type 0
History = List (Text × List ℕ)

abbrev pub restart_limit : ℕ
restart_limit = 3

abbrev pub restart_window : ℕ
restart_window = 10 * 60 * 1000

abbrev pub clock_tolerance : ℕ
clock_tolerance = 60 * 1000

-- The file: `none` where it is missing or does not read as a mapping.
unfoldable pub load_state : Option History → History
load_state none = []
load_state (some h) = h

unfoldable pub insert_time : ℕ → List ℕ → List ℕ
insert_time t [] = t ∷ []
insert_time t (x ∷ xs) = if leb t x then t ∷ x ∷ xs else x ∷ insert_time t xs

-- `sorted(xs)`
unfoldable pub sort_times : List ℕ → List ℕ
unfolding insert_time
sort_times [] = []
sort_times (x ∷ xs) = insert_time x (sort_times xs)

-- `cutoff < ts <= ceiling`
abbrev pub is_recent : ℕ → ℕ → Bool
is_recent now t = ltb now (t + restart_window) && leb t (now + clock_tolerance)

unfoldable pub prune_attempts : List ℕ → ℕ → List ℕ
unfolding sort_times
prune_attempts values now = sort_times (keep (is_recent now) values)

unfoldable pub prune_state : History → ℕ → History
unfolding prune_attempts
prune_state [] now = []
prune_state ((name, values) ∷ h) now =
    let rest = prune_state h now in
    let clean = prune_attempts values now in if is_empty clean then rest else (name, clean) ∷ rest

-- `state.get(name, [])`
unfoldable pub attempts_of : Text → History → List ℕ
attempts_of name [] = []
attempts_of name ((n, values) ∷ h) = if text_eq n name then values else attempts_of name h

-- `state[name] = values`
unfoldable pub set_attempts : Text → List ℕ → History → History
set_attempts name values [] = (name, values) ∷ []
set_attempts name values ((n, old) ∷ h) =
    if text_eq n name then (n, values) ∷ h else (n, old) ∷ set_attempts name values h

-- `max(0, int(attempts[0] + RESTART_WINDOW_SECONDS - now_epoch))` in seconds; the first time is
-- the oldest one, since the times are sorted.
unfoldable pub retry_after : List ℕ → ℕ → ℕ
retry_after [] now = 0
retry_after (t ∷ ts) now = (t + restart_window - now) / 1000
