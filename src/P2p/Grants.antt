-- ===== src/P2p/Grants.antt =====
-- p2p.py: the calls of the control path one after the other, and the rate limit over all of them.
use ge360_bridge.Base.{
  ℕ, ◌+◌, ◌*◌, ◌≤◌, ◌≡◌, refl, Option, List, [], ◌∷◌, any, length, leb, arith, both_branches,
}
use ge360_bridge.Base.Text.{Text}
use ge360_bridge.Core.Data.{Result, ok, err, Stdlib, both_results}
use ge360_bridge.Core.Store.{Store}
use ge360_bridge.P2p.Sessions.{
  Session, Tables, rate_limit_per_device, is_over, fresh_attempts, write_mirror, cleanup,
  attempts_of, rate_limit, list_sessions,
}
use ge360_bridge.P2p.Prepare.{Surroundings, Ask, checked_ask, keep_session, prepare_traversal}
use ge360_bridge.P2p.RateLimit.{
  Grant, grants_between, IsCovered, IsPast, IsLimited, IsCovered-later, IsPast-later,
  fresh_attempts-IsCovered, grant-IsCovered, grant-IsLimited,
}

-- A request for a session, with the registries at that time, or a look at the sessions.
pub data Call : Type 0 where
  ask : Store → Ask → Call
  look : (now : ℕ) → Call

abbrev pub time_of : Call → ℕ
time_of (ask files a) = a.now
time_of (look now) = now

-- The clock does not go back.
abbrev pub IsOrdered : ℕ → List Call → Type 0
IsOrdered earlier [] = Unit
IsOrdered earlier (x ∷ xs) = (earlier ≤ time_of x) × IsOrdered (time_of x) xs

-- The tables, and the sessions that were granted, with the latest first.
pub record Log : Type 0 where
  pub tables : Tables
  pub granted : List Grant

-- A session that is returned counts as granted.
abbrev pub note : ℕ → List Grant → Result Session × Tables → Log
note now gs (err e, t) = record { tables = t; granted = gs }
note now gs (ok s, t) = record {
  tables = t;
  granted = (record { device_id = s.device_id; granted_at = now }) ∷ gs;
}

module _ (env : Surroundings) (lib : Stdlib) where
  abbrev pub perform : Call → Log → Log
  perform (ask files a) l = note a.now l.granted (prepare_traversal env lib files a l.tables)
  perform (look now) l = record l { tables = (list_sessions now l.tables).1 }

  abbrev pub perform_all : List Call → Log → Log
  perform_all [] l = l
  perform_all (x ∷ xs) l = perform_all xs (perform x l)

pub record IsBounded (now : ℕ) (l : Log) : Type 0 where
  pub past : IsPast now l.granted
  pub covered : IsCovered now l.tables.device_attempts l.granted
  pub limited : IsLimited l.granted

later-IsBounded : (now later : ℕ) (l : Log) → now ≤ later → IsBounded now l → IsBounded later l
later-IsBounded now later l le b = record {
  past = IsPast-later now later l.granted le b.past;
  covered = IsCovered-later now later l.tables.device_attempts l.granted le b.past b.covered;
  limited = b.limited;
}

cleanup-attempts :
    (now : ℕ) (t : Tables) → (cleanup now t).device_attempts ≡ fresh_attempts now t.device_attempts
unfolding cleanup write_mirror
cleanup-attempts now t =
    both_branches (λ (x : Tables). x.device_attempts ≡ fresh_attempts now t.device_attempts)
      (any (is_over now) t.sessions) (λ e. refl) (λ e. refl)

-- The clean-up keeps the bound, whatever it does to the sessions.
same_attempts-IsBounded :
    (now : ℕ) (t t' : Tables) (gs : List Grant)
    → t'.device_attempts ≡ fresh_attempts now t.device_attempts
    → IsBounded now (record { tables = t; granted = gs })
    → IsBounded now (record { tables = t'; granted = gs })
same_attempts-IsBounded now t t' gs e b = record {
  past = b.past;
  covered = rw e (fresh_attempts-IsCovered now t.device_attempts gs b.covered);
  limited = b.limited;
}

-- The tables after `_rate_limit`, where passing it counts as a grant.
abbrev counted : ℕ → Text → List Grant → Result (Unit {0}) × Tables → Log
counted now id gs (err e, t) = record { tables = t; granted = gs }
counted now id gs (ok u, t) = record {
  tables = t;
  granted = (record { device_id = id; granted_at = now }) ∷ gs;
}

rate_limit-IsBounded :
    (now : ℕ) (id : Text) (t : Tables) (gs : List Grant)
    → IsBounded now (record { tables = t; granted = gs })
    → IsBounded now (counted now id gs (rate_limit id now t))
unfolding rate_limit
rate_limit-IsBounded now id t gs b =
    let c = cleanup now t in
    let kept = same_attempts-IsBounded now t c gs (cleanup-attempts now t) b in
    both_branches (λ (x : Result (Unit {0}) × Tables). IsBounded now (counted now id gs x))
      (leb rate_limit_per_device (length (attempts_of id c.device_attempts))) (λ e. kept)
      (λ e. record {
        past = (omega arith, kept.past);
        covered = grant-IsCovered now id gs c.device_attempts kept.covered;
        limited =
            grant-IsLimited now id gs c.device_attempts kept.past kept.covered (ground arith)
              kept.limited;
      })

keep_session-IsBounded :
    (env : Surroundings) (now : ℕ) (gs : List Grant) (s : Session) (u : Result (Unit {0}) × Tables)
    → IsBounded now (counted now s.device_id gs u)
    → IsBounded now (note now gs (keep_session env s now u))
unfolding keep_session write_mirror
keep_session-IsBounded env now gs s (err e, t) b = b
keep_session-IsBounded env now gs s (ok u, t) b =
    same_attempts-IsBounded now t (keep_session env s now (ok u, t)).1
      ((record { device_id = s.device_id; granted_at = now }) ∷ gs) (cleanup-attempts now t) b

module _ (env : Surroundings) (lib : Stdlib) where
  perform-IsBounded :
      (x : Call) (l : Log) → IsBounded (time_of x) l → IsBounded (time_of x) (perform env lib x l)
  unfolding prepare_traversal list_sessions
  perform-IsBounded (ask files a) l b =
      both_results (λ (x : Result Session × Tables). IsBounded a.now (note a.now l.granted x))
        (checked_ask env lib files a)
        (λ s e.
          keep_session-IsBounded env a.now l.granted s (rate_limit s.device_id a.now l.tables)
            (rate_limit-IsBounded a.now s.device_id l.tables l.granted b))
        (λ w e. b)
  perform-IsBounded (look now) l b =
      same_attempts-IsBounded now l.tables (cleanup now l.tables) l.granted
        (cleanup-attempts now l.tables) b

  perform_all-IsLimited :
      (xs : List Call) (earlier : ℕ) (l : Log)
      → IsOrdered earlier xs
      → IsBounded earlier l
      → IsLimited (perform_all env lib xs l).granted
  perform_all-IsLimited [] earlier l o b = b.limited
  perform_all-IsLimited (x ∷ xs) earlier l o b =
      perform_all-IsLimited xs (time_of x) (perform env lib x l) o.1
        (perform-IsBounded x l (later-IsBounded earlier (time_of x) l o.0 b))

  -- From tables that note no attempt, calls at times that do not go back are granted at most six
  -- sessions for one device in any minute.
  pub p2p_limit :
      (xs : List Call) (sessions : List Session) (mirror : Option (List Session))
      → IsOrdered 0 xs
      → (id : Text) (a : ℕ)
      → let start : Log = record {
        tables = record { sessions = sessions; device_attempts = []; mirror = mirror };
        granted = [];
      } in
        grants_between id a (a + 60 * 1000) (perform_all env lib xs start).granted ≤ 6
  p2p_limit xs sessions mirror o =
      perform_all-IsLimited xs 0
        (record {
          tables = record { sessions = sessions; device_attempts = []; mirror = mirror };
          granted = [];
        })
        o (record { past = tt; covered = λ id a w. omega arith; limited = λ id a. omega arith })
