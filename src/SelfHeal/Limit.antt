-- ===== src/SelfHeal/Limit.antt =====
-- self_healing.py: no unit is restarted more often than the limit allows.
pub mod Counts
pub mod Covered
pub mod Moves
use ge360_bridge.Base.{
  ℕ, ◌+◌, ◌*◌, ◌≤◌, ◌≡◌, refl, sym, ap, ◌∙◌, inl, inr, Bool, true, false, Option, none, some, List,
  [], ◌∷◌, ◌++◌, is_empty, arith, both_branches,
}
use ge360_bridge.Base.Text.{Text}
use ge360_bridge.Core.Data.{Resource, Result, both_results, ok, err}
use ge360_bridge.Core.Store.{Store}
use ge360_bridge.SelfHeal.State.{
  History, restart_window, restart_limit, load_state, prune_attempts, prune_state, attempts_of,
  set_attempts,
}
use ge360_bridge.SelfHeal.Heal.{Machine, Healer, Restart, Outcome, heal_resource}
use ge360_bridge.SelfHeal.Run.{Report, selected, heal_all, run_self_heal}
use ge360_bridge.SelfHeal.Limit.Counts.{
  count-prune_attempts, attempts_of-set_attempts_same, count, restarts_between,
}
use ge360_bridge.SelfHeal.Limit.Covered.{
  IsCovered, IsPast, IsLimited, set_attempts-IsCovered, prune_state-IsCovered, IsCovered-later,
  IsPast-later, restart-IsCovered, restart-IsLimited,
}
use ge360_bridge.SelfHeal.Limit.Moves.{
  Move, IsSame, IsPruned, IsRestart, pruned, heal_resource-Move,
}

-- What a run keeps about a dictionary, the file and the restarts of the past.
pub record IsBounded (now : ℕ) (h : History) (saved : Option History) (rs : List Restart)
    : Type 0 where
  pub past : IsPast now rs
  pub memory : IsCovered now h rs
  pub file : IsCovered now (load_state saved) rs
  pub limited : IsLimited rs

-- One run of the timer or of the command line.
pub record Trigger : Type 0 where
  pub resource_name : Option Text
  pub dry_run : Bool
  pub now : ℕ
  pub files : Store

-- The clock does not go back from a run to the next.
abbrev pub IsOrdered : ℕ → List Trigger → Type 0
IsOrdered earlier [] = Unit
IsOrdered earlier (t ∷ ts) = (earlier ≤ t.now) × IsOrdered t.now ts

-- The pruned dictionary, once it is written.
saved_IsCovered :
    (now : ℕ) (h : History) (rs : List Restart)
    → IsCovered now h rs
    → IsCovered now (load_state (some (prune_state h now))) rs
unfolding load_state
saved_IsCovered now h rs c = prune_state-IsCovered now rs h c

-- What holds between two runs: the dictionary does not count, since a run starts from the file.
pub record Rests {W : Type 0} (earlier : ℕ) (s : Healer W) : Type 0 where
  pub past : IsPast earlier s.restarts
  pub file : IsCovered earlier (load_state s.saved) s.restarts
  pub limited : IsLimited s.restarts

module _ {W : Type 0} where
  abbrev pub Bounded : ℕ → Healer W → Type 0
  Bounded now s = IsBounded now s.history s.saved s.restarts

  pruned_keeps :
      (now : ℕ) (name : Text) (s : Healer W) (a : ℕ)
      → now ≤ a + restart_window
      → count a now (attempts_of name s.history) ≤ count a now (pruned now name s)
  pruned_keeps now name s a w =
      omega (arith, count-prune_attempts a now now (attempts_of name s.history) w (omega arith))

  Move-Bounded :
      (now : ℕ) (name : Text) (s s' : Healer W)
      → Move now name s s'
      → Bounded now s
      → Bounded now s'
  Move-Bounded now name s s' (inl same) b = rw (same.history, same.saved, same.restarts) b
  Move-Bounded now name s s' (inr (inl m)) b =
      rw (m.history, m.saved, m.restarts)
        (record {
          past = b.past;
          memory =
              set_attempts-IsCovered now s.restarts name (pruned now name s) s.history b.memory
                (pruned_keeps now name s);
          file = b.file;
          limited = b.limited;
        })
  Move-Bounded now name s s' (inr (inr m)) b =
      let kept =
        set_attempts-IsCovered now s.restarts name (pruned now name s) s.history b.memory
          (pruned_keeps now name s) in
      let once = set_attempts name (pruned now name s) s.history in
      let noted = restart-IsCovered now name s.restarts (pruned now name s) once kept (λ a w.
        rw (attempts_of-set_attempts_same name (pruned now name s) s.history) (omega arith)) in
      rw (m.saved, m.history, m.restarts)
        (record {
          past = (omega arith, b.past);
          memory = noted;
          file =
              saved_IsCovered now (set_attempts name (pruned now name s ++ now ∷ []) once)
                ((record { resource = name; issued_at = now }) ∷ s.restarts) noted;
          limited =
              restart-IsLimited now name s.restarts s.history b.past b.memory m.below b.limited;
        })

  module _ (m : Machine W) where
    heal_all-Bounded :
        (dry_run : Bool) (now : ℕ) (items : List Resource) (s : Healer W)
        → Bounded now s
        → Bounded now (heal_all m dry_run now items s).1
    unfolding heal_all
    heal_all-Bounded dry_run now [] s b = b
    heal_all-Bounded dry_run now (r ∷ rs) s b =
        let s1 = (heal_resource m dry_run now r s).1 in
        let b1 = Move-Bounded now r.name s s1 (heal_resource-Move m dry_run now r s) b in
        let b2 = heal_all-Bounded dry_run now rs s1 b1 in
        let goal = λ (x : Result (List Outcome) × Healer W). Bounded now x.1 in
        both_results goal (heal_resource m dry_run now r s).0
          (λ o _. both_results goal (heal_all m dry_run now rs s1).0 (λ os _. b2) (λ why _. b2))
          (λ why _. b1)

    starts-Bounded :
        (earlier now : ℕ) (s : Healer W)
        → earlier ≤ now
        → Rests earlier s
        → Bounded now (record s { history = prune_state (load_state s.saved) now })
    starts-Bounded earlier now s le q =
        let past = IsPast-later earlier now s.restarts le q.past in
        let file = IsCovered-later earlier now (load_state s.saved) s.restarts le q.past q.file in
        record {
          past = past;
          memory = prune_state-IsCovered now s.restarts (load_state s.saved) file;
          file = file;
          limited = q.limited;
        }

    ends-Rests : (now : ℕ) (s : Healer W) → Bounded now s → Rests now s
    ends-Rests now s b = record { past = b.past; file = b.file; limited = b.limited }

    saves-Rests :
        (now : ℕ) (s : Healer W)
        → Bounded now s
        → Rests now (record s { saved = some (prune_state s.history now) })
    saves-Rests now s b = record {
      past = b.past;
      file = saved_IsCovered now s.history s.restarts b.memory;
      limited = b.limited;
    }

    later-Rests : (earlier now : ℕ) (s : Healer W) → earlier ≤ now → Rests earlier s → Rests now s
    later-Rests earlier now s le q = record {
      past = IsPast-later earlier now s.restarts le q.past;
      file = IsCovered-later earlier now (load_state s.saved) s.restarts le q.past q.file;
      limited = q.limited;
    }

    run_self_heal-Rests :
        (resource_name : Option Text) (dry_run : Bool) (now : ℕ) (files : Store) (earlier : ℕ)
        (s : Healer W)
        → earlier ≤ now
        → Rests earlier s
        → Rests now (run_self_heal m resource_name dry_run now files s).1
    unfolding run_self_heal
    run_self_heal-Rests none dry_run now files earlier s le q =
        let started = record s { history = prune_state (load_state s.saved) now } in
        let items = selected none files in
        let s1 = (heal_all m dry_run now items started).1 in
        let b = heal_all-Bounded dry_run now items started (starts-Bounded earlier now s le q) in
        both_results (λ (x : Result Report × Healer W). Rests now x.1)
          (heal_all m dry_run now items started).0 (λ os _. saves-Rests now s1 b)
          (λ why _. ends-Rests now s1 b)
    run_self_heal-Rests (some name) dry_run now files earlier s le q =
        let started = record s { history = prune_state (load_state s.saved) now } in
        let items = selected (some name) files in
        let s1 = (heal_all m dry_run now items started).1 in
        let b = heal_all-Bounded dry_run now items started (starts-Bounded earlier now s le q) in
        let goal = λ (x : Result Report × Healer W). Rests now x.1 in
        both_branches goal (is_empty items) (λ _. later-Rests earlier now s le q)
          (λ _.
            both_results goal (heal_all m dry_run now items started).0
              (λ os _. saves-Rests now s1 b) (λ why _. ends-Rests now s1 b))

    -- The runs one after the other.
    abbrev pub run_all : List Trigger → Healer W → Healer W
    run_all [] s = s
    run_all (t ∷ ts) s = run_all ts (run_self_heal m t.resource_name t.dry_run t.now t.files s).1

    run_all-IsLimited :
        (ts : List Trigger) (earlier : ℕ) (s : Healer W)
        → IsOrdered earlier ts
        → Rests earlier s
        → IsLimited (run_all ts s).restarts
    run_all-IsLimited [] earlier s o q = q.limited
    run_all-IsLimited (t ∷ ts) earlier s o q =
        run_all-IsLimited ts t.now (run_self_heal m t.resource_name t.dry_run t.now t.files s).1 o.1
          (run_self_heal-Rests t.resource_name t.dry_run t.now t.files earlier s o.0 q)

    -- From a state in which no restart was issued, whatever its file holds: runs at times that do
    -- not go back issue at most three restarts of one resource in any stretch of ten minutes,
    -- whatever the registries, the health checks and `systemctl` answer.
    pub self_heal_limit :
        (ts : List Trigger) (s : Healer W)
        → s.restarts ≡ []
        → IsOrdered 0 ts
        → (name : Text) (a : ℕ)
        → restarts_between name a (a + 10 * 60 * 1000) (run_all ts s).restarts ≤ 3
    self_heal_limit ts s e o =
        run_all-IsLimited ts 0 s o
          (rw e (record { past = tt; file = λ n a w. omega arith; limited = λ n a. omega arith }))
