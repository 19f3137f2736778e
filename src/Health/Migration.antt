-- ===== src/Health/Migration.antt =====
-- internal/client/supervisor/supervisor.go: the loop of `Run` and the counters; `repair` of health.go.
-- What `Migrate` and `localAddr` answer is an argument; a migration either succeeds or fails.
use quic_diver.Base.{
  ℕ, suc, ◌+◌, ◌≡◌, refl, Bool, true, false, Option, none, some, List, [], ◌∷◌, arith,
  if◌then◌else◌,
}

-- The counters of the type `Supervisor`.
pub record Counters : Type 0 where
  pub migrations : ℕ
  pub failures : ℕ
  pub repairs : ℕ
  pub repair_fails : ℕ

-- What `select` of `Run` receives: the context is cancelled, the session is dead, or the network
-- changed, with whether the migration succeeds.
pub data Incoming : Type 0 where
  cancelled : Incoming
  dead : Incoming
  changed : Bool → Incoming

-- What `Run` returns.
pub data Ended : Type 0 where
  stopped : Ended
  session_dead : Ended

-- `handle`; the flag says that `OnNetworkChange` is called.
unfoldable pub handle : Counters → Bool → Counters × Bool
handle c migrated =
    if migrated
    then (record c { migrations = c.migrations + 1 }, true)
    else (record c { failures = c.failures + 1 }, false)

-- `repair`, with the local address found, if there is one, and what the migration from it answers.
unfoldable pub repair : Counters → Option Bool → Counters
repair c none = c
repair c (some migrated) =
    if migrated
    then record c { repairs = c.repairs + 1 }
    else record c { repairs = c.repairs + 1; repair_fails = c.repair_fails + 1 }

-- The loop of `Run`; `none` while it waits for more.
unfoldable pub run_loop : Counters → List Incoming → Counters × Option Ended
unfolding handle
run_loop c [] = (c, none)
run_loop c (cancelled ∷ is) = (c, some stopped)
run_loop c (dead ∷ is) = (c, some session_dead)
run_loop c (changed migrated ∷ is) = run_loop (handle c migrated).0 is

-- `Stats` and `RepairStats`
abbrev pub migration_stats : Counters → ℕ × ℕ
migration_stats c = (c.migrations, c.failures)

abbrev pub repair_stats : Counters → ℕ × ℕ
repair_stats c = (c.repairs, c.repair_fails)

-- The changes that come before the loop ends.
unfoldable pub changes : List Incoming → ℕ
changes [] = 0
changes (cancelled ∷ is) = 0
changes (dead ∷ is) = 0
changes (changed migrated ∷ is) = suc (changes is)

-- Every change of the network is counted once, as a migration or as a failure, until the loop ends,
-- and the counters of the repairs stay as they are.
pub run_loop-changes :
    (c : Counters) (is : List Incoming)
    → ((run_loop c is).0.migrations + (run_loop c is).0.failures
        ≡ c.migrations + c.failures + changes is)
      × (repair_stats (run_loop c is).0 ≡ repair_stats c)
unfolding run_loop handle changes
run_loop-changes c [] = (omega arith, refl)
run_loop-changes c (cancelled ∷ is) = (omega arith, refl)
run_loop-changes c (dead ∷ is) = (omega arith, refl)
run_loop-changes c (changed true ∷ is) =
    let (count, same) = run_loop-changes (record c { migrations = c.migrations + 1 }) is in
    (omega (arith, count), same)
run_loop-changes c (changed false ∷ is) =
    let (count, same) = run_loop-changes (record c { failures = c.failures + 1 }) is in
    (omega (arith, count), same)
