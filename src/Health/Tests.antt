-- ===== src/Health/Tests.antt =====
-- The watch on concrete counters, with limits of 20 and 3 and two repairs for an outage.
use quic_diver.Base.{ℕ, ◌+◌, ◌*◌, ◌^◌, ◌≤◌, ◌≡◌, refl, true, some, List, [], ◌∷◌, arith}
use quic_diver.Health.{Config, Watch, Tick, start, new_config, tick, run}
use quic_diver.Health.Repairs.{run-le-max}

program : Unit {0}
unfolding new_config tick run
program = tt

abbrev config : Config
config = record { silence_limit = 20; repair_every = 3; max_repairs = some 2 }

abbrev at : ℕ → ℕ → ℕ → Tick
at now sent recv = record { now = now; sent = sent; recv = recv }

abbrev watching : Watch
watching = record start { last_sent = 5; last_recv = 5; started = true }

abbrev silent : Watch
silent = record watching { last_sent = 9; silent_since = some 100 }

defaults :
    new_config (record { silence_limit = 0; repair_every = 0; max_repairs = some 0 })
    ≡ record { silence_limit = 20 * 10 ^ 9; repair_every = 3 * 10 ^ 9; max_repairs = some 2 }
unfolding program
defaults = refl

abbrev outage : List Tick
outage = at 121 10 5 ∷ at 122 11 5 ∷ at 124 12 5 ∷ at 130 13 5 ∷ at 140 14 5 ∷ []

two_repairs : (run config silent outage).1 ≡ 2
unfolding program
two_repairs = refl

run-le-max_example : 0 + (run config silent outage).1 ≤ 2
run-le-max_example = run-le-max config silent outage 2 refl refl (omega arith) (omega arith)

-- A round a second, and one packet at 100.
abbrev quiet : List Tick
quiet = at 101 6 5 ∷ at 102 6 5 ∷ at 110 6 5 ∷ at 119 6 5 ∷ []
