-- ===== src/Health.antt =====
-- internal/client/supervisor/health.go, with the defaults of supervisor.go: the watch for a path
-- that is dead although the local address has not changed. One tick reads the clock once.
pub mod Repairs
pub mod Migration
mod Tests
use quic_diver.Base.{
  ℕ, zero, suc, ◌+◌, ◌*◌, ◌^◌, Bool, true, false, not, ◌&&◌, ◌||◌, Option, none, some, ltb, leb,
  ◌==◌, if◌then◌else◌, List, [], ◌∷◌,
}

-- The limits that the watch reads. `max_repairs` is `none` where the number is negative: no limit.
pub record Config : Type 0 where
  pub silence_limit : ℕ
  pub repair_every : ℕ
  pub max_repairs : Option ℕ

-- What a caller may leave unset: 0 stands for the default.
pub record Given : Type 0 where
  pub silence_limit : ℕ
  pub repair_every : ℕ
  pub max_repairs : Option ℕ

abbrev second : ℕ
second = 10 ^ 9

unfoldable pub repairs_or_default : Option ℕ → Option ℕ
repairs_or_default none = none
repairs_or_default (some n) = if n == 0 then some 2 else some n

-- `New`, for the fields of the watch.
unfoldable pub new_config : Given → Config
unfolding repairs_or_default
new_config g = record {
  silence_limit = if g.silence_limit == 0 then 20 * second else g.silence_limit;
  repair_every = if g.repair_every == 0 then 3 * second else g.repair_every;
  max_repairs = repairs_or_default g.max_repairs;
}

-- The variables of `watchPath`; `none` is the zero time.
pub record Watch : Type 0 where
  pub last_sent : ℕ
  pub last_recv : ℕ
  pub silent_since : Option ℕ
  pub last_repair : Option ℕ
  pub tries : ℕ
  pub started : Bool

abbrev pub start : Watch
start = record {
  last_sent = 0;
  last_recv = 0;
  silent_since = none;
  last_repair = none;
  tries = 0;
  started = false;
}

-- A tick: the clock and the two counters of the session.
pub record Tick : Type 0 where
  pub now : ℕ
  pub sent : ℕ
  pub recv : ℕ

-- `silentSince` where we sent and heard nothing.
abbrev pub since_or : Option ℕ → ℕ → Option ℕ
since_or none now = some now
since_or (some s) now = some s

-- The `switch` of `watchPath`, and the counters taken over.
unfoldable pub observe : Watch → Tick → Watch
observe w t =
    if ltb w.last_recv t.recv
    then record w { last_sent = t.sent; last_recv = t.recv; silent_since = none; tries = 0 }
    else if ltb w.last_sent t.sent
    then record w {
      last_sent = t.sent;
      last_recv = t.recv;
      silent_since = since_or w.silent_since t.now;
    }
    else record w { last_sent = t.sent; last_recv = t.recv }

-- `now - since` is at least the limit; the zero time is long ago.
abbrev pub elapsed : Option ℕ → ℕ → ℕ → Bool
elapsed none limit now = true
elapsed (some s) limit now = leb (s + limit) now

-- Silent for at least the limit; not silent at the zero time.
abbrev pub silent_for : Option ℕ → ℕ → ℕ → Bool
silent_for none limit now = false
silent_for (some s) limit now = leb (s + limit) now

abbrev pub tries_left : Option ℕ → ℕ → Bool
tries_left none tries = true
tries_left (some max) tries = ltb tries max

-- The three tests behind the `switch`: is this the moment for a repair?
unfoldable pub due : Config → Watch → ℕ → Bool
due c w now =
    silent_for w.silent_since c.silence_limit now
    && (elapsed w.last_repair c.repair_every now && tries_left c.max_repairs w.tries)

-- The end of a round; the flag says that `repair` is called.
unfoldable pub try_repair : Config → Watch → ℕ → Watch × Bool
unfolding due
try_repair c w now =
    if due c w now
    then (record w { last_repair = some now; tries = w.tries + 1 }, true)
    else (w, false)

-- One round of the loop of `watchPath`.
unfoldable pub tick : Config → Watch → Tick → Watch × Bool
unfolding observe try_repair
tick c w t =
    if w.started
    then try_repair c (observe w t) t.now
    else (record w { last_sent = t.sent; last_recv = t.recv; started = true }, false)

abbrev pub count : Bool → ℕ
count true = 1
count false = 0

-- A run of ticks: the last state, and how often `repair` was called.
unfoldable pub run : Config → Watch → List Tick → Watch × ℕ
unfolding tick
run c w [] = (w, 0)
run c w (t ∷ ts) = let (w', b) = tick c w t in let (w'', n) = run c w' ts in (w'', count b + n)
