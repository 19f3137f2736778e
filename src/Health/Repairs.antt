-- ===== src/Health/Repairs.antt =====
-- When the watch repairs a path, and how often.
use quic_diver.Base.{
  ℕ, ◌+◌, ◌≤◌, ◌<◌, ◌≡◌, refl, sym, ap, subst, ◌∙◌, inl, inr, Bool, true, false, none, some, List,
  [], ◌∷◌, arith, Bool-cases, Option-cases, ◌≢◌,
}
use quic_diver.Health.{Config, Watch, Tick, observe, due, try_repair, tick, count, run, tries_left}

-- What the three tests say.
due_parts :
    (c : Config) (w : Watch) (now : ℕ)
    → due c w now ≡ true
    → ((s : ℕ) × (w.silent_since ≡ some s) × (s + c.silence_limit ≤ now))
      × ((last : ℕ) → w.last_repair ≡ some last → last + c.repair_every ≤ now)
      × ((max : ℕ) → c.max_repairs ≡ some max → w.tries < max)
unfolding due
due_parts c w now h = (silent, (λ last e. ground arith), λ max e. ground arith)
  where
    silent : (s : ℕ) × (w.silent_since ≡ some s) × (s + c.silence_limit ≤ now)
    silent = elim (Option-cases w.silent_since) [
      | inl e ↦ absurd (ground arith)
      | inr (s, e) ↦ (s, e, ground arith)
    ]

try_repair-true :
    (c : Config) (w : Watch) (now : ℕ)
    → (try_repair c w now).1 ≡ true
    → (due c w now ≡ true)
      × (try_repair c w now ≡ (record w { last_repair = some now; tries = w.tries + 1 }, true))
unfolding try_repair
try_repair-true c w now h = elim (Bool-cases (due c w now)) [
  | inl d ↦ (d, rw d)
  | inr d ↦ absurd (ground arith)
]

observe_fields :
    (w : Watch) (t : Tick)
    → ((observe w t).last_repair ≡ w.last_repair)
      × ((observe w t).silent_since ≢ none → t.recv ≤ w.last_recv)
      × (t.recv ≤ w.last_recv → (observe w t).tries ≡ w.tries)
unfolding observe
observe_fields w t = (ground arith, (λ h. ground arith), λ h. ground arith)

tick-true :
    (c : Config) (w : Watch) (t : Tick)
    → (tick c w t).1 ≡ true
    → (w.started ≡ true) × (tick c w t ≡ try_repair c (observe w t) t.now)
unfolding tick
tick-true c w t h = elim (Bool-cases w.started) [
  | inl s ↦ (s, rw s)
  | inr s ↦ absurd (ground arith)
]

-- A repair is made only after a silence of at least the limit, in a round that heard nothing new;
-- at least `repair_every` after the one before; within the number of tries; and it counts as one.
pub tick_repairs :
    (c : Config) (w : Watch) (t : Tick)
    → (tick c w t).1 ≡ true
    → (t.recv ≤ w.last_recv)
      × ((s : ℕ) × ((tick c w t).0.silent_since ≡ some s) × (s + c.silence_limit ≤ t.now))
      × ((last : ℕ) → w.last_repair ≡ some last → last + c.repair_every ≤ t.now)
      × ((max : ℕ) → c.max_repairs ≡ some max → w.tries < max)
      × ((tick c w t).0.last_repair ≡ some t.now)
      × ((tick c w t).0.tries ≡ w.tries + 1)
tick_repairs c w t h =
    let (on, e) = tick-true c w t h in
    let (d, r) =
      try_repair-true c (observe w t) t.now (ap (λ (x : Watch × Bool). x.1) (sym e) ∙ h) in
    let ((s, silent, long), spaced, few) = due_parts c (observe w t) t.now d in
    let (last, deaf, tries) = observe_fields w t in
    let quiet : t.recv ≤ w.last_recv = deaf (λ q. cc) in
    rw (e, r)
      (
        quiet,
        (s, silent, long),
        (λ l q. spaced l (last ∙ q)),
        (λ m q. rw (← tries quiet) (few m q)),
        refl,
        ap (λ (n : ℕ). n + 1) (tries quiet),
      )

-- Ticks of an outage: nothing new is heard.
abbrev pub Deaf : ℕ → List Tick → Type 0
Deaf recv [] = Unit
Deaf recv (t ∷ ts) = (t.recv ≡ recv) × Deaf recv ts

tick_deaf :
    (c : Config) (w : Watch) (t : Tick)
    → w.started ≡ true
    → t.recv ≡ w.last_recv
    → ((tick c w t).0.tries ≡ w.tries + count (tick c w t).1)
      × ((tick c w t).0.last_recv ≡ w.last_recv)
      × ((tick c w t).0.started ≡ true)
unfolding tick observe try_repair due
tick_deaf c w t s h = (ground arith, ground arith, ground arith)

tick-le-max :
    (c : Config) (w : Watch) (t : Tick) (max : ℕ)
    → c.max_repairs ≡ some max
    → w.tries ≤ max
    → (tick c w t).0.tries ≤ max
unfolding tick observe try_repair due
tick-le-max c w t max e h = ground arith

-- In one outage, a run of rounds that hear nothing new, the path is repaired at most `max_repairs`
-- times, those tried before the run included, however long it lasts.
pub run-le-max :
    (c : Config) (w : Watch) (ts : List Tick) (max : ℕ)
    → c.max_repairs ≡ some max
    → w.started ≡ true
    → w.tries ≤ max
    → Deaf w.last_recv ts
    → w.tries + (run c w ts).1 ≤ max
unfolding run
run-le-max c w [] max e s h d = omega arith
run-le-max c w (t ∷ ts) max e s h d =
    let (tries, recv, on) = tick_deaf c w t s d.0 in
    let rest =
      run-le-max c (tick c w t).0 ts max e on (tick-le-max c w t max e h)
        (subst (λ (n : ℕ). Deaf n ts) (sym recv) d.1) in
    omega (arith, tries, rest)

-- An answer that comes in ends the outage: no repair, no silence, and a full stock of tries.
pub tick_heard :
    (c : Config) (w : Watch) (t : Tick)
    → w.started ≡ true
    → w.last_recv < t.recv
    → ((tick c w t).1 ≡ false) × ((tick c w t).0.silent_since ≡ none) × ((tick c w t).0.tries ≡ 0)
unfolding tick observe try_repair due
tick_heard c w t s h = (ground arith, ground arith, ground arith)

-- Rounds before `until` in which nothing is sent and nothing heard.
abbrev pub Idle : ℕ → ℕ → ℕ → List Tick → Type 0
Idle sent recv until [] = Unit
Idle sent recv until (t ∷ ts) =
    (t.sent ≡ sent) × (t.recv ≡ recv) × (t.now < until) × Idle sent recv until ts

-- Something is sent, at `t`; after it come idle rounds, and `u` is the first one at or behind the
-- limit. No answer comes, and nothing more is sent.
pub record OnePacket (c : Config) (w : Watch) (t : Tick) (ts : List Tick) (u : Tick) : Type 0 where
  pub started : w.started ≡ true
  pub heard : w.silent_since ≡ none
  pub stock : tries_left c.max_repairs w.tries ≡ true
  pub rested : (last : ℕ) → w.last_repair ≡ some last → last + c.repair_every ≤ u.now
  pub patient : 0 < c.silence_limit
  pub sends : w.last_sent < t.sent
  pub no_answer : t.recv ≡ w.last_recv
  pub idle : Idle t.sent t.recv (t.now + c.silence_limit) ts
  pub still : (u.sent ≡ t.sent) × (u.recv ≡ t.recv)
  pub long : t.now + c.silence_limit ≤ u.now

-- The watch after `t`, and after every idle round behind it.
abbrev waiting : Watch → Tick → Watch
waiting w t = record w { last_sent = t.sent; last_recv = t.recv; silent_since = some t.now }
