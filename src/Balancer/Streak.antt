-- ===== src/Balancer/Streak.antt =====
-- What has happened before `Pick` changes its mind: three rounds in a row.
use quic_diver.Base.{
  ℕ, zero, suc, ◌+◌, ◌*◌, ◌^◌, ◌≤◌, ◌<◌, arith, ◌≡◌, ◌≢◌, refl, sym, subst, ◌∙◌, ◌⊎◌, inl, inr,
  true, false, ltb, if◌then◌else◌, if-cases, if_pos, ltb→le, Option, none, some, List, [], ◌∷◌, In,
  Str, Str-discrete,
}
use quic_diver.Balancer.{
  Balancer, Choice, is_blank, best_locked, fresh_score, much_better, worth_switch, challenge,
  reconsider, next_choice, pick, set_choice, fresh_choice, switch_cooldown, hold_windows, listed,
  sort_strings,
}
use quic_diver.Balancer.Switch.{pick_switches}

-- One call of `Pick` for the tag: the balancer before it, the clock and the candidates.
pub record Round : Type 0 where
  pub state : Balancer
  pub now : ℕ
  pub head : Str
  pub rest : List Str

-- The clock does not go back.
abbrev pub Later : List Round → ℕ → Type 0
Later [] now = Unit
Later (r ∷ rs) now = r.now ≤ now

-- The calls for a tag since it has had no choice, the last one first, and the balancer after them.
-- Between two calls metrics come and go, and other tags are served: that leaves the choice of the tag.
pub data History (tag : Str) : List Round → Balancer → Type 0 where
  begins : {b : Balancer} → b.choice tag ≡ none → History tag [] b
  goes :
      {rs : List Round} {b : Balancer} (b' : Balancer) (now : ℕ) (c : Str) (cs : List Str)
      → History tag rs b
      → b'.choice tag ≡ b.choice tag
      → Later rs now
      → History tag
          (record { state = b'; now = now; head = c; rest = cs } ∷ rs)
          (pick b' now tag (c ∷ cs)).0

-- The node `x` is well worth leaving `y` in this round, with `y` chosen at `since`: it is the best
-- candidate, its score is fresh, and that of `y` is stale or more than a fifth and 5 ms higher; and
-- `y` was chosen 5 minutes ago or earlier.
abbrev pub WellWorth : ℕ → Str → Str → Round → Type 0
WellWorth since y x r =
    (best_locked r.state r.now (sort_strings (r.head ∷ r.rest)) ≡ x)
    × (since + 300 * 10 ^ 9 ≤ r.now)
    × ((s : ℕ) × (fresh_score r.state r.now x ≡ some s)
        × ((fresh_score r.state r.now y ≡ none)
            ⊎ ((t : ℕ) × (fresh_score r.state r.now y ≡ some t)
                × (5 * s < 4 * t)
                × (s + 5 * 10 ^ 6 ≤ t))))

-- The last `n` rounds were such.
abbrev Won : ℕ → ℕ → Str → Str → List Round → Type 0
Won zero since y x rs = Unit
Won (suc n) since y x [] = ⊥
Won (suc n) since y x (r ∷ rs) = WellWorth since y x r × Won n since y x rs

-- As many as the choice has counted.
abbrev Streak : List Round → Option Choice → Type 0
Streak rs none = Unit
Streak rs (some c) = Won c.wins c.since c.node c.challenger rs

worth-WellWorth :
    (b : Balancer) (now since : ℕ) (y x c : Str) (cs : List Str)
    → best_locked b now (sort_strings (c ∷ cs)) ≡ x
    → since + switch_cooldown ≤ now
    → worth_switch b y x now ≡ true
    → WellWorth since y x (record { state = b; now = now; head = c; rest = cs })
unfolding worth_switch much_better
worth-WellWorth b now since y x c cs best old worth =
    (best, old, at (fresh_score b now x) (fresh_score b now y) refl refl worth)
  where
    at :
        (o q : Option ℕ)
        → fresh_score b now x ≡ o
        → fresh_score b now y ≡ q
        → (elim o [ none ↦ false | some s ↦ elim q [ none ↦ true | some t ↦ much_better t s ] ])
          ≡ true
        → (s : ℕ) × (fresh_score b now x ≡ some s)
          × ((fresh_score b now y ≡ none)
              ⊎ ((t : ℕ) × (fresh_score b now y ≡ some t) × (5 * s < 4 * t) × (s + 5 * 10 ^ 6 ≤ t)))
    at none q e f h = ground arith
    at (some s) none e f h = (s, e, inl f)
    at (some s) (some t) e f h = (s, e, inr (t, f, ground arith, ground arith))

-- A streak that has begun goes on only after the pause.
streak_late :
    (rs : List Round) (now n since : ℕ) (y x : Str)
    → Later rs now
    → Won (suc n) since y x rs
    → since + switch_cooldown ≤ now
streak_late [] now n since y x l w = elim w [ ]
streak_late (r ∷ rs) now n since y x l (v, w) = omega (arith, v.1)

module _ (rs : List Round) (b : Balancer) (now : ℕ) (c : Str) (cs : List Str) where
  abbrev this : Round
  this = record { state = b; now = now; head = c; rest = cs }

  -- In the pause nothing has been won.
  paused :
      (n since : ℕ) (y x : Str)
      → Later rs now
      → now < since + switch_cooldown
      → Won n since y x rs
      → Won n since y x (this ∷ rs)
  paused zero since y x l p w = tt
  paused (suc n) since y x l p w = absurd (ground (arith, streak_late rs now n since y x l w))

  challenged :
      (cur : Choice) (best : Str)
      → WellWorth cur.since cur.node best this
      → Streak rs (some cur)
      → Streak (this ∷ rs) (some (challenge now cur best))
  unfolding challenge
  challenged cur best v w =
      elim (Str-discrete cur.challenger best)
        as (λ d. Streak (this ∷ rs) (
          some (elim d [
            | no e ↦ record cur { challenger = best; wins = 1 }
            | yes e ↦
                if ltb (cur.wins + 1) hold_windows
                then record cur { wins = cur.wins + 1 }
                else fresh_choice best now
          ]))) [
            | no e ↦ (v, tt)
            | yes e ↦
                if-cases (λ k. Streak (this ∷ rs) (some k)) (ltb (cur.wins + 1) hold_windows) _ _
                  (λ l.
                    let one_more : suc cur.wins ≡ cur.wins + 1 = omega arith in
                    subst (λ n. Won n cur.since cur.node cur.challenger (this ∷ rs)) one_more
                      (subst (λ x. WellWorth cur.since cur.node x this) (sym e) v, w))
                  (λ l. tt)
          ]

  reconsidered :
      (cur : Choice)
      → Later rs now
      → Streak rs (some cur)
      → Streak (this ∷ rs) (some (reconsider b now cur (best_locked b now (sort_strings (c ∷ cs)))))
  unfolding reconsider
  reconsidered cur l w =
      if-cases P (is_blank best) stay _ (λ e. tt)
        (λ e.
          elim (Str-discrete best cur.node)
            as (λ d. P (elim d [
              | yes e ↦ stay
              | no e ↦ if ltb now (cur.since + switch_cooldown) then cur else third
            ])) [
              | yes e ↦ tt
              | no e ↦
                  if-cases P (ltb now (cur.since + switch_cooldown)) cur third
                    (λ p. paused cur.wins cur.since cur.node cur.challenger l (ground (arith, p)) w)
                    (λ p.
                      if-cases P (worth_switch b cur.node best now) (challenge now cur best) stay
                        (λ worth.
                          challenged cur best
                            (worth-WellWorth b now cur.since cur.node best c cs refl
                              (ltb→le now (cur.since + switch_cooldown) p) worth)
                            w)
                        (λ worth. tt))
            ])
    where
      best : Str
      best = best_locked b now (sort_strings (c ∷ cs))

      P : Choice → Type 0
      P k = Streak (this ∷ rs) (some k)

      stay : Choice
      stay = record cur { challenger = []; wins = 0 }

      third : Choice
      third = if worth_switch b cur.node best now then challenge now cur best else stay

  chosen :
      (o : Option Choice)
      → Later rs now
      → Streak rs o
      → Streak (this ∷ rs) (some (next_choice b now o (sort_strings (c ∷ cs))))
  unfolding next_choice
  chosen none l w = tt
  chosen (some cur) l w =
      if-cases (λ k. Streak (this ∷ rs) (some k)) (listed (sort_strings (c ∷ cs)) cur.node) _ _
        (λ e. reconsidered cur l w) (λ e. tt)

History-Streak :
    {tag : Str} {rs : List Round} {b : Balancer} → History tag rs b → Streak rs (b.choice tag)
unfolding pick set_choice
History-Streak (begins {b} e) = subst (Streak []) (sym e) tt
History-Streak {tag} (goes {rs} {b} b' now c cs h same l) =
    subst (Streak (record { state = b'; now = now; head = c; rest = cs } ∷ rs))
      (sym (if_pos (Str-discrete tag tag) refl _ _))
      (chosen rs b' now c cs (b'.choice tag) l (subst (Streak rs) (sym same) (History-Streak h)))

-- The last three rounds, this one included.
two_before :
    (n since : ℕ) (y x : Str) (rs : List Round)
    → 2 ≤ n
    → Won n since y x rs
    → (q1 : Round) × ((q2 : Round) × ((older : List Round) × (rs ≡ q1 ∷ q2 ∷ older)
          × WellWorth since y x q1
          × WellWorth since y x q2))
two_before zero since y x rs l w = ground (arith, l)
two_before (suc zero) since y x rs l w = ground (arith, l)
two_before (suc (suc n)) since y x [] l w = elim w [ ]
two_before (suc (suc n)) since y x (q1 ∷ []) l w = elim w.1 [ ]
two_before (suc (suc n)) since y x (q1 ∷ q2 ∷ older) l (w1, (w2, w)) =
    (q1, (q2, (older, refl, w1, w2)))

-- After any history of the calls of `Pick` for a tag, a call leaves a chosen node that is still a
-- candidate only for one that is well worth it in this call and was so in the two calls before it:
-- each time it was the best candidate, its score was fresh, that of the chosen node was stale or
-- more than a fifth and 5 ms higher, and the chosen node had been chosen 5 minutes ago or earlier.
-- The choice is then the new node, as of now.
pub pick-WellWorth :
    (tag : Str) (rs : List Round) (b b' : Balancer) (now : ℕ) (c : Str) (cs : List Str)
    (cur : Choice)
    → History tag rs b
    → b'.choice tag ≡ b.choice tag
    → b'.choice tag ≡ some cur
    → In cur.node (c ∷ cs)
    → (pick b' now tag (c ∷ cs)).1 ≢ cur.node
    → (q1 : Round) × ((q2 : Round) × ((older : List Round) × (rs ≡ q1 ∷ q2 ∷ older)
          × WellWorth cur.since cur.node
              (pick b' now tag (c ∷ cs)).1
              (record { state = b'; now = now; head = c; rest = cs })
          × WellWorth cur.since cur.node (pick b' now tag (c ∷ cs)).1 q1
          × WellWorth cur.since cur.node (pick b' now tag (c ∷ cs)).1 q2
          × ((pick b' now tag (c ∷ cs)).0.choice tag
              ≡ some (fresh_choice (pick b' now tag (c ∷ cs)).1 now))))
pick-WellWorth tag rs b b' now c cs cur h same e i moved =
    let x = (pick b' now tag (c ∷ cs)).1 in
    let (old, challenger, wins, worth, to, best) = pick_switches b' now tag c cs cur e i moved in
    let won : Won cur.wins cur.since cur.node x rs =
      subst (λ x. Won cur.wins cur.since cur.node x rs) challenger
        (subst (Streak rs) (sym same ∙ e) (History-Streak h)) in
    let (q1, (q2, (older, all, v1, v2))) =
      two_before cur.wins cur.since cur.node x rs (omega (arith, wins)) won in
    (
      q1,
      (
        q2,
        (older, all, worth-WellWorth b' now cur.since cur.node x c cs best old worth, v1, v2, to),
      ),
    )
