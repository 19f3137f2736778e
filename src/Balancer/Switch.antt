-- ===== src/Balancer/Switch.antt =====
-- When `Pick` changes its mind.
use quic_diver.Base.{
  ℕ, ◌+◌, ◌≤◌, ◌≡◌, ◌≢◌, refl, sym, ap, inl, inr, ◌⊎◌, ◌∙◌, true, Option, none, some, ltb, List, [],
  ◌∷◌, All, In, Str, arith, subst, if◌then◌else◌, if-cases, if_pos, ltb→le, Str-discrete,
}
use quic_diver.Balancer.{
  Balancer, Choice, is_blank, best_locked, worth_switch, challenge, reconsider, next_choice, pick,
  set_choice, fresh_choice, switch_cooldown, hold_windows, listed, insert_string, str_leb,
  sort_strings,
}
use quic_diver.Balancer.Best.{IsNamed, head_name, best_locked-IsBest}

listed-In : (xs : List Str) (s : Str) → listed xs s ≡ true → In s xs
unfolding listed
listed-In [] s h = ground (arith, h)
listed-In (x ∷ xs) s h =
    elim (Str-discrete x s)
        as (λ d. elim d [ yes e ↦ true | no e ↦ listed xs s ] ≡ true → In s (x ∷ xs)) [
          | yes e ↦ λ k. inl (sym e)
          | no e ↦ λ k. inr (listed-In xs s k)
        ]
      h

In-listed : (xs : List Str) (s : Str) → In s xs → listed xs s ≡ true
unfolding listed
In-listed [] s h = elim h [ ]
In-listed (x ∷ xs) s h =
    elim (Str-discrete x s) as (λ d. elim d [ yes e ↦ true | no e ↦ listed xs s ] ≡ true) [
      | yes e ↦ refl
      | no e ↦ elim h [ inl k ↦ absurd (e (sym k)) | inr k ↦ In-listed xs s k ]
    ]

insert_string-In :
    (s t : Str) (ts : List Str)
    → (In t (insert_string s ts) → In t (s ∷ ts)) × (In t (s ∷ ts) → In t (insert_string s ts))
unfolding insert_string
insert_string-In s t [] = (λ h. h, λ h. h)
insert_string-In s t (x ∷ ts) =
    let (out, back) = insert_string-In s t ts in
    if-cases (λ xs. (In t xs → In t (s ∷ x ∷ ts)) × (In t (s ∷ x ∷ ts) → In t xs)) (str_leb s x) _ _
      (λ e. (λ h. h, λ h. h))
      (λ e. (
        λ h. elim h [
          | inl k ↦ inr (inl k)
          | inr k ↦ elim (out k) [ inl l ↦ inl l | inr l ↦ inr (inr l) ]
        ],
        λ h. elim h [
          | inl k ↦ inr (back (inl k))
          | inr (inl k) ↦ inl k
          | inr (inr k) ↦ inr (back (inr k))
        ],
      ))

-- What a choice becomes: it stays with its node, or turns to the best one on all four conditions.
abbrev pub Reconsiders : Balancer → ℕ → Choice → Str → Choice → Type 0
Reconsiders b now cur best c =
    ((c.node ≡ cur.node) × (c.since ≡ cur.since))
    ⊎ ((c ≡ fresh_choice best now)
        × (cur.since + switch_cooldown ≤ now)
        × (cur.challenger ≡ best)
        × (hold_windows ≤ cur.wins + 1)
        × (worth_switch b cur.node best now ≡ true))

challenge-Reconsiders :
    (b : Balancer) (now : ℕ) (cur : Choice) (best : Str)
    → cur.since + switch_cooldown ≤ now
    → worth_switch b cur.node best now ≡ true
    → Reconsiders b now cur best (challenge now cur best)
unfolding challenge
challenge-Reconsiders b now cur best old worth =
    elim (Str-discrete cur.challenger best)
      as (λ d. Reconsiders b now cur best (elim d [
        | no e ↦ record cur { challenger = best; wins = 1 }
        | yes e ↦
            if ltb (cur.wins + 1) hold_windows
            then record cur { wins = cur.wins + 1 }
            else fresh_choice best now
      ])) [
        | no e ↦ inl (refl, refl)
        | yes e ↦
            if-cases (Reconsiders b now cur best) (ltb (cur.wins + 1) hold_windows) _ _
              (λ l. inl (refl, refl))
              (λ l. inr (refl, old, e, ltb→le (cur.wins + 1) hold_windows l, worth))
      ]

reconsider-Reconsiders :
    (b : Balancer) (now : ℕ) (cur : Choice) (best : Str)
    → Reconsiders b now cur best (reconsider b now cur best)
unfolding reconsider
reconsider-Reconsiders b now cur best =
    if-cases P (is_blank best) stay _ (λ e. inl (refl, refl))
      (λ e.
        elim (Str-discrete best cur.node)
          as (λ d. P (elim d [
            | yes e ↦ stay
            | no e ↦ if ltb now (cur.since + switch_cooldown) then cur else third
          ])) [
            | yes e ↦ inl (refl, refl)
            | no e ↦
                if-cases P (ltb now (cur.since + switch_cooldown)) cur third (λ l. inl (refl, refl))
                  (λ l.
                    if-cases P (worth_switch b cur.node best now) (challenge now cur best) stay
                      (λ w.
                        challenge-Reconsiders b now cur best
                          (ltb→le now (cur.since + switch_cooldown) l) w)
                      (λ w. inl (refl, refl)))
          ])
  where
    P : Choice → Type 0
    P = Reconsiders b now cur best

    stay : Choice
    stay = record cur { challenger = []; wins = 0 }

    third : Choice
    third = if worth_switch b cur.node best now then challenge now cur best else stay

pub sort_strings-In :
    (t : Str) (ss : List Str)
    → (In t (sort_strings ss) → In t ss) × (In t ss → In t (sort_strings ss))
unfolding sort_strings
sort_strings-In t [] = (λ h. h, λ h. h)
sort_strings-In t (s ∷ ss) =
    let (out, back) = sort_strings-In t ss in
    let (first, second) = insert_string-In s t (sort_strings ss) in
    (
      λ h. elim (first h) [ inl k ↦ inl k | inr k ↦ inr (out k) ],
      λ h. second (elim h [ inl k ↦ inl k | inr k ↦ inr (back k) ]),
    )

All-insert_string :
    (P : Str → Type 0) (s : Str) (ts : List Str) → P s → All P ts → All P (insert_string s ts)
unfolding insert_string
All-insert_string P s [] p ps = (p, tt)
All-insert_string P s (t ∷ ts) p ps =
    if-cases (All P) (str_leb s t) _ _ (λ e. (p, ps)) (λ e. (ps.0, All-insert_string P s ts p ps.1))

All-sort_strings : (P : Str → Type 0) (ss : List Str) → All P ss → All P (sort_strings ss)
unfolding sort_strings
All-sort_strings P [] ps = tt
All-sort_strings P (s ∷ ss) ps =
    All-insert_string P s (sort_strings ss) ps.0 (All-sort_strings P ss ps.1)

head_name-In : (t : Str) (ss : List Str) → In t ss → In (head_name ss) ss
head_name-In t [] h = h
head_name-In t (s ∷ ss) h = inl refl

best_locked-In :
    (b : Balancer) (now : ℕ) (t : Str) (ss : List Str)
    → All IsNamed ss
    → In t ss
    → In (best_locked b now ss) ss
best_locked-In b now t ss named i = elim (best_locked-IsBest b now ss named) [
  | inl (s, at, same, low) ↦ at
  | inr (stale, e) ↦ subst (λ x. In x ss) (sym e) (head_name-In t ss i)
]

next_choice-In :
    (b : Balancer) (now : ℕ) (o : Option Choice) (t : Str) (ss : List Str)
    → All IsNamed ss
    → In t ss
    → In (next_choice b now o ss).node ss
unfolding next_choice
next_choice-In b now none t ss named i = best_locked-In b now t ss named i
next_choice-In b now (some cur) t ss named i =
    let best = best_locked b now ss in
    if-cases (λ c. In c.node ss) (listed ss cur.node) (reconsider b now cur best)
      (fresh_choice best now)
      (λ l. elim (reconsider-Reconsiders b now cur best) [
        | inl (e, since) ↦ subst (λ x. In x ss) (sym e) (listed-In ss cur.node l)
        | inr (e, old, wins, held, worth) ↦
            subst (λ (c : Choice). In c.node ss) (sym e) (best_locked-In b now t ss named i)
      ])
      (λ l. best_locked-In b now t ss named i)

-- Where there are candidates, `Pick` answers with one of them, and remembers it as the choice of
-- the tag.
pub pick-In :
    (b : Balancer) (now : ℕ) (tag c : Str) (cs : List Str)
    → All IsNamed (c ∷ cs)
    → In (pick b now tag (c ∷ cs)).1 (c ∷ cs)
      × ((k : Choice) × ((pick b now tag (c ∷ cs)).0.choice tag ≡ some k)
          × (k.node ≡ (pick b now tag (c ∷ cs)).1))
unfolding pick set_choice
pick-In b now tag c cs named =
    let ss = sort_strings (c ∷ cs) in
    let (out, back) = sort_strings-In (next_choice b now (b.choice tag) ss).node (c ∷ cs) in
    (
      out (
          next_choice-In b now (b.choice tag) c ss (All-sort_strings IsNamed (c ∷ cs) named)
            ((sort_strings-In c (c ∷ cs)).1 (inl refl))),
      (next_choice b now (b.choice tag) ss, if_pos (Str-discrete tag tag) refl _ _, refl),
    )

-- One call of `Pick` that leaves a chosen node which is still a candidate.
pub pick_switches :
    (b : Balancer) (now : ℕ) (tag c : Str) (cs : List Str) (cur : Choice)
    → b.choice tag ≡ some cur
    → In cur.node (c ∷ cs)
    → (pick b now tag (c ∷ cs)).1 ≢ cur.node
    → (cur.since + switch_cooldown ≤ now)
      × (cur.challenger ≡ (pick b now tag (c ∷ cs)).1)
      × (hold_windows ≤ cur.wins + 1)
      × (worth_switch b cur.node (pick b now tag (c ∷ cs)).1 now ≡ true)
      × ((pick b now tag (c ∷ cs)).0.choice tag
          ≡ some (fresh_choice (pick b now tag (c ∷ cs)).1 now))
      × (best_locked b now (sort_strings (c ∷ cs)) ≡ (pick b now tag (c ∷ cs)).1)
unfolding pick set_choice next_choice
pick_switches b now tag c cs cur e i moved =
    let best = best_locked b now (sort_strings (c ∷ cs)) in
    let kept : next_choice b now (b.choice tag) (sort_strings (c ∷ cs))
        ≡ reconsider b now cur best =
      rw e (
        rw (In-listed (sort_strings (c ∷ cs)) cur.node ((sort_strings-In cur.node (c ∷ cs)).1 i))
          refl) in
    elim (reconsider-Reconsiders b now cur best) [
      | inl (same, since) ↦ absurd (moved (ap Choice.node kept ∙ same))
      | inr (to, old, wins, held, worth) ↦
          let all = kept ∙ to in
          (
            old,
            wins ∙ sym (ap Choice.node all),
            held,
            subst (λ x. worth_switch b cur.node x now ≡ true) (sym (ap Choice.node all)) worth,
            if_pos (Str-discrete tag tag) refl _ _
                ∙ ap some (all ∙ ap (λ x. fresh_choice x now) (sym (ap Choice.node all))),
            sym (ap Choice.node all),
          )
    ]
