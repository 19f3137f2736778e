-- ===== src/Rules/Edit.antt =====
-- The router's edits on a compiled set, which is always sorted again.
use mathlib.Core.List.{append-nil}
use quic_diver.Base.{
  ℕ, zero, suc, ◌<◌, ◌≡◌, refl, ap, ◌∙◌, ◌⊎◌, inl, inr, Bool-cases, true, false, some, List, [],
  ◌∷◌, ◌++◌, All, arith, Str, get_elem?, length, ltb, ◌==◌, lt→ltb,
}
use quic_diver.Rules.{
  Rule, Ruleset, compile, sort_rules_by_priority, add_rule, move_rule, remove_at, insert_at,
  is_process_rule,
}
use quic_diver.Rules.Sort.{
  specific, process, specific-append, process-append, sort-parts, IsSpecific, IsProcess,
  split_of_specific, split_of_process, split_cons_process, split_cons_specific,
}

-- A set as `Compile` leaves it.
abbrev pub IsCompiled : Ruleset → Type 0
IsCompiled s = s.rules ≡ sort_rules_by_priority s.rules

-- Where `AddRule` really puts a rule: a process rule at the end of the set, a specific one at the
-- end of the specific rules, before every process rule.
pub add_rule-position :
    (s : Ruleset) (r : Rule)
    → ((IsProcess r) × ((add_rule s r).rules ≡ specific s.rules ++ (process s.rules ++ r ∷ [])))
      ⊎ ((IsSpecific r) × ((add_rule s r).rules ≡ (specific s.rules ++ r ∷ []) ++ process s.rules))
unfolding add_rule compile
add_rule-position s r = elim (Bool-cases (is_process_rule r)) [
  | inl p ↦
      let (a, b) = split_of_process (r ∷ []) (p, tt) in
      inl (
        p,
        sort-parts (s.rules ++ r ∷ [])
            ∙ rw (
              specific-append s.rules (r ∷ []),
              process-append s.rules (r ∷ []),
              a,
              b,
              append-nil (specific s.rules),
            ),
      )
  | inr p ↦
      let (a, b) = split_of_specific (r ∷ []) (p, tt) in
      inr (
        p,
        sort-parts (s.rules ++ r ∷ [])
            ∙ rw (
              specific-append s.rules (r ∷ []),
              process-append s.rules (r ∷ []),
              a,
              b,
              append-nil (process s.rules),
            ),
      )
]

remove_at_end : (ss ps : List Rule) (r : Rule) → remove_at (length ss) (ss ++ r ∷ ps) ≡ ss ++ ps
remove_at_end [] ps r = refl
remove_at_end (s ∷ ss) ps r = ap (◌∷◌ s) (remove_at_end ss ps r)

get_elem?_end : (ss ps : List Rule) (r : Rule) → get_elem? (ss ++ r ∷ ps) (length ss) ≡ some r
get_elem?_end [] ps r = refl
get_elem?_end (s ∷ ss) ps r = get_elem?_end ss ps r

length_end : (ss ps : List Rule) (r : Rule) → length ss < length (ss ++ r ∷ ps)
length_end [] ps r = omega arith
length_end (s ∷ ss) ps r = omega (arith, length_end ss ps r)

parts_of_mixed :
    (ss ps : List Rule)
    → All IsSpecific ss
    → All IsProcess ps
    → (specific (ss ++ ps) ≡ ss) × (process (ss ++ ps) ≡ ps)
parts_of_mixed ss ps hs hp =
    let (a, b) = split_of_specific ss hs in
    let (c, d) = split_of_process ps hp in
    (
      specific-append ss ps
          ∙ ap (λ (x : List Rule). x ++ specific ps) a
          ∙ ap (λ (x : List Rule). ss ++ x) c
          ∙ append-nil ss,
      process-append ss ps ∙ ap (λ (x : List Rule). x ++ process ps) b ∙ d,
    )

inserted_parts :
    (ss ps : List Rule) (r : Rule) (to : ℕ)
    → All IsSpecific ss
    → IsProcess r
    → All IsProcess ps
    → to < length ss
    → (specific (insert_at to r (ss ++ ps)) ≡ ss) × (process (insert_at to r (ss ++ ps)) ≡ r ∷ ps)
inserted_parts [] ps r to hs hr hp lt = absurd (omega arith)
inserted_parts (s ∷ ss) ps r zero hs hr hp lt =
    let (a, b) = split_cons_process r ((s ∷ ss) ++ ps) hr in
    let (c, d) = parts_of_mixed (s ∷ ss) ps hs hp in (a ∙ c, b ∙ ap (◌∷◌ r) d)
inserted_parts (s ∷ []) ps r (suc to) hs hr hp lt = absurd (omega arith)
inserted_parts (s ∷ s' ∷ ss) ps r (suc to) hs hr hp lt =
    let (a, b) = split_cons_specific s (insert_at to r ((s' ∷ ss) ++ ps)) hs.0 in
    let (c, d) = inserted_parts (s' ∷ ss) ps r to hs.1 hr hp (omega arith) in
    (a ∙ ap (◌∷◌ s) c, b ∙ d)

-- A process rule that is put among the specific rules is the first process rule after sorting.
sort-insert_at :
    (ss ps : List Rule) (r : Rule) (to : ℕ)
    → All IsSpecific ss
    → IsProcess r
    → All IsProcess ps
    → to < length ss
    → sort_rules_by_priority (insert_at to r (ss ++ ps)) ≡ ss ++ r ∷ ps
sort-insert_at ss ps r to hs hr hp lt =
    sort-parts (insert_at to r (ss ++ ps))
    ∙ ap (λ (x : List Rule). x ++ process (insert_at to r (ss ++ ps)))
        (inserted_parts ss ps r to hs hr hp lt).0
    ∙ ap (λ (x : List Rule). ss ++ x) (inserted_parts ss ps r to hs hr hp lt).1

-- `MoveRule` reports success and changes nothing when it is asked to put the first process rule
-- anywhere before a specific rule.
pub move_rule_undone :
    (ss ps : List Rule) (r : Rule) (def : Str) (to : ℕ)
    → All IsSpecific ss
    → IsProcess r
    → All IsProcess ps
    → to < length ss
    → move_rule (record { rules = ss ++ r ∷ ps; default = def }) (length ss) to
      ≡ (record { rules = ss ++ r ∷ ps; default = def }, true)
unfolding move_rule compile
move_rule_undone ss ps r def to hs hr hp lt =
    let from_in : ltb (length ss) (length (ss ++ r ∷ ps)) ≡ true =
      lt→ltb _ _ (length_end ss ps r) in
    let to_in : ltb to (length (ss ++ r ∷ ps)) ≡ true = ground (arith, length_end ss ps r) in
    let apart : (length ss == to) ≡ false = ground arith in
    rw (
      from_in,
      to_in,
      apart,
      get_elem?_end ss ps r,
      remove_at_end ss ps r,
      sort-insert_at ss ps r to hs hr hp lt,
    )
