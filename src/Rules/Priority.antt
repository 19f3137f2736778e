-- ===== src/Rules/Priority.antt =====
-- Which rule decides a flow.

use quic_diver.Base.{
  ℕ, suc, ◌-◌, ◌≤◌, ◌≡◌, ◌≢◌, ◌↔◌, refl, sym, ap, subst, ◌∙◌, is_valid, inl, inr, Bool-cases, true,
  false, Option, none, some, List, [], ◌∷◌, ◌++◌, All, arith, Str, get_elem?, if◌then◌else◌,
}
use quic_diver.Rules.{
  is_empty, is_process_rule, split_rules, Rule, Flow, Ruleset, match_rule, explain_from, explain,
  classify, compile, sort_rules_by_priority,
}
use quic_diver.Rules.Sort.{specific, process, sort-parts, split_cons_process, split_cons_specific}

abbrev pub Matches : Flow → Rule → Type 0
Matches f r = match_rule r.condition f ≡ true

abbrev pub Misses : Flow → Rule → Type 0
Misses f r = match_rule r.condition f ≡ false

-- The rule that decides: the list splits into rules that miss and, if any matches, the first that
-- matches with the rest behind it.
abbrev pub Decides : Flow → Str → ℕ → List Rule → Str × Option ℕ → Type 0
Decides f def i rs (out, none) = (out ≡ def) × All (Misses f) rs
Decides f def i rs (out, some k) =
    (front : List Rule) × (r : Rule) × (back : List Rule) × (rs ≡ front ++ r ∷ back)
    × All (Misses f) front
    × Matches f r
    × (out ≡ r.out)
    × (get_elem? rs (k - i) ≡ some r)
    × (i ≤ k)

Decides-cons :
    (f : Flow) (def : Str) (i : ℕ) (r : Rule) (rs : List Rule) (o : Str × Option ℕ)
    → Misses f r
    → Decides f def (suc i) rs o
    → Decides f def i (r ∷ rs) o
Decides-cons f def i r rs (out, none) m d = (d.0, (m, d.1))
Decides-cons f def i r rs (out, some k) m (front, x, back, e, a, t, o, g, b) =
    let shift : k - i ≡ suc (k - suc i) = omega arith in
    (r ∷ front, x, back, ap (◌∷◌ r) e, (m, a), t, o, rw shift g, omega arith)

explain_from-Decides :
    (f : Flow) (def : Str) (i : ℕ) (rs : List Rule) → Decides f def i rs (explain_from f def i rs)
unfolding explain_from
explain_from-Decides f def i [] = (refl, tt)
explain_from-Decides f def i (r ∷ rs) = elim (Bool-cases (match_rule r.condition f)) [
  | inl hit ↦
      let start : i - i ≡ 0 = omega arith in
      rw hit ([], r, rs, refl, tt, hit, refl, rw start refl, omega arith)
  | inr miss ↦ rw miss (
      Decides-cons f def i r rs (explain_from f def (suc i) rs) miss
        (explain_from-Decides f def (suc i) rs))
]

-- `Explain` names the first rule that matches the flow, with its label and its index; if it names
-- none, no rule matches and the label is the default.
pub explain-Decides : (s : Ruleset) (f : Flow) → Decides f s.default 0 s.rules (explain s f)
unfolding explain
explain-Decides s f = explain_from-Decides f s.default 0 s.rules

-- The first match of a list of rules.
unfoldable pub first_match : Flow → List Rule → Option Rule
first_match f [] = none
first_match f (r ∷ rs) =
    let rest = first_match f rs in if match_rule r.condition f then some r else rest

-- The label of a rule, or one to fall back on.
abbrev pub out_or : Option Rule → Str → Str
out_or none def = def
out_or (some r) def = r.out

explain_from-first_match :
    (f : Flow) (def : Str) (i : ℕ) (rs : List Rule)
    → (explain_from f def i rs).0 ≡ out_or (first_match f rs) def
unfolding explain_from first_match
explain_from-first_match f def i [] = refl
explain_from-first_match f def i (r ∷ rs) =
    ground (arith, explain_from-first_match f def (suc i) rs)

first_match-append :
    (f : Flow) (def : Str) (xs ys : List Rule)
    → out_or (first_match f (xs ++ ys)) def
      ≡ out_or (first_match f xs) (out_or (first_match f ys) def)
unfolding first_match
first_match-append f def [] ys = refl
first_match-append f def (x ∷ xs) ys = ground (arith, first_match-append f def xs ys)

-- The process is the only condition of the rule.
abbrev pub NamesOnlyProcess : Rule → Type 0
NamesOnlyProcess r =
    (r.condition.process ≢ [])
    × (r.condition.domain ≡ [])
    × (r.condition.geo_site ≡ [])
    × (r.condition.geo_ip ≡ [])
    × (is_valid r.condition.cidr.addr ≡ false)
    × (r.condition.port ≡ 0)

-- A matching rule of the class, with none of the class that matches before it in the list; or there is
-- none at all.
abbrev pub FirstOf : (Rule → Type 0) → Flow → List Rule → Option Rule → Type 0
FirstOf class f rs none = All (λ r. class r → Misses f r) rs
FirstOf class f rs (some r) =
    (front : List Rule) × (back : List Rule) × (rs ≡ front ++ r ∷ back)
    × All (λ x. class x → Misses f x) front
    × class r
    × Matches f r

empty_text : (s : Str) → is_empty s ≡ true → s ≡ []
empty_text [] h = refl
empty_text (c ∷ s) h = ground arith

not_empty : (s : Str) → is_empty s ≡ false → s ≢ []
not_empty [] h e = ground arith
not_empty (c ∷ s) h e = ground arith

named_text : (s : Str) → s ≢ [] → is_empty s ≡ false
named_text [] h = absurd (h refl)
named_text (c ∷ s) h = refl

is_process_rule_iff : (r : Rule) → (is_process_rule r ≡ true) ↔ NamesOnlyProcess r
unfolding is_process_rule
is_process_rule_iff r =
    let m = r.condition in
    (
      λ h. (
        not_empty m.process (ground arith),
        empty_text m.domain (ground arith),
        empty_text m.geo_site (ground arith),
        empty_text m.geo_ip (ground arith),
        ground arith,
        ground arith,
      ),
      λ (p, d, g, i, c, n). rw (d, g, i, c, n) (rw (named_text m.process p) refl),
    )

-- The first match in a part of the list is the first one of its class in the list.
FirstOf-cons :
    (class : Rule → Type 0) (f : Flow) (r : Rule) (rs : List Rule) (o : Option Rule)
    → (class r → Misses f r)
    → FirstOf class f rs o
    → FirstOf class f (r ∷ rs) o
FirstOf-cons class f r rs none m h = (m, h)
FirstOf-cons class f r rs (some x) m (front, back, e, a, c, t) =
    (r ∷ front, back, ap (◌∷◌ r) e, (m, a), c, t)

first-hit :
    (class : Rule → Type 0) (f : Flow) (r : Rule) (rs part : List Rule)
    → class r
    → FirstOf class f rs (first_match f part)
    → FirstOf class f (r ∷ rs) (first_match f (r ∷ part))
unfolding first_match
first-hit class f r rs part c h = elim (Bool-cases (match_rule r.condition f)) [
  | inl hit ↦ rw hit ([], rs, refl, tt, c, hit)
  | inr miss ↦ rw miss (FirstOf-cons class f r rs (first_match f part) (λ k. miss) h)
]

false-true : false ≡ true → ⊥
false-true e = ground arith

process-first :
    (f : Flow) (rs : List Rule) → FirstOf NamesOnlyProcess f rs (first_match f (process rs))
unfolding split_rules first_match
process-first f [] = tt
process-first f (r ∷ rs) = elim (Bool-cases (is_process_rule r)) [
  | inl p ↦
      subst (λ part. FirstOf NamesOnlyProcess f (r ∷ rs) (first_match f part))
        (sym (split_cons_process r rs p).1)
        (first-hit NamesOnlyProcess f r rs (process rs) ((is_process_rule_iff r).0 p)
          (process-first f rs))
  | inr n ↦
      subst (λ part. FirstOf NamesOnlyProcess f (r ∷ rs) (first_match f part))
        (sym (split_cons_specific r rs n).1)
        (FirstOf-cons NamesOnlyProcess f r rs (first_match f (process rs))
          (λ c. absurd (false-true (sym n ∙ (is_process_rule_iff r).1 c))) (process-first f rs))
]

specific-first :
    (f : Flow) (rs : List Rule)
    → FirstOf (λ r. ¬ NamesOnlyProcess r) f rs (first_match f (specific rs))
unfolding split_rules first_match
specific-first f [] = tt
specific-first f (r ∷ rs) = elim (Bool-cases (is_process_rule r)) [
  | inl p ↦
      subst (λ part. FirstOf (λ x. ¬ NamesOnlyProcess x) f (r ∷ rs) (first_match f part))
        (sym (split_cons_process r rs p).0)
        (FirstOf-cons (λ x. ¬ NamesOnlyProcess x) f r rs (first_match f (specific rs))
          (λ c. absurd (c ((is_process_rule_iff r).0 p))) (specific-first f rs))
  | inr n ↦
      subst (λ part. FirstOf (λ x. ¬ NamesOnlyProcess x) f (r ∷ rs) (first_match f part))
        (sym (split_cons_specific r rs n).0)
        (first-hit (λ x. ¬ NamesOnlyProcess x) f r rs (specific rs)
          (λ c. false-true (sym n ∙ (is_process_rule_iff r).1 c)) (specific-first f rs))
]

-- A compiled set gives a flow the label of the first rule, in the order given, that matches and names
-- more than a process; where there is none, of the first that matches and names a process only; and
-- else the default.
pub classify-compile :
    (rs : List Rule) (def : Str) (f : Flow)
    → (o : Option Rule) × (q : Option Rule) × FirstOf (λ r. ¬ NamesOnlyProcess r) f rs o
      × FirstOf NamesOnlyProcess f rs q
      × (classify (compile rs def) f ≡ out_or o (out_or q def))
unfolding classify explain compile
classify-compile rs def f = (
  first_match f (specific rs),
  first_match f (process rs),
  specific-first f rs,
  process-first f rs,
  explain_from-first_match f def 0 (sort_rules_by_priority rs)
      ∙ ap (λ (x : List Rule). out_or (first_match f x) def) (sort-parts rs)
      ∙ first_match-append f def (specific rs) (process rs),
)
