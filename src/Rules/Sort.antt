-- ===== src/Rules/Sort.antt =====
-- The sorting by priority: a stable split into specific rules and rules for a process.
use mathlib.Core.List.{Perm, append-nil, perm_middle}
use mathlib.Core.List.Perm
use quic_diver.Base.{
  true, false, ◌≡◌, refl, sym, ap, ◌∙◌, inl, inr, Bool-cases, List, [], ◌∷◌, ◌++◌, All, arith,
}
use quic_diver.Rules.{Rule, is_process_rule, split_rules, sort_rules_by_priority}

abbrev pub specific : List Rule → List Rule
specific rs = (split_rules rs).0

abbrev pub process : List Rule → List Rule
process rs = (split_rules rs).1

pub specific-append : (xs ys : List Rule) → specific (xs ++ ys) ≡ specific xs ++ specific ys
unfolding split_rules
specific-append [] ys = refl
specific-append (x ∷ xs) ys = ground (arith, specific-append xs ys)

pub process-append : (xs ys : List Rule) → process (xs ++ ys) ≡ process xs ++ process ys
unfolding split_rules
process-append [] ys = refl
process-append (x ∷ xs) ys = ground (arith, process-append xs ys)

abbrev pub IsSpecific : Rule → Type 0
IsSpecific r = is_process_rule r ≡ false

abbrev pub IsProcess : Rule → Type 0
IsProcess r = is_process_rule r ≡ true

pub specific-All : (rs : List Rule) → All IsSpecific (specific rs)
unfolding split_rules
specific-All [] = tt
specific-All (r ∷ rs) = ground (arith, specific-All rs)

pub process-All : (rs : List Rule) → All IsProcess (process rs)
unfolding split_rules
process-All [] = tt
process-All (r ∷ rs) = ground (arith, process-All rs)

pub split_of_specific :
    (rs : List Rule) → All IsSpecific rs → (specific rs ≡ rs) × (process rs ≡ [])
unfolding split_rules
split_of_specific [] h = (refl, refl)
split_of_specific (r ∷ rs) h = ground (arith, split_of_specific rs h.1)

pub split_of_process : (rs : List Rule) → All IsProcess rs → (specific rs ≡ []) × (process rs ≡ rs)
unfolding split_rules
split_of_process [] h = (refl, refl)
split_of_process (r ∷ rs) h = ground (arith, split_of_process rs h.1)

pub sort-parts : (rs : List Rule) → sort_rules_by_priority rs ≡ specific rs ++ process rs
unfolding sort_rules_by_priority
sort-parts rs = refl

pub specific-sort : (rs : List Rule) → specific (sort_rules_by_priority rs) ≡ specific rs
specific-sort rs = rw (sort-parts rs) (
    specific-append (specific rs) (process rs)
    ∙ ap (λ (x : List Rule). x ++ specific (process rs))
        (split_of_specific (specific rs) (specific-All rs)).0
    ∙ ap (λ (x : List Rule). specific rs ++ x) (split_of_process (process rs) (process-All rs)).0
    ∙ append-nil (specific rs))

pub process-sort : (rs : List Rule) → process (sort_rules_by_priority rs) ≡ process rs
process-sort rs = rw (sort-parts rs) (
    process-append (specific rs) (process rs)
    ∙ ap (λ (x : List Rule). x ++ process (process rs))
        (split_of_specific (specific rs) (specific-All rs)).1
    ∙ (split_of_process (process rs) (process-All rs)).1)

pub split_cons_process :
    (r : Rule) (rs : List Rule)
    → IsProcess r
    → (specific (r ∷ rs) ≡ specific rs) × (process (r ∷ rs) ≡ r ∷ process rs)
unfolding split_rules
split_cons_process r rs p = ground arith

pub split_cons_specific :
    (r : Rule) (rs : List Rule)
    → IsSpecific r
    → (specific (r ∷ rs) ≡ r ∷ specific rs) × (process (r ∷ rs) ≡ process rs)
unfolding split_rules
split_cons_specific r rs p = ground arith

split-nil : specific [] ++ process [] ≡ []
unfolding split_rules
split-nil = refl

split-perm : (rs : List Rule) → Perm (specific rs ++ process rs) rs
split-perm [] = rw split-nil (Perm.refl [])
split-perm (r ∷ rs) = elim (Bool-cases (is_process_rule r)) [
  | inl p ↦
      let (s, q) = split_cons_process r rs p in
      rw (s, q) (Perm.trans (perm_middle (specific rs) (process rs)) (Perm.cons r (split-perm rs)))
  | inr p ↦ let (s, q) = split_cons_specific r rs p in rw (s, q) (Perm.cons r (split-perm rs))
]

-- Sorting by priority loses and adds no rule, keeps the order inside either class, puts every
-- specific rule before every process rule, and changes a sorted list no more.
pub sort_stable :
    (rs : List Rule)
    → Perm (sort_rules_by_priority rs) rs
      × (sort_rules_by_priority rs ≡ specific rs ++ process rs)
      × All IsSpecific (specific rs)
      × All IsProcess (process rs)
      × (specific (sort_rules_by_priority rs) ≡ specific rs)
      × (process (sort_rules_by_priority rs) ≡ process rs)
      × (sort_rules_by_priority (sort_rules_by_priority rs) ≡ sort_rules_by_priority rs)
sort_stable rs = (
  rw (sort-parts rs) (split-perm rs),
  sort-parts rs,
  specific-All rs,
  process-All rs,
  specific-sort rs,
  process-sort rs,
  sort-parts (sort_rules_by_priority rs)
      ∙ ap (λ (x : List Rule). x ++ process (sort_rules_by_priority rs)) (specific-sort rs)
      ∙ ap (λ (x : List Rule). specific rs ++ x) (process-sort rs)
      ∙ sym (sort-parts rs),
)
