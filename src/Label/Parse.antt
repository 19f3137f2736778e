-- ===== src/Label/Parse.antt =====
-- Reading a label, writing it, and reading it again.
use quic_diver.Base.{
  ℕ, arith, ◌≡◌, refl, ap, subst, ◌∙◌, inl, inr, Bool-cases, Str, Str-discrete, bytes, trim_space,
  has_prefix, drop_prefix, contains_byte, [], ◌∷◌, ◌++◌, if_neg, if_pos,
}
use quic_diver.Base.Trim.{IsTrimmed, trim_space-IsTrimmed, trim_space_fix, append-IsTrimmed}
use quic_diver.Label.{
  Route, Result, ok, err, auto_prefix, auto_route, direct, parse, parse_trimmed, parse_auto,
  parse_node, to_string,
}

parse-direct : parse (bytes "direct") ≡ ok direct
unfolding parse trim_space Str-discrete
parse-direct = refl

parse_fix : (s : Str) → IsTrimmed s → parse s ≡ parse_trimmed s
unfolding parse
parse_fix s h = ap parse_trimmed (trim_space_fix s h)

-- The label of a category, written out, is read as that category.
parse_auto_text :
    (c : ℕ) (tag : Str)
    → IsTrimmed (c ∷ tag)
    → parse (auto_prefix ++ c ∷ tag) ≡ ok (auto_route (c ∷ tag))
unfolding parse_trimmed
parse_auto_text c tag h =
    parse_fix (auto_prefix ++ c ∷ tag)
      (append-IsTrimmed auto_prefix (c ∷ tag) (λ e. cc) refl (λ e. cc) h)
    ∙ if_neg (Str-discrete (auto_prefix ++ c ∷ tag) (bytes "direct")) (λ e. ground arith) _ _
    ∙ ap (parse_auto (auto_prefix ++ c ∷ tag)) (trim_space_fix (c ∷ tag) h)

-- A label that is read as `r` is written by `String` as one that is read as `r`.
abbrev RoundTrips : Result Route → Type 0
RoundTrips (ok r) = parse (to_string r) ≡ ok r
RoundTrips (err e) = Unit

parse_auto-RoundTrips : (s tag : Str) → IsTrimmed tag → RoundTrips (parse_auto s tag)
unfolding parse_auto to_string
parse_auto-RoundTrips s [] h = tt
parse_auto-RoundTrips s (c ∷ tag) h = parse_auto_text c tag h

parse_node-RoundTrips :
    (c : ℕ) (s : Str)
    → IsTrimmed (c ∷ s)
    → parse_trimmed (c ∷ s) ≡ parse_node (c ∷ s)
    → RoundTrips (parse_node (c ∷ s))
unfolding parse_node to_string
parse_node-RoundTrips c s h e = elim (Bool-cases (contains_byte (c ∷ s) b':')) [
  | inl bad ↦ rw (bad, parse_node) tt
  | inr good ↦ rw (good, parse_node) (parse_fix (c ∷ s) h ∙ e ∙ rw (good, parse_node))
]

parse_trimmed-RoundTrips : (s : Str) → IsTrimmed s → RoundTrips (parse_trimmed s)
unfolding parse_trimmed to_string
parse_trimmed-RoundTrips [] h = parse-direct
parse_trimmed-RoundTrips (c ∷ s) h = elim (Str-discrete (c ∷ s) (bytes "direct")) [
  | yes q ↦ rw (if_pos _ q) parse-direct
  | no q ↦ elim (Bool-cases (has_prefix (c ∷ s) auto_prefix)) [
    | inl auto ↦
        rw (if_neg _ q, auto)
          (parse_auto-RoundTrips (c ∷ s) (trim_space (drop_prefix (c ∷ s) auto_prefix))
            (trim_space-IsTrimmed (drop_prefix (c ∷ s) auto_prefix)))
    | inr named ↦
        rw (if_neg _ q, named)
          (parse_node-RoundTrips c s h
            (rw (if_neg (Str-discrete (c ∷ s) (bytes "direct")) q, named)))
  ]
]

parse-RoundTrips : (s : Str) → RoundTrips (parse s)
unfolding parse
parse-RoundTrips s = parse_trimmed-RoundTrips (trim_space s) (trim_space-IsTrimmed s)

-- Whatever text was read as the route `r`, `String` writes `r` as a text that is read as `r`: a
-- label keeps its meaning from node to node.
pub parse-to_string : (s : Str) (r : Route) → parse s ≡ ok r → parse (to_string r) ≡ ok r
parse-to_string s r h = subst RoundTrips h (parse-RoundTrips s)
