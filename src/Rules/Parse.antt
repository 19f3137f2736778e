-- ===== src/Rules/Parse.antt =====
-- internal/client/routing/parse.go: rules read from their text. `netip.ParsePrefix` is a parameter.
use quic_diver.Base.{
  ℕ, ◌+◌, ◌*◌, ◌-◌, ◌^◌, Bool, true, ◌&&◌, ◌||◌, Option, none, some, ltb, leb, ◌==◌, if◌then◌else◌,
  List, [], ◌∷◌, ◌++◌, Str, bytes, trim_space, has_prefix, cut, Prefix, invalid, ◌≡◌, refl, sym, ap,
  ◌∙◌, inl, inr, Bool-cases, if-cases,
}
use quic_diver.Rules.{Match, Rule, is_empty}
use quic_diver.Rules.Geo.{str_eq, normalize_outbound}

pub data RuleError : Type 0 where
  no_outbound : Str → RuleError
  no_matcher : Str → RuleError
  bad_cidr : Str → RuleError
  bad_port : Str → RuleError
  unknown_matcher : Str → Str → RuleError

pub data Parsed (A : Type 0) : Type 0 where
  parsed : A → Parsed A
  refused : RuleError → Parsed A

abbrev pub is_separator : ℕ → Bool
is_separator c = c == b';' || (c == 10 || c == 13)

-- The pieces between separators, the empty ones too.
unfoldable pub pieces : Str → List Str
pieces [] = [] ∷ []
pieces (c ∷ s) =
    let rest = pieces s in
    if is_separator c then [] ∷ rest else elim rest [ [] ↦ (c ∷ []) ∷ [] | p ∷ ps ↦ (c ∷ p) ∷ ps ]

-- `strings.ParseUint(s, 10, 16)`: digits of a number below 2 ^ 16.
unfoldable pub read_digits : ℕ → Str → Option ℕ
read_digits n [] = some n
read_digits n (c ∷ s) =
    let rest = read_digits (n * 10 + (c - b'0')) s in
    if leb b'0' c && leb c b'9' then rest else none

unfoldable pub parse_uint16 : Str → Option ℕ
unfolding read_digits
parse_uint16 [] = none
parse_uint16 (c ∷ s) = elim (read_digits 0 (c ∷ s)) [
  | none ↦ none
  | some n ↦ if ltb n (2 ^ 16) then some n else none
]

abbrev pub no_condition : Match
no_condition = record {
  process = [];
  domain = [];
  geo_site = [];
  geo_ip = [];
  cidr = record { addr = invalid; bits = 0 };
  port = 0;
}

-- The `switch kind`
unfoldable pub parse_match : (Str → Option Prefix) → Str → Str → Str → Parsed Match
unfolding parse_uint16
parse_match parse_prefix part kind val =
    if str_eq kind (bytes "dom")
    then parsed (record no_condition { domain = val })
    else if str_eq kind (bytes "proc")
    then parsed (record no_condition { process = val })
    else if str_eq kind (bytes "geosite")
    then parsed (record no_condition { geo_site = val })
    else if str_eq kind (bytes "geoip")
    then parsed (record no_condition { geo_ip = val })
    else if str_eq kind (bytes "cidr")
    then elim (parse_prefix val) [
      | none ↦ refused (bad_cidr part)
      | some p ↦ parsed (record no_condition { cidr = p })
    ]
    else if str_eq kind (bytes "port")
    then elim (parse_uint16 val) [
      | none ↦ refused (bad_port part)
      | some n ↦ parsed (record no_condition { port = n })
    ]
    else refused (unknown_matcher part kind)

abbrev pub with_out : Str → Parsed Match → Parsed Rule
with_out out (refused e) = refused e
with_out out (parsed m) = parsed (record { condition = m; out = normalize_outbound out })

-- A piece that is not skipped.
unfoldable pub parse_rule : (Str → Option Prefix) → Str → Parsed Rule
unfolding parse_match
parse_rule parse_prefix part = elim (cut part b'=') [
  | none ↦ refused (no_outbound part)
  | some (cond, out) ↦
      if is_empty out then refused (no_outbound part) else elim (cut (trim_space cond) b':') [
        | none ↦ refused (no_matcher part)
        | some (kind, val) ↦
            with_out out (parse_match parse_prefix part (trim_space kind) (trim_space val))
      ]
]

abbrev pub cons_rule : Parsed Rule → Parsed (List Rule) → Parsed (List Rule)
cons_rule (refused e) rest = refused e
cons_rule (parsed r) (refused e) = refused e
cons_rule (parsed r) (parsed rs) = parsed (r ∷ rs)

-- The loop of `ParseRules`.
unfoldable pub parse_pieces : (Str → Option Prefix) → List Str → Parsed (List Rule)
unfolding parse_rule
parse_pieces parse_prefix [] = parsed []
parse_pieces parse_prefix (p ∷ ps) =
    let part = trim_space p in
    let rest = parse_pieces parse_prefix ps in
    if is_empty part || has_prefix part (b'#' ∷ [])
    then rest
    else cons_rule (parse_rule parse_prefix part) rest

-- `ParseRules`; a piece that is empty is skipped by the loop, as `FieldsFunc` skips it.
unfoldable pub parse_rules : (Str → Option Prefix) → Str → Parsed (List Rule)
unfolding pieces parse_pieces
parse_rules parse_prefix s = parse_pieces parse_prefix (pieces s)

-- One list of rules behind another.
abbrev pub join_rules : Parsed (List Rule) → Parsed (List Rule) → Parsed (List Rule)
join_rules (refused e) q = refused e
join_rules (parsed rs) (refused e) = refused e
join_rules (parsed rs) (parsed qs) = parsed (rs ++ qs)

pieces-cons : (s : Str) → (p : Str) × (ps : List Str) × (pieces s ≡ p ∷ ps)
unfolding pieces
pieces-cons [] = ([], [], refl)
pieces-cons (c ∷ s) =
    let (p, ps, e) = pieces-cons s in
    if-cases (λ (l : List Str). (q : Str) × (qs : List Str) × (l ≡ q ∷ qs)) (is_separator c) _ _
      (λ t. ([], pieces s, refl)) (λ t. rw e (c ∷ p, ps, refl))

-- A byte put before the pieces of a text.
abbrev put_byte : ℕ → List Str → List Str
put_byte c l =
    if is_separator c then [] ∷ l else elim l [ [] ↦ (c ∷ []) ∷ [] | p ∷ ps ↦ (c ∷ p) ∷ ps ]

put_byte-append :
    (d : ℕ) (p : Str) (ps qs : List Str) → put_byte d ((p ∷ ps) ++ qs) ≡ put_byte d (p ∷ ps) ++ qs
put_byte-append d p ps qs = elim (Bool-cases (is_separator d)) [
  | inl l ↦ rw l refl
  | inr l ↦ rw l refl
]

pieces-append :
    (s t : Str) (c : ℕ) → is_separator c ≡ true → pieces (s ++ c ∷ t) ≡ pieces s ++ pieces t
unfolding pieces
pieces-append [] t c h = rw h refl
pieces-append (d ∷ s) t c h =
    let (p, ps, e) = pieces-cons s in
    ap (put_byte d) (pieces-append s t c h ∙ ap (λ l. l ++ pieces t) e)
    ∙ put_byte-append d p ps (pieces t)
    ∙ ap (λ l. put_byte d l ++ pieces t) (sym e)

cons_rule-join :
    (r : Parsed Rule) (p q : Parsed (List Rule))
    → cons_rule r (join_rules p q) ≡ join_rules (cons_rule r p) q
cons_rule-join (refused e) p q = refl
cons_rule-join (parsed r) (refused e) q = refl
cons_rule-join (parsed r) (parsed rs) (refused e) = refl
cons_rule-join (parsed r) (parsed rs) (parsed qs) = refl

join_rules-nil : (p : Parsed (List Rule)) → join_rules (parsed []) p ≡ p
join_rules-nil (refused e) = refl
join_rules-nil (parsed rs) = refl

abbrev take_piece : (Str → Option Prefix) → Str → Parsed (List Rule) → Parsed (List Rule)
take_piece f part rest =
    if is_empty part || has_prefix part (b'#' ∷ [])
    then rest
    else cons_rule (parse_rule f part) rest

take_piece-join :
    (f : Str → Option Prefix) (part : Str) (p q : Parsed (List Rule))
    → take_piece f part (join_rules p q) ≡ join_rules (take_piece f part p) q
take_piece-join f part p q = elim (Bool-cases (is_empty part || has_prefix part (b'#' ∷ []))) [
  | inl l ↦ rw l refl
  | inr l ↦ rw l (cons_rule-join (parse_rule f part) p q)
]

parse_pieces-append :
    (f : Str → Option Prefix) (ps qs : List Str)
    → parse_pieces f (ps ++ qs) ≡ join_rules (parse_pieces f ps) (parse_pieces f qs)
unfolding parse_pieces
parse_pieces-append f [] qs = sym (join_rules-nil (parse_pieces f qs))
parse_pieces-append f (p ∷ ps) qs =
    let part = trim_space p in
    ap (take_piece f part) (parse_pieces-append f ps qs)
    ∙ take_piece-join f part (parse_pieces f ps) (parse_pieces f qs)

-- A rule file is read piece by piece: two texts with a separator between them give the rules of the
-- first and behind them the rules of the second, or the first error.
pub parse_rules-append :
    (f : Str → Option Prefix) (s t : Str) (c : ℕ)
    → is_separator c ≡ true
    → parse_rules f (s ++ c ∷ t) ≡ join_rules (parse_rules f s) (parse_rules f t)
unfolding parse_rules
parse_rules-append f s t c h =
    ap (parse_pieces f) (pieces-append s t c h) ∙ parse_pieces-append f (pieces s) (pieces t)
