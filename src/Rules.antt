-- ===== src/Rules.antt =====
-- internal/client/routing/rules.go: the client's rules, from a flow to the label of its exit.
pub mod Geo
pub mod Domain
pub mod Sort
pub mod Edit
pub mod Priority
pub mod Path
pub mod Parse
mod Tests
use quic_diver.Base.{
  ℕ, zero, suc, ◌+◌, Bool, true, false, not, ◌&&◌, ◌||◌, Option, none, some, ltb, ◌==◌,
  if◌then◌else◌, List, [], ◌∷◌, ◌++◌, Str, Str-discrete, AddrPort, Addr, Prefix, is_valid, contains,
  length, take, drop, get_elem?,
}
use Geo.{equal_fold, domain_matches, geo_site_matches, geo_ip_matches}

-- `Match`; an empty text, the invalid prefix and port 0 are absent conditions.
pub record Match : Type 0 where
  pub process : Str
  pub domain : Str
  pub geo_site : Str
  pub geo_ip : Str
  pub cidr : Prefix
  pub port : ℕ

pub record Rule : Type 0 where
  pub condition : Match
  pub out : Str

pub record Flow : Type 0 where
  pub dst : AddrPort
  pub domain : Str
  pub process : Str

pub record Ruleset : Type 0 where
  pub rules : List Rule
  pub default : Str

abbrev pub is_empty : Str → Bool
is_empty [] = true
is_empty (c ∷ s) = false

-- The condition of `SortRulesByPriority`: the process is the only condition.
unfoldable pub is_process_rule : Rule → Bool
is_process_rule r =
    let m = r.condition in
    not (is_empty m.process)
    && (is_empty m.domain
        && (is_empty m.geo_site
            && (is_empty m.geo_ip && (not (is_valid m.cidr.addr) && m.port == 0))))

-- The loop of `SortRulesByPriority` over the two slices.
unfoldable pub split_rules : List Rule → List Rule × List Rule
split_rules [] = ([], [])
split_rules (r ∷ rs) =
    let rest = split_rules rs in
    if is_process_rule r then (rest.0, r ∷ rest.1) else (r ∷ rest.0, rest.1)

unfoldable pub sort_rules_by_priority : List Rule → List Rule
unfolding split_rules
sort_rules_by_priority rs = let parts = split_rules rs in parts.0 ++ parts.1

-- `Compile`
unfoldable pub compile : List Rule → Str → Ruleset
unfolding sort_rules_by_priority
compile rs def = record { rules = sort_rules_by_priority rs; default = def }

-- `matchRule`: the first condition that is set decides alone.
unfoldable pub match_rule : Match → Flow → Bool
match_rule m f =
    if not (is_empty m.process)
    then not (is_empty f.process) && equal_fold m.process f.process
    else if not (is_empty m.domain)
    then not (is_empty f.domain) && domain_matches m.domain f.domain
    else if not (is_empty m.geo_site)
    then not (is_empty f.domain) && geo_site_matches m.geo_site f.domain
    else if not (is_empty m.geo_ip)
    then is_valid f.dst.addr && geo_ip_matches m.geo_ip f.dst.addr
    else if is_valid m.cidr.addr
    then contains m.cidr f.dst.addr
    else not (m.port == 0) && m.port == f.dst.port

-- The loop of `Explain` from index `i`; no index where the default is taken.
unfoldable pub explain_from : Flow → Str → ℕ → List Rule → Str × Option ℕ
explain_from f def i [] = (def, none)
explain_from f def i (r ∷ rs) =
    let rest = explain_from f def (suc i) rs in
    if match_rule r.condition f then (r.out, some i) else rest

unfoldable pub explain : Ruleset → Flow → Str × Option ℕ
unfolding explain_from
explain s f = explain_from f s.default 0 s.rules

-- `Classify`
unfoldable pub classify : Ruleset → Flow → Str
unfolding explain
classify s f = (explain s f).0

-- `Router.AddRule`
unfoldable pub add_rule : Ruleset → Rule → Ruleset
unfolding compile
add_rule s r = compile (s.rules ++ r ∷ []) s.default

-- `rules[:i]` with `rules[i+1:]` behind it
abbrev pub remove_at : ℕ → List Rule → List Rule
remove_at i rs = take i rs ++ drop (suc i) rs

-- `rules[:i]`, `r`, `rules[i:]`
abbrev pub insert_at : ℕ → Rule → List Rule → List Rule
insert_at i r rs = take i rs ++ r ∷ drop i rs

-- The index tests of the router's methods; a negative index is out of range as well and has no
-- form here.
unfoldable pub update_rule : Ruleset → ℕ → Rule → Ruleset × Bool
unfolding compile
update_rule s i r =
    if ltb i (length s.rules)
    then (compile (take i s.rules ++ r ∷ drop (suc i) s.rules) s.default, true)
    else (s, false)

unfoldable pub delete_rule : Ruleset → ℕ → Ruleset × Bool
unfolding compile
delete_rule s i =
    if ltb i (length s.rules) then (compile (remove_at i s.rules) s.default, true) else (s, false)

unfoldable pub move_item : Ruleset → ℕ → ℕ → Option Rule → Ruleset × Bool
unfolding compile
move_item s from to none = (s, false)
move_item s from to (some r) = (compile (insert_at to r (remove_at from s.rules)) s.default, true)

unfoldable pub move_rule : Ruleset → ℕ → ℕ → Ruleset × Bool
unfolding move_item
move_rule s from to =
    if ltb from (length s.rules) && (ltb to (length s.rules) && not (from == to))
    then move_item s from to (get_elem? s.rules from)
    else (s, false)
