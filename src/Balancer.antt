-- ===== src/Balancer.antt =====
-- internal/server/balance.go: the choice of a node for a label auto:<tag>, held against flapping.
-- A duration is a number of nanoseconds, a loss a number of billionths, so that the penalty for
-- losses is `2 * loss` and `candidate < 0.8 * current` is `5 * candidate < 4 * current`: exact
-- arithmetic in place of the float64 of the source. `now` is `nowFunc()`.
pub mod Best
pub mod Switch
pub mod Streak
mod Tests
use quic_diver.Base.{
  ℕ, ◌+◌, ◌-◌, ◌*◌, ◌^◌, Bool, true, false, ◌&&◌, ◌||◌, Option, none, some, ltb, leb, ◌==◌,
  if◌then◌else◌, List, [], ◌∷◌, Str, Str-discrete, Map, empty_map, update, delete,
}

abbrev millisecond : ℕ
millisecond = 10 ^ 6

abbrev minute : ℕ
minute = 60 * 10 ^ 9

pub record PathStats : Type 0 where
  pub srtt : ℕ
  pub rtt_var : ℕ
  pub loss : ℕ

abbrev pub min_gain : ℕ
min_gain = 5 * millisecond

abbrev pub hold_windows : ℕ
hold_windows = 3

abbrev pub switch_cooldown : ℕ
switch_cooldown = 5 * minute

abbrev pub stats_stale : ℕ
stats_stale = 2 * minute

-- `Score`
unfoldable pub score : PathStats → ℕ
score p = p.srtt + 2 * p.rtt_var + 2 * p.loss

pub record Sample : Type 0 where
  pub stats : PathStats
  pub at : ℕ

-- The type `decision`: the node chosen and since when, and the candidate that beats it so far.
pub record Choice : Type 0 where
  pub node : Str
  pub since : ℕ
  pub challenger : Str
  pub wins : ℕ

-- The type `balancer`
pub record Balancer : Type 0 where
  pub stats : Map Str Sample
  pub choice : Map Str Choice

abbrev pub new_balancer : Balancer
new_balancer = record { stats = empty_map; choice = empty_map }

-- `Observe`
unfoldable pub observe_path : Balancer → ℕ → Str → PathStats → Balancer
observe_path b now node st = record b {
  stats = update Str-discrete b.stats node (record { stats = st; at = now });
}

-- `Forget`
unfoldable pub forget : Balancer → Str → Balancer
forget b node = record b { stats = delete Str-discrete b.stats node }

-- `contains`
unfoldable pub listed : List Str → Str → Bool
unfolding Str-discrete
listed [] s = false
listed (v ∷ list) s = elim (Str-discrete v s) [ yes e ↦ true | no e ↦ listed list s ]

-- Strings in Go's order, byte by byte.
unfoldable pub str_leb : Str → Str → Bool
str_leb [] t = true
str_leb (c ∷ s) [] = false
str_leb (c ∷ s) (d ∷ t) = ltb c d || (c == d && str_leb s t)

unfoldable pub insert_string : Str → List Str → List Str
unfolding str_leb
insert_string s [] = s ∷ []
insert_string s (t ∷ ts) =
    let rest = insert_string s ts in if str_leb s t then s ∷ t ∷ ts else t ∷ rest

-- `sort.Strings`: equal strings cannot be told apart, so that any sorting function will do.
unfoldable pub sort_strings : List Str → List Str
unfolding insert_string
sort_strings [] = []
sort_strings (s ∷ ss) = insert_string s (sort_strings ss)

-- The score of a node whose sample is not stale.
unfoldable pub fresh_score : Balancer → ℕ → Str → Option ℕ
unfolding score
fresh_score b now node = elim (b.stats node) [
  | none ↦ none
  | some s ↦ if ltb (s.at + stats_stale) now then none else some (score s.stats)
]

-- The variables of the loop of `bestLocked`.
pub record Scan : Type 0 where
  pub best : Str
  pub best_score : ℕ
  pub fallback : Str

abbrev pub is_blank : Str → Bool
is_blank [] = true
is_blank (c ∷ s) = false

-- One round of that loop, for a node with the fresh score given, if it has one.
unfoldable pub scan_node : Scan → Str → Option ℕ → Scan
scan_node a node none = if is_blank a.fallback then record a { fallback = node } else a
scan_node a node (some s) =
    if is_blank a.best || ltb s a.best_score then record a { best = node; best_score = s } else a

unfoldable pub scan_nodes : Balancer → ℕ → Scan → List Str → Scan
unfolding scan_node fresh_score
scan_nodes b now a [] = a
scan_nodes b now a (node ∷ nodes) =
    scan_nodes b now (scan_node a node (fresh_score b now node)) nodes

abbrev pub no_scan : Scan
no_scan = record { best = []; best_score = 0; fallback = [] }

abbrev pub scan_result : Scan → Str
scan_result a = if is_blank a.best then a.fallback else a.best

-- `bestLocked`
unfoldable pub best_locked : Balancer → ℕ → List Str → Str
unfolding scan_nodes
best_locked b now candidates = scan_result (scan_nodes b now no_scan candidates)

-- The last test of `worthSwitchLocked`.
unfoldable pub much_better : ℕ → ℕ → Bool
much_better cur_score cand_score =
    ltb (5 * cand_score) (4 * cur_score) && leb (cand_score + min_gain) cur_score

-- `worthSwitchLocked`
unfoldable pub worth_switch : Balancer → Str → Str → ℕ → Bool
unfolding fresh_score much_better
worth_switch b cur candidate now = elim (fresh_score b now candidate) [
  | none ↦ false
  | some cand_score ↦ elim (fresh_score b now cur) [
    | none ↦ true
    | some cur_score ↦ much_better cur_score cand_score
  ]
]

unfoldable pub set_choice : Balancer → Str → Choice → Balancer
set_choice b tag c = record b { choice = update Str-discrete b.choice tag c }

abbrev pub fresh_choice : Str → ℕ → Choice
fresh_choice node now = record { node = node; since = now; challenger = []; wins = 0 }

-- `Pick` from the line where the challenger has won: it needs `hold_windows` wins in a row.
unfoldable pub challenge : ℕ → Choice → Str → Choice
unfolding Str-discrete
challenge now cur best = elim (Str-discrete cur.challenger best) [
  | no e ↦ record cur { challenger = best; wins = 1 }
  | yes e ↦
      if ltb (cur.wins + 1) hold_windows
      then record cur { wins = cur.wins + 1 }
      else fresh_choice best now
]

-- `Pick` for a choice whose node is still a candidate, with the best node given.
unfoldable pub reconsider : Balancer → ℕ → Choice → Str → Choice
unfolding worth_switch challenge Str-discrete
reconsider b now cur best =
    let stay : Choice = record cur { challenger = []; wins = 0 } in
    if is_blank best then stay else elim (Str-discrete best cur.node) [
      | yes e ↦ stay
      | no e ↦
          if ltb now (cur.since + switch_cooldown)
          then cur
          else if worth_switch b cur.node best now
          then challenge now cur best
          else stay
    ]

-- The choice that `Pick` stores, and whose node it returns.
unfoldable pub next_choice : Balancer → ℕ → Option Choice → List Str → Choice
unfolding best_locked reconsider listed
next_choice b now none sorted = fresh_choice (best_locked b now sorted) now
next_choice b now (some cur) sorted =
    if listed sorted cur.node
    then reconsider b now cur (best_locked b now sorted)
    else fresh_choice (best_locked b now sorted) now

-- `Pick`
unfoldable pub pick : Balancer → ℕ → Str → List Str → Balancer × Str
unfolding next_choice set_choice sort_strings
pick b now tag [] = (b, [])
pick b now tag (c ∷ candidates) =
    let next = next_choice b now (b.choice tag) (sort_strings (c ∷ candidates)) in
    (set_choice b tag next, next.node)
