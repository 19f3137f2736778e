-- ===== src/Label.antt =====
-- internal/routing/routing.go: the label that says where a flow leaves the network.
pub mod Parse
mod Tests
use quic_diver.Base.{
  ℕ, Bool, true, false, not, ◌&&◌, Option, none, some, if◌then◌else◌, ite, Str, Str-discrete, bytes,
  trim_space, has_prefix, drop_prefix, trim_prefix, contains_byte, [], ◌∷◌, ◌++◌, ◌≡◌,
}

-- `Route{Node, Tag, Auto}`
pub record Route : Type 0 where
  pub node : Str
  pub tag : Str
  pub auto : Bool

abbrev pub auto_prefix : Str
auto_prefix = bytes "auto:"

abbrev pub direct : Route
direct = record { node = []; tag = []; auto = false }

abbrev pub node_route : Str → Route
node_route id = record { node = id; tag = []; auto = false }

abbrev pub auto_route : Str → Route
auto_route tag = record { node = []; tag = tag; auto = true }

pub data ParseError : Type 0 where
  empty_category unknown_kind : Str → ParseError

pub data Result (A : Type 0) : Type 0 where
  ok : A → Result A
  err : ParseError → Result A

-- `IsDirect`
unfoldable pub is_direct : Route → Bool
is_direct r = not r.auto && (elim r.node [ [] ↦ true | _ ↦ false ])

-- `String`
unfoldable pub to_string : Route → Str
to_string r =
    if r.auto then auto_prefix ++ r.tag else (elim r.node [ [] ↦ bytes "direct" | c ∷ s ↦ c ∷ s ])

-- The case of a label that begins with `auto:`.
unfoldable pub parse_auto : Str → Str → Result Route
parse_auto s [] = err (empty_category s)
parse_auto s (c ∷ tag) = ok (auto_route (c ∷ tag))

-- The case of a label that names a node.
unfoldable pub parse_node : Str → Result Route
parse_node s = if contains_byte s b':' then err (unknown_kind s) else ok (node_route s)

-- `Parse` behind its `TrimSpace`.
unfoldable pub parse_trimmed : Str → Result Route
unfolding parse_auto parse_node
parse_trimmed [] = ok direct
parse_trimmed (c ∷ s) = ite (Str-discrete (c ∷ s) (bytes "direct")) (ok direct) (
    if has_prefix (c ∷ s) auto_prefix
    then parse_auto (c ∷ s) (trim_space (trim_prefix (c ∷ s) auto_prefix))
    else parse_node (c ∷ s))

unfoldable pub parse : Str → Result Route
unfolding parse_trimmed
parse s = parse_trimmed (trim_space s)

-- `Decision` with the next node of a transit.
pub data Decision : Type 0 where
  exit : Decision
  transit : Str → Decision

-- `Decide` behind the choice of the target.
unfoldable pub decide_target : Str → Str → Decision
decide_target self [] = exit
decide_target self (c ∷ target) = ite (Str-discrete (c ∷ target) self) exit (transit (c ∷ target))

-- `Decide`; `pick` is `none` where the caller passes nil.
unfoldable pub decide : Route → Str → Option (Str → Str) → Decision
unfolding decide_target
decide r self pick =
    if r.auto
    then (elim pick [ none ↦ exit | some f ↦ decide_target self (f r.tag) ])
    else decide_target self r.node
