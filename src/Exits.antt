-- ===== src/Exits.antt =====
-- internal/server/exits.go: the list of exits that a client gets, `exitsOf`, and `serveExits` for a node
-- with a store. A map from a tag to a Boolean is a list of pairs.
pub mod Marked
pub mod Offered
mod Tests
use quic_diver.Base.{
  ℕ, ◌+◌, ◌*◌, ◌^◌, Bool, true, false, not, ◌&&◌, ◌||◌, ltb, if◌then◌else◌, Option, none, some,
  List, [], ◌∷◌, ◌++◌, map, Rows, row_of, put_row, Str, Str-discrete, bytes,
}
use quic_diver.Auth.{Session}
use quic_diver.Store.{Node, Database, same_text}
use quic_diver.Balancer.{is_blank, sort_strings}
use quic_diver.Admission.{session_allowed}

-- The type `exitView`
pub record ExitView : Type 0 where
  pub route : Str
  pub label : Str
  pub category : Str
  pub tags : List Str
  pub auto : Bool
  pub alive : Bool
  pub self : Bool

-- `nodeAliveAfter` of admin_nodes.go
abbrev pub node_alive_after : ℕ
node_alive_after = 180 * 10 ^ 9

-- `self || (!n.LastSeen.IsZero() && time.Since(n.LastSeen) < nodeAliveAfter)`
abbrev pub is_alive : Str → ℕ → Str → Node → Bool
is_alive me now id n =
    same_text id me || (ltb 0 n.last_seen && ltb now (n.last_seen + node_alive_after))

-- The text of this label in UTF-8.
abbrev no_chain : Str
no_chain =
    208 ∷ 177 ∷ 208 ∷ 181 ∷ 208 ∷ 183 ∷ 32 ∷ 209 ∷ 134 ∷ 208 ∷ 181 ∷ 208 ∷ 191 ∷ 208 ∷ 190 ∷ 209
    ∷ 135 ∷ 208 ∷ 186 ∷ 208 ∷ 184 ∷ []

abbrev pub direct_exit : ExitView
direct_exit = record {
  route = bytes "direct";
  label = no_chain;
  category = [];
  tags = [];
  auto = false;
  alive = true;
  self = false;
}

abbrev pub node_exit : Str → ℕ → Str → Node → ExitView
node_exit me now id n = record {
  route = id;
  label = n.label;
  category = n.category;
  tags = n.tags;
  auto = false;
  alive = is_alive me now id n;
  self = same_text id me;
}

abbrev pub auto_exit : Str → Bool → ExitView
auto_exit tag alive = record {
  route = bytes "auto:" ++ tag;
  label = tag;
  category = [];
  tags = [];
  auto = true;
  alive = alive;
  self = false;
}

-- `autoAlive[tag]`, false for a missing key.
abbrev pub value_of : Option Bool → Bool
value_of none = false
value_of (some b) = b

-- `autoAlive[tag] = autoAlive[tag] || alive`, but not for an empty tag.
abbrev pub mark_tag : Rows Str Bool → Bool → Str → Rows Str Bool
mark_tag t alive tag =
    if is_blank tag
    then t
    else put_row Str-discrete t tag (value_of (row_of Str-discrete t tag) || alive)

-- The inner loop.
unfoldable pub mark_tags : Rows Str Bool → Bool → List Str → Rows Str Bool
mark_tags t alive [] = t
mark_tags t alive (tag ∷ tags) = mark_tags (mark_tag t alive tag) alive tags

-- One round of the outer loop, on the map: a node out of use is skipped.
abbrev pub mark_node : Str → ℕ → Rows Str Bool → Str → Node → Rows Str Bool
mark_node me now t id n =
    if not n.enabled then t else mark_tags t (is_alive me now id n) (n.tags ++ n.category ∷ [])

unfoldable pub mark_nodes : Str → ℕ → Rows Str Bool → Rows Str Node → Rows Str Bool
unfolding mark_tags same_text
mark_nodes me now t [] = t
mark_nodes me now t ((id, n) ∷ ns) = mark_nodes me now (mark_node me now t id n) ns

-- The outer loop, on the list.
unfoldable pub node_exits : Str → ℕ → Rows Str Node → List ExitView
unfolding same_text
node_exits me now [] = []
node_exits me now ((id, n) ∷ ns) =
    let rest = node_exits me now ns in if not n.enabled then rest else node_exit me now id n ∷ rest

abbrev pub keys : Rows Str Bool → List Str
keys [] = []
keys ((tag, b) ∷ t) = tag ∷ keys t

-- The last loop: the tags in order, each with its Boolean.
abbrev pub auto_exits : Rows Str Bool → List Str → List ExitView
auto_exits t [] = []
auto_exits t (tag ∷ tags) = auto_exit tag (value_of (row_of Str-discrete t tag)) ∷ auto_exits t tags

-- `exitsOf`; `me` is the node's own name.
unfoldable pub exits_of : Str → ℕ → Rows Str Node → List ExitView
unfolding mark_nodes node_exits sort_strings
exits_of me now ns =
    let t = mark_nodes me now [] ns in
    direct_exit ∷ node_exits me now ns ++ auto_exits t (sort_strings (keys t))

-- `serveExits`: the list, or `none` for the page of strangers; `listed` is what `ListNodes` gives.
unfoldable pub serve_exits :
    Database → Option Session → Str → ℕ → Rows Str Node → Option (List ExitView)
unfolding session_allowed exits_of
serve_exits d s me now listed =
    if not (session_allowed (some d) s) then none else some (exits_of me now listed)
