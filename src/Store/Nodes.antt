-- ===== src/Store/Nodes.antt =====
-- internal/server/db/nodes.go: the registry of the nodes of the network.
use quic_diver.Base.{
  ℕ, Bool, false, ◌&&◌, ◌==◌, ◌++◌, ◌||◌, if◌then◌else◌, Option, none, some, List, [], ◌∷◌, Rows,
  put_row, row_of, delete_row, Str, Str-discrete, bytes,
}
use quic_diver.Rules.Geo.{equal_fold}
use quic_diver.Store.{StoreError, Result, Node, Database, same_text}

abbrev pub category_entry : Str
category_entry = bytes "entry"

abbrev pub category_exit : Str
category_exit = bytes "exit"

-- `Authority`; `host` is the host of `net.SplitHostPort`, `none` where it fails.
unfoldable pub authority : (Str → Option Str) → Node → Str
authority host n = elim n.sni [
  | [] ↦ elim (host n.addr) [ none ↦ n.addr | some h ↦ h ]
  | c ∷ s ↦ c ∷ s
]

-- `HasTag`
unfoldable pub has_tag : List Str → Str → Bool
has_tag [] tag = false
has_tag (t ∷ ts) tag = equal_fold t tag || has_tag ts tag

-- `NodeByID`; `none` is ErrNotFound.
unfoldable pub node_by_id : Database → Str → Option Node
node_by_id d id = row_of Str-discrete d.nodes id

-- `WHERE token_hash = ? AND enabled = 1`, the first such row with its identifier.
unfoldable pub find_enabled : Rows Str Node → Str → Option (Str × Node)
unfolding same_text
find_enabled [] hash = none
find_enabled ((id, n) ∷ rs) hash =
    if same_text n.token_hash hash && n.enabled then some (id, n) else find_enabled rs hash

-- `NodeByTokenHash`
unfoldable pub node_by_token_hash : Database → Str → Option (Str × Node)
unfolding find_enabled
node_by_token_hash d hash = find_enabled d.nodes hash

-- `strings.Join(tags, ",")`, as the column keeps the tags.
unfoldable pub join_tags : List Str → Str
join_tags [] = []
join_tags (t ∷ []) = t
join_tags (t ∷ u ∷ ts) = t ++ b',' ∷ join_tags (u ∷ ts)

-- `strings.Split(s, ",")`; the text before the first comma is `part`.
unfoldable pub split_tags : Str → List Str
split_tags [] = [] ∷ []
split_tags (c ∷ s) =
    let rest = split_tags s in
    if c == b','
    then [] ∷ rest
    else (elim rest [ [] ↦ (c ∷ []) ∷ [] | part ∷ parts ↦ (c ∷ part) ∷ parts ])

-- The tags as `scanNode` reads them back.
unfoldable pub scan_tags : Str → List Str
unfolding split_tags
scan_tags [] = []
scan_tags (c ∷ s) = split_tags (c ∷ s)

-- The row that `PutNode` leaves: without a new hash the old one stays.
unfoldable pub merge_node : ℕ → Node → Option Node → Node
unfolding scan_tags join_tags
merge_node now n none = record n {
  tags = scan_tags (join_tags n.tags);
  last_seen = 0;
  updated_at = now;
}
merge_node now n (some old) = record n {
  tags = scan_tags (join_tags n.tags);
  token_hash = elim n.token_hash [ [] ↦ old.token_hash | c ∷ h ↦ c ∷ h ];
  last_seen = old.last_seen;
  updated_at = now;
}

-- `PutNode`
unfoldable pub put_node : Database → ℕ → Str → Node → Database
unfolding merge_node
put_node d now id n = record d {
  nodes = put_row Str-discrete d.nodes id (merge_node now n (row_of Str-discrete d.nodes id));
}

-- `TouchNode`: no row is no error.
unfoldable pub touch_node : Database → ℕ → Str → Database
touch_node d now id = elim (row_of Str-discrete d.nodes id) [
  | none ↦ d
  | some n ↦ record d { nodes = put_row Str-discrete d.nodes id (record n { last_seen = now }) }
]

-- `DeleteNode`
unfoldable pub delete_node : Database → Str → Result Database
delete_node d id = elim (row_of Str-discrete d.nodes id) [
  | none ↦ Result.failed StoreError.not_found
  | some n ↦ Result.done (record d { nodes = delete_row Str-discrete d.nodes id })
]
