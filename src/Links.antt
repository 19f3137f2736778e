-- ===== src/Links.antt =====
-- internal/server/links.go: the connections of a node to its neighbours. A connection has a number
-- and the node that it was dialed to. Dialing is outside of the lock, so `Dialer` is two operations:
-- `start_dial` up to the call of `dial`, and `end_dial` behind it. `closed` lists the connections that
-- were closed, which the source does by their `closer`.
pub mod Kept
pub mod Follows
pub mod Lingers
pub mod Retry
pub mod Category
mod Tests
use quic_diver.Base.{
  ℕ, ◌+◌, ◌*◌, ◌^◌, Bool, true, false, not, ◌||◌, ltb, if◌then◌else◌, ite, Option, none, some, List,
  [], ◌∷◌, ◌++◌, Rows, row_of, put_row, Map, empty_map, update, delete, Str, Str-discrete,
}
use quic_diver.Store.{Node, same_text}
use quic_diver.Store.Nodes.{has_tag}
use quic_diver.Balancer.{Balancer, new_balancer, PathStats, observe_path, forget, pick}

pub record Conn : Type 0 where
  pub number : ℕ
  pub to : Node

-- The type `link`
pub record Link : Type 0 where
  pub conn : Conn
  pub born : ℕ

-- The type `NodeLinks`
pub record NodeLinks : Type 0 where
  pub self_id : Str
  pub nodes : Rows Str Node
  pub links : Rows Str Link
  pub failed : Map Str ℕ
  pub balance : Balancer
  pub closed : List Conn

abbrev pub link_retry_after : ℕ
link_retry_after = 15 * 10 ^ 9

-- `NewNodeLinks`
abbrev pub new_node_links : Str → NodeLinks
new_node_links self = record {
  self_id = self;
  nodes = [];
  links = [];
  failed = empty_map;
  balance = new_balancer;
  closed = [];
}

-- The first loop of `Reload`: the registry without the node itself.
unfoldable pub fresh_nodes : Str → Rows Str Node → Rows Str Node → Rows Str Node
unfolding Str-discrete
fresh_nodes self acc [] = acc
fresh_nodes self acc ((id, n) ∷ rs) =
    fresh_nodes self (ite (Str-discrete id self) acc (put_row Str-discrete acc id n)) rs

-- A field of a node that may be missing from the map: then it is empty.
abbrev pub text_of : (Node → Str) → Option Node → Str
text_of f none = []
text_of f (some n) = f n

-- Whether a link has to go: `fresh` and `old` are the node in the new registry and in the old one.
unfoldable pub must_close : Option Node → Option Node → Bool
unfolding same_text
must_close none old = true
must_close (some n) old =
    not n.enabled
    || not (same_text n.addr (text_of Node.addr old))
    || not (same_text n.sni (text_of Node.sni old))

-- The second loop of `Reload`: the links that stay, and the connections that are closed.
unfoldable pub reload_links :
    Rows Str Node → Rows Str Node → Rows Str Link → Rows Str Link × List Conn
unfolding must_close
reload_links fresh old [] = ([], [])
reload_links fresh old ((id, ln) ∷ ls) =
    let (kept, gone) = reload_links fresh old ls in
    if must_close (row_of Str-discrete fresh id) (row_of Str-discrete old id)
    then (kept, ln.conn ∷ gone)
    else ((id, ln) ∷ kept, gone)

-- The same loop on the balancer: a node that has left the network is forgotten.
unfoldable pub forget_gone : Rows Str Node → Rows Str Link → Balancer → Balancer
unfolding forget
forget_gone fresh [] b = b
forget_gone fresh ((id, ln) ∷ ls) b =
    forget_gone fresh ls (elim (row_of Str-discrete fresh id) [ none ↦ forget b id | some n ↦ b ])

-- `Reload`; `listed` is what `ListNodes` gives, `none` an error of it.
unfoldable pub reload : NodeLinks → Option (Rows Str Node) → NodeLinks
unfolding fresh_nodes reload_links forget_gone
reload l none = l
reload l (some listed) =
    let fresh = fresh_nodes l.self_id [] listed in
    let (kept, gone) = reload_links fresh l.nodes l.links in
    record l {
      nodes = fresh;
      links = kept;
      balance = forget_gone fresh l.links l.balance;
      closed = gone ++ l.closed;
    }

-- What `Dialer` does before it dials.
pub data Start : Type 0 where
  no_way : Start
  linked : Conn → Start
  dials : Node → Start

-- `last, ok := l.failed[id]; ok && time.Since(last) < linkRetryAfter`
abbrev pub is_pausing : Option ℕ → ℕ → Bool
is_pausing none now = false
is_pausing (some last) now = ltb now (last + link_retry_after)

abbrev pub is_empty : Str → Bool
is_empty [] = true
is_empty (c ∷ s) = false

abbrev pub start_unlinked : NodeLinks → ℕ → Str → Node → Start
start_unlinked l now id n = if is_pausing (l.failed id) now then no_way else dials n

abbrev pub start_known : NodeLinks → ℕ → Str → Node → Option Link → Start
start_known l now id n none = start_unlinked l now id n
start_known l now id n (some ln) = linked ln.conn

-- `Dialer` up to the call of `dial`; its two looks at the state are one here.
unfoldable pub start_dial : NodeLinks → ℕ → Str → Start
unfolding same_text
start_dial l now id =
    if is_empty id || same_text id l.self_id
    then no_way
    else (elim (row_of Str-discrete l.nodes id) [
      | none ↦ no_way
      | some n ↦
          if not n.enabled then no_way else start_known l now id n (row_of Str-discrete l.links id)
    ])

abbrev pub keep_conn : NodeLinks → ℕ → Str → Conn → Option Link → NodeLinks × Option Conn
keep_conn l now id c none = (
  record l {
    links = put_row Str-discrete l.links id (record { conn = c; born = now });
    failed = delete Str-discrete l.failed id;
  },
  some c,
)
keep_conn l now id c (some cur) = (record l { closed = c ∷ l.closed }, some cur.conn)

-- `Dialer` behind the call of `dial`, which failed or gave a connection.
unfoldable pub end_dial : NodeLinks → ℕ → Str → Option Conn → NodeLinks × Option Conn
end_dial l now id none = (record l { failed = update Str-discrete l.failed id now }, none)
end_dial l now id (some c) = keep_conn l now id c (row_of Str-discrete l.links id)

-- The connection that a dial makes, if the node answers.
abbrev pub made_conn : Node → Option ℕ → Option Conn
made_conn n none = none
made_conn n (some k) = some (record { number = k; to = n })

abbrev pub follow_start : NodeLinks → ℕ → Str → (Node → Option ℕ) → Start → NodeLinks × Option Conn
follow_start l now id dial no_way = (l, none)
follow_start l now id dial (linked c) = (l, some c)
follow_start l now id dial (dials n) = end_dial l now id (made_conn n (dial n))

-- `Dialer` with nothing in between; `dial` says whether a node answers, and under which number.
unfoldable pub dialer : NodeLinks → ℕ → Str → (Node → Option ℕ) → NodeLinks × Option Conn
unfolding start_dial end_dial
dialer l now id dial = follow_start l now id dial (start_dial l now id)

abbrev pub conns : Rows Str Link → List Conn
conns [] = []
conns ((id, ln) ∷ ls) = ln.conn ∷ conns ls

-- `Close`
unfoldable pub close_links : NodeLinks → NodeLinks
close_links l = record l { links = []; closed = conns l.links ++ l.closed }

-- The loop of `pickByCategory`.
unfoldable pub candidates : Rows Str Node → Str → List Str
unfolding has_tag same_text
candidates [] tag = []
candidates ((id, n) ∷ ns) tag =
    let rest = candidates ns tag in
    if not n.enabled
    then rest
    else if has_tag n.tags tag || same_text n.category tag
    then id ∷ rest
    else rest

-- `pickByCategory`
unfoldable pub pick_by_category : NodeLinks → ℕ → Str → NodeLinks × Str
unfolding candidates pick
pick_by_category l now tag =
    let (b, id) = pick l.balance now tag (candidates l.nodes tag) in (record l { balance = b }, id)

-- The loop of `sampleOnce`; `stats` is what the connection says, `none` before its first sample.
unfoldable pub sample_links : Rows Str Link → (Conn → Option PathStats) → ℕ → Balancer → Balancer
unfolding observe_path
sample_links [] stats now b = b
sample_links ((id, ln) ∷ ls) stats now b =
    sample_links ls stats now
      (elim (stats ln.conn) [ none ↦ b | some st ↦ observe_path b now id st ])

-- `sampleOnce`
unfoldable pub sample_once : NodeLinks → (Conn → Option PathStats) → ℕ → NodeLinks
unfolding sample_links
sample_once l stats now = record l { balance = sample_links l.links stats now l.balance }
