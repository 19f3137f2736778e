-- ===== src/Chain.antt =====
-- internal/server/chain/chain.go and internal/server/route_decide.go: a flow on its way through
-- the nodes, with the hop limit that ends a loop.
-- The handlers serveConnect (node.go) and serveConnectUDP (connectudp.go) share this part.
pub mod Bounds
mod Tests
use quic_diver.Base.{
  ℕ, zero, suc, ◌+◌, ◌-◌, Bool, true, false, not, ◌&&◌, Option, none, some, leb, if◌then◌else◌, Str,
  [], ◌∷◌,
}
use quic_diver.Label.{Route, Result, ok, err, Decision, exit, transit, parse, direct, decide}

-- The header `Qd-Hops` as `strconv.Atoi` reads it. A negative number is one form of bad header.
pub data HopHeader : Type 0 where
  missing : HopHeader
  malformed : HopHeader
  negative : HopHeader
  hops : ℕ → HopHeader

abbrev pub default_hops : ℕ
default_hops = 8

-- `HopsFromRequest`: the hops left, and whether the request is a client's.
unfoldable pub hops_from_request : HopHeader → ℕ × Bool
hops_from_request missing = (default_hops, true)
hops_from_request malformed = (0, false)
hops_from_request negative = (0, false)
hops_from_request (hops n) = (n, false)

-- What a node knows: its name, the choice of a node of a category (`pickNode`; `Decide` accepts nil
-- too), and for which nodes `transitDialer` gives a connection (`Links.Dialer` is a parameter).
pub record Config : Type 0 where
  pub node_id : Str
  pub pick_node : Option (Str → Str)
  pub has_link : Str → Bool

-- The two headers of a CONNECT request that matter here; an absent label is the empty text.
pub record Request : Type 0 where
  pub hop_header : HopHeader
  pub label : Str

-- The dialer that `routeFlow` returns with its context: the exit, or the link to a node with the
-- hops left and the label to send on.
pub data Dialer : Type 0 where
  exit_dialer : Dialer
  link_dialer : Str → ℕ → Str → Dialer

-- `ctx` carries `hops - 1`; a handler never passes 0 from a node, and a client's request has 8.
unfoldable pub route_decided : Config → Str → ℕ → Decision → Dialer
route_decided cfg raw n exit = exit_dialer
route_decided cfg raw n (transit next) =
    if cfg.has_link next then link_dialer next (n - 1) raw else exit_dialer

-- A label that cannot be read counts as `direct`.
unfoldable pub label_route : Str → Route
label_route raw = elim (parse raw) [ ok r ↦ r | err e ↦ direct ]

unfoldable pub route_flow : Config → Str → ℕ → Dialer
unfolding route_decided label_route
route_flow cfg raw n = route_decided cfg raw n (decide (label_route raw) cfg.node_id cfg.pick_node)

-- What becomes of a request at a node.
pub data Outcome : Type 0 where
  -- the page of a loop, in place of an answer
  decoy : Outcome
  -- the flow leaves the network here
  leaves : Outcome
  -- the dialer of the chain refuses: status 502
  bad_gateway : Outcome
  -- a request to the next node
  forwards : Str → Request → Outcome

-- `Dialer.DialTCP` and `Dialer.DialUDP` up to the request that they send.
unfoldable pub dial : Dialer → Outcome
dial exit_dialer = leaves
dial (link_dialer next zero raw) = bad_gateway
dial (link_dialer next (suc n) raw) =
    forwards next (record { hop_header = hops (suc n); label = raw })

-- The handlers once the target has been read: a node's request with no hops left is answered by the
-- decoy. The answer 400 for a target that cannot be read is in Admission.
unfoldable pub serve_connect : Config → Request → Outcome
unfolding hops_from_request route_flow dial
serve_connect cfg r =
    let (n, from_client) = hops_from_request r.hop_header in
    if not from_client && leb n 0 then decoy else dial (route_flow cfg r.label n)

-- A flow through the network: `nodes` says what stands under a name. `none` is out of fuel.
unfoldable pub travel : ℕ → (Str → Config) → Str → Request → Option (ℕ × Outcome)
travel zero nodes at r = none
travel (suc fuel) nodes at r = elim (serve_connect (nodes at) r) [
  | decoy ↦ some (0, decoy)
  | leaves ↦ some (0, leaves)
  | bad_gateway ↦ some (0, bad_gateway)
  | forwards next q ↦ elim (travel fuel nodes next q) [
    | none ↦ none
    | some (n, o) ↦ some (suc n, o)
  ]
]
