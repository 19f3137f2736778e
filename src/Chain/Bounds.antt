-- ===== src/Chain/Bounds.antt =====
-- The hop limit of a flow on its way through the nodes.
use quic_diver.Base.{
  ℕ, zero, suc, ◌-◌, ◌≤◌, ◌<◌, ◌≡◌, refl, inl, inr, Bool, true, false, Option, none, some, leb,
  if◌then◌else◌, Str, arith, Bool-cases, subst, ◌∙◌, ap, sym,
}
use quic_diver.Label.{Decision, exit, transit, decide}
use quic_diver.Chain.{
  HopHeader, missing, malformed, negative, hops, Config, Request, link_dialer, Outcome, decoy,
  leaves, bad_gateway, forwards, default_hops, route_decided, label_route, route_flow, dial,
  serve_connect, travel,
}

-- The hops that a request still has.
abbrev pub budget : HopHeader → ℕ
budget missing = default_hops
budget malformed = 0
budget negative = 0
budget (hops n) = n

-- What a node may do with a request that has `n` hops left, and what it sends on if it forwards.
abbrev pub Passes : Config → Str → ℕ → Outcome → Type 0
Passes cfg raw n (forwards next q) =
    (q.hop_header ≡ hops (n - 1))
    × (2 ≤ n)
    × (q.label ≡ raw)
    × (decide (label_route raw) cfg.node_id cfg.pick_node ≡ transit next)
    × (cfg.has_link next ≡ true)
Passes cfg raw n _ = Unit

lt→leb : (n : ℕ) → 0 < n → leb n 0 ≡ false
lt→leb n h = ground arith

dial_link-Passes :
    (cfg : Config) (raw next : Str) (n : ℕ)
    → decide (label_route raw) cfg.node_id cfg.pick_node ≡ transit next
    → cfg.has_link next ≡ true
    → Passes cfg raw n (dial (link_dialer next (n - 1) raw))
unfolding dial
dial_link-Passes cfg raw next zero d l = tt
dial_link-Passes cfg raw next (suc zero) d l = tt
dial_link-Passes cfg raw next (suc (suc n)) d l =
    let e : suc (suc n) - 1 ≡ suc n = omega arith in rw e (ap hops (sym e), omega arith, refl, d, l)

decided-Passes :
    (cfg : Config) (raw : Str) (n : ℕ) (d : Decision)
    → decide (label_route raw) cfg.node_id cfg.pick_node ≡ d
    → Passes cfg raw n (dial (route_decided cfg raw n d))
unfolding route_decided dial
decided-Passes cfg raw n exit e = tt
decided-Passes cfg raw n (transit next) e = elim (Bool-cases (cfg.has_link next)) [
  | inl l ↦ rw l (dial_link-Passes cfg raw next n e l)
  | inr l ↦ rw l tt
]

served-Passes :
    (cfg : Config) (raw : Str) (n : ℕ) (b : Bool)
    → Passes cfg raw n (if b then decoy else dial (route_flow cfg raw n))
unfolding route_flow
served-Passes cfg raw n true = tt
served-Passes cfg raw n false =
    decided-Passes cfg raw n (decide (label_route raw) cfg.node_id cfg.pick_node) refl

serve_connect-Passes :
    (cfg : Config) (h : HopHeader) (raw : Str)
    → Passes cfg raw (budget h) (serve_connect cfg (record { hop_header = h; label = raw }))
unfolding serve_connect
serve_connect-Passes cfg missing raw = served-Passes cfg raw default_hops false
serve_connect-Passes cfg malformed raw = served-Passes cfg raw 0 true
serve_connect-Passes cfg negative raw = served-Passes cfg raw 0 true
serve_connect-Passes cfg (hops n) raw = served-Passes cfg raw n (leb n 0)

-- A node that forwards a flow sends it where the label leads, over a link that it has, with the
-- label unchanged and one hop less; it had at least two hops left.
pub serve_connect-forwards :
    (cfg : Config) (r : Request) (next : Str) (q : Request)
    → serve_connect cfg r ≡ forwards next q
    → (q.hop_header ≡ hops (budget r.hop_header - 1))
      × (2 ≤ budget r.hop_header)
      × (q.label ≡ r.label)
      × (decide (label_route r.label) cfg.node_id cfg.pick_node ≡ transit next)
      × (cfg.has_link next ≡ true)
serve_connect-forwards cfg r next q e =
    subst (Passes cfg r.label (budget r.hop_header)) e
      (serve_connect-Passes cfg r.hop_header r.label)

-- The end of a flow: an outcome, after a number of transits.
abbrev pub Ends : ℕ → Option (ℕ × Outcome) → Type 0
Ends limit none = ⊥
Ends limit (some (n, forwards next q)) = ⊥
Ends limit (some (n, decoy)) = n ≤ limit
Ends limit (some (n, leaves)) = n ≤ limit
Ends limit (some (n, bad_gateway)) = n ≤ limit

Ends-suc :
    (limit m : ℕ) (r : Option (ℕ × Outcome))
    → suc limit ≤ m
    → Ends limit r
    → Ends m (elim r [ none ↦ none | some (n, o) ↦ some (suc n, o) ])
Ends-suc limit m none h e = e
Ends-suc limit m (some (n, forwards next q)) h e = e
Ends-suc limit m (some (n, decoy)) h e = omega arith
Ends-suc limit m (some (n, leaves)) h e = omega arith
Ends-suc limit m (some (n, bad_gateway)) h e = omega arith

travel_step :
    (fuel : ℕ) (nodes : Str → Config) (at : Str) (r : Request) (o : Outcome)
    → serve_connect (nodes at) r ≡ o
    → ((next : Str) (q : Request)
        → o ≡ forwards next q
        → Ends (budget q.hop_header - 1) (travel fuel nodes next q))
    → Ends (budget r.hop_header - 1) (travel (suc fuel) nodes at r)
unfolding travel
travel_step fuel nodes at r decoy e rest = rw (e, travel) (omega arith)
travel_step fuel nodes at r leaves e rest = rw (e, travel) (omega arith)
travel_step fuel nodes at r bad_gateway e rest = rw (e, travel) (omega arith)
travel_step fuel nodes at r (forwards next q) e rest =
    let (less, two, same, d, l) = serve_connect-forwards (nodes at) r next q e in
    rw (e, travel)
      (Ends-suc (budget q.hop_header - 1) (budget r.hop_header - 1) (travel fuel nodes next q)
        (rw less (omega arith)) (rest next q refl))

-- Every flow ends, in whatever network and whatever the nodes decide: with more fuel than the
-- request has hops, the run is over, after at most one transit less than that.
pub travel-Ends :
    (fuel : ℕ) (nodes : Str → Config) (at : Str) (r : Request)
    → budget r.hop_header < fuel
    → Ends (budget r.hop_header - 1) (travel fuel nodes at r)
travel-Ends zero nodes at r h = absurd (omega arith)
travel-Ends (suc fuel) nodes at r h =
    travel_step fuel nodes at r (serve_connect (nodes at) r) refl λ next q e.
      let (less, two, same, d, l) = serve_connect-forwards (nodes at) r next q e in
      travel-Ends fuel nodes next q (rw less (omega arith))

decided_leaves :
    (cfg : Config) (raw : Str) (n : ℕ) (d : Decision)
    → ((next : Str) → d ≡ transit next → cfg.has_link next ≡ false)
    → dial (route_decided cfg raw n d) ≡ leaves
unfolding route_decided dial
decided_leaves cfg raw n exit h = refl
decided_leaves cfg raw n (transit next) h = rw (h next refl)

route_flow_leaves :
    (cfg : Config) (raw : Str) (n : ℕ)
    → ((next : Str)
        → decide (label_route raw) cfg.node_id cfg.pick_node ≡ transit next
        → cfg.has_link next ≡ false)
    → dial (route_flow cfg raw n) ≡ leaves
unfolding route_flow
route_flow_leaves cfg raw n h =
    decided_leaves cfg raw n (decide (label_route raw) cfg.node_id cfg.pick_node) h

serve_open :
    (cfg : Config) (h : HopHeader) (raw : Str)
    → 0 < budget h
    → serve_connect cfg (record { hop_header = h; label = raw })
      ≡ dial (route_flow cfg raw (budget h))
unfolding serve_connect
serve_open cfg missing raw p = refl
serve_open cfg malformed raw p = absurd (omega arith)
serve_open cfg negative raw p = absurd (omega arith)
serve_open cfg (hops n) raw p = rw (lt→leb n p)

-- Without a usable link a flow leaves the network where it is: a label that cannot be read, names
-- no other node, or names one that cannot be reached never stops it.
pub unreachable_leaves :
    (cfg : Config) (r : Request)
    → 0 < budget r.hop_header
    → ((next : Str)
        → decide (label_route r.label) cfg.node_id cfg.pick_node ≡ transit next
        → cfg.has_link next ≡ false)
    → serve_connect cfg r ≡ leaves
unreachable_leaves cfg r h none_linked =
    serve_open cfg r.hop_header r.label h
    ∙ route_flow_leaves cfg r.label (budget r.hop_header) none_linked
