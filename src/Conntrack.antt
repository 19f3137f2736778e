-- ===== src/Conntrack.antt =====
-- internal/client/routing/conntrack.go: the label decided for a flow, kept while packets come. The
-- map is a list of pairs with one pair to a key, so that it can be swept and counted.
pub mod Kept
mod Tests
use quic_diver.Base.{
  ℕ, ◌+◌, ◌*◌, ◌^◌, Bool, true, false, Option, none, some, leb, ltb, ◌==◌, if◌then◌else◌, List, [],
  ◌∷◌, Str, Addr, AddrPort, Addr-discrete, ℕ_discrete, length,
}
use quic_diver.Rules.{Flow}

-- The type `flowKey`: the port of the source and the destination.
abbrev pub FlowKey : Type 0
FlowKey = ℕ × (Addr × ℕ)

unfoldable pub FlowKey-discrete : Discrete (ℕ × (Addr × ℕ))
unfolding ℕ_discrete Addr-discrete
FlowKey-discrete = hlevel (ℕ_discrete, Addr-discrete)

-- The type `ctEntry`
pub record CtEntry : Type 0 where
  pub out : Str
  pub seen : ℕ

abbrev pub Entries : Type 0
Entries = List (FlowKey × CtEntry)

-- `c.m[k]`
unfoldable pub find : Entries → FlowKey → Option CtEntry
unfolding FlowKey-discrete
find [] k = none
find ((j, e) ∷ m) k = elim (FlowKey-discrete j k) [ yes p ↦ some e | no p ↦ find m k ]

-- `c.m[k] = e`
unfoldable pub store : Entries → FlowKey → CtEntry → Entries
unfolding FlowKey-discrete
store [] k e = (k, e) ∷ []
store ((j, d) ∷ m) k e = elim (FlowKey-discrete j k) [
  | yes p ↦ (j, e) ∷ m
  | no p ↦ (j, d) ∷ store m k e
]

pub record Conntrack : Type 0 where
  pub ttl : ℕ
  pub m : Entries

-- `NewConntrack`: a ttl of 0, which stands for any that is not positive, is five minutes.
unfoldable pub new_conntrack : ℕ → Conntrack
new_conntrack ttl =
    if ttl == 0 then record { ttl = 5 * 60 * 10 ^ 9; m = [] } else record { ttl = ttl; m = [] }

abbrev pub flow_key : ℕ → Flow → FlowKey
flow_key src_port f = (src_port, (f.dst.addr, f.dst.port))

-- `Decide` with what the map holds for the key.
unfoldable pub decide_found : Conntrack → ℕ → FlowKey → Str → Option CtEntry → Conntrack × Str
unfolding store
decide_found c now k classified none =
    (record c { m = store c.m k (record { out = classified; seen = now }) }, classified)
decide_found c now k classified (some e) =
    if ltb now (e.seen + c.ttl)
    then (record c { m = store c.m k (record { out = e.out; seen = now }) }, e.out)
    else (record c { m = store c.m k (record { out = classified; seen = now }) }, classified)

-- `Decide`
unfoldable pub decide_flow : Conntrack → ℕ → ℕ → Flow → (Flow → Str) → Conntrack × Str
unfolding decide_found find
decide_flow c now src_port f classify =
    let k = flow_key src_port f in decide_found c now k (classify f) (find c.m k)

-- The loop of `Sweep`.
unfoldable pub sweep_entries : ℕ → ℕ → Entries → Entries × ℕ
sweep_entries ttl now [] = ([], 0)
sweep_entries ttl now ((k, e) ∷ m) =
    let (rest, n) = sweep_entries ttl now m in
    if leb (e.seen + ttl) now then (rest, n + 1) else ((k, e) ∷ rest, n)

-- `Sweep`
unfoldable pub sweep : Conntrack → ℕ → Conntrack × ℕ
unfolding sweep_entries
sweep c now = let (m, n) = sweep_entries c.ttl now c.m in (record c { m = m }, n)

-- `Len`
unfoldable pub len : Conntrack → ℕ
len c = length c.m
