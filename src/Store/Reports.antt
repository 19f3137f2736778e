-- ===== src/Store/Reports.antt =====
-- internal/server/db/net_traffic.go: the traffic of the clients by node, as the nodes report it.
pub mod Again
use quic_diver.Base.{
  ℕ, ◌+◌, Bool, true, false, ◌||◌, ltb, if◌then◌else◌, none, some, List, [], ◌∷◌, Rows, put_row,
  keep_rows, Str,
}
use quic_diver.Store.{
  StoreError, Result, TokenRow, Traffic, Database, Pair-discrete, same_text, has_token,
}

-- `NodeTraffic`, as a report carries it.
pub record NodeTraffic : Type 0 where
  pub token_hash : Str
  pub bytes_in : ℕ
  pub bytes_out : ℕ

abbrev pub ByNode : Type 0
ByNode = Rows (Str × Str) Traffic

-- One round of the loop: the values of the report replace those of the row.
unfoldable pub report_row : ByNode → ℕ → Str → NodeTraffic → ByNode
unfolding Pair-discrete
report_row t now node r = elim r.token_hash [
  | [] ↦ t
  | c ∷ h ↦
      put_row Pair-discrete t (node, c ∷ h)
        (record { bytes_in = r.bytes_in; bytes_out = r.bytes_out; updated = now })
]

unfoldable pub report_rows : ByNode → ℕ → Str → List NodeTraffic → ByNode
unfolding report_row
report_rows t now node [] = t
report_rows t now node (r ∷ rs) = report_rows (report_row t now node r) now node rs

-- `token_hash IN (SELECT hash FROM tokens)`
unfoldable pub of_known_token : Database → Str × Str → Traffic → Bool
unfolding has_token
of_known_token d k t = has_token d k.1

-- `ReportNodeTraffic`
unfoldable pub report_node_traffic : Database → ℕ → Str → List NodeTraffic → Result Database
unfolding report_rows of_known_token
report_node_traffic d now [] rs = Result.failed StoreError.without_node
report_node_traffic d now (c ∷ node) rs = Result.done (record d {
  node_traffic = keep_rows (of_known_token d) (report_rows d.node_traffic now (c ∷ node) rs);
})

-- The sums of `NetworkTrafficOf`.
unfoldable pub sum_of : (Traffic → ℕ) → Str → ByNode → ℕ
unfolding same_text
sum_of f hash [] = 0
sum_of f hash ((k, t) ∷ rs) = (if same_text k.1 hash then f t else 0) + sum_of f hash rs

-- `NetworkTrafficOf`
unfoldable pub network_traffic_of : Database → Str → ℕ × ℕ
unfolding sum_of
network_traffic_of d hash =
    (sum_of Traffic.bytes_in hash d.node_traffic, sum_of Traffic.bytes_out hash d.node_traffic)

-- `LocalTrafficReport`
unfoldable pub report_of : Rows Str Traffic → List NodeTraffic
report_of [] = []
report_of ((hash, t) ∷ rs) =
    let rest = report_of rs in
    if ltb 0 t.bytes_in || ltb 0 t.bytes_out
    then record { token_hash = hash; bytes_in = t.bytes_in; bytes_out = t.bytes_out } ∷ rest
    else rest

unfoldable pub local_traffic_report : Database → List NodeTraffic
unfolding report_of
local_traffic_report d = report_of d.traffic
