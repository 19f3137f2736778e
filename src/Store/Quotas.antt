-- ===== src/Store/Quotas.antt =====
-- internal/server/db/quota.go on the tables: the quota of a token and its writes. The arithmetic of a
-- row is that of the module Quota.
use quic_diver.Base.{
  ℕ, ◌+◌, Bool, not, ◌&&◌, ◌||◌, ltb, ◌==◌, if◌then◌else◌, Option, none, some, put_row, Str,
  Str-discrete,
}
use quic_diver.Quota.{Row, Quota, quota_of_row, reset_row}
use quic_diver.Store.{Result, Database, token_row_by_hash}
use quic_diver.Store.Reports.{network_traffic_of}
use quic_diver.Store.Tokens.{update_token}

-- The use of the whole network, in and out.
unfoldable pub network_total : Database → Str → ℕ
unfolding network_traffic_of
network_total d hash = let (i, o) = network_traffic_of d hash in i + o

-- Whether `QuotaOf` calls `setTrafficBase`, which moves updated_at.
unfoldable pub writes_base : Row → ℕ → ℕ → Bool
writes_base r now total =
    ltb total r.base || (not (r.period_days == 0) && (r.reset_at == 0 || ltb r.reset_at now))

-- `QuotaOf`; `none` is ErrNotFound.
unfoldable pub quota_of_token : Database → ℕ → Str → Option (Quota × Database)
unfolding quota_of_row token_row_by_hash network_total writes_base
quota_of_token d now hash = elim (token_row_by_hash d hash) [
  | none ↦ none
  | some r ↦
      let total = network_total d hash in
      let (q, row) = quota_of_row r.quota now total in
      some (
        q,
        record d {
          tokens = put_row Str-discrete d.tokens hash (record r {
            quota = row;
            updated_at = if writes_base r.quota now total then now else r.updated_at;
          });
        },
      )
]

-- `SetTrafficLimit`
unfoldable pub set_token_traffic_limit : Database → ℕ → Str → ℕ → ℕ → Result Database
unfolding update_token
set_token_traffic_limit d now hash limit days = update_token d hash (λ r. record r {
  quota = record (r.quota) { limit = limit; period_days = days };
  updated_at = now;
})

-- `ResetTraffic`
unfoldable pub reset_token_traffic : Database → ℕ → Str → Result Database
unfolding update_token reset_row network_total
reset_token_traffic d now hash =
    update_token d hash
      (λ r. record r { quota = reset_row r.quota now (network_total d hash); updated_at = now })
