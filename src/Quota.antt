-- ===== src/Quota.antt =====
-- internal/server/db/quota.go: the traffic limit of a client and its use in the current period.
-- Times and byte counts are natural numbers; a failing database is not modelled. `total` is what
-- `NetworkTrafficOf` reports for the token.
pub mod Period
mod Tests
use quic_diver.Base.{
  ℕ, zero, suc, ◌+◌, ◌-◌, ◌*◌, ◌/◌, ◌^◌, Bool, true, false, not, ◌&&◌, Option, none, some, ltb, leb,
  ◌==◌, if◌then◌else◌, Map, update, Str, Str-discrete,
}

-- The columns of `tokens` that the quota lives in. `reset_at` is 0 before the first use.
pub record Row : Type 0 where
  pub limit : ℕ
  pub period_days : ℕ
  pub reset_at : ℕ
  pub base : ℕ

pub record Quota : Type 0 where
  pub limit : ℕ
  pub used : ℕ
  pub period_days : ℕ
  -- `none` is the zero time
  pub reset_at : Option ℕ

-- `Exceeded`
unfoldable pub exceeded : Quota → Bool
exceeded q = ltb 0 q.limit && leb q.limit q.used

-- `Left`; `none` is -1, no limit.
unfoldable pub left : Quota → Option ℕ
left q =
    if q.limit == 0 then none else if leb q.limit q.used then some 0 else some (q.limit - q.used)

-- The length of a period in nanoseconds.
abbrev pub period : ℕ → ℕ
period days = days * (24 * 3600 * 10 ^ 9)

-- The next reset after a period that ended: whole periods are added at once.
unfoldable pub roll : ℕ → ℕ → ℕ → ℕ
roll next length now = next + ((now - next) / length + 1) * length

-- The row after the period check; `base` has been lowered already.
unfoldable pub roll_row : Row → ℕ → ℕ → Row
unfolding roll
roll_row r now used =
    if r.period_days == 0
    then r
    else if r.reset_at == 0
    then record r { reset_at = now + period r.period_days; base = used }
    else if ltb r.reset_at now
    then record r { reset_at = roll r.reset_at (period r.period_days) now; base = used }
    else r

-- A total below the base means that a node lost its history: the base follows it down.
unfoldable pub lower_base : Row → ℕ → Row
lower_base r used = if ltb used r.base then record r { base = used } else r

-- `QuotaOf` on the row of a token: the quota and the row as it is written back.
unfoldable pub quota_of_row : Row → ℕ → ℕ → Quota × Row
unfolding roll_row lower_base
quota_of_row r now total =
    let r' = roll_row (lower_base r total) now total in
    (
      record {
        limit = r.limit;
        used = total - r'.base;
        period_days = r.period_days;
        reset_at = if r.period_days == 0 then none else some r'.reset_at;
      },
      r',
    )

abbrev pub Table : Type 0
Table = Map Str Row

-- `QuotaOf`; `none` is ErrNotFound.
unfoldable pub quota_of : Table → ℕ → Str → ℕ → Option (Quota × Table)
unfolding quota_of_row
quota_of t now hash total = elim (t hash) [
  | none ↦ none
  | some r ↦ let (q, r') = quota_of_row r now total in some (q, update Str-discrete t hash r')
]

-- `SetTrafficLimit`
unfoldable pub set_traffic_limit : Table → Str → ℕ → ℕ → Option Table
set_traffic_limit t hash limit days = elim (t hash) [
  | none ↦ none
  | some r ↦ some (update Str-discrete t hash (record r { limit = limit; period_days = days }))
]

-- The row that `ResetTraffic` writes.
unfoldable pub reset_row : Row → ℕ → ℕ → Row
reset_row r now total = record r {
  reset_at = if r.period_days == 0 then 0 else now + period r.period_days;
  base = total;
}

-- `ResetTraffic`
unfoldable pub reset_traffic : Table → ℕ → Str → ℕ → Option Table
unfolding reset_row
reset_traffic t now hash total = elim (t hash) [
  | none ↦ none
  | some r ↦ some (update Str-discrete t hash (reset_row r now total))
]
