-- ===== src/Quota/Period.antt =====
-- The period of a quota, and what is counted in it.
use quic_diver.Base.{
  ℕ, ◌+◌, ◌-◌, ◌≤◌, ◌<◌, ◌≡◌, ap, ◌∙◌, ◌⊎◌, ◌↔◌, true, none, some, ◌==◌, if◌then◌else◌, arith,
}
use native.Mathlib.Nat.{div-add-mod', mod-lt}
use quic_diver.Quota.{Row, Quota, exceeded, left, period, roll, roll_row, lower_base, quota_of_row}

-- A limit is exceeded exactly when nothing is left of it.
pub exceeded_iff : (q : Quota) → (exceeded q ≡ true) ↔ (left q ≡ some 0)
unfolding exceeded left
exceeded_iff q = (λ h. ground arith, λ h. ground arith)

-- Rolling on: the new reset lies in the future, at most one period ahead, and whole periods after
-- the old one.
roll_bounds :
    (next length now : ℕ)
    → 0 < length
    → next < now
    → (now < roll next length now) × (roll next length now ≤ now + length)
unfolding roll
roll_bounds next length now h late =
    let parts = div-add-mod' (now - next) length in
    let small = mod-lt (now - next) h in (omega (arith, parts, small), omega (arith, parts, small))

-- The period of a row is running: the next reset is set and not in the past.
abbrev pub IsRunning : Row → ℕ → Type 0
IsRunning r now = (r.period_days ≡ 0) ⊎ ((0 < r.reset_at) × (now ≤ r.reset_at))

roll_row-IsRunning : (r : Row) (now used : ℕ) → IsRunning (roll_row r now used) now
unfolding roll_row
roll_row-IsRunning r now used =
    let bounds = roll_bounds r.reset_at (period r.period_days) now in ground (arith, bounds)

-- What `QuotaOf` leaves behind: the count starts at a base that is no larger than the total, and it
-- is the difference; the next reset is not in the past, and at most a period away if it was moved.
pub quota_of_row_lem :
    (r : Row) (now total : ℕ)
    → ((quota_of_row r now total).1.base ≤ total)
      × ((quota_of_row r now total).0.used + (quota_of_row r now total).1.base ≡ total)
      × IsRunning (quota_of_row r now total).1 now
      × (((quota_of_row r now total).1.reset_at ≡ r.reset_at)
          ⊎ ((quota_of_row r now total).0.used ≡ 0)
            × ((quota_of_row r now total).1.reset_at ≤ now + period r.period_days))
unfolding quota_of_row roll_row lower_base
quota_of_row_lem r now total =
    let bounds = roll_bounds r.reset_at (period r.period_days) now in
    (
      ground arith,
      ground arith,
      roll_row-IsRunning (lower_base r total) now total,
      ground (arith, bounds),
    )

roll_row_fix : (r : Row) (now used : ℕ) → IsRunning r now → roll_row r now used ≡ r
unfolding roll_row
roll_row_fix r now used h = ground arith

lower_base_fix : (r : Row) (used : ℕ) → r.base ≤ used → lower_base r used ≡ r
unfolding lower_base
lower_base_fix r used h = ground arith

settled_fields :
    (r : Row) (now total : ℕ)
    → ((quota_of_row r now total).1.limit ≡ r.limit)
      × ((quota_of_row r now total).1.period_days ≡ r.period_days)
unfolding quota_of_row roll_row lower_base
settled_fields r now total = (ground arith, ground arith)

settled_fix :
    (r : Row) (now total : ℕ)
    → r.base ≤ total
    → IsRunning r now
    → quota_of_row r now total ≡ (
      record {
        limit = r.limit;
        used = total - r.base;
        period_days = r.period_days;
        reset_at = if r.period_days == 0 then none else some r.reset_at;
      },
      r,
    )
unfolding quota_of_row
settled_fix r now total low run = rw (lower_base_fix r total low, roll_row_fix r now total run)

-- Asked again at the same moment with the same total, `QuotaOf` answers the same and writes nothing.
pub quota_of_row_again :
    (r : Row) (now total : ℕ)
    → quota_of_row (quota_of_row r now total).1 now total ≡ quota_of_row r now total
unfolding quota_of_row
quota_of_row_again r now total =
    let (low, sum, run, moved) = quota_of_row_lem r now total in
    let (lim, days) = settled_fields r now total in
    settled_fix (quota_of_row r now total).1 now total low run ∙ rw (lim, days)

-- While the period runs, the use grows by exactly what the network carried in between.
pub used_grows :
    (r : Row) (now later a b : ℕ)
    → a ≤ b
    → IsRunning (quota_of_row r now a).1 later
    → (quota_of_row (quota_of_row r now a).1 later b).0.used
      ≡ (quota_of_row r now a).0.used + (b - a)
used_grows r now later a b h run =
    let (low, sum, _, _) = quota_of_row_lem r now a in
    ap (λ (x : Quota × Row). x.0.used)
      (settled_fix (quota_of_row r now a).1 later b (omega arith) run)
    ∙ omega arith
