-- ===== src/Quota/Tests.antt =====
-- The quota of a client at concrete times.
use quic_diver.Base.{◌≡◌, refl}
use quic_diver.Quota.{Row, exceeded, left, quota_of_row}

program : Unit {0}
unfolding quota_of_row exceeded left
program = tt

-- A limit of 1000 bytes a day, 600 of 5000 used when the day ended.
abbrev row : Row
row = record { limit = 1000; period_days = 1; reset_at = 1000; base = 4400 }

rolled : (quota_of_row row 1001 5000).0.used ≡ 0
unfolding program
rolled = refl
