-- ===== src/Nat/Checksum/Fold.antt =====
-- The folding loop of the checksums.
use quic_diver.Base.{ℕ, zero, suc, ◌%◌, ◌^◌, ◌≤◌, ◌<◌, ◌≡◌, refl, arith}
use quic_diver.Nat.Checksum.{fold_step, fold_loop, fold}

fold_step-mod : (sum : ℕ) → fold_step sum % 0xffff ≡ sum % 0xffff
fold_step-mod sum = omega arith

pub fold_loop-mod : (fuel sum : ℕ) → fold_loop fuel sum % 0xffff ≡ sum % 0xffff
unfolding fold_loop
fold_loop-mod zero sum = refl
fold_loop-mod (suc fuel) sum = ground (arith, fold_loop-mod fuel (fold_step sum), fold_step-mod sum)

fold_loop_done : (fuel sum : ℕ) → sum ≤ 0xffff → fold_loop fuel sum ≡ sum
unfolding fold_loop
fold_loop_done zero sum h = refl
fold_loop_done (suc fuel) sum h = ground arith

fold_step_twice : (sum : ℕ) → sum < 2 ^ 32 → fold_step (fold_step sum) ≤ 0xffff
fold_step_twice sum h = omega arith

-- For a uint32 two rounds end the loop: the folded sum is a word that agrees with the sum modulo
-- 0xFFFF, and more fuel changes nothing.
pub fold_lem :
    (sum more : ℕ)
    → sum < 2 ^ 32
    → (fold sum ≤ 0xffff)
      × (fold sum % 0xffff ≡ sum % 0xffff)
      × (fold_loop (suc (suc more)) sum ≡ fold sum)
unfolding fold
fold_lem sum more h = (
  ground (arith, fold_step_twice sum h),
  fold_loop-mod 2 sum,
  ground (arith, fold_loop_done more (fold_step (fold_step sum)) (fold_step_twice sum h)),
)

-- The folded sum is 0 only if the sum is.
pub fold-pos : (sum : ℕ) → 0 < sum → sum < 2 ^ 32 → 0 < fold sum
unfolding fold fold_loop
fold-pos sum h b = ground arith
