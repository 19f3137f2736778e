-- ===== src/Ring.antt =====
-- The cursor over a pool of addresses that nat46 and fakeip share in shape: it walks the numbers
-- lo..hi in a circle, and the search for a usable number goes once round.
-- Code: internal/client/nat46/table.go and internal/client/fakeip/pool.go, `alloc`.
use quic_diver.Base.{
  ℕ, zero, suc, ◌+◌, ◌%◌, ◌^◌, ◌-◌, ◌≤◌, ◌<◌, ◌≡◌, Bool, true, false, Option, none, some, ltb,
  if◌then◌else◌, arith, Bool-cases, inl, inr, ◌⊎◌, ◌≢◌, dec_lt, ℕ_discrete, ap, subst,
}

-- `next++` on a uint32, and back to `lo` past `hi`.
unfoldable pub advance : ℕ → ℕ → ℕ → ℕ
advance lo hi next = let n = (next + 1) % 2 ^ 32 in if ltb hi n then lo else n

-- The first usable number met in `fuel` steps, with the cursor behind it.
unfoldable pub scan : (ℕ → Bool) → ℕ → ℕ → ℕ → ℕ → ℕ × Option ℕ
scan usable lo hi zero next = (next, none)
scan usable lo hi (suc fuel) next =
    let rest = scan usable lo hi fuel (advance lo hi next) in
    if usable next then (advance lo hi next, some next) else rest

-- A cursor inside its pool. The pool ends below the last uint32.
pub record InPool (lo hi next : ℕ) : Type 0 where
  pub low : lo ≤ next
  pub high : next ≤ hi
  pub word : hi + 1 < 2 ^ 32

pub advance-InPool : (lo hi next : ℕ) → InPool lo hi next → InPool lo hi (advance lo hi next)
unfolding advance
advance-InPool lo hi next h = ground arith

advance-eq-suc : (lo hi next : ℕ) → InPool lo hi next → next < hi → advance lo hi next ≡ next + 1
unfolding advance
advance-eq-suc lo hi next h p = ground arith

advance-last : (lo hi : ℕ) → InPool lo hi hi → advance lo hi hi ≡ lo
unfolding advance
advance-last lo hi h = ground arith

module _ (usable : ℕ → Bool) (lo hi : ℕ) where
  pub scan-InPool :
      (fuel next : ℕ) → InPool lo hi next → InPool lo hi (scan usable lo hi fuel next).0
  unfolding scan
  scan-InPool zero next h = h
  scan-InPool (suc fuel) next h = elim (Bool-cases (usable next)) [
    | inl e ↦ let r = advance-InPool lo hi next h in simp e r
    | inr e ↦
        let r = scan-InPool fuel (advance lo hi next) (advance-InPool lo hi next h) in simp e r
  ]

  pub scan-some :
      (fuel next : ℕ) {c : ℕ}
      → InPool lo hi next
      → (scan usable lo hi fuel next).1 ≡ some c
      → (usable c ≡ true) × (lo ≤ c) × (c ≤ hi)
  unfolding scan
  scan-some zero next h e = ground arith
  scan-some (suc fuel) next {c} h e =
      ground (arith, scan-some fuel (advance lo hi next) {c = c} (advance-InPool lo hi next h))

  -- `k` is met within `fuel` steps from `next`: before the wrap, or behind it.
  abbrev Met : ℕ → ℕ → ℕ → Type 0
  Met fuel next k =
      ((next ≤ k) × (k < next + fuel)) ⊎ ((k < next) × (hi + 1 + k < next + fuel + lo))

  Met-advance :
      (fuel next k : ℕ)
      → InPool lo hi next
      → lo ≤ k
      → k ≤ hi
      → next ≢ k
      → Met (suc fuel) next k
      → Met fuel (advance lo hi next) k
  Met-advance fuel next k h a b n (inl m) =
      rw (advance-eq-suc lo hi next h (omega arith)) (inl (omega arith, omega arith))
  Met-advance fuel next k h a b n (inr m) = elim (dec_lt next hi) [
    | yes p ↦ rw (advance-eq-suc lo hi next h p) (inr (omega arith, omega arith))
    | no p ↦
        let last : next ≡ hi = omega arith in
        rw (ap (advance lo hi) last, advance-last lo hi (subst (InPool lo hi) last h))
          (inl (omega arith, omega arith))
  ]

  -- A failed search has found every number that it met unusable.
  scan-none-Met :
      (fuel next k : ℕ)
      → InPool lo hi next
      → lo ≤ k
      → k ≤ hi
      → Met fuel next k
      → (scan usable lo hi fuel next).1 ≡ none
      → usable k ≡ false
  unfolding scan
  scan-none-Met zero next k h a b m e = absurd (omega arith)
  scan-none-Met (suc fuel) next k h a b m e = elim (Bool-cases (usable next)) [
    | inl t ↦ ground arith
    | inr f ↦ elim (ℕ_discrete next k) [
      | yes same ↦ subst (λ (j : ℕ). usable j ≡ false) same f
      | no other ↦
          scan-none-Met fuel (advance lo hi next) k (advance-InPool lo hi next h) a b
            (Met-advance fuel next k h a b other m) (ground arith)
    ]
  ]

  -- A search that goes once round and fails has found no usable number in the pool.
  pub scan-none :
      (next k : ℕ)
      → InPool lo hi next
      → lo ≤ k
      → k ≤ hi
      → (scan usable lo hi (hi - lo + 1) next).1 ≡ none
      → usable k ≡ false
  scan-none next k h a b e = scan-none-Met (hi - lo + 1) next k h a b met e
    where
      met : Met (hi - lo + 1) next k
      met = elim (dec_lt k next) [
        | yes p ↦ inr (p, omega arith)
        | no p ↦ inl (omega arith, omega arith)
      ]
