-- ===== src/FakeIp/Pool/Start.antt =====
-- The pool that `New` builds.
use mathlib.Core.Option.{some-injective}
use quic_diver.Base.{ℕ, ◌+◌, ◌<◌, ◌^◌, ◌≡◌, subst, some, arith, Addr, v4, Prefix}
use quic_diver.FakeIp.Pool.{Pool, pool_at, pool_from, new_pool}
use quic_diver.FakeIp.Pool.Invariant.{IsValid}

pool_at-IsValid :
    (prefix : Prefix) (ttl n : ℕ)
    → (pool_at prefix ttl n).hi + 1 < 2 ^ 32
    → IsValid (pool_at prefix ttl n)
unfolding pool_at
pool_at-IsValid prefix ttl n h = record {
  in_pool = record { low = omega arith; high = omega arith; word = h };
  keyed = λ f e q. cc;
  named = λ d f q. cc;
  owned = λ f e q. cc;
}

pool_from-IsValid :
    (prefix : Prefix) (ttl : ℕ) (a : Addr) {p : Pool}
    → pool_from prefix ttl a ≡ some p
    → p.hi + 1 < 2 ^ 32
    → IsValid p
unfolding pool_from
pool_from-IsValid prefix ttl (v4 n) e h =
    subst (λ (p : Pool). p.hi + 1 < 2 ^ 32 → IsValid p) (some-injective _ _ e)
      (pool_at-IsValid prefix ttl n) h
pool_from-IsValid prefix ttl _ e h = cc

-- A new pool is valid, if it ends below the last address of IPv4.
pub new_pool-IsValid :
    (prefix : Prefix) (ttl : ℕ) {p : Pool}
    → new_pool prefix ttl ≡ some p
    → p.hi + 1 < 2 ^ 32
    → IsValid p
unfolding new_pool
new_pool-IsValid prefix ttl e h = pool_from-IsValid prefix ttl prefix.addr e h
