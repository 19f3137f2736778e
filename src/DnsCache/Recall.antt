-- ===== src/DnsCache/Recall.antt =====
-- `Put`, and `Get` behind it.
use quic_diver.Base.{ℕ, ◌+◌, ◌≤◌, ◌<◌, ◌≡◌, refl, ◌||◌, some, ◌==◌, Str, arith, if-cases}
use quic_diver.DnsCache.{Cache, get_found, get, put}
use quic_diver.DnsCache.Bounds.{IsValid, Puts, put_found-Puts}

put-Puts :
    (c : Cache) (now : ℕ) (k resp : Str) (ttl : ℕ)
    → IsValid c
    → 0 < c.max
    → 0 < ttl
    → Puts c k (record { resp = resp; expires = now + ttl }) (put c now k resp ttl)
unfolding put
put-Puts c now k resp ttl h pos live =
    if-cases (Puts c k (record { resp = resp; expires = now + ttl })) (c.max == 0 || ttl == 0) c _
      (λ t. ground (arith, t))
      (λ t. put_found-Puts c k (record { resp = resp; expires = now + ttl }) (c.m k) h pos refl)

-- `Put` keeps the cache valid: at most `max` entries, the list and the map with the same keys.
pub put-IsValid :
    (c : Cache) (now : ℕ) (k resp : Str) (ttl : ℕ) → IsValid c → IsValid (put c now k resp ttl)
unfolding put
put-IsValid c now k resp ttl h =
    if-cases IsValid (c.max == 0 || ttl == 0) c _ (λ t. h)
      (λ t.
        (put_found-Puts c k (record { resp = resp; expires = now + ttl }) (c.m k) h
          (ground (arith, t)) refl).0)

get_hit :
    (c : Cache) (later : ℕ) (k resp : Str) (expires : ℕ)
    → 0 < c.max
    → c.m k ≡ some (record { resp = resp; expires = expires })
    → later ≤ expires
    → (get c later k).1 ≡ some resp
unfolding get get_found
get_hit c later k resp expires pos at fresh = ground arith

-- What was put is found again until it expires, whatever was pushed out for it.
pub get-put :
    (c : Cache) (now later : ℕ) (k resp : Str) (ttl : ℕ)
    → IsValid c
    → 0 < c.max
    → 0 < ttl
    → later ≤ now + ttl
    → (get (put c now k resp ttl) later k).1 ≡ some resp
get-put c now later k resp ttl h pos live fresh =
    let (valid, at, same) = put-Puts c now k resp ttl h pos live in
    get_hit (put c now k resp ttl) later k resp (now + ttl) (omega (arith, pos, same)) at fresh
