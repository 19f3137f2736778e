-- ===== src/Nat46/Table/Mapping.antt =====
-- What `Map` and `Lookup` promise together.
use quic_diver.Base.{
  ℕ, ◌+◌, ◌≤◌, ◌≡◌, refl, true, false, Option, none, some, arith, inl, inr, ◌≢◌, Addr, v4,
  Addr-discrete, is6, is4in6, not, ◌||◌,
}
use quic_diver.Nat46.Table.{Table, Entry, lookup, bind_new, map_addr}
use quic_diver.Nat46.Table.Alloc.{Exhausted, usable}
use quic_diver.Nat46.Table.Invariant.{
  IsValid, IsLive, bound, renewed, alloc-Ready, bind_new-Exhausted, bind_new-Ready, map_addr_cases,
}

-- An IPv6 address that `Map` serves.
abbrev pub IsMappable : Addr → Type 0
IsMappable v = (is6 v ≡ true) × (is4in6 v ≡ false)

-- A fresh answer: the fake address lies in the pool and is read back as `v` until its time.
abbrev pub Answers : Table → Table → ℕ → Addr → Addr → Type 0
Answers t t' now v f =
    ((n : ℕ) × (f ≡ v4 n) × (t.lo ≤ n) × (n ≤ t.hi))
    × ((later : ℕ) → later ≤ now + t.ttl → lookup t' later f ≡ some v)

bound-Answers :
    (t b : Table) (now c : ℕ) (v : Addr)
    → t.lo ≤ c
    → c ≤ t.hi
    → b.ttl ≡ t.ttl
    → Answers t (bound b now v c) now v (v4 c)
unfolding bound lookup
bound-Answers t b now c v low high e = ((c, refl, low, high), λ later h. ground arith)

renewed-Answers :
    (t : Table) (now : ℕ) (v f : Addr) (e : Entry)
    → IsValid t
    → t.by_real v ≡ some f
    → t.by_fake f ≡ some e
    → Answers t (renewed t now f e) now v f
unfolding renewed lookup
renewed-Answers t now v f e valid r k =
    let (x, at, real) = valid.linked v f r in (valid.keyed f e k, λ later h. ground arith)

-- Every number of the pool carries a mapping that has not expired.
abbrev pub IsFull : Table → ℕ → Type 0
IsFull t now =
    (k : ℕ) → t.lo ≤ k → k ≤ t.hi → (e : Entry) × (t.by_fake (v4 k) ≡ some e) × (now ≤ e.expires)

-- What `Map` may answer for `v`.
abbrev pub Serves : Table → ℕ → Addr → Table × Option Addr → Type 0
Serves t now v (t', some f) = Answers t t' now v f
Serves t now v (t', none) = IsMappable v → IsFull t now

Exhausted-IsFull :
    (t : Table) (now : ℕ) {r : Table × Option Addr} → Exhausted t now r → IsFull t now
unfolding usable
Exhausted-IsFull t now x k a b = ground (arith, x.full k a b)

bind_new-Serves : (t : Table) (now : ℕ) (v : Addr) → IsValid t → Serves t now v (bind_new t now v)
bind_new-Serves t now v valid = elim (alloc-Ready t now valid) [
  | inl x ↦ rw (bind_new-Exhausted t now v x) (λ _. Exhausted-IsFull t now x)
  | inr x ↦
      rw (bind_new-Ready t now v x) (bound-Answers t x.before now x.cand v x.low x.high x.bounds.2)
]

refused-not-IsMappable :
    (t : Table) (now : ℕ) (v : Addr) → (not (is6 v) || is4in6 v) ≡ true → ¬ IsMappable v
refused-not-IsMappable t now v h m = ground arith

-- `Map` gives out an address of the pool that `Lookup` turns back into the IPv6 address until the
-- lifetime is over, or nothing; and nothing for a proper IPv6 address only when every number of
-- the pool carries a mapping that has not expired.
pub map_addr-Serves :
    (t : Table) (now : ℕ) (v : Addr) → IsValid t → Serves t now v (map_addr t now v)
map_addr-Serves t now v valid = elim (map_addr_cases t now v) [
  | inl (bad, e) ↦ rw e (λ m. absurd (refused-not-IsMappable t now v bad m))
  | inr (inl (f, e, r, k, l, q)) ↦ rw q (renewed-Answers t now v f e valid r k)
  | inr (inr (n, q)) ↦ rw q (bind_new-Serves t now v valid)
]

bound-IsLive :
    (b : Table) (now c : ℕ) (v w f : Addr)
    → b.by_fake (v4 c) ≡ none
    → IsLive b now f w
    → IsLive (bound b now v c) now f w
unfolding bound
bound-IsLive b now c v w f free (e, at, real, time) =
    let other : f ≢ v4 c = ground arith in (e, ground arith, real, time)

renewed-IsLive :
    (t : Table) (now : ℕ) (g f w : Addr) (e : Entry)
    → t.by_fake g ≡ some e
    → IsLive t now f w
    → IsLive (renewed t now g e) now f w
unfolding renewed
renewed-IsLive t now g f w e held (x, at, real, time) = elim (Addr-discrete f g) [
  | yes q ↦
      (record { real = e.real; expires = now + t.ttl }, ground arith, ground arith, omega arith)
  | no q ↦ (x, ground arith, real, time)
]

bind_new-IsLive :
    (t : Table) (now : ℕ) (v w f : Addr)
    → IsValid t
    → IsLive t now f w
    → IsLive (bind_new t now v).0 now f w
bind_new-IsLive t now v w f valid live = elim (alloc-Ready t now valid) [
  | inl x ↦ rw (bind_new-Exhausted t now v x) live
  | inr x ↦
      rw (bind_new-Ready t now v x)
        (bound-IsLive x.before now x.cand v w f x.free (x.keeps f w live))
]

-- A mapping that has not expired survives every call of `Map`, for whatever address: a connection
-- opened through its fake address is never redirected to another host.
pub map_addr-IsLive :
    (t : Table) (now : ℕ) (v w f : Addr)
    → IsValid t
    → IsLive t now f w
    → IsLive (map_addr t now v).0 now f w
map_addr-IsLive t now v w f valid live = elim (map_addr_cases t now v) [
  | inl (bad, e) ↦ rw e live
  | inr (inl (g, e, r, k, l, q)) ↦ rw q (renewed-IsLive t now g f w e k live)
  | inr (inr (n, q)) ↦ rw q (bind_new-IsLive t now v w f valid live)
]
