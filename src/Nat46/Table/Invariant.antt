-- ===== src/Nat46/Table/Invariant.antt =====
-- The invariant of the table: every fake address lies in the pool, and every IPv6 address that the
-- table remembers leads to the mapping that holds it.
use quic_diver.Base.{
  ℕ, ◌+◌, ◌≤◌, ◌<◌, ◌≡◌, refl, sym, ap, true, Option, none, some, arith, Option-cases, Bool-cases,
  ◌⊎◌, inl, inr, ◌≢◌, if_pos, Addr, v4, Addr-discrete, update, is6, is4in6, not, ◌||◌,
}
use quic_diver.Ring.{InPool}
use quic_diver.Nat46.Table.{
  Table, Entry, release, alloc, store_new, bind_new, live_mapping, map_addr,
}
use quic_diver.Nat46.Table.Alloc.{Exhausted, alloc_cases}

pub record IsValid (t : Table) : Type 0 where
  pub in_pool : InPool t.lo t.hi t.next
  pub keyed :
      (f : Addr) (e : Entry) → t.by_fake f ≡ some e → (n : ℕ) × (f ≡ v4 n) × (t.lo ≤ n) × (n ≤ t.hi)
  pub linked :
      (v f : Addr) → t.by_real v ≡ some f → (e : Entry) × (t.by_fake f ≡ some e) × (e.real ≡ v)

-- A mapping is live until its time has passed.
abbrev pub IsLive : Table → ℕ → Addr → Addr → Type 0
IsLive t now f v = (e : Entry) × (t.by_fake f ≡ some e) × (e.real ≡ v) × (now ≤ e.expires)

-- The state after `Map` bound `v` to the fake address of number `c`.
unfoldable pub bound : Table → ℕ → Addr → ℕ → Table
bound t now v c = record t {
  by_fake = update Addr-discrete t.by_fake (v4 c) (record { real = v; expires = now + t.ttl });
  by_real = update Addr-discrete t.by_real v (v4 c);
}

cursor-IsValid :
    (t : Table) (n : ℕ) → IsValid t → InPool t.lo t.hi n → IsValid (record t { next = n })
cursor-IsValid t n valid p = record { in_pool = p; keyed = valid.keyed; linked = valid.linked }

release_linked :
    (t : Table) (c : Addr) (old : Entry)
    → IsValid t
    → t.by_fake c ≡ some old
    → (v f : Addr) → (release t c old).by_real v ≡ some f
    → (e : Entry) × ((release t c old).by_fake f ≡ some e) × (e.real ≡ v)
unfolding release
release_linked t c old valid held v f h =
    let (e, at, real) = valid.linked v f (ground arith) in
    let other : v ≢ old.real = ground arith in
    let moved : f ≢ c = λ q. other (ground arith) in (e, ground arith, real)

release-IsValid :
    (t : Table) (c : Addr) (old : Entry)
    → IsValid t
    → t.by_fake c ≡ some old
    → IsValid (release t c old)
unfolding release
release-IsValid t c old valid held = record {
  in_pool = valid.in_pool;
  keyed = λ f e h. valid.keyed f e (ground arith);
  linked = unfold release in release_linked t c old valid held;
}

pub release-free : (t : Table) (c : Addr) (old : Entry) → (release t c old).by_fake c ≡ none
unfolding release
release-free t c old = if_pos (Addr-discrete c c) refl _ _

module _ (t : Table) (now : ℕ) (v : Addr) (valid : IsValid t) (c : ℕ)
    (free : t.by_fake (v4 c) ≡ none) where
  bound-linked :
      (w f : Addr)
      → (bound t now v c).by_real w ≡ some f
      → (e : Entry) × ((bound t now v c).by_fake f ≡ some e) × (e.real ≡ w)
  unfolding bound
  bound-linked w f h = elim (Addr-discrete w v) [
    | yes q ↦ (record { real = v; expires = now + t.ttl }, ground arith, sym q)
    | no q ↦
        let (e, at, real) = valid.linked w f (ground arith) in
        let moved : f ≢ v4 c = ground arith in (e, ground arith, real)
  ]

  bound-IsValid : t.lo ≤ c → c ≤ t.hi → IsValid (bound t now v c)
  unfolding bound
  bound-IsValid a b = record {
    in_pool = valid.in_pool;
    keyed = λ f e h. elim (Addr-discrete f (v4 c)) [
      | yes q ↦ (c, q, a, b)
      | no q ↦ valid.keyed f e (ground arith)
    ];
    linked = bound-linked;
  }

release-IsLive :
    (t : Table) (now : ℕ) (c : Addr) (old : Entry)
    → t.by_fake c ≡ some old
    → old.expires < now
    → (f w : Addr) → IsLive t now f w
    → IsLive (release t c old) now f w
unfolding release
release-IsLive t now c old held gone f w (e, at, real, time) = (e, ground arith, real, time)

-- What `alloc` leaves behind, ready for the new mapping.
pub record Ready (t : Table) (now : ℕ) (r : Table × Option Addr) : Type 0 where
  pub before : Table
  pub cand : ℕ
  pub valid : IsValid before
  pub free : before.by_fake (v4 cand) ≡ none
  pub low : t.lo ≤ cand
  pub high : cand ≤ t.hi
  pub bounds : (before.lo ≡ t.lo) × (before.hi ≡ t.hi) × (before.ttl ≡ t.ttl)
  pub keeps : (f w : Addr) → IsLive t now f w → IsLive before now f w
  pub result : r ≡ (before, some (v4 cand))

pub alloc-Ready :
    (t : Table) (now : ℕ) → IsValid t → Exhausted t now (alloc t now) ⊎ Ready t now (alloc t now)
alloc-Ready t now valid = elim (alloc_cases t now valid.in_pool) [
  | inl x ↦ inl x
  | inr (inl x) ↦ inr (record {
    before = record t { next = x.cursor };
    cand = x.cand;
    valid = cursor-IsValid t x.cursor valid x.in_pool;
    free = x.free;
    low = x.low;
    high = x.high;
    bounds = (refl, refl, refl);
    keeps = λ f w live. live;
    result = x.result;
  })
  | inr (inr x) ↦
      let moved = cursor-IsValid t x.cursor valid x.in_pool in
      inr (record {
        before = release (record t { next = x.cursor }) (v4 x.cand) x.old;
        cand = x.cand;
        valid = release-IsValid _ (v4 x.cand) x.old moved x.held;
        free = release-free (record t { next = x.cursor }) (v4 x.cand) x.old;
        low = x.low;
        high = x.high;
        bounds = unfold release in (refl, refl, refl);
        keeps =
            release-IsLive (record t { next = x.cursor }) now (v4 x.cand) x.old x.held x.expired;
        result = x.result;
      })
]

-- `Map` without a live mapping: nothing is stored if the pool is exhausted, else `v` is bound.
pub bind_new-Exhausted :
    (t : Table) (now : ℕ) (v : Addr) (x : Exhausted t now (alloc t now))
    → bind_new t now v ≡ (record t { next = x.cursor }, none)
unfolding bind_new
bind_new-Exhausted t now v x = ap (store_new now v) x.result

pub bind_new-Ready :
    (t : Table) (now : ℕ) (v : Addr) (x : Ready t now (alloc t now))
    → bind_new t now v ≡ (bound x.before now v x.cand, some (v4 x.cand))
unfolding bind_new bound
bind_new-Ready t now v x = ap (store_new now v) x.result

bind_new-IsValid : (t : Table) (now : ℕ) (v : Addr) → IsValid t → IsValid (bind_new t now v).0
bind_new-IsValid t now v valid = elim (alloc-Ready t now valid) [
  | inl x ↦ rw (bind_new-Exhausted t now v x) (cursor-IsValid t x.cursor valid x.in_pool)
  | inr x ↦ rw (bind_new-Ready t now v x) (
      bound-IsValid x.before now v x.valid x.cand x.free (rw x.bounds.0 x.low)
        (rw x.bounds.1 x.high))
]

-- Renewing changes only the time of a mapping that is there.
unfoldable pub renewed : Table → ℕ → Addr → Entry → Table
renewed t now f e = record t {
  by_fake = update Addr-discrete t.by_fake f (record { real = e.real; expires = now + t.ttl });
}

module _ (t : Table) (now : ℕ) (f : Addr) (e : Entry) (valid : IsValid t)
    (held : t.by_fake f ≡ some e) where
  renewed-linked :
      (w g : Addr)
      → t.by_real w ≡ some g
      → (x : Entry) × ((renewed t now f e).by_fake g ≡ some x) × (x.real ≡ w)
  unfolding renewed
  renewed-linked w g h =
      let (x, at, real) = valid.linked w g h in
      elim (Addr-discrete g f) [
        | yes q ↦ (record { real = e.real; expires = now + t.ttl }, ground arith, ground arith)
        | no q ↦ (x, ground arith, real)
      ]

  renewed-IsValid : IsValid (renewed t now f e)
  unfolding renewed
  renewed-IsValid = record {
    in_pool = valid.in_pool;
    keyed = λ g x h. elim (Addr-discrete g f) [
      | yes q ↦ valid.keyed g e (ground arith)
      | no q ↦ valid.keyed g x (ground arith)
    ];
    linked = renewed-linked;
  }

-- The live mapping that `Map` finds.
pub live_mapping-some :
    (t : Table) (now : ℕ) (v f : Addr) (e : Entry)
    → live_mapping t now v ≡ some (f, e)
    → (t.by_real v ≡ some f) × (t.by_fake f ≡ some e) × (now < e.expires)
unfolding live_mapping
live_mapping-some t now v f e h = ground arith

-- The outcomes of `Map`: refused, renewed, or a new binding.
pub map_addr_cases :
    (t : Table) (now : ℕ) (v : Addr)
    → ((not (is6 v) || is4in6 v) ≡ true) × (map_addr t now v ≡ (t, none))
      ⊎ ((f : Addr) × (e : Entry) × (t.by_real v ≡ some f)
          × (t.by_fake f ≡ some e)
          × (now < e.expires)
          × (map_addr t now v ≡ (renewed t now f e, some f)))
      ⊎ ((live_mapping t now v ≡ none) × (map_addr t now v ≡ bind_new t now v))
unfolding map_addr renewed
map_addr_cases t now v = elim (Bool-cases (not (is6 v) || is4in6 v)) [
  | inl bad ↦ inl (bad, rw (bad, map_addr))
  | inr good ↦ elim (Option-cases (live_mapping t now v)) [
    | inl n ↦ inr (inr (n, rw (good, n, map_addr)))
    | inr ((f, e), h) ↦
        let (r, k, l) = live_mapping-some t now v f e h in
        inr (inl (f, e, r, k, l, rw (good, h, map_addr)))
  ]
]

-- `Map` keeps the table valid, on every path: refused, renewed, newly bound or out of addresses.
pub map_addr-IsValid : (t : Table) (now : ℕ) (v : Addr) → IsValid t → IsValid (map_addr t now v).0
map_addr-IsValid t now v valid = elim (map_addr_cases t now v) [
  | inl (bad, e) ↦ rw e valid
  | inr (inl (f, e, r, k, l, q)) ↦ rw q (renewed-IsValid t now f e valid k)
  | inr (inr (n, q)) ↦ rw q (bind_new-IsValid t now v valid)
]
