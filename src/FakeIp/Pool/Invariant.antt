-- ===== src/FakeIp/Pool/Invariant.antt =====
-- The invariant of the pool: domains and fake addresses correspond one to one, inside the pool.
use quic_diver.Base.{
  ℕ, ◌≤◌, ◌<◌, ◌≡◌, refl, ap, ◌∙◌, Option, none, some, arith, ◌⊎◌, inl, inr, ◌≢◌, if_pos, if_neg,
  Addr, v4, Addr-discrete, Str, Str-discrete,
}
use quic_diver.Ring.{InPool}
use quic_diver.FakeIp.Pool.{Pool, Entry, release, alloc}
use quic_diver.FakeIp.Pool.Alloc.{Exhausted, alloc_cases}

pub record IsValid (p : Pool) : Type 0 where
  pub in_pool : InPool p.lo p.hi p.next
  pub keyed :
      (f : Addr) (e : Entry) → p.by_fake f ≡ some e → (n : ℕ) × (f ≡ v4 n) × (p.lo ≤ n) × (n ≤ p.hi)
  pub named :
      (d : Str) (f : Addr)
      → p.by_domain d ≡ some f
      → (e : Entry) × (p.by_fake f ≡ some e) × (e.domain ≡ d)
  pub owned : (f : Addr) (e : Entry) → p.by_fake f ≡ some e → p.by_domain e.domain ≡ some f

-- An entry is live until its time has passed.
abbrev pub IsLive : Pool → ℕ → Addr → Str → Type 0
IsLive p now f d = (e : Entry) × (p.by_fake f ≡ some e) × (e.domain ≡ d) × (now ≤ e.expires)

pub cursor-IsValid :
    (p : Pool) (n : ℕ) → IsValid p → InPool p.lo p.hi n → IsValid (record p { next = n })
cursor-IsValid p n valid q = record {
  in_pool = q;
  keyed = valid.keyed;
  named = valid.named;
  owned = valid.owned;
}

module _ (p : Pool) (c : Addr) (old : Entry) (valid : IsValid p)
    (held : p.by_fake c ≡ some old) where
  release-named :
      (d : Str) (f : Addr)
      → (release p c old).by_domain d ≡ some f
      → (e : Entry) × ((release p c old).by_fake f ≡ some e) × (e.domain ≡ d)
  unfolding release
  release-named d f h =
      let (e, at, own) = valid.named d f (ground arith) in
      let other : d ≢ old.domain = ground arith in
      let moved : f ≢ c = λ q. other (ground arith) in (e, ground arith, own)

  release-owned :
      (f : Addr) (e : Entry)
      → (release p c old).by_fake f ≡ some e
      → (release p c old).by_domain e.domain ≡ some f
  unfolding release
  release-owned f e h =
      let at : p.by_fake f ≡ some e = ground arith in
      let moved : f ≢ c = ground arith in
      let other : e.domain ≢ old.domain =
        λ q. moved (ground (arith, valid.owned f e at, valid.owned c old held, ap p.by_domain q)) in
      if_neg (Str-discrete e.domain old.domain) other _ _ ∙ valid.owned f e at

  release-IsValid : IsValid (release p c old)
  unfolding release
  release-IsValid = record {
    in_pool = valid.in_pool;
    keyed = λ f e h. valid.keyed f e (ground arith);
    named = release-named;
    owned = release-owned;
  }

release-free : (p : Pool) (c : Addr) (old : Entry) → (release p c old).by_fake c ≡ none
unfolding release
release-free p c old = if_pos (Addr-discrete c c) refl _ _

release-IsLive :
    (p : Pool) (now : ℕ) (c : Addr) (old : Entry)
    → p.by_fake c ≡ some old
    → old.expires < now
    → (f : Addr) (d : Str) → IsLive p now f d
    → IsLive (release p c old) now f d
unfolding release
release-IsLive p now c old held gone f d (e, at, own, time) = (e, ground arith, own, time)

release-absent :
    (p : Pool) (c : Addr) (old : Entry) (d : Str)
    → p.by_domain d ≡ none
    → (release p c old).by_domain d ≡ none
unfolding release
release-absent p c old d h = ground arith

-- What `alloc` leaves behind, ready for the new entry.
pub record Ready (p : Pool) (now : ℕ) (r : Pool × Option Addr) : Type 0 where
  pub before : Pool
  pub cand : ℕ
  pub valid : IsValid before
  pub free : before.by_fake (v4 cand) ≡ none
  pub low : p.lo ≤ cand
  pub high : cand ≤ p.hi
  pub bounds : (before.lo ≡ p.lo) × (before.hi ≡ p.hi) × (before.ttl ≡ p.ttl)
  pub keeps : (f : Addr) (d : Str) → IsLive p now f d → IsLive before now f d
  pub absent : (d : Str) → p.by_domain d ≡ none → before.by_domain d ≡ none
  pub result : r ≡ (before, some (v4 cand))

pub alloc-Ready :
    (p : Pool) (now : ℕ) → IsValid p → Exhausted p now (alloc p now) ⊎ Ready p now (alloc p now)
alloc-Ready p now valid = elim (alloc_cases p now valid.in_pool) [
  | inl x ↦ inl x
  | inr (inl x) ↦ inr (record {
    before = record p { next = x.cursor };
    cand = x.cand;
    valid = cursor-IsValid p x.cursor valid x.in_pool;
    free = x.free;
    low = x.low;
    high = x.high;
    bounds = (refl, refl, refl);
    keeps = λ f d live. live;
    absent = λ d h. h;
    result = x.result;
  })
  | inr (inr x) ↦
      let moved : Pool = record p { next = x.cursor } in
      inr (record {
        before = release moved (v4 x.cand) x.old;
        cand = x.cand;
        valid =
            release-IsValid moved (v4 x.cand) x.old (cursor-IsValid p x.cursor valid x.in_pool)
              x.held;
        free = release-free moved (v4 x.cand) x.old;
        low = x.low;
        high = x.high;
        bounds = unfold release in (refl, refl, refl);
        keeps = release-IsLive moved now (v4 x.cand) x.old x.held x.expired;
        absent = release-absent moved (v4 x.cand) x.old;
        result = x.result;
      })
]
