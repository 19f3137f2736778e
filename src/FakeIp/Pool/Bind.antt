-- ===== src/FakeIp/Pool/Bind.antt =====
-- The two writes of `Assign`, a new entry and a refreshed one, and the invariant.
use quic_diver.Base.{
  ℕ, ◌+◌, ◌≤◌, ◌≡◌, refl, sym, ap, ◌∙◌, none, some, arith, Option-cases, ◌⊎◌, inl, inr, ◌≢◌, if_pos,
  if_neg, Addr, v4, Addr-discrete, Str, Str-discrete, update, update_all, List, [], ◌∷◌,
}
use quic_diver.FakeIp.Pool.{Pool, Entry, alloc, store_new, bind_new, refresh, known, assign_norm}
use quic_diver.FakeIp.Pool.Alloc.{Exhausted}
use quic_diver.FakeIp.Pool.Invariant.{IsValid, IsLive, Ready}

-- The state after `Assign` bound `d` to the fake address of number `c`.
unfoldable pub bound : Pool → ℕ → Str → List Addr → ℕ → Pool
bound p now d rs c = record p {
  by_fake =
      update Addr-discrete p.by_fake (v4 c)
        (record { domain = d; real = rs; expires = now + p.ttl });
  by_domain = update Str-discrete p.by_domain d (v4 c);
  by_real = update_all Addr-discrete p.by_real rs (v4 c);
}

pub bind_new-Exhausted :
    (p : Pool) (now : ℕ) (d : Str) (rs : List Addr) (x : Exhausted p now (alloc p now))
    → bind_new p now d rs ≡ (record p { next = x.cursor }, none)
unfolding bind_new
bind_new-Exhausted p now d rs x = ap (store_new now d rs) x.result

pub bind_new-Ready :
    (p : Pool) (now : ℕ) (d : Str) (rs : List Addr) (x : Ready p now (alloc p now))
    → bind_new p now d rs ≡ (bound x.before now d rs x.cand, some (v4 x.cand))
unfolding bind_new bound
bind_new-Ready p now d rs x = ap (store_new now d rs) x.result

module _ (p : Pool) (now : ℕ) (d : Str) (rs : List Addr) (c : ℕ) (valid : IsValid p) where
  module _ (free : p.by_fake (v4 c) ≡ none) (absent : p.by_domain d ≡ none) where
    bound-named :
        (x : Str) (f : Addr)
        → (bound p now d rs c).by_domain x ≡ some f
        → (e : Entry) × ((bound p now d rs c).by_fake f ≡ some e) × (e.domain ≡ x)
    unfolding bound
    bound-named x f h = elim (Str-discrete x d) [
      | yes q ↦ (record { domain = d; real = rs; expires = now + p.ttl }, ground arith, sym q)
      | no q ↦
          let (e, at, own) = valid.named x f (ground arith) in
          let moved : f ≢ v4 c = ground arith in (e, ground arith, own)
    ]

    bound-owned :
        (f : Addr) (e : Entry)
        → (bound p now d rs c).by_fake f ≡ some e
        → (bound p now d rs c).by_domain e.domain ≡ some f
    unfolding bound
    bound-owned f e h = elim (Addr-discrete f (v4 c)) [
      | yes q ↦
          let own : e.domain ≡ d = ground arith in
          if_pos (Str-discrete e.domain d) own _ _ ∙ ground arith
      | no q ↦
          let own : p.by_domain e.domain ≡ some f = valid.owned f e (ground arith) in
          let other : e.domain ≢ d = λ same. ground (arith, ap p.by_domain same) in
          if_neg (Str-discrete e.domain d) other _ _ ∙ own
    ]

    pub bound-IsValid : p.lo ≤ c → c ≤ p.hi → IsValid (bound p now d rs c)
    unfolding bound
    bound-IsValid a b = record {
      in_pool = valid.in_pool;
      keyed = λ f e h. elim (Addr-discrete f (v4 c)) [
        | yes q ↦ (c, q, a, b)
        | no q ↦ valid.keyed f e (ground arith)
      ];
      named = bound-named;
      owned = bound-owned;
    }

module _ (p : Pool) (now : ℕ) (f : Addr) (e : Entry) (rs : List Addr) (valid : IsValid p)
    (held : p.by_fake f ≡ some e) where
  refresh-named :
      (x : Str) (g : Addr)
      → p.by_domain x ≡ some g
      → (y : Entry) × ((refresh p now f e rs).by_fake g ≡ some y) × (y.domain ≡ x)
  unfolding refresh
  refresh-named x g h =
      let (y, at, own) = valid.named x g h in
      elim (Addr-discrete g f) [
        | yes q ↦ (
          record { domain = e.domain; real = rs; expires = now + p.ttl },
          ground arith,
          ground arith,
        )
        | no q ↦ (y, ground arith, own)
      ]

  refresh-owned :
      (g : Addr) (y : Entry)
      → (refresh p now f e rs).by_fake g ≡ some y
      → p.by_domain y.domain ≡ some g
  unfolding refresh
  refresh-owned g y h = elim (Addr-discrete g f) [
    | yes q ↦
        let same : y.domain ≡ e.domain = ground arith in
        ap p.by_domain same ∙ valid.owned f e held ∙ ap some (sym q)
    | no q ↦ valid.owned g y (ground arith)
  ]

  pub refresh-IsValid : IsValid (refresh p now f e rs)
  unfolding refresh
  refresh-IsValid = record {
    in_pool = valid.in_pool;
    keyed = λ g y h. elim (Addr-discrete g f) [
      | yes q ↦ valid.keyed g e (ground arith)
      | no q ↦ valid.keyed g y (ground arith)
    ];
    named = refresh-named;
    owned = refresh-owned;
  }

pub known-some :
    (p : Pool) (d : Str) (f : Addr) (e : Entry)
    → known p d ≡ some (f, e)
    → (p.by_domain d ≡ some f) × (p.by_fake f ≡ some e)
unfolding known
known-some p d f e h = ground arith

-- In a valid pool a domain that `Assign` does not find has no fake address at all.
pub known-none : (p : Pool) (d : Str) → IsValid p → known p d ≡ none → p.by_domain d ≡ none
unfolding known
known-none p d valid h = elim (Option-cases (p.by_domain d)) [
  | inl e ↦ e
  | inr (f, e) ↦ let (y, at, own) = valid.named d f e in ground arith
]

-- The outcomes of `Assign`: the empty domain, a known one, or a new one.
pub assign_norm_cases :
    (p : Pool) (now : ℕ) (d : Str) (rs : List Addr)
    → ((d ≡ []) × (assign_norm p now d rs ≡ (p, none)))
      ⊎ ((f : Addr) × (e : Entry) × (p.by_domain d ≡ some f)
          × (p.by_fake f ≡ some e)
          × (assign_norm p now d rs ≡ (refresh p now f e rs, some f)))
      ⊎ ((known p d ≡ none) × (assign_norm p now d rs ≡ bind_new p now d rs))
unfolding assign_norm
assign_norm_cases p now [] rs = inl (refl, refl)
assign_norm_cases p now (c ∷ s) rs = elim (Option-cases (known p (c ∷ s))) [
  | inl n ↦ inr (inr (n, rw (n, assign_norm)))
  | inr ((f, e), h) ↦
      let (r, k) = known-some p (c ∷ s) f e h in inr (inl (f, e, r, k, rw (h, assign_norm)))
]

pub bound-IsLive :
    (b : Pool) (now : ℕ) (d : Str) (rs : List Addr) (c : ℕ) (g : Addr) (x : Str)
    → b.by_fake (v4 c) ≡ none
    → IsLive b now g x
    → IsLive (bound b now d rs c) now g x
unfolding bound
bound-IsLive b now d rs c g x free (e, at, own, time) =
    let other : g ≢ v4 c = ground arith in (e, ground arith, own, time)
