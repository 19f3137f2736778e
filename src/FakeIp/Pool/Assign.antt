-- ===== src/FakeIp/Pool/Assign.antt =====
-- What `Assign`, `Domain`, `Real` and `FakeOf` promise together.
use mathlib.Core.Option.{some-injective}
use quic_diver.Base.{
  ℕ, ◌+◌, ◌≤◌, ◌≡◌, refl, sym, ap, subst, ◌∙◌, Option, none, some, arith, inl, inr, ◌≢◌, ◌↔◌, Addr,
  v4, Addr-discrete, Str, delete_all, List, [], In, update_all-In,
}
use quic_diver.FakeIp.Pool.{
  Pool, Entry, bind_new, refresh, assign_norm, assign, norm_domain, domain, real, fake_of,
}
use quic_diver.FakeIp.Pool.Alloc.{Exhausted, usable}
use quic_diver.FakeIp.Pool.Invariant.{IsValid, IsLive, cursor-IsValid, alloc-Ready}
use quic_diver.FakeIp.Pool.Bind.{
  bound, bind_new-Exhausted, bind_new-Ready, bound-IsValid, bound-IsLive, refresh-IsValid,
  known-none, assign_norm_cases,
}

-- Every number of the pool carries an entry that has not expired.
abbrev pub IsFull : Pool → ℕ → Type 0
IsFull p now =
    (k : ℕ) → p.lo ≤ k → k ≤ p.hi → (e : Entry) × (p.by_fake (v4 k) ≡ some e) × (now ≤ e.expires)

-- The answer `f` for the domain `d` with real addresses `rs`: it lies in the pool; until its time
-- it leads to the domain and to the real addresses; and each of these leads back to it.
abbrev pub Answers : Pool → Pool → ℕ → Str → List Addr → Addr → Type 0
Answers p p' now d rs f =
    ((n : ℕ) × (f ≡ v4 n) × (p.lo ≤ n) × (n ≤ p.hi))
    × ((later : ℕ)
        → later ≤ now + p.ttl
        → (domain p' later f ≡ some d) × (real p' later f ≡ some rs))
    × ((r : Addr) → In r rs → fake_of p' r ≡ some f)

-- What `Assign` may answer for the normalised domain `d`.
abbrev pub Serves : Pool → ℕ → Str → List Addr → Pool × Option Addr → Type 0
Serves p now d rs (p', some f) = Answers p p' now d rs f
Serves p now d rs (p', none) = d ≢ [] → IsFull p now

bound-Answers :
    (p b : Pool) (now c : ℕ) (d : Str) (rs : List Addr)
    → p.lo ≤ c
    → c ≤ p.hi
    → b.ttl ≡ p.ttl
    → Answers p (bound b now d rs c) now d rs (v4 c)
unfolding bound domain real fake_of
bound-Answers p b now c d rs low high e = (
  (c, refl, low, high),
  (λ later h. (ground arith, ground arith)),
  λ r i. update_all-In Addr-discrete b.by_real rs (v4 c) r i,
)

refresh-Answers :
    (p : Pool) (now : ℕ) (d : Str) (rs : List Addr) (f : Addr) (e : Entry)
    → IsValid p
    → p.by_domain d ≡ some f
    → p.by_fake f ≡ some e
    → Answers p (refresh p now f e rs) now d rs f
unfolding refresh domain real fake_of
refresh-Answers p now d rs f e valid r k =
    let (x, at, own) = valid.named d f r in
    let same : e.domain ≡ d = ground arith in
    (
      valid.keyed f e k,
      (λ later h. (ground arith, ground arith)),
      λ a i. update_all-In Addr-discrete (delete_all Addr-discrete p.by_real e.real) rs f a i,
    )

Exhausted-IsFull : (p : Pool) (now : ℕ) {r : Pool × Option Addr} → Exhausted p now r → IsFull p now
unfolding usable
Exhausted-IsFull p now x k a b = ground (arith, x.full k a b)

module _ (p : Pool) (now : ℕ) (d : Str) (rs : List Addr) (valid : IsValid p) where
  bind_new-Serves : Serves p now d rs (bind_new p now d rs)
  bind_new-Serves = elim (alloc-Ready p now valid) [
    | inl x ↦ rw (bind_new-Exhausted p now d rs x) (λ _. Exhausted-IsFull p now x)
    | inr x ↦
        rw (bind_new-Ready p now d rs x)
          (bound-Answers p x.before now x.cand d rs x.low x.high x.bounds.2)
  ]

  assign_norm-Serves : Serves p now d rs (assign_norm p now d rs)
  assign_norm-Serves = elim (assign_norm_cases p now d rs) [
    | inl (empty, q) ↦ rw q (λ other. absurd (other empty))
    | inr (inl (f, e, r, k, q)) ↦ rw q (refresh-Answers p now d rs f e valid r k)
    | inr (inr (n, q)) ↦ rw q bind_new-Serves
  ]

  bind_new-IsValid : p.by_domain d ≡ none → IsValid (bind_new p now d rs).0
  bind_new-IsValid absent = elim (alloc-Ready p now valid) [
    | inl x ↦ rw (bind_new-Exhausted p now d rs x) (cursor-IsValid p x.cursor valid x.in_pool)
    | inr x ↦ rw (bind_new-Ready p now d rs x) (
        bound-IsValid x.before now d rs x.cand x.valid x.free (x.absent d absent)
          (rw x.bounds.0 x.low) (rw x.bounds.1 x.high))
  ]

  assign_norm-IsValid : IsValid (assign_norm p now d rs).0
  assign_norm-IsValid = elim (assign_norm_cases p now d rs) [
    | inl (empty, q) ↦ rw q valid
    | inr (inl (f, e, r, k, q)) ↦ rw q (refresh-IsValid p now f e rs valid k)
    | inr (inr (n, q)) ↦ rw q (bind_new-IsValid (known-none p d valid n))
  ]

  module _ (g : Addr) (x : Str) (live : IsLive p now g x) where
    refresh-IsLive :
        (f : Addr) (e : Entry) → p.by_fake f ≡ some e → IsLive (refresh p now f e rs) now g x
    unfolding refresh
    refresh-IsLive f e held =
        let (y, at, own, time) = live in
        elim (Addr-discrete g f) [
          | yes q ↦ (
            record { domain = e.domain; real = rs; expires = now + p.ttl },
            ground arith,
            ground arith,
            omega arith,
          )
          | no q ↦ (y, ground arith, own, time)
        ]

    bind_new-IsLive : IsLive (bind_new p now d rs).0 now g x
    bind_new-IsLive = elim (alloc-Ready p now valid) [
      | inl z ↦ rw (bind_new-Exhausted p now d rs z) live
      | inr z ↦
          rw (bind_new-Ready p now d rs z)
            (bound-IsLive z.before now d rs z.cand g x z.free (z.keeps g x live))
    ]

    assign_norm-IsLive : IsLive (assign_norm p now d rs).0 now g x
    assign_norm-IsLive = elim (assign_norm_cases p now d rs) [
      | inl (empty, q) ↦ rw q live
      | inr (inl (f, e, r, k, q)) ↦ rw q (refresh-IsLive f e k)
      | inr (inr (n, q)) ↦ rw q bind_new-IsLive
    ]

-- `Assign` keeps the pool valid on every path: domains and fake addresses stay in one-to-one
-- correspondence, inside the pool.
pub assign-IsValid :
    (p : Pool) (now : ℕ) (name : Str) (rs : List Addr)
    → IsValid p
    → IsValid (assign p now name rs).0
unfolding assign
assign-IsValid p now name rs valid = assign_norm-IsValid p now (norm_domain name) rs valid

-- `Assign` answers with an address of the pool that leads, for the whole lifetime, to the
-- normalised domain and to exactly the given real addresses, each of which leads back to it; or
-- with nothing, and for a domain that is not empty only when every number of the pool carries an
-- entry that has not expired.
pub assign-Serves :
    (p : Pool) (now : ℕ) (name : Str) (rs : List Addr)
    → IsValid p
    → Serves p now (norm_domain name) rs (assign p now name rs)
unfolding assign
assign-Serves p now name rs valid = assign_norm-Serves p now (norm_domain name) rs valid

-- An entry that has not expired keeps its address and its domain under every call of `Assign`.
pub assign-IsLive :
    (p : Pool) (now : ℕ) (name : Str) (rs : List Addr) (g : Addr) (d : Str)
    → IsValid p
    → IsLive p now g d
    → IsLive (assign p now name rs).0 now g d
unfolding assign
assign-IsLive p now name rs g d valid live =
    assign_norm-IsLive p now (norm_domain name) rs valid g d live

Serves-domain :
    (p : Pool) (now : ℕ) (d : Str) (rs : List Addr) (g : Addr) (r : Pool × Option Addr)
    → Serves p now d rs r
    → r.1 ≡ some g
    → domain r.0 now g ≡ some d
Serves-domain p now d rs g (p', none) s h = cc
Serves-domain p now d rs g (p', some f) s h =
    subst (λ (a : Addr). domain p' now a ≡ some d) (some-injective _ _ h) (s.1 now (omega arith)).0

IsLive-domain :
    (p : Pool) (now : ℕ) (g : Addr) (d : Str) → IsLive p now g d → domain p now g ≡ some d
unfolding domain
IsLive-domain p now g d (e, at, own, time) = ground arith

module _ (p : Pool) (now : ℕ) (name : Str) (rs : List Addr) (g : Addr) (d : Str) (valid : IsValid p)
    (live : IsLive p now g d) where
  only_same : (assign p now name rs).1 ≡ some g → norm_domain name ≡ d
  only_same h = some-injective _ _ (
      sym (
        Serves-domain p now (norm_domain name) rs g (assign p now name rs)
          (assign-Serves p now name rs valid) h)
      ∙ IsLive-domain (assign p now name rs).0 now g d (assign-IsLive p now name rs g d valid live))

  same_again : norm_domain name ≢ [] → norm_domain name ≡ d → (assign p now name rs).1 ≡ some g
  unfolding assign
  same_again h same =
      let (e, at, own, time) = live in
      let here : p.by_domain (norm_domain name) ≡ some g =
        ap p.by_domain (same ∙ sym own) ∙ valid.owned g e at in
      elim (assign_norm_cases p now (norm_domain name) rs) [
        | inl (empty, q) ↦ absurd (h empty)
        | inr (inl (f, x, r, k, q)) ↦ rw q (sym r ∙ here)
        | inr (inr (n, q)) ↦ absurd (ground (arith, known-none p (norm_domain name) valid n))
      ]

-- A domain whose entry has not expired gets the same fake address again, and no other domain does.
pub assign_same_iff :
    (p : Pool) (now : ℕ) (name : Str) (rs : List Addr) (g : Addr) (d : Str)
    → IsValid p
    → IsLive p now g d
    → norm_domain name ≢ []
    → ((assign p now name rs).1 ≡ some g) ↔ (norm_domain name ≡ d)
assign_same_iff p now name rs g d valid live h =
    (only_same p now name rs g d valid live, same_again p now name rs g d valid live h)
