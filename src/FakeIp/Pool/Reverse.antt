-- ===== src/FakeIp/Pool/Reverse.antt =====
-- The way back from a real address, when two domains share it.
use mathlib.Core.Option.{some-injective}
use quic_diver.Base.{
  ℕ, ◌≤◌, ◌≡◌, sym, ap, ◌∙◌, none, some, arith, inl, inr, ◌≢◌, Addr, Addr-discrete, Str, delete_all,
  List, [], In, update_all_out, delete_all-In,
}
use quic_diver.FakeIp.Pool.{Pool, Entry, refresh, assign, norm_domain, fake_of}
use quic_diver.FakeIp.Pool.Invariant.{IsValid}
use quic_diver.FakeIp.Pool.Bind.{known-none, assign_norm_cases}

-- Two domains behind one real address `r`: the domain named is at `f`, the other one at `g`, live,
-- and the way back from `r` leads to the other.
pub record Shared (p : Pool) (now : ℕ) (name : Str) (r : Addr) (f g : Addr) (mine other : Entry)
    : Type 0 where
  pub valid : IsValid p
  pub proper : norm_domain name ≢ []
  pub found : p.by_domain (norm_domain name) ≡ some f
  pub held : p.by_fake f ≡ some mine
  pub shared : In r mine.real
  pub apart : g ≢ f
  pub beside : p.by_fake g ≡ some other
  pub live : now ≤ other.expires
  pub theirs : In r other.real
  pub back : fake_of p r ≡ some g

module _ (p : Pool) (now : ℕ) (name : Str) (r f g : Addr) (mine other : Entry)
    (rs : List Addr) where
  refresh-Shared :
      Shared p now name r f g mine other → (assign p now name rs).0 ≡ refresh p now f mine rs
  unfolding assign
  refresh-Shared s = elim (assign_norm_cases p now (norm_domain name) rs) [
    | inl (empty, q) ↦ absurd (s.proper empty)
    | inr (inl (x, e, a, k, q)) ↦
        let same : f ≡ x = some-injective _ _ (sym s.found ∙ a) in
        let entry : mine ≡ e = some-injective _ _ (sym s.held ∙ ap p.by_fake same ∙ k) in
        rw (q, same, entry)
    | inr (inr (n, q)) ↦ absurd (ground (arith, known-none p (norm_domain name) s.valid n, s.found))
  ]

  -- When a domain is refreshed with addresses that no longer include one that it shared, the way
  -- back from that address is gone, although another live domain still has it.
  pub Shared-forgotten :
      Shared p now name r f g mine other
      → ¬ In r rs
      → (fake_of (assign p now name rs).0 r ≡ none)
        × ((assign p now name rs).0.by_fake g ≡ some other)
  unfolding fake_of refresh
  Shared-forgotten s out = rw (refresh-Shared s) (
    update_all_out Addr-discrete (delete_all Addr-discrete p.by_real mine.real) rs f r out
        ∙ delete_all-In Addr-discrete p.by_real mine.real r s.shared,
    ground (arith, s.apart, s.beside),
  )
