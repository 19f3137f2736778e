-- ===== src/FakeIp/Pool/Alloc.antt =====
-- The loop of `alloc` against the search of `Ring`.
use quic_diver.Base.{
  ℕ, zero, suc, ◌+◌, ◌-◌, ◌≤◌, ◌<◌, ◌≡◌, refl, Bool, true, false, Option, none, some, ltb, arith,
  Option-cases, ◌⊎◌, inl, inr, ltb→lt, Addr, v4,
}
use quic_diver.Ring.{advance, scan, InPool, scan-InPool, scan-some, scan-none}
use quic_diver.FakeIp.Pool.{Pool, Entry, release, alloc_loop, alloc}

-- A number is usable if no mapping holds it, or an expired one.
unfoldable pub usable : Pool → ℕ → ℕ → Bool
usable p now n = elim (p.by_fake (v4 n)) [ none ↦ true | some e ↦ ltb e.expires now ]

-- What `alloc` does with the outcome of the search.
pub take_found : Pool → ℕ × Option ℕ → Pool × Option Addr
take_found p (n, none) = (record p { next = n }, none)
take_found p (n, some c) = elim (p.by_fake (v4 c)) [
  | none ↦ (record p { next = n }, some (v4 c))
  | some e ↦ (release (record p { next = n }) (v4 c) e, some (v4 c))
]

alloc_loop-scan :
    (fuel : ℕ) (p : Pool) (now : ℕ)
    → alloc_loop fuel p now ≡ take_found p (scan (usable p now) p.lo p.hi fuel p.next)
unfolding alloc_loop scan take_found usable
alloc_loop-scan zero p now = refl
alloc_loop-scan (suc fuel) p now =
    ground (arith, alloc_loop-scan fuel (record p { next = advance p.lo p.hi p.next }) now)

pub alloc-scan :
    (p : Pool) (now : ℕ)
    → alloc p now ≡ take_found p (scan (usable p now) p.lo p.hi (p.hi - p.lo + 1) p.next)
unfolding alloc
alloc-scan p now = alloc_loop-scan (p.hi - p.lo + 1) p now

-- The three outcomes of `alloc`: the pool is full of live mappings, a number that no mapping holds,
-- or one whose mapping has expired and is dropped.
pub record Exhausted (p : Pool) (now : ℕ) (r : Pool × Option Addr) : Type 0 where
  pub cursor : ℕ
  pub in_pool : InPool p.lo p.hi cursor
  pub result : r ≡ (record p { next = cursor }, none)
  pub full : (k : ℕ) → p.lo ≤ k → k ≤ p.hi → usable p now k ≡ false

pub record Fresh (p : Pool) (r : Pool × Option Addr) : Type 0 where
  pub cursor : ℕ
  pub cand : ℕ
  pub in_pool : InPool p.lo p.hi cursor
  pub low : p.lo ≤ cand
  pub high : cand ≤ p.hi
  pub free : p.by_fake (v4 cand) ≡ none
  pub result : r ≡ (record p { next = cursor }, some (v4 cand))

pub record Reused (p : Pool) (now : ℕ) (r : Pool × Option Addr) : Type 0 where
  pub cursor : ℕ
  pub cand : ℕ
  pub old : Entry
  pub in_pool : InPool p.lo p.hi cursor
  pub low : p.lo ≤ cand
  pub high : cand ≤ p.hi
  pub held : p.by_fake (v4 cand) ≡ some old
  pub expired : old.expires < now
  pub result : r ≡ (release (record p { next = cursor }) (v4 cand) old, some (v4 cand))

take_found_cases :
    (p : Pool) (now n : ℕ) (o : Option ℕ)
    → InPool p.lo p.hi n
    → ((c : ℕ) → o ≡ some c → (usable p now c ≡ true) × (p.lo ≤ c) × (c ≤ p.hi))
    → (o ≡ none → (k : ℕ) → p.lo ≤ k → k ≤ p.hi → usable p now k ≡ false)
    → Exhausted p now (take_found p (n, o))
      ⊎ Fresh p (take_found p (n, o))
      ⊎ Reused p now (take_found p (n, o))
unfolding take_found usable
take_found_cases p now n none q hit miss =
    inl (record { cursor = n; in_pool = q; result = refl; full = miss refl })
take_found_cases p now n (some c) q hit miss = elim (Option-cases (p.by_fake (v4 c))) [
  | inl e ↦ inr (
      inl (record {
        cursor = n;
        cand = c;
        in_pool = q;
        low = (hit c refl).1;
        high = (hit c refl).2;
        free = e;
        result = rw (e, take_found);
      }))
  | inr (e, h) ↦ inr (
      inr (record {
        cursor = n;
        cand = c;
        old = e;
        in_pool = q;
        low = (hit c refl).1;
        high = (hit c refl).2;
        held = h;
        expired = ltb→lt _ _ (rw (h, usable) at (hit c refl).0);
        result = rw (h, take_found);
      }))
]

pub alloc_cases :
    (p : Pool) (now : ℕ)
    → InPool p.lo p.hi p.next
    → Exhausted p now (alloc p now) ⊎ Fresh p (alloc p now) ⊎ Reused p now (alloc p now)
alloc_cases p now q = rw (alloc-scan p now) (
    take_found_cases p now found.0 found.1 (scan-InPool (usable p now) p.lo p.hi fuel p.next q)
      (λ c. scan-some (usable p now) p.lo p.hi fuel p.next q)
      (λ e k a b. scan-none (usable p now) p.lo p.hi p.next k q a b e))
  where
    fuel : ℕ
    fuel = p.hi - p.lo + 1

    found : ℕ × Option ℕ
    found = scan (usable p now) p.lo p.hi fuel p.next
