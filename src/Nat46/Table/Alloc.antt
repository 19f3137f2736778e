-- ===== src/Nat46/Table/Alloc.antt =====
-- The loop of `alloc` against the search of `Ring`.
use quic_diver.Base.{
  ℕ, zero, suc, ◌+◌, ◌-◌, ◌≤◌, ◌<◌, ◌≡◌, refl, Bool, true, false, Option, none, some, ltb, arith,
  Option-cases, ◌⊎◌, inl, inr, ltb→lt, Addr, v4,
}
use quic_diver.Ring.{advance, scan, InPool, scan-InPool, scan-some, scan-none}
use quic_diver.Nat46.Table.{Table, Entry, release, alloc_loop, alloc}

-- A number is usable if no mapping holds it, or an expired one.
unfoldable pub usable : Table → ℕ → ℕ → Bool
usable t now n = elim (t.by_fake (v4 n)) [ none ↦ true | some e ↦ ltb e.expires now ]

-- What `alloc` does with the outcome of the search.
pub take_found : Table → ℕ × Option ℕ → Table × Option Addr
take_found t (n, none) = (record t { next = n }, none)
take_found t (n, some c) = elim (t.by_fake (v4 c)) [
  | none ↦ (record t { next = n }, some (v4 c))
  | some e ↦ (release (record t { next = n }) (v4 c) e, some (v4 c))
]

alloc_loop-scan :
    (fuel : ℕ) (t : Table) (now : ℕ)
    → alloc_loop fuel t now ≡ take_found t (scan (usable t now) t.lo t.hi fuel t.next)
unfolding alloc_loop scan take_found usable
alloc_loop-scan zero t now = refl
alloc_loop-scan (suc fuel) t now =
    ground (arith, alloc_loop-scan fuel (record t { next = advance t.lo t.hi t.next }) now)

pub alloc-scan :
    (t : Table) (now : ℕ)
    → alloc t now ≡ take_found t (scan (usable t now) t.lo t.hi (t.hi - t.lo + 1) t.next)
unfolding alloc
alloc-scan t now = alloc_loop-scan (t.hi - t.lo + 1) t now

-- The three outcomes of `alloc`: the pool is full of live mappings, a number that no mapping holds,
-- or one whose mapping has expired and is dropped.
pub record Exhausted (t : Table) (now : ℕ) (r : Table × Option Addr) : Type 0 where
  pub cursor : ℕ
  pub in_pool : InPool t.lo t.hi cursor
  pub result : r ≡ (record t { next = cursor }, none)
  pub full : (k : ℕ) → t.lo ≤ k → k ≤ t.hi → usable t now k ≡ false

pub record Fresh (t : Table) (r : Table × Option Addr) : Type 0 where
  pub cursor : ℕ
  pub cand : ℕ
  pub in_pool : InPool t.lo t.hi cursor
  pub low : t.lo ≤ cand
  pub high : cand ≤ t.hi
  pub free : t.by_fake (v4 cand) ≡ none
  pub result : r ≡ (record t { next = cursor }, some (v4 cand))

pub record Reused (t : Table) (now : ℕ) (r : Table × Option Addr) : Type 0 where
  pub cursor : ℕ
  pub cand : ℕ
  pub old : Entry
  pub in_pool : InPool t.lo t.hi cursor
  pub low : t.lo ≤ cand
  pub high : cand ≤ t.hi
  pub held : t.by_fake (v4 cand) ≡ some old
  pub expired : old.expires < now
  pub result : r ≡ (release (record t { next = cursor }) (v4 cand) old, some (v4 cand))

take_found_cases :
    (t : Table) (now n : ℕ) (o : Option ℕ)
    → InPool t.lo t.hi n
    → ((c : ℕ) → o ≡ some c → (usable t now c ≡ true) × (t.lo ≤ c) × (c ≤ t.hi))
    → (o ≡ none → (k : ℕ) → t.lo ≤ k → k ≤ t.hi → usable t now k ≡ false)
    → Exhausted t now (take_found t (n, o))
      ⊎ Fresh t (take_found t (n, o))
      ⊎ Reused t now (take_found t (n, o))
unfolding take_found usable
take_found_cases t now n none p hit miss =
    inl (record { cursor = n; in_pool = p; result = refl; full = miss refl })
take_found_cases t now n (some c) p hit miss = elim (Option-cases (t.by_fake (v4 c))) [
  | inl e ↦ inr (
      inl (record {
        cursor = n;
        cand = c;
        in_pool = p;
        low = (hit c refl).1;
        high = (hit c refl).2;
        free = e;
        result = rw (e, take_found);
      }))
  | inr (e, h) ↦ inr (
      inr (record {
        cursor = n;
        cand = c;
        old = e;
        in_pool = p;
        low = (hit c refl).1;
        high = (hit c refl).2;
        held = h;
        expired = ltb→lt _ _ (rw (h, usable) at (hit c refl).0);
        result = rw (h, take_found);
      }))
]

pub alloc_cases :
    (t : Table) (now : ℕ)
    → InPool t.lo t.hi t.next
    → Exhausted t now (alloc t now) ⊎ Fresh t (alloc t now) ⊎ Reused t now (alloc t now)
alloc_cases t now p = rw (alloc-scan t now) (
    take_found_cases t now found.0 found.1 (scan-InPool (usable t now) t.lo t.hi fuel t.next p)
      (λ c. scan-some (usable t now) t.lo t.hi fuel t.next p)
      (λ e k a b. scan-none (usable t now) t.lo t.hi t.next k p a b e))
  where
    fuel : ℕ
    fuel = t.hi - t.lo + 1

    found : ℕ × Option ℕ
    found = scan (usable t now) t.lo t.hi fuel t.next
