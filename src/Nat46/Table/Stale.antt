-- ===== src/Nat46/Table/Stale.antt =====
-- A slot that outlives its mapping: what becomes of an IPv6 address that moved to a new fake
-- address while its expired mapping still stood in the old one.
use native.Mathlib.Numerals.{add-one}
use mathlib.Core.Option.{some-injective}
use quic_diver.Base.{
  ℕ, suc, ◌+◌, ◌-◌, ◌<◌, ◌≡◌, refl, ap, subst, false, none, some, arith, ◌≢◌, Addr, v4, is6, is4in6,
  not, ◌||◌, lt→ltb, ◌^◌, Prefix,
}
use quic_diver.Ring.{advance}
use quic_diver.Nat46.Table.{
  Table, table_at, table_from, Entry, alloc, alloc_loop, bind_new, store_new, live_mapping,
  map_addr, release, new_table,
}
use quic_diver.Nat46.Table.Invariant.{IsValid, IsLive}
use quic_diver.Nat46.Table.Mapping.{IsMappable}

table_at-IsValid :
    (pool : Prefix) (ttl n : ℕ)
    → (table_at pool ttl n).hi + 1 < 2 ^ 32
    → IsValid (table_at pool ttl n)
unfolding table_at
table_at-IsValid pool ttl n h = record {
  in_pool = record { low = omega arith; high = omega arith; word = h };
  keyed = λ f e q. cc;
  linked = λ v f q. cc;
}

table_from-IsValid :
    (pool : Prefix) (ttl : ℕ) (a : Addr) {t : Table}
    → table_from pool ttl a ≡ some t
    → t.hi + 1 < 2 ^ 32
    → IsValid t
unfolding table_from
table_from-IsValid pool ttl (v4 n) e h =
    subst (λ (t : Table). t.hi + 1 < 2 ^ 32 → IsValid t) (some-injective _ _ e)
      (table_at-IsValid pool ttl n) h
table_from-IsValid pool ttl _ e h = cc

-- A new table is valid, if its pool ends below the last address of IPv4.
pub new_table-IsValid :
    (pool : Prefix) (ttl : ℕ) {t : Table}
    → new_table pool ttl ≡ some t
    → t.hi + 1 < 2 ^ 32
    → IsValid t
unfolding new_table
new_table-IsValid pool ttl e h = table_from-IsValid pool ttl pool.addr e h

alloc_loop_head :
    (fuel : ℕ) (t : Table) (now : ℕ) (old : Entry)
    → t.by_fake (v4 t.next) ≡ some old
    → old.expires < now
    → alloc_loop (suc fuel) t now
      ≡ (release (record t { next = advance t.lo t.hi t.next }) (v4 t.next) old, some (v4 t.next))
unfolding alloc_loop
alloc_loop_head fuel t now old held gone = rw (held, alloc_loop) (rw (lt→ltb _ _ gone))

alloc_head :
    (t : Table) (now : ℕ) (old : Entry)
    → t.by_fake (v4 t.next) ≡ some old
    → old.expires < now
    → alloc t now
      ≡ (release (record t { next = advance t.lo t.hi t.next }) (v4 t.next) old, some (v4 t.next))
unfolding alloc
alloc_head t now old held gone = rw add-one (alloc_loop_head (t.hi - t.lo) t now old held gone)

module _ (t : Table) (now : ℕ) (v w f : Addr) (old : Entry) where
  -- `v` moved to `f` when its mapping at the cursor's address expired; that address comes up next,
  -- for an address `w` that has no mapping.
  pub record Stale : Type 0 where
    pub valid : IsValid t
    pub held : t.by_fake (v4 t.next) ≡ some old
    pub owner : old.real ≡ v
    pub gone : old.expires < now
    pub moved : t.by_real v ≡ some f
    pub live : IsLive t now f v
    pub other : w ≢ v
    pub elsewhere : f ≢ v4 t.next
    pub asked : IsMappable w
    pub unknown : live_mapping t now w ≡ none

  -- Where the search of `alloc` begins at an expired mapping, it ends there.
  Reuses : Type 0
  Reuses =
      map_addr t now w
      ≡ store_new now w
          (release (record t { next = advance t.lo t.hi t.next }) (v4 t.next) old, some (v4 t.next))

  map_addr_reuses : Stale → Reuses
  unfolding map_addr bind_new Reuses
  map_addr_reuses s =
      let fine : (not (is6 w) || is4in6 w) ≡ false = ground arith in
      rw (fine, s.unknown, map_addr) (ap (store_new now w) (alloc_head t now old s.held s.gone))

  -- When an address whose mapping has moved comes up for another one, `Map` takes it and forgets
  -- where the first one is, though its mapping is live.
  pub stale_forgotten :
      Stale
      → ((map_addr t now w).1 ≡ some (v4 t.next))
        × ((map_addr t now w).0.by_real v ≡ none)
        × IsLive (map_addr t now w).0 now f v
  unfolding store_new release
  stale_forgotten s =
      unfold Reuses in
      rw (map_addr_reuses s)
        (let (e, at, real, time) = s.live in (refl, ground arith, (e, ground arith, real, time)))
