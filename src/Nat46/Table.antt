-- ===== src/Nat46/Table.antt =====
-- internal/client/nat46/table.go. Time is an argument, in nanoseconds; the mutex makes each
-- method one step. A panic is `none`. A negative duration counts as 0.
pub mod Alloc
pub mod Invariant
pub mod Mapping
pub mod Stale
use quic_diver.Base.{
  ℕ, zero, suc, ◌+◌, ◌-◌, ◌*◌, ◌/◌, ◌^◌, Bool, true, false, not, ◌&&◌, ◌||◌, Option, none, some,
  ltb, ◌==◌, if◌then◌else◌, Map, empty_map, update, delete, Addr, invalid, v4, v6, is4, is6, is4in6,
  Addr-discrete, Prefix,
}
use quic_diver.Ring.{advance}

pub record Entry : Type 0 where
  pub real : Addr
  pub expires : ℕ

pub record Table : Type 0 where
  pub pool : Prefix
  pub ttl : ℕ
  pub lo : ℕ
  pub hi : ℕ
  pub next : ℕ
  pub by_fake : Map Addr Entry
  pub by_real : Map Addr Addr

-- An hour.
abbrev pub default_ttl : ℕ
default_ttl = 3600 * 10 ^ 9

-- The first number of the prefix, and of the mask of its free bits.
abbrev masked : ℕ → ℕ → ℕ
masked n bits = n / 2 ^ (32 - bits) * 2 ^ (32 - bits)

-- The free bits of `lo` are zero, so `|` with their mask is `+`.
unfoldable pub table_at : Prefix → ℕ → ℕ → Table
table_at pool ttl n =
    let lo = masked n pool.bits in
    record {
      pool = pool;
      ttl = if ttl == 0 then default_ttl else ttl;
      lo = lo;
      hi = lo + (2 ^ (32 - pool.bits) - 1);
      next = lo;
      by_fake = empty_map;
      by_real = empty_map;
    }

unfoldable pub table_from : Prefix → ℕ → Addr → Option Table
table_from pool ttl (v4 n) = some (table_at pool ttl n)
table_from pool ttl _ = none

unfoldable pub new_table : Prefix → ℕ → Option Table
unfolding table_from table_at
new_table pool ttl = table_from pool ttl pool.addr

-- `delete(t.byFake, cand); delete(t.byReal, e.real)`
unfoldable pub release : Table → Addr → Entry → Table
release t cand e = record t {
  by_fake = delete Addr-discrete t.by_fake cand;
  by_real = delete Addr-discrete t.by_real e.real;
}

-- The loop of `alloc` with `fuel` rounds left.
unfoldable pub alloc_loop : ℕ → Table → ℕ → Table × Option Addr
unfolding release
alloc_loop zero t now = (t, none)
alloc_loop (suc fuel) t now =
    let cand = v4 t.next in
    let t' : Table = record t { next = advance t.lo t.hi t.next } in
    let rest = alloc_loop fuel t' now in
    elim (t.by_fake cand) [
      | none ↦ (t', some cand)
      | some e ↦ if ltb e.expires now then (release t' cand e, some cand) else rest
    ]

unfoldable pub alloc : Table → ℕ → Table × Option Addr
unfolding alloc_loop
alloc t now = alloc_loop (t.hi - t.lo + 1) t now

-- `Map` below the call of `alloc`.
unfoldable pub store_new : ℕ → Addr → Table × Option Addr → Table × Option Addr
store_new now v (t, none) = (t, none)
store_new now v (t, some f) = (
  record t {
    by_fake = update Addr-discrete t.by_fake f (record { real = v; expires = now + t.ttl });
    by_real = update Addr-discrete t.by_real v f;
  },
  some f,
)

-- `Map` where no live mapping is found: the part below the first `if`.
unfoldable pub bind_new : Table → ℕ → Addr → Table × Option Addr
unfolding store_new
bind_new t now v = store_new now v (alloc t now)

-- The mapping that `Map` finds for `v`, if it is live.
unfoldable pub live_mapping : Table → ℕ → Addr → Option (Addr × Entry)
live_mapping t now v = elim (t.by_real v) [
  | none ↦ none
  | some f ↦ elim (t.by_fake f) [
    | none ↦ none
    | some e ↦ if ltb now e.expires then some (f, e) else none
  ]
]

-- `Map`
unfoldable pub map_addr : Table → ℕ → Addr → Table × Option Addr
unfolding live_mapping bind_new
map_addr t now v = if not (is6 v) || is4in6 v then (t, none) else elim (live_mapping t now v) [
  | none ↦ bind_new t now v
  | some (f, e) ↦ (
    record t {
      by_fake = update Addr-discrete t.by_fake f (record { real = e.real; expires = now + t.ttl });
    },
    some f,
  )
]

-- `Lookup`
unfoldable pub lookup : Table → ℕ → Addr → Option Addr
lookup t now fake = elim (t.by_fake fake) [
  | none ↦ none
  | some e ↦ if ltb e.expires now then none else some e.real
]
