-- ===== src/FakeIp/Pool.antt =====
-- internal/client/fakeip/pool.go. Time is an argument, in nanoseconds; the mutex makes each method
-- one step. A panic is `none`. A negative duration counts as 0. A domain is its bytes.
pub mod Alloc
pub mod Invariant
pub mod Bind
pub mod Assign
pub mod Reverse
pub mod Start
use quic_diver.Base.{
  ℕ, zero, suc, ◌+◌, ◌-◌, ◌*◌, ◌/◌, ◌^◌, Bool, true, false, Option, none, some, ltb, ◌==◌,
  if◌then◌else◌, Map, empty_map, update, delete, update_all, delete_all, Addr, invalid, v4, v6,
  Addr-discrete, Prefix, Str, Str-discrete, List, [], ◌∷◌, length, contains,
}
use quic_diver.Ring.{advance}

pub record Entry : Type 0 where
  pub domain : Str
  pub real : List Addr
  pub expires : ℕ

pub record Pool : Type 0 where
  pub pool : Prefix
  pub ttl : ℕ
  pub lo : ℕ
  pub hi : ℕ
  pub next : ℕ
  pub by_fake : Map Addr Entry
  pub by_domain : Map Str Addr
  pub by_real : Map Addr Addr

-- An hour.
abbrev pub default_ttl : ℕ
default_ttl = 3600 * 10 ^ 9

abbrev masked : ℕ → ℕ → ℕ
masked n bits = n / 2 ^ (32 - bits) * 2 ^ (32 - bits)

-- The free bits of `lo` are zero, so `|` with their mask is `+`.
unfoldable pub pool_at : Prefix → ℕ → ℕ → Pool
pool_at prefix ttl n =
    let lo = masked n prefix.bits in
    record {
      pool = prefix;
      ttl = if ttl == 0 then default_ttl else ttl;
      lo = lo;
      hi = lo + (2 ^ (32 - prefix.bits) - 1);
      next = lo;
      by_fake = empty_map;
      by_domain = empty_map;
      by_real = empty_map;
    }

unfoldable pub pool_from : Prefix → ℕ → Addr → Option Pool
pool_from prefix ttl (v4 n) = some (pool_at prefix ttl n)
pool_from prefix ttl _ = none

-- `New`
unfoldable pub new_pool : Prefix → ℕ → Option Pool
unfolding pool_from pool_at
new_pool prefix ttl = pool_from prefix ttl prefix.addr

-- `normDomain`: without one final dot.
unfoldable pub norm_domain : Str → Str
norm_domain [] = []
norm_domain (c ∷ []) = if c == b'.' then [] else c ∷ []
norm_domain (c ∷ d ∷ s) = c ∷ norm_domain (d ∷ s)

-- The three deletions of `alloc` at an expired entry.
unfoldable pub release : Pool → Addr → Entry → Pool
release p cand e = record p {
  by_fake = delete Addr-discrete p.by_fake cand;
  by_domain = delete Str-discrete p.by_domain e.domain;
  by_real = delete_all Addr-discrete p.by_real e.real;
}

-- The loop of `alloc` with `fuel` rounds left.
unfoldable pub alloc_loop : ℕ → Pool → ℕ → Pool × Option Addr
unfolding release
alloc_loop zero p now = (p, none)
alloc_loop (suc fuel) p now =
    let cand = v4 p.next in
    let p' : Pool = record p { next = advance p.lo p.hi p.next } in
    let rest = alloc_loop fuel p' now in
    elim (p.by_fake cand) [
      | none ↦ (p', some cand)
      | some e ↦ if ltb e.expires now then (release p' cand e, some cand) else rest
    ]

unfoldable pub alloc : Pool → ℕ → Pool × Option Addr
unfolding alloc_loop
alloc p now = alloc_loop (p.hi - p.lo + 1) p now

-- `Assign` below the call of `alloc`.
unfoldable pub store_new : ℕ → Str → List Addr → Pool × Option Addr → Pool × Option Addr
store_new now domain real (p, none) = (p, none)
store_new now domain real (p, some fake) = (
  record p {
    by_fake =
        update Addr-discrete p.by_fake fake
          (record { domain = domain; real = real; expires = now + p.ttl });
    by_domain = update Str-discrete p.by_domain domain fake;
    by_real = update_all Addr-discrete p.by_real real fake;
  },
  some fake,
)

unfoldable pub bind_new : Pool → ℕ → Str → List Addr → Pool × Option Addr
unfolding store_new
bind_new p now domain real = store_new now domain real (alloc p now)

-- `Assign` at a known domain: the old real addresses are unbound, the new ones bound.
unfoldable pub refresh : Pool → ℕ → Addr → Entry → List Addr → Pool
refresh p now fake e real = record p {
  by_fake =
      update Addr-discrete p.by_fake fake
        (record { domain = e.domain; real = real; expires = now + p.ttl });
  by_real = update_all Addr-discrete (delete_all Addr-discrete p.by_real e.real) real fake;
}

-- The entry that `Assign` finds for a domain.
unfoldable pub known : Pool → Str → Option (Addr × Entry)
known p domain = elim (p.by_domain domain) [
  | none ↦ none
  | some fake ↦ elim (p.by_fake fake) [ none ↦ none | some e ↦ some (fake, e) ]
]

-- `Assign` at a normalised domain.
unfoldable pub assign_norm : Pool → ℕ → Str → List Addr → Pool × Option Addr
unfolding known refresh bind_new
assign_norm p now [] real = (p, none)
assign_norm p now (c ∷ s) real = elim (known p (c ∷ s)) [
  | none ↦ bind_new p now (c ∷ s) real
  | some (fake, e) ↦ (refresh p now fake e real, some fake)
]

unfoldable pub assign : Pool → ℕ → Str → List Addr → Pool × Option Addr
unfolding assign_norm norm_domain
assign p now domain real = assign_norm p now (norm_domain domain) real

-- `FakeOf`
unfoldable pub fake_of : Pool → Addr → Option Addr
fake_of p real = p.by_real real

-- `Domain`
unfoldable pub domain : Pool → ℕ → Addr → Option Str
domain p now fake = elim (p.by_fake fake) [
  | none ↦ none
  | some e ↦ if ltb e.expires now then none else some e.domain
]

-- `Real`
unfoldable pub real : Pool → ℕ → Addr → Option (List Addr)
real p now fake = elim (p.by_fake fake) [
  | none ↦ none
  | some e ↦ if ltb e.expires now then none else some e.real
]

-- `DomainOf`: the empty text where there is none.
unfoldable pub domain_of : Pool → ℕ → Addr → Str
unfolding domain
domain_of p now a = elim (domain p now a) [ none ↦ [] | some d ↦ d ]

-- `RealAddr`: the first real address.
unfoldable pub real_addr : Pool → ℕ → Addr → Option Addr
unfolding real
real_addr p now fake = elim (real p now fake) [
  | none ↦ none
  | some [] ↦ none
  | some (a ∷ rest) ↦ some a
]

-- `Contains`
unfoldable pub contains_fake : Pool → Addr → Bool
unfolding contains
contains_fake p a = contains p.pool a
