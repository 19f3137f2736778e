-- ===== src/Base/Netip.antt =====
-- `netip.Addr` and `netip.AddrPort`: an address is invalid, a 32-bit number, or a 128-bit number
-- with a zone.
use Prim.Native.Nat.{ℕ, ◌-◌, ◌/◌, ◌^◌}
use mathlib.Core.Bool.{Bool, true, false}
use mathlib.Core.List.{List, []}
use native.Mathlib.Decide.{ℕ_discrete}
use quic_diver.Base.Tests.{◌==◌}

pub data Addr : Type 0 where
  invalid : Addr
  v4 : ℕ → Addr
  v6 : ℕ → List ℕ → Addr

unfoldable pub Addr-discrete : Discrete Addr
unfolding ℕ_discrete
Addr-discrete = hlevel ℕ_discrete

abbrev pub is_valid : Addr → Bool
is_valid invalid = false
is_valid (v4 n) = true
is_valid (v6 n z) = true

abbrev pub is4 : Addr → Bool
is4 (v4 n) = true
is4 _ = false

abbrev pub is6 : Addr → Bool
is6 (v6 n z) = true
is6 _ = false

-- `::ffff:a.b.c.d`
abbrev pub is4in6 : Addr → Bool
is4in6 (v6 n z) = n / 2 ^ 32 == 0xffff
is4in6 _ = false

pub record AddrPort : Type 0 where
  pub addr : Addr
  pub port : ℕ

-- `netip.Prefix`; the zero value, which is not valid, has the invalid address.
pub record Prefix : Type 0 where
  pub addr : Addr
  pub bits : ℕ

-- The number of an address without its last `w - bits` bits.
abbrev network : ℕ → ℕ → ℕ → ℕ
network w bits n = n / 2 ^ (w - bits)

abbrev contains_addr : Addr → ℕ → Addr → Bool
contains_addr (v4 p) bits (v4 a) = network 32 bits p == network 32 bits a
contains_addr (v6 p z) bits (v6 a []) = network 128 bits p == network 128 bits a
contains_addr _ _ _ = false

-- `Prefix.Contains`: an address of the other family or with a zone is outside.
unfoldable pub contains : Prefix → Addr → Bool
contains p a = contains_addr p.addr p.bits a
