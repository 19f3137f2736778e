-- ===== src/FakeIp/Tests.antt =====
-- Runs of fakeip on a pool of two addresses, and the theorems at concrete pools.
use quic_diver.Base.{
  ◌≡◌, refl, inl, none, some, arith, Addr, v4, Prefix, Addr-discrete, Str-discrete, bytes, [], ◌∷◌,
}
use quic_diver.Ring.{advance}
use quic_diver.FakeIp.Pool.{
  Pool, Entry, pool_at, new_pool, alloc, assign, norm_domain, domain, real, fake_of,
}
use quic_diver.FakeIp.Pool.Invariant.{IsValid, IsLive}
use quic_diver.FakeIp.Pool.Assign.{Serves, assign-IsValid, assign-Serves, assign-IsLive}
use quic_diver.FakeIp.Pool.Reverse.{Shared, Shared-forgotten}
use quic_diver.FakeIp.Pool.Start.{new_pool-IsValid}

program : Unit {0}
unfolding new_pool alloc assign domain real fake_of advance Addr-discrete Str-discrete
program = tt

-- 198.18.0.0/31, a lifetime of 10.
abbrev prefix : Prefix
prefix = record { addr = v4 3323068416; bits = 31 }

abbrev empty : Pool
empty = pool_at prefix 10 3323068416

-- One address of a network that serves both domains, and another.
abbrev cdn : Addr
cdn = v4 0x01010101

abbrev moved : Addr
moved = v4 0x02020202

abbrev one : Pool
one = (assign empty 0 (bytes "a.example.") (cdn ∷ [])).0

abbrev two : Pool
two = (assign one 1 (bytes "b.example") (cdn ∷ [])).0

second_answer : (assign one 1 (bytes "b.example") (cdn ∷ [])).1 ≡ some (v4 3323068417)
unfolding program
second_answer = refl

read_back : domain two 5 (v4 3323068416) ≡ some (bytes "a.example")
unfolding program
read_back = refl

empty-IsValid : IsValid empty
unfolding program
empty-IsValid = new_pool-IsValid prefix 10 {p = empty} refl (omega arith)

one-IsValid : IsValid one
one-IsValid = assign-IsValid empty 0 (bytes "a.example.") (cdn ∷ []) empty-IsValid

two-IsValid : IsValid two
two-IsValid = assign-IsValid one 1 (bytes "b.example") (cdn ∷ []) one-IsValid

abbrev entry_a : Entry
entry_a = record { domain = bytes "a.example"; real = cdn ∷ []; expires = 10 }

abbrev entry_b : Entry
entry_b = record { domain = bytes "b.example"; real = cdn ∷ []; expires = 11 }

two-Shared : Shared two 2 (bytes "a.example") cdn (v4 3323068416) (v4 3323068417) entry_a entry_b
unfolding program
two-Shared = record {
  valid = two-IsValid;
  proper = ground arith;
  found = refl;
  held = refl;
  shared = inl refl;
  apart = ground arith;
  beside = refl;
  live = omega arith;
  theirs = inl refl;
  back = refl;
}

assign-IsValid_example : IsValid (assign two 2 (bytes "c.example") (cdn ∷ [])).0
assign-IsValid_example = assign-IsValid two 2 (bytes "c.example") (cdn ∷ []) two-IsValid

assign-Serves_example :
    Serves two 2
      (norm_domain (bytes "a.example."))
      (moved ∷ [])
      (assign two 2 (bytes "a.example.") (moved ∷ []))
assign-Serves_example = assign-Serves two 2 (bytes "a.example.") (moved ∷ []) two-IsValid

assign-IsLive_example :
    IsLive (assign two 11 (bytes "c.example") (moved ∷ [])).0 11 (v4 3323068417) (bytes "b.example")
unfolding program
assign-IsLive_example =
    assign-IsLive two 11 (bytes "c.example") (moved ∷ []) (v4 3323068417) (bytes "b.example")
      two-IsValid (entry_b, refl, refl, omega arith)

Shared-forgotten_example :
    (fake_of (assign two 2 (bytes "a.example") (moved ∷ [])).0 cdn ≡ none)
    × ((assign two 2 (bytes "a.example") (moved ∷ [])).0.by_fake (v4 3323068417) ≡ some entry_b)
Shared-forgotten_example =
    Shared-forgotten two 2 (bytes "a.example") cdn (v4 3323068416) (v4 3323068417) entry_a entry_b
      (moved ∷ []) two-Shared (ground arith)
