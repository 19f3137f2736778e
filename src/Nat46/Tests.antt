-- ===== src/Nat46/Tests.antt =====
-- Runs of nat46 on a pool of two addresses, and the theorems at concrete tables.
use quic_diver.Base.{◌≡◌, refl, none, some, arith, Addr, v4, v6, Prefix, Addr-discrete, []}
use quic_diver.Ring.{advance}
use quic_diver.Nat46.Table.{Table, Entry, table_at, new_table, alloc, bind_new, map_addr, lookup}
use quic_diver.Nat46.Table.Invariant.{IsValid, IsLive, map_addr-IsValid}
use quic_diver.Nat46.Table.Mapping.{Serves, map_addr-Serves, map_addr-IsLive}
use quic_diver.Nat46.Table.Stale.{Stale, new_table-IsValid, stale_forgotten}

program : Unit {0}
unfolding new_table alloc bind_new map_addr lookup advance Addr-discrete
program = tt

-- 198.18.0.0/31, a lifetime of 10.
abbrev pool : Prefix
pool = record { addr = v4 3323068416; bits = 31 }

abbrev empty : Table
empty = table_at pool 10 3323068416

abbrev host_a : Addr
host_a = v6 0x20010db8000000000000000000000001 []

abbrev host_b : Addr
host_b = v6 0x20010db8000000000000000000000002 []

-- `host_a` is mapped at time 0.
abbrev once : Table
once = (map_addr empty 0 host_a).0

-- It comes back at time 20, when its mapping has expired, and gets the second address.
abbrev twice : Table
twice = (map_addr once 20 host_a).0

first_answer : (map_addr empty 0 host_a).1 ≡ some (v4 3323068416)
unfolding program
first_answer = refl

second_answer : (map_addr once 20 host_a).1 ≡ some (v4 3323068417)
unfolding program
second_answer = refl

empty-IsValid : IsValid empty
unfolding program
empty-IsValid = new_table-IsValid pool 10 {t = empty} refl (omega arith)

once-IsValid : IsValid once
once-IsValid = map_addr-IsValid empty 0 host_a empty-IsValid

twice-IsValid : IsValid twice
twice-IsValid = map_addr-IsValid once 20 host_a once-IsValid

abbrev old_entry : Entry
old_entry = record { real = host_a; expires = 10 }

abbrev new_entry : Entry
new_entry = record { real = host_a; expires = 30 }

twice-Stale : Stale twice 25 host_a host_b (v4 3323068417) old_entry
unfolding program
twice-Stale = record {
  valid = twice-IsValid;
  held = refl;
  owner = refl;
  gone = omega arith;
  moved = refl;
  live = (new_entry, refl, refl, omega arith);
  other = ground arith;
  elsewhere = ground arith;
  asked = (refl, refl);
  unknown = refl;
}

map_addr-IsValid_example : IsValid (map_addr twice 25 host_b).0
map_addr-IsValid_example = map_addr-IsValid twice 25 host_b twice-IsValid

map_addr-Serves_example : Serves twice 25 host_b (map_addr twice 25 host_b)
map_addr-Serves_example = map_addr-Serves twice 25 host_b twice-IsValid

map_addr-IsLive_example : IsLive (map_addr twice 25 host_b).0 25 (v4 3323068417) host_a
unfolding program
map_addr-IsLive_example =
    map_addr-IsLive twice 25 host_b host_a (v4 3323068417) twice-IsValid
      (new_entry, refl, refl, omega arith)

stale_forgotten_example :
    ((map_addr twice 25 host_b).1 ≡ some (v4 twice.next))
    × ((map_addr twice 25 host_b).0.by_real host_a ≡ none)
    × IsLive (map_addr twice 25 host_b).0 25 (v4 3323068417) host_a
stale_forgotten_example =
    stale_forgotten twice 25 host_a host_b (v4 3323068417) old_entry twice-Stale
