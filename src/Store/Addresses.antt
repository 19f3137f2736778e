-- ===== src/Store/Addresses.antt =====
-- internal/server/db/sqlite.go: the address of a client, from the pool of the node. An assigned
-- address is kept as an address: only `AllocateAddress` writes the column
-- (`SetAssignment`, which is called by tests only, is left out).
pub mod Free
use quic_diver.Base.{
  ℕ, zero, suc, ◌+◌, ◌-◌, ◌*◌, ◌/◌, ◌^◌, Bool, true, false, if◌then◌else◌, Option, none, some, List,
  [], ◌∷◌, Rows, put_row, row_of, Str, Str-discrete, Addr, invalid, v4, v6, Prefix, contains,
  Addr-discrete,
}
use quic_diver.Store.{StoreError, Result, Database, has_token}

-- `_, busy := taken[addr]`: an address of the column.
unfoldable pub is_taken : Rows Str Addr → Addr → Bool
unfolding Addr-discrete
is_taken [] a = false
is_taken ((hash, b) ∷ rs) a = elim (Addr-discrete a b) [ yes e ↦ true | no e ↦ is_taken rs a ]

-- The number of `pool.Masked().Addr()`, for IPv4.
unfoldable pub network_base : ℕ → ℕ → ℕ
network_base bits n = n / 2 ^ (32 - bits) * 2 ^ (32 - bits)

-- The loop of `firstFree` at the address `n`, on fuel. An address that goes past the last IPv4
-- address is not valid, and no pool contains it.
unfoldable pub first_free_loop : Prefix → Rows Str Addr → ℕ → ℕ → Option ℕ
unfolding contains
first_free_loop pool rs zero n = none
first_free_loop pool rs (suc fuel) n =
    let rest = first_free_loop pool rs fuel (n + 1) in
    if contains pool (v4 n) then if is_taken rs (v4 n) then rest else some n else none

-- `firstFree`: a pool has at most `2 ^ (32 - bits)` addresses.
unfoldable pub first_free : Prefix → ℕ → Rows Str Addr → Option ℕ
unfolding first_free_loop network_base
first_free pool n rs =
    first_free_loop pool rs (suc (2 ^ (32 - pool.bits))) (network_base pool.bits n + 2)

-- The insertion: the token must exist, and no other row may have the address.
unfoldable pub insert_assignment : Database → Str → Addr → Result (Addr × Database)
unfolding has_token is_taken
insert_assignment d hash a =
    if has_token d hash
    then if is_taken d.assignments a
      then Result.failed StoreError.unique
      else Result.done (a, record d { assignments = put_row Str-discrete d.assignments hash a })
    else Result.failed StoreError.foreign_key

abbrev pub assign_free : Database → Str → Option ℕ → Result (Addr × Database)
assign_free d hash none = Result.failed StoreError.pool_exhausted
assign_free d hash (some n) = insert_assignment d hash (v4 n)

-- The transaction for a pool at the address given; only an IPv4 pool is served.
unfoldable pub allocate_in : Database → Str → Prefix → Addr → Result (Addr × Database)
unfolding insert_assignment first_free
allocate_in d hash pool (v4 n) = elim (row_of Str-discrete d.assignments hash) [
  | some a ↦ Result.done (a, d)
  | none ↦ assign_free d hash (first_free pool n d.assignments)
]
allocate_in d hash pool _ = Result.failed StoreError.bad_pool

-- `AllocateAddress`
unfoldable pub allocate_address : Database → Str → Prefix → Result (Addr × Database)
unfolding allocate_in
allocate_address d hash pool = allocate_in d hash pool pool.addr

-- `Assignment`
unfoldable pub assignment : Database → Str → Option Addr
assignment d hash = row_of Str-discrete d.assignments hash
