-- ===== src/Store/Addresses/Free.antt =====
-- The search for a free address, and the assignments that it leaves.
use quic_diver.Base.{
  ℕ, zero, suc, ◌+◌, ◌-◌, ◌*◌, ◌/◌, ◌^◌, ◌≤◌, ◌<◌, arith, ◌≡◌, refl, sym, ◌↔◌, ◌⊎◌, inl, inr, true,
  false, Option, none, some, Rows, row_of, put_row, row_of-put_row, Str, Str-discrete, Addr, v4,
  Prefix, contains, if-cases, if◌then◌else◌, ite, ℕ_discrete, subst, Bool-cases, [], ◌∷◌,
}
use native.Mathlib.Nat.{one-le-pow, div-mul-le_self, lt-div-mul-add, div-eq_of_lt-le}
use quic_diver.Store.{StoreError, Result, Database, has_token}
use quic_diver.Store.Addresses.{
  is_taken, network_base, first_free_loop, first_free, insert_assignment, assign_free, allocate_in,
  allocate_address,
}

-- The number of addresses of a pool.
abbrev pub pool_size : ℕ → ℕ
pool_size bits = 2 ^ (32 - bits)

pool_size-pos : (bits : ℕ) → 0 < pool_size bits
pool_size-pos bits = one-le-pow (32 - bits) 2 (omega arith)

-- An IPv4 pool is the numbers from its base on.
quotient_iff : (s q n : ℕ) → 0 < s → (q ≡ n / s) ↔ ((q * s ≤ n) × (n < q * s + s))
quotient_iff s q n h = (
  λ e. (rw e (div-mul-le_self n s), rw e (lt-div-mul-add h)),
  λ (l, u). sym (div-eq_of_lt-le s l (omega arith)),
)

pub contains_iff :
    (p bits n : ℕ)
    → (contains (record { addr = v4 p; bits = bits }) (v4 n) ≡ true)
      ↔ ((network_base bits p ≤ n) × (n < network_base bits p + pool_size bits))
unfolding contains network_base
contains_iff p bits n =
    let (f, g) = quotient_iff (pool_size bits) (p / pool_size bits) n (pool_size-pos bits) in
    (λ h. f (ground arith), λ h. let e = g h in ground arith)

-- A free address of the pool is found, not before `n`.
loop-finds :
    (pool : Prefix) (rs : Rows Str Addr) (fuel n m : ℕ)
    → first_free_loop pool rs fuel n ≡ some m
    → (n ≤ m) × (contains pool (v4 m) ≡ true) × (is_taken rs (v4 m) ≡ false)
unfolding first_free_loop
loop-finds pool rs zero n m h = ground arith
loop-finds pool rs (suc fuel) n m h = elim (Bool-cases (contains pool (v4 n))) [
  | inr c ↦ ground arith
  | inl c ↦ elim (Bool-cases (is_taken rs (v4 n))) [
    | inl t ↦
        let (a, b, c) = loop-finds pool rs fuel (n + 1) m (ground arith) in (omega arith, b, c)
    | inr t ↦ ground arith
  ]
]

-- Without an answer, every address of the pool from `n` on is taken: the fuel reaches the end.
loop-full :
    (p bits : ℕ) (rs : Rows Str Addr) (fuel n : ℕ)
    → network_base bits p ≤ n
    → network_base bits p + pool_size bits < n + fuel
    → first_free_loop (record { addr = v4 p; bits = bits }) rs fuel n ≡ none
    → (m : ℕ) → n ≤ m
    → m < network_base bits p + pool_size bits
    → is_taken rs (v4 m) ≡ true
unfolding first_free_loop
loop-full p bits rs zero n l f h m i j = ground arith
loop-full p bits rs (suc fuel) n l f h m i j =
    let c = (contains_iff p bits n).1 (l, omega arith) in
    elim (Bool-cases (is_taken rs (v4 n))) [
      | inl t ↦ elim (ℕ_discrete n m) [
        | yes e ↦ subst (λ k. is_taken rs (v4 k) ≡ true) e t
        | no q ↦
            loop-full p bits rs fuel (n + 1) (omega arith) (omega arith) (ground arith) m
              (omega arith) j
      ]
      | inr t ↦ ground arith
    ]

first_free-full :
    (p bits : ℕ) (rs : Rows Str Addr)
    → first_free (record { addr = v4 p; bits = bits }) p rs ≡ none
    → (m : ℕ) → network_base bits p + 2 ≤ m
    → m < network_base bits p + pool_size bits
    → is_taken rs (v4 m) ≡ true
unfolding first_free
first_free-full p bits rs h =
    loop-full p bits rs (suc (pool_size bits)) (network_base bits p + 2) (omega arith) (omega arith)
      h

-- An address that a row has is taken.
row_of-taken :
    (rs : Rows Str Addr) (hash : Str) (a : Addr)
    → row_of Str-discrete rs hash ≡ some a
    → is_taken rs a ≡ true
unfolding is_taken
row_of-taken [] hash a h = ground arith
row_of-taken ((j, b) ∷ rs) hash a h = ground (arith, row_of-taken rs hash a)

-- No two clients have the same address.
abbrev pub IsDistinct : Rows Str Addr → Type 0
IsDistinct rs =
    (h k : Str) (a : Addr)
    → row_of Str-discrete rs h ≡ some a
    → row_of Str-discrete rs k ≡ some a
    → h ≡ k

put_row-IsDistinct :
    (rs : Rows Str Addr) (hash : Str) (a : Addr)
    → IsDistinct rs
    → is_taken rs a ≡ false
    → IsDistinct (put_row Str-discrete rs hash a)
put_row-IsDistinct rs hash a v t h k b x y = ground (
  arith,
  row_of-put_row Str-discrete rs hash h a,
  row_of-put_row Str-discrete rs hash k a,
  row_of-taken rs h a,
  row_of-taken rs k a,
  v h k b,
)

-- What `AllocateAddress` may answer on the pool of `bits` bits at `p`.
abbrev pub Allots : Database → Str → ℕ → ℕ → Result (Addr × Database) → Type 0
Allots d hash p bits (Result.failed StoreError.pool_exhausted) =
    (row_of Str-discrete d.assignments hash ≡ none)
    × ((m : ℕ)
        → network_base bits p + 2 ≤ m
        → m < network_base bits p + pool_size bits
        → is_taken d.assignments (v4 m) ≡ true)
Allots d hash p bits (Result.failed StoreError.foreign_key) =
    (row_of Str-discrete d.assignments hash ≡ none) × (has_token d hash ≡ false)
Allots d hash p bits (Result.failed e) = ⊥
Allots d hash p bits (Result.done (a, d')) =
    IsDistinct d'.assignments
    × ((j : Str)
        → row_of Str-discrete d'.assignments j
          ≡ ite (Str-discrete j hash) (some a) (row_of Str-discrete d.assignments j))
    × ((row_of Str-discrete d.assignments hash ≡ some a)
        ⊎ ((n : ℕ) × (a ≡ v4 n)
            × (network_base bits p + 2 ≤ n)
            × (n < network_base bits p + pool_size bits)
            × (is_taken d.assignments a ≡ false)))

insert-Allots :
    (d : Database) (hash : Str) (p bits n : ℕ)
    → IsDistinct d.assignments
    → row_of Str-discrete d.assignments hash ≡ none
    → (network_base bits p + 2 ≤ n) × (n < network_base bits p + pool_size bits)
    → is_taken d.assignments (v4 n) ≡ false
    → Allots d hash p bits (insert_assignment d hash (v4 n))
unfolding insert_assignment
insert-Allots d hash p bits n v e (l, u) f =
    if-cases (Allots d hash p bits) (has_token d hash) _ _
      (λ k.
        subst
          (λ b. Allots d hash p bits (
            if b
            then Result.failed StoreError.unique
            else Result.done
                (v4 n, record d { assignments = put_row Str-discrete d.assignments hash (v4 n) })))
          (sym f)
          (
            put_row-IsDistinct d.assignments hash (v4 n) v f,
            λ j. row_of-put_row Str-discrete d.assignments hash j (v4 n),
            inr (n, refl, l, u, f),
          ))
      (λ k. (e, k))

assign_free-Allots :
    (d : Database) (hash : Str) (p bits : ℕ) (o : Option ℕ)
    → IsDistinct d.assignments
    → row_of Str-discrete d.assignments hash ≡ none
    → first_free (record { addr = v4 p; bits = bits }) p d.assignments ≡ o
    → Allots d hash p bits (assign_free d hash o)
unfolding first_free
assign_free-Allots d hash p bits none v e h = (e, first_free-full p bits d.assignments h)
assign_free-Allots d hash p bits (some n) v e h =
    let (l, c, f) =
      loop-finds (record { addr = v4 p; bits = bits }) d.assignments (suc (pool_size bits))
        (network_base bits p + 2) n h in
    insert-Allots d hash p bits n v e (l, ((contains_iff p bits n).0 c).1) f

-- `AllocateAddress` on an IPv4 pool gives the address that the client has, or a free one of the pool
-- beyond the first two, which the client then has while the others keep theirs; no two clients share
-- an address after it. It fails only when every such address is taken or the token is unknown.
pub allocate_address-Allots :
    (d : Database) (hash : Str) (p bits : ℕ)
    → IsDistinct d.assignments
    → Allots d hash p bits (allocate_address d hash (record { addr = v4 p; bits = bits }))
unfolding allocate_address allocate_in
allocate_address-Allots d hash p bits v = at (row_of Str-discrete d.assignments hash) refl
  where
    at :
        (o : Option Addr)
        → row_of Str-discrete d.assignments hash ≡ o
        → Allots d hash p bits (elim o [
          | some a ↦ Result.done (a, d)
          | none ↦
              assign_free d hash (first_free (record { addr = v4 p; bits = bits }) p d.assignments)
        ])
    at none e = assign_free-Allots d hash p bits _ v e refl
    at (some a) e = (v, λ j. ground arith, inl e)
