-- ===== src/Nat/Rewrite.antt =====
-- The rewriting of packets in nat.go. A packet is the list of its bytes; writes in place return the
-- new packet. An address is the list of its 4 or 16 bytes.
use quic_diver.Base.{
  ℕ, zero, suc, ◌+◌, ◌*◌, ◌/◌, ◌%◌, ◌^◌, Bool, true, false, ◌&&◌, ◌||◌, not, Option, none, some,
  ltb, ◌==◌, if◌then◌else◌, List, [], ◌∷◌, ◌++◌, take, drop, length, get_elem?, Addr, v4, v6,
}
use quic_diver.Nat.Checksum.{complement, word, word_sum, fold, csum_update}

-- `pkt[i]`, where the packet has a byte there.
abbrev pub byte_at : List ℕ → ℕ → ℕ
byte_at pkt i = elim (get_elem? pkt i) [ none ↦ 0 | some b ↦ b ]

-- `pkt[off : off+n]`
abbrev pub slice : List ℕ → ℕ → ℕ → List ℕ
slice pkt off n = take n (drop off pkt)

-- `copy(pkt[off:], bs)`
abbrev pub patch : List ℕ → ℕ → List ℕ → List ℕ
patch pkt off bs = take off pkt ++ (bs ++ drop (off + length bs) pkt)

-- The `w` bytes of a number in network order.
unfoldable pub be_bytes : ℕ → ℕ → List ℕ
be_bytes zero n = []
be_bytes (suc w) n = (n / 256 ^ w) % 256 ∷ be_bytes w n

abbrev pub bytes_eq : List ℕ → List ℕ → Bool
bytes_eq [] [] = true
bytes_eq (a ∷ s) (b ∷ t) = a == b && bytes_eq s t
bytes_eq _ _ = false

-- A pair of a real and an assigned address for each family that has both.
pub record Nat : Type 0 where
  pub pair_v4 : Option (List ℕ × List ℕ)
  pub pair_v6 : Option (List ℕ × List ℕ)

-- The first IPv4 address of `pick`, and the first IPv6 address.
unfoldable pub pick_v4 : List Addr → Option (List ℕ)
unfolding be_bytes
pick_v4 [] = none
pick_v4 (v4 n ∷ addrs) = some (be_bytes 4 n)
pick_v4 (a ∷ addrs) = pick_v4 addrs

unfoldable pub pick_v6 : List Addr → Option (List ℕ)
unfolding be_bytes
pick_v6 [] = none
pick_v6 (v6 n z ∷ addrs) = some (be_bytes 16 n)
pick_v6 (a ∷ addrs) = pick_v6 addrs

abbrev pub both : Option (List ℕ) → Option (List ℕ) → Option (List ℕ × List ℕ)
both (some r) (some a) = some (r, a)
both _ _ = none

-- `New`
unfoldable pub new_nat : List Addr → List Addr → Nat
unfolding pick_v4 pick_v6
new_nat reals assigned = record {
  pair_v4 = both (pick_v4 reals) (pick_v4 assigned);
  pair_v6 = both (pick_v6 reals) (pick_v6 assigned);
}

-- `fixIPv4Header`
unfoldable pub fix_ipv4_header : List ℕ → List ℕ
unfolding word_sum fold be_bytes
fix_ipv4_header pkt =
    let ihl = (byte_at pkt 0 % 16) * 4 in
    let zeroed = patch pkt 10 (0 ∷ 0 ∷ []) in
    if ltb ihl 20 || ltb (length pkt) ihl
    then pkt
    else patch zeroed 10 (be_bytes 2 (complement (fold (word_sum (take ihl zeroed)))))

-- The `switch proto` of `fixL4`.
unfoldable pub csum_offset : ℕ → Option ℕ
csum_offset proto =
    if proto == 6
    then some 16
    else if proto == 17
    then some 6
    else if proto == 58
    then some 2
    else none

-- `fixL4` from the bounds check on: the checksum at `off` of a packet of that protocol.
unfoldable pub fix_l4_at : List ℕ → Bool → ℕ → ℕ → List ℕ → List ℕ → List ℕ
unfolding csum_update be_bytes
fix_l4_at pkt is_v4 proto off old new =
    let c = word (byte_at pkt off) (byte_at pkt (off + 1)) in
    let nc = csum_update c old new in
    if ltb (length pkt) (off + 2)
    then pkt
    else if proto == 17 && (is_v4 && c == 0)
    then pkt
    else patch pkt off (be_bytes 2 (if proto == 17 && nc == 0 then 0xffff else nc))

-- `fixL4`
unfoldable pub fix_l4 : List ℕ → Bool → List ℕ → List ℕ → List ℕ
unfolding csum_offset fix_l4_at
fix_l4 pkt is_v4 old new =
    let l4off = if is_v4 then (byte_at pkt 0 % 16) * 4 else 40 in
    let proto = if is_v4 then byte_at pkt 9 else byte_at pkt 6 in
    elim (csum_offset proto) [ none ↦ pkt | some o ↦ fix_l4_at pkt is_v4 proto (l4off + o) old new ]

-- `applyV4` with the place of the address, and what it is to be changed from and to.
unfoldable pub swap_v4 : List ℕ → ℕ → List ℕ → List ℕ → List ℕ
unfolding fix_ipv4_header fix_l4
swap_v4 pkt off from to =
    if bytes_eq (slice pkt off 4) from
    then fix_l4 (fix_ipv4_header (patch pkt off to)) true from to
    else pkt

-- `applyV4`
unfoldable pub apply_v4 : Nat → List ℕ → Bool → List ℕ
unfolding swap_v4
apply_v4 n pkt outbound = elim n.pair_v4 [
  | none ↦ pkt
  | some (real, assigned) ↦
      if ltb (length pkt) 20
      then pkt
      else if outbound
      then swap_v4 pkt 12 real assigned
      else swap_v4 pkt 16 assigned real
]

-- `applyV6`, in the same way.
unfoldable pub swap_v6 : List ℕ → ℕ → List ℕ → List ℕ → List ℕ
unfolding fix_l4
swap_v6 pkt off from to =
    if bytes_eq (slice pkt off 16) from then fix_l4 (patch pkt off to) false from to else pkt

unfoldable pub apply_v6 : Nat → List ℕ → Bool → List ℕ
unfolding swap_v6
apply_v6 n pkt outbound = elim n.pair_v6 [
  | none ↦ pkt
  | some (real, assigned) ↦
      if ltb (length pkt) 40
      then pkt
      else if outbound
      then swap_v6 pkt 8 real assigned
      else swap_v6 pkt 24 assigned real
]

-- `apply`; `Outbound` and `Inbound` call it with the two directions.
unfoldable pub apply : Nat → List ℕ → Bool → List ℕ
unfolding apply_v4 apply_v6
apply n [] outbound = []
apply n (b ∷ pkt) outbound =
    if b / 16 == 4
    then apply_v4 n (b ∷ pkt) outbound
    else if b / 16 == 6
    then apply_v6 n (b ∷ pkt) outbound
    else b ∷ pkt

-- One of the two halves of `RewriteV4`: an address that is not IPv4 changes nothing.
unfoldable pub replace_v4 : List ℕ → ℕ → Addr → List ℕ
unfolding fix_l4 be_bytes
replace_v4 pkt off (v4 n) =
    let old = slice pkt off 4 in
    if bytes_eq old (be_bytes 4 n)
    then pkt
    else fix_l4 (patch pkt off (be_bytes 4 n)) true old (be_bytes 4 n)
replace_v4 pkt off _ = pkt

-- `RewriteV4`
unfoldable pub rewrite_v4 : List ℕ → Addr → Addr → List ℕ
unfolding replace_v4 fix_ipv4_header
rewrite_v4 pkt new_src new_dst =
    if ltb (length pkt) 20 || not (byte_at pkt 0 / 16 == 4)
    then pkt
    else fix_ipv4_header (replace_v4 (replace_v4 pkt 12 new_src) 16 new_dst)
