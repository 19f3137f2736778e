-- ===== src/Nat/Checksum.antt =====
-- The checksum arithmetic of nat.go. A 16-bit word is a number below 2 ^ 16; `c ^ 0xFFFF` of a word
-- is `0xFFFF - c`; the sums are uint32, which the words of a packet's addresses cannot overflow.
pub mod Fold
pub mod Update
use quic_diver.Base.{
  ℕ, zero, suc, ◌+◌, ◌-◌, ◌*◌, ◌/◌, ◌%◌, ◌^◌, ◌≤◌, ◌<◌, ◌≡◌, refl, Bool, true, false, ltb,
  if◌then◌else◌, List, [], ◌∷◌,
}

-- One round of `for sum > 0xFFFF { sum = (sum & 0xFFFF) + (sum >> 16) }`.
abbrev pub fold_step : ℕ → ℕ
fold_step sum = sum % 2 ^ 16 + sum / 2 ^ 16

-- The loop with `fuel` rounds left.
unfoldable pub fold_loop : ℕ → ℕ → ℕ
fold_loop zero sum = sum
fold_loop (suc fuel) sum =
    let rest = fold_loop fuel (fold_step sum) in if ltb 0xffff sum then rest else sum

-- Two rounds end the loop for every uint32.
unfoldable pub fold : ℕ → ℕ
unfolding fold_loop
fold sum = fold_loop 2 sum

abbrev pub complement : ℕ → ℕ
complement c = 0xffff - c

-- `binary.BigEndian.Uint16`
abbrev pub word : ℕ → ℕ → ℕ
word hi lo = hi * 256 + lo

-- The loop of `csumUpdate` over the words of the old and the new address.
unfoldable pub update_sum : ℕ → List ℕ → List ℕ → ℕ
update_sum sum (a ∷ b ∷ old) (c ∷ d ∷ new) =
    update_sum (sum + complement (word a b) + word c d) old new
update_sum sum _ _ = sum

-- `csumUpdate`, RFC 1624
unfoldable pub csum_update : ℕ → List ℕ → List ℕ → ℕ
unfolding fold update_sum
csum_update hc old new = complement (fold (update_sum (complement hc) old new))

-- The sum of `fixIPv4Header` over the words of a header.
unfoldable pub word_sum : List ℕ → ℕ
word_sum (a ∷ b ∷ bytes) = word a b + word_sum bytes
word_sum _ = 0
