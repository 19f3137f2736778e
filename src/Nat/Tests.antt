-- ===== src/Nat/Tests.antt =====
-- Runs of the checksum arithmetic: the header of a ping that leaves under the assigned address.
use quic_diver.Base.{v4, invalid, true, false, ℕ, ◌≡◌, refl, List, [], ◌∷◌, ◌+◌, ◌%◌, arith}
use quic_diver.Nat.Checksum.{word_sum, csum_update, fold, fold_loop, update_sum}
use quic_diver.Nat.Rewrite.{Nat, new_nat, apply, rewrite_v4}
use quic_diver.Nat.Checksum.Update.{Fits, csum_update_valid}

program : Unit {0}
unfolding csum_update word_sum fold fold_loop update_sum apply new_nat rewrite_v4
program = tt

abbrev lan : List ℕ
lan = 192 ∷ 168 ∷ 1 ∷ 5 ∷ []

abbrev assigned : List ℕ
assigned = 10 ∷ 0 ∷ 0 ∷ 2 ∷ []

updated : csum_update 0x68ec lan assigned ≡ 0x2098
unfolding program
updated = refl

fits : Fits 2 0x68ec lan assigned
fits = record {
  size = omega arith;
  word_hc = omega arith;
  words = (
    (omega arith, omega arith, omega arith, omega arith),
    ((omega arith, omega arith, omega arith, omega arith), tt),
  );
}

csum_update_valid_example :
    (0xd565 + word_sum assigned + csum_update 0x68ec lan assigned) % 0xffff ≡ 0
unfolding word_sum
csum_update_valid_example = csum_update_valid 2 0x68ec 0xd565 lan assigned fits refl

-- A UDP packet from the real address to 8.8.8.8, and the same from the assigned address.
abbrev from_lan : List ℕ
from_lan =
    69 ∷ 0 ∷ 0 ∷ 28 ∷ 0 ∷ 0 ∷ 0 ∷ 0 ∷ 64 ∷ 17 ∷ 169 ∷ 20 ∷ 192 ∷ 168 ∷ 1 ∷ 5 ∷ 8 ∷ 8 ∷ 8 ∷ 8 ∷ 19
    ∷ 136 ∷ 0 ∷ 53 ∷ 0 ∷ 8 ∷ 26 ∷ 100 ∷ []

abbrev from_assigned : List ℕ
from_assigned =
    69 ∷ 0 ∷ 0 ∷ 28 ∷ 0 ∷ 0 ∷ 0 ∷ 0 ∷ 64 ∷ 17 ∷ 96 ∷ 192 ∷ 10 ∷ 0 ∷ 0 ∷ 2 ∷ 8 ∷ 8 ∷ 8 ∷ 8 ∷ 19 ∷ 136
    ∷ 0 ∷ 53 ∷ 0 ∷ 8 ∷ 210 ∷ 15 ∷ []

abbrev nat : Nat
nat = new_nat (invalid ∷ v4 3232235781 ∷ []) (v4 167772162 ∷ [])

outbound : apply nat from_lan true ≡ from_assigned
unfolding program
outbound = refl

not_to_us : apply nat from_lan false ≡ from_lan
unfolding program
not_to_us = refl

rewritten : rewrite_v4 from_assigned (v4 3232235781) invalid ≡ from_lan
unfolding program
rewritten = refl
