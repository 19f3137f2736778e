-- ===== src/Nat/Checksum/Update.antt =====
-- What the incremental update of RFC 1624 does to a checksum.
use quic_diver.Base.{ℕ, zero, suc, ◌+◌, ◌*◌, ◌%◌, ◌≤◌, ◌<◌, ◌≡◌, arith, List, [], ◌∷◌}
use quic_diver.Nat.Checksum.{complement, word, update_sum, csum_update, word_sum}
use quic_diver.Nat.Checksum.Fold.{fold_lem}

abbrev pub IsByte : ℕ → Type 0
IsByte b = b < 256

-- Two addresses of the same number of words.
abbrev pub SameWords : ℕ → List ℕ → List ℕ → Type 0
SameWords zero [] [] = Unit
SameWords (suc n) (a ∷ b ∷ old) (c ∷ d ∷ new) =
    (IsByte a × IsByte b × IsByte c × IsByte d) × SameWords n old new
SameWords _ _ _ = ⊥

-- The sum of the loop: the words of the new address come in, the complements of the old ones too.
update_sum-words :
    (n sum : ℕ) (old new : List ℕ)
    → SameWords n old new
    → (update_sum sum old new + word_sum old ≡ sum + word_sum new + n * 0xffff)
      × (update_sum sum old new ≤ sum + n * 131070)
unfolding update_sum word_sum
update_sum-words zero sum [] [] h = (omega arith, omega arith)
update_sum-words (suc n) sum (a ∷ b ∷ old) (c ∷ d ∷ new) h =
    let (e, l) = update_sum-words n (sum + complement (word a b) + word c d) old new h.1 in
    (omega arith, omega arith)
update_sum-words n sum old new h = absurd h

-- The bounds of a call: a word, and addresses of at most 100 words, which keeps the sum a uint32.
pub record Fits (n hc : ℕ) (old new : List ℕ) : Type 0 where
  pub size : n ≤ 100
  pub word_hc : hc ≤ 0xffff
  pub words : SameWords n old new

-- The new checksum is a word, and accounts for exactly the words that were exchanged.
pub csum_update_lem :
    (n hc : ℕ) (old new : List ℕ)
    → Fits n hc old new
    → (csum_update hc old new ≤ 0xffff)
      × ((csum_update hc old new + word_sum new) % 0xffff ≡ (hc + word_sum old) % 0xffff)
unfolding csum_update
csum_update_lem n hc old new h =
    let (sum, bound) = update_sum-words n (complement hc) old new h.words in
    let (fits, same, _) = fold_lem (update_sum (complement hc) old new) 0 (omega arith) in
    (omega arith, omega (arith, sum, same, fits, h.word_hc))

-- A checksum that was right stays right: if the words of a packet with their checksum sum up to 0
-- modulo 0xFFFF before an address is exchanged, they do so after it.
pub csum_update_valid :
    (n hc rest : ℕ) (old new : List ℕ)
    → Fits n hc old new
    → (rest + word_sum old + hc) % 0xffff ≡ 0
    → (rest + word_sum new + csum_update hc old new) % 0xffff ≡ 0
csum_update_valid n hc rest old new h valid =
    let (_, same) = csum_update_lem n hc old new h in omega (arith, same, valid)

-- Exchanging an address and exchanging it back gives the checksum of before, up to the two forms of
-- zero.
pub csum_update_back :
    (n hc : ℕ) (old new : List ℕ)
    → Fits n hc old new
    → SameWords n new old
    → csum_update (csum_update hc old new) new old % 0xffff ≡ hc % 0xffff
csum_update_back n hc old new h back =
    let (fits, out) = csum_update_lem n hc old new h in
    let (_, home) =
      csum_update_lem n (csum_update hc old new) new old
        (record { size = h.size; word_hc = fits; words = back }) in
    omega (arith, out, home)
