-- ===== src/Rules/Domain.antt =====
-- What the suffix test on domains accepts.
use quic_diver.Base.{
  ℕ, ◌-◌, ◌≡◌, refl, sym, ap, ◌∙◌, ◌⊎◌, ◌↔◌, inl, inr, Bool-cases, true, false, leb, [], ◌∷◌, ◌++◌,
  arith, Str, Str-discrete, length, take, drop, length-append, take-append-drop, if_pos,
}
use quic_diver.Rules.Geo.{str_eq, has_suffix, suffix_matches, domain_matches, to_lower, trim_dot}

pub str_eq_iff : (a b : Str) → (str_eq a b ≡ true) ↔ (a ≡ b)
str_eq_iff a b = (λ h. ground arith, λ h. if_pos (Str-discrete a b) h true false)

drop-length-append : (x p : Str) → drop (length x) (x ++ p) ≡ p
drop-length-append [] p = refl
drop-length-append (c ∷ x) p = drop-length-append x p

has_suffix-append : (x p : Str) → has_suffix (x ++ p) p ≡ true
unfolding has_suffix
has_suffix-append x p =
    let size : length (x ++ p) - length p ≡ length x = omega (arith, length-append x p) in
    let fits : leb (length p) (length (x ++ p)) ≡ true = ground (arith, length-append x p) in
    rw (fits, size) ((str_eq_iff (drop (length x) (x ++ p)) p).1 (drop-length-append x p))

has_suffix-split : (s p : Str) → has_suffix s p ≡ true → (x : Str) × (s ≡ x ++ p)
unfolding has_suffix
has_suffix-split s p h =
    let n : ℕ = length s - length p in
    let e : drop n s ≡ p = (str_eq_iff (drop n s) p).0 (ground arith) in
    (take n s, sym (take-append-drop n s) ∙ ap (λ (y : Str). take n s ++ y) e)

suffix_matches_fits :
    (s n : Str) → suffix_matches s n ≡ true → (n ≡ s) ⊎ ((x : Str) × (n ≡ x ++ b'.' ∷ s))
unfolding suffix_matches
suffix_matches_fits s n h = elim (Bool-cases (str_eq n s)) [
  | inl same ↦ inl ((str_eq_iff n s).0 same)
  | inr other ↦ inr (has_suffix-split n (b'.' ∷ s) (ground arith))
]

suffix_matches_takes :
    (s n : Str) → (n ≡ s) ⊎ ((x : Str) × (n ≡ x ++ b'.' ∷ s)) → suffix_matches s n ≡ true
unfolding suffix_matches
suffix_matches_takes s n (inl same) = ground (arith, (str_eq_iff n s).1 same)
suffix_matches_takes s n (inr (x, e)) =
    let h : has_suffix n (b'.' ∷ s) ≡ true =
      ap (λ (y : Str). has_suffix y (b'.' ∷ s)) e ∙ has_suffix-append x (b'.' ∷ s) in
    ground arith

-- Up to the case of letters and one final dot, a rule for a domain takes exactly the domain itself
-- and the names that end in a dot and the domain.
pub domain_matches_iff :
    (suffix name : Str)
    → (domain_matches suffix name ≡ true) ↔ (
        (to_lower (trim_dot name) ≡ to_lower (trim_dot suffix))
        ⊎ ((x : Str) × (to_lower (trim_dot name) ≡ x ++ b'.' ∷ to_lower (trim_dot suffix))))
unfolding domain_matches
domain_matches_iff suffix name = (
  suffix_matches_fits (to_lower (trim_dot suffix)) (to_lower (trim_dot name)),
  suffix_matches_takes (to_lower (trim_dot suffix)) (to_lower (trim_dot name)),
)
