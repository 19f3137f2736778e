-- ===== src/Base/Trim.antt =====
-- Laws of `TrimSpace`.

use mathlib.Core.Path.{◌≡◌, refl, sym, ap, subst, ◌∙◌}
use mathlib.Core.Logic.{◌≢◌, inl, inr}
use mathlib.Core.Bool.{true, false}
use mathlib.Core.List.{[], ◌∷◌, ◌++◌, reverse, reverse-reverse, reverse-append}
use native.Mathlib.Omega.{arith}
use quic_diver.Base.Tests.{Bool-cases}
use quic_diver.Base.Text.{Str, is_space, trim_left, trim_right, trim_space, has_prefix, drop_prefix}

-- No white space in front.
abbrev pub FirstFine : Str → Type 0
FirstFine [] = Unit
FirstFine (c ∷ s) = is_space c ≡ false

abbrev pub IsTrimmed : Str → Type 0
IsTrimmed s = FirstFine s × FirstFine (reverse s)

trim_left-FirstFine : (s : Str) → FirstFine (trim_left s)
unfolding trim_left
trim_left-FirstFine [] = tt
trim_left-FirstFine (c ∷ s) = ground (arith, trim_left-FirstFine s)

trim_left_fix : (s : Str) → FirstFine s → trim_left s ≡ s
unfolding trim_left
trim_left_fix [] h = refl
trim_left_fix (c ∷ s) h = ground arith

FirstFine-append : (s t : Str) → s ≢ [] → FirstFine s → FirstFine (s ++ t)
FirstFine-append [] t other h = absurd (other refl)
FirstFine-append (c ∷ s) t other h = h

FirstFine-prefix : (s t : Str) → FirstFine (s ++ t) → FirstFine s
FirstFine-prefix [] t h = tt
FirstFine-prefix (c ∷ s) t h = h

trim_left_suffix : (s : Str) → (pre : Str) × (s ≡ pre ++ trim_left s)
unfolding trim_left
trim_left_suffix [] = ([], refl)
trim_left_suffix (c ∷ s) =
    let (pre, e) = trim_left_suffix s in
    elim (Bool-cases (is_space c)) [ inl h ↦ (c ∷ pre, rw h (ap (◌∷◌ c) e)) | inr h ↦ ([], rw h) ]

trim_right_prefix : (s : Str) → (post : Str) × (s ≡ trim_right s ++ post)
unfolding trim_right
trim_right_prefix s =
    let (pre, e) = trim_left_suffix (reverse s) in
    (
      reverse pre,
      sym (reverse-reverse s) ∙ ap reverse e ∙ reverse-append pre (trim_left (reverse s)),
    )

trim_right_fix : (s : Str) → FirstFine (reverse s) → trim_right s ≡ s
unfolding trim_right
trim_right_fix s h = ap reverse (trim_left_fix (reverse s) h) ∙ reverse-reverse s

trim_right-last : (s : Str) → FirstFine (reverse (trim_right s))
unfolding trim_right
trim_right-last s =
    subst FirstFine (sym (reverse-reverse (trim_left (reverse s))))
      (trim_left-FirstFine (reverse s))

trim_right-FirstFine : (s : Str) → FirstFine s → FirstFine (trim_right s)
trim_right-FirstFine s h =
    let (post, e) = trim_right_prefix s in
    FirstFine-prefix (trim_right s) post (subst FirstFine e h)

pub trim_space-IsTrimmed : (s : Str) → IsTrimmed (trim_space s)
unfolding trim_space
trim_space-IsTrimmed s =
    (trim_right-FirstFine (trim_left s) (trim_left-FirstFine s), trim_right-last (trim_left s))

pub trim_space_fix : (s : Str) → IsTrimmed s → trim_space s ≡ s
unfolding trim_space
trim_space_fix s (first, last) = ap trim_right (trim_left_fix s first) ∙ trim_right_fix s last

-- Behind a text, a trimmed one keeps the end fine.
pub append-IsTrimmed :
    (s t : Str) → s ≢ [] → FirstFine s → t ≢ [] → IsTrimmed t → IsTrimmed (s ++ t)
append-IsTrimmed s t hs fine ht trimmed = (
  FirstFine-append s t hs fine,
  subst FirstFine (sym (reverse-append s t)) (
      FirstFine-append (reverse t) (reverse s) (λ e. ht (sym (reverse-reverse t) ∙ ap reverse e))
        trimmed.1),
)

pub has_prefix-append : (s p : Str) → has_prefix s p ≡ true → s ≡ p ++ drop_prefix s p
has_prefix-append s [] h = refl
has_prefix-append [] (d ∷ p) h = cc
has_prefix-append (c ∷ s) (d ∷ p) h = ground (arith, has_prefix-append s p)
