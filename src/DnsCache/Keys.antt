-- ===== src/DnsCache/Keys.antt =====
-- Taking a key out of a list of different keys.
use quic_diver.Base.{
  suc, ◌≡◌, refl, sym, ap, ◌∙◌, inl, inr, List, [], ◌∷◌, In, Str, Str-discrete, length, subst,
}
use quic_diver.DnsCache.{remove_key}

abbrev pub IsUnique : List Str → Type 0
IsUnique [] = Unit
IsUnique (x ∷ xs) = (¬ In x xs) × IsUnique xs

remove_key-here : (k x : Str) (xs : List Str) → x ≡ k → remove_key k (x ∷ xs) ≡ xs
unfolding remove_key
remove_key-here k x xs h =
    elim (Str-discrete x k) as (λ d. elim d [ yes e ↦ xs | no e ↦ x ∷ remove_key k xs ] ≡ xs) [
      | yes e ↦ refl
      | no e ↦ absurd (e h)
    ]

remove_key-past :
    (k x : Str) (xs : List Str) → ¬ (x ≡ k) → remove_key k (x ∷ xs) ≡ x ∷ remove_key k xs
unfolding remove_key
remove_key-past k x xs h =
    elim (Str-discrete x k)
      as (λ d. elim d [ yes e ↦ xs | no e ↦ x ∷ remove_key k xs ] ≡ x ∷ remove_key k xs) [
        | yes e ↦ absurd (h e)
        | no e ↦ refl
      ]

pub length-remove_key :
    (k : Str) (xs : List Str) → In k xs → suc (length (remove_key k xs)) ≡ length xs
length-remove_key k [] i = elim i [ ]
length-remove_key k (x ∷ xs) i = elim (Str-discrete x k) [
  | yes e ↦ ap (λ ys. suc (length ys)) (remove_key-here k x xs e)
  | no e ↦ elim i [
    | inl h ↦ absurd (e (sym h))
    | inr h ↦
        ap (λ ys. suc (length ys)) (remove_key-past k x xs e) ∙ ap suc (length-remove_key k xs h)
  ]
]

pub In-remove_key : (j k : Str) (xs : List Str) → In j (remove_key k xs) → In j xs
unfolding remove_key
In-remove_key j k [] i = i
In-remove_key j k (x ∷ xs) i = elim (Str-discrete x k) [
  | yes e ↦ inr (subst (In j) (remove_key-here k x xs e) i)
  | no e ↦ elim (subst (In j) (remove_key-past k x xs e) i) [
    | inl h ↦ inl h
    | inr h ↦ inr (In-remove_key j k xs h)
  ]
]

pub remove_key-In : (j k : Str) (xs : List Str) → ¬ (j ≡ k) → In j xs → In j (remove_key k xs)
unfolding remove_key
remove_key-In j k [] n i = i
remove_key-In j k (x ∷ xs) n i = elim (Str-discrete x k) [
  | yes e ↦
      subst (In j) (sym (remove_key-here k x xs e))
        (elim i [ inl h ↦ absurd (n (h ∙ e)) | inr h ↦ h ])
  | no e ↦
      subst (In j) (sym (remove_key-past k x xs e))
        (elim i [ inl h ↦ inl h | inr h ↦ inr (remove_key-In j k xs n h) ])
]

pub remove_key_absent : (k : Str) (xs : List Str) → IsUnique xs → ¬ In k (remove_key k xs)
unfolding remove_key
remove_key_absent k [] u i = elim i [ ]
remove_key_absent k (x ∷ xs) u i = elim (Str-discrete x k) [
  | yes e ↦ u.0 (subst (λ y. In y xs) (sym e) (subst (In k) (remove_key-here k x xs e) i))
  | no e ↦ elim (subst (In k) (remove_key-past k x xs e) i) [
    | inl h ↦ e (sym h)
    | inr h ↦ remove_key_absent k xs u.1 h
  ]
]

pub remove_key-IsUnique : (k : Str) (xs : List Str) → IsUnique xs → IsUnique (remove_key k xs)
unfolding remove_key
remove_key-IsUnique k [] u = tt
remove_key-IsUnique k (x ∷ xs) u = elim (Str-discrete x k) [
  | yes e ↦ subst IsUnique (sym (remove_key-here k x xs e)) u.1
  | no e ↦
      subst IsUnique (sym (remove_key-past k x xs e))
        ((λ i. u.0 (In-remove_key x k xs i)), remove_key-IsUnique k xs u.1)
]
