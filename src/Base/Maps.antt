-- ===== src/Base/Maps.antt =====
-- Go's maps: a map is the function that reads it; writes and deletes decide the key.
use mathlib.Core.Logic.{ite, if_neg, ◌⊎◌, inl, inr}
use mathlib.Core.Path.{◌≡◌, refl, ◌∙◌}
use native.Mathlib.Omega.{arith}
use mathlib.Core.List.{List, [], ◌∷◌}
use mathlib.Core.Option.{Option, none, some}

abbrev pub Map {ℓ κ} : Type ℓ → Type κ → Type (ℓ ⊔ κ)
Map K V = K → Option V

abbrev pub empty_map {ℓ κ} : {K : Type ℓ} {V : Type κ} → Map K V
empty_map k = none

module _ {ℓ κ} {K : Type ℓ} {V : Type κ} (dec : Discrete K) where
  -- `m[k] = v`
  abbrev pub update : Map K V → K → V → Map K V
  update m k v j = ite (dec j k) (some v) (m j)

  -- `delete(m, k)`
  abbrev pub delete : Map K V → K → Map K V
  delete m k j = ite (dec j k) none (m j)

  -- `for _, k := range ks { delete(m, k) }`
  abbrev pub delete_all : Map K V → List K → Map K V
  delete_all m [] = m
  delete_all m (k ∷ ks) = delete_all (delete m k) ks

  -- `for _, k := range ks { m[k] = v }`
  abbrev pub update_all : Map K V → List K → V → Map K V
  update_all m [] v = m
  update_all m (k ∷ ks) v = update_all (update m k v) ks v

-- `k` is one of the listed keys.
abbrev pub In : {A : Type 0} → A → List A → Type 0
In k [] = ⊥
In k (x ∷ xs) = (k ≡ x) ⊎ In k xs

module _ {K V : Type 0} (dec : Discrete K) where
  pub delete_all_absent :
      (m : Map K V) (ks : List K) (k : K) → m k ≡ none → delete_all dec m ks k ≡ none
  delete_all_absent m [] k h = h
  delete_all_absent m (j ∷ ks) k h = delete_all_absent (delete dec m j) ks k (ground arith)

  pub delete_all-In : (m : Map K V) (ks : List K) (k : K) → In k ks → delete_all dec m ks k ≡ none
  delete_all-In m [] k h = elim h [ ]
  delete_all-In m (j ∷ ks) k (inl e) = delete_all_absent (delete dec m j) ks k (ground arith)
  delete_all-In m (j ∷ ks) k (inr h) = delete_all-In (delete dec m j) ks k h

  pub update_all_present :
      (m : Map K V) (ks : List K) (v : V) (k : K) → m k ≡ some v → update_all dec m ks v k ≡ some v
  update_all_present m [] v k h = h
  update_all_present m (j ∷ ks) v k h = update_all_present (update dec m j v) ks v k (ground arith)

  pub update_all-In :
      (m : Map K V) (ks : List K) (v : V) (k : K) → In k ks → update_all dec m ks v k ≡ some v
  update_all-In m [] v k h = elim h [ ]
  update_all-In m (j ∷ ks) v k (inl e) = update_all_present (update dec m j v) ks v k (ground arith)
  update_all-In m (j ∷ ks) v k (inr h) = update_all-In (update dec m j v) ks v k h

  pub update_all_out :
      (m : Map K V) (ks : List K) (v : V) (k : K) → ¬ In k ks → update_all dec m ks v k ≡ m k
  update_all_out m [] v k h = refl
  update_all_out m (j ∷ ks) v k h =
      update_all_out (update dec m j v) ks v k (λ i. h (inr i))
      ∙ if_neg (dec k j) (λ e. h (inl e)) _ _
