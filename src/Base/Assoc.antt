-- ===== src/Base/Assoc.antt =====
-- Tables as lists of rows: a key and what stands under it. A table of SQL with a primary key is such
-- a list, with an insertion at the end and a replacement in place.
use Prim.Native.Nat.{ℕ, ◌+◌, ◌≤◌}
use mathlib.Core.Path.{◌≡◌, refl, ◌∙◌}
use mathlib.Core.Logic.{ite, if_neg, ◌≢◌}
use mathlib.Core.Bool.{Bool}
use mathlib.Core.List.{List, [], ◌∷◌}
use mathlib.Core.Option.{Option, none, some}
use native.Mathlib.Omega.{arith}
use quic_diver.Base.Tests.{if◌then◌else◌}

abbrev pub Rows : Type 0 → Type 0 → Type 0
Rows K V = List (K × V)

module _ {K V : Type 0} (dec : Discrete K) where
  -- `SELECT … WHERE key = k`
  abbrev pub row_of : Rows K V → K → Option V
  row_of [] k = none
  row_of ((j, v) ∷ rs) k = ite (dec k j) (some v) (row_of rs k)

  -- `INSERT … ON CONFLICT DO UPDATE`
  abbrev pub put_row : Rows K V → K → V → Rows K V
  put_row [] k v = (k, v) ∷ []
  put_row ((j, w) ∷ rs) k v = ite (dec k j) ((j, v) ∷ rs) ((j, w) ∷ put_row rs k v)

  -- `DELETE … WHERE key = k`
  abbrev pub delete_row : Rows K V → K → Rows K V
  delete_row [] k = []
  delete_row ((j, w) ∷ rs) k = let rest = delete_row rs k in ite (dec k j) rest ((j, w) ∷ rest)

  -- Every key has one row.
  abbrev pub IsTable : Rows K V → Type 0
  IsTable [] = Unit
  IsTable ((k, v) ∷ rs) = (row_of rs k ≡ none) × IsTable rs

  pub row_of-put_row :
      (rs : Rows K V) (k j : K) (v : V)
      → row_of (put_row rs k v) j ≡ ite (dec j k) (some v) (row_of rs j)
  row_of-put_row [] k j v = refl
  row_of-put_row ((i, w) ∷ rs) k j v = ground (arith, row_of-put_row rs k j v)

  pub row_of-put_row_at : (rs : Rows K V) (k : K) (v : V) → row_of (put_row rs k v) k ≡ some v
  row_of-put_row_at rs k v = ground (arith, row_of-put_row rs k k v)

  pub row_of-put_row_other :
      (rs : Rows K V) (k j : K) (v : V) → j ≢ k → row_of (put_row rs k v) j ≡ row_of rs j
  row_of-put_row_other rs k j v q = row_of-put_row rs k j v ∙ if_neg (dec j k) q _ _

  pub row_of-delete_row :
      (rs : Rows K V) (k j : K) → row_of (delete_row rs k) j ≡ ite (dec j k) none (row_of rs j)
  row_of-delete_row [] k j = ground arith
  row_of-delete_row ((i, w) ∷ rs) k j = ground (arith, row_of-delete_row rs k j)

module _ {K V : Type 0} where
  -- `SELECT COUNT(*) … WHERE p`
  abbrev pub count_rows : (K → V → Bool) → Rows K V → ℕ
  count_rows p [] = 0
  count_rows p ((k, v) ∷ rs) = (if p k v then 1 else 0) + count_rows p rs

  -- `DELETE … WHERE NOT p`
  abbrev pub keep_rows : (K → V → Bool) → Rows K V → Rows K V
  keep_rows p [] = []
  keep_rows p ((k, v) ∷ rs) = let rest = keep_rows p rs in if p k v then (k, v) ∷ rest else rest

  pub count_rows-put_row :
      (dec : Discrete K) (p : K → V → Bool) (rs : Rows K V) (k : K) (v : V)
      → row_of dec rs k ≡ none
      → count_rows p (put_row dec rs k v) ≡ count_rows p rs + (if p k v then 1 else 0)
  count_rows-put_row dec p [] k v h = omega arith
  count_rows-put_row dec p ((j, w) ∷ rs) k v h = ground (arith, count_rows-put_row dec p rs k v)

  -- A replaced row counts for the old one.
  pub count_rows-put_row_old :
      (dec : Discrete K) (p : K → V → Bool) (rs : Rows K V) (k : K) (v w : V)
      → row_of dec rs k ≡ some w
      → count_rows p (put_row dec rs k v) + (if p k w then 1 else 0)
        ≡ count_rows p rs + (if p k v then 1 else 0)
  count_rows-put_row_old dec p [] k v w h = ground arith
  count_rows-put_row_old dec p ((j, x) ∷ rs) k v w h =
      ground (arith, count_rows-put_row_old dec p rs k v w)

  pub count_rows-keep_rows :
      (p q : K → V → Bool) (rs : Rows K V) → count_rows p (keep_rows q rs) ≤ count_rows p rs
  count_rows-keep_rows p q [] = omega arith
  count_rows-keep_rows p q ((k, v) ∷ rs) = ground (arith, count_rows-keep_rows p q rs)

  pub count_rows-delete_row :
      (dec : Discrete K) (p : K → V → Bool) (rs : Rows K V) (k : K)
      → count_rows p (delete_row dec rs k) ≤ count_rows p rs
  count_rows-delete_row dec p [] k = omega arith
  count_rows-delete_row dec p ((j, v) ∷ rs) k = ground (arith, count_rows-delete_row dec p rs k)
