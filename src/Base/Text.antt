-- ===== src/Base/Text.antt =====
-- Go strings as lists of bytes, and the functions of package strings that the code calls.
-- `TrimSpace` is modelled on ASCII white space: the texts it is given are ASCII labels.
use Prim.Native.Char.{code}
use Prim.Native.Nat.{ℕ}
use Prim.Native.String.{String}
use mathlib.Core.Bool.{Bool, true, false, ◌||◌, ◌&&◌}
use mathlib.Core.List.{List, [], ◌∷◌, reverse}
use mathlib.Core.Option.{Option, none, some}
use native.Mathlib.Decide.{ℕ_discrete}
use quic_diver.Base.Tests.{◌==◌, leb, if◌then◌else◌}

abbrev pub Str : Type 0
Str = List ℕ

-- An ASCII literal.
abbrev pub bytes : String → Str
bytes String.[] = []
bytes (String.◌∷◌ c s) = code c ∷ bytes s

unfoldable pub Str-discrete : Discrete (List ℕ)
unfolding ℕ_discrete
Str-discrete = hlevel ℕ_discrete

abbrev pub is_space : ℕ → Bool
is_space c = c == 0x20 || (leb 0x09 c && leb c 0x0d)

unfoldable pub trim_left : Str → Str
trim_left [] = []
trim_left (c ∷ s) = let rest = trim_left s in if is_space c then rest else c ∷ s

unfoldable pub trim_right : Str → Str
unfolding trim_left
trim_right s = reverse (trim_left (reverse s))

-- `strings.TrimSpace`
unfoldable pub trim_space : Str → Str
unfolding trim_left trim_right
trim_space s = trim_right (trim_left s)

-- `strings.HasPrefix(s, p)`
abbrev pub has_prefix : Str → Str → Bool
has_prefix s [] = true
has_prefix [] (d ∷ p) = false
has_prefix (c ∷ s) (d ∷ p) = c == d && has_prefix s p

abbrev pub drop_prefix : Str → Str → Str
drop_prefix s [] = s
drop_prefix [] (d ∷ p) = []
drop_prefix (c ∷ s) (d ∷ p) = drop_prefix s p

-- `strings.TrimPrefix(s, p)`
abbrev pub trim_prefix : Str → Str → Str
trim_prefix s p = if has_prefix s p then drop_prefix s p else s

-- `strings.Contains(s, b)` at a text of one byte
abbrev pub contains_byte : Str → ℕ → Bool
contains_byte [] b = false
contains_byte (c ∷ s) b = c == b || contains_byte s b

-- `strings.Cut(s, b)` at a text of one byte; `none` where it is not found
abbrev pub cut : Str → ℕ → Option (Str × Str)
cut [] b = none
cut (c ∷ s) b =
    if c == b
    then some ([], s)
    else elim (cut s b) [ none ↦ none | some (before, after) ↦ some (c ∷ before, after) ]
