-- ===== src/Base/Text.antt =====
-- Go's package strings, on byte strings. What it does on bytes from 0x80 on goes through the tables
-- of package unicode, which are a parameter.
use Prim.Native.Nat.{ℕ, ◌+◌}
use mathlib.Core.Path.{◌≡◌}
use mathlib.Core.Bool.{Bool, true, false, ◌&&◌, ◌||◌}
use mathlib.Core.List.{[], ◌∷◌, map}
use native.Mathlib.Omega.{arith}
use go_kafka.Base.Tests.{leb, ltb, nat_eq, if◌then◌else◌}
use go_kafka.Base.Keys.{Bytes}

-- `strings.Map(unicode.ToLower, s)`, the rest of `strings.EqualFold` from the first byte on that is
-- not ASCII, and `strings.TrimFunc(s, unicode.IsSpace) == ""`.
pub record Unicode : Type 0 where
  pub map_lower : Bytes → Bytes
  pub fold_rest : Bytes → Bytes → Bool
  pub trims_empty : Bytes → Bool

abbrev pub is_ascii : Bytes → Bool
is_ascii [] = true
is_ascii (c ∷ cs) = ltb c 128 && is_ascii cs

abbrev pub upper : ℕ → Bool
upper c = leb 65 c && leb c 90

abbrev pub lower_byte : ℕ → ℕ
lower_byte c = if upper c then c + 32 else c

-- `c` and `d` are one ASCII letter in its two cases.
abbrev pub folds : ℕ → ℕ → Bool
folds c d = (upper c && nat_eq d (c + 32)) || (upper d && nat_eq c (d + 32))

abbrev pub is_space : ℕ → Bool
is_space c = nat_eq c 32 || (leb 9 c && leb c 13)

-- Whether `sub` begins `s`.
unfoldable pub has_prefix : Bytes → Bytes → Bool
has_prefix s [] = true
has_prefix [] (c ∷ cs) = false
has_prefix (d ∷ ds) (c ∷ cs) = nat_eq d c && has_prefix ds cs

unfoldable pub contains : Bytes → Bytes → Bool
unfolding has_prefix
contains [] sub = has_prefix [] sub
contains (d ∷ ds) sub = has_prefix (d ∷ ds) sub || contains ds sub

module _ (u : Unicode) where
  unfoldable pub to_lower : Bytes → Bytes
  to_lower s = if is_ascii s then map lower_byte s else u.map_lower s

  unfoldable pub equal_fold : Bytes → Bytes → Bool
  equal_fold [] [] = true
  equal_fold [] (d ∷ ds) = false
  equal_fold (c ∷ cs) [] = false
  equal_fold (c ∷ cs) (d ∷ ds) =
      if leb 128 c || leb 128 d
      then u.fold_rest (c ∷ cs) (d ∷ ds)
      else ((nat_eq c d || folds c d) && equal_fold cs ds)

  -- `strings.TrimSpace(s) == ""`
  unfoldable pub trims_to_empty : Bytes → Bool
  trims_to_empty [] = true
  trims_to_empty (c ∷ cs) =
      if leb 128 c then u.trims_empty (c ∷ cs) else (is_space c && trims_to_empty cs)

-- On ASCII bytes one letter folds to another exactly where their lower cases agree.
pub lower_byte-folds : (c d : ℕ) → (nat_eq c d || folds c d) ≡ nat_eq (lower_byte c) (lower_byte d)
lower_byte-folds c d = ground arith
