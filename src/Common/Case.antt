-- ===== src/Common/Case.antt =====
-- `strings.TrimSpace` where its result is used, `strings.HasSuffix`, `strings.ToLower` and
-- `strings.ToUpper`. Bytes above 127 are left to the Unicode tables, which are a parameter.
use Prim.Native.Nat.{ℕ, ◌+◌, ◌-◌}
use mathlib.Core.Bool.{Bool, true, false, ◌&&◌}
use mathlib.Core.List.{[], ◌∷◌, reverse, map}
use ai_go.Common.Tests.{ltb, leb, if◌then◌else◌}
use ai_go.Common.Text.{Text, has_prefix, is_space1, is_space2, is_space3}

-- The value behind its leading white space.
unfoldable pub drop_space : Text → Text
unfolding is_space1 is_space2 is_space3
drop_space [] = []
drop_space (a ∷ []) = if is_space1 a then [] else a ∷ []
drop_space (a ∷ b ∷ []) = elim (is_space1 a) [
  | true ↦ drop_space (b ∷ [])
  | false ↦ if is_space2 a b then [] else a ∷ b ∷ []
]
drop_space (a ∷ b ∷ c ∷ r) = elim (is_space1 a) [
  | true ↦ drop_space (b ∷ c ∷ r)
  | false ↦ elim (is_space2 a b) [
    | true ↦ drop_space (c ∷ r)
    | false ↦ elim (is_space3 a b c) [ true ↦ drop_space r | false ↦ a ∷ b ∷ c ∷ r ]
  ]
]

-- The same at the end, on the reversed bytes.
unfoldable pub drop_space_end : Text → Text
unfolding is_space1 is_space2 is_space3
drop_space_end [] = []
drop_space_end (a ∷ []) = if is_space1 a then [] else a ∷ []
drop_space_end (b ∷ a ∷ []) = elim (is_space1 b) [
  | true ↦ drop_space_end (a ∷ [])
  | false ↦ if is_space2 a b then [] else b ∷ a ∷ []
]
drop_space_end (c ∷ b ∷ a ∷ r) = elim (is_space1 c) [
  | true ↦ drop_space_end (b ∷ a ∷ r)
  | false ↦ elim (is_space2 b c) [
    | true ↦ drop_space_end (a ∷ r)
    | false ↦ elim (is_space3 a b c) [ true ↦ drop_space_end r | false ↦ c ∷ b ∷ a ∷ r ]
  ]
]

unfoldable pub trim_space : Text → Text
unfolding drop_space drop_space_end
trim_space value = reverse (drop_space_end (reverse (drop_space value)))

-- `strings.HasSuffix(value, suffix)`, the suffix first.
unfoldable pub has_suffix : Text → Text → Bool
unfolding has_prefix
has_suffix suffix value = has_prefix (reverse suffix) (reverse value)

unfoldable pub is_ascii : Text → Bool
is_ascii [] = true
is_ascii (b ∷ bs) = ltb b 0x80 && is_ascii bs

abbrev pub lower_byte : ℕ → ℕ
lower_byte b = if leb 65 b && leb b 90 then b + 32 else b

abbrev pub upper_byte : ℕ → ℕ
upper_byte b = if leb 97 b && leb b 122 then b - 32 else b

-- `strings.Map(unicode.ToLower, s)` and `strings.Map(unicode.ToUpper, s)`.
pub record UnicodeCase : Type 0 where
  pub map_lower : Text → Text
  pub map_upper : Text → Text

unfoldable pub to_lower : UnicodeCase → Text → Text
unfolding is_ascii
to_lower u s = if is_ascii s then map lower_byte s else u.map_lower s

unfoldable pub to_upper : UnicodeCase → Text → Text
unfolding is_ascii
to_upper u s = if is_ascii s then map upper_byte s else u.map_upper s
