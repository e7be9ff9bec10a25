-- ===== src/Common/Text.antt =====
-- Go strings and byte slices as lists of byte values: comparison, `len`, concatenation, prefixes,
-- and `strings.TrimSpace` through the UTF-8 encodings of the Unicode white space.
use Prim.Native.Nat.{ℕ, suc, ◌+◌}
use Prim.Native.Char.{code}
use Prim.Native.String.{String}
use mathlib.Core.Path.{◌≡◌, refl}
use mathlib.Core.Logic.{◌↔◌, ◌≢◌, ◌⊎◌, inl, inr}
use mathlib.Core.Bool.{Bool, true, false, ◌&&◌, ◌||◌, not}
use mathlib.Core.List.{List, [], ◌∷◌, ◌++◌, reverse}
use native.Mathlib.Omega.{arith}
use ai_go.Common.Tests.{ltb, leb, ◌==◌, Bool-cases}

abbrev pub Text : Type 0
Text = List ℕ

-- The bytes of a literal, which is ASCII wherever the source is modelled.
abbrev pub codes : String → Text
codes String.[] = []
codes (String.◌∷◌ c s) = code c ∷ codes s

-- `a == b` on strings.
unfoldable pub eq_text : Text → Text → Bool
eq_text [] [] = true
eq_text [] (b ∷ bs) = false
eq_text (a ∷ as_) [] = false
eq_text (a ∷ as_) (b ∷ bs) = a == b && eq_text as_ bs

pub eq_text_sound : (a b : Text) → eq_text a b ≡ true → a ≡ b
unfolding eq_text
eq_text_sound [] [] h = refl
eq_text_sound [] (b ∷ bs) h = ground arith
eq_text_sound (a ∷ as_) [] h = ground arith
eq_text_sound (a ∷ as_) (b ∷ bs) h = ground (arith, eq_text_sound as_ bs)

pub eq_text_refl : (a : Text) → eq_text a a ≡ true
unfolding eq_text
eq_text_refl [] = refl
eq_text_refl (a ∷ as_) = ground (arith, eq_text_refl as_)

pub eq_text_iff : (a b : Text) → (eq_text a b ≡ true) ↔ (a ≡ b)
eq_text_iff a b = (eq_text_sound a b, λ e. ground (arith, eq_text_refl a))

pub text-cases : (a b : Text) → (a ≡ b) ⊎ (a ≢ b)
text-cases a b = elim (Bool-cases (eq_text a b)) [
  | inl e ↦ inl (eq_text_sound a b e)
  | inr e ↦ inr λ p. ground (arith, eq_text_refl a)
]

-- `value == ""`.
abbrev pub is_empty : Text → Bool
is_empty [] = true
is_empty (x ∷ xs) = false

-- The order of byte strings.
unfoldable pub text_before : Text → Text → Bool
text_before [] [] = false
text_before [] (y ∷ ys) = true
text_before (x ∷ xs) [] = false
text_before (x ∷ xs) (y ∷ ys) = ltb x y || (x == y && text_before xs ys)

-- `len(value)`, in bytes.
abbrev pub length {ℓ} : {A : Type ℓ} → List A → ℕ
length [] = 0
length (x ∷ xs) = suc (length xs)

pub length-append {ℓ} : {A : Type ℓ} (xs ys : List A) → length (xs ++ ys) ≡ length xs + length ys
length-append [] ys = omega arith
length-append (x ∷ xs) ys = omega (arith, length-append xs ys)

-- `strings.HasPrefix(value, prefix)`, the prefix first.
unfoldable pub has_prefix : Text → Text → Bool
has_prefix [] value = true
has_prefix (p ∷ ps) [] = false
has_prefix (p ∷ ps) (v ∷ vs) = p == v && has_prefix ps vs

-- `strings.TrimPrefix(value, prefix)` behind a successful `HasPrefix`: the rest of the value.
unfoldable pub after_prefix : Text → Text → Text
after_prefix [] value = value
after_prefix (p ∷ ps) [] = []
after_prefix (p ∷ ps) (v ∷ vs) = after_prefix ps vs

pub has_prefix-append : (p v : Text) → has_prefix p (p ++ v) ≡ true
unfolding has_prefix
has_prefix-append [] v = refl
has_prefix-append (a ∷ p) v = ground (arith, has_prefix-append p v)

pub after_prefix-append : (p v : Text) → after_prefix p (p ++ v) ≡ v
unfolding after_prefix
after_prefix-append [] v = refl
after_prefix-append (a ∷ p) v = after_prefix-append p v

pub append-after_prefix : (p v : Text) → has_prefix p v ≡ true → p ++ after_prefix p v ≡ v
unfolding has_prefix after_prefix
append-after_prefix [] v h = refl
append-after_prefix (a ∷ p) [] h = ground arith
append-after_prefix (a ∷ p) (b ∷ v) h = ground (arith, append-after_prefix p v)

-- The white space of one byte, and the longer encodings of `unicode.IsSpace`.
unfoldable pub is_space1 : ℕ → Bool
is_space1 a = (leb 9 a && leb a 13) || a == 32

unfoldable pub is_space2 : ℕ → ℕ → Bool
is_space2 a b = a == 0xc2 && (b == 0x85 || b == 0xa0)

unfoldable pub is_space3 : ℕ → ℕ → ℕ → Bool
is_space3 a b c =
    (a == 0xe1 && b == 0x9a && c == 0x80)
    || (a == 0xe2
        && ((b == 0x80 && ((leb 0x80 c && leb c 0x8a) || c == 0xa8 || c == 0xa9 || c == 0xaf))
            || (b == 0x81 && c == 0x9f)))
    || (a == 0xe3 && b == 0x80 && c == 0x80)

unfoldable pub starts_with_space : Text → Bool
unfolding is_space1 is_space2 is_space3
starts_with_space [] = false
starts_with_space (a ∷ []) = is_space1 a
starts_with_space (a ∷ b ∷ []) = is_space1 a || is_space2 a b
starts_with_space (a ∷ b ∷ c ∷ r) = is_space1 a || is_space2 a b || is_space3 a b c

-- The same on the reversed bytes.
unfoldable pub ends_with_space : Text → Bool
unfolding is_space1 is_space2 is_space3
ends_with_space [] = false
ends_with_space (a ∷ []) = is_space1 a
ends_with_space (b ∷ a ∷ []) = is_space1 b || is_space2 a b
ends_with_space (c ∷ b ∷ a ∷ r) = is_space1 c || is_space2 b c || is_space3 a b c

-- `value == strings.TrimSpace(value)`: the trim removes nothing at either end.
unfoldable pub is_trimmed : Text → Bool
unfolding starts_with_space ends_with_space
is_trimmed value = not (starts_with_space value) && not (ends_with_space (reverse value))

-- `strings.TrimSpace(value) == ""`: white space and nothing else.
unfoldable pub is_blank : Text → Bool
unfolding is_space1 is_space2 is_space3
is_blank [] = true
is_blank (a ∷ []) = is_space1 a
is_blank (a ∷ b ∷ []) = (is_space1 a && is_space1 b) || is_space2 a b
is_blank (a ∷ b ∷ c ∷ r) = elim (is_space1 a) [
  | true ↦ is_blank (b ∷ c ∷ r)
  | false ↦ elim (is_space2 a b) [
    | true ↦ is_blank (c ∷ r)
    | false ↦ elim (is_space3 a b c) [ true ↦ is_blank r | false ↦ false ]
  ]
]

pub is_empty-ne_nil : (t : Text) → t ≢ [] → is_empty t ≡ false
is_empty-ne_nil [] h = absurd (h refl)
is_empty-ne_nil (c ∷ t) h = refl
