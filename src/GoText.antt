-- ===== src/GoText.antt =====
-- Go strings as lists of code points, and the functions of `strings` and `unicode` that the
-- collector calls: TrimPrefix, TrimSpace, ToLower, IsSpace, and Itoa and FormatBool of `strconv`. Every
-- text that the collector handles comes out of a JSON document, a flag or an environment variable and is taken
-- to be valid UTF-8. `unicode.ToLower` is written out on ASCII; its table for the other code points
-- is a parameter.
use Prim.Native.Char.{code}
use tdarr_exporter.Prelude.{
  ℕ, zero, suc, ◌+◌, ◌/◌, ◌%◌, String, Bool, true, false, ◌&&◌, ◌||◌, List, [], ◌∷◌, map, Option,
  none, some, ltb, leb, ◌==◌, if◌then◌else◌, Eq, ℕ_eq, list_eq, list_eq_iff,
}
use tdarr_exporter.Prelude.Int.{ℤ, pos, negsuc}
use mathlib.Core.List.{reverse}

abbrev pub Text : Type 0
Text = List ℕ

instance abbrev pub Text_eq : Eq Text
Text_eq = record { beq = list_eq; beq_iff = list_eq_iff }

-- A literal of the source.
abbrev pub lit : String → Text
lit String.[] = []
lit (String.◌∷◌ c s) = code c ∷ lit s

abbrev pub is_empty : Text → Bool
is_empty [] = true
is_empty (_ ∷ _) = false

-- `unicode.IsSpace`: the code points with the property White_Space.
unfoldable pub is_space : ℕ → Bool
is_space c =
    leb 0x9 c && leb c 0xd
    || c == 0x20
    || c == 0x85
    || c == 0xa0
    || c == 0x1680
    || leb 0x2000 c && leb c 0x200a
    || c == 0x2028
    || c == 0x2029
    || c == 0x202f
    || c == 0x205f
    || c == 0x3000

-- What is left of a text behind a prefix.
unfoldable pub strip_prefix : Text → Text → Option Text
strip_prefix [] s = some s
strip_prefix (c ∷ p) [] = none
strip_prefix (c ∷ p) (d ∷ s) = if c == d then strip_prefix p s else none

unfoldable pub trim_prefix : Text → Text → Text
unfolding strip_prefix
trim_prefix s p = elim (strip_prefix p s) [ none ↦ s | some r ↦ r ]

unfoldable pub trim_left : Text → Text
trim_left [] = []
trim_left (c ∷ s) = if is_space c then trim_left s else c ∷ s

unfoldable pub trim_space : Text → Text
unfolding trim_left
trim_space s = reverse (trim_left (reverse (trim_left s)))

-- `unicode.ToLower` and `strings.ToLower`, over the table for code points from 128 on.
module _ (lower_table : ℕ → ℕ) where
  unfoldable pub lower_rune : ℕ → ℕ
  lower_rune c =
      if ltb c 128 then (if leb b'A' c && leb c b'Z' then c + 32 else c) else lower_table c

  unfoldable pub to_lower : Text → Text
  unfolding lower_rune
  to_lower s = map lower_rune s

-- The decimal digits of a number in front of `acc`; `fuel` above the number is enough.
unfoldable pub show_digits : ℕ → ℕ → Text → Text
show_digits zero n acc = acc
show_digits (suc fuel) n acc = elim (ltb n 10) [
  | true ↦ (n + b'0') ∷ acc
  | false ↦ show_digits fuel (n / 10) ((n % 10 + b'0') ∷ acc)
]

-- `strconv.Itoa`.
unfoldable pub itoa : ℤ → Text
unfolding show_digits
itoa (pos n) = show_digits (suc n) n []
itoa (negsuc n) = b'-' ∷ show_digits (suc (suc n)) (suc n) []

-- `strconv.FormatBool`.
abbrev pub format_bool : Bool → Text
format_bool true = lit "true"
format_bool false = lit "false"
