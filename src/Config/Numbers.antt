-- ===== src/Config/Numbers.antt =====
-- The functions of `strconv` that internal/config/config.go and its flags call: ParseBool, Atoi,
-- ParseUint in base 10, and ParseInt in base 0, which the flag package uses for an integer. `none` is their error.
use tdarr_exporter.Prelude.{
  ℕ, zero, suc, ◌+◌, ◌-◌, ◌*◌, ◌^◌, Bool, true, false, not, ◌&&◌, ◌||◌, [], ◌∷◌, Option, none, some,
  leb, ltb, ◌==◌, if◌then◌else◌, ℕ_eq, elem,
}
use tdarr_exporter.Prelude.Int.{ℤ, pos, negsuc}
use tdarr_exporter.GoText.{Text, Text_eq, lit}

unfoldable pub parse_bool : Text → Option Bool
parse_bool s =
    if elem s (lit "1" ∷ lit "t" ∷ lit "T" ∷ lit "TRUE" ∷ lit "true" ∷ lit "True" ∷ [])
    then some true
    else if elem s (lit "0" ∷ lit "f" ∷ lit "F" ∷ lit "FALSE" ∷ lit "false" ∷ lit "False" ∷ [])
    then some false
    else none

-- The value of a digit or letter, as a digit of a base of at most 36.
abbrev pub digit_value : ℕ → Option ℕ
digit_value c =
    if leb b'0' c && leb c b'9'
    then some (c - b'0')
    else if leb b'a' c && leb c b'z'
    then some (c - b'a' + 10)
    else if leb b'A' c && leb c b'Z'
    then some (c - b'A' + 10)
    else none

-- The number that digits of a base stand for behind `acc`; underscores are passed over if they may stand.
unfoldable pub digits_value : Bool → ℕ → ℕ → Text → Option ℕ
digits_value underscores base acc [] = some acc
digits_value underscores base acc (c ∷ s) = elim (underscores && c == b'_') [
  | true ↦ digits_value underscores base acc s
  | false ↦ elim (digit_value c) [
    | none ↦ none
    | some d ↦ elim (ltb d base) [
      | true ↦ digits_value underscores base (acc * base + d) s
      | false ↦ none
    ]
  ]
]

abbrev pub at_most : ℕ → Option ℕ → Option ℕ
at_most max none = none
at_most max (some n) = if leb n max then some n else none

-- `strconv.ParseUint(s, 10, bits)` with the largest value `max`.
unfoldable pub parse_uint10 : ℕ → Text → Option ℕ
unfolding digits_value
parse_uint10 max [] = none
parse_uint10 max (c ∷ s) = at_most max (digits_value false 10 0 (c ∷ s))

abbrev negated : ℕ → ℤ
negated n = elim n [ zero ↦ pos 0 | suc m ↦ negsuc m ]

-- A sign in front of a number that `parse` reads up to a largest value, within int64.
abbrev signed : (ℕ → Text → Option ℕ) → Text → Option ℤ
signed parse [] = none
signed parse (c ∷ s) =
    if c == b'-'
    then elim (parse (2 ^ 63) s) [ none ↦ none | some n ↦ some (negated n) ]
    else if c == b'+'
    then elim (parse (2 ^ 63 - 1) s) [ none ↦ none | some n ↦ some (pos n) ]
    else elim (parse (2 ^ 63 - 1) (c ∷ s)) [ none ↦ none | some n ↦ some (pos n) ]

unfoldable pub atoi : Text → Option ℤ
unfolding parse_uint10
atoi = signed parse_uint10

-- `underscoreOK`, behind the sign and the base prefix: what was seen last, and whether the base is 16.
pub data Saw : Type 0 where
  beginning : Saw
  digit : Saw
  underscore : Saw
  neither : Saw

abbrev is_hex_digit : ℕ → Bool
is_hex_digit c = leb b'a' c && leb c b'f' || leb b'A' c && leb c b'F'

abbrev after_underscore : Saw → Bool
after_underscore underscore = true
after_underscore _ = false

abbrev after_digit : Saw → Bool
after_digit digit = true
after_digit _ = false

unfoldable pub underscore_ok : Bool → Saw → Text → Bool
underscore_ok hex saw [] = not (after_underscore saw)
underscore_ok hex saw (c ∷ s) = elim (leb b'0' c && leb c b'9' || hex && is_hex_digit c) [
  | true ↦ underscore_ok hex digit s
  | false ↦ elim (c == b'_') [
    | true ↦ after_digit saw && underscore_ok hex underscore s
    | false ↦ not (after_underscore saw) && underscore_ok hex neither s
  ]
]

-- The digits of a base, once the prefix of the base is read; a prefix counts as a digit.
abbrev based : ℕ → Bool → Saw → ℕ → Text → Option ℕ
based base hex saw max s =
    if underscore_ok hex saw s then at_most max (digits_value true base 0 s) else none

-- `strconv.ParseUint(s, 0, 64)`.
unfoldable pub parse_uint0 : ℕ → Text → Option ℕ
unfolding digits_value underscore_ok
parse_uint0 max [] = none
parse_uint0 max (c ∷ []) = based 10 false beginning max (c ∷ [])
parse_uint0 max (c ∷ d ∷ []) =
    if c == b'0'
    then based 8 false digit max (d ∷ [])
    else based 10 false beginning max (c ∷ d ∷ [])
parse_uint0 max (c ∷ d ∷ e ∷ s) =
    if c == b'0'
    then (if d == b'x' || d == b'X'
        then based 16 true digit max (e ∷ s)
        else if d == b'b' || d == b'B'
        then based 2 false digit max (e ∷ s)
        else if d == b'o' || d == b'O'
        then based 8 false digit max (e ∷ s)
        else based 8 false digit max (d ∷ e ∷ s))
    else based 10 false beginning max (c ∷ d ∷ e ∷ s)

unfoldable pub parse_int0 : Text → Option ℤ
unfolding parse_uint0
parse_int0 = signed parse_uint0
