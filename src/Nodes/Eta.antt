-- ===== src/Nodes/Eta.antt =====
-- `parseEtaSeconds` of internal/collector/tdarr_nodes.go, with the part of `fmt.Sscanf` that the format
-- "%d:%d:%d" uses: leading white space before a number is skipped, a newline there is an error, a
-- number is an optional sign and at least one decimal digit and fits an int64, a colon must stand right
-- behind it, and what follows the last number is not read. The result is computed in int64, which wraps.
pub mod Laws
pub mod Scanned
use tdarr_exporter.Prelude.{
  ℕ, ◌+◌, ◌-◌, ◌*◌, ◌%◌, ◌^◌, Bool, true, false, ◌&&◌, List, [], ◌∷◌, Option, none, some, ltb, leb,
  ◌==◌, ℕ_eq, if◌then◌else◌,
}
use tdarr_exporter.Prelude.Int.{ℤ, pos, negsuc}
use tdarr_exporter.GoText.{Text, is_space}

infixl 5 ◌>>=◌
abbrev pub ◌>>=◌ {ℓ κ} : {A : Type ℓ} {B : Type κ} → Option A → (A → Option B) → Option B
none >>= f = none
some a >>= f = f a

abbrev pub int64_max : ℕ
int64_max = 2 ^ 63 - 1

-- int64 as a residue, and back.
abbrev pub to_word : ℤ → ℕ
to_word (pos n) = n % 2 ^ 64
to_word (negsuc n) = 2 ^ 64 - 1 - n % 2 ^ 64

abbrev pub of_word : ℕ → ℤ
of_word w = if ltb w (2 ^ 63) then pos w else negsuc (2 ^ 64 - w - 1)

unfoldable pub add64 : ℤ → ℤ → ℤ
add64 a b = of_word ((to_word a + to_word b) % 2 ^ 64)

unfoldable pub mul64 : ℤ → ℤ → ℤ
mul64 a b = of_word ((to_word a * to_word b) % 2 ^ 64)

-- `SkipSpace`; `none` for its "unexpected newline".
unfoldable pub skip_space : Text → Option Text
unfolding is_space
skip_space [] = some []
skip_space (c ∷ s) = elim (c == 0xa) [
  | true ↦ none
  | false ↦ elim (is_space c) [ true ↦ skip_space s | false ↦ some (c ∷ s) ]
]

abbrev pub is_digit : ℕ → Bool
is_digit c = leb b'0' c && leb c b'9'

-- The digits at the head of a text, read on to the number `acc`, and the rest.
unfoldable pub scan_digits : ℕ → Text → ℕ × Text
scan_digits acc [] = (acc, [])
scan_digits acc (c ∷ s) = elim (is_digit c) [
  | true ↦ scan_digits (acc * 10 + (c - b'0')) s
  | false ↦ (acc, c ∷ s)
]

-- "expected integer" where no digit stands.
unfoldable pub scan_number : Text → Option (ℕ × Text)
unfolding scan_digits
scan_number [] = none
scan_number (c ∷ s) = if is_digit c then some (scan_digits 0 (c ∷ s)) else none

-- `strconv.ParseInt` on the token: out of range is an error.
abbrev pub in_range : ℤ → Text → Option (ℤ × Text)
in_range (pos n) rest = if leb n int64_max then some (pos n, rest) else none
in_range (negsuc n) rest = if leb n int64_max then some (negsuc n, rest) else none

abbrev pub negative : ℕ → ℤ
negative n = if n == 0 then pos 0 else negsuc (n - 1)

-- `scanInt` behind the white space: a sign is accepted.
unfoldable pub scan_signed : Text → Option (ℤ × Text)
unfolding scan_number
scan_signed [] = none
scan_signed (c ∷ s) =
    if c == b'-'
    then (scan_number s >>= λ r. in_range (negative r.0) r.1)
    else if c == b'+'
    then (scan_number s >>= λ r. in_range (pos r.0) r.1)
    else (scan_number (c ∷ s) >>= λ r. in_range (pos r.0) r.1)

-- The verb %d.
unfoldable pub scan_int : Text → Option (ℤ × Text)
unfolding skip_space scan_signed
scan_int s = skip_space s >>= scan_signed

-- The literal ':' of the format.
unfoldable pub scan_colon : Text → Option Text
scan_colon [] = none
scan_colon (c ∷ s) = if c == b':' then some s else none

-- `none` stands for (0, false).
unfoldable pub parse_eta_seconds : Text → Option ℤ
unfolding scan_int scan_colon add64 mul64
parse_eta_seconds eta = do
  h ← scan_int eta
  s₁ ← scan_colon h.1
  m ← scan_int s₁
  s₂ ← scan_colon m.1
  s ← scan_int s₂
  some (add64 (add64 (mul64 h.0 (pos 3600)) (mul64 m.0 (pos 60))) s.0)
