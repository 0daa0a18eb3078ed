-- ===== src/Nodes/Eta/Laws.antt =====
-- What `parseEtaSeconds` of internal/collector/tdarr_nodes.go accepts and computes.
use tdarr_exporter.Prelude.{
  ℕ, ◌+◌, ◌-◌, ◌*◌, ◌%◌, ◌^◌, ◌≤◌, ◌≡◌, refl, ◌≢◌, ap, true, false, [], ◌∷◌, ◌++◌, some, arith, leb,
  All, nat_eq,
}
use tdarr_exporter.Prelude.Int.{pos}
use tdarr_exporter.GoText.{Text, is_space}
use tdarr_exporter.Nodes.Eta.{
  ◌>>=◌, int64_max, of_word, add64, mul64, skip_space, is_digit, scan_digits, scan_number, in_range,
  scan_signed, scan_int, scan_colon, parse_eta_seconds,
}

abbrev pub AllDigits : Text → Type 0
AllDigits s = All (λ c. is_digit c ≡ true) s

-- The number that a text of digits writes, read on from `acc`.
abbrev pub value_from : ℕ → Text → ℕ
value_from acc [] = acc
value_from acc (c ∷ s) = value_from (acc * 10 + (c - b'0')) s

abbrev pub value : Text → ℕ
value s = value_from 0 s

-- A text at whose head no digit stands.
abbrev pub EndsNumber : Text → Type 0
EndsNumber [] = Unit
EndsNumber (c ∷ s) = is_digit c ≡ false

scan_digits-append :
    (acc : ℕ) (ds rest : Text)
    → AllDigits ds
    → EndsNumber rest
    → scan_digits acc (ds ++ rest) ≡ (value_from acc ds, rest)
unfolding scan_digits
scan_digits-append acc [] [] h k = refl
scan_digits-append acc [] (c ∷ rest) h k = rw (k, scan_digits)
scan_digits-append acc (c ∷ ds) rest (d, h) k =
    rw (d, scan_digits) (scan_digits-append (acc * 10 + (c - b'0')) ds rest h k)

digit_plain :
    (c : ℕ)
    → is_digit c ≡ true
    → (is_space c ≡ false)
      × (nat_eq c 0xa ≡ false)
      × (nat_eq c b'-' ≡ false)
      × (nat_eq c b'+' ≡ false)
unfolding is_space
digit_plain c h = ground arith

skip_space-digit : (c : ℕ) (s : Text) → is_digit c ≡ true → skip_space (c ∷ s) ≡ some (c ∷ s)
unfolding skip_space
skip_space-digit c s h = let (p, q, _, _) = digit_plain c h in rw (q, skip_space) (rw p)

scan_number-digits :
    (c : ℕ) (ds rest : Text)
    → AllDigits (c ∷ ds)
    → EndsNumber rest
    → scan_number ((c ∷ ds) ++ rest) ≡ some (value (c ∷ ds), rest)
unfolding scan_number
scan_number-digits c ds rest h k = rw h.0 (ap some (scan_digits-append 0 (c ∷ ds) rest h k))

scan_signed-digit :
    (c : ℕ) (s : Text)
    → is_digit c ≡ true
    → scan_signed (c ∷ s) ≡ (scan_number (c ∷ s) >>= λ r. in_range (pos r.0) r.1)
unfolding scan_signed
scan_signed-digit c s h = let (_, _, p, q) = digit_plain c h in rw p (rw q)

-- A number of digits at the head of a text is scanned as its value, if that fits an int64.
scan_int-digits :
    (ds rest : Text)
    → AllDigits ds
    → ds ≢ []
    → EndsNumber rest
    → value ds ≤ int64_max
    → scan_int (ds ++ rest) ≡ some (pos (value ds), rest)
unfolding scan_int
scan_int-digits [] rest h full k fits = absurd (full refl)
scan_int-digits (c ∷ ds) rest h full k fits =
    let in_bounds : leb (value (c ∷ ds)) int64_max ≡ true = ground arith in
    rw (skip_space-digit c (ds ++ rest) h.0) (
      rw (scan_signed-digit c (ds ++ rest) h.0)
        (rw (scan_number-digits c ds rest h k) (rw in_bounds)))

of_word_small : (w : ℕ) → w ≤ int64_max → of_word w ≡ pos w
of_word_small w h = ground arith

add64-pos : (a b : ℕ) → a + b ≤ int64_max → add64 (pos a) (pos b) ≡ pos (a + b)
unfolding add64
add64-pos a b h =
    let same : (a % 2 ^ 64 + b % 2 ^ 64) % 2 ^ 64 ≡ a + b = omega arith in
    rw same (of_word_small (a + b) h)

mul64-3600 : (a : ℕ) → a * 3600 ≤ int64_max → mul64 (pos a) (pos 3600) ≡ pos (a * 3600)
unfolding mul64
mul64-3600 a h =
    let same : (a % 2 ^ 64 * 3600) % 2 ^ 64 ≡ a * 3600 = omega arith in
    rw same (of_word_small (a * 3600) h)

mul64-60 : (a : ℕ) → a * 60 ≤ int64_max → mul64 (pos a) (pos 60) ≡ pos (a * 60)
unfolding mul64
mul64-60 a h =
    let same : (a % 2 ^ 64 * 60) % 2 ^ 64 ≡ a * 60 = omega arith in
    rw same (of_word_small (a * 60) h)

add64-mul64 :
    (h m s : ℕ)
    → h * 3600 + m * 60 + s ≤ int64_max
    → add64 (add64 (mul64 (pos h) (pos 3600)) (mul64 (pos m) (pos 60))) (pos s)
      ≡ pos (h * 3600 + m * 60 + s)
add64-mul64 h m s fits = rw (mul64-3600 h (omega arith)) (
    rw (mul64-60 m (omega arith))
      (rw (add64-pos (h * 3600) (m * 60) (omega arith)) (add64-pos (h * 3600 + m * 60) s fits)))

-- An ETA of hours, minutes and seconds in decimal digits, with any padding and anything behind it that
-- does not go on with a digit, is read as its number of seconds, if that fits an int64.
pub parse_eta_seconds-digits :
    (h m s rest : Text)
    → AllDigits h
    → AllDigits m
    → AllDigits s
    → h ≢ []
    → m ≢ []
    → s ≢ []
    → EndsNumber rest
    → value h * 3600 + value m * 60 + value s ≤ int64_max
    → parse_eta_seconds (h ++ (b':' ∷ m ++ (b':' ∷ s ++ rest)))
      ≡ some (pos (value h * 3600 + value m * 60 + value s))
unfolding parse_eta_seconds scan_colon
parse_eta_seconds-digits h m s rest dh dm ds nh nm ns e fits =
    rw (scan_int-digits h (b':' ∷ m ++ (b':' ∷ s ++ rest)) dh nh refl (omega arith)) (
      rw (scan_int-digits m (b':' ∷ s ++ rest) dm nm refl (omega arith)) (
        rw (scan_int-digits s rest ds ns e (omega arith))
          (ap some (add64-mul64 (value h) (value m) (value s) fits))))
