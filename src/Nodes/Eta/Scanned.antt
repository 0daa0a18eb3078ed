-- ===== src/Nodes/Eta/Scanned.antt =====
-- Which texts `parseEtaSeconds` of internal/collector/tdarr_nodes.go accepts.
use tdarr_exporter.Prelude.{
  ℕ, ◌+◌, ◌-◌, ◌*◌, ◌≡◌, ◌≢◌, refl, ap, ◌∙◌, ◌⊎◌, inl, inr, true, [], ◌∷◌, ◌++◌, Option, none, some,
  leb, nat_eq_iff, All, Bool-cases, ◌==◌, ℕ_eq,
}
use tdarr_exporter.Prelude.Int.{ℤ, pos, negsuc}
use tdarr_exporter.GoText.{Text, is_space}
use tdarr_exporter.Nodes.Eta.{
  ◌>>=◌, int64_max, negative, skip_space, is_digit, scan_digits, scan_number, in_range, scan_signed,
  scan_int, scan_colon, parse_eta_seconds,
}
use tdarr_exporter.Nodes.Eta.Laws.{AllDigits}
use mathlib.Core.Path.{subst}

-- A number in front of `rest`: white space, a sign or none, and at least one digit.
pub record Scanned (s rest : Text) : Type 0 where
  pub spaces : Text
  pub sign : Text
  pub digits : Text
  pub whole : s ≡ spaces ++ (sign ++ (digits ++ rest))
  pub blank : All (λ c. is_space c ≡ true) spaces
  pub signed : (sign ≡ []) ⊎ ((sign ≡ b'-' ∷ []) ⊎ (sign ≡ b'+' ∷ []))
  pub decimal : AllDigits digits
  pub filled : digits ≢ []

skip_space-some :
    (s t : Text)
    → skip_space s ≡ some t
    → (spaces : Text) × (s ≡ spaces ++ t) × All (λ c. is_space c ≡ true) spaces
unfolding skip_space
skip_space-some [] t h = ([], cc h, tt)
skip_space-some (c ∷ s) t h = elim (Bool-cases (c == 0xa)) [
  | inl newline ↦ cc (rw (newline, skip_space) at h)
  | inr other ↦ elim (Bool-cases (is_space c)) [
    | inl space ↦
        let h1 = rw (other, skip_space) at h in
        let (spaces, e, blank) = skip_space-some s t (rw space at h1) in
        (c ∷ spaces, ap (c ∷◌) e, (space, blank))
    | inr plain ↦ let h1 = rw (other, skip_space) at h in ([], cc (rw plain at h1), tt)
  ]
]

scan_digits-split :
    (acc : ℕ) (s : Text)
    → (digits : Text) × (s ≡ digits ++ (scan_digits acc s).1) × AllDigits digits
unfolding scan_digits
scan_digits-split acc [] = ([], refl, tt)
scan_digits-split acc (c ∷ s) = elim (Bool-cases (is_digit c)) [
  | inl digit ↦
      let (digits, e, decimal) = scan_digits-split (acc * 10 + (c - b'0')) s in
      (c ∷ digits, rw (digit, scan_digits) (ap (c ∷◌) e), (digit, decimal))
  | inr other ↦ ([], rw (other, scan_digits) refl, tt)
]

bind_some {ℓ κ} :
    {A : Type ℓ} {B : Type κ} (o : Option A) (f : A → Option B) {b : B}
    → (o >>= f) ≡ some b
    → (a : A) × (o ≡ some a) × (f a ≡ some b)
bind_some none f h = cc h
bind_some (some a) f h = (a, refl, h)

-- What a number without its sign is: at least one digit, then the rest.
record Decimal (s rest : Text) : Type 0 where
  figures : Text
  parted : s ≡ figures ++ rest
  all_digits : AllDigits figures
  some_digit : figures ≢ []

scan_number-some : (s : Text) (r : ℕ × Text) → scan_number s ≡ some r → Decimal s r.1
unfolding scan_number scan_digits
scan_number-some [] r h = cc h
scan_number-some (c ∷ s) r h = elim (Bool-cases (is_digit c)) [
  | inl digit ↦
      let (digits, e, decimal) = scan_digits-split (0 * 10 + (c - b'0')) s in
      let split : some (scan_digits (0 * 10 + (c - b'0')) s) ≡ some r =
        rw (digit, scan_digits) at h in
      record {
        figures = c ∷ digits;
        parted =
            let same : scan_digits (0 * 10 + (c - b'0')) s ≡ r = cc split in
            ap (c ∷◌) e ∙ ap (λ q. c ∷ (digits ++ q.1)) same;
        all_digits = (digit, decimal);
        some_digit = λ empty. cc empty;
      }
  | inr other ↦ cc (rw other at h)
]

in_range-some : (z : ℤ) (rest : Text) (r : ℤ × Text) → in_range z rest ≡ some r → rest ≡ r.1
in_range-some (pos n) rest r h = elim (Bool-cases (leb n int64_max)) [
  | inl fits ↦ cc (rw fits at h)
  | inr over ↦ cc (rw over at h)
]
in_range-some (negsuc n) rest r h = elim (Bool-cases (leb n int64_max)) [
  | inl fits ↦ cc (rw fits at h)
  | inr over ↦ cc (rw over at h)
]

-- A number behind a sign, within int64.
in_number :
    (s : Text) (f : ℕ → ℤ) (r : ℤ × Text)
    → (scan_number s >>= λ n. in_range (f n.0) n.1) ≡ some r
    → Decimal s r.1
in_number s f r h =
    let (n, found, fits) = bind_some (scan_number s) _ h in
    subst (Decimal s) (in_range-some (f n.0) n.1 r fits) (scan_number-some s n found)

-- What `scan_signed` reads: a sign or none, then a number.
record Signed (s rest : Text) : Type 0 where
  mark : Text
  body : Text
  cut : s ≡ mark ++ body
  marked : (mark ≡ []) ⊎ ((mark ≡ b'-' ∷ []) ⊎ (mark ≡ b'+' ∷ []))
  number : Decimal body rest

scan_signed-some : (s : Text) (r : ℤ × Text) → scan_signed s ≡ some r → Signed s r.1
unfolding scan_signed
scan_signed-some [] r h = cc h
scan_signed-some (c ∷ s) r h = elim (Bool-cases (c == b'-')) [
  | inl minus ↦
      let is_minus : c ≡ b'-' = (nat_eq_iff c b'-').0 minus in
      record {
        mark = b'-' ∷ [];
        body = s;
        cut = ap (λ x. x ∷ s) is_minus;
        marked = inr (inl refl);
        number = in_number s negative r (rw minus at h);
      }
  | inr not_minus ↦ elim (Bool-cases (c == b'+')) [
    | inl plus ↦
        let is_plus : c ≡ b'+' = (nat_eq_iff c b'+').0 plus in
        record {
          mark = b'+' ∷ [];
          body = s;
          cut = ap (λ x. x ∷ s) is_plus;
          marked = inr (inr refl);
          number = in_number s pos r (rw (not_minus, plus) at h);
        }
    | inr unsigned ↦ record {
      mark = [];
      body = c ∷ s;
      cut = refl;
      marked = inl refl;
      number = in_number (c ∷ s) pos r (rw (not_minus, unsigned) at h);
    }
  ]
]

scan_int-some : (s : Text) (r : ℤ × Text) → scan_int s ≡ some r → Scanned s r.1
unfolding scan_int
scan_int-some s r h =
    let (t, skipped, scanned) = bind_some (skip_space s) scan_signed h in
    let (spaces, e, blank) = skip_space-some s t skipped in
    let read = scan_signed-some t r scanned in
    record {
      spaces = spaces;
      sign = read.mark;
      digits = read.number.figures;
      whole = e ∙ ap (spaces ++◌) (read.cut ∙ ap (read.mark ++◌) (read.number.parted));
      blank = blank;
      signed = read.marked;
      decimal = read.number.all_digits;
      filled = read.number.some_digit;
    }

scan_colon-some : (s rest : Text) → scan_colon s ≡ some rest → s ≡ b':' ∷ rest
unfolding scan_colon
scan_colon-some [] rest h = cc h
scan_colon-some (c ∷ s) rest h = elim (Bool-cases (c == b':')) [
  | inl colon ↦
      let is_colon : c ≡ b':' = (nat_eq_iff c b':').0 colon in
      let behind : some s ≡ some rest = rw colon at h in cc
  | inr other ↦ cc (rw other at h)
]

-- A text that `parseEtaSeconds` accepts is three numbers with colons between: each number is white
-- space, a sign or none, and at least one decimal digit; a colon stands right behind the first two,
-- and anything may follow the third. Every other text is refused.
pub parse_eta_seconds-Scanned :
    (eta : Text) (n : ℤ)
    → parse_eta_seconds eta ≡ some n
    → (behind_hours : Text) × (behind_minutes : Text) × (behind_seconds : Text) × Scanned eta
        (b':' ∷ behind_hours)
      × Scanned behind_hours (b':' ∷ behind_minutes)
      × Scanned behind_minutes behind_seconds
unfolding parse_eta_seconds
parse_eta_seconds-Scanned eta n accepted =
    let (h, hours, after_h) = bind_some (scan_int eta) _ accepted in
    let (s₁, colon, after_colon) = bind_some (scan_colon h.1) _ after_h in
    let (m, minutes, after_m) = bind_some (scan_int s₁) _ after_colon in
    let (s₂, second_colon, after_second) = bind_some (scan_colon m.1) _ after_m in
    let (z, seconds, _) = bind_some (scan_int s₂) _ after_second in
    (
      s₁,
      s₂,
      z.1,
      subst (Scanned eta) (scan_colon-some h.1 s₁ colon) (scan_int-some eta h hours),
      subst (Scanned s₁) (scan_colon-some m.1 s₂ second_colon) (scan_int-some s₁ m minutes),
      scan_int-some s₂ z seconds,
    )
