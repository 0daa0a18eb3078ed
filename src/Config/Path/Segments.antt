-- ===== src/Config/Path/Segments.antt =====
-- The segments of a path, as `path.Clean` splits, keeps and joins them for internal/config/config.go.
use tdarr_exporter.Prelude.{
  ℕ, ◌≡◌, refl, sym, ap, ◌∙◌, Bool, true, false, not, ◌||◌, List, [], ◌∷◌, ◌++◌, arith, ◌==◌, All,
  Bool-cases, inl, inr, ◌⊎◌, ℕ_eq,
}
use tdarr_exporter.GoText.{Text, Text_eq, lit, is_empty}
use tdarr_exporter.Config.Path.{split, join, pop, push, reverse_onto, clean_segments, any_rune}

-- A segment of a canonical path.
abbrev pub is_segment : Text → Bool
is_segment s = not (is_empty s || s == lit "." || s == lit ".." || any_rune (◌== b'/') s)

abbrev pub IsSegment : Text → Type 0
IsSegment s = is_segment s ≡ true

abbrev is_proper : Text → Bool
is_proper s = not (is_empty s || s == lit "." || s == lit "..")

abbrev pub IsProper : Text → Type 0
IsProper s = is_proper s ≡ true

abbrev pub IsSlashless : Text → Type 0
IsSlashless s = any_rune (◌== b'/') s ≡ false

pub split_lem : (s : Text) → (t : Text) × (ts : List Text) × (split s ≡ t ∷ ts)
unfolding split
split_lem [] = ([], [], refl)
split_lem (c ∷ s) = elim (Bool-cases (c == b'/')) [
  | inl slash ↦ ([], split s, rw slash refl)
  | inr other ↦ let (t, ts, eq) = split_lem s in (c ∷ t, ts, rw (other, eq) refl)
]

pub join_cons : (c : ℕ) (t : Text) (ts : List Text) → join ((c ∷ t) ∷ ts) ≡ c ∷ join (t ∷ ts)
unfolding join
join_cons c t [] = refl
join_cons c t (u ∷ ts) = refl

pub split_slash : (c : ℕ) (s : Text) → (c == b'/') ≡ true → split (c ∷ s) ≡ [] ∷ split s
unfolding split
split_slash c s h = rw h refl

pub split_other :
    (c : ℕ) (s t : Text) (ts : List Text)
    → (c == b'/') ≡ false
    → split s ≡ t ∷ ts
    → split (c ∷ s) ≡ (c ∷ t) ∷ ts
unfolding split
split_other c s t ts h eq = rw (h, eq) refl

pub join-split : (s : Text) → join (split s) ≡ s
unfolding split join
join-split [] = refl
join-split (c ∷ s) =
    let (t, ts, eq) = split_lem s in
    let rest : join (t ∷ ts) ≡ s = ap join (sym eq) ∙ join-split s in
    elim (Bool-cases (c == b'/')) [
      | inl slash ↦
          ap join (split_slash c s slash ∙ ap ([] ∷◌) eq)
          ∙ ap (b'/' ∷◌) rest
          ∙ ap (λ d. d ∷ s) (sym ((ℕ_eq.beq_iff c b'/').0 slash))
      | inr other ↦ ap join (split_other c s t ts other eq) ∙ join_cons c t ts ∙ ap (c ∷◌) rest
    ]

pub split-IsSlashless : (s : Text) → All IsSlashless (split s)
unfolding split
split-IsSlashless [] = (refl, tt)
split-IsSlashless (c ∷ s) =
    let (t, ts, eq) = split_lem s in
    let (h, hs) : All IsSlashless (t ∷ ts) = rw eq at (split-IsSlashless s) in
    elim (Bool-cases (c == b'/')) [
      | inl slash ↦ rw (split_slash c s slash) (refl, split-IsSlashless s)
      | inr other ↦ rw (split_other c s t ts other eq) (rw (other) h, hs)
    ]

-- What becomes of a segment that is pushed.
push-cases :
    (out : List Text) (s : Text)
    → (push true out s ≡ out)
      ⊎ (push true out s ≡ pop true out)
      ⊎ ((push true out s ≡ s ∷ out) × IsProper s)
push-cases out s = ground arith

-- Proper segments all stay.
pub clean_segments_keeps :
    (out segments : List Text)
    → All IsProper segments
    → clean_segments true out segments ≡ reverse_onto out segments
unfolding clean_segments
clean_segments_keeps out [] h = refl
clean_segments_keeps out (s ∷ segments) (p, h) =
    ap (λ o. clean_segments true o segments) (push_proper out s p)
    ∙ clean_segments_keeps (s ∷ out) segments h
  where
    push_proper : (out : List Text) (s : Text) → IsProper s → push true out s ≡ s ∷ out
    push_proper out s p = ground (arith, p)

reverse_onto-All :
    (P : Text → Type 0) (xs ys : List Text) → All P xs → All P ys → All P (reverse_onto xs ys)
reverse_onto-All P [] ys h k = k
reverse_onto-All P (x ∷ xs) ys (p, h) k = reverse_onto-All P xs (x ∷ ys) h (p, k)

pop-All : (P : Text → Type 0) (out : List Text) → All P out → All P (pop true out)
pop-All P [] h = tt
pop-All P (top ∷ out) (p, h) = h

-- What holds of the proper segments holds of those that stay.
pub clean_segments-All :
    (P : Text → Type 0) (out segments : List Text)
    → All P out
    → All (λ s. IsProper s → P s) segments
    → All P (clean_segments true out segments)
unfolding clean_segments
clean_segments-All P out [] h k = reverse_onto-All P out [] h tt
clean_segments-All P out (s ∷ segments) h (p, k) =
    clean_segments-All P (push true out s) segments
      (elim (push-cases out s) [
        | inl same ↦ rw same h
        | inr (inl popped) ↦ rw popped (pop-All P out h)
        | inr (inr (pushed, proper)) ↦ rw pushed (p proper, h)
      ])
      k

IsSlashless-cons : (c : ℕ) (s : Text) → IsSlashless (c ∷ s) → ((c == b'/') ≡ false) × IsSlashless s
IsSlashless-cons c s h = ground (arith, h)

split_alone : (s : Text) → IsSlashless s → split s ≡ s ∷ []
unfolding split
split_alone [] h = refl
split_alone (c ∷ s) h =
    let (other, rest) = IsSlashless-cons c s h in split_other c s s [] other (split_alone s rest)

split_append : (s r : Text) → IsSlashless s → split (s ++ b'/' ∷ r) ≡ s ∷ split r
unfolding split
split_append [] r h = refl
split_append (c ∷ s) r h =
    let (other, rest) = IsSlashless-cons c s h in
    split_other c (s ++ b'/' ∷ r) s (split r) other (split_append s r rest)

pub split-join :
    (s : Text) (segments : List Text)
    → All IsSlashless (s ∷ segments)
    → split (join (s ∷ segments)) ≡ s ∷ segments
unfolding join
split-join s [] (h, k) = split_alone s h
split-join s (t ∷ segments) (h, k) =
    split_append s (join (t ∷ segments)) h ∙ ap (s ∷◌) (split-join t segments k)
