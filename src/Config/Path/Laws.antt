-- ===== src/Config/Path/Laws.antt =====
-- Which metrics paths internal/config/config.go accepts.
use tdarr_exporter.Prelude.{
  ◌≡◌, ◌≢◌, ◌↔◌, refl, sym, ap, ◌∙◌, true, false, List, [], ◌∷◌, none, arith, ◌==◌, All, drop,
  Bool-cases, inl, inr, ◌⊎◌, ℕ_eq,
}
use tdarr_exporter.GoText.{Text, Text_eq, lit, is_space}
use tdarr_exporter.Config.Path.{
  split, join, clean_segments, clean, any_rune, is_brace, is_rooted, check_prometheus_path,
}
use tdarr_exporter.Config.Path.Segments.{
  IsSegment, IsProper, IsSlashless, join_cons, split-IsSlashless, clean_segments_keeps,
  clean_segments-All, split-join,
}

-- A rooted path, cleaned.
clean_rooted : (s : Text) → clean (b'/' ∷ s) ≡ b'/' ∷ join (clean_segments true [] (split s))
unfolding clean clean_segments split
clean_rooted s = refl

All-map : (P Q : Text → Type 0) (f : (s : Text) → P s → Q s) (xs : List Text) → All P xs → All Q xs
All-map P Q f [] h = tt
All-map P Q f (x ∷ xs) (p, h) = (f x p, All-map P Q f xs h)

IsSegment-iff : (s : Text) → IsSegment s ↔ (IsProper s × IsSlashless s)
IsSegment-iff s = ground arith

-- Behind the slash, the canonical paths are the joined segments, and nothing.
abbrev pub IsJoined : Text → Type 0
IsJoined s = (t : Text) × (ts : List Text) × (s ≡ join (t ∷ ts)) × All IsSegment (t ∷ ts)

clean_joined :
    (t : Text) (ts : List Text)
    → All IsSegment (t ∷ ts)
    → clean (b'/' ∷ join (t ∷ ts)) ≡ b'/' ∷ join (t ∷ ts)
clean_joined t ts h =
    clean_rooted (join (t ∷ ts))
    ∙ ap (λ segments. b'/' ∷ join (clean_segments true [] segments))
        (split-join t ts
          (All-map IsSegment IsSlashless (λ s p. ((IsSegment-iff s).0 p).1) (t ∷ ts) h))
    ∙ ap (λ segments. b'/' ∷ join segments)
        (clean_segments_keeps [] (t ∷ ts)
          (All-map IsSegment IsProper (λ s p. ((IsSegment-iff s).0 p).0) (t ∷ ts) h))

join-clean_segments :
    (s : Text) (segments : List Text)
    → s ≡ join segments
    → All IsSegment segments
    → (s ≡ []) ⊎ IsJoined s
unfolding join
join-clean_segments s [] eq h = inl eq
join-clean_segments s (t ∷ ts) eq h = inr (t, ts, eq, h)

IsJoined-clean : (s : Text) → b'/' ∷ s ≡ clean (b'/' ∷ s) → (s ≡ []) ⊎ IsJoined s
IsJoined-clean s h =
    join-clean_segments s (clean_segments true [] (split s)) (ap (drop 1) (h ∙ clean_rooted s)) (
      clean_segments-All IsSegment [] (split s) tt (
        All-map IsSlashless (λ t. IsProper t → IsSegment t)
          (λ t slashless proper. (IsSegment-iff t).1 (proper, slashless)) (split s)
          (split-IsSlashless s)))

join_filled : (t : Text) (ts : List Text) → IsSegment t → join (t ∷ ts) ≢ []
join_filled [] ts h = cc h
join_filled (c ∷ t) ts h = λ eq. cc (sym (join_cons c t ts) ∙ eq)

-- The tests of the checks, all passed.
abbrev Passes : Text → Type 0
Passes p =
    (is_rooted p ≡ true)
    × (any_rune is_brace p ≡ false)
    × (any_rune is_space p ≡ false)
    × ((p == clean p) ≡ true)
    × ((p == lit "/") ≡ false)
    × ((p == lit "/healthz") ≡ false)

check_prometheus_path-Passes : (p : Text) → (check_prometheus_path p ≡ none) ↔ Passes p
unfolding check_prometheus_path
check_prometheus_path-Passes p = ground arith

Text_neq : (s t : Text) → ((s == t) ≡ false) ↔ (s ≢ t)
Text_neq s t = (
  λ h e. cc (sym ((Text_eq.beq_iff s t).1 e) ∙ h),
  λ differs. elim (Bool-cases (s == t)) [
    | inl same ↦ absurd (differs ((Text_eq.beq_iff s t).0 same))
    | inr different ↦ different
  ],
)

IsJoined-Passes : (s : Text) → Passes (b'/' ∷ s) → IsJoined s
IsJoined-Passes s (rooted, brace, space, cleaned, not_slash, free) =
    elim (IsJoined-clean s ((Text_eq.beq_iff (b'/' ∷ s) (clean (b'/' ∷ s))).0 cleaned)) [
      | inl nothing ↦ absurd ((Text_neq (b'/' ∷ s) (lit "/")).0 not_slash (ap (b'/' ∷◌) nothing))
      | inr joined ↦ joined
    ]

-- A slash and then one segment or more with slashes between them, none empty, `.` or `..`, with no brace and no
-- white space, and not the reserved `/healthz`.
abbrev pub IsMetricsPath : Text → Type 0
IsMetricsPath p =
    (s : Text) × (p ≡ b'/' ∷ s)
    × IsJoined s
    × (any_rune is_brace p ≡ false)
    × (any_rune is_space p ≡ false)
    × (p ≢ lit "/healthz")

IsMetricsPath-Passes : (p : Text) → Passes p → IsMetricsPath p
IsMetricsPath-Passes [] passes = cc passes.0
IsMetricsPath-Passes (c ∷ s) passes =
    let slash : c ≡ b'/' = (ℕ_eq.beq_iff c b'/').0 passes.0 in
    let joined : IsJoined s = IsJoined-Passes s (rw slash at passes) in
    let (rooted, brace, space, cleaned, not_slash, free) = passes in
    (s, ap (λ d. d ∷ s) slash, joined, brace, space, (Text_neq (c ∷ s) (lit "/healthz")).0 free)

Passes-IsJoined :
    (s : Text)
    → IsJoined s
    → any_rune is_brace (b'/' ∷ s) ≡ false
    → any_rune is_space (b'/' ∷ s) ≡ false
    → b'/' ∷ s ≢ lit "/healthz"
    → Passes (b'/' ∷ s)
Passes-IsJoined s (t, ts, eq, h) brace space free =
    let cleaned : b'/' ∷ s ≡ clean (b'/' ∷ s) = rw eq (sym (clean_joined t ts h)) in
    let not_slash : b'/' ∷ s ≢ lit "/" = λ e. join_filled t ts h.0 (sym eq ∙ ap (drop 1) e) in
    (
      refl,
      brace,
      space,
      (Text_eq.beq_iff (b'/' ∷ s) (clean (b'/' ∷ s))).1 cleaned,
      (Text_neq (b'/' ∷ s) (lit "/")).1 not_slash,
      (Text_neq (b'/' ∷ s) (lit "/healthz")).1 free,
    )

Passes-IsMetricsPath : (p : Text) → IsMetricsPath p → Passes p
Passes-IsMetricsPath p (s, eq, joined, brace, space, free) =
    rw eq (Passes-IsJoined s joined (rw eq at brace) (rw eq at space) (rw eq at free))

-- A metrics path is accepted if and only if it is a slash and then one segment or more with slashes between
-- them, none empty, `.` or `..`, has no brace and no white space, and is not the reserved `/healthz`.
pub check_prometheus_path_iff : (p : Text) → (check_prometheus_path p ≡ none) ↔ IsMetricsPath p
check_prometheus_path_iff p = (
  λ h. IsMetricsPath-Passes p ((check_prometheus_path-Passes p).0 h),
  λ h. (check_prometheus_path-Passes p).1 (Passes-IsMetricsPath p h),
)
