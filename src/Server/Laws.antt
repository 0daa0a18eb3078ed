-- ===== src/Server/Laws.antt =====
-- Which page internal/server/server.go serves.
use tdarr_exporter.Prelude.{
  ℕ, ◌≡◌, ◌≢◌, refl, sym, ap, ◌∙◌, Bool, false, List, [], ◌∷◌, map, some, arith, ◌==◌,
  if◌then◌else◌, All, List_eq, ℕ_eq, Bool-cases, inl, inr,
}
use tdarr_exporter.GoText.{Text, Text_eq, lit}
use tdarr_exporter.Config.Path.{split, join, any_rune}
use tdarr_exporter.Config.Path.Segments.{split_lem, split_slash, split_other, join-split}
use tdarr_exporter.Config.Path.Laws.{IsMetricsPath}
use tdarr_exporter.Server.{
  Page, metrics_page, index_page, healthz_page, not_found_page, get_segments, get_root, everything,
  Mux, segments, new_mux, is_get, page_of,
}

-- No escape, for which unescaping does nothing.
abbrev pub IsPlain : Text → Type 0
IsPlain s = any_rune (◌== b'%') s ≡ false

-- The page that a method and a path stand for.
abbrev pub page_for : Text → Bool → Text → Page
page_for metrics_path get path =
    if get
    then (if path == metrics_path
        then metrics_page
        else if path == lit "/"
        then index_page
        else if path == lit "/healthz"
        then healthz_page
        else not_found_page)
    else not_found_page

IsPlain-cons : (c : ℕ) (s : Text) → IsPlain (c ∷ s) → ((c == b'%') ≡ false) × IsPlain s
IsPlain-cons c s h = ground (arith, h)

module _ (unescape : Text → Text) (leaves : (s : Text) → IsPlain s → unescape s ≡ s) where
  map_unescape : (ss : List Text) → All IsPlain ss → map unescape ss ≡ ss
  map_unescape [] h = refl
  map_unescape (s ∷ ss) (p, h) =
      ap (◌∷ map unescape ss) (leaves s p) ∙ ap (s ∷◌) (map_unescape ss h)

  split-IsPlain : (s : Text) → IsPlain s → All IsPlain (split s)
  unfolding split
  split-IsPlain [] h = (refl, tt)
  split-IsPlain (c ∷ s) h =
      let (t, ts, eq) = split_lem s in
      let (no_escape, plain) = IsPlain-cons c s h in
      let (first, others) : All IsPlain (t ∷ ts) = rw eq at (split-IsPlain s plain) in
      elim (Bool-cases (c == b'/')) [
        | inl slash ↦ rw (split_slash c s slash) (refl, split-IsPlain s plain)
        | inr other ↦ rw (split_other c s t ts other eq) (rw no_escape first, others)
      ]

  segments_plain : (s : Text) → IsPlain s → segments unescape (b'/' ∷ s) ≡ split s
  segments_plain s h = map_unescape (split s) (split-IsPlain s h)

  -- Plain rooted paths have the same segments only if they are the same.
  segments_eq :
      (s t : Text)
      → IsPlain s
      → IsPlain t
      → (segments unescape (b'/' ∷ s) == segments unescape (b'/' ∷ t)) ≡ (b'/' ∷ t == b'/' ∷ s)
  segments_eq s t h k = elim (Bool-cases (b'/' ∷ t == b'/' ∷ s)) [
    | inl same ↦
        let eq : b'/' ∷ t ≡ b'/' ∷ s = (Text_eq.beq_iff (b'/' ∷ t) (b'/' ∷ s)).0 same in
        (List_eq.beq_iff _ _).1 (ap (segments unescape) (sym eq)) ∙ sym same
    | inr differ ↦
        elim (Bool-cases (segments unescape (b'/' ∷ s) == segments unescape (b'/' ∷ t))) [
          | inr apart ↦ apart ∙ sym differ
          | inl equal ↦
              let splits : split s ≡ split t =
                sym (segments_plain s h) ∙ (List_eq.beq_iff _ _).0 equal ∙ segments_plain t k in
              let eq : s ≡ t = sym (join-split s) ∙ ap join splits ∙ join-split t in
              cc (sym differ ∙ (Text_eq.beq_iff (b'/' ∷ t) (b'/' ∷ s)).1 (ap (b'/' ∷◌) (sym eq)))
        ]
  ]

  -- The routes of `newMux`, in the order of their registration.
  abbrev routes : Text → Mux
  routes metrics_path =
      (get_segments (segments unescape metrics_path), metrics_page)
      ∷ (get_root, index_page)
      ∷ (get_segments (segments unescape (lit "/healthz")), healthz_page)
      ∷ (everything, not_found_page)
      ∷ []

  new_mux-routes :
      (m : Text)
      → IsPlain m
      → b'/' ∷ m ≢ lit "/healthz"
      → new_mux unescape (b'/' ∷ m) ≡ some (routes (b'/' ∷ m))
  unfolding new_mux
  new_mux-routes m plain free =
      let other : (lit "/healthz" == b'/' ∷ m) ≡ false =
        elim (Bool-cases (lit "/healthz" == b'/' ∷ m)) [
          | inl same ↦ absurd (free (sym ((Text_eq.beq_iff (lit "/healthz") (b'/' ∷ m)).0 same)))
          | inr different ↦ different
        ] in
      ground (arith, segments_eq m (lit "healthz") plain refl, other)

  page_of-routes :
      (method m r : Text)
      → IsPlain m
      → IsPlain r
      → page_of unescape method (b'/' ∷ r) (routes (b'/' ∷ m))
        ≡ some (page_for (b'/' ∷ m) (is_get method) (b'/' ∷ r))
  unfolding page_of
  page_of-routes method m r plain plain' =
      ground (arith, segments_eq m r plain plain', segments_eq (lit "healthz") r refl plain')

  -- With a metrics path that `parseConfig` accepts and that has no percent sign, the routes are registered without a
  -- panic, and a request for a clean path without one is answered by the metrics, the landing page or the liveness
  -- page if it is a GET or HEAD of that very path, and by the fallback in every other case.
  pub new_mux-page_for :
      (metrics_path method r : Text)
      → IsMetricsPath metrics_path
      → IsPlain metrics_path
      → IsPlain r
      → (mux : Mux) × (new_mux unescape metrics_path ≡ some mux)
        × (page_of unescape method (b'/' ∷ r) mux
            ≡ some (page_for metrics_path (is_get method) (b'/' ∷ r)))
  new_mux-page_for metrics_path method r (m, eq, _, _, _, free) plain plain' =
      let rooted : IsPlain (b'/' ∷ m) = rw eq at plain in
      let m_plain : IsPlain m = (IsPlain-cons b'/' m rooted).1 in
      rw eq (
        routes (b'/' ∷ m),
        new_mux-routes m m_plain (rw eq at free),
        page_of-routes method m r m_plain plain',
      )
