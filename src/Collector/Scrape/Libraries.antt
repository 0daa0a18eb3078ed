-- ===== src/Collector/Scrape/Libraries.antt =====
-- Which libraries a scrape of internal/collector/tdarr.go shows: the cache across scrapes, the refetch
-- decision and the partial sweep of `collect` together.
use tdarr_exporter.Prelude.{
  ℕ, ◌<◌, ◌≡◌, ◌≢◌, refl, sym, ap, ◌∙◌, ◌⊎◌, inl, inr, Bool, true, false, ◌||◌, List, [], ◌∷◌, ◌++◌,
  map, Option, none, some, arith, ltb, Bool-cases,
}
use tdarr_exporter.GoText.{is_empty}
use tdarr_exporter.Models.{
  TdarrPieDataRequest, TdarrLibraryInfo, TdarrMetric, TdarrPieStat, TdarrPieStats,
}
use tdarr_exporter.Enums.{normalize_pie_statuses}
use tdarr_exporter.Metrics.{Float64}
use tdarr_exporter.Collector.Api.{TdarrApi, Result, ok, error, panic}
use tdarr_exporter.Collector.Unknown.{UnknownStatusCounts}
use tdarr_exporter.Collector.Cache.{
  TdarrLibStatsCache, SortSlice, read, write, library_fingerprint, should_refetch,
}
use tdarr_exporter.Collector.Cache.Fingerprint.{Sorts}
use tdarr_exporter.Collector.Cache.Refetch.{should_refetch-false_iff}
use tdarr_exporter.Collector.Pies.{
  Verdict, dropped, produced, crashed, Sweep, get_lib_stats, keep_or_drop, new_pie, after_request,
  fetch_pies, sweep_from, pie_data_request, bump_all,
}
use tdarr_exporter.Collector.Scrape.{
  CollectorConfig, Scrape, Flow, go, stop, unwind, crash, sweep, after_sweep, gather_pies,
}
use mathlib.Core.Option.{some-injective}
use mathlib.Core.List.{Perm, append_assoc, append-nil}
use mathlib.Core.List.Perm

-- The library that a pie is labelled with.
abbrev pub library_of : {Num : Type 0} → TdarrPieStats Num → TdarrLibraryInfo
library_of pie = record { library_id = pie.library_id; name = pie.library_name }

-- The cache is empty, or its stats are those of the libraries of its fingerprint, each as often.
abbrev pub IsFaithful : {Num : Type 0} → TdarrLibStatsCache Num → Type 0
IsFaithful cache =
    (cache.snap.stats ≡ []) ⊎ Perm (map library_of cache.snap.stats) cache.snap.fingerprint

-- What a scrape has behind its sweep. A crash ends the process, cache and all.
abbrev pub Gathered :
    {Num : Type 0}
    → List TdarrLibraryInfo
    → Scrape Num
    → Flow (List (TdarrPieStats Num) × Bool) × Scrape Num
    → Type 0
Gathered all_libs s (go (pies, false), s') =
    Perm (map library_of pies) all_libs × IsFaithful s'.stats_cache
Gathered all_libs s (go (pies, true), s') = s'.stats_cache ≡ s.stats_cache
Gathered all_libs s (stop _, s') = s'.stats_cache ≡ s.stats_cache
Gathered all_libs s (unwind, s') = s'.stats_cache ≡ s.stats_cache
Gathered all_libs s (crash, s') = Unit

-- A verdict labels its pie with the library of the request.
abbrev Labels : {Num : Type 0} → TdarrPieDataRequest → Verdict Num → Type 0
Labels p dropped = Unit
Labels p (produced _ pie) =
    library_of pie ≡ record { library_id = p.library_id; name = p.library_name }
Labels p crashed = Unit

pub Perm_of_eq {ℓ} : {A : Type ℓ} {xs ys : List A} → xs ≡ ys → Perm xs ys
Perm_of_eq {xs} e = rw (← e) (Perm.refl xs)

map-append {ℓ κ} :
    {A : Type ℓ} {B : Type κ} (f : A → B) (xs ys : List A) → map f (xs ++ ys) ≡ map f xs ++ map f ys
map-append f [] ys = refl
map-append f (x ∷ xs) ys = ap (λ zs. f x ∷ zs) (map-append f xs ys)

-- The sequential sweep of requests whose verdicts are labelled, if nothing is dropped.
module _ {Num : Type 0} (verdict : TdarrPieDataRequest → Verdict Num)
    (labels : (p : TdarrPieDataRequest) → Labels p (verdict p)) where
  pub record IsComplete (libs : List TdarrLibraryInfo) (s t : Sweep Num) : Type 0 where
    pub unflagged : s.partial ≡ false
    pub covers : map library_of t.pie_data ≡ map library_of s.pie_data ++ libs

  IsComplete-cons :
      (lib : TdarrLibraryInfo) (libs : List TdarrLibraryInfo) (s t : Sweep Num) (v : Verdict Num)
      → verdict (pie_data_request lib) ≡ v
      → Labels (pie_data_request lib) v
      → ((s' : Sweep Num)
          → sweep_from verdict (map pie_data_request libs) s' ≡ some t
          → IsComplete libs s' t)
      → sweep_from verdict (map pie_data_request (lib ∷ libs)) s ≡ some t
      → IsComplete (lib ∷ libs) s t
  unfolding pie_data_request sweep_from
  IsComplete-cons lib libs s t dropped e l ih h =
      let r = ih (record s { partial = true }) (rw (e, sweep_from) at h) in
      let flagged : true ≡ false = r.unflagged in cc
  IsComplete-cons lib libs s t (produced bumps pie) e l ih h =
      let r =
        ih (record s { pie_data = s.pie_data ++ pie ∷ []; counts = bump_all bumps s.counts })
          (rw (e, sweep_from) at h) in
      record {
        unflagged = r.unflagged;
        covers =
            r.covers
            ∙ ap (λ ls. ls ++ libs) (map-append library_of s.pie_data (pie ∷ []))
            ∙ append_assoc (map library_of s.pie_data) (library_of pie ∷ []) libs
            ∙ ap (λ a. map library_of s.pie_data ++ (a ∷ libs)) l;
      }
  IsComplete-cons lib libs s t crashed e l ih h =
      let none_is_some : none ≡ some t = rw (e, sweep_from) at h in cc

  pub sweep_from-IsComplete :
      (libs : List TdarrLibraryInfo) (s t : Sweep Num)
      → sweep_from verdict (map pie_data_request libs) s ≡ some t
      → t.partial ≡ false
      → IsComplete libs s t
  unfolding sweep_from
  sweep_from-IsComplete [] s t h u =
      let e : s ≡ t = some-injective s t h in
      record { unflagged = ap (λ w. w.partial) e ∙ u; covers = rw (← e) (sym (append-nil _)) }
  sweep_from-IsComplete (lib ∷ libs) s t h u =
      IsComplete-cons lib libs s t (verdict (pie_data_request lib)) refl
        (labels (pie_data_request lib)) (λ s' k. sweep_from-IsComplete libs s' t k u) h

module _ {Num : Type 0} (fl : Float64 Num) (lower_table : ℕ → ℕ) (sort_slice : SortSlice)
    (config : CollectorConfig) (api : TdarrApi Num) where
  keep_or_drop-Labels :
      (p : TdarrPieDataRequest) (pie : TdarrPieStats Num)
      → library_of pie ≡ record { library_id = p.library_id; name = p.library_name }
      → Labels p (keep_or_drop lower_table api config.pie_stats_path pie)
  unfolding normalize_pie_statuses
  keep_or_drop-Labels p pie h =
      elim (Bool-cases (is_empty pie.library_id || is_empty pie.library_name)) [
        | inl e ↦ rw e tt
        | inr e ↦ rw e h
      ]

  after_request-Labels :
      (p : TdarrPieDataRequest) (r : Result (TdarrPieStat Num))
      → Labels p (after_request lower_table api config.pie_stats_path p r)
  after_request-Labels p (ok stats) =
      keep_or_drop-Labels p (new_pie lower_table api config.pie_stats_path p stats) refl
  after_request-Labels p (error _) = tt
  after_request-Labels p panic = tt

  get_lib_stats-Labels :
      (p : TdarrPieDataRequest) → Labels p (get_lib_stats lower_table api config.pie_stats_path p)
  unfolding get_lib_stats
  get_lib_stats-Labels p = after_request-Labels p _

  -- A sweep that drops nothing has the pies of exactly the listed libraries.
  pub sweep_complete :
      (all_libs : List TdarrLibraryInfo) (counts : UnknownStatusCounts) (w : Sweep Num)
      → 0 < config.max_concurrency
      → sweep fl lower_table sort_slice config api all_libs counts ≡ some w
      → w.partial ≡ false
      → map library_of w.pie_data ≡ all_libs
  unfolding sweep fetch_pies
  sweep_complete all_libs counts w pos h u =
      let positive : ltb 0 config.max_concurrency ≡ true = ground arith in
      (sweep_from-IsComplete (get_lib_stats lower_table api config.pie_stats_path)
        get_lib_stats-Labels all_libs _ w (rw (positive, sweep, fetch_pies) at h) u).covers

  after_sweep-Gathered :
      (sorted : Sorts sort_slice) (metric : TdarrMetric Num) (all_libs : List TdarrLibraryInfo)
      (s : Scrape Num) (o : Option (Sweep Num))
      → 0 < config.max_concurrency
      → sweep fl lower_table sort_slice config api all_libs s.unknown_status_counts ≡ o
      → Gathered all_libs s (after_sweep fl lower_table sort_slice config api metric all_libs s o)
  unfolding library_fingerprint write
  after_sweep-Gathered sorted metric all_libs s none pos e = tt
  after_sweep-Gathered sorted metric all_libs s (some w) pos e = elim (Bool-cases w.partial) [
    | inl missing ↦ rw missing refl
    | inr complete ↦
        let covers = sweep_complete all_libs s.unknown_status_counts w pos e complete in
        rw complete (
          Perm_of_eq covers,
          inr (Perm.trans (Perm_of_eq covers) (Perm.symm (sorted.permutes all_libs))),
        )
  ]

  pub faithful_covers :
      (sorted : Sorts sort_slice) (all_libs : List TdarrLibraryInfo)
      (cache : TdarrLibStatsCache Num)
      → cache.snap.stats ≢ []
      → cache.snap.fingerprint ≡ library_fingerprint sort_slice all_libs
      → IsFaithful cache
      → Perm (map library_of cache.snap.stats) all_libs
  unfolding library_fingerprint
  faithful_covers sorted all_libs cache full e (inl empty) = absurd (full empty)
  faithful_covers sorted all_libs cache full e (inr p) =
      Perm.trans p (Perm.trans (Perm_of_eq e) (sorted.permutes all_libs))

  -- With a positive concurrency, a sorting `sort.Slice` and a faithful cache: where `gather_pies`
  -- reports that no library is missing, the pies are those of exactly the libraries that Tdarr lists
  -- now, each as often, and the cache is faithful; where it reports that one is missing, the cache is
  -- as it was.
  pub gather_pies-Gathered :
      (sorted : Sorts sort_slice) (metric : TdarrMetric Num) (all_libs : List TdarrLibraryInfo)
      (s : Scrape Num)
      → 0 < config.max_concurrency
      → IsFaithful s.stats_cache
      → Gathered all_libs s (gather_pies fl lower_table sort_slice config api metric all_libs s)
  unfolding gather_pies read
  gather_pies-Gathered sorted metric all_libs s pos f =
      elim (Bool-cases
        (should_refetch (read s.stats_cache) metric (library_fingerprint sort_slice all_libs))) [
          | inl refetch ↦
              rw (refetch, gather_pies) (after_sweep-Gathered sorted metric all_libs s _ pos refl)
          | inr cached ↦
              let (full, _, same) =
                (should_refetch-false_iff (read s.stats_cache) metric
                    (library_fingerprint sort_slice all_libs)).0
                  cached in
              rw (cached, gather_pies)
                (faithful_covers sorted all_libs s.stats_cache full same f, f)
        ]
