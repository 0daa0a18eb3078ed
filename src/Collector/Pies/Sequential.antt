-- ===== src/Collector/Pies/Sequential.antt =====
-- The sequential sweep of the libraries of internal/collector/tdarr.go, summed up: the pies, the flag and the counters.
use tdarr_exporter.Prelude.{
  ◌+◌, ◌≡◌, refl, sym, ap, ◌∙◌, true, ◌||◌, List, [], ◌∷◌, ◌++◌, none, some, arith,
}
use tdarr_exporter.Models.{TdarrPieDataRequest}
use tdarr_exporter.Collector.Unknown.{
  UnknownStatusKey, UnknownStatusCounts, count_of, bump_unknown_status,
}
use tdarr_exporter.Collector.Unknown.Laws.{count_of-bump}
use tdarr_exporter.Collector.Pies.{
  Bump, Verdict, dropped, produced, crashed, bump_all, Sweep, sweep_from,
}
use tdarr_exporter.Collector.Pies.Totals.{
  pies_of, flags, bumps_of, bumps_in, all_pies, any_flag, all_bumps,
}
use mathlib.Core.Option.{some-injective}
use mathlib.Core.List.{append_assoc, append-nil}

count_of-bump_all :
    (key : UnknownStatusKey) (bumps : List Bump) (counts : UnknownStatusCounts)
    → count_of key (bump_all bumps counts) ≡ count_of key counts + bumps_of key bumps
unfolding bump_all
count_of-bump_all key [] counts = omega arith
count_of-bump_all key ((kind, status) ∷ bumps) counts = omega (
  arith,
  count_of-bump_all key bumps (bump_unknown_status kind status counts),
  count_of-bump key kind status counts,
)

module _ {Num : Type 0} (verdict : TdarrPieDataRequest → Verdict Num) where
  -- The sequential sweep, in closed form.
  pub record IsSweepOf (ps : List TdarrPieDataRequest) (s t : Sweep Num) : Type 0 where
    pub pies : t.pie_data ≡ s.pie_data ++ all_pies verdict ps
    pub flagged : t.partial ≡ (s.partial || any_flag verdict ps)
    pub bumped :
        (key : UnknownStatusKey)
        → count_of key t.counts ≡ count_of key s.counts + all_bumps verdict key ps

  IsSweepOf-cons :
      (p : TdarrPieDataRequest) (ps : List TdarrPieDataRequest) (s t : Sweep Num) (v : Verdict Num)
      → verdict p ≡ v
      → ((s' : Sweep Num) → sweep_from verdict ps s' ≡ some t → IsSweepOf ps s' t)
      → sweep_from verdict (p ∷ ps) s ≡ some t
      → IsSweepOf (p ∷ ps) s t
  unfolding sweep_from
  IsSweepOf-cons p ps s t dropped e ih h =
      let r = ih (record s { partial = true }) (rw (e, sweep_from) at h) in
      record {
        pies = r.pies ∙ ap (λ l. s.pie_data ++ (l ++ all_pies verdict ps)) (sym (ap pies_of e));
        flagged = ground (arith, r.flagged, ap flags e);
        bumped = λ key. omega (arith, r.bumped key, ap (bumps_in key) e);
      }
  IsSweepOf-cons p ps s t (produced bumps pie) e ih h =
      let r =
        ih (record s { pie_data = s.pie_data ++ pie ∷ []; counts = bump_all bumps s.counts })
          (rw (e, sweep_from) at h) in
      record {
        pies =
            r.pies
            ∙ append_assoc s.pie_data (pie ∷ []) (all_pies verdict ps)
            ∙ ap (λ l. s.pie_data ++ (l ++ all_pies verdict ps)) (sym (ap pies_of e));
        flagged = ground (arith, r.flagged, ap flags e);
        bumped = λ key.
            omega (arith, r.bumped key, ap (bumps_in key) e, count_of-bump_all key bumps s.counts);
      }
  IsSweepOf-cons p ps s t crashed e ih h =
      let none_is_some : none ≡ some t = rw (e, sweep_from) at h in cc

  pub sweep_from-IsSweepOf :
      (ps : List TdarrPieDataRequest) (s t : Sweep Num)
      → sweep_from verdict ps s ≡ some t
      → IsSweepOf ps s t
  unfolding sweep_from
  sweep_from-IsSweepOf [] s t h =
      let e : s ≡ t = some-injective s t h in
      record {
        pies = rw (← e) (sym (append-nil _));
        flagged = rw (← e) (ground arith);
        bumped = λ key. rw (← e) (omega arith);
      }
  sweep_from-IsSweepOf (p ∷ ps) s t h =
      IsSweepOf-cons p ps s t (verdict p) refl (λ s'. sweep_from-IsSweepOf ps s' t) h
