-- ===== src/Collector/Shape/General.antt =====
-- The metrics of `emitServerMetrics`, `emitGeneralMetrics` and the unknown-status loop of
-- internal/collector/tdarr.go.
use tdarr_exporter.Prelude.{ℕ, refl, [], ◌∷◌, ◌++◌, All, All-append}
use tdarr_exporter.GoText.{Text}
use tdarr_exporter.Models.{TdarrServerStatus, TdarrMetric, TdarrStreamStatsObj}
use tdarr_exporter.Metrics.{Float64, TypedDesc, new_gauge, new_counter}
use tdarr_exporter.Collector.Descs.{CollectorMetrics, new_collector_metrics, describe}
use tdarr_exporter.Collector.Emit.{
  emit_server_metrics, emit_stream_stats, emit_general_metrics, emit_unknown_statuses,
}
use tdarr_exporter.Collector.Unknown.{UnknownStatusCounts}
use tdarr_exporter.Collector.Shape.{IsSample, IsListed, must_new_const_metric-IsSample, sample}

module _ {Num : Type 0} (fl : Float64 Num) (lower_table : ℕ → ℕ) (instance_name : Text) where
  abbrev collector_metrics : CollectorMetrics
  collector_metrics = new_collector_metrics instance_name

  pub emit_server_metrics-IsSample :
      (status : TdarrServerStatus)
      → All (IsSample instance_name) (emit_server_metrics fl lower_table collector_metrics status)
  unfolding emit_server_metrics new_collector_metrics new_gauge describe
  emit_server_metrics-IsSample status = (
    sample 24 _ _ _ refl refl refl,
    (
      sample 25 _ _ _ refl refl refl,
      (sample 26 _ _ _ refl refl refl, (sample 27 _ _ _ refl refl refl, tt)),
    ),
  )

  emit_stream_stats-IsSample :
      (d : TypedDesc) (obj : TdarrStreamStatsObj)
      → IsListed instance_name 1 d
      → All (IsSample instance_name) (emit_stream_stats fl lower_table collector_metrics d obj)
  emit_stream_stats-IsSample d obj l = (
    must_new_const_metric-IsSample l _ _ refl,
    (must_new_const_metric-IsSample l _ _ refl, (must_new_const_metric-IsSample l _ _ refl, tt)),
  )

  pub emit_general_metrics-IsSample :
      (metric : TdarrMetric Num) (score health_score : Num)
      → All
          (IsSample instance_name)
          (emit_general_metrics fl lower_table collector_metrics metric score health_score)
  unfolding emit_general_metrics new_collector_metrics new_gauge describe
  emit_general_metrics-IsSample metric score health_score = (
    sample 0 _ _ _ refl refl refl,
    (
      sample 1 _ _ _ refl refl refl,
      (
        sample 2 _ _ _ refl refl refl,
        (
          sample 3 _ _ _ refl refl refl,
          (
            sample 4 _ _ _ refl refl refl,
            (
              sample 5 _ _ _ refl refl refl,
              (
                sample 12 _ _ _ refl refl refl,
                All-append (IsSample instance_name)
                    (emit_stream_stats fl lower_table collector_metrics
                      collector_metrics.stream_stats_duration metric.stream_stats.duration)
                    (emit_stream_stats fl lower_table collector_metrics
                        collector_metrics.stream_stats_bit_rate metric.stream_stats.bit_rate
                      ++ emit_stream_stats fl lower_table collector_metrics
                          collector_metrics.stream_stats_num_frames metric.stream_stats.num_frames)
                    (emit_stream_stats-IsSample collector_metrics.stream_stats_duration
                      metric.stream_stats.duration
                      (record { place = 13; found = refl; labels = refl; other = refl }))
                    (All-append (IsSample instance_name)
                      (emit_stream_stats fl lower_table collector_metrics
                        collector_metrics.stream_stats_bit_rate metric.stream_stats.bit_rate)
                      (emit_stream_stats fl lower_table collector_metrics
                        collector_metrics.stream_stats_num_frames metric.stream_stats.num_frames)
                      (emit_stream_stats-IsSample collector_metrics.stream_stats_bit_rate
                        metric.stream_stats.bit_rate
                        (record { place = 14; found = refl; labels = refl; other = refl }))
                      (emit_stream_stats-IsSample collector_metrics.stream_stats_num_frames
                        metric.stream_stats.num_frames
                        (record { place = 15; found = refl; labels = refl; other = refl }))),
              ),
            ),
          ),
        ),
      ),
    ),
  )

  pub emit_unknown_statuses-IsSample :
      (counts : UnknownStatusCounts)
      → All (IsSample instance_name) (emit_unknown_statuses fl lower_table collector_metrics counts)
  unfolding emit_unknown_statuses new_collector_metrics new_counter describe
  emit_unknown_statuses-IsSample [] = tt
  emit_unknown_statuses-IsSample ((key, count) ∷ counts) =
      (sample 22 _ _ _ refl refl refl, emit_unknown_statuses-IsSample counts)
