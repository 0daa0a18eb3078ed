-- ===== src/Collector/Emit.antt =====
-- What a scrape emits about the server, the general stats and the libraries: `emitServerMetrics`,
-- `emitGeneralMetrics`, `emitPieSlices`, `emitPieMetrics` and the unknown-status loop of `collect` in
-- internal/collector/tdarr.go. A function returns what it sends to the channel, in order; a map is
-- ranged over in the order of its association list, where Go leaves the order open.
use tdarr_exporter.Prelude.{ℕ, Bool, List, [], ◌∷◌, ◌++◌, if◌then◌else◌}
use tdarr_exporter.Prelude.Int.{ℤ, pos}
use tdarr_exporter.GoText.{Text, lit, to_lower}
use tdarr_exporter.Models.{
  TdarrServerStatus, TdarrMetric, TdarrStreamStatsObj, TdarrPieSlice, TdarrPieStats,
}
use tdarr_exporter.Enums.{is_healthy_server_status}
use tdarr_exporter.Metrics.{Float64, bytes_per_gb, TypedDesc, Metric, must_new_const_metric}
use tdarr_exporter.Collector.Descs.{CollectorMetrics}
use tdarr_exporter.Collector.Unknown.{UnknownStatusCounts}

module _ {Num : Type 0} (fl : Float64 Num) (lower_table : ℕ → ℕ) (c : CollectorMetrics) where
  abbrev pub one : Num
  one = fl.of_int (pos 1)

  abbrev pub zero_or_one : Bool → Num
  zero_or_one b = if b then fl.of_int (pos 1) else fl.of_int (pos 0)

  unfoldable pub emit_server_metrics : TdarrServerStatus → List (Metric Num)
  unfolding must_new_const_metric
  emit_server_metrics status =
      must_new_const_metric c.server_uptime (fl.of_int status.uptime) []
      ∷ must_new_const_metric c.server_info one (status.version ∷ status.os ∷ [])
      ∷ must_new_const_metric c.server_status one (status.status ∷ [])
      ∷ must_new_const_metric c.server_healthy
          (zero_or_one (is_healthy_server_status lower_table status.status)) []
      ∷ []

  -- The three values of a stream statistic.
  abbrev pub emit_stream_stats : TypedDesc → TdarrStreamStatsObj → List (Metric Num)
  emit_stream_stats d obj =
      must_new_const_metric d (fl.of_int obj.average) (lit "average" ∷ [])
      ∷ must_new_const_metric d (fl.of_int obj.highest) (lit "highest" ∷ [])
      ∷ must_new_const_metric d (fl.of_int obj.total) (lit "total" ∷ [])
      ∷ []

  unfoldable pub emit_general_metrics : TdarrMetric Num → Num → Num → List (Metric Num)
  unfolding must_new_const_metric
  emit_general_metrics metric score health_score =
      must_new_const_metric c.total_files_metric (fl.of_int metric.total_file_count) []
      ∷ must_new_const_metric c.total_transcode_count (fl.of_int metric.total_transcode_count) []
      ∷ must_new_const_metric c.total_health_check_count (fl.of_int metric.total_health_check_count)
          []
      ∷ must_new_const_metric c.size_diff (fl.mul metric.size_diff (fl.of_int (pos bytes_per_gb)))
          []
      ∷ must_new_const_metric c.tdarr_score (fl.mul score fl.percent_to_ratio) []
      ∷ must_new_const_metric c.health_check_score (fl.mul health_score fl.percent_to_ratio) []
      ∷ must_new_const_metric c.avg_num_streams metric.avg_num_streams []
      ∷ (emit_stream_stats c.stream_stats_duration metric.stream_stats.duration
          ++ (emit_stream_stats c.stream_stats_bit_rate metric.stream_stats.bit_rate
              ++ emit_stream_stats c.stream_stats_num_frames metric.stream_stats.num_frames))

  unfoldable pub emit_pie_slices : TypedDesc → Text → List TdarrPieSlice → List (Metric Num)
  unfolding must_new_const_metric
  emit_pie_slices desc lib_id [] = []
  emit_pie_slices desc lib_id (s ∷ slices) =
      must_new_const_metric desc (fl.of_int s.value) (lib_id ∷ to_lower lower_table s.name ∷ [])
      ∷ emit_pie_slices desc lib_id slices

  -- for status, count := range of a normalized map
  unfoldable pub emit_statuses : TypedDesc → Text → List (Text × ℤ) → List (Metric Num)
  unfolding must_new_const_metric
  emit_statuses desc lib_id [] = []
  emit_statuses desc lib_id ((status, count) ∷ m) =
      must_new_const_metric desc (fl.of_int count) (lib_id ∷ status ∷ [])
      ∷ emit_statuses desc lib_id m

  unfoldable pub emit_pie : TdarrPieStats Num → List (Metric Num)
  unfolding must_new_const_metric emit_pie_slices emit_statuses
  emit_pie pie =
      let id = pie.library_id in
      must_new_const_metric c.pie_library_info one (id ∷ pie.library_name ∷ [])
      ∷ must_new_const_metric c.pie_num_files (fl.of_int pie.pie_stats.total_files) (id ∷ [])
      ∷ must_new_const_metric c.pie_num_transcodes (fl.of_int pie.pie_stats.total_transcode_count)
          (id ∷ [])
      ∷ must_new_const_metric c.pie_num_health_checks
          (fl.of_int pie.pie_stats.total_health_check_count) (id ∷ [])
      ∷ must_new_const_metric c.pie_size_diff
          (fl.mul pie.pie_stats.size_diff (fl.of_int (pos bytes_per_gb))) (id ∷ [])
      ∷ (emit_statuses c.pie_transcodes id pie.normalized_transcodes
          ++ (emit_statuses c.pie_health_checks id pie.normalized_health_checks
              ++ (emit_pie_slices c.pie_video_codecs id pie.pie_stats.video.codecs
                  ++ (emit_pie_slices c.pie_video_containers id pie.pie_stats.video.containers
                      ++ (emit_pie_slices c.pie_video_resolutions id pie.pie_stats.video.resolutions
                          ++ (emit_pie_slices c.pie_audio_codecs id pie.pie_stats.audio.codecs
                              ++ emit_pie_slices c.pie_audio_containers id
                                  pie.pie_stats.audio.containers))))))

  unfoldable pub emit_pie_metrics : List (TdarrPieStats Num) → List (Metric Num)
  unfolding emit_pie
  emit_pie_metrics [] = []
  emit_pie_metrics (pie ∷ pie_data) = emit_pie pie ++ emit_pie_metrics pie_data

  -- for key, count := range c.unknownStatusCounts
  unfoldable pub emit_unknown_statuses : UnknownStatusCounts → List (Metric Num)
  unfolding must_new_const_metric
  emit_unknown_statuses [] = []
  emit_unknown_statuses ((key, count) ∷ counts) =
      must_new_const_metric c.unknown_status_total (fl.of_int (pos count))
        (key.kind ∷ key.status ∷ [])
      ∷ emit_unknown_statuses counts
