-- ===== src/Collector/Shape/Libraries.antt =====
-- The metrics of `emitPieMetrics` and `emitPieSlices` of internal/collector/tdarr.go.
use tdarr_exporter.Prelude.{ℕ, refl, List, [], ◌∷◌, All, All-append}
use tdarr_exporter.GoText.{Text}
use tdarr_exporter.Prelude.Int.{ℤ}
use tdarr_exporter.Models.{TdarrPieSlice, TdarrPieStats}
use tdarr_exporter.Metrics.{Float64, TypedDesc, new_gauge, new_counter}
use tdarr_exporter.Collector.Descs.{CollectorMetrics, new_collector_metrics, describe}
use tdarr_exporter.Collector.Emit.{emit_pie_slices, emit_statuses, emit_pie, emit_pie_metrics}
use tdarr_exporter.Collector.Shape.{IsSample, IsListed, must_new_const_metric-IsSample, sample}

module _ {Num : Type 0} (fl : Float64 Num) (lower_table : ℕ → ℕ) (instance_name : Text) where
  abbrev collector_metrics : CollectorMetrics
  collector_metrics = new_collector_metrics instance_name

  emit_pie_slices-IsSample :
      (d : TypedDesc) (lib_id : Text) (slices : List TdarrPieSlice)
      → IsListed instance_name 2 d
      → All
          (IsSample instance_name)
          (emit_pie_slices fl lower_table collector_metrics d lib_id slices)
  unfolding emit_pie_slices
  emit_pie_slices-IsSample d lib_id [] l = tt
  emit_pie_slices-IsSample d lib_id (s ∷ slices) l =
      (must_new_const_metric-IsSample l _ _ refl, emit_pie_slices-IsSample d lib_id slices l)

  emit_statuses-IsSample :
      (d : TypedDesc) (lib_id : Text) (m : List (Text × ℤ))
      → IsListed instance_name 2 d
      → All (IsSample instance_name) (emit_statuses fl lower_table collector_metrics d lib_id m)
  unfolding emit_statuses
  emit_statuses-IsSample d lib_id [] l = tt
  emit_statuses-IsSample d lib_id ((status, count) ∷ m) l =
      (must_new_const_metric-IsSample l _ _ refl, emit_statuses-IsSample d lib_id m l)

  emit_pie-IsSample :
      (pie : TdarrPieStats Num)
      → All (IsSample instance_name) (emit_pie fl lower_table collector_metrics pie)
  unfolding emit_pie new_collector_metrics new_gauge new_counter describe
  emit_pie-IsSample pie = (
    sample 21 _ _ _ refl refl refl,
    (
      sample 6 _ _ _ refl refl refl,
      (
        sample 7 _ _ _ refl refl refl,
        (
          sample 8 _ _ _ refl refl refl,
          (
            sample 9 _ _ _ refl refl refl,
            All-append (IsSample instance_name) _ _
                (emit_statuses-IsSample collector_metrics.pie_transcodes pie.library_id
                  pie.normalized_transcodes
                  (record { place = 10; found = refl; labels = refl; other = refl }))
                (All-append (IsSample instance_name) _ _
                  (emit_statuses-IsSample collector_metrics.pie_health_checks pie.library_id
                    pie.normalized_health_checks
                    (record { place = 11; found = refl; labels = refl; other = refl }))
                  (All-append (IsSample instance_name) _ _
                    (emit_pie_slices-IsSample collector_metrics.pie_video_codecs pie.library_id
                      pie.pie_stats.video.codecs
                      (record { place = 16; found = refl; labels = refl; other = refl }))
                    (All-append (IsSample instance_name) _ _
                      (emit_pie_slices-IsSample collector_metrics.pie_video_containers
                        pie.library_id pie.pie_stats.video.containers
                        (record { place = 17; found = refl; labels = refl; other = refl }))
                      (All-append (IsSample instance_name) _ _
                        (emit_pie_slices-IsSample collector_metrics.pie_video_resolutions
                          pie.library_id pie.pie_stats.video.resolutions
                          (record { place = 18; found = refl; labels = refl; other = refl }))
                        (All-append (IsSample instance_name) _ _
                          (emit_pie_slices-IsSample collector_metrics.pie_audio_codecs
                            pie.library_id pie.pie_stats.audio.codecs
                            (record { place = 19; found = refl; labels = refl; other = refl }))
                          (emit_pie_slices-IsSample collector_metrics.pie_audio_containers
                            pie.library_id pie.pie_stats.audio.containers
                            (record {
                              place = 20;
                              found = refl;
                              labels = refl;
                              other = refl;
                            }))))))),
          ),
        ),
      ),
    ),
  )

  pub emit_pie_metrics-IsSample :
      (pie_data : List (TdarrPieStats Num))
      → All (IsSample instance_name) (emit_pie_metrics fl lower_table collector_metrics pie_data)
  unfolding emit_pie_metrics
  emit_pie_metrics-IsSample [] = tt
  emit_pie_metrics-IsSample (pie ∷ pie_data) =
      All-append (IsSample instance_name) (emit_pie fl lower_table collector_metrics pie) _
        (emit_pie-IsSample pie) (emit_pie_metrics-IsSample pie_data)
