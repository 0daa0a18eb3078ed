-- ===== src/Collector/Descs.antt =====
-- The metric descriptors of `TdarrCollector` in internal/collector/tdarr.go: its typedDesc fields, their
-- construction in `newTdarrCollectorWithAPI`, and `descsList`. Help texts are left out.
use tdarr_exporter.Prelude.{List, [], ◌∷◌, ◌++◌, map}
use tdarr_exporter.GoText.{Text}
use tdarr_exporter.Metrics.{Desc, TypedDesc, new_gauge, new_counter}
use tdarr_exporter.Nodes.Descs.{TdarrNodeMetrics, descs}

-- The typedDesc fields of `TdarrCollector`.
pub record CollectorMetrics : Type 0 where
  pub total_files_metric : TypedDesc
  pub total_transcode_count : TypedDesc
  pub total_health_check_count : TypedDesc
  pub size_diff : TypedDesc
  pub tdarr_score : TypedDesc
  pub health_check_score : TypedDesc
  pub avg_num_streams : TypedDesc
  pub stream_stats_duration : TypedDesc
  pub stream_stats_bit_rate : TypedDesc
  pub stream_stats_num_frames : TypedDesc
  pub pie_num_files : TypedDesc
  pub pie_num_transcodes : TypedDesc
  pub pie_num_health_checks : TypedDesc
  pub pie_size_diff : TypedDesc
  pub pie_transcodes : TypedDesc
  pub pie_health_checks : TypedDesc
  pub pie_video_codecs : TypedDesc
  pub pie_video_containers : TypedDesc
  pub pie_video_resolutions : TypedDesc
  pub pie_audio_codecs : TypedDesc
  pub pie_audio_containers : TypedDesc
  pub pie_library_info : TypedDesc
  pub unknown_status_total : TypedDesc
  pub up_metric : TypedDesc
  pub server_uptime : TypedDesc
  pub server_info : TypedDesc
  pub server_status : TypedDesc
  pub server_healthy : TypedDesc

unfoldable pub new_collector_metrics : Text → CollectorMetrics
unfolding new_gauge new_counter
new_collector_metrics instance_name = record {
  total_files_metric = new_gauge "files" [] instance_name;
  total_transcode_count = new_gauge "transcodes_completed" [] instance_name;
  total_health_check_count = new_gauge "health_checks_completed" [] instance_name;
  size_diff = new_gauge "size_diff_bytes" [] instance_name;
  tdarr_score = new_gauge "score_ratio" [] instance_name;
  health_check_score = new_gauge "health_check_score_ratio" [] instance_name;
  avg_num_streams = new_gauge "avg_num_streams" [] instance_name;
  stream_stats_duration =
      new_gauge "stream_stats_duration_seconds" ("stat_type" ∷ []) instance_name;
  stream_stats_bit_rate = new_gauge "stream_stats_bit_rate" ("stat_type" ∷ []) instance_name;
  stream_stats_num_frames = new_gauge "stream_stats_num_frames" ("stat_type" ∷ []) instance_name;
  pie_num_files = new_gauge "library_files" ("library_id" ∷ []) instance_name;
  pie_num_transcodes =
      new_counter "library_transcodes_completed_total" ("library_id" ∷ []) instance_name;
  pie_num_health_checks =
      new_counter "library_health_checks_completed_total" ("library_id" ∷ []) instance_name;
  pie_size_diff = new_gauge "library_size_diff_bytes" ("library_id" ∷ []) instance_name;
  pie_transcodes = new_gauge "library_transcodes" ("library_id" ∷ "status" ∷ []) instance_name;
  pie_health_checks =
      new_gauge "library_health_checks" ("library_id" ∷ "status" ∷ []) instance_name;
  pie_video_codecs = new_gauge "library_video_codecs" ("library_id" ∷ "codec" ∷ []) instance_name;
  pie_video_containers =
      new_gauge "library_video_containers" ("library_id" ∷ "container_type" ∷ []) instance_name;
  pie_video_resolutions =
      new_gauge "library_video_resolutions" ("library_id" ∷ "resolution" ∷ []) instance_name;
  pie_audio_codecs = new_gauge "library_audio_codecs" ("library_id" ∷ "codec" ∷ []) instance_name;
  pie_audio_containers =
      new_gauge "library_audio_containers" ("library_id" ∷ "container_type" ∷ []) instance_name;
  pie_library_info = new_gauge "library_info" ("library_id" ∷ "library_name" ∷ []) instance_name;
  unknown_status_total =
      new_counter "unknown_status_total" ("job_kind" ∷ "status" ∷ []) instance_name;
  up_metric = new_gauge "up" [] instance_name;
  server_uptime = new_gauge "server_uptime_seconds" [] instance_name;
  server_info = new_gauge "server_info" ("version" ∷ "os" ∷ []) instance_name;
  server_status = new_gauge "server_status_info" ("status" ∷ []) instance_name;
  server_healthy = new_gauge "server_healthy" [] instance_name;
}

-- In Describe order.
unfoldable pub descs_list : CollectorMetrics → List TypedDesc
descs_list m =
    m.total_files_metric ∷ m.total_transcode_count ∷ m.total_health_check_count ∷ m.size_diff
    ∷ m.tdarr_score ∷ m.health_check_score ∷ m.pie_num_files ∷ m.pie_num_transcodes
    ∷ m.pie_num_health_checks ∷ m.pie_size_diff ∷ m.pie_transcodes ∷ m.pie_health_checks
    ∷ m.avg_num_streams ∷ m.stream_stats_duration ∷ m.stream_stats_bit_rate
    ∷ m.stream_stats_num_frames ∷ m.pie_video_codecs ∷ m.pie_video_containers
    ∷ m.pie_video_resolutions ∷ m.pie_audio_codecs ∷ m.pie_audio_containers ∷ m.pie_library_info
    ∷ m.unknown_status_total ∷ m.up_metric ∷ m.server_uptime ∷ m.server_info ∷ m.server_status
    ∷ m.server_healthy ∷ []

-- What `Describe` sends.
unfoldable pub describe : CollectorMetrics → TdarrNodeMetrics → List Desc
unfolding descs_list descs
describe c m = map (λ d. d.desc) (descs_list c) ++ map (λ d. d.desc) (descs m)
