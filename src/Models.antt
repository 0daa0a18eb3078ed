-- ===== src/Models.antt =====
-- internal/collector/tdarr_models.go: the documents that the Tdarr API returns, as the decoder
-- fills them, over an abstract type `Num` of float64 values. JSON field names are left out; a nested
-- anonymous struct has its fields in the record that holds it, under the struct's name.
use tdarr_exporter.Prelude.{List, Bool}
use tdarr_exporter.Prelude.Int.{ℤ}
use tdarr_exporter.GoText.{Text}

pub record TdarrDataRequest : Type 0 where
  pub collection : Text
  pub mode : Text
  pub doc_id : Text

pub record TdarrMetricRequest : Type 0 where
  pub payload : TdarrDataRequest

pub record TdarrPieDataRequest : Type 0 where
  pub library_id : Text
  pub library_name : Text

pub record TdarrPieSlice : Type 0 where
  pub name : Text
  pub value : ℤ

pub record TdarrStreamStatsObj : Type 0 where
  pub average : ℤ
  pub highest : ℤ
  pub total : ℤ

pub record TdarrStreamStats : Type 0 where
  pub duration : TdarrStreamStatsObj
  pub bit_rate : TdarrStreamStatsObj
  pub num_frames : TdarrStreamStatsObj

pub record TdarrServerStatus : Type 0 where
  pub status : Text
  pub version : Text
  pub os : Text
  pub uptime : ℤ

pub record TdarrLibraryInfo : Type 0 where
  pub library_id : Text
  pub name : Text

pub record TdarrPieStatusSlice : Type 0 where
  pub transcode : List TdarrPieSlice
  pub health_check : List TdarrPieSlice

pub record TdarrPieVideoSlice : Type 0 where
  pub codecs : List TdarrPieSlice
  pub containers : List TdarrPieSlice
  pub resolutions : List TdarrPieSlice

pub record TdarrNodeConfig : Type 0 where
  pub server_ip : Text
  pub server_port : Text
  pub priority : ℤ
  pub pid : ℤ

pub record TdarrNodeJobs : Type 0 where
  pub health_check_cpu : ℤ
  pub health_check_gpu : ℤ
  pub transcode_cpu : ℤ
  pub transcode_gpu : ℤ

pub record TdarrResourceStats : Type 0 where
  pub process_uptime : ℤ
  pub process_heap_used_mb : Text
  pub process_heap_total_mb : Text
  pub os_cpu_percent : Text
  pub os_mem_used_gb : Text
  pub os_mem_total_gb : Text

pub record TdarrCacheTotals : Type 0 where
  pub total_file_count : ℤ
  pub total_transcode_count : ℤ
  pub total_health_check_count : ℤ
  pub hold_queue : ℤ
  pub transcode_queue : ℤ
  pub transcode_success : ℤ
  pub transcode_failed : ℤ
  pub health_check_queue : ℤ
  pub health_check_success : ℤ
  pub health_check_failed : ℤ

pub record TdarrMetric (Num : Type 0) : Type 0 where
  pub total_file_count : ℤ
  pub total_transcode_count : ℤ
  pub total_health_check_count : ℤ
  pub size_diff : Num
  pub tdarr_score : Text
  pub health_check_score : Text
  pub avg_num_streams : Num
  pub stream_stats : TdarrStreamStats
  pub hold_queue : ℤ
  pub transcode_queue : ℤ
  pub transcode_success : ℤ
  pub transcode_failed : ℤ
  pub health_check_queue : ℤ
  pub health_check_success : ℤ
  pub health_check_failed : ℤ

pub record TdarrPieStat (Num : Type 0) : Type 0 where
  pub total_files : ℤ
  pub total_transcode_count : ℤ
  pub size_diff : Num
  pub total_health_check_count : ℤ
  pub status : TdarrPieStatusSlice
  pub video : TdarrPieVideoSlice
  pub audio : TdarrPieVideoSlice

-- The two normalized maps are empty until `normalize_pie_statuses` fills them.
pub record TdarrPieStats (Num : Type 0) : Type 0 where
  pub pie_stats : TdarrPieStat Num
  pub library_name : Text
  pub library_id : Text
  pub normalized_transcodes : List (Text × ℤ)
  pub normalized_health_checks : List (Text × ℤ)

pub record TdarrNodeWorkers (Num : Type 0) : Type 0 where
  pub id : Text
  pub worker_type : Text
  pub flow_worker : Bool
  pub idle : Bool
  pub file : Text
  pub originalfile_size_gb : Num
  pub percentage : Num
  pub fps : ℤ
  pub eta : Text
  pub status : Text
  pub status_ts : ℤ
  pub job_version : Text
  pub job_start_time : ℤ
  pub job_type : Text
  pub job_id : Text
  pub process_connected : Bool
  pub process_pid : ℤ
  pub process_cli_type : Text
  pub last_plugin_details_source : Text
  pub last_plugin_details_id : Text
  pub last_plugin_details_position_number : Text
  pub start_time : ℤ
  pub output_file_size_gb : Num
  pub est_size_gb : Num

pub record TdarrNode (Num : Type 0) : Type 0 where
  pub id : Text
  pub name : Text
  pub remote_address : Text
  pub config : TdarrNodeConfig
  pub worker_limits : TdarrNodeJobs
  pub gpu_select : Text
  pub paused : Bool
  pub priority : ℤ
  pub workers : List (Text × TdarrNodeWorkers Num)
  pub resource_stats : TdarrResourceStats
  pub queue_lengths : TdarrNodeJobs
  pub max_gpu_workers : ℤ
  pub schedule_enabled : Bool
  pub allow_gpu_do_cpu : Bool
