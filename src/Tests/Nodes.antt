-- ===== src/Tests/Nodes.antt =====
-- Workers of a node: internal/collector/tdarr_nodes.go.
use tdarr_exporter.Prelude.{
  ◌≡◌, ◌↔◌, refl, true, false, ◌&&◌, List, [], ◌∷◌, some, arith, ◌==◌, elem, list_eq,
}
use tdarr_exporter.Prelude.Int.{ℤ, pos}
use tdarr_exporter.Prelude.Assoc.{get_count}
use tdarr_exporter.GoText.{Text, Text_eq, lit}
use tdarr_exporter.Models.{TdarrNodeWorkers}
use tdarr_exporter.Nodes.WorkerType.{
  WorkerTypeDim, WorkerTypeDim_eq, worker_type_transcode, compute_type_gpu, parse_worker_type,
  count_workers_by_type,
}
use tdarr_exporter.Nodes.WorkerType.Laws.{
  compound, tally, is_unknown_type, parse_worker_type_iff, count_workers_by_type_counts,
}
use tdarr_exporter.Nodes.Eta.{parse_eta_seconds}
use tdarr_exporter.Nodes.Eta.Laws.{parse_eta_seconds-digits}
use tdarr_exporter.Nodes.Eta.Scanned.{Scanned, parse_eta_seconds-Scanned}

abbrev worker_of : Text → TdarrNodeWorkers ℤ
worker_of worker_type = record {
  id = lit "w";
  worker_type = worker_type;
  flow_worker = false;
  idle = false;
  file = lit "/a.mkv";
  originalfile_size_gb = pos 1;
  percentage = pos 50;
  fps = pos 24;
  eta = lit "0:01:30";
  status = lit "Processing";
  status_ts = pos 0;
  job_version = [];
  job_start_time = pos 0;
  job_type = [];
  job_id = [];
  process_connected = true;
  process_pid = pos 1;
  process_cli_type = [];
  last_plugin_details_source = [];
  last_plugin_details_id = [];
  last_plugin_details_position_number = [];
  start_time = pos 0;
  output_file_size_gb = pos 1;
  est_size_gb = pos 1;
}

abbrev workers : List (Text × TdarrNodeWorkers ℤ)
workers =
    (lit "a", worker_of (lit "transcodegpu"))
    ∷ (lit "b", worker_of (lit "teleport"))
    ∷ (lit "c", worker_of (lit "transcodegpu"))
    ∷ []

abbrev transcode_gpu : WorkerTypeDim
transcode_gpu = record { worker_type = worker_type_transcode; compute_type = compute_type_gpu }

parse_worker_type_iff_example :
    (parse_worker_type (lit "transcodegpu") ≡ transcode_gpu)
    ↔ (lit "transcodegpu" ≡ compound transcode_gpu)
unfolding elem list_eq
parse_worker_type_iff_example = parse_worker_type_iff (lit "transcodegpu") transcode_gpu refl

count_workers_by_type_counts_example :
    (get_count transcode_gpu (count_workers_by_type workers).known
      ≡ tally (λ w. w.worker_type == compound transcode_gpu) workers)
    × (get_count (lit "teleport") (count_workers_by_type workers).unknown
        ≡ tally (λ w. w.worker_type == lit "teleport" && is_unknown_type (lit "teleport")) workers)
unfolding elem list_eq
count_workers_by_type_counts_example =
    count_workers_by_type_counts workers transcode_gpu (lit "teleport") refl

parse_eta_seconds-digits_example : parse_eta_seconds (lit "1:02:03") ≡ some (pos 3723)
parse_eta_seconds-digits_example =
    parse_eta_seconds-digits (lit "1") (lit "02") (lit "03") [] (refl, tt) (refl, (refl, tt))
      (refl, (refl, tt)) (λ e. cc) (λ e. cc) (λ e. cc) tt (omega arith)

-- White space before a number, a sign, and text behind the seconds.
parse_eta_seconds-Scanned_example :
    (behind_hours : Text) × (behind_minutes : Text) × (behind_seconds : Text) × Scanned
      (lit " +1: 2:-3 left")
      (b':' ∷ behind_hours)
    × Scanned behind_hours (b':' ∷ behind_minutes)
    × Scanned behind_minutes behind_seconds
unfolding parse_eta_seconds
parse_eta_seconds-Scanned_example = parse_eta_seconds-Scanned (lit " +1: 2:-3 left") (pos 3717) refl
