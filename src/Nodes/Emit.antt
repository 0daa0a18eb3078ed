-- ===== src/Nodes/Emit.antt =====
-- What a scrape emits about the nodes and their workers: `emitParsedFloat` and `emitNodeMetrics` of
-- internal/collector/tdarr.go and `emitPerType` of internal/collector/tdarr_nodes.go. A function returns
-- what it sends to the channel, in order; a map is ranged over in the order of its association list,
-- where Go leaves the order open.
use tdarr_exporter.Prelude.{
  ℕ, Bool, List, [], ◌∷◌, ◌++◌, Option, none, some, ◌==◌, ℕ_eq, if◌then◌else◌,
}
use tdarr_exporter.Prelude.Int.{ℤ, pos}
use tdarr_exporter.Prelude.Assoc.{get_count}
use tdarr_exporter.GoText.{Text, is_empty, itoa, format_bool}
use tdarr_exporter.Models.{TdarrNodeJobs, TdarrNodeWorkers, TdarrNode}
use tdarr_exporter.Metrics.{
  Float64, bytes_per_mb, bytes_per_gb, TypedDesc, Metric, must_new_const_metric,
}
use tdarr_exporter.Nodes.Descs.{TdarrNodeMetrics}
use tdarr_exporter.Nodes.WorkerType.{
  worker_type_transcode, worker_type_health_check, compute_type_cpu, compute_type_gpu,
  compute_type_unknown, WorkerTypeDim, WorkerTypeDim_eq, known_worker_type_dims, parse_worker_type,
  count_workers_by_type,
}
use tdarr_exporter.Nodes.Eta.{parse_eta_seconds}

module _ {Num : Type 0} (fl : Float64 Num) (m : TdarrNodeMetrics) where
  abbrev pub one : Num
  one = fl.of_int (pos 1)

  abbrev pub zero_or_one : Bool → Num
  zero_or_one b = if b then fl.of_int (pos 1) else fl.of_int (pos 0)

  abbrev pub gb : Num → Num
  gb x = fl.mul x (fl.of_int (pos bytes_per_gb))

  unfoldable pub emit_per_type : TypedDesc → Text → Text → TdarrNodeJobs → List (Metric Num)
  unfolding must_new_const_metric
  emit_per_type desc node_id node_name jobs =
      must_new_const_metric desc (fl.of_int jobs.transcode_cpu)
        (node_id ∷ node_name ∷ worker_type_transcode ∷ compute_type_cpu ∷ [])
      ∷ must_new_const_metric desc (fl.of_int jobs.transcode_gpu)
          (node_id ∷ node_name ∷ worker_type_transcode ∷ compute_type_gpu ∷ [])
      ∷ must_new_const_metric desc (fl.of_int jobs.health_check_cpu)
          (node_id ∷ node_name ∷ worker_type_health_check ∷ compute_type_cpu ∷ [])
      ∷ must_new_const_metric desc (fl.of_int jobs.health_check_gpu)
          (node_id ∷ node_name ∷ worker_type_health_check ∷ compute_type_gpu ∷ [])
      ∷ []

  -- Skipped where the text is no number.
  unfoldable pub emit_parsed_float : TypedDesc → Text → Num → Text → Text → List (Metric Num)
  unfolding must_new_const_metric
  emit_parsed_float desc raw scale node_id node_name = elim (fl.parse_float raw) [
    | some v ↦ must_new_const_metric desc (fl.mul v scale) (node_id ∷ node_name ∷ []) ∷ []
    | none ↦ []
  ]

  module _ (node : TdarrNode Num) where
    -- The node's own series, down to the per-type gauges.
    unfoldable pub emit_node_state : List (Metric Num)
    unfolding must_new_const_metric emit_parsed_float emit_per_type
    emit_node_state =
        must_new_const_metric m.node_info one (
          node.id
          ∷ node.name
          ∷ node.gpu_select
          ∷ itoa node.config.pid
          ∷ itoa node.priority
          ∷ format_bool node.allow_gpu_do_cpu
          ∷ [])
        ∷ must_new_const_metric m.node_uptime (fl.of_int node.resource_stats.process_uptime)
            (node.id ∷ node.name ∷ [])
        ∷ (emit_parsed_float m.node_heap_used_bytes node.resource_stats.process_heap_used_mb
              (fl.of_int (pos bytes_per_mb)) node.id node.name
            ++ (emit_parsed_float m.node_heap_total_bytes node.resource_stats.process_heap_total_mb
                  (fl.of_int (pos bytes_per_mb)) node.id node.name
                ++ (emit_parsed_float m.node_host_cpu_ratio node.resource_stats.os_cpu_percent
                      fl.percent_to_ratio node.id node.name
                    ++ (emit_parsed_float m.node_host_mem_used_bytes
                          node.resource_stats.os_mem_used_gb (fl.of_int (pos bytes_per_gb)) node.id
                          node.name
                        ++ (emit_parsed_float m.node_host_mem_total_bytes
                              node.resource_stats.os_mem_total_gb (fl.of_int (pos bytes_per_gb))
                              node.id node.name
                            ++ (must_new_const_metric m.node_paused (zero_or_one node.paused)
                                  (node.id ∷ node.name ∷ [])
                                ∷ must_new_const_metric m.node_max_gpu_workers
                                    (fl.of_int node.max_gpu_workers) (node.id ∷ node.name ∷ [])
                                ∷ must_new_const_metric m.node_schedule_enabled
                                    (zero_or_one node.schedule_enabled) (node.id ∷ node.name ∷ [])
                                ∷ (emit_per_type m.node_worker_limit node.id node.name
                                      node.worker_limits
                                    ++ emit_per_type m.node_queue_length node.id node.name
                                        node.queue_lengths)))))))

    -- The counts of the known worker types, zeros included.
    unfoldable pub emit_known_counts :
        List WorkerTypeDim → List (WorkerTypeDim × ℕ) → List (Metric Num)
    unfolding must_new_const_metric
    emit_known_counts [] known = []
    emit_known_counts (d ∷ ds) known =
        must_new_const_metric m.node_worker_count (fl.of_int (pos (get_count d known)))
          (node.id ∷ node.name ∷ d.worker_type ∷ d.compute_type ∷ [])
        ∷ emit_known_counts ds known

    -- The counts of the other worker types, but for zeros.
    unfoldable pub emit_unknown_counts : List (Text × ℕ) → List (Metric Num)
    unfolding must_new_const_metric
    emit_unknown_counts [] = []
    emit_unknown_counts ((raw_type, count) ∷ unknown) =
        (if count == 0
          then []
          else must_new_const_metric m.node_worker_count (fl.of_int (pos count))
              (node.id ∷ node.name ∷ raw_type ∷ compute_type_unknown ∷ [])
            ∷ [])
        ++ emit_unknown_counts unknown

    -- The gauges of one worker, labelled by node and worker.
    abbrev pub worker_gauge : TypedDesc → Num → TdarrNodeWorkers Num → Metric Num
    worker_gauge desc value worker =
        must_new_const_metric desc value (node.id ∷ node.name ∷ worker.id ∷ [])

    -- The last gauge of a worker is skipped where its ETA does not parse.
    abbrev pub emit_eta : TdarrNodeWorkers Num → Option ℤ → List (Metric Num)
    emit_eta worker none = []
    emit_eta worker (some eta_secs) =
        worker_gauge m.node_worker_eta_seconds (fl.of_int eta_secs) worker ∷ []

    unfoldable pub emit_worker : TdarrNodeWorkers Num → List (Metric Num)
    unfolding must_new_const_metric
    emit_worker worker =
        let types = parse_worker_type worker.worker_type in
        must_new_const_metric m.node_worker_info one (
          node.id
          ∷ node.name
          ∷ worker.id
          ∷ types.worker_type
          ∷ types.compute_type
          ∷ format_bool worker.flow_worker
          ∷ worker.file
          ∷ format_bool worker.process_connected
          ∷ [])
        ∷ must_new_const_metric m.node_worker_status one
            (node.id ∷ node.name ∷ worker.id ∷ worker.status ∷ [])
        ∷ ((if is_empty worker.last_plugin_details_id
              then []
              else must_new_const_metric m.node_worker_plugin one (
                  node.id ∷ node.name ∷ worker.id ∷ worker.last_plugin_details_id
                  ∷ worker.last_plugin_details_position_number ∷ [])
                ∷ [])
            ++ (worker_gauge m.node_worker_idle (zero_or_one worker.idle) worker
                ∷ worker_gauge m.node_worker_ratio (fl.mul worker.percentage fl.percent_to_ratio)
                    worker
                ∷ worker_gauge m.node_worker_fps (fl.of_int worker.fps) worker
                ∷ worker_gauge m.node_worker_original_file_size_bytes
                    (gb worker.originalfile_size_gb) worker
                ∷ worker_gauge m.node_worker_output_file_size_bytes (gb worker.output_file_size_gb)
                    worker
                ∷ worker_gauge m.node_worker_est_file_size_bytes (gb worker.est_size_gb) worker
                ∷ worker_gauge m.node_worker_job_start_timestamp (fl.of_int worker.job_start_time)
                    worker
                ∷ worker_gauge m.node_worker_step_start_timestamp (fl.of_int worker.start_time)
                    worker
                ∷ worker_gauge m.node_worker_status_timestamp (fl.of_int worker.status_ts) worker
                ∷ emit_eta worker (parse_eta_seconds worker.eta)))

    unfoldable pub emit_workers : List (Text × TdarrNodeWorkers Num) → List (Metric Num)
    unfolding emit_worker
    emit_workers [] = []
    emit_workers ((_, worker) ∷ workers) = emit_worker worker ++ emit_workers workers

    unfoldable pub emit_node : List (Metric Num)
    unfolding emit_node_state emit_known_counts emit_unknown_counts emit_workers
    emit_node =
        let worker_counts = count_workers_by_type node.workers in
        emit_node_state
        ++ (emit_known_counts known_worker_type_dims worker_counts.known
            ++ (emit_unknown_counts worker_counts.unknown ++ emit_workers node.workers))

  unfoldable pub emit_node_metrics : List (Text × TdarrNode Num) → List (Metric Num)
  unfolding emit_node
  emit_node_metrics [] = []
  emit_node_metrics ((_, node) ∷ node_data) = emit_node node ++ emit_node_metrics node_data
