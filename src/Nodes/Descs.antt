-- ===== src/Nodes/Descs.antt =====
-- The metric descriptors of the nodes and workers in internal/collector/tdarr_nodes.go:
-- `TdarrNodeMetrics`, `NewTdarrNodeMetrics` and `descs`. Help texts are left out.
use tdarr_exporter.Prelude.{String, List, [], ◌∷◌}
use tdarr_exporter.GoText.{Text}
use tdarr_exporter.Metrics.{TypedDesc, new_gauge, new_counter}

pub record TdarrNodeMetrics : Type 0 where
  pub node_info : TypedDesc
  pub node_uptime : TypedDesc
  pub node_heap_used_bytes : TypedDesc
  pub node_heap_total_bytes : TypedDesc
  pub node_host_cpu_ratio : TypedDesc
  pub node_host_mem_used_bytes : TypedDesc
  pub node_host_mem_total_bytes : TypedDesc
  pub node_paused : TypedDesc
  pub node_max_gpu_workers : TypedDesc
  pub node_schedule_enabled : TypedDesc
  pub node_worker_count : TypedDesc
  pub node_worker_limit : TypedDesc
  pub node_queue_length : TypedDesc
  pub node_worker_info : TypedDesc
  pub node_worker_status : TypedDesc
  pub node_worker_plugin : TypedDesc
  pub node_worker_idle : TypedDesc
  pub node_worker_ratio : TypedDesc
  pub node_worker_fps : TypedDesc
  pub node_worker_original_file_size_bytes : TypedDesc
  pub node_worker_output_file_size_bytes : TypedDesc
  pub node_worker_est_file_size_bytes : TypedDesc
  pub node_worker_job_start_timestamp : TypedDesc
  pub node_worker_step_start_timestamp : TypedDesc
  pub node_worker_status_timestamp : TypedDesc
  pub node_worker_eta_seconds : TypedDesc

abbrev pub node_label_pair : List String
node_label_pair = "node_id" ∷ "node_name" ∷ []

abbrev pub node_type_label_pair : List String
node_type_label_pair = "node_id" ∷ "node_name" ∷ "worker_type" ∷ "compute_type" ∷ []

abbrev pub worker_label_pair : List String
worker_label_pair = "node_id" ∷ "node_name" ∷ "worker_id" ∷ []

unfoldable pub new_tdarr_node_metrics : Text → TdarrNodeMetrics
unfolding new_gauge new_counter
new_tdarr_node_metrics instance_name = record {
  node_info =
      new_gauge "node_info"
        ("node_id" ∷ "node_name" ∷ "gpu_select" ∷ "node_pid" ∷ "node_priority" ∷ "gpu_can_do_cpu"
          ∷ [])
        instance_name;
  node_uptime = new_gauge "node_uptime_seconds" node_label_pair instance_name;
  node_heap_used_bytes = new_gauge "node_heap_used_bytes" node_label_pair instance_name;
  node_heap_total_bytes = new_gauge "node_heap_total_bytes" node_label_pair instance_name;
  node_host_cpu_ratio = new_gauge "node_host_cpu_ratio" node_label_pair instance_name;
  node_host_mem_used_bytes = new_gauge "node_host_mem_used_bytes" node_label_pair instance_name;
  node_host_mem_total_bytes = new_gauge "node_host_mem_total_bytes" node_label_pair instance_name;
  node_paused = new_gauge "node_paused" node_label_pair instance_name;
  node_max_gpu_workers = new_gauge "node_max_gpu_workers" node_label_pair instance_name;
  node_schedule_enabled = new_gauge "node_schedule_enabled" node_label_pair instance_name;
  node_worker_count = new_gauge "node_worker_count" node_type_label_pair instance_name;
  node_worker_limit = new_gauge "node_worker_limit" node_type_label_pair instance_name;
  node_queue_length = new_gauge "node_queue_length" node_type_label_pair instance_name;
  node_worker_info =
      new_gauge "node_worker_info"
        ("node_id" ∷ "node_name" ∷ "worker_id" ∷ "worker_type" ∷ "compute_type" ∷ "flow_worker"
          ∷ "worker_file" ∷ "worker_connected" ∷ [])
        instance_name;
  node_worker_status =
      new_gauge "node_worker_status" ("node_id" ∷ "node_name" ∷ "worker_id" ∷ "worker_status" ∷ [])
        instance_name;
  node_worker_plugin =
      new_gauge "node_worker_plugin"
        ("node_id" ∷ "node_name" ∷ "worker_id" ∷ "worker_plugin_id" ∷ "worker_plugin_position" ∷ [])
        instance_name;
  node_worker_idle =
      new_gauge "node_worker_idle" ("node_id" ∷ "node_name" ∷ "worker_id" ∷ []) instance_name;
  node_worker_ratio = new_gauge "node_worker_ratio" worker_label_pair instance_name;
  node_worker_fps = new_gauge "node_worker_fps" worker_label_pair instance_name;
  node_worker_original_file_size_bytes =
      new_gauge "node_worker_original_file_size_bytes" worker_label_pair instance_name;
  node_worker_output_file_size_bytes =
      new_gauge "node_worker_output_file_size_bytes" worker_label_pair instance_name;
  node_worker_est_file_size_bytes =
      new_gauge "node_worker_est_file_size_bytes" worker_label_pair instance_name;
  node_worker_job_start_timestamp =
      new_gauge "node_worker_job_start_timestamp_seconds" worker_label_pair instance_name;
  node_worker_step_start_timestamp =
      new_gauge "node_worker_step_start_timestamp_seconds" worker_label_pair instance_name;
  node_worker_status_timestamp =
      new_gauge "node_worker_status_timestamp_seconds" worker_label_pair instance_name;
  node_worker_eta_seconds = new_gauge "node_worker_eta_seconds" worker_label_pair instance_name;
}

-- In Describe order.
unfoldable pub descs : TdarrNodeMetrics → List TypedDesc
descs m =
    m.node_info ∷ m.node_uptime ∷ m.node_heap_used_bytes ∷ m.node_heap_total_bytes
    ∷ m.node_host_cpu_ratio ∷ m.node_host_mem_used_bytes ∷ m.node_host_mem_total_bytes
    ∷ m.node_paused ∷ m.node_max_gpu_workers ∷ m.node_schedule_enabled ∷ m.node_worker_count
    ∷ m.node_worker_limit ∷ m.node_queue_length ∷ m.node_worker_info ∷ m.node_worker_status
    ∷ m.node_worker_plugin ∷ m.node_worker_idle ∷ m.node_worker_ratio ∷ m.node_worker_fps
    ∷ m.node_worker_original_file_size_bytes ∷ m.node_worker_output_file_size_bytes
    ∷ m.node_worker_est_file_size_bytes ∷ m.node_worker_job_start_timestamp
    ∷ m.node_worker_step_start_timestamp ∷ m.node_worker_status_timestamp
    ∷ m.node_worker_eta_seconds ∷ []
