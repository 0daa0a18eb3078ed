-- ===== src/Collector/Shape/Nodes.antt =====
-- The metrics of `emitNodeMetrics` and `emitParsedFloat` of internal/collector/tdarr.go and of
-- `emitPerType` of internal/collector/tdarr_nodes.go.
use tdarr_exporter.Prelude.{
  ℕ, refl, Bool, true, false, List, [], ◌∷◌, All, All-append, Option, none, some, ◌==◌, ℕ_eq,
  if◌then◌else◌,
}
use tdarr_exporter.Prelude.Int.{ℤ}
use tdarr_exporter.GoText.{Text, is_empty}
use tdarr_exporter.Models.{TdarrNodeJobs, TdarrNodeWorkers, TdarrNode}
use tdarr_exporter.Metrics.{Float64, TypedDesc, new_gauge, Metric, must_new_const_metric}
use tdarr_exporter.Nodes.Descs.{TdarrNodeMetrics, new_tdarr_node_metrics}
use tdarr_exporter.Nodes.WorkerType.{WorkerTypeDim, known_worker_type_dims, count_workers_by_type}
use tdarr_exporter.Nodes.Eta.{parse_eta_seconds}
use tdarr_exporter.Nodes.Emit.{
  emit_per_type, emit_parsed_float, emit_node_state, emit_known_counts, emit_unknown_counts,
  emit_eta, emit_worker, emit_workers, emit_node, emit_node_metrics,
}
use tdarr_exporter.Collector.Descs.{new_collector_metrics, describe}
use tdarr_exporter.Collector.Shape.{IsSample, IsListed, must_new_const_metric-IsSample, sample}

module _ {Num : Type 0} (fl : Float64 Num) (instance_name : Text) where
  abbrev node_metrics : TdarrNodeMetrics
  node_metrics = new_tdarr_node_metrics instance_name

  abbrev AllSamples : List (Metric Num) → Type 0
  AllSamples ms = All (IsSample instance_name) ms

  All-if :
      (b : Bool) (xs ys : List (Metric Num))
      → AllSamples xs
      → AllSamples ys
      → AllSamples (if b then xs else ys)
  All-if true xs ys h k = h
  All-if false xs ys h k = k

  emit_per_type-IsSample :
      (d : TypedDesc) (node_id node_name : Text) (jobs : TdarrNodeJobs)
      → IsListed instance_name 4 d
      → AllSamples (emit_per_type fl node_metrics d node_id node_name jobs)
  unfolding emit_per_type
  emit_per_type-IsSample d node_id node_name jobs l = (
    must_new_const_metric-IsSample l _ _ refl,
    (
      must_new_const_metric-IsSample l _ _ refl,
      (must_new_const_metric-IsSample l _ _ refl, (must_new_const_metric-IsSample l _ _ refl, tt)),
    ),
  )

  emit_parsed_float-IsSample :
      (d : TypedDesc) (raw : Text) (scale : Num) (node_id node_name : Text)
      → IsListed instance_name 2 d
      → AllSamples (emit_parsed_float fl node_metrics d raw scale node_id node_name)
  unfolding emit_parsed_float
  emit_parsed_float-IsSample d raw scale node_id node_name l =
      elim (fl.parse_float raw)
        as (λ o. AllSamples (elim o [
          | some v ↦ must_new_const_metric d (fl.mul v scale) (node_id ∷ node_name ∷ []) ∷ []
          | none ↦ []
        ])) [ some v ↦ (must_new_const_metric-IsSample l _ _ refl, tt) | none ↦ tt ]

  module _ (node : TdarrNode Num) where
    emit_node_state-IsSample : AllSamples (emit_node_state fl node_metrics node)
    unfolding emit_node_state new_tdarr_node_metrics new_collector_metrics new_gauge describe
    emit_node_state-IsSample = (
      sample 28 _ _ _ refl refl refl,
      (
        sample 29 _ _ _ refl refl refl,
        All-append (IsSample instance_name) _ _
            (emit_parsed_float-IsSample _ _ _ _ _
              (record { place = 30; found = refl; labels = refl; other = refl }))
            (All-append (IsSample instance_name) _ _
              (emit_parsed_float-IsSample _ _ _ _ _
                (record { place = 31; found = refl; labels = refl; other = refl }))
              (All-append (IsSample instance_name) _ _
                (emit_parsed_float-IsSample _ _ _ _ _
                  (record { place = 32; found = refl; labels = refl; other = refl }))
                (All-append (IsSample instance_name) _ _
                  (emit_parsed_float-IsSample _ _ _ _ _
                    (record { place = 33; found = refl; labels = refl; other = refl }))
                  (All-append (IsSample instance_name) _ _
                    (emit_parsed_float-IsSample _ _ _ _ _
                      (record { place = 34; found = refl; labels = refl; other = refl }))
                    (
                      sample 35 _ _ _ refl refl refl,
                      (
                        sample 36 _ _ _ refl refl refl,
                        (
                          sample 37 _ _ _ refl refl refl,
                          All-append (IsSample instance_name)
                              (emit_per_type fl node_metrics node_metrics.node_worker_limit node.id
                                node.name node.worker_limits)
                              (emit_per_type fl node_metrics node_metrics.node_queue_length node.id
                                node.name node.queue_lengths)
                              (emit_per_type-IsSample node_metrics.node_worker_limit node.id
                                node.name node.worker_limits
                                (record { place = 39; found = refl; labels = refl; other = refl }))
                              (emit_per_type-IsSample node_metrics.node_queue_length node.id
                                node.name node.queue_lengths
                                (record { place = 40; found = refl; labels = refl; other = refl })),
                        ),
                      ),
                    ))))),
      ),
    )

    emit_known_counts-IsSample :
        (ds : List WorkerTypeDim) (known : List (WorkerTypeDim × ℕ))
        → AllSamples (emit_known_counts fl node_metrics node ds known)
    unfolding emit_known_counts new_tdarr_node_metrics new_collector_metrics new_gauge describe
    emit_known_counts-IsSample [] known = tt
    emit_known_counts-IsSample (d ∷ ds) known =
        (sample 38 _ _ _ refl refl refl, emit_known_counts-IsSample ds known)

    emit_unknown_counts-IsSample :
        (unknown : List (Text × ℕ)) → AllSamples (emit_unknown_counts fl node_metrics node unknown)
    unfolding emit_unknown_counts new_tdarr_node_metrics new_collector_metrics new_gauge describe
    emit_unknown_counts-IsSample [] = tt
    emit_unknown_counts-IsSample ((raw_type, count) ∷ unknown) =
        All-append (IsSample instance_name) _ _
          (All-if (count == 0) _ _ tt (sample 38 _ _ _ refl refl refl, tt))
          (emit_unknown_counts-IsSample unknown)

    emit_eta-IsSample :
        (worker : TdarrNodeWorkers Num) (eta : Option ℤ)
        → AllSamples (emit_eta fl node_metrics node worker eta)
    unfolding new_tdarr_node_metrics new_collector_metrics new_gauge describe
    emit_eta-IsSample worker none = tt
    emit_eta-IsSample worker (some eta_secs) = (sample 53 _ _ _ refl refl refl, tt)

    emit_worker-IsSample :
        (worker : TdarrNodeWorkers Num) → AllSamples (emit_worker fl node_metrics node worker)
    unfolding emit_worker new_tdarr_node_metrics new_collector_metrics new_gauge describe
    emit_worker-IsSample worker = (
      sample 41 _ _ _ refl refl refl,
      (
        sample 42 _ _ _ refl refl refl,
        All-append (IsSample instance_name) _ _
            (All-if (is_empty worker.last_plugin_details_id) _ _ tt
              (sample 43 _ _ _ refl refl refl, tt))
            (
              sample 44 _ _ _ refl refl refl,
              (
                sample 45 _ _ _ refl refl refl,
                (
                  sample 46 _ _ _ refl refl refl,
                  (
                    sample 47 _ _ _ refl refl refl,
                    (
                      sample 48 _ _ _ refl refl refl,
                      (
                        sample 49 _ _ _ refl refl refl,
                        (
                          sample 50 _ _ _ refl refl refl,
                          (
                            sample 51 _ _ _ refl refl refl,
                            (
                              sample 52 _ _ _ refl refl refl,
                              emit_eta-IsSample worker (parse_eta_seconds worker.eta),
                            ),
                          ),
                        ),
                      ),
                    ),
                  ),
                ),
              ),
            ),
      ),
    )

    emit_workers-IsSample :
        (workers : List (Text × TdarrNodeWorkers Num))
        → AllSamples (emit_workers fl node_metrics node workers)
    unfolding emit_workers
    emit_workers-IsSample [] = tt
    emit_workers-IsSample ((_, worker) ∷ workers) =
        All-append (IsSample instance_name) (emit_worker fl node_metrics node worker) _
          (emit_worker-IsSample worker) (emit_workers-IsSample workers)

    emit_node-IsSample : AllSamples (emit_node fl node_metrics node)
    unfolding emit_node
    emit_node-IsSample =
        let counts = count_workers_by_type node.workers in
        All-append (IsSample instance_name) (emit_node_state fl node_metrics node) _
          emit_node_state-IsSample
          (All-append (IsSample instance_name)
            (emit_known_counts fl node_metrics node known_worker_type_dims _) _
            (emit_known_counts-IsSample known_worker_type_dims _)
            (All-append (IsSample instance_name)
              (emit_unknown_counts fl node_metrics node counts.unknown) _
              (emit_unknown_counts-IsSample counts.unknown) (emit_workers-IsSample node.workers)))

  pub emit_node_metrics-IsSample :
      (node_data : List (Text × TdarrNode Num))
      → AllSamples (emit_node_metrics fl node_metrics node_data)
  unfolding emit_node_metrics
  emit_node_metrics-IsSample [] = tt
  emit_node_metrics-IsSample ((_, node) ∷ node_data) =
      All-append (IsSample instance_name) (emit_node fl node_metrics node) _
        (emit_node-IsSample node) (emit_node_metrics-IsSample node_data)
