-- ===== src/Nodes/WorkerType.antt =====
-- The worker types of internal/collector/tdarr_nodes.go: the label values, `knownWorkerTypeDims`,
-- `parseWorkerType` and `countWorkersByType`. Counts are Go ints, one for each worker of a decoded map,
-- and stay far below 2 ^ 63.
pub mod Laws
use tdarr_exporter.Prelude.{
  ℕ, ◌≡◌, ◌↔◌, Bool, true, ◌&&◌, List, [], ◌∷◌, arith, ◌==◌, Eq, if◌then◌else◌,
}
use tdarr_exporter.Prelude.Assoc.{insert, increment}
use tdarr_exporter.GoText.{Text, Text_eq, lit}
use tdarr_exporter.Models.{TdarrNodeWorkers}

abbrev pub worker_type_transcode : Text
worker_type_transcode = lit "transcode"

abbrev pub worker_type_health_check : Text
worker_type_health_check = lit "healthcheck"

abbrev pub compute_type_cpu : Text
compute_type_cpu = lit "cpu"

abbrev pub compute_type_gpu : Text
compute_type_gpu = lit "gpu"

abbrev pub compute_type_unknown : Text
compute_type_unknown = lit "unknown"

pub record WorkerTypeDim : Type 0 where
  pub worker_type : Text
  pub compute_type : Text

abbrev pub dim : Text → Text → WorkerTypeDim
dim worker_type compute_type = record { worker_type = worker_type; compute_type = compute_type }

abbrev pub dim_eq : WorkerTypeDim → WorkerTypeDim → Bool
dim_eq a b = a.worker_type == b.worker_type && a.compute_type == b.compute_type

pub dim_eq_iff : (a b : WorkerTypeDim) → (dim_eq a b ≡ true) ↔ (a ≡ b)
dim_eq_iff a b = ground (
  arith,
  Text_eq.beq_iff a.worker_type b.worker_type,
  Text_eq.beq_iff a.compute_type b.compute_type,
)

instance abbrev pub WorkerTypeDim_eq : Eq WorkerTypeDim
WorkerTypeDim_eq = record { beq = dim_eq; beq_iff = dim_eq_iff }

abbrev pub known_worker_type_dims : List WorkerTypeDim
known_worker_type_dims =
    dim worker_type_transcode compute_type_cpu
    ∷ dim worker_type_transcode compute_type_gpu
    ∷ dim worker_type_health_check compute_type_cpu
    ∷ dim worker_type_health_check compute_type_gpu
    ∷ []

-- The two results stand in one pair of labels.
unfoldable pub parse_worker_type : Text → WorkerTypeDim
parse_worker_type api =
    if api == lit "transcodecpu"
    then dim worker_type_transcode compute_type_cpu
    else if api == lit "transcodegpu"
    then dim worker_type_transcode compute_type_gpu
    else if api == lit "healthcheckcpu"
    then dim worker_type_health_check compute_type_cpu
    else if api == lit "healthcheckgpu"
    then dim worker_type_health_check compute_type_gpu
    else dim api compute_type_unknown

pub record WorkerCountResult : Type 0 where
  pub known : List (WorkerTypeDim × ℕ)
  pub unknown : List (Text × ℕ)

-- for _, d := range knownWorkerTypeDims { result.known[d] = 0 }
unfoldable pub zero_dims : List WorkerTypeDim → List (WorkerTypeDim × ℕ) → List (WorkerTypeDim × ℕ)
zero_dims [] known = known
zero_dims (d ∷ ds) known = zero_dims ds (insert d 0 known)

-- One round of the loop over the workers.
unfoldable pub count_worker :
    {Num : Type 0} → TdarrNodeWorkers Num → WorkerCountResult → WorkerCountResult
unfolding parse_worker_type increment
count_worker w result =
    let d = parse_worker_type w.worker_type in
    if d.compute_type == compute_type_unknown
    then record result { unknown = increment w.worker_type result.unknown }
    else record result { known = increment d result.known }

unfoldable pub count_workers :
    {Num : Type 0} → List (Text × TdarrNodeWorkers Num) → WorkerCountResult → WorkerCountResult
unfolding count_worker
count_workers [] result = result
count_workers ((_, w) ∷ workers) result = count_workers workers (count_worker w result)

unfoldable pub count_workers_by_type :
    {Num : Type 0} → List (Text × TdarrNodeWorkers Num) → WorkerCountResult
unfolding count_workers zero_dims
count_workers_by_type workers =
    count_workers workers (record { known = zero_dims known_worker_type_dims []; unknown = [] })
