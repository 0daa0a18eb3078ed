-- ===== src/Nodes/WorkerType/Laws.antt =====
-- What the worker types of internal/collector/tdarr_nodes.go are split into, and what is counted.
use tdarr_exporter.Prelude.{
  ℕ, ◌+◌, ◌≡◌, refl, ◌∙◌, ◌↔◌, Bool, true, false, ◌&&◌, List, [], ◌∷◌, ◌++◌, arith, ◌==◌, elem,
  if◌then◌else◌, ◌⊎◌, Bool-cases, inl, inr, list_eq, ap, sym,
}
use Prim.Native.Nat.add
use mathlib.Core.Bool.{and-true, and-false}
use tdarr_exporter.Prelude.Assoc.{insert, lookup, lookup-insert, get_count, get_count-increment}
use tdarr_exporter.GoText.{Text, Text_eq, lit}
use tdarr_exporter.Models.{TdarrNodeWorkers}
use tdarr_exporter.Nodes.WorkerType.{
  worker_type_transcode, worker_type_health_check, compute_type_cpu, compute_type_gpu,
  compute_type_unknown, WorkerTypeDim, dim, dim_eq, dim_eq_iff, WorkerTypeDim_eq,
  known_worker_type_dims, parse_worker_type, WorkerCountResult, zero_dims, count_worker,
  count_workers, count_workers_by_type,
}

-- The compound name that Tdarr gives a pair of labels.
abbrev pub compound : WorkerTypeDim → Text
compound d = d.worker_type ++ d.compute_type

abbrev IsOneOfFour : WorkerTypeDim → Type 0
IsOneOfFour d =
    (d ≡ dim worker_type_transcode compute_type_cpu)
    ⊎ (d ≡ dim worker_type_transcode compute_type_gpu)
    ⊎ (d ≡ dim worker_type_health_check compute_type_cpu)
    ⊎ (d ≡ dim worker_type_health_check compute_type_gpu)

known_cases : (d : WorkerTypeDim) → elem d known_worker_type_dims ≡ true → IsOneOfFour d
unfolding elem
known_cases d h = ground (
  arith,
  dim_eq_iff (dim worker_type_transcode compute_type_cpu) d,
  dim_eq_iff (dim worker_type_transcode compute_type_gpu) d,
  dim_eq_iff (dim worker_type_health_check compute_type_cpu) d,
  dim_eq_iff (dim worker_type_health_check compute_type_gpu) d,
)

parse-compound : (d : WorkerTypeDim) → IsOneOfFour d → parse_worker_type (compound d) ≡ d
unfolding parse_worker_type list_eq
parse-compound d (inl e) = rw e refl
parse-compound d (inr (inl e)) = rw e refl
parse-compound d (inr (inr (inl e))) = rw e refl
parse-compound d (inr (inr (inr e))) = rw e refl

parse_cases :
    (api : Text)
    → (api ≡ compound (parse_worker_type api))
      ⊎ (parse_worker_type api ≡ dim api compute_type_unknown)
unfolding parse_worker_type
parse_cases api = ground (
  arith,
  Text_eq.beq_iff api (lit "transcodecpu"),
  Text_eq.beq_iff api (lit "transcodegpu"),
  Text_eq.beq_iff api (lit "healthcheckcpu"),
  Text_eq.beq_iff api (lit "healthcheckgpu"),
)

compute_type_known :
    (d : WorkerTypeDim) → IsOneOfFour d → (d.compute_type == compute_type_unknown) ≡ false
unfolding list_eq
compute_type_known d (inl e) = rw e refl
compute_type_known d (inr (inl e)) = rw e refl
compute_type_known d (inr (inr (inl e))) = rw e refl
compute_type_known d (inr (inr (inr e))) = rw e refl

-- For each of the four known pairs of labels: a worker-type string is split into the pair exactly when
-- it is the pair's two words written together.
pub parse_worker_type_iff :
    (api : Text) (d : WorkerTypeDim)
    → elem d known_worker_type_dims ≡ true
    → (parse_worker_type api ≡ d) ↔ (api ≡ compound d)
parse_worker_type_iff api d h = (
  λ e. elim (parse_cases api) [
    | inl split ↦ split ∙ ap compound e
    | inr other ↦
        let unknown : d.compute_type ≡ compute_type_unknown =
          ap (λ (x : WorkerTypeDim). x.compute_type) (sym e ∙ other) in
        let both : true ≡ false =
          sym ((Text_eq.beq_iff d.compute_type compute_type_unknown).1 unknown)
          ∙ compute_type_known d (known_cases d h) in
        cc
  ],
  λ e. rw e (parse-compound d (known_cases d h)),
)

-- How many workers satisfy a test.
abbrev pub tally {ℓ} : {W : Type ℓ} → (W → Bool) → List (Text × W) → ℕ
tally p [] = 0
tally p ((_, w) ∷ ws) = (if p w then 1 else 0) + tally p ws

abbrev pub is_unknown_type : Text → Bool
is_unknown_type raw = (parse_worker_type raw).compute_type == compute_type_unknown

same_test : {P Q : Type 0} {a b : Bool} → (a ≡ true) ↔ P → P ↔ Q → (b ≡ true) ↔ Q → a ≡ b
same_test {a = true} {b = true} p q r = refl
same_test {a = false} {b = false} p q r = refl
same_test {a = true} {b = false} p q r = sym (r.1 (q.0 (p.0 refl)))
same_test {a = false} {b = true} p q r = p.1 (q.1 (r.0 refl))

compound_ne_unknown :
    (api : Text) (d : WorkerTypeDim)
    → elem d known_worker_type_dims ≡ true
    → is_unknown_type api ≡ true
    → (api == compound d) ≡ false
compound_ne_unknown api d h unknown = elim (Bool-cases (api == compound d)) [
  | inl same ↦
      let split = (parse_worker_type_iff api d h).1 ((Text_eq.beq_iff api (compound d)).0 same) in
      let both : true ≡ false =
        sym unknown
        ∙ ap (λ (x : WorkerTypeDim). x.compute_type == compute_type_unknown) split
        ∙ compute_type_known d (known_cases d h) in
      cc
  | inr other ↦ other
]

dim_eq-compound :
    (api : Text) (d : WorkerTypeDim)
    → elem d known_worker_type_dims ≡ true
    → dim_eq (parse_worker_type api) d ≡ (api == compound d)
dim_eq-compound api d h =
    same_test (dim_eq_iff (parse_worker_type api) d) (parse_worker_type_iff api d h)
      (Text_eq.beq_iff api (compound d))

is_unknown_of_eq :
    (api raw : Text) (b : Bool)
    → is_unknown_type api ≡ b
    → (api == raw && is_unknown_type raw) ≡ (api == raw && b)
is_unknown_of_eq api raw b h = elim (Bool-cases (api == raw)) [
  | inl same ↦ rw same (rw (← (Text_eq.beq_iff api raw).0 same) h)
  | inr other ↦ rw other
]

get_count-zero_dims :
    (d : WorkerTypeDim) (ds : List WorkerTypeDim) (m : List (WorkerTypeDim × ℕ))
    → get_count d m ≡ 0
    → get_count d (zero_dims ds m) ≡ 0
unfolding zero_dims
get_count-zero_dims d [] m h = h
get_count-zero_dims d (k ∷ ds) m h =
    get_count-zero_dims d ds (insert k 0 m) (ground (arith, lookup-insert k d 0 m))

module _ {Num : Type 0} where
  count_worker-known :
      (d : WorkerTypeDim) (w : TdarrNodeWorkers Num) (r : WorkerCountResult)
      → elem d known_worker_type_dims ≡ true
      → get_count d (count_worker w r).known
        ≡ get_count d r.known + (if w.worker_type == compound d then 1 else 0)
  unfolding count_worker
  count_worker-known d w r h = elim (Bool-cases (is_unknown_type w.worker_type)) [
    | inl unknown ↦ rw unknown (rw (compound_ne_unknown w.worker_type d h unknown) (omega arith))
    | inr known ↦ rw known (
        get_count-increment (parse_worker_type w.worker_type) d r.known
        ∙ ap (λ b. get_count d r.known + (if b then 1 else 0)) (dim_eq-compound w.worker_type d h))
  ]

  count_worker-unknown :
      (raw : Text) (w : TdarrNodeWorkers Num) (r : WorkerCountResult)
      → get_count raw (count_worker w r).unknown
        ≡ get_count raw r.unknown + (if w.worker_type == raw && is_unknown_type raw then 1 else 0)
  unfolding count_worker
  count_worker-unknown raw w r = elim (Bool-cases (is_unknown_type w.worker_type)) [
    | inl unknown ↦ rw unknown (
        get_count-increment w.worker_type raw r.unknown
        ∙ ap (λ b. get_count raw r.unknown + (if b then 1 else 0))
            (sym (is_unknown_of_eq w.worker_type raw true unknown ∙ and-true _)))
    | inr known ↦
        rw known (rw (is_unknown_of_eq w.worker_type raw false known ∙ and-false _) (omega arith))
  ]

  count_workers-known :
      (d : WorkerTypeDim) (ws : List (Text × TdarrNodeWorkers Num)) (r : WorkerCountResult)
      → elem d known_worker_type_dims ≡ true
      → get_count d (count_workers ws r).known
        ≡ get_count d r.known + tally (λ w. w.worker_type == compound d) ws
  unfolding count_workers
  count_workers-known d [] r h = omega arith
  count_workers-known d ((_, w) ∷ ws) r h =
      omega (arith, count_workers-known d ws (count_worker w r) h, count_worker-known d w r h)

  count_workers-unknown :
      (raw : Text) (ws : List (Text × TdarrNodeWorkers Num)) (r : WorkerCountResult)
      → get_count raw (count_workers ws r).unknown
        ≡ get_count raw r.unknown + tally (λ w. w.worker_type == raw && is_unknown_type raw) ws
  unfolding count_workers
  count_workers-unknown raw [] r = omega arith
  count_workers-unknown raw ((_, w) ∷ ws) r =
      omega (arith, count_workers-unknown raw ws (count_worker w r), count_worker-unknown raw w r)

  -- For each of the four known pairs of labels the count is the number of workers whose type is the
  -- pair's two words written together; for any other string it is the number of workers of that type,
  -- if that type is unknown, and 0 if it is one of the four known ones.
  pub count_workers_by_type_counts :
      (workers : List (Text × TdarrNodeWorkers Num)) (d : WorkerTypeDim) (raw : Text)
      → elem d known_worker_type_dims ≡ true
      → (get_count d (count_workers_by_type workers).known
          ≡ tally (λ w. w.worker_type == compound d) workers)
        × (get_count raw (count_workers_by_type workers).unknown
            ≡ tally (λ w. w.worker_type == raw && is_unknown_type raw) workers)
  unfolding count_workers_by_type lookup
  count_workers_by_type_counts workers d raw h =
      let r : WorkerCountResult = record {
        known = zero_dims known_worker_type_dims [];
        unknown = [];
      } in
      (
        count_workers-known d workers r h
            ∙ ap (λ n. n + tally (λ w. w.worker_type == compound d) workers)
                (get_count-zero_dims d known_worker_type_dims [] refl)
            ∙ add.zero _,
        count_workers-unknown raw workers r ∙ add.zero _,
      )
