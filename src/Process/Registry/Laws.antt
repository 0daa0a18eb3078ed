-- ===== src/Process/Registry/Laws.antt =====
-- The registration of the collectors in `buildRegistry` of cmd/exporter/main.go.
use tdarr_exporter.Prelude.{
  ℕ, ◌≡◌, refl, ap, ◌∙◌, Bool, true, false, ◌&&◌, not, ◌||◌, leb, List, [], ◌∷◌, ◌++◌, map, some,
  All, elem, list_eq, ◌==◌, arith, ℕ_eq,
}
use tdarr_exporter.GoText.{Text, Text_eq, lit}
use tdarr_exporter.Metrics.{Desc, new_gauge, new_counter, build_desc}
use tdarr_exporter.Nodes.Descs.{new_tdarr_node_metrics, descs}
use tdarr_exporter.Collector.Descs.{new_collector_metrics, descs_list, describe}
use tdarr_exporter.Collector.Shape.{described}
use tdarr_exporter.Handlers.Metrics.{Labels, instance_labels}
use tdarr_exporter.Process.Registry.{Prometheus, build_registry}

-- prometheus.BuildFQName(METRIC_PREFIX, "", name)
abbrev pub fq_name : Desc → Text
fq_name d = lit d.namespace ++ lit "_" ++ lit d.name

abbrev pub all_distinct : List Text → Bool
all_distinct [] = true
all_distinct (n ∷ ns) = not (elem n ns) && all_distinct ns

abbrev pub AreApart : List Text → List Text → Type 0
AreApart ns others = All (λ n. elem n others ≡ false) ns

-- Every name begins with this character.
abbrev pub all_begin : ℕ → List Text → Bool
all_begin c [] = true
all_begin c ([] ∷ ns) = false
all_begin c ((d ∷ _) ∷ ns) = d == c && all_begin c ns

-- The name of a label: a letter or `_`, then letters, digits and `_`; not two `_` at the head.
abbrev is_name_char : Bool → ℕ → Bool
is_name_char digits c =
    leb b'a' c && leb c b'z'
    || leb b'A' c && leb c b'Z'
    || c == b'_'
    || digits && (leb b'0' c && leb c b'9')

abbrev are_name_chars : Text → Bool
are_name_chars [] = true
are_name_chars (c ∷ cs) = is_name_char true c && are_name_chars cs

abbrev starts_with_two : Text → Bool
starts_with_two [] = false
starts_with_two (c ∷ []) = false
starts_with_two (c ∷ d ∷ _) = c == b'_' && d == b'_'

abbrev pub is_label_name : Text → Bool
is_label_name [] = false
is_label_name (c ∷ cs) = is_name_char false c && are_name_chars cs && not (starts_with_two (c ∷ cs))

-- Labels that a registerer can put on what it registers: each of them a name and a text in UTF-8.
abbrev pub AreLabels : (Text → Bool) → Labels → Type 0
AreLabels valid_utf8 labels =
    All (λ (l : Text × Text). is_label_name l.0 && valid_utf8 l.1 ≡ true) labels

-- The labels of the metric of the version collector.
abbrev pub version_labels : List Text
version_labels =
    lit "version"
    ∷ lit "revision"
    ∷ lit "branch"
    ∷ lit "goversion"
    ∷ lit "goos"
    ∷ lit "goarch"
    ∷ lit "tags"
    ∷ []

-- What a collector describes: the names of its metrics, the names of the labels that they have already, and
-- whether each of its descriptors is free of an error.
pub record Described (Collector : Type 0) : Type 0 where
  pub names : Collector → List Text
  pub labels : Collector → List Text
  pub is_sound : Collector → Bool

-- What `buildRegistry` relies on of the client library: the collectors that a registry holds, with the labels of their
-- registerers. A collector is accepted whose descriptors are free of errors and have distinct names that are new to
-- the registry, if the labels of the registerer can be labels and are not among those that the collector's metrics
-- have already.
pub record IsPrometheus {Registry Collector : Type 0} (prom : Prometheus Registry Collector)
    (valid_utf8 : Text → Bool) (registered : Registry → List (Labels × Collector))
    (described_of : Described Collector) : Type 0 where
  pub starts_empty : registered prom.new_registry ≡ []
  pub accepts :
      (labels : Labels) (c : Collector) (reg : Registry)
      → described_of.is_sound c ≡ true
      → AreLabels valid_utf8 labels
      → AreApart (map (λ l. l.0) labels) (described_of.labels c)
      → all_distinct (described_of.names c) ≡ true
      → All
          (λ (r : Labels × Collector). AreApart (described_of.names c) (described_of.names r.1))
          (registered reg)
      → (reg' : Registry) × (prom.must_register labels c reg ≡ some reg')
        × (registered reg' ≡ registered reg ++ (labels, c) ∷ [])
  pub go_sound : described_of.is_sound prom.new_go_collector ≡ true
  pub go_distinct : all_distinct (described_of.names prom.new_go_collector) ≡ true
  pub go_names : all_begin b'g' (described_of.names prom.new_go_collector) ≡ true
  pub process_sound : described_of.is_sound prom.new_process_collector ≡ true
  pub process_distinct : all_distinct (described_of.names prom.new_process_collector) ≡ true
  pub process_names : all_begin b'p' (described_of.names prom.new_process_collector) ≡ true
  pub version_sound :
      (program : Text) → described_of.is_sound (prom.new_version_collector program) ≡ true
  pub version_names :
      (program : Text)
      → described_of.names (prom.new_version_collector program)
        ≡ (program ++ lit "_build_info") ∷ []
  pub version_labelled :
      (program : Text) → described_of.labels (prom.new_version_collector program) ≡ version_labels

-- Names with other first characters are apart.
module _ (c d : ℕ) (differ : (d == c) ≡ false) where
  elem_other : (n : Text) (ns : List Text) → all_begin d ns ≡ true → elem (c ∷ n) ns ≡ false
  unfolding elem list_eq
  elem_other n [] h = refl
  elem_other n ([] ∷ ns) h = cc
  elem_other n ((e ∷ m) ∷ ns) h =
      ground (arith, differ, elem_other n ns, ℕ_eq.beq_iff e d, ℕ_eq.beq_iff e c)

  AreApart-other :
      (ns others : List Text)
      → all_begin c ns ≡ true
      → all_begin d others ≡ true
      → AreApart ns others
  AreApart-other [] others h k = tt
  AreApart-other ([] ∷ ns) others h k = cc
  AreApart-other ((e ∷ n) ∷ ns) others h k =
      let (first, later) : (e ≡ c) × (all_begin c ns ≡ true) = ground (arith, ℕ_eq.beq_iff e c) in
      (rw first (elem_other n others k), AreApart-other ns others later k)

-- The names of the collector's own metrics.
abbrev pub tdarr_names : Text → List Text
tdarr_names instance_name = map fq_name (described instance_name)

tdarr_names_distinct : (instance_name : Text) → all_distinct (tdarr_names instance_name) ≡ true
unfolding describe descs_list descs new_collector_metrics new_tdarr_node_metrics elem list_eq
    new_gauge new_counter build_desc
tdarr_names_distinct instance_name = refl

tdarr_names_begin : (instance_name : Text) → all_begin b't' (tdarr_names instance_name) ≡ true
unfolding describe descs_list descs new_collector_metrics new_tdarr_node_metrics new_gauge
    new_counter build_desc
tdarr_names_begin instance_name = refl

version_apart :
    (instance_name : Text)
    → AreApart (lit "tdarr_exporter_build_info" ∷ []) (tdarr_names instance_name)
unfolding describe descs_list descs new_collector_metrics new_tdarr_node_metrics elem list_eq
    new_gauge new_counter build_desc
version_apart instance_name = (refl, tt)

module _ {Registry Collector : Type 0} {prom : Prometheus Registry Collector}
    {valid_utf8 : Text → Bool} {registered : Registry → List (Labels × Collector)}
    {described_of : Described Collector}
    (client : IsPrometheus prom valid_utf8 registered described_of) where
  -- Over a Prometheus library that accepts a sound collector of distinct and new names under labels that it does not
  -- have yet, whose Go names begin with g, whose process names begin with p, and whose build information is named
  -- after the program and has the labels of its documentation: for an instance whose name is UTF-8, and a sound
  -- collector that describes the metrics of that instance, `buildRegistry` does not panic, and the registry holds
  -- that collector, Go's and the process's as they are, and behind them the build information with the label of the
  -- instance, and nothing else.
  pub build_registry_lem :
      (instance_name : Text) (tdarr_collector : Collector)
      → valid_utf8 instance_name ≡ true
      → described_of.is_sound tdarr_collector ≡ true
      → described_of.names tdarr_collector ≡ tdarr_names instance_name
      → (reg : Registry) × (build_registry prom instance_name tdarr_collector ≡ some reg)
        × (registered reg
            ≡ ([], tdarr_collector)
              ∷ ([], prom.new_go_collector)
              ∷ ([], prom.new_process_collector)
              ∷ (instance_labels instance_name, prom.new_version_collector (lit "tdarr_exporter"))
              ∷ [])
  unfolding build_registry elem list_eq
  build_registry_lem instance_name tdarr_collector is_utf8 sound described_by =
      let version = prom.new_version_collector (lit "tdarr_exporter") in
      let begins : all_begin b't' (described_of.names tdarr_collector) ≡ true =
        rw described_by (tdarr_names_begin instance_name) in
      let begins_version : all_begin b't' (described_of.names version) ≡ true =
        rw (client.version_names (lit "tdarr_exporter")) refl in
      let (r1, e1, h1) =
        client.accepts [] tdarr_collector prom.new_registry sound tt tt
          (rw described_by (tdarr_names_distinct instance_name)) (rw client.starts_empty tt) in
      let h1' : registered r1 ≡ ([], tdarr_collector) ∷ [] =
        h1 ∙ ap (λ l. l ++ ([], tdarr_collector) ∷ []) client.starts_empty in
      let (r2, e2, h2) =
        client.accepts [] prom.new_go_collector r1 client.go_sound tt tt client.go_distinct
          (rw h1' (AreApart-other b'g' b't' refl _ _ client.go_names begins, tt)) in
      let h2' : registered r2 ≡ ([], tdarr_collector) ∷ ([], prom.new_go_collector) ∷ [] =
        h2 ∙ ap (λ l. l ++ ([], prom.new_go_collector) ∷ []) h1' in
      let (r3, e3, h3) =
        client.accepts [] prom.new_process_collector r2 client.process_sound tt tt
          client.process_distinct
          (rw h2' (
            AreApart-other b'p' b't' refl _ _ client.process_names begins,
            (AreApart-other b'p' b'g' refl _ _ client.process_names client.go_names, tt),
          )) in
      let h3' : registered r3
          ≡ ([], tdarr_collector)
            ∷ ([], prom.new_go_collector)
            ∷ ([], prom.new_process_collector)
            ∷ [] =
        h3 ∙ ap (λ l. l ++ ([], prom.new_process_collector) ∷ []) h2' in
      let (r4, e4, h4) =
        client.accepts (instance_labels instance_name) version r3
          (client.version_sound (lit "tdarr_exporter")) (is_utf8, tt)
          (rw (client.version_labelled (lit "tdarr_exporter")) (refl, tt))
          (rw (client.version_names (lit "tdarr_exporter")) refl)
          (rw h3' (
            rw (client.version_names (lit "tdarr_exporter"), described_by)
                (version_apart instance_name),
            (
              AreApart-other b't' b'g' refl _ _ begins_version client.go_names,
              (AreApart-other b't' b'p' refl _ _ begins_version client.process_names, tt),
            ),
          )) in
      (
        r4,
        rw (e1, e2, e3) e4,
        h4 ∙ ap (λ l. l ++ (instance_labels instance_name, version) ∷ []) h3',
      )
