-- ===== src/Tests/Registry.antt =====
-- `buildRegistry` (cmd/exporter/main.go) over a registry that refuses a name which it holds.
use tdarr_exporter.Prelude.{
  ◌≡◌, refl, Bool, true, not, ◌&&◌, List, [], ◌∷◌, ◌++◌, Option, none, some, All, elem, list_eq,
  map, if◌then◌else◌,
}
use tdarr_exporter.GoText.{Text, Text_eq, lit}
use tdarr_exporter.Handlers.Metrics.{Labels, instance_labels}
use tdarr_exporter.Process.Registry.{Prometheus, build_registry}
use tdarr_exporter.Process.Registry.Laws.{
  all_distinct, AreApart, version_labels, Described, IsPrometheus, tdarr_names, build_registry_lem,
}

-- A collector is the names that it describes and the labels that they have.
abbrev Gauges : Type 0
Gauges = List Text × List Text

abbrev Registered : Type 0
Registered = List (Labels × Gauges)

abbrev apart : List Text → List Text → Bool
apart [] others = true
apart (n ∷ ns) others = not (elem n others) && apart ns others

abbrev all_apart : List Text → Registered → Bool
all_apart ns [] = true
all_apart ns ((_, others) ∷ reg) = apart ns others.0 && all_apart ns reg

abbrev must_register : Labels → Gauges → Registered → Option Registered
must_register labels c reg =
    if all_distinct c.0 && all_apart c.0 reg && apart (map (λ l. l.0) labels) c.1
    then some (reg ++ (labels, c) ∷ [])
    else none

apart-AreApart : (ns others : List Text) → AreApart ns others → apart ns others ≡ true
apart-AreApart [] others h = refl
apart-AreApart (n ∷ ns) others (new, h) = rw new (apart-AreApart ns others h)

all_apart-AreApart :
    (ns : List Text) (reg : Registered)
    → All (λ (r : Labels × Gauges). AreApart ns r.1.0) reg
    → all_apart ns reg ≡ true
all_apart-AreApart ns [] h = refl
all_apart-AreApart ns ((labels, others) ∷ reg) (first, h) =
    rw (apart-AreApart ns others.0 first) (all_apart-AreApart ns reg h)

abbrev prom : Prometheus Registered Gauges
prom = record {
  new_registry = [];
  must_register = must_register;
  new_go_collector = (lit "go_info" ∷ lit "go_goroutines" ∷ [], lit "version" ∷ []);
  new_process_collector = (lit "process_start_time_seconds" ∷ [], []);
  new_version_collector = λ program. ((program ++ lit "_build_info") ∷ [], version_labels);
}

abbrev tdarr_gauges : Text → Gauges
tdarr_gauges instance_name = (tdarr_names instance_name, lit "tdarr_instance" ∷ [])

abbrev described_of : Described Gauges
described_of = record { names = λ c. c.0; labels = λ c. c.1; is_sound = λ c. true }

prom-IsPrometheus : IsPrometheus prom (λ s. true) (λ reg. reg) described_of
unfolding elem list_eq
prom-IsPrometheus = record {
  starts_empty = refl;
  accepts = λ labels c reg sound are_labels new distinct others.
      (_, rw (distinct, all_apart-AreApart c.0 reg others, apart-AreApart _ c.1 new) refl, refl);
  go_sound = refl;
  go_distinct = refl;
  go_names = refl;
  process_sound = refl;
  process_distinct = refl;
  process_names = refl;
  version_sound = λ program. refl;
  version_names = λ program. refl;
  version_labelled = λ program. refl;
}

build_registry_lem_example :
    (reg : Registered) × (build_registry prom (lit "home") (tdarr_gauges (lit "home")) ≡ some reg)
    × (reg
        ≡ ([], tdarr_gauges (lit "home"))
          ∷ ([], prom.new_go_collector)
          ∷ ([], prom.new_process_collector)
          ∷ (instance_labels (lit "home"), prom.new_version_collector (lit "tdarr_exporter"))
          ∷ [])
build_registry_lem_example =
    build_registry_lem prom-IsPrometheus (lit "home") (tdarr_gauges (lit "home")) refl refl refl

-- A collector whose name the exporter's build information has too would stop the process.
taken : build_registry prom (lit "home") (lit "tdarr_exporter_build_info" ∷ [], []) ≡ none
unfolding build_registry elem list_eq
taken = refl

-- So would a label of the build information that the registerer is to put on it once more.
relabelled :
    must_register
      ((lit "version", lit "1") ∷ [])
      (prom.new_version_collector (lit "tdarr_exporter"))
      []
    ≡ none
unfolding elem list_eq
relabelled = refl
