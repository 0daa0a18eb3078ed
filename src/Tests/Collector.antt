-- ===== src/Tests/Collector.antt =====
-- Scrapes of internal/collector/tdarr.go against a server with one library and no node.
use tdarr_exporter.Prelude.{
  ℕ, zero, suc, ◌*◌, ◌≡◌, ◌≢◌, ◌∙◌, ◌↔◌, refl, inl, Bool, true, false, [], ◌∷◌, Option, none, some,
  arith, ◌==◌, ◌||◌, not, list_eq, ap, if◌then◌else◌,
}
use tdarr_exporter.Prelude.Int.{ℤ, pos, negsuc}
use tdarr_exporter.GoText.{Text, Text_eq, lit}
use tdarr_exporter.Models.{TdarrLibraryInfo, TdarrMetric, TdarrStreamStatsObj}
use tdarr_exporter.Config.{Config}
use tdarr_exporter.Metrics.{Float64}
use tdarr_exporter.Collector.Api.{TdarrApi, replied}
use tdarr_exporter.Collector.Cache.{
  totals_from_metric, library_fingerprint, text_less, info_eq, info_eq_iff, should_refetch,
}
use tdarr_exporter.Collector.Cache.Fingerprint.{HasOneNamePerId}
use tdarr_exporter.Collector.Cache.Refetch.{should_refetch-eq-false_iff}
use tdarr_exporter.Collector.Scrape.{Scrape, collect, collect_all, gather_pies, up_sample}
use tdarr_exporter.Collector.Scrape.Libraries.{Gathered, gather_pies-Gathered}
use tdarr_exporter.Collector.Scrape.Up.{is_complete, HasReported, collect_all-HasReported}
use tdarr_exporter.Collector.Scrape.Survival.{collect_all_total}
use tdarr_exporter.Collector.Setup.{new_tdarr_collector_with_api, new_scrape}
use tdarr_exporter.Tests.Sort.{insertion_sort, insertion_sort-Sorts}
use tdarr_exporter.Tests.Enums.{ascii, movies_pie}
use mathlib.Core.Bool.{Bool-set}
use mathlib.Core.Logic.Or
use mathlib.Core.List.{Mem, Perm, mem-cons, not-mem-nil}

-- Float64 values that are integers.
abbrev of_neg : ℕ → ℤ
of_neg zero = pos 0
of_neg (suc n) = negsuc n

abbrev mul : ℤ → ℤ → ℤ
mul (pos a) (pos b) = pos (a * b)
mul (pos a) (negsuc b) = of_neg (a * suc b)
mul (negsuc a) (pos b) = of_neg (suc a * b)
mul (negsuc a) (negsuc b) = pos (suc a * suc b)

abbrev pub fl : Float64 ℤ
fl = record {
  of_int = λ z. z;
  mul = mul;
  parse_float = λ t. if t == lit "100" then some (pos 100) else none;
  percent_to_ratio = pos 1;
}

abbrev pub movies : TdarrLibraryInfo
movies = record { library_id = lit "m"; name = lit "Movies" }

abbrev anime : TdarrLibraryInfo
anime = record { library_id = lit "a"; name = lit "Anime" }

abbrev no_stats : TdarrStreamStatsObj
no_stats = record { average = pos 0; highest = pos 0; total = pos 0 }

abbrev pub metric : TdarrMetric ℤ
metric = record {
  total_file_count = pos 7;
  total_transcode_count = pos 5;
  total_health_check_count = pos 0;
  size_diff = pos 2;
  tdarr_score = lit "100";
  health_check_score = lit "100";
  avg_num_streams = pos 3;
  stream_stats = record { duration = no_stats; bit_rate = no_stats; num_frames = no_stats };
  hold_queue = pos 0;
  transcode_queue = pos 0;
  transcode_success = pos 5;
  transcode_failed = pos 0;
  health_check_queue = pos 0;
  health_check_success = pos 0;
  health_check_failed = pos 0;
}

abbrev pub api : TdarrApi ℤ
api = record {
  do_status = λ _.
      replied
        (record { status = lit "good"; version = lit "2"; os = lit "linux"; uptime = pos 60 });
  do_nodes = λ _. replied [];
  do_post_metric = λ _ _. replied metric;
  do_post_libs = λ _ _. replied (movies ∷ []);
  do_post_pie = λ _ _. replied movies_pie.pie_stats;
  marshal_metric = λ _. some (lit "{}");
  marshal_pie = λ _. some (lit "{}");
}

abbrev pub run_config : Config Text
run_config = record {
  version = false;
  log_level = lit "info";
  url = lit "http://tdarr:8266";
  url_parsed = lit "http://tdarr:8266";
  instance_name = lit "home";
  api_key = [];
  verify_ssl = true;
  prometheus_port = lit "9090";
  prometheus_path = lit "/metrics";
  http_timeout_seconds = 15;
  tdarr_stats_path = lit "/api/v2/cruddb";
  tdarr_pie_stats_path = lit "/api/v2/stats/get-pies";
  tdarr_status_path = lit "/api/v2/status";
  tdarr_node_path = lit "/api/v2/get-nodes";
  http_max_concurrency = 3;
  listen_address = lit "0.0.0.0";
}

abbrev start : Scrape ℤ
start = new_scrape

abbrev scraped_or_start : Option (Scrape ℤ) → Scrape ℤ
scraped_or_start none = start
scraped_or_start (some s) = s

abbrev scraped : Scrape ℤ
scraped =
    scraped_or_start
      (collect_all fl ascii insertion_sort (new_tdarr_collector_with_api run_config) api start)

collect_run :
    collect_all fl ascii insertion_sort (new_tdarr_collector_with_api run_config) api start
    ≡ some scraped
unfolding collect_all new_tdarr_collector_with_api list_eq new_scrape
collect_run = refl

collect_all-HasReported_example : HasReported (lit "home") start scraped (
    up_sample fl ascii insertion_sort (new_tdarr_collector_with_api run_config) api (
      is_complete
        (collect fl ascii insertion_sort (new_tdarr_collector_with_api run_config) api start).0))
unfolding new_scrape
collect_all-HasReported_example =
    collect_all-HasReported fl ascii insertion_sort run_config api insertion_sort-Sorts
      (omega arith) start scraped (inl refl) collect_run

collect_all_total_example :
    (s' : Scrape ℤ) × (collect_all fl ascii insertion_sort
        (new_tdarr_collector_with_api run_config)
        api
        start
      ≡ some s')
collect_all_total_example =
    collect_all_total fl ascii insertion_sort (new_tdarr_collector_with_api run_config) api
      (λ payload. cc) start

complete_run :
    is_complete
      (collect fl ascii insertion_sort (new_tdarr_collector_with_api run_config) api start).0
    ≡ true
unfolding collect new_tdarr_collector_with_api list_eq new_scrape
complete_run = refl

gather_pies-Gathered_example : Gathered (movies ∷ []) start (
    gather_pies fl ascii insertion_sort
      (new_tdarr_collector_with_api run_config)
      api
      metric
      (movies ∷ [])
      start)
unfolding new_scrape new_tdarr_collector_with_api
gather_pies-Gathered_example =
    gather_pies-Gathered fl ascii insertion_sort (new_tdarr_collector_with_api run_config) api
      insertion_sort-Sorts metric (movies ∷ []) start (omega arith) (inl refl)

fingerprint_run :
    library_fingerprint insertion_sort (movies ∷ anime ∷ [])
    ≡ library_fingerprint insertion_sort (anime ∷ movies ∷ [])
unfolding library_fingerprint text_less
fingerprint_run = refl

-- What a test says of both libraries it says of each in the list.
mem_pair :
    (p : TdarrLibraryInfo → Bool) (a : TdarrLibraryInfo)
    → Mem a (movies ∷ anime ∷ [])
    → p movies ≡ true
    → p anime ≡ true
    → p a ≡ true
mem_pair p a m h k =
    Or.elim (Bool-set _ _) (mem-cons.0 m) (λ e. ap p e ∙ h)
      (λ later.
        Or.elim (Bool-set _ _) (mem-cons.0 later) (λ e. ap p e ∙ k)
          (λ none. absurd (not-mem-nil none)))

abbrev agree : TdarrLibraryInfo → TdarrLibraryInfo → Bool
agree a b = not (a.library_id == b.library_id) || info_eq a b

pair-agree :
    (a b : TdarrLibraryInfo)
    → Mem a (movies ∷ anime ∷ [])
    → Mem b (movies ∷ anime ∷ [])
    → agree a b ≡ true
unfolding list_eq
pair-agree a b ma mb =
    mem_pair (λ x. agree x b) a ma (mem_pair (agree movies) b mb refl refl)
      (mem_pair (agree anime) b mb refl refl)

names-HasOneNamePerId : HasOneNamePerId (movies ∷ anime ∷ [])
names-HasOneNamePerId a b ma mb e =
    ground (arith, pair-agree a b ma mb, Text_eq.beq_iff a.library_id b.library_id, info_eq_iff a b)

should_refetch-eq-false_iff_example :
    (should_refetch
        (record {
          totals = totals_from_metric metric;
          stats = movies_pie ∷ [];
          fingerprint = library_fingerprint insertion_sort (movies ∷ anime ∷ []);
        })
        metric
        (library_fingerprint insertion_sort (anime ∷ movies ∷ []))
      ≡ false)
    ↔ ((movies_pie ∷ [] ≢ [])
        × (totals_from_metric metric ≡ totals_from_metric metric)
        × Perm (movies ∷ anime ∷ []) (anime ∷ movies ∷ []))
should_refetch-eq-false_iff_example =
    should_refetch-eq-false_iff insertion_sort insertion_sort-Sorts metric metric (movies_pie ∷ [])
      (movies ∷ anime ∷ []) (anime ∷ movies ∷ []) names-HasOneNamePerId
