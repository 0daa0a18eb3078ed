-- ===== src/Tests/Remote.antt =====
-- The exporter of Tests.Config (cmd/exporter/main.go) scraping a server with one library and no node, over the request client.
use tdarr_exporter.Prelude.{
  ◌≡◌, refl, Bool, true, false, List, [], ◌∷◌, ◌++◌, none, some, map, list_eq,
}
use tdarr_exporter.Prelude.Int.{ℤ, pos}
use tdarr_exporter.GoText.{Text, lit}
use tdarr_exporter.Config.Flags.Laws.{render}
use tdarr_exporter.Client.Transport.{responded, fired, round_trip, finish, classify}
use tdarr_exporter.Client.Body.{Reader, Decoder, decoded, decides, reads, unmarshal_body, decode}
use tdarr_exporter.Client.Request.{Network, do_request, do_post_request, get_request, post_request}
use tdarr_exporter.Collector.Setup.{new_tdarr_collector, new_tdarr_collector_with_api, new_scrape}
use tdarr_exporter.Collector.Scrape.{unwind, collect}
use tdarr_exporter.Collector.Scrape.Up.{is_complete}
use tdarr_exporter.Collector.Remote.{Codecs, api_of_client, unscraped}
use tdarr_exporter.Process.{start}
use tdarr_exporter.Process.Run.{http_server_config}
use tdarr_exporter.Process.Scrapes.{Returns, run-Reports}
use tdarr_exporter.Tests.Config.{settings, urls, getenv, loaded_config, parts, run_serves}
use tdarr_exporter.Tests.Collector.{fl, movies, metric}
use tdarr_exporter.Tests.Enums.{movies_pie}
use tdarr_exporter.Tests.Sort.{insertion_sort, insertion_sort-Sorts}

abbrev next_chunk : Reader (List Text)
next_chunk [] = (record { bytes = []; error = some (lit "EOF") }, [])
next_chunk (p ∷ ps) = (record { bytes = p; error = none }, ps)

-- Every request is answered with 200 and a body of one chunk.
abbrev network : Network Text Bool (Unit {0}) (Unit {0}) (List Text)
network = record {
  url_ops = record {
    query = λ _. [];
    join_path = λ path url. url ++ path;
    set_query = λ _ url. url;
    to_string = λ url. url;
  };
  check_url = λ _. none;
  attempt = λ _ _ n _. responded (record { status_code = 200; location = none });
  select = λ _ _ _. fired;
  debug_enabled = λ _. false;
  body_of = λ _ _ _. lit "{}" ∷ [];
  read = next_chunk;
}

-- Reads once, and makes one document of every body.
abbrev always : {A : Type 0} → A → Decoder A
always a = reads (λ _. decides (decoded a))

abbrev codecs : Codecs ℤ
codecs = record {
  server_status =
      always (record { status = lit "good"; version = lit "2"; os = lit "linux"; uptime = pos 60 });
  nodes = always [];
  metric = always (some metric);
  libraries = always (movies ∷ []);
  pie = always movies_pie.pie_stats;
  marshal_metric = λ _. some (lit "{}");
  marshal_pie = λ _. some (lit "{}");
  error_text = λ _. lit "failed";
}

run-Reports_example :
    Returns urls
      (λ c. c)
      (λ skip. skip)
      tt
      tt
      (List Text)
      fl
      insertion_sort
      insertion_sort-Sorts
      codecs
      parts.0
      parts.1
      (http_server_config loaded_config).tdarr_instance
      new_scrape
      network
run-Reports_example =
    run-Reports urls (λ c. c) (λ skip. skip) tt tt (List Text) fl insertion_sort
      insertion_sort-Sorts codecs (map render settings) getenv parts.0 parts.1
      (http_server_config loaded_config) start new_scrape network run_serves unscraped

-- The scrape is complete.
complete :
    is_complete
      (collect fl
        (λ c. c)
        insertion_sort
        (new_tdarr_collector_with_api loaded_config)
        (api_of_client (List Text) codecs parts.0 network)
        new_scrape).0
    ≡ true
unfolding collect api_of_client new_tdarr_collector new_tdarr_collector_with_api list_eq new_scrape
    do_request do_post_request round_trip finish classify unmarshal_body decode get_request
    post_request
complete = refl

-- Totals that are `null` make the scrape panic, which `Collect` recovers from.
null_totals :
    (collect fl
      (λ c. c)
      insertion_sort
      (new_tdarr_collector_with_api loaded_config)
      (api_of_client (List Text) (record codecs { metric = always none }) parts.0 network)
      new_scrape).0
    ≡ unwind
unfolding collect api_of_client new_tdarr_collector new_tdarr_collector_with_api list_eq new_scrape
    do_request do_post_request round_trip finish classify unmarshal_body decode get_request
    post_request
null_totals = refl
