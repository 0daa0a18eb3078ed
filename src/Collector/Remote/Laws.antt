-- ===== src/Collector/Remote/Laws.antt =====
-- Scrapes of internal/collector/tdarr.go over the request client of internal/client/client.go.
use tdarr_exporter.Prelude.{
  ℕ, ◌<◌, ◌≡◌, ◌≢◌, refl, ◌⊎◌, inl, inr, true, false, List, [], ◌∷◌, ◌++◌, Option, none, some, All,
  Bool-cases,
}
use tdarr_exporter.GoText.{Text, lit}
use tdarr_exporter.Models.{TdarrLibraryInfo}
use tdarr_exporter.Config.{Config}
use tdarr_exporter.Metrics.{Float64, Metric}
use tdarr_exporter.Client.Request.{
  RequestClient, Network, Answer, unmarshalled, request_failed, RequestError, post_request,
}
use tdarr_exporter.Client.Request.Laws.{AnswersFrom, do_post_request-AnswersFrom}
use tdarr_exporter.Collector.Api.{panicked, ok, upstream, http_req_helper, get_general_req_payload}
use tdarr_exporter.Collector.Cache.{SortSlice, new_tdarr_lib_stats_cache}
use tdarr_exporter.Collector.Cache.Fingerprint.{Sorts}
use tdarr_exporter.Collector.Shape.{IsSample}
use tdarr_exporter.Collector.Setup.{new_tdarr_collector_with_api, new_scrape}
use tdarr_exporter.Collector.Scrape.{CollectorConfig, Scrape, collect, up_sample}
use tdarr_exporter.Collector.Scrape.Libraries.{IsFaithful}
use tdarr_exporter.Collector.Scrape.Up.{is_complete, collect_all-HasReported}
use tdarr_exporter.Collector.Scrape.Coverage.{library_info, collect_all-ShowsLibraries}
use tdarr_exporter.Collector.Scrape.Survival.{collect_all_total}
use tdarr_exporter.Collector.Remote.{
  Codecs, reply_of, api_of_client, scrape, History, unscraped, scraped,
}
use mathlib.Core.List.{Mem}

reply_of-ne-panicked :
    {A : Type 0} (error_text : RequestError → Text) (a : Answer A)
    → reply_of error_text a ≢ panicked
reply_of-ne-panicked error_text (unmarshalled a) = cc
reply_of-ne-panicked error_text (request_failed e) = cc

upstream-reply_of :
    {A : Type 0} (error_text : RequestError → Text) (x : Answer A) (a : A)
    → upstream (reply_of error_text x) ≡ ok a
    → x ≡ unmarshalled a
upstream-reply_of error_text (unmarshalled b) a h = cc
upstream-reply_of error_text (request_failed e) a h = cc

module _ {Num Url Inner After Logger : Type 0} (Body : Type 0) (codecs : Codecs Num)
    (client : RequestClient Url Inner After Logger) where
  -- The series of a scrape show every library of a list that the decoder reads from the body of a response below 300
  -- to the request for the libraries.
  pub record ShowsAnswer (fl : Float64 Num) (collector : CollectorConfig)
      (net : Network Url Inner After Logger Body) (t : Scrape Num) : Type 0 where
    pub all_libs : List TdarrLibraryInfo
    pub payload : Text
    pub marshalled : codecs.marshal_metric (get_general_req_payload (lit "library")) ≡ some payload
    pub answered :
        AnswersFrom net client codecs.libraries
          (post_request net client collector.stats_path payload)
          all_libs
    pub shown :
        (lib : TdarrLibraryInfo)
        → Mem lib all_libs
        → Mem (library_info fl collector.metrics lib) t.ch

  -- What a scrape leaves in its channel: samples, and then `tdarr_up`, which is 1 only where every library of
  -- Tdarr's answer is shown.
  abbrev pub Reports :
      Float64 Num
      → (ℕ → ℕ)
      → SortSlice
      → CollectorConfig
      → Text
      → Network Url Inner After Logger Body
      → Scrape Num
      → Type 0
  Reports fl lower_table sort_slice collector instance_name net t =
      let up =
        up_sample fl lower_table sort_slice collector (api_of_client Body codecs client net) in
      (before : List (Metric Num)) × All (IsSample instance_name) before
      × (((t.ch ≡ before ++ up true ∷ []) × ShowsAnswer fl collector net t)
          ⊎ (t.ch ≡ before ++ up false ∷ []))

  libraries-AnswersFrom :
      (net : Network Url Inner After Logger Body) (path : Text) (marshalled : Option Text)
      (libs : List TdarrLibraryInfo)
      → http_req_helper marshalled ((api_of_client Body codecs client net).do_post_libs path)
        ≡ ok libs
      → (payload : Text) × (marshalled ≡ some payload)
        × AnswersFrom net client codecs.libraries (post_request net client path payload) libs
  unfolding http_req_helper api_of_client
  libraries-AnswersFrom net path none libs h = cc
  libraries-AnswersFrom net path (some payload) libs h = (
    payload,
    refl,
    do_post_request-AnswersFrom net client codecs.libraries path payload libs
        (upstream-reply_of codecs.error_text _ libs h),
  )

  module _ (fl : Float64 Num) (lower_table : ℕ → ℕ) (sort_slice : SortSlice)
      (run_config : Config Url) (sorted : Sorts sort_slice)
      (positive : 0 < run_config.http_max_concurrency) where
    abbrev collector : CollectorConfig
    collector = new_tdarr_collector_with_api run_config

    History-IsFaithful :
        {s : Scrape Num}
        → History Body codecs client fl lower_table sort_slice collector s
        → IsFaithful s.stats_cache
    unfolding new_scrape new_tdarr_lib_stats_cache scrape
    History-IsFaithful unscraped = inl refl
    History-IsFaithful (scraped {s} {s'} net before e) =
        (collect_all-HasReported fl lower_table sort_slice run_config
          (api_of_client Body codecs client net) sorted positive (record s { ch = [] }) s'
          (History-IsFaithful before) e).faithful

    -- With a positive concurrency and a sorting `sort.Slice`, behind any history of scrapes, each against the
    -- network of its time, a scrape of a collector that `newTdarrCollectorWithAPI` built returns; it sends
    -- described samples and behind them one `tdarr_up`; and this is 0, or it is 1 and the samples have the info
    -- series of every library of a list that was decoded from the body of a response below 300 to the request for
    -- the libraries.
    pub scrape-Reports :
        (s : Scrape Num) (net : Network Url Inner After Logger Body)
        → History Body codecs client fl lower_table sort_slice collector s
        → (s' : Scrape Num) × (scrape Body codecs client fl lower_table sort_slice collector net s
            ≡ some s')
          × Reports fl lower_table sort_slice collector run_config.instance_name net s'
    unfolding scrape api_of_client
    scrape-Reports s net history =
        let api = api_of_client Body codecs client net in
        let s0 : Scrape Num = record s { ch = [] } in
        let faithful = History-IsFaithful history in
        let (s', e) =
          collect_all_total fl lower_table sort_slice collector api
            (λ payload. reply_of-ne-panicked codecs.error_text _) s0 in
        let reported =
          collect_all-HasReported fl lower_table sort_slice run_config api sorted positive s0 s'
            faithful e in
        (
          s',
          e,
          (
            reported.before,
            reported.shaped,
            elim (Bool-cases (is_complete (collect fl lower_table sort_slice collector api s0).0)) [
              | inl complete ↦
                  let shows =
                    collect_all-ShowsLibraries fl lower_table sort_slice run_config api sorted
                      positive s0 s' faithful complete e in
                  let (payload, marshalled, answered) =
                    libraries-AnswersFrom net collector.stats_path
                      (codecs.marshal_metric (get_general_req_payload (lit "library")))
                      shows.all_libs shows.answered in
                  inl (
                    rw complete at reported.sent,
                    record {
                      all_libs = shows.all_libs;
                      payload = payload;
                      marshalled = marshalled;
                      answered = answered;
                      shown = shows.shown;
                    },
                  )
              | inr incomplete ↦ inr (rw incomplete at reported.sent)
            ],
          ),
        )
