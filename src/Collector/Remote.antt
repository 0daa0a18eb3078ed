-- ===== src/Collector/Remote.antt =====
-- The collector on the request client: `tdarrAPI` of internal/collector/tdarr.go as `*client.RequestClient` of
-- internal/client/client.go implements it. What `encoding/json` makes of a document is a parameter, one
-- decoder for each type that the collector asks for, and so is the text of a request's error. The totals are read
-- through a pointer to a pointer, so their decoder has `none` for the JSON `null`.
pub mod Laws
use tdarr_exporter.Prelude.{ℕ, ◌≡◌, List, [], Option, none, some}
use tdarr_exporter.GoText.{Text}
use tdarr_exporter.Models.{
  TdarrMetricRequest, TdarrPieDataRequest, TdarrServerStatus, TdarrMetric, TdarrLibraryInfo,
  TdarrPieStat, TdarrNode,
}
use tdarr_exporter.Metrics.{Float64, Metric}
use tdarr_exporter.Client.Body.{Decoder}
use tdarr_exporter.Client.Request.{
  RequestClient, Network, Answer, unmarshalled, request_failed, RequestError, do_request,
  do_post_request,
}
use tdarr_exporter.Collector.Api.{TdarrApi, Reply, replied, failed, panicked}
use tdarr_exporter.Collector.Cache.{SortSlice}
use tdarr_exporter.Collector.Setup.{new_scrape}
use tdarr_exporter.Collector.Scrape.{CollectorConfig, Scrape, collect_all}

pub record Codecs (Num : Type 0) : Type 0 where
  pub server_status : Decoder TdarrServerStatus
  pub nodes : Decoder (List (Text × TdarrNode Num))
  pub metric : Decoder (Option (TdarrMetric Num))
  pub libraries : Decoder (List TdarrLibraryInfo)
  pub pie : Decoder (TdarrPieStat Num)
  pub marshal_metric : TdarrMetricRequest → Option Text
  pub marshal_pie : TdarrPieDataRequest → Option Text
  pub error_text : RequestError → Text

abbrev pub reply_of : {A : Type 0} → (RequestError → Text) → Answer A → Reply A
reply_of error_text (unmarshalled a) = replied a
reply_of error_text (request_failed e) = failed (error_text e)

-- What `collect` makes of the pointer that the document of the totals is read into: the JSON `null` leaves it nil, and
-- the first use of it, right behind the request, panics.
abbrev pub dereferenced : {A : Type 0} → Reply (Option A) → Reply A
dereferenced (replied (some a)) = replied a
dereferenced (replied none) = panicked
dereferenced (failed e) = failed e
dereferenced panicked = panicked

module _ {Num Url Inner After Logger : Type 0} (Body : Type 0) (codecs : Codecs Num)
    (client : RequestClient Url Inner After Logger) where
  unfoldable pub api_of_client : Network Url Inner After Logger Body → TdarrApi Num
  unfolding do_request do_post_request
  api_of_client net = record {
    do_status =
        λ path. reply_of codecs.error_text (do_request net client codecs.server_status path []).0;
    do_nodes = λ path. reply_of codecs.error_text (do_request net client codecs.nodes path []).0;
    do_post_metric = λ path payload.
        dereferenced
          (reply_of codecs.error_text (do_post_request net client codecs.metric path payload).0);
    do_post_libs = λ path payload.
        reply_of codecs.error_text (do_post_request net client codecs.libraries path payload).0;
    do_post_pie = λ path payload.
        reply_of codecs.error_text (do_post_request net client codecs.pie path payload).0;
    marshal_metric = codecs.marshal_metric;
    marshal_pie = codecs.marshal_pie;
  }

  module _ (fl : Float64 Num) (lower_table : ℕ → ℕ) (sort_slice : SortSlice)
      (collector : CollectorConfig) where
    -- A call of `Collect` on a new channel, against the network of its time.
    unfoldable pub scrape : Network Url Inner After Logger Body → Scrape Num → Option (Scrape Num)
    unfolding collect_all api_of_client
    scrape net s =
        collect_all fl lower_table sort_slice collector (api_of_client net) (record s { ch = [] })

    -- What scrapes, one behind the other, make of a new collector.
    pub data History : Scrape Num → Type 0 where
      unscraped : History new_scrape
      scraped :
          {s s' : Scrape Num} (net : Network Url Inner After Logger Body)
          → History s
          → scrape net s ≡ some s'
          → History s'
