-- ===== src/Collector/Api.antt =====
-- The seam to the HTTP client: `tdarrAPI`, the error categories `ErrUpstream` and `ErrParse`,
-- `httpReqHelper` and `getGeneralReqPayload` of internal/collector/tdarr.go. What a request answers
-- during a scrape is a parameter, one function for each type that the source decodes into.
use tdarr_exporter.Prelude.{List, Option, none, some, ◌==◌, if◌then◌else◌}
use tdarr_exporter.GoText.{Text, Text_eq, lit}
use tdarr_exporter.Models.{
  TdarrMetricRequest, TdarrPieDataRequest, TdarrServerStatus, TdarrMetric, TdarrLibraryInfo,
  TdarrPieStat, TdarrNode,
}

-- What a call of the API ends in: a decoded document, an error, or a panic.
pub data Reply {ℓ} (A : Type ℓ) : Type ℓ where
  replied : A → Reply A
  failed : Text → Reply A
  panicked : Reply A

-- The sentinel that a collection error wraps.
pub data CollectError : Type 0 where
  err_upstream : Text → CollectError
  err_parse : Text → CollectError

-- The result of a fallible step of a scrape; `panic` unwinds to the recover of `Collect`.
pub data Result {ℓ} (A : Type ℓ) : Type ℓ where
  ok : A → Result A
  error : CollectError → Result A
  panic : Result A

-- `do_post path payload`: the calls of `DoPostRequest`, by the type of their target. `marshal` is
-- `json.Marshal`, `none` for its error.
pub record TdarrApi (Num : Type 0) : Type 0 where
  pub do_status : Text → Reply TdarrServerStatus
  pub do_nodes : Text → Reply (List (Text × TdarrNode Num))
  pub do_post_metric : Text → Text → Reply (TdarrMetric Num)
  pub do_post_libs : Text → Text → Reply (List TdarrLibraryInfo)
  pub do_post_pie : Text → Text → Reply (TdarrPieStat Num)
  pub marshal_metric : TdarrMetricRequest → Option Text
  pub marshal_pie : TdarrPieDataRequest → Option Text

-- A failed `DoRequest` or `DoPostRequest` is wrapped in `ErrUpstream`.
abbrev pub upstream {ℓ} : {A : Type ℓ} → Reply A → Result A
upstream (replied a) = ok a
upstream (failed e) = error (err_upstream e)
upstream panicked = panic

-- `httpReqHelper` behind the marshalling: `do_post` is the call with its path.
unfoldable pub http_req_helper {ℓ} : {A : Type ℓ} → Option Text → (Text → Reply A) → Result A
http_req_helper none do_post = error (err_parse (lit "marshal payload"))
http_req_helper (some payload) do_post = upstream (do_post payload)

unfoldable pub get_general_req_payload : Text → TdarrMetricRequest
get_general_req_payload payload_request_type =
    if payload_request_type == lit "library"
    then record {
      payload = record {
        collection = lit "LibrarySettingsJSONDB";
        mode = lit "getAll";
        doc_id = lit "";
      };
    }
    else record {
      payload = record {
        collection = lit "StatisticsJSONDB";
        mode = lit "getById";
        doc_id = lit "statistics";
      };
    }
