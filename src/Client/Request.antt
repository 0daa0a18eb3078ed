-- ===== src/Client/Request.antt =====
-- internal/client/client.go: `RequestClient`, `NewRequestClient`, `DoRequest` and `DoPostRequest`, over the
-- retrying round trip of `transport.go`. `net/url` is a parameter. So are the wrapped transport and the timer, as in
-- the model of the round trip, by the request they serve. `http.Client.Do` hands a response of
-- the transport on as it is, since a status below 300 is no redirect, and wraps its error. The log calls are
-- left out, but for the head of a body that does not decode.
pub mod Laws
pub mod Queries
pub mod Timeout
use tdarr_exporter.Prelude.{
  ℕ, Bool, true, false, not, List, [], ◌∷◌, ◌++◌, map, Option, none, some, if◌then◌else◌,
}
use tdarr_exporter.Prelude.Int.{ℤ, pos}
use tdarr_exporter.Prelude.Assoc.{lookup, insert}
use tdarr_exporter.GoText.{Text, Text_eq, lit, is_empty}
use tdarr_exporter.Nodes.Eta.{mul64}
use tdarr_exporter.Client.Transport.{
  Attempt, Wait, Event, Outcome, returned, refused, RoundTripError, round_trip,
}
use tdarr_exporter.Client.Transport.Options.{ClientTransport, new_client_transport}
use tdarr_exporter.Client.Body.{
  Reader, Decoder, Decoded, decoded, decode_failed, Unmarshalled, unmarshal_body,
}

-- `url.Values`: a key's values, in order; a map's entries stand in the order in which Go ranges over them.
abbrev pub Values : Type 0
Values = List (Text × List Text)

abbrev pub get_all : Text → Values → List Text
get_all key values = elim (lookup key values) [ none ↦ [] | some vals ↦ vals ]

unfoldable pub add : Text → Text → Values → Values
add key val values = insert key (get_all key values ++ val ∷ []) values

-- for _, val := range vals { values.Add(key, val) }
unfoldable pub add_vals : Text → List Text → Values → Values
unfolding add
add_vals key [] values = values
add_vals key (val ∷ vals) values = add_vals key vals (add key val values)

-- for key, vals := range m
unfoldable pub add_map : Values → Values → Values
unfolding add_vals
add_map [] values = values
add_map ((key, vals) ∷ m) values = add_map m (add_vals key vals values)

-- for _, m := range queryParams
unfoldable pub add_params : List Values → Values → Values
unfolding add_map
add_params [] values = values
add_params (m ∷ query_params) values = add_params query_params (add_map m values)

-- What `net/url` does of a URL: `Query`, `JoinPath`, an assignment of `RawQuery` with `Values.Encode`, `String`.
pub record UrlOps (Url : Type 0) : Type 0 where
  pub query : Url → Values
  pub join_path : Text → Url → Url
  pub set_query : Values → Url → Url
  pub to_string : Url → Text

pub record Request : Type 0 where
  pub method : Text
  pub url : Text
  pub header : List (Text × Text)
  pub body : Option Text

pub record HttpClient (Inner After Logger : Type 0) : Type 0 where
  pub transport : ClientTransport Inner After Logger
  pub timeout : ℤ

pub record RequestClient (Url Inner After Logger : Type 0) : Type 0 where
  pub http_client : HttpClient Inner After Logger
  pub api_key : Text
  pub url : Url
  pub logger : Logger

abbrev second : ℕ
second = 1_000_000_000

-- `clone_transport skip` is a clone of the default transport with `InsecureSkipVerify` set to `skip`.
unfoldable pub new_request_client :
    {Url Inner After Logger : Type 0}
    → (Bool → Inner)
    → After
    → Logger
    → Url
    → Bool
    → ℕ
    → Text
    → RequestClient Url Inner After Logger
unfolding new_client_transport
new_request_client clone_transport time_after log_logger parsed_url verify_ssl timeout_seconds
      api_key_auth =
    record {
      http_client = record {
        transport =
            new_client_transport time_after log_logger (clone_transport (not verify_ssl)) [];
        timeout = mul64 (pos timeout_seconds) (pos second);
      };
      api_key = api_key_auth;
      url = parsed_url;
      logger = log_logger;
    }

-- What a request does to the outside: the events of its round trip, the close of the body of an attempt's
-- response, the head of a body in the log.
pub data Action : Type 0 where
  round_trips : Event → Action
  closes_body : ℕ → Action
  logs_body_head : Text → Action

pub data RequestError : Type 0 where
  creating_failed : Text → RequestError
  executing_failed : RoundTripError → RequestError
  decoding_failed : Text → RequestError

pub data Answer (A : Type 0) : Type 0 where
  unmarshalled : A → Answer A
  request_failed : RequestError → Answer A

abbrev pub log_head : Option Text → List Action
log_head none = []
log_head (some head) = logs_body_head head ∷ []

abbrev pub answer_of : {A : Type 0} → Decoded A → Answer A
answer_of (decoded a) = unmarshalled a
answer_of (decode_failed e) = request_failed (decoding_failed e)

-- return c.unmarshalBody(resp.Body, target), and the deferred close.
abbrev pub unmarshal_and_close : {A R : Type 0} → ℕ → Unmarshalled A R → Answer A × List Action
unmarshal_and_close n u = (answer_of u.outcome, log_head u.body_head ++ closes_body n ∷ [])

-- What the client is given. `http.NewRequestWithContext` parses the URL again; `check_url` says with which error,
-- if any. `body_of` and `read` are the body of an attempt's response.
pub record Network (Url Inner After Logger Body : Type 0) : Type 0 where
  pub url_ops : UrlOps Url
  pub check_url : Text → Option Text
  pub attempt : Inner → Request → ℕ → Option Text → Attempt
  pub select : After → Request → ℕ → Wait
  pub debug_enabled : Logger → Bool
  pub body_of : Inner → Request → ℕ → Body
  pub read : Reader Body

module _ {Url Inner After Logger Body : Type 0} (net : Network Url Inner After Logger Body)
    (c : RequestClient Url Inner After Logger) where
  -- if c.apiKey != "" { req.Header.Set("x-api-key", c.apiKey) }
  abbrev pub set_api_key : List (Text × Text) → List (Text × Text)
  set_api_key header =
      if is_empty c.api_key then header else insert (lit "x-api-key") c.api_key header

  unfoldable pub get_request : Text → List Values → Request
  unfolding add_params
  get_request path query_params = record {
    method = lit "GET";
    url = net.url_ops.to_string (
        net.url_ops.set_query (add_params query_params (net.url_ops.query c.url))
          (net.url_ops.join_path path c.url));
    header = set_api_key [];
    body = none;
  }

  unfoldable pub post_request : Text → Text → Request
  post_request path payload = record {
    method = lit "POST";
    url = net.url_ops.to_string (net.url_ops.join_path path c.url);
    header = set_api_key (insert (lit "Content-Type") (lit "application/json") []);
    body = some payload;
  }

  abbrev pub round_trip_of : Request → Outcome × List Event
  round_trip_of req =
      round_trip (net.attempt c.http_client.transport.inner req)
        (net.select c.http_client.transport.after req) req.body c.http_client.transport.backoff

  module _ {A : Type 0} (decoder : Decoder A) where
    -- What follows `c.httpClient.Do(req)`.
    abbrev pub after_do : Request → Outcome → Answer A × List Action
    after_do req (refused e) = (request_failed (executing_failed e), [])
    after_do req (returned n resp) = unmarshal_and_close n (
        unmarshal_body (net.debug_enabled c.logger) decoder net.read
          (net.body_of c.http_client.transport.inner req n))

    abbrev pub exchange : Request → Outcome × List Event → Answer A × List Action
    exchange req (outcome, events) =
        let (answer, actions) = after_do req outcome in (answer, map round_trips events ++ actions)

    abbrev pub send : Request → Answer A × List Action
    send req = elim (net.check_url req.url) [
      | some e ↦ (request_failed (creating_failed e), [])
      | none ↦ exchange req (round_trip_of req)
    ]

    unfoldable pub do_request : Text → List Values → Answer A × List Action
    unfolding unmarshal_body get_request round_trip
    do_request path query_params = send (get_request path query_params)

    unfoldable pub do_post_request : Text → Text → Answer A × List Action
    unfolding unmarshal_body post_request round_trip
    do_post_request path payload = send (post_request path payload)
