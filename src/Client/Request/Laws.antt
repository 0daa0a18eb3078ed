-- ===== src/Client/Request/Laws.antt =====
-- What a request of internal/client/client.go does to the bodies of the responses, and which value it answers.
use tdarr_exporter.Prelude.{
  ℕ, ◌≡◌, refl, sym, ap, ◌∙◌, List, [], ◌∷◌, ◌++◌, map, Option, none, some, ◌<◌, Option-cases, inl,
  inr,
}
use tdarr_exporter.GoText.{Text}
use tdarr_exporter.Client.Transport.{responded, Event, Outcome, returned, refused, Response}
use tdarr_exporter.Client.Transport.Laws.{closed, handed, received, round_trip-closed}
use tdarr_exporter.Client.Transport.Outcomes.{round_trip-returned}
use tdarr_exporter.Client.Body.{Decoder, Decoded, decoded, decode_failed, decode, unmarshal_body}
use tdarr_exporter.Client.Body.Laws.{unmarshal_body-decode}
use mathlib.Core.List.{append-nil}
use tdarr_exporter.Client.Request.{
  Values, Request, Network, RequestClient, Action, log_head, answer_of, creating_failed,
  round_trips, closes_body, logs_body_head, unmarshalled, request_failed, after_do, exchange,
  round_trip_of, send, get_request, post_request, do_request, do_post_request,
}

-- The events of the round trip, and the bodies that the client closes itself.
abbrev pub events : List Action → List Event
events [] = []
events (round_trips e ∷ actions) = e ∷ events actions
events (closes_body n ∷ actions) = events actions
events (logs_body_head head ∷ actions) = events actions

abbrev pub closed_bodies : List Action → List ℕ
closed_bodies [] = []
closed_bodies (round_trips e ∷ actions) = closed_bodies actions
closed_bodies (closes_body n ∷ actions) = n ∷ closed_bodies actions
closed_bodies (logs_body_head head ∷ actions) = closed_bodies actions

events-map :
    (es : List Event) (actions : List Action)
    → events (map round_trips es ++ actions) ≡ es ++ events actions
events-map [] actions = refl
events-map (e ∷ es) actions = ap (e ∷◌) (events-map es actions)

closed_bodies-map :
    (es : List Event) (actions : List Action)
    → closed_bodies (map round_trips es ++ actions) ≡ closed_bodies actions
closed_bodies-map [] actions = refl
closed_bodies-map (e ∷ es) actions = closed_bodies-map es actions

answer_of_value :
    {A : Type 0} (d : Decoded A) (a : A) → answer_of d ≡ unmarshalled a → d ≡ decoded a
answer_of_value (decoded b) a h = cc h
answer_of_value (decode_failed e) a h = cc h

log_head_lem :
    (head : Option Text) (n : ℕ)
    → (events (log_head head ++ closes_body n ∷ []) ≡ [])
      × (closed_bodies (log_head head ++ closes_body n ∷ []) ≡ n ∷ [])
log_head_lem none n = (refl, refl)
log_head_lem (some head) n = (refl, refl)

module _ {Url Inner After Logger Body : Type 0} (net : Network Url Inner After Logger Body)
    (c : RequestClient Url Inner After Logger) where
  -- Every response that the transport received is closed once, in order: those that the transport gave up,
  -- and behind them the one that it handed to the client.
  abbrev pub ClosesEveryBody : Request → List Action → Type 0
  ClosesEveryBody req actions =
      received (net.attempt c.http_client.transport.inner req)
        (net.select c.http_client.transport.after req) req.body (events actions)
      ≡ closed (events actions) ++ closed_bodies actions

  module _ {A : Type 0} (decoder : Decoder A) where
    after_do-events : (req : Request) (o : Outcome) → events (after_do net c decoder req o).1 ≡ []
    after_do-events req (refused e) = refl
    after_do-events req (returned n resp) =
        (log_head_lem
          (unmarshal_body (net.debug_enabled c.logger) decoder net.read
            (net.body_of c.http_client.transport.inner req n)).body_head
          n).0

    after_do-closed_bodies :
        (req : Request) (o : Outcome) → closed_bodies (after_do net c decoder req o).1 ≡ handed o
    after_do-closed_bodies req (refused e) = refl
    after_do-closed_bodies req (returned n resp) =
        (log_head_lem
          (unmarshal_body (net.debug_enabled c.logger) decoder net.read
            (net.body_of c.http_client.transport.inner req n)).body_head
          n).1

    exchange-ClosesEveryBody :
        (req : Request)
        → ClosesEveryBody req (exchange net c decoder req (round_trip_of net c req)).1
    exchange-ClosesEveryBody req =
        let (outcome, es) = round_trip_of net c req in
        let actions = (after_do net c decoder req outcome).1 in
        let sent : events (map round_trips es ++ actions) ≡ es =
          events-map es actions ∙ ap (es ++◌) (after_do-events req outcome) ∙ append-nil es in
        let left : closed_bodies (map round_trips es ++ actions) ≡ handed outcome =
          closed_bodies-map es actions ∙ after_do-closed_bodies req outcome in
        rw (sent, left)
          (round_trip-closed (net.attempt c.http_client.transport.inner req)
            (net.select c.http_client.transport.after req) req.body c.http_client.transport.backoff)

    send_malformed :
        (req : Request) (e : Text)
        → net.check_url req.url ≡ some e
        → send net c decoder req ≡ (request_failed (creating_failed e), [])
    send_malformed req e h = rw (send, h) refl

    send-ClosesEveryBody : (req : Request) → ClosesEveryBody req (send net c decoder req).1
    send-ClosesEveryBody req = elim (Option-cases (net.check_url req.url)) [
      | inl parsed ↦ rw (send, parsed) (exchange-ClosesEveryBody req)
      | inr (e, malformed) ↦ rw (send, malformed) refl
    ]

    -- No connection leaks from a request of either method, on any path: each response that the transport
    -- received is closed exactly once, by the transport or by the client.
    pub do_request-ClosesEveryBody :
        (path payload : Text) (query_params : List Values)
        → ClosesEveryBody
            (get_request net c path query_params)
            (do_request net c decoder path query_params).1
          × ClosesEveryBody
              (post_request net c path payload)
              (do_post_request net c decoder path payload).1
    unfolding do_request do_post_request
    do_request-ClosesEveryBody path payload query_params =
        (send-ClosesEveryBody _, send-ClosesEveryBody _)

    -- `a` is what the decoder reads from the body of a response below 300 to an attempt of the request.
    abbrev pub AnswersFrom : Request → A → Type 0
    AnswersFrom req a =
        (n : ℕ) × (resp : Response) × (net.attempt c.http_client.transport.inner req n req.body
          ≡ responded resp)
        × (resp.status_code < 300)
        × ((decode decoder net.read (net.body_of c.http_client.transport.inner req n)).0
            ≡ decoded a)

    after_do_value :
        (req : Request) (o : Outcome) (a : A)
        → (after_do net c decoder req o).0 ≡ unmarshalled a
        → (n : ℕ) × (resp : Response) × (o ≡ returned n resp)
          × ((decode decoder net.read (net.body_of c.http_client.transport.inner req n)).0
              ≡ decoded a)
    after_do_value req (refused e) a h = cc h
    after_do_value req (returned n resp) a h = (
      n,
      resp,
      refl,
      answer_of_value _ a (
          ap (λ u. answer_of u.outcome)
            (sym (
              unmarshal_body-decode (net.debug_enabled c.logger) decoder net.read
                (net.body_of c.http_client.transport.inner req n)))
          ∙ h),
    )

    send-AnswersFrom :
        (req : Request) (a : A) → (send net c decoder req).0 ≡ unmarshalled a → AnswersFrom req a
    send-AnswersFrom req a h = elim (Option-cases (net.check_url req.url)) [
      | inl parsed ↦
          let (n, resp, same, value) =
            after_do_value req (round_trip_of net c req).0 a (rw (send, parsed) at h) in
          let (responds, below) =
            round_trip-returned (net.attempt c.http_client.transport.inner req)
              (net.select c.http_client.transport.after req) req.body
              c.http_client.transport.backoff n resp same in
          (n, resp, responds, below, value)
      | inr (e, malformed) ↦ cc (ap (λ x. x.0) (sym (send_malformed req e malformed)) ∙ h)
    ]

    do_request-AnswersFrom :
        (path : Text) (query_params : List Values) (a : A)
        → (do_request net c decoder path query_params).0 ≡ unmarshalled a
        → AnswersFrom (get_request net c path query_params) a
    unfolding do_request
    do_request-AnswersFrom path query_params = send-AnswersFrom _

    -- A POST answers a value only if the transport responded to one of its attempts with a status below 300, and
    -- the decoder reads that value from the body of that response.
    pub do_post_request-AnswersFrom :
        (path payload : Text) (a : A)
        → (do_post_request net c decoder path payload).0 ≡ unmarshalled a
        → AnswersFrom (post_request net c path payload) a
    unfolding do_post_request
    do_post_request-AnswersFrom path payload = send-AnswersFrom _
