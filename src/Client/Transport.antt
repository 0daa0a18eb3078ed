-- ===== src/Client/Transport.antt =====
-- internal/client/transport.go: `ClientTransport.RoundTrip`, the retrying round tripper. What it does
-- to the outside is a list of events beside its result: requests sent with their body, response
-- bodies drained and closed, backoff waits begun. A response is known by the number of the attempt
-- that returned it. The wrapped transport (`t.inner`) and the `select` between the request's context
-- and the timer are parameters, asked by the number of the attempt and of the wait; as the contract
-- of `http.RoundTripper` says, the transport returns a response or an error, and a response's body is
-- not nil. The log calls are left out.
pub mod Laws
pub mod Outcomes
pub mod Errors
pub mod Options
use tdarr_exporter.Prelude.{
  ℕ, suc, Bool, true, false, ◌&&◌, List, [], ◌∷◌, ◌++◌, Option, none, some, leb, if◌then◌else◌,
}
use tdarr_exporter.GoText.{Text}

-- `location` is what `resp.Location()` returns, `none` for its error.
pub record Response : Type 0 where
  pub status_code : ℕ
  pub location : Option Text

pub data Attempt : Type 0 where
  failed : Text → Attempt
  responded : Response → Attempt

-- The `select` of a backoff wait: the request's context is done, with its error, or the timer fires.
pub data Wait : Type 0 where
  done : Text → Wait
  fired : Wait

pub data Event : Type 0 where
  sent : ℕ → Option Text → Event
  drained : ℕ → Event
  waiting : ℕ → Event

pub data RoundTripError : Type 0 where
  aborting_retries : Text → RoundTripError
  sending_failed : Text → RoundTripError
  server_error : ℕ → RoundTripError
  client_error : ℕ → RoundTripError
  redirect : ℕ → Option Text → RoundTripError

-- `returned n r`: the response `r` of attempt `n`, its body still open.
pub data Outcome : Type 0 where
  returned : ℕ → Response → Outcome
  refused : RoundTripError → Outcome

-- The default of `NewClientTransport`: one and three seconds, in nanoseconds.
abbrev pub default_backoff : List ℕ
default_backoff = 1_000_000_000 ∷ 3_000_000_000 ∷ []

-- `drainClose(resp)` for the response of attempt `n`; nil-safe.
abbrev pub drain_close : ℕ → Attempt → List Event
drain_close n (failed _) = []
drain_close n (responded _) = drained n ∷ []

-- err != nil || resp.StatusCode >= 500
abbrev pub must_retry : Attempt → Bool
must_retry (failed _) = true
must_retry (responded r) = leb 500 r.status_code

-- What follows the loop when every attempt errored or returned 5xx; `n` is the last attempt.
unfoldable pub give_up : ℕ → Attempt → Outcome × List Event
give_up n (failed e) = (refused (sending_failed e), [])
give_up n (responded r) = (refused (server_error r.status_code), drained n ∷ [])

-- The classification of a response below 500.
unfoldable pub classify : ℕ → Response → Outcome × List Event
classify n r =
    if leb 400 r.status_code && leb r.status_code 499
    then (refused (client_error r.status_code), drained n ∷ [])
    else if leb 300 r.status_code && leb r.status_code 399
    then (refused (redirect r.status_code r.location), drained n ∷ [])
    else (returned n r, [])

-- The end of `RoundTrip` for an attempt that is not retried; a failed attempt always is.
unfoldable pub finish : ℕ → Attempt → Outcome × List Event
unfolding classify give_up
finish n (failed e) = give_up n (failed e)
finish n (responded r) = classify n r

abbrev pub after : List Event → Outcome × List Event → Outcome × List Event
after es (o, fs) = (o, es ++ fs)

module _ (inner : ℕ → Option Text → Attempt) (select : ℕ → Wait) (body : Option Text) where
  -- The loop over `t.backoff`; `n` counts the retries made, and `last` is the attempt before.
  unfoldable pub retry_loop : ℕ → List ℕ → Attempt → Outcome × List Event
  unfolding finish
  retry_loop n [] last = give_up n last
  retry_loop n (backoff_dur ∷ backoff) last =
      after (drain_close n last ++ waiting backoff_dur ∷ []) (elim (select n) [
        | done e ↦ (refused (aborting_retries e), [])
        | fired ↦ after (sent (suc n) body ∷ []) (elim (must_retry (inner (suc n) body)) [
          | true ↦ retry_loop (suc n) backoff (inner (suc n) body)
          | false ↦ finish (suc n) (inner (suc n) body)
        ])
      ])

  -- `body` holds what `io.ReadAll` read from the request's body, `none` for a nil body: the copy that
  -- every attempt sends.
  unfoldable pub round_trip : List ℕ → Outcome × List Event
  unfolding retry_loop
  round_trip backoff = after (sent 0 body ∷ []) (elim (must_retry (inner 0 body)) [
    | true ↦ retry_loop 0 backoff (inner 0 body)
    | false ↦ finish 0 (inner 0 body)
  ])
