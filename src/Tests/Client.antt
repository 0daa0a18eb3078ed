-- ===== src/Tests/Client.antt =====
-- Round trips of internal/client/transport.go against a server that recovers, one that is down, and a
-- request that is cancelled.
use tdarr_exporter.Prelude.{
  ℕ, zero, suc, ◌+◌, ◌≤◌, ◌<◌, ◌≡◌, refl, ◌++◌, Option, none, some, arith, length,
}
use tdarr_exporter.GoText.{Text, lit}
use tdarr_exporter.Client.Transport.{
  Response, Attempt, failed, responded, Wait, done, fired, default_backoff, returned, classify,
  sending_failed, round_trip,
}
use tdarr_exporter.Client.Transport.Laws.{
  received, closed, handed, attempts, IsCounting, Carries, round_trip-closed, round_trip-attempts,
}
use tdarr_exporter.Client.Transport.Errors.{Explains, round_trip-Explains}
use tdarr_exporter.Client.Transport.Outcomes.{FailsBelow, round_trip-returned, round_trip-recovers}

abbrev body : Option Text
body = some (lit "{}")

abbrev good : Response
good = record { status_code = 200; location = none }

-- Unavailable, then a reset connection, then a good response.
abbrev flaky : ℕ → Option Text → Attempt
flaky zero _ = responded (record { status_code = 503; location = none })
flaky (suc zero) _ = failed (lit "connection reset")
flaky (suc (suc _)) _ = responded good

abbrev down : ℕ → Option Text → Attempt
down _ _ = failed (lit "connection refused")

abbrev fires : ℕ → Wait
fires _ = fired

-- The context ends during the second wait.
abbrev cancelled : ℕ → Wait
cancelled zero = fired
cancelled (suc _) = done (lit "context canceled")

flaky-FailsBelow : FailsBelow flaky fires body 2
flaky-FailsBelow zero h = refl
flaky-FailsBelow (suc zero) h = refl
flaky-FailsBelow (suc (suc i)) h = absurd (omega arith)

flaky_run : (round_trip flaky fires body default_backoff).0 ≡ returned 2 good
unfolding round_trip
flaky_run = refl

round_trip-closed_example :
    received flaky fires body (round_trip flaky fires body default_backoff).1
    ≡ closed (round_trip flaky fires body default_backoff).1
      ++ handed (round_trip flaky fires body default_backoff).0
round_trip-closed_example = round_trip-closed flaky fires body default_backoff

round_trip-attempts_example :
    IsCounting 0 (attempts (round_trip flaky fires body default_backoff).1)
    × (length (attempts (round_trip flaky fires body default_backoff).1)
        ≤ length default_backoff + 1)
    × Carries body (round_trip flaky fires body default_backoff).1
round_trip-attempts_example = round_trip-attempts flaky fires body default_backoff

round_trip-returned_example : (flaky 2 body ≡ responded good) × (200 < 300)
round_trip-returned_example = round_trip-returned flaky fires body default_backoff 2 good flaky_run

round_trip-recovers_example : (round_trip flaky fires body default_backoff).0 ≡ (classify 2 good).0
round_trip-recovers_example =
    round_trip-recovers flaky fires body default_backoff 2 good (omega arith) flaky-FailsBelow
      (λ i h. refl) refl (omega arith)

-- Three attempts that cannot connect: the error is the last one's.
round_trip-Explains_example : Explains down fires body 2 (sending_failed (lit "connection refused"))
unfolding round_trip
round_trip-Explains_example =
    round_trip-Explains down fires body default_backoff (sending_failed (lit "connection refused"))
      refl

fires_once : (i : ℕ) → i < 1 → cancelled i ≡ fired
fires_once zero h = refl
fires_once (suc i) h = absurd (omega arith)
