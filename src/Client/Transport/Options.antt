-- ===== src/Client/Transport/Options.antt =====
-- internal/client/transport.go: `ClientTransport`, its options and `NewClientTransport`. The wrapped transport,
-- the timer function and the logger are of types of their own, `net/http`'s, `time`'s and zerolog's.
use tdarr_exporter.Prelude.{ℕ, List, [], ◌∷◌}
use tdarr_exporter.Client.Transport.{default_backoff}

pub record ClientTransport (Inner After Logger : Type 0) : Type 0 where
  pub inner : Inner
  pub backoff : List ℕ
  pub after : After
  pub logger : Logger

abbrev pub ClientTransportOption : Type 0 → Type 0 → Type 0 → Type 0
ClientTransportOption Inner After Logger =
    ClientTransport Inner After Logger → ClientTransport Inner After Logger

module _ {Inner After Logger : Type 0} where
  unfoldable pub with_backoff : List ℕ → ClientTransportOption Inner After Logger
  with_backoff durations t = record t { backoff = durations }

  unfoldable pub with_after : After → ClientTransportOption Inner After Logger
  with_after fn t = record t { after = fn }

  unfoldable pub with_logger : Logger → ClientTransportOption Inner After Logger
  with_logger logger t = record t { logger = logger }

  -- for _, opt := range opts { opt(t) }
  abbrev pub apply_options :
      List (ClientTransportOption Inner After Logger) → ClientTransportOption Inner After Logger
  apply_options [] t = t
  apply_options (opt ∷ opts) t = apply_options opts (opt t)

  -- `time_after` is `time.After`, and `log_logger` the global `log.Logger`.
  unfoldable pub new_client_transport :
      After
      → Logger
      → Inner
      → List (ClientTransportOption Inner After Logger)
      → ClientTransport Inner After Logger
  new_client_transport time_after log_logger inner opts =
      apply_options opts (record {
        inner = inner;
        backoff = default_backoff;
        after = time_after;
        logger = log_logger;
      })
