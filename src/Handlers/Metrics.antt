-- ===== src/Handlers/Metrics.antt =====
-- internal/handlers/metrics.go: `MetricsHandler`. The client library of Prometheus is a parameter. A registerer is the
-- registry with the labels that `WrapRegistererWith` puts on what is registered through it; a panic of a
-- registration is `none`.
use tdarr_exporter.Prelude.{List, [], ◌∷◌, Option, none, some}
use tdarr_exporter.GoText.{Text, lit}
use tdarr_exporter.Handlers.Writer.{Handler}

abbrev pub Labels : Type 0
Labels = List (Text × Text)

-- `promhttp.HandlerErrorHandling`.
pub data HandlerErrorHandling : Type 0 where
  http_error_on_error : HandlerErrorHandling
  continue_on_error : HandlerErrorHandling
  panic_on_error : HandlerErrorHandling

-- The fields of `promhttp.HandlerOpts` that the exporter sets.
pub record HandlerOpts : Type 0 where
  pub error_handling : HandlerErrorHandling
  pub registry : Option Labels

-- `handler_for opts reg` and `instrument_metric_handler labels h reg` register counters of their own.
pub record Promhttp (Registry Request : Type 0) : Type 0 where
  pub handler_for : HandlerOpts → Registry → Option ((Request → Handler) × Registry)
  pub instrument_metric_handler :
      Labels → (Request → Handler) → Registry → Option ((Request → Handler) × Registry)

-- prometheus.Labels{"tdarr_instance": tdarrInstance}
abbrev pub instance_labels : Text → Labels
instance_labels tdarr_instance = (lit "tdarr_instance", tdarr_instance) ∷ []

infixl 5 ◌>>=◌
abbrev pub ◌>>=◌ {ℓ κ} : {A : Type ℓ} {B : Type κ} → Option A → (A → Option B) → Option B
none >>= f = none
some a >>= f = f a

unfoldable pub metrics_handler :
    {Registry Request : Type 0}
    → Promhttp Registry Request
    → Registry
    → HandlerOpts
    → Text
    → Option ((Request → Handler) × Registry)
metrics_handler promhttp reg opts tdarr_instance = do
  let inst_reg = instance_labels tdarr_instance
  (handler, reg') ← promhttp.handler_for (record opts { registry = some inst_reg }) reg
  promhttp.instrument_metric_handler inst_reg handler reg'
