-- ===== src/Client/Request/Timeout.antt =====
-- The timeout of `NewRequestClient` (internal/client/client.go), in nanoseconds: the product of two int64.
use tdarr_exporter.Prelude.{ℕ, ◌*◌, ◌≤◌, ◌≡◌, Bool, arith}
use tdarr_exporter.Prelude.Int.{pos}
use tdarr_exporter.GoText.{Text}
use tdarr_exporter.Nodes.Eta.{mul64}
use tdarr_exporter.Client.Request.{new_request_client}

-- For a timeout of at most 9223372036 seconds the multiplication does not wrap around: the client waits for as
-- many nanoseconds as the seconds it was given are.
pub new_request_client_timeout :
    {Url Inner After Logger : Type 0} (clone_transport : Bool → Inner) (time_after : After)
    (log_logger : Logger) (parsed_url : Url) (verify_ssl : Bool) (timeout_seconds : ℕ)
    (api_key : Text)
    → timeout_seconds ≤ 9_223_372_036
    → (new_request_client clone_transport time_after log_logger parsed_url verify_ssl
        timeout_seconds api_key).http_client.timeout
      ≡ pos (timeout_seconds * 1_000_000_000)
unfolding new_request_client mul64
new_request_client_timeout clone_transport time_after log_logger parsed_url verify_ssl
      timeout_seconds api_key h =
    ground (arith, h)
