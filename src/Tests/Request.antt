-- ===== src/Tests/Request.antt =====
-- The request client (internal/client/client.go) at a server that answers 503 once and then a body in two chunks.
use tdarr_exporter.Prelude.{
  ℕ, zero, suc, ◌≡◌, refl, Bool, true, List, [], ◌∷◌, ◌++◌, none, some, take, nat_eq, if◌then◌else◌,
}
use tdarr_exporter.Prelude.Int.{pos}
use tdarr_exporter.GoText.{Text, lit}
use tdarr_exporter.Client.Transport.{
  Attempt, responded, fired, round_trip, retry_loop, finish, classify, give_up,
}
use tdarr_exporter.Client.Body.{
  Reader, Decoded, decoded, decode_failed, Decoder, decides, reads, decode, max_body_head_bytes,
  unmarshal_body, tee_reader, write,
}
use tdarr_exporter.Client.Body.Laws.{bytes_read, head_of, unmarshal_body-decode}
use tdarr_exporter.Client.Request.{
  Network, RequestClient, unmarshalled, get_request, post_request, do_request, do_post_request,
}
use tdarr_exporter.Client.Request.Laws.{ClosesEveryBody, do_request-ClosesEveryBody}

abbrev chunks : List Text
chunks = lit "<html>" ∷ lit "</html>" ∷ []

-- A body is the chunks that are left of it.
abbrev next_chunk : Reader (List Text)
next_chunk [] = (record { bytes = []; error = some (lit "EOF") }, [])
next_chunk (p ∷ ps) = (record { bytes = p; error = none }, ps)

-- Reads once; a body that starts with `1` is the number 1, any other does not decode.
abbrev decide : Text → Decoded ℕ
decide [] = decode_failed (lit "EOF")
decide (c ∷ _) = if nat_eq c b'1' then decoded 1 else decode_failed (lit "invalid character")

abbrev decoder : Decoder ℕ
decoder = reads (λ r. decides (decide r.bytes))

unmarshal_body-decode_example : unmarshal_body true decoder next_chunk chunks ≡ record {
  outcome = (decode decoder next_chunk chunks).0;
  body_head =
      head_of true
        (decode decoder next_chunk chunks).0
        (take max_body_head_bytes (bytes_read decoder next_chunk chunks));
  rest = (decode decoder next_chunk chunks).1;
}
unmarshal_body-decode_example = unmarshal_body-decode true decoder next_chunk chunks

logged_head : (unmarshal_body true decoder next_chunk chunks).body_head ≡ some (lit "<html>")
unfolding unmarshal_body decode tee_reader write
logged_head = refl

abbrev answers : ℕ → Attempt
answers zero = responded (record { status_code = 503; location = none })
answers (suc n) = responded (record { status_code = 200; location = none })

abbrev network : Network Text (Unit {0}) (Unit {0}) Bool (List Text)
network = record {
  url_ops = record {
    query = λ _. [];
    join_path = λ path url. url ++ path;
    set_query = λ _ url. url;
    to_string = λ url. url;
  };
  check_url = λ _. none;
  attempt = λ _ _ n _. answers n;
  select = λ _ _ _. fired;
  debug_enabled = λ debug. debug;
  body_of = λ _ _ _. lit "1" ∷ lit "\n" ∷ [];
  read = next_chunk;
}

abbrev client : RequestClient Text (Unit {0}) (Unit {0}) Bool
client = record {
  http_client = record {
    transport = record { inner = tt; backoff = 1 ∷ []; after = tt; logger = true };
    timeout = pos 1;
  };
  api_key = lit "key";
  url = lit "http://tdarr";
  logger = true;
}

do_request-ClosesEveryBody_example :
    ClosesEveryBody network client
      (get_request network client (lit "/api/v2/status") [])
      (do_request network client decoder (lit "/api/v2/status") []).1
    × ClosesEveryBody network client
        (post_request network client (lit "/api/v2/status") (lit "{}"))
        (do_post_request network client decoder (lit "/api/v2/status") (lit "{}")).1
do_request-ClosesEveryBody_example =
    do_request-ClosesEveryBody network client decoder (lit "/api/v2/status") (lit "{}") []

answered :
    (do_post_request network client decoder (lit "/api/v2/status") (lit "{}")).0 ≡ unmarshalled 1
unfolding do_post_request post_request round_trip retry_loop finish classify give_up unmarshal_body
    decode tee_reader write
answered = refl
