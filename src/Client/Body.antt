-- ===== src/Client/Body.antt =====
-- internal/client/client.go: `cappedWriter` and `unmarshalBody`. The body of a response is a reader with a
-- state of its own (`io.Reader`). `encoding/json`'s decoder is a parameter: what it does with its reader, a
-- tree of reads that ends in a value or in an error. `io.TeeReader` is written out.
pub mod Laws
use tdarr_exporter.Prelude.{
  ℕ, ◌-◌, Bool, true, false, List, [], ◌∷◌, ◌++◌, Option, none, some, ltb, length, take,
  if◌then◌else◌,
}
use tdarr_exporter.GoText.{Text, is_empty}

-- Bytes read, and the error beside them, `io.EOF` included.
pub record ReadResult : Type 0 where
  pub bytes : Text
  pub error : Option Text

abbrev pub Reader : Type 0 → Type 0
Reader R = R → ReadResult × R

pub data Decoded (A : Type 0) : Type 0 where
  decoded : A → Decoded A
  decode_failed : Text → Decoded A

pub data Decoder (A : Type 0) : Type 0 where
  decides : Decoded A → Decoder A
  reads : (ReadResult → Decoder A) → Decoder A

-- `json.NewDecoder(reader).Decode(target)`.
unfoldable pub decode : {A R : Type 0} → Decoder A → Reader R → R → Decoded A × R
decode (decides a) read r = (a, r)
decode (reads next) read r = decode (next (read r).0) read (read r).1

-- The bytes written so far are those of `w.buf`.
pub record CappedWriter : Type 0 where
  pub buf : Text
  pub limit : ℕ

abbrev pub max_body_head_bytes : ℕ
max_body_head_bytes = 2048

-- The number of bytes that `Write` reports, and the writer behind it; it reports no error.
unfoldable pub write : Text → CappedWriter → ℕ × CappedWriter
write p w =
    let remaining = w.limit - length w.buf in
    if ltb 0 remaining
    then (if ltb remaining (length p)
        then (length p, record w { buf = w.buf ++ take remaining p })
        else (length p, record w { buf = w.buf ++ p }))
    else (length p, w)

-- `io.TeeReader(body, w)`: what is read is written to `w`, unless it is nothing. A short write would be an error
-- of the read; `w` makes none.
unfoldable pub tee_reader : {R : Type 0} → Reader R → Reader (R × CappedWriter)
unfolding write
tee_reader read (r, w) =
    let (res, r') = read r in (res, (r', if is_empty res.bytes then w else (write res.bytes w).1))

-- What `unmarshalBody` returns; the head that it logs, if it logs one; and what is left of the body.
pub record Unmarshalled (A R : Type 0) : Type 0 where
  pub outcome : Decoded A
  pub body_head : Option Text
  pub rest : R

abbrev pub head_if : {A : Type 0} → Decoded A → Text → Option Text
head_if (decoded a) head = none
head_if (decode_failed e) head = some head

-- `debug` is `c.logger.Debug().Enabled()`; the log call does nothing without it.
unfoldable pub unmarshal_body : {A R : Type 0} → Bool → Decoder A → Reader R → R → Unmarshalled A R
unfolding decode tee_reader
unmarshal_body false decoder read body =
    let (outcome, rest) = decode decoder read body in
    record { outcome = outcome; body_head = none; rest = rest }
unmarshal_body true decoder read body =
    let (outcome, (rest, w)) =
      decode decoder (tee_reader read) (body, record { buf = []; limit = max_body_head_bytes }) in
    record { outcome = outcome; body_head = head_if outcome w.buf; rest = rest }
