-- ===== src/Client/Body/Laws.antt =====
-- What a capped writer keeps, and what `unmarshalBody` (internal/client/client.go) reads.
use tdarr_exporter.Prelude.{
  ℕ, suc, zero, ◌-◌, ◌≤◌, ◌≡◌, refl, sym, ap, ◌∙◌, Bool, true, false, List, [], ◌∷◌, ◌++◌, Option,
  none, arith, length, take, if◌then◌else◌,
}
use tdarr_exporter.GoText.{Text, is_empty}
use tdarr_exporter.Client.Body.{
  Reader, Decoded, Decoder, decides, reads, decode, CappedWriter, head_if, max_body_head_bytes,
  write, tee_reader, unmarshal_body,
}
use mathlib.Core.List.{append_assoc, append-nil}

sub_zero : (n : ℕ) → 0 - n ≡ 0
sub_zero n = omega arith

minus_zero : (n : ℕ) → n ≡ n - 0
minus_zero n = omega arith

module _ {ℓ} {A : Type ℓ} where
  -- A prefix that is behind the limit does not grow, and one in front of it takes what is left.
  take-append : (n : ℕ) (xs ys : List A) → take n (xs ++ ys) ≡ take n xs ++ take (n - length xs) ys
  take-append zero xs ys = sym (ap (λ k. take k ys) (sub_zero (length xs)))
  take-append (suc n) [] ys = ap (λ k. take k ys) (minus_zero (suc n))
  take-append (suc n) (x ∷ xs) ys =
      ap (x ∷◌) (take-append n xs ys ∙ ap (λ k. take n xs ++ take k ys) (omega arith))

  take_empty : (n : ℕ) → take {A = A} n [] ≡ []
  take_empty zero = refl
  take_empty (suc n) = refl

  room_left : (n : ℕ) (xs : List A) → n - length (take n xs) ≡ n - length xs
  room_left zero xs = omega arith
  room_left (suc n) [] = refl
  room_left (suc n) (x ∷ xs) = omega (arith, room_left n xs)

  take_all : (n : ℕ) (xs : List A) → length xs ≤ n → take n xs ≡ xs
  take_all zero [] h = refl
  take_all (suc n) [] h = refl
  take_all zero (x ∷ xs) h = absurd (omega arith)
  take_all (suc n) (x ∷ xs) h = ap (x ∷◌) (take_all n xs (omega arith))

-- A writer that holds the first bytes of what was written.
abbrev capped : ℕ → Text → CappedWriter
capped limit written = record { buf = take limit written; limit = limit }

write-capped :
    (limit : ℕ) (written p : Text)
    → write p (capped limit written) ≡ (length p, capped limit (written ++ p))
unfolding write
write-capped limit written p = ground (
  arith,
  room_left limit written,
  take-append limit written p,
  take_all (limit - length written) p,
  append-nil (take limit written),
)

-- Write after write, with the lengths that are reported.
unfoldable pub write_all : List Text → CappedWriter → List ℕ × CappedWriter
write_all [] w = ([], w)
write_all (p ∷ ps) w = let (n, w') = write p w in let (ns, w'') = write_all ps w' in (n ∷ ns, w'')

abbrev pub concat : List Text → Text
concat [] = []
concat (p ∷ ps) = p ++ concat ps

abbrev pub lengths : List Text → List ℕ
lengths [] = []
lengths (p ∷ ps) = length p ∷ lengths ps

write_all-capped :
    (limit : ℕ) (written : Text) (ps : List Text)
    → write_all ps (capped limit written) ≡ (lengths ps, capped limit (written ++ concat ps))
unfolding write_all
write_all-capped limit written [] =
    ap (λ b. ([], record { buf = take limit b; limit = limit })) (sym (append-nil written))
write_all-capped limit written (p ∷ ps) = ground (
  arith,
  write-capped limit written p,
  write_all-capped limit (written ++ p) ps,
  append_assoc written p (concat ps),
)

-- Writes of any number and size to a writer with an empty buffer report their full lengths, and leave in
-- the buffer the first `limit` bytes of all that was written.
pub write_all-take :
    (limit : ℕ) (ps : List Text)
    → write_all ps (record { buf = []; limit = limit })
      ≡ (lengths ps, record { buf = take limit (concat ps); limit = limit })
write_all-take limit ps =
    ap (λ b. write_all ps (record { buf = b; limit = limit })) (sym (take_empty limit))
    ∙ write_all-capped limit [] ps

-- All that a decoder reads of a body.
unfoldable pub bytes_read : {A R : Type 0} → Decoder A → Reader R → R → Text
bytes_read (decides a) read r = []
bytes_read (reads next) read r = (read r).0.bytes ++ bytes_read (next (read r).0) read (read r).1

tee_capped :
    (limit : ℕ) (written p : Text)
    → (if is_empty p then capped limit written else (write p (capped limit written)).1)
      ≡ capped limit (written ++ p)
tee_capped limit written [] = ap (capped limit) (sym (append-nil written))
tee_capped limit written (c ∷ p) = ap (λ w. w.1) (write-capped limit written (c ∷ p))

tee_reader-capped :
    {R : Type 0} (read : Reader R) (r : R) (limit : ℕ) (written : Text)
    → tee_reader read (r, capped limit written)
      ≡ ((read r).0, ((read r).1, capped limit (written ++ (read r).0.bytes)))
unfolding tee_reader
tee_reader-capped read r limit written =
    ap (λ w. ((read r).0, ((read r).1, w))) (tee_capped limit written (read r).0.bytes)

-- A decoder behind a tee does what it does on the body itself, and the tee's writer has what it read.
decode-tee_reader :
    {A R : Type 0} (decoder : Decoder A) (read : Reader R) (r : R) (limit : ℕ) (written : Text)
    → decode decoder (tee_reader read) (r, capped limit written) ≡ (
      (decode decoder read r).0,
      ((decode decoder read r).1, capped limit (written ++ bytes_read decoder read r)),
    )
unfolding decode bytes_read
decode-tee_reader (decides a) read r limit written =
    ap (λ b. (a, (r, capped limit b))) (sym (append-nil written))
decode-tee_reader (reads next) read r limit written = rw (tee_reader-capped read r limit written) (
    decode-tee_reader (next (read r).0) read (read r).1 limit (written ++ (read r).0.bytes)
    ∙ ap (λ b. ((decode (reads next) read r).0, ((decode (reads next) read r).1, capped limit b)))
        (append_assoc written (read r).0.bytes (bytes_read (next (read r).0) read (read r).1)))

abbrev pub head_of : {A : Type 0} → Bool → Decoded A → Text → Option Text
head_of false _ head = none
head_of true d head = head_if d head

-- The diagnostics are transparent: with debug logging on or off, `unmarshalBody` returns what the decoder
-- makes of the body and leaves the body where the decoder stopped reading. A head is logged only with
-- debug logging on and a body that does not decode: the first 2048 bytes of what the decoder read.
pub unmarshal_body-decode :
    {A R : Type 0} (debug : Bool) (decoder : Decoder A) (read : Reader R) (body : R)
    → unmarshal_body debug decoder read body ≡ record {
      outcome = (decode decoder read body).0;
      body_head =
          head_of debug
            (decode decoder read body).0
            (take max_body_head_bytes (bytes_read decoder read body));
      rest = (decode decoder read body).1;
    }
unfolding unmarshal_body
unmarshal_body-decode false decoder read body = refl
unmarshal_body-decode true decoder read body =
    ap (λ d. record { outcome = d.0; body_head = head_if d.0 d.1.1.buf; rest = d.1.0 })
      (decode-tee_reader decoder read body max_body_head_bytes [])
