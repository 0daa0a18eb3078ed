-- ===== src/Client/Transport/Errors.antt =====
-- Which error a round trip of internal/client/transport.go returns: where each of them comes from.
use tdarr_exporter.Prelude.{
  ℕ, suc, ◌+◌, ◌≤◌, ◌<◌, ◌≡◌, refl, sym, ◌∙◌, true, false, List, [], ◌∷◌, Option, arith, length,
  Bool-cases, inl, inr, leb, ◌&&◌,
}
use tdarr_exporter.GoText.{Text}
use mathlib.Core.Path.{subst}
use tdarr_exporter.Client.Transport.{
  Response, Attempt, failed, responded, Wait, done, RoundTripError, aborting_retries,
  sending_failed, server_error, client_error, redirect, refused, must_retry, give_up, classify,
  finish, retry_loop, round_trip,
}
use tdarr_exporter.Client.Transport.Outcomes.{Wait-cases, loop_done, loop_again, loop_good}

module _ (inner : ℕ → Option Text → Attempt) (select : ℕ → Wait) (body : Option Text) where
  -- The reason of an error that is returned when there are retries up to number `last`.
  abbrev pub Explains : ℕ → RoundTripError → Type 0
  Explains last (aborting_retries e) = (k : ℕ) × (k < last) × (select k ≡ done e)
  Explains last (sending_failed e) = inner last body ≡ failed e
  Explains last (server_error code) =
      (r : Response) × (inner last body ≡ responded r) × (r.status_code ≡ code) × (500 ≤ code)
  Explains last (client_error code) =
      (m : ℕ) × (r : Response) × (m ≤ last)
      × (inner m body ≡ responded r)
      × (r.status_code ≡ code)
      × (400 ≤ code)
      × (code < 500)
  Explains last (redirect code location) =
      (m : ℕ) × (r : Response) × (m ≤ last)
      × (inner m body ≡ responded r)
      × (r.status_code ≡ code)
      × (r.location ≡ location)
      × (300 ≤ code)
      × (code < 400)

  give_up-Explains :
      (n : ℕ) (a : Attempt) (err : RoundTripError)
      → inner n body ≡ a
      → must_retry a ≡ true
      → (give_up n a).0 ≡ refused err
      → Explains n err
  unfolding give_up
  give_up-Explains n (failed e) err is_a again h =
      let same : sending_failed e ≡ err = cc in subst (Explains n) same is_a
  give_up-Explains n (responded r) err is_a again h =
      let same : server_error r.status_code ≡ err = cc in
      subst (Explains n) same (r, is_a, refl, ground arith)

  classify-Explains :
      (n last : ℕ) (r : Response) (err : RoundTripError)
      → n ≤ last
      → inner n body ≡ responded r
      → r.status_code < 500
      → (classify n r).0 ≡ refused err
      → Explains last err
  unfolding classify
  classify-Explains n last r err fits is_r low h =
      elim (Bool-cases (leb 400 r.status_code && leb r.status_code 499)) [
        | inl client ↦
            let same : client_error r.status_code ≡ err = let h1 = rw client at h in cc in
            subst (Explains last) same (n, r, fits, is_r, refl, ground arith, low)
        | inr other ↦
            let h1 = rw other at h in
            elim (Bool-cases (leb 300 r.status_code && leb r.status_code 399)) [
              | inl moved ↦
                  let same : redirect r.status_code r.location ≡ err =
                    let h2 = rw moved at h1 in cc in
                  subst (Explains last) same
                    (n, r, fits, is_r, refl, refl, ground arith, ground arith)
              | inr good ↦ let h2 = rw good at h1 in cc
            ]
      ]

  finish-Explains :
      (n last : ℕ) (a : Attempt) (err : RoundTripError)
      → n ≤ last
      → inner n body ≡ a
      → must_retry a ≡ false
      → (finish n a).0 ≡ refused err
      → Explains last err
  unfolding finish
  finish-Explains n last (failed e) err fits is_a good h = cc
  finish-Explains n last (responded r) err fits is_a good h =
      classify-Explains n last r err fits is_a (ground arith) h

  retry_loop-Explains :
      (n : ℕ) (backoff : List ℕ) (err : RoundTripError)
      → must_retry (inner n body) ≡ true
      → (retry_loop inner select body n backoff (inner n body)).0 ≡ refused err
      → Explains (n + length backoff) err
  retry_loop-Explains n [] err again h =
      let end : n ≡ n + 0 = omega arith in
      subst (λ last. Explains last err) end
        (give_up-Explains n (inner n body) err refl again (unfold retry_loop in h))
  retry_loop-Explains n (d ∷ ds) err again h = elim (Wait-cases (select n)) [
    | inl (e, ended) ↦
        let stops = sym (loop_done inner select body n d ds (inner n body) e ended) ∙ h in
        let same : aborting_retries e ≡ err = cc in
        subst (Explains (n + suc (length ds))) same (n, omega arith, ended)
    | inr go ↦ elim (Bool-cases (must_retry (inner (suc n) body))) [
      | inl more ↦
          let later : suc n + length ds ≡ n + suc (length ds) = omega arith in
          subst (λ last. Explains last err) later
            (retry_loop-Explains (suc n) ds err more
              (sym (loop_again inner select body n d ds (inner n body) go more) ∙ h))
      | inr good ↦
          finish-Explains (suc n) (n + suc (length ds)) (inner (suc n) body) err (omega arith) refl
            good (sym (loop_good inner select body n d ds (inner n body) go good) ∙ h)
    ]
  ]

  -- Every error that a round trip returns has its reason in what the transport or the context answered. "aborting
  -- retries" carries the context's error of a wait that ended before its timer; "error sending" is the error of the
  -- attempt behind the last wait, and "server error" the status, 500 or above, of the response to that attempt; a
  -- 40x error or a redirect has the status of the response to an attempt, between 400 and 499 or between 300 and
  -- 399, and a redirect the location of that response too.
  pub round_trip-Explains :
      (backoff : List ℕ) (err : RoundTripError)
      → (round_trip inner select body backoff).0 ≡ refused err
      → Explains (length backoff) err
  unfolding round_trip
  round_trip-Explains backoff err h = elim (Bool-cases (must_retry (inner 0 body))) [
    | inl again ↦
        let counted : 0 + length backoff ≡ length backoff = omega arith in
        subst (λ last. Explains last err) counted
          (retry_loop-Explains 0 backoff err again (rw again at h))
    | inr good ↦
        finish-Explains 0 (length backoff) (inner 0 body) err (omega arith) refl good (rw good at h)
  ]
