-- ===== src/Client/Transport/Outcomes.antt =====
-- Which outcome a round trip of internal/client/transport.go has, in terms of what the transport and the waits answer.
use tdarr_exporter.Prelude.{
  ℕ, zero, suc, ◌≤◌, ◌<◌, ◌≡◌, refl, sym, ◌∙◌, true, false, List, [], ◌∷◌, Option, arith, length,
  drop, drop-eq-cons, leb, Bool-cases, inl, inr, ◌⊎◌,
}
use tdarr_exporter.GoText.{Text}
use tdarr_exporter.Client.Transport.{
  Response, Attempt, failed, responded, Wait, done, fired, returned, refused, aborting_retries,
  must_retry, give_up, classify, finish, retry_loop, round_trip,
}

pub Wait-cases : (w : Wait) → ((e : Text) × (w ≡ done e)) ⊎ (w ≡ fired)
Wait-cases (done e) = inl (e, refl)
Wait-cases fired = inr refl

module _ (inner : ℕ → Option Text → Attempt) (select : ℕ → Wait) (body : Option Text) where
  finish-returned :
      (n m : ℕ) (a : Attempt) (r : Response)
      → (finish n a).0 ≡ returned m r
      → (n ≡ m) × (a ≡ responded r) × (r.status_code < 300 ⊎ 500 ≤ r.status_code)
  unfolding finish
  finish-returned n m (failed e) r h = cc
  finish-returned n m (responded r') r h = ground arith

  finish-responded :
      (n : ℕ) {a : Attempt} {r : Response} → a ≡ responded r → (finish n a).0 ≡ (classify n r).0
  unfolding finish
  finish-responded n e = rw e

  finish-returned_good :
      (n m : ℕ) (r : Response)
      → must_retry (inner n body) ≡ false
      → (finish n (inner n body)).0 ≡ returned m r
      → (inner m body ≡ responded r) × (r.status_code < 300)
  finish-returned_good n m r good h =
      let (same, eq, range) = finish-returned n m (inner n body) r h in
      (rw (← same) eq, ground arith)

  give_up-returned : (n m : ℕ) (a : Attempt) (r : Response) → (give_up n a).0 ≡ returned m r → ⊥
  unfolding give_up
  give_up-returned n m (failed e) r h = cc
  give_up-returned n m (responded r') r h = cc

  -- The outcome of the loop, one round at a time.
  module _ (n d : ℕ) (ds : List ℕ) (last : Attempt) where
    pub loop_done :
        (e : Text)
        → select n ≡ done e
        → (retry_loop inner select body n (d ∷ ds) last).0 ≡ refused (aborting_retries e)
    unfolding retry_loop
    loop_done e h = ground arith

    pub loop_again :
        select n ≡ fired
        → must_retry (inner (suc n) body) ≡ true
        → (retry_loop inner select body n (d ∷ ds) last).0
          ≡ (retry_loop inner select body (suc n) ds (inner (suc n) body)).0
    unfolding retry_loop
    loop_again h k = ground arith

    pub loop_good :
        select n ≡ fired
        → must_retry (inner (suc n) body) ≡ false
        → (retry_loop inner select body n (d ∷ ds) last).0 ≡ (finish (suc n) (inner (suc n) body)).0
    unfolding retry_loop
    loop_good h k = ground arith

  retry_loop-returned :
      (n m : ℕ) (backoff : List ℕ) (last : Attempt) (r : Response)
      → (retry_loop inner select body n backoff last).0 ≡ returned m r
      → (inner m body ≡ responded r) × (r.status_code < 300)
  retry_loop-returned n m [] last r h =
      absurd (give_up-returned n m last r (unfold retry_loop in h))
  retry_loop-returned n m (d ∷ ds) last r h = elim (Wait-cases (select n)) [
    | inl (e, aborted) ↦ cc (loop_done n d ds last e aborted)
    | inr go ↦ elim (Bool-cases (must_retry (inner (suc n) body))) [
      | inl again ↦
          retry_loop-returned (suc n) m ds (inner (suc n) body) r
            (sym (loop_again n d ds last go again) ∙ h)
      | inr good ↦ finish-returned_good (suc n) m r good (sym (loop_good n d ds last go good) ∙ h)
    ]
  ]

  -- The round trip of the caller's request returns only what the wrapped transport responded to the
  -- attempt of that number, and only a status below 300: a 3xx, 4xx or 5xx status is always an error.
  pub round_trip-returned :
      (backoff : List ℕ) (m : ℕ) (r : Response)
      → (round_trip inner select body backoff).0 ≡ returned m r
      → (inner m body ≡ responded r) × (r.status_code < 300)
  unfolding round_trip
  round_trip-returned backoff m r h = elim (Bool-cases (must_retry (inner 0 body))) [
    | inl again ↦ retry_loop-returned 0 m backoff (inner 0 body) r (rw again at h)
    | inr good ↦ finish-returned_good 0 m r good (rw good at h)
  ]

  -- The attempts below `m` all fail; the waits below `m` all end by their timer.
  abbrev pub FailsBelow : ℕ → Type 0
  FailsBelow m = (i : ℕ) → i < m → must_retry (inner i body) ≡ true

  abbrev pub FiresBelow : ℕ → Type 0
  FiresBelow m = (i : ℕ) → i < m → select i ≡ fired

  retry_loop-skips :
      (backoff : List ℕ) (k : ℕ)
      → k ≤ length backoff
      → FailsBelow (suc k)
      → FiresBelow k
      → (retry_loop inner select body 0 backoff (inner 0 body)).0
        ≡ (retry_loop inner select body k (drop k backoff) (inner k body)).0
  retry_loop-skips backoff zero fits fails fires = refl
  retry_loop-skips backoff (suc k) fits fails fires =
      let (d, e) = drop-eq-cons k backoff fits in
      retry_loop-skips backoff k (omega arith) (λ i h. fails i (omega arith))
        (λ i h. fires i (omega arith))
      ∙ rw e (
          loop_again k d (drop (suc k) backoff) (inner k body) (fires k (omega arith))
            (fails (suc k) (omega arith)))

  round_trip-loop :
      (backoff : List ℕ)
      → must_retry (inner 0 body) ≡ true
      → (round_trip inner select body backoff).0
        ≡ (retry_loop inner select body 0 backoff (inner 0 body)).0
  unfolding round_trip
  round_trip-loop backoff h = rw h

  -- Where the attempts before number `k` all fail, their waits run out and attempt `k` gets a response
  -- below 500, the outcome is the classification of that response, as if it were the first.
  pub round_trip-recovers :
      (backoff : List ℕ) (k : ℕ) (r : Response)
      → k ≤ length backoff
      → FailsBelow k
      → FiresBelow k
      → inner k body ≡ responded r
      → r.status_code < 500
      → (round_trip inner select body backoff).0 ≡ (classify k r).0
  unfolding round_trip finish
  round_trip-recovers backoff zero r fits fails fires e ok =
      rw e (let good : leb 500 r.status_code ≡ false = ground arith in rw good (rw e))
  round_trip-recovers backoff (suc k) r fits fails fires e ok =
      let (d, same) = drop-eq-cons k backoff fits in
      round_trip-loop backoff (fails 0 (omega arith))
      ∙ retry_loop-skips backoff k (omega arith) fails (λ i h. fires i (omega arith))
      ∙ rw same (
          loop_good k d (drop (suc k) backoff) (inner k body) (fires k (omega arith))
            (rw e (ground arith)))
      ∙ finish-responded (suc k) e

  -- Where the attempts up to number `k` fail and the request's context ends during the wait behind
  -- the last of them, the retries are aborted with the context's error.
  pub round_trip_aborted :
      (backoff : List ℕ) (k : ℕ) (e : Text)
      → k < length backoff
      → FailsBelow (suc k)
      → FiresBelow k
      → select k ≡ done e
      → (round_trip inner select body backoff).0 ≡ refused (aborting_retries e)
  round_trip_aborted backoff k e fits fails fires stop =
      let (d, same) = drop-eq-cons k backoff fits in
      round_trip-loop backoff (fails 0 (omega arith))
      ∙ retry_loop-skips backoff k (omega arith) fails fires
      ∙ rw same (loop_done k d (drop (suc k) backoff) (inner k body) e stop)
