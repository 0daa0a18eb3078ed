-- ===== src/Client/Transport/Laws.antt =====
-- What a round trip of internal/client/transport.go does to the outside: connections, bodies and the number of attempts.
use tdarr_exporter.Prelude.{ℕ, suc, ◌+◌, ◌≤◌, ◌≡◌, refl, List, [], ◌∷◌, ◌++◌, Option, arith, length}
use tdarr_exporter.GoText.{Text}
use tdarr_exporter.Client.Transport.{
  Attempt, failed, responded, Wait, Event, sent, drained, waiting, Outcome, returned, refused,
  finish, retry_loop, round_trip,
}

-- The attempts whose response was drained and closed, in order.
abbrev pub closed : List Event → List ℕ
closed [] = []
closed (sent _ _ ∷ es) = closed es
closed (drained n ∷ es) = n ∷ closed es
closed (waiting _ ∷ es) = closed es

-- The attempts that were made, in order.
abbrev pub attempts : List Event → List ℕ
attempts [] = []
attempts (sent n _ ∷ es) = n ∷ attempts es
attempts (drained _ ∷ es) = attempts es
attempts (waiting _ ∷ es) = attempts es

-- The response that the caller is handed, and has to close.
abbrev pub handed : Outcome → List ℕ
handed (returned n _) = n ∷ []
handed (refused _) = []

-- Every request that was sent had this body.
abbrev pub Carries : Option Text → List Event → Type 0
Carries body [] = Unit
Carries body (sent _ b ∷ es) = (b ≡ body) × Carries body es
Carries body (drained _ ∷ es) = Carries body es
Carries body (waiting _ ∷ es) = Carries body es

-- The list n, n + 1, n + 2, …
abbrev pub IsCounting : ℕ → List ℕ → Type 0
IsCounting n [] = Unit
IsCounting n (m ∷ ms) = (m ≡ n) × IsCounting (suc n) ms

module _ (inner : ℕ → Option Text → Attempt) (select : ℕ → Wait) (body : Option Text) where
  -- The attempt's number, if it returned a response.
  abbrev pub response_of : ℕ → Attempt → List ℕ
  response_of n (failed _) = []
  response_of n (responded _) = n ∷ []

  -- The attempts that returned a response, in order.
  abbrev pub received : List Event → List ℕ
  received [] = []
  received (sent n b ∷ es) = response_of n (inner n b) ++ received es
  received (drained _ ∷ es) = received es
  received (waiting _ ∷ es) = received es

  finish-closed :
      (n : ℕ) (a : Attempt)
      → response_of n a ++ received (finish n a).1 ≡ closed (finish n a).1 ++ handed (finish n a).0
  unfolding finish
  finish-closed n (failed e) = refl
  finish-closed n (responded r) = ground arith

  retry_loop-closed :
      (n : ℕ) (backoff : List ℕ) (last : Attempt)
      → response_of n last ++ received (retry_loop inner select body n backoff last).1
        ≡ closed (retry_loop inner select body n backoff last).1
          ++ handed (retry_loop inner select body n backoff last).0
  unfolding retry_loop
  retry_loop-closed n [] (failed e) = refl
  retry_loop-closed n [] (responded r) = refl
  retry_loop-closed n (d ∷ ds) (failed e) = ground (
    arith,
    retry_loop-closed (suc n) ds (inner (suc n) body),
    finish-closed (suc n) (inner (suc n) body),
  )
  retry_loop-closed n (d ∷ ds) (responded r) = ground (
    arith,
    retry_loop-closed (suc n) ds (inner (suc n) body),
    finish-closed (suc n) (inner (suc n) body),
  )

  -- No connection leaks and none is closed twice: the attempts that returned a response are, in their
  -- order, those whose body was drained and closed, and behind them the one that is handed to the
  -- caller, if one is.
  pub round_trip-closed :
      (backoff : List ℕ)
      → received (round_trip inner select body backoff).1
        ≡ closed (round_trip inner select body backoff).1
          ++ handed (round_trip inner select body backoff).0
  unfolding round_trip
  round_trip-closed backoff =
      ground (arith, retry_loop-closed 0 backoff (inner 0 body), finish-closed 0 (inner 0 body))

  IsCounting-finish : (n : ℕ) (a : Attempt) → attempts (finish n a).1 ≡ []
  unfolding finish
  IsCounting-finish n (failed e) = refl
  IsCounting-finish n (responded r) = ground arith

  Carries-finish : (n : ℕ) (a : Attempt) → Carries body (finish n a).1
  unfolding finish
  Carries-finish n (failed e) = tt
  Carries-finish n (responded r) = ground arith

  -- What is left to prove of the loop, after the events of the attempt before.
  abbrev IsReplay : ℕ → List ℕ → List Event → Type 0
  IsReplay n backoff es =
      IsCounting n (attempts es) × (length (attempts es) ≤ length backoff) × Carries body es

  retry_loop-IsReplay :
      (n : ℕ) (backoff : List ℕ) (last : Attempt)
      → IsReplay (suc n) backoff (retry_loop inner select body n backoff last).1
  unfolding retry_loop
  retry_loop-IsReplay n [] (failed e) = (tt, omega arith, tt)
  retry_loop-IsReplay n [] (responded r) = (tt, omega arith, tt)
  retry_loop-IsReplay n (d ∷ ds) (failed e) = ground (
    arith,
    retry_loop-IsReplay (suc n) ds (inner (suc n) body),
    IsCounting-finish (suc n) (inner (suc n) body),
    Carries-finish (suc n) (inner (suc n) body),
  )
  retry_loop-IsReplay n (d ∷ ds) (responded r) = ground (
    arith,
    retry_loop-IsReplay (suc n) ds (inner (suc n) body),
    IsCounting-finish (suc n) (inner (suc n) body),
    Carries-finish (suc n) (inner (suc n) body),
  )

  -- The attempts are numbered 0, 1, 2, … with none left out, there is at most one more than there are
  -- backoff waits, and each of them sends the body that was read before the first.
  pub round_trip-attempts :
      (backoff : List ℕ)
      → let es = (round_trip inner select body backoff).1 in
        IsCounting 0 (attempts es) × (length (attempts es) ≤ length backoff + 1) × Carries body es
  unfolding round_trip
  round_trip-attempts backoff = ground (
    arith,
    retry_loop-IsReplay 0 backoff (inner 0 body),
    IsCounting-finish 0 (inner 0 body),
    Carries-finish 0 (inner 0 body),
  )
