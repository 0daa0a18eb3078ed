-- ===== src/Process/Laws.antt =====
-- What holds of every state of the process (cmd/exporter/main.go, internal/server/server.go).
use tdarr_exporter.Prelude.{
  ℕ, suc, ◌+◌, ◌≤◌, ◌<◌, ◌≡◌, ◌≢◌, ◌⊎◌, inl, inr, refl, sym, ap, ◌∙◌, Bool, true, some, arith,
}
use tdarr_exporter.Process.{
  Signal, sighup, sigint, sigquit, sigterm, no_syscall_signal, forced_exit_code, Main, awaiting,
  cancelling, stopping, waiting, exited, forced, Server, serving, shutting_down, done, Listener,
  listening, ended, State, err_chan_capacity, External, signalled, listener_fails, Internal, quits,
  fails, cancels, stops, shuts_down, shutdown_fails, returns, forces, listener_closes, Reachable,
  initially, by_external, by_internal, exit_status,
}

-- The errors that a goroutine may still send.
abbrev pub owed_by_listener : Listener → ℕ
owed_by_listener listening = 1
owed_by_listener ended = 0

abbrev pub owed_by_server : Server → ℕ
owed_by_server serving = 1
owed_by_server shutting_down = 1
owed_by_server done = 0

abbrev pub HasRoom : State → Type 0
HasRoom s = s.errors + owed_by_listener s.listener + owed_by_server s.server ≤ err_chan_capacity

HasRoom-External : {s t : State} → External s t → HasRoom s → HasRoom t
HasRoom-External (signalled sig q) h = h
HasRoom-External (listener_fails l room) h = omega (arith, rw l at h)

HasRoom-Internal : {s t : State} → Internal s t → HasRoom s → HasRoom t
HasRoom-Internal (quits m q) h = h
HasRoom-Internal (fails m e) h = omega (arith, h, e)
HasRoom-Internal (cancels m) h = h
HasRoom-Internal (stops m v) h = rw v at h
HasRoom-Internal (shuts_down v) h = omega (arith, rw v at h)
HasRoom-Internal (shutdown_fails v room) h = omega (arith, rw v at h)
HasRoom-Internal (returns m v) h = h
HasRoom-Internal (forces p q) h = h
HasRoom-Internal (listener_closes l v) h = omega (arith, rw l at h)

-- The code 0, or the code 1 after a failure of the listener.
abbrev pub IsBlamed : ℕ → Listener → Type 0
IsBlamed code listener = (code ≡ 0) ⊎ ((code ≡ 1) × (listener ≡ ended))

-- What each phase of `run` says of the rest of the process.
abbrev pub Orderly : Main → Server → Listener → ℕ → Bool → Type 0
Orderly awaiting server listener errors cancelled =
    (server ≡ serving) × ((errors ≡ 0) ⊎ (listener ≡ ended))
Orderly (cancelling code) server listener errors cancelled =
    (server ≡ serving) × IsBlamed code listener
Orderly (stopping code) server listener errors cancelled =
    (server ≡ serving) × (cancelled ≡ true) × IsBlamed code listener
Orderly (waiting code) server listener errors cancelled =
    (server ≢ serving) × (cancelled ≡ true) × IsBlamed code listener
Orderly (exited code) server listener errors cancelled =
    (server ≡ done) × (cancelled ≡ true) × IsBlamed code listener
Orderly (forced sig) server listener errors cancelled = Unit

abbrev pub IsOrderly : State → Type 0
IsOrderly s = Orderly s.main s.server s.listener s.errors s.cancelled

IsBlamed-ended : (code : ℕ) (l : Listener) → IsBlamed code l → IsBlamed code ended
IsBlamed-ended code l (inl zero_code) = inl zero_code
IsBlamed-ended code l (inr (one, _)) = inr (one, refl)

-- The end of the listener keeps the order of any phase.
Orderly-ended :
    (m : Main) (v : Server) (l : Listener) (n n' : ℕ) (c : Bool)
    → Orderly m v l n c
    → Orderly m v ended n' c
Orderly-ended awaiting v l n n' c (serves, _) = (serves, inr refl)
Orderly-ended (cancelling code) v l n n' c (serves, b) = (serves, IsBlamed-ended code l b)
Orderly-ended (stopping code) v l n n' c (serves, x, b) = (serves, x, IsBlamed-ended code l b)
Orderly-ended (waiting code) v l n n' c (serves, x, b) = (serves, x, IsBlamed-ended code l b)
Orderly-ended (exited code) v l n n' c (serves, x, b) = (serves, x, IsBlamed-ended code l b)
Orderly-ended (forced sig) v l n n' c h = tt

-- So does the end of a shutdown.
Orderly-done :
    (m : Main) (v : Server) (l : Listener) (n n' : ℕ) (c : Bool)
    → v ≡ shutting_down
    → Orderly m v l n c
    → Orderly m done l n' c
Orderly-done awaiting v l n n' c e (serves, _) = cc (sym serves ∙ e)
Orderly-done (cancelling code) v l n n' c e (serves, b) = cc (sym serves ∙ e)
Orderly-done (stopping code) v l n n' c e (serves, x, b) = cc (sym serves ∙ e)
Orderly-done (waiting code) v l n n' c e (serves, x, b) = (λ d. cc d, x, b)
Orderly-done (exited code) v l n n' c e (serves, x, b) = (refl, x, b)
Orderly-done (forced sig) v l n n' c e h = tt

sent_by_listener :
    (n errors : ℕ) (l : Listener) → errors ≡ suc n → (errors ≡ 0) ⊎ (l ≡ ended) → l ≡ ended
sent_by_listener n errors l some_error (inl no_error) = absurd (omega arith)
sent_by_listener n errors l some_error (inr e) = e

IsOrderly-External : {s t : State} → External s t → IsOrderly s → IsOrderly t
IsOrderly-External (signalled sig q) h = h
IsOrderly-External (listener_fails l room) h = Orderly-ended _ _ _ _ _ _ h

IsOrderly-Internal : {s t : State} → Internal s t → IsOrderly s → IsOrderly t
IsOrderly-Internal (quits m q) h = ((rw m at h).0, inl refl)
IsOrderly-Internal (fails m e) h =
    ((rw m at h).0, inr (refl, sent_by_listener _ _ _ e (rw m at h).1))
IsOrderly-Internal (cancels m) h = ((rw m at h).0, refl, (rw m at h).1)
IsOrderly-Internal (stops m v) h = (λ d. cc d, (rw m at h).1, (rw m at h).2)
IsOrderly-Internal (shuts_down v) h = Orderly-done _ _ _ _ _ _ v h
IsOrderly-Internal (shutdown_fails v room) h = Orderly-done _ _ _ _ _ _ v h
IsOrderly-Internal (returns m v) h = (v, (rw m at h).1, (rw m at h).2)
IsOrderly-Internal (forces p q) h = tt
IsOrderly-Internal (listener_closes l v) h = Orderly-ended _ _ _ _ _ _ h

-- In every state that the process can reach, its error channel has room for each error that may still be sent, so
-- that no goroutine blocks on it. Behind `awaitShutdown` its code is 0, or 1 after the listener failed;
-- the scrapes are cancelled before the server is stopped, and the process ends by itself only once the server is.
pub reachable_lem : {s : State} → Reachable s → HasRoom s × IsOrderly s
reachable_lem initially = (omega arith, (refl, inl refl))
reachable_lem (by_external r step) =
    let (room, orderly) = reachable_lem r in
    (HasRoom-External step room, IsOrderly-External step orderly)
reachable_lem (by_internal r step) =
    let (room, orderly) = reachable_lem r in
    (HasRoom-Internal step room, IsOrderly-Internal step orderly)

forced_exit_code_nonzero : (sig : Signal) → 0 < forced_exit_code sig
unfolding forced_exit_code
forced_exit_code_nonzero sighup = omega arith
forced_exit_code_nonzero sigint = omega arith
forced_exit_code_nonzero sigquit = omega arith
forced_exit_code_nonzero sigterm = omega arith
forced_exit_code_nonzero no_syscall_signal = omega arith

pub some_nat_injective : (m n : ℕ) → some m ≡ some n → m ≡ n
some_nat_injective m n h = cc h

graceful :
    (m : Main) (v : Server) (l : Listener) (n : ℕ) (c : Bool)
    → exit_status m ≡ some 0
    → Orderly m v l n c
    → (m ≡ exited 0) × (v ≡ done) × (c ≡ true)
unfolding exit_status
graceful awaiting v l n c e h = cc e
graceful (cancelling code) v l n c e h = cc e
graceful (stopping code) v l n c e h = cc e
graceful (waiting code) v l n c e h = cc e
graceful (exited code) v l n c e (stopped, cancelled, b) =
    (ap exited (some_nat_injective code 0 e), stopped, cancelled)
graceful (forced sig) v l n c e h =
    let nonzero = forced_exit_code_nonzero sig in
    let is_zero : forced_exit_code sig ≡ 0 = some_nat_injective (forced_exit_code sig) 0 e in
    absurd (omega (arith, nonzero, is_zero))

-- A process that ends with status 0 has shut down gracefully: no second signal forced it, the scrapes
-- were cancelled and the server had stopped.
exit_status_zero :
    {s : State}
    → Reachable s
    → exit_status s.main ≡ some 0
    → (s.main ≡ exited 0) × (s.server ≡ done) × (s.cancelled ≡ true)
exit_status_zero {s} r e =
    graceful s.main s.server s.listener s.errors s.cancelled e (reachable_lem r).1
