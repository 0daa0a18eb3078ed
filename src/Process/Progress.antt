-- ===== src/Process/Progress.antt =====
-- That the process (cmd/exporter/main.go, internal/server/server.go) comes to its end once `awaitShutdown` has returned.
use tdarr_exporter.Prelude.{ℕ, suc, ◌+◌, ◌≤◌, ◌<◌, ◌≡◌, ◌≢◌, refl, ap, ◌∙◌, true, some, arith}
use tdarr_exporter.Process.{
  Main, awaiting, cancelling, stopping, waiting, exited, forced, Server, serving, shutting_down,
  done, Listener, listening, ended, State, Internal, quits, fails, cancels, stops, shuts_down,
  shutdown_fails, returns, forces, listener_closes, pending_code, Reachable,
}
use tdarr_exporter.Process.Laws.{Orderly, some_nat_injective, reachable_lem}

-- Steps that the process takes by itself, counted.
pub data Runs : ℕ → State → State → Type 0 where
  stays : {s : State} → Runs 0 s s
  then_runs : {n : ℕ} {s t u : State} → Internal s t → Runs n t u → Runs (suc n) s u

abbrev main_work : Main → ℕ
main_work awaiting = 4
main_work (cancelling code) = 3
main_work (stopping code) = 2
main_work (waiting code) = 1
main_work (exited code) = 0
main_work (forced sig) = 0

abbrev server_work : Server → ℕ
server_work serving = 2
server_work shutting_down = 1
server_work done = 0

abbrev listener_work : Listener → ℕ
listener_work listening = 1
listener_work ended = 0

abbrev pub work : State → ℕ
work s = main_work s.main + server_work s.server + listener_work s.listener

pending_work : (m : Main) (code : ℕ) → pending_code m ≡ some code → 0 < main_work m
pending_work awaiting code h = cc h
pending_work (cancelling c) code h = omega arith
pending_work (stopping c) code h = omega arith
pending_work (waiting c) code h = omega arith
pending_work (exited c) code h = cc h
pending_work (forced sig) code h = cc h

work-Internal : {s t : State} → Internal s t → work t < work s
work-Internal (quits m q) = rw m (omega arith)
work-Internal (fails m e) = rw m (omega arith)
work-Internal (cancels m) = rw m (omega arith)
work-Internal (stops m v) = rw (m, v) (omega arith)
work-Internal (shuts_down v) = rw v (omega arith)
work-Internal (shutdown_fails v room) = rw v (omega arith)
work-Internal (returns m v) = rw m (omega arith)
work-Internal (forces p q) = omega (arith, pending_work _ _ p)
work-Internal (listener_closes l v) = rw l (omega arith)

Runs-le_work : {n : ℕ} {s t : State} → Runs n s t → n ≤ work s
Runs-le_work stays = omega arith
Runs-le_work (then_runs step run) = omega (arith, work-Internal step, Runs-le_work run)

server_work_bound : (v : Server) → server_work v ≤ 2
server_work_bound serving = omega arith
server_work_bound shutting_down = omega arith
server_work_bound done = omega arith

listener_work_bound : (l : Listener) → listener_work l ≤ 1
listener_work_bound listening = omega arith
listener_work_bound ended = omega arith

main_work_bound : (m : Main) → main_work m ≤ 4
main_work_bound awaiting = omega arith
main_work_bound (cancelling c) = omega arith
main_work_bound (stopping c) = omega arith
main_work_bound (waiting c) = omega arith
main_work_bound (exited c) = omega arith
main_work_bound (forced sig) = omega arith

-- Whatever order the goroutines move in, the process takes at most seven steps by itself from any state,
-- until it is at rest or something reaches it from outside.
pub Runs-le_seven : {n : ℕ} {s t : State} → Runs n s t → n ≤ 7
Runs-le_seven {n} {s} run = omega (
  arith,
  Runs-le_work run,
  main_work_bound s.main,
  server_work_bound s.server,
  listener_work_bound s.listener,
)

-- A run by itself to the end with a code.
abbrev pub Finishes : State → ℕ → Type 0
Finishes s code = (n : ℕ) × (t : State) × Runs n s t × (t.main ≡ exited code)

and_Finishes : {s t : State} (code : ℕ) → Internal s t → Finishes t code → Finishes s code
and_Finishes code step (n, u, run, e) = (suc n, u, then_runs step run, e)

waiting-Finishes :
    (s : State) (code : ℕ) (v : Server)
    → s.main ≡ waiting code
    → s.server ≡ v
    → v ≢ serving
    → Finishes s code
waiting-Finishes s code serving m e stopped = absurd (stopped refl)
waiting-Finishes s code shutting_down m e stopped = and_Finishes code (shuts_down e) (
    and_Finishes code (returns m refl)
      (0, record s { server = done; main = exited code }, stays, refl))
waiting-Finishes s code done m e stopped =
    and_Finishes code (returns m e) (0, record s { main = exited code }, stays, refl)

stopping-Finishes :
    (s : State) (code : ℕ) → s.main ≡ stopping code → s.server ≡ serving → Finishes s code
stopping-Finishes s code m e = and_Finishes code (stops m e) (
    waiting-Finishes (record s { main = waiting code; server = shutting_down }) code shutting_down
      refl refl (λ d. cc d))

cancelling-Finishes :
    (s : State) (code : ℕ) → s.main ≡ cancelling code → s.server ≡ serving → Finishes s code
cancelling-Finishes s code m e =
    and_Finishes code (cancels m)
      (stopping-Finishes (record s { main = stopping code; cancelled = true }) code refl e)

pending-Finishes :
    (s : State) (code : ℕ) (m : Main)
    → s.main ≡ m
    → pending_code m ≡ some code
    → Orderly m s.server s.listener s.errors s.cancelled
    → Finishes s code
pending-Finishes s code awaiting e h o = cc h
pending-Finishes s code (cancelling c) e h o =
    cancelling-Finishes s code (e ∙ ap cancelling (some_nat_injective c code h)) o.0
pending-Finishes s code (stopping c) e h o =
    stopping-Finishes s code (e ∙ ap stopping (some_nat_injective c code h)) o.0
pending-Finishes s code (waiting c) e h o =
    waiting-Finishes s code s.server (e ∙ ap waiting (some_nat_injective c code h)) refl o.0
pending-Finishes s code (exited c) e h o = cc h
pending-Finishes s code (forced sig) e h o = cc h

-- Once `awaitShutdown` has returned, the process can end with the code that it returned, by its own steps and
-- without a further signal: no reachable state of the shutdown is a deadlock.
pub run-Finishes :
    {s : State} (code : ℕ) → Reachable s → pending_code s.main ≡ some code → Finishes s code
run-Finishes {s} code r h = pending-Finishes s code s.main refl h (reachable_lem r).1
