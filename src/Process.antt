-- ===== src/Process.antt =====
-- cmd/exporter/main.go and internal/server/server.go: how the process starts and shuts down. The goroutines of
-- `run` (main itself, the one that waits for a second signal), of `ServeHttp` and of its listener move by the
-- steps of a relation, over the channels between them. The serving of requests is left out.
pub mod Laws
pub mod Progress
pub mod Run
pub mod Registry
pub mod Scrapes
use tdarr_exporter.Prelude.{
  ℕ, suc, ◌+◌, ◌<◌, ◌≡◌, ◌≢◌, Bool, true, false, Option, none, some, List, [], ◌∷◌,
}

-- The signals that `signal.Notify` registers, SIGINT being `os.Interrupt`, and a signal of another type.
pub data Signal : Type 0 where
  sighup : Signal
  sigint : Signal
  sigquit : Signal
  sigterm : Signal
  no_syscall_signal : Signal

unfoldable pub forced_exit_code : Signal → ℕ
forced_exit_code sighup = 128 + 1
forced_exit_code sigint = 128 + 2
forced_exit_code sigquit = 128 + 3
forced_exit_code sigterm = 128 + 15
forced_exit_code no_syscall_signal = 1

-- Where `run` stands: in `awaitShutdown`, and behind it with the exit code that it returned; `exited` is the
-- end of the process, by `run` or by the goroutine that a second signal wakes.
pub data Main : Type 0 where
  awaiting : Main
  cancelling : ℕ → Main
  stopping : ℕ → Main
  waiting : ℕ → Main
  exited : ℕ → Main
  forced : Signal → Main

-- Where `ServeHttp` stands: at `<-stopChan`, in `srv.Shutdown`, behind `wg.Done`.
pub data Server : Type 0 where
  serving : Server
  shutting_down : Server
  done : Server

-- Where the goroutine of `ListenAndServe` stands.
pub data Listener : Type 0 where
  listening : Listener
  ended : Listener

-- `quit` is the signal in the channel `quitServer`, which holds one; `errors` counts what is in `errHttpChan`,
-- which holds two; `cancelled` is whether the scrapes' context is.
pub record State : Type 0 where
  pub main : Main
  pub server : Server
  pub listener : Listener
  pub quit : Option Signal
  pub errors : ℕ
  pub cancelled : Bool

abbrev pub err_chan_capacity : ℕ
err_chan_capacity = 2

abbrev pub start : State
start = record {
  main = awaiting;
  server = serving;
  listener = listening;
  quit = none;
  errors = 0;
  cancelled = false;
}

-- What reaches the process from outside.
pub data External : State → State → Type 0 where
  -- signal.Notify does not block: a signal that finds the channel full is dropped.
  signalled : {s : State} (sig : Signal) → s.quit ≡ none → External s (record s { quit = some sig })
  -- ListenAndServe fails: errChan <- err, once there is room.
  listener_fails :
      {s : State}
      → s.listener ≡ listening
      → s.errors < err_chan_capacity
      → External s (record s { listener = ended; errors = suc s.errors })

-- The exit code of a shutdown that is under way.
abbrev pub pending_code : Main → Option ℕ
pending_code awaiting = none
pending_code (cancelling code) = some code
pending_code (stopping code) = some code
pending_code (waiting code) = some code
pending_code (exited code) = none
pending_code (forced sig) = none

-- The steps that the process takes by itself.
pub data Internal : State → State → Type 0 where
  -- awaitShutdown: case <-quit
  quits :
      {s : State} {sig : Signal}
      → s.main ≡ awaiting
      → s.quit ≡ some sig
      → Internal s (record s { main = cancelling 0; quit = none })
  -- awaitShutdown: case err := <-errCh
  fails :
      {s : State} {n : ℕ}
      → s.main ≡ awaiting
      → s.errors ≡ suc n
      → Internal s (record s { main = cancelling 1; errors = n })
  -- cancelScrapes()
  cancels :
      {s : State} {code : ℕ}
      → s.main ≡ cancelling code
      → Internal s (record s { main = stopping code; cancelled = true })
  -- stopHttpChan <- true meets <-stopChan
  stops :
      {s : State} {code : ℕ}
      → s.main ≡ stopping code
      → s.server ≡ serving
      → Internal s (record s { main = waiting code; server = shutting_down })
  -- srv.Shutdown(ctx) returns nil
  shuts_down : {s : State} → s.server ≡ shutting_down → Internal s (record s { server = done })
  -- srv.Shutdown(ctx) fails: errChan <- err, once there is room
  shutdown_fails :
      {s : State}
      → s.server ≡ shutting_down
      → s.errors < err_chan_capacity
      → Internal s (record s { server = done; errors = suc s.errors })
  -- httpWg.Wait(), and the return of run
  returns :
      {s : State} {code : ℕ}
      → s.main ≡ waiting code
      → s.server ≡ done
      → Internal s (record s { main = exited code })
  -- sig := <-quitServer, and os.Exit(forcedExitCode(sig)), once awaitShutdown has returned
  forces :
      {s : State} {sig : Signal} {code : ℕ}
      → pending_code s.main ≡ some code
      → s.quit ≡ some sig
      → Internal s (record s { main = forced sig; quit = none })
  -- ListenAndServe returns http.ErrServerClosed, which is not sent
  listener_closes :
      {s : State}
      → s.listener ≡ listening
      → s.server ≢ serving
      → Internal s (record s { listener = ended })

pub data Reachable : State → Type 0 where
  initially : Reachable start
  by_external : {s t : State} → Reachable s → External s t → Reachable t
  by_internal : {s t : State} → Reachable s → Internal s t → Reachable t

-- The exit status of the process, once it has ended.
unfoldable pub exit_status : Main → Option ℕ
unfolding forced_exit_code
exit_status (exited code) = some code
exit_status (forced sig) = some (forced_exit_code sig)
exit_status _ = none
