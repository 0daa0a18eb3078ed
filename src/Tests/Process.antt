-- ===== src/Tests/Process.antt =====
-- Runs of the process (cmd/exporter/main.go, internal/server/server.go) from its start to its end.
use tdarr_exporter.Prelude.{refl, true}
use tdarr_exporter.Process.{
  sigterm, sigint, waiting, exited, forced, shutting_down, done, State, start, signalled, quits,
  cancels, stops, shuts_down, returns, forces, Reachable, initially, by_external, by_internal,
}
use tdarr_exporter.Process.Laws.{HasRoom, IsOrderly, reachable_lem}
use tdarr_exporter.Process.Progress.{Runs, stays, then_runs, Finishes, run-Finishes}

-- SIGTERM has come, and main waits for the server to shut down.
abbrev stopped : State
stopped = record start { main = waiting 0; server = shutting_down; cancelled = true }

stopped-Reachable : Reachable stopped
stopped-Reachable =
    by_internal
      (by_internal (by_internal (by_external initially (signalled sigterm refl)) (quits refl refl))
        (cancels refl))
      (stops refl refl)

-- The server has shut down, and the process ends with status 0.
abbrev ended_well : State
ended_well = record start { main = exited 0; server = done; cancelled = true }

ended_well-Reachable : Reachable ended_well
ended_well-Reachable =
    by_internal (by_internal stopped-Reachable (shuts_down refl)) (returns refl refl)

reachable_lem_example : HasRoom stopped × IsOrderly stopped
reachable_lem_example = reachable_lem stopped-Reachable

run-Finishes_example : Finishes stopped 0
run-Finishes_example = run-Finishes 0 stopped-Reachable refl

last_steps : Runs 2 stopped ended_well
last_steps = then_runs (shuts_down refl) (then_runs (returns refl refl) stays)

-- A second signal while the server shuts down.
forced_by_sigint : Reachable (record stopped { main = forced sigint })
forced_by_sigint =
    by_internal (by_external stopped-Reachable (signalled sigint refl)) (forces refl refl)
