-- ===== src/Collector/Pies/Fan.antt =====
-- The fan-out of `fetchPies` of internal/collector/tdarr.go: `maxConcurrency` workers that run
-- `getLibStats` over a shared closed channel, and the drain that gathers their results. A step is what
-- one goroutine does between two points where the scheduler may switch: take a request, get its
-- answer, make one call of `bumpUnknownStatus`, send a pie, leave the loop, or gather a pie. The
-- channel `outChan` has room for every library, so that a send never waits.
use tdarr_exporter.Prelude.{ℕ, zero, suc, ◌≡◌, Bool, true, false, List, [], ◌∷◌, ◌++◌, map}
use tdarr_exporter.Models.{TdarrPieDataRequest, TdarrLibraryInfo, TdarrPieStats}
use tdarr_exporter.Collector.Unknown.{UnknownStatusCounts, bump_unknown_status}
use tdarr_exporter.Collector.Pies.{Bump, Verdict, dropped, produced, pie_data_request}

-- A worker waits at the channel, has taken a request, has its bumps and its pie before it, or has
-- left the loop.
pub data Worker (Num : Type 0) : Type 0 where
  idle : Worker Num
  busy : TdarrPieDataRequest → Worker Num
  sending : List Bump → TdarrPieStats Num → Worker Num
  exited : Worker Num

pub record Fan (Num : Type 0) : Type 0 where
  pub in_chan : List TdarrPieDataRequest
  pub workers : List (Worker Num)
  pub out_chan : List (TdarrPieStats Num)
  pub pie_data : List (TdarrPieStats Num)
  pub partial : Bool
  pub counts : UnknownStatusCounts

abbrev pub spawn : {Num : Type 0} → ℕ → List (Worker Num)
spawn zero = []
spawn (suc n) = idle ∷ spawn n

unfoldable pub start : {Num : Type 0} → ℕ → List TdarrLibraryInfo → UnknownStatusCounts → Fan Num
unfolding pie_data_request
start max_concurrency all_libs counts = record {
  in_chan = map pie_data_request all_libs;
  workers = spawn max_concurrency;
  out_chan = [];
  pie_data = [];
  partial = false;
  counts = counts;
}

-- `before` and `behind` are the other workers.
pub data Step {Num : Type 0} (verdict : TdarrPieDataRequest → Verdict Num) (s : Fan Num)
    : Fan Num → Type 0 where
  take :
      (before behind : List (Worker Num)) (payload : TdarrPieDataRequest)
      (rest : List TdarrPieDataRequest)
      → s.workers ≡ before ++ (idle ∷ behind)
      → s.in_chan ≡ payload ∷ rest
      → Step verdict s (record s { in_chan = rest; workers = before ++ (busy payload ∷ behind) })
  drop_library :
      (before behind : List (Worker Num)) (payload : TdarrPieDataRequest)
      → s.workers ≡ before ++ (busy payload ∷ behind)
      → verdict payload ≡ dropped
      → Step verdict s (record s { workers = before ++ (idle ∷ behind); partial = true })
  answer :
      (before behind : List (Worker Num)) (payload : TdarrPieDataRequest) (bumps : List Bump)
      (pie : TdarrPieStats Num)
      → s.workers ≡ before ++ (busy payload ∷ behind)
      → verdict payload ≡ produced bumps pie
      → Step verdict s (record s { workers = before ++ (sending bumps pie ∷ behind) })
  bump :
      (before behind : List (Worker Num)) (b : Bump) (bumps : List Bump) (pie : TdarrPieStats Num)
      → s.workers ≡ before ++ (sending (b ∷ bumps) pie ∷ behind)
      → Step verdict s (record s {
        workers = before ++ (sending bumps pie ∷ behind);
        counts = bump_unknown_status b.0 b.1 s.counts;
      })
  send :
      (before behind : List (Worker Num)) (pie : TdarrPieStats Num)
      → s.workers ≡ before ++ (sending [] pie ∷ behind)
      → Step verdict s
          (record s { workers = before ++ (idle ∷ behind); out_chan = s.out_chan ++ pie ∷ [] })
  leave :
      (before behind : List (Worker Num))
      → s.workers ≡ before ++ (idle ∷ behind)
      → s.in_chan ≡ []
      → Step verdict s (record s { workers = before ++ (exited ∷ behind) })
  gather :
      (pie : TdarrPieStats Num) (rest : List (TdarrPieStats Num))
      → s.out_chan ≡ pie ∷ rest
      → Step verdict s (record s { out_chan = rest; pie_data = s.pie_data ++ pie ∷ [] })

-- The schedules from `s`.
pub data Reach {Num : Type 0} (verdict : TdarrPieDataRequest → Verdict Num) (s : Fan Num)
    : Fan Num → Type 0 where
  here : Reach verdict s s
  next : {t u : Fan Num} → Reach verdict s t → Step verdict t u → Reach verdict s u

abbrev pub AllExited : {Num : Type 0} → List (Worker Num) → Type 0
AllExited [] = Unit
AllExited (exited ∷ ws) = AllExited ws
AllExited (_ ∷ ws) = ⊥

-- `dataWg` is done, `outChan` is closed and empty, `resultWg` is done.
abbrev pub IsFinished : {Num : Type 0} → Fan Num → Type 0
IsFinished s = AllExited s.workers × (s.out_chan ≡ [])
