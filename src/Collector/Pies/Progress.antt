-- ===== src/Collector/Pies/Progress.antt =====
-- The end of the sweep of internal/collector/tdarr.go: the work that its workers and its drain have before
-- them, and the steps that they can take.
use tdarr_exporter.Prelude.{
  ℕ, zero, suc, ◌+◌, ◌≤◌, ◌<◌, ◌≡◌, refl, ap, List, [], ◌∷◌, ◌++◌, ◌⊎◌, inl, inr, ◌≢◌, arith,
  length, length-append,
}
use tdarr_exporter.Models.{TdarrPieDataRequest, TdarrPieStats}
use tdarr_exporter.Collector.Pies.{Bump, Verdict, dropped, produced, crashed}
use tdarr_exporter.Collector.Pies.Fan.{
  Worker, idle, busy, sending, exited, Fan, Step, take, drop_library, answer, bump, send, leave,
  gather, Reach, here, next, AllExited, IsFinished,
}

-- A worker that has not left, with the workers around it.
data IsActive {Num : Type 0} : Worker Num → Type 0 where
  is_idle : IsActive idle
  is_busy : (p : TdarrPieDataRequest) → IsActive (busy p)
  is_sending : (bumps : List Bump) (pie : TdarrPieStats Num) → IsActive (sending bumps pie)

record Active {Num : Type 0} (ws : List (Worker Num)) : Type 0 where
  before : List (Worker Num)
  worker : Worker Num
  behind : List (Worker Num)
  split : ws ≡ before ++ (worker ∷ behind)
  active : IsActive worker

behind_exited :
    {Num : Type 0} (w : Worker Num) {ws : List (Worker Num)}
    → AllExited ws ⊎ Active ws
    → AllExited ws ⊎ Active (w ∷ ws)
behind_exited w (inl h) = inl h
behind_exited w (inr a) = inr (record {
  before = w ∷ a.before;
  worker = a.worker;
  behind = a.behind;
  split = ap (λ l. w ∷ l) a.split;
  active = a.active;
})

at_head : {Num : Type 0} {w : Worker Num} {ws : List (Worker Num)} → IsActive w → Active (w ∷ ws)
at_head {w} {ws} h = record { before = []; worker = w; behind = ws; split = refl; active = h }

find-Active : {Num : Type 0} (ws : List (Worker Num)) → AllExited ws ⊎ Active ws
find-Active [] = inl tt
find-Active (exited ∷ ws) = behind_exited exited (find-Active ws)
find-Active (idle ∷ ws) = inr (at_head is_idle)
find-Active (busy p ∷ ws) = inr (at_head (is_busy p))
find-Active (sending bumps pie ∷ ws) = inr (at_head (is_sending bumps pie))

module _ {Num : Type 0} (verdict : TdarrPieDataRequest → Verdict Num) where
  abbrev bumps_left : Verdict Num → ℕ
  bumps_left dropped = 0
  bumps_left (produced bumps _) = length bumps
  bumps_left crashed = 0

  -- How many steps are left at most.
  abbrev requests_work : List TdarrPieDataRequest → ℕ
  requests_work [] = 0
  requests_work (p ∷ ps) = 4 + bumps_left (verdict p) + requests_work ps

  abbrev workers_work : List (Worker Num) → ℕ
  workers_work [] = 0
  workers_work (idle ∷ ws) = 1 + workers_work ws
  workers_work (busy p ∷ ws) = 4 + bumps_left (verdict p) + workers_work ws
  workers_work (sending bumps _ ∷ ws) = 3 + length bumps + workers_work ws
  workers_work (exited ∷ ws) = workers_work ws

  abbrev pub work : Fan Num → ℕ
  work s = requests_work s.in_chan + workers_work s.workers + length s.out_chan

  workers_work-append :
      (ws vs : List (Worker Num)) → workers_work (ws ++ vs) ≡ workers_work ws + workers_work vs
  workers_work-append [] vs = omega arith
  workers_work-append (idle ∷ ws) vs = omega (arith, workers_work-append ws vs)
  workers_work-append (busy p ∷ ws) vs = omega (arith, workers_work-append ws vs)
  workers_work-append (sending _ _ ∷ ws) vs = omega (arith, workers_work-append ws vs)
  workers_work-append (exited ∷ ws) vs = workers_work-append ws vs

  pub Step-work_lt : {s t : Fan Num} → Step verdict s t → work t < work s
  Step-work_lt {s} (take before behind p rest e f) = omega (
    arith,
    ap workers_work e,
    workers_work-append before (idle ∷ behind),
    workers_work-append before (busy p ∷ behind),
    ap requests_work f,
  )
  Step-work_lt {s} (drop_library before behind p e v) = omega (
    arith,
    ap workers_work e,
    workers_work-append before (busy p ∷ behind),
    workers_work-append before (idle ∷ behind),
    ap bumps_left v,
  )
  Step-work_lt {s} (answer before behind p bumps pie e v) = omega (
    arith,
    ap workers_work e,
    workers_work-append before (busy p ∷ behind),
    workers_work-append before (sending bumps pie ∷ behind),
    ap bumps_left v,
  )
  Step-work_lt {s} (bump before behind b bumps pie e) = omega (
    arith,
    ap workers_work e,
    workers_work-append before (sending (b ∷ bumps) pie ∷ behind),
    workers_work-append before (sending bumps pie ∷ behind),
  )
  Step-work_lt {s} (send before behind pie e) = omega (
    arith,
    ap workers_work e,
    workers_work-append before (sending [] pie ∷ behind),
    workers_work-append before (idle ∷ behind),
    length-append s.out_chan (pie ∷ []),
  )
  Step-work_lt {s} (leave before behind e f) = omega (
    arith,
    ap workers_work e,
    workers_work-append before (idle ∷ behind),
    workers_work-append before (exited ∷ behind),
  )
  Step-work_lt {s} (gather pie rest e) = omega (arith, ap length e)

  abbrev pub steps : {s t : Fan Num} → Reach verdict s t → ℕ
  steps here = 0
  steps (next r _) = suc (steps r)

  -- No schedule makes more steps than the work that its first state has before it.
  pub steps-le_work : {s t : Fan Num} (r : Reach verdict s t) → steps r + work t ≤ work s
  steps-le_work here = omega arith
  steps-le_work (next r st) = omega (arith, steps-le_work r, Step-work_lt st)

  module _ (safe : (p : TdarrPieDataRequest) → verdict p ≢ crashed) where
    busy_step :
        (s : Fan Num) (before behind : List (Worker Num)) (p : TdarrPieDataRequest)
        (v : Verdict Num)
        → s.workers ≡ before ++ (busy p ∷ behind)
        → verdict p ≡ v
        → (t : Fan Num) × Step verdict s t
    busy_step s before behind p dropped e h = (_, drop_library before behind p e h)
    busy_step s before behind p (produced bumps pie) e h = (_, answer before behind p bumps pie e h)
    busy_step s before behind p crashed e h = absurd (safe p h)

    idle_step :
        (s : Fan Num) (before behind : List (Worker Num)) (ps : List TdarrPieDataRequest)
        → s.workers ≡ before ++ (idle ∷ behind)
        → s.in_chan ≡ ps
        → (t : Fan Num) × Step verdict s t
    idle_step s before behind [] e f = (_, leave before behind e f)
    idle_step s before behind (p ∷ ps) e f = (_, take before behind p ps e f)

    active_step :
        (s : Fan Num) (before behind : List (Worker Num)) (w : Worker Num)
        → IsActive w
        → s.workers ≡ before ++ (w ∷ behind)
        → (t : Fan Num) × Step verdict s t
    active_step s before behind idle h e = idle_step s before behind s.in_chan e refl
    active_step s before behind (busy p) h e = busy_step s before behind p (verdict p) e refl
    active_step s before behind (sending [] pie) h e = (_, send before behind pie e)
    active_step s before behind (sending (b ∷ bs) pie) h e = (_, bump before behind b bs pie e)
    active_step s before behind exited h e = elim h [ ]

    gather_step :
        (s : Fan Num) (out : List (TdarrPieStats Num))
        → AllExited s.workers
        → s.out_chan ≡ out
        → IsFinished s ⊎ ((t : Fan Num) × Step verdict s t)
    gather_step s [] h e = inl (h, e)
    gather_step s (pie ∷ rest) h e = inr (_, gather pie rest e)

    -- A sweep that is not finished can go on.
    pub progress : (s : Fan Num) → IsFinished s ⊎ ((t : Fan Num) × Step verdict s t)
    progress s = elim (find-Active s.workers) [
      | inl h ↦ gather_step s s.out_chan h refl
      | inr a ↦ inr (active_step s a.before a.behind a.worker a.active a.split)
    ]

    finish_within :
        (fuel : ℕ) {s t : Fan Num}
        → work t < fuel
        → Reach verdict s t
        → (u : Fan Num) × Reach verdict s u × IsFinished u
    finish_within zero h r = absurd (omega arith)
    finish_within (suc fuel) {t} h r = elim (progress t) [
      | inl done ↦ (t, r, done)
      | inr (u, st) ↦ finish_within fuel (omega (arith, Step-work_lt st)) (next r st)
    ]

    -- Where no worker panics, every state of the fan-out has a schedule after which every worker has
    -- left and every result is gathered.
    pub sweep_finishes : (s : Fan Num) → (t : Fan Num) × Reach verdict s t × IsFinished t
    sweep_finishes s = finish_within (suc (work s)) (omega arith) here
