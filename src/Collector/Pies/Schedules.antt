-- ===== src/Collector/Pies/Schedules.antt =====
-- The schedules of the workers of internal/collector/tdarr.go against the sequential sweep: the pies, the
-- flag and the counters.
use tdarr_exporter.Prelude.{
  ℕ, zero, suc, ◌<◌, ◌≡◌, refl, sym, ap, ◌∙◌, Bool, true, false, ◌||◌, List, [], ◌∷◌, ◌++◌, map,
  some, arith, ◌≢◌,
}
use tdarr_exporter.Models.{TdarrPieDataRequest, TdarrLibraryInfo}
use tdarr_exporter.Collector.Unknown.{UnknownStatusKey, UnknownStatusCounts, count_of}
use tdarr_exporter.Collector.Pies.{Verdict, pie_data_request, Sweep, fetch_pies}
use tdarr_exporter.Collector.Pies.Fan.{
  Worker, idle, busy, sending, exited, Fan, spawn, start, Step, take, drop_library, answer, bump,
  send, leave, gather, Reach, here, next, AllExited, IsFinished,
}
use tdarr_exporter.Collector.Pies.Totals.{
  all_pies, any_flag, all_bumps, held_pies, held_flag, held_bumps, total_pies, total_flag,
  total_bumps, Step-total_flag, Step-total_bumps,
}
use tdarr_exporter.Collector.Pies.Totals.Gathering.{Step-total_pies}
use mathlib.Core.List.{Perm, append-nil}
use mathlib.Core.List.Perm
use tdarr_exporter.Collector.Pies.Sequential.{sweep_from-IsSweepOf}

all_nil {ℓ} :
    {A : Type ℓ} {os hs rs : List A} (ps : List A)
    → os ≡ []
    → hs ≡ []
    → rs ≡ []
    → ps ++ (os ++ (hs ++ rs)) ≡ ps
all_nil ps o h r = rw (o, h, r) (append-nil ps)

abbrev has_exited : {Num : Type 0} → List (Worker Num) → Bool
has_exited [] = false
has_exited (exited ∷ ws) = true
has_exited (_ ∷ ws) = has_exited ws

has_exited-append :
    {Num : Type 0} (ws vs : List (Worker Num))
    → has_exited (ws ++ vs) ≡ (has_exited ws || has_exited vs)
has_exited-append [] vs = refl
has_exited-append (idle ∷ ws) vs = has_exited-append ws vs
has_exited-append (busy _ ∷ ws) vs = has_exited-append ws vs
has_exited-append (sending _ _ ∷ ws) vs = has_exited-append ws vs
has_exited-append (exited ∷ ws) vs = refl

module _ {Num : Type 0} (verdict : TdarrPieDataRequest → Verdict Num) where
  -- The totals along a schedule.
  Reach-total_pies :
      {s t : Fan Num} → Reach verdict s t → Perm (total_pies verdict t) (total_pies verdict s)
  Reach-total_pies here = Perm.refl _
  Reach-total_pies (next r st) = Perm.trans (Step-total_pies verdict st) (Reach-total_pies r)

  Reach-total_flag :
      {s t : Fan Num} → Reach verdict s t → total_flag verdict t ≡ total_flag verdict s
  Reach-total_flag here = refl
  Reach-total_flag (next r st) = Step-total_flag verdict st ∙ Reach-total_flag r

  Reach-total_bumps :
      (key : UnknownStatusKey) {s t : Fan Num}
      → Reach verdict s t
      → total_bumps verdict key t ≡ total_bumps verdict key s
  Reach-total_bumps key here = refl
  Reach-total_bumps key (next r st) = Step-total_bumps verdict key st ∙ Reach-total_bumps key r

  -- The channel is empty once a worker has left, and the workers stay.
  abbrev IsDrained : Fan Num → Type 0
  IsDrained s = (has_exited s.workers ≡ true → s.in_chan ≡ []) × (s.workers ≢ [])

  append-ne-nil : (ws vs : List (Worker Num)) (w : Worker Num) → ws ++ (w ∷ vs) ≢ []
  append-ne-nil [] vs w e = cc
  append-ne-nil (_ ∷ ws) vs w e = cc

  -- What `has_exited` says of the workers, where one that has not left is replaced by another.
  has_exited-replace :
      (s : Fan Num) (before behind : List (Worker Num)) (w w' : Worker Num)
      → s.workers ≡ before ++ (w ∷ behind)
      → has_exited (w ∷ behind) ≡ has_exited (w' ∷ behind)
      → IsDrained s
      → IsDrained (record s { workers = before ++ (w' ∷ behind) })
  has_exited-replace s before behind w w' e same (h, _) = (
    λ left. h (
        ap has_exited e
        ∙ has_exited-append before (w ∷ behind)
        ∙ ap (λ b. has_exited before || b) same
        ∙ sym (has_exited-append before (w' ∷ behind))
        ∙ left),
    append-ne-nil before behind w',
  )

  Step-IsDrained : {s t : Fan Num} → Step verdict s t → IsDrained s → IsDrained t
  Step-IsDrained {s} (take before behind p rest e f) h =
      let (kept, full) = has_exited-replace s before behind idle (busy p) e refl h in
      (λ left. cc (sym f ∙ kept left), full)
  Step-IsDrained {s} (drop_library before behind p e v) h =
      has_exited-replace s before behind (busy p) idle e refl h
  Step-IsDrained {s} (answer before behind p bumps pie e v) h =
      has_exited-replace s before behind (busy p) (sending bumps pie) e refl h
  Step-IsDrained {s} (bump before behind b bumps pie e) h =
      has_exited-replace s before behind (sending (b ∷ bumps) pie) (sending bumps pie) e refl h
  Step-IsDrained {s} (send before behind pie e) h =
      has_exited-replace s before behind (sending [] pie) idle e refl h
  Step-IsDrained {s} (leave before behind e f) h = (λ _. f, append-ne-nil before behind exited)
  Step-IsDrained {s} (gather pie rest e) h = h

  Reach-IsDrained : {s t : Fan Num} → IsDrained s → Reach verdict s t → IsDrained t
  Reach-IsDrained h here = h
  Reach-IsDrained h (next r st) = Step-IsDrained st (Reach-IsDrained h r)

  held_pies-spawn : (n : ℕ) → held_pies verdict (spawn n) ≡ []
  held_pies-spawn zero = refl
  held_pies-spawn (suc n) = held_pies-spawn n

  held_flag-spawn : (n : ℕ) → held_flag verdict (spawn n) ≡ false
  held_flag-spawn zero = refl
  held_flag-spawn (suc n) = held_flag-spawn n

  pub held_bumps-spawn : (key : UnknownStatusKey) (n : ℕ) → held_bumps verdict key (spawn n) ≡ 0
  held_bumps-spawn key zero = refl
  held_bumps-spawn key (suc n) = held_bumps-spawn key n

  has_exited-spawn : (n : ℕ) → has_exited (spawn {Num = Num} n) ≡ false
  has_exited-spawn zero = refl
  has_exited-spawn (suc n) = has_exited-spawn n

  start-IsDrained :
      (n : ℕ) (libs : List TdarrLibraryInfo) (counts : UnknownStatusCounts)
      → 0 < n
      → IsDrained (start n libs counts)
  unfolding start
  start-IsDrained zero libs counts h = absurd (omega arith)
  start-IsDrained (suc n) libs counts h = (λ left. cc (sym (has_exited-spawn n) ∙ left), λ e. cc)

  -- What is held once every worker has left.
  record IsEmptied (ws : List (Worker Num)) : Type 0 where
    no_pies : held_pies verdict ws ≡ []
    no_flag : held_flag verdict ws ≡ false
    no_bumps : (key : UnknownStatusKey) → held_bumps verdict key ws ≡ 0

  AllExited-IsEmptied : (ws : List (Worker Num)) → AllExited ws → IsEmptied ws
  AllExited-IsEmptied [] h = record { no_pies = refl; no_flag = refl; no_bumps = λ key. refl }
  AllExited-IsEmptied (exited ∷ ws) h =
      let r = AllExited-IsEmptied ws h in
      record { no_pies = r.no_pies; no_flag = r.no_flag; no_bumps = r.no_bumps }
  AllExited-IsEmptied (_ ∷ ws) h = absurd h

  AllExited-has_exited : (ws : List (Worker Num)) → AllExited ws → ws ≢ [] → has_exited ws ≡ true
  AllExited-has_exited [] h full = absurd (full refl)
  AllExited-has_exited (exited ∷ ws) h full = refl
  AllExited-has_exited (_ ∷ ws) h full = absurd h

  -- A finished schedule of at least one worker has taken every request.
  pub finished_drained :
      (n : ℕ) (libs : List TdarrLibraryInfo) (counts : UnknownStatusCounts) (t : Fan Num)
      → 0 < n
      → Reach verdict (start n libs counts) t
      → IsFinished t
      → t.in_chan ≡ []
  finished_drained n libs counts t pos r (left, empty) =
      let (drained, full) = Reach-IsDrained (start-IsDrained n libs counts pos) r in
      drained (AllExited-has_exited t.workers left full)

  start_pies :
      (n : ℕ) (libs : List TdarrLibraryInfo)
      → held_pies verdict (spawn n) ++ all_pies verdict (map pie_data_request libs)
        ≡ all_pies verdict (map pie_data_request libs)
  start_pies n libs = rw (held_pies-spawn n)

  -- Whatever the schedule of at least one worker, when all workers have left and the results are
  -- gathered, the pies are those of the sequential sweep in some order, the partial flag is the same,
  -- and so is the counter of every unknown status.
  pub schedule-fetch_pies :
      (max_concurrency : ℕ) (libs : List TdarrLibraryInfo) (counts : UnknownStatusCounts)
      (sweep : Sweep Num) (t : Fan Num)
      → 0 < max_concurrency
      → fetch_pies verdict libs counts ≡ some sweep
      → Reach verdict (start max_concurrency libs counts) t
      → IsFinished t
      → Perm t.pie_data sweep.pie_data
        × (t.partial ≡ sweep.partial)
        × ((key : UnknownStatusKey) → count_of key t.counts ≡ count_of key sweep.counts)
  unfolding fetch_pies start
  schedule-fetch_pies n libs counts sweep t pos e r (left, empty) =
      let none_left = finished_drained n libs counts t pos r (left, empty) in
      let held = AllExited-IsEmptied t.workers left in
      let spec = sweep_from-IsSweepOf verdict (map pie_data_request libs) _ sweep e in
      (
        rw (← all_nil t.pie_data empty held.no_pies (ap (all_pies verdict) none_left))
            (rw (spec.pies, ← start_pies n libs) (Reach-total_pies r)),
        ground (
          arith,
          Reach-total_flag r,
          held.no_flag,
          held_flag-spawn n,
          spec.flagged,
          ap (any_flag verdict) none_left,
        ),
        λ key. omega (
          arith,
          Reach-total_bumps key r,
          held.no_bumps key,
          held_bumps-spawn key n,
          spec.bumped key,
          ap (all_bumps verdict key) none_left,
        ),
      )
