-- ===== src/Collector/Pies/Totals.antt =====
-- The totals of the fan-out of internal/collector/tdarr.go: the pies that are gathered or still to come, the
-- flag that is raised or still to come, and the calls of `bumpUnknownStatus` made or still to come.
pub mod Gathering
use tdarr_exporter.Prelude.{
  ℕ, ◌+◌, ◌≡◌, refl, sym, ap, ◌∙◌, Bool, true, false, ◌||◌, List, [], ◌∷◌, ◌++◌, arith, ◌==◌, ◌&&◌,
  if◌then◌else◌,
}
use tdarr_exporter.GoText.{Text_eq}
use tdarr_exporter.Models.{TdarrPieDataRequest, TdarrPieStats}
use tdarr_exporter.Collector.Unknown.{UnknownStatusKey, count_of}
use tdarr_exporter.Collector.Unknown.Laws.{count_of-bump}
use tdarr_exporter.Collector.Pies.{Bump, Verdict, dropped, produced, crashed}
use tdarr_exporter.Collector.Pies.Fan.{
  Worker, idle, busy, sending, exited, Fan, Step, take, drop_library, answer, bump, send, leave,
  gather,
}
use mathlib.Core.List.{Perm, append_assoc, perm_append_comm}
use mathlib.Core.List.Perm

-- The pie that a verdict sends, whether it flags the sweep, and how often it bumps a key.
abbrev pub pies_of : {Num : Type 0} → Verdict Num → List (TdarrPieStats Num)
pies_of dropped = []
pies_of (produced _ pie) = pie ∷ []
pies_of crashed = []

abbrev pub flags : {Num : Type 0} → Verdict Num → Bool
flags dropped = true
flags (produced _ _) = false
flags crashed = false

abbrev pub bumps_of : UnknownStatusKey → List Bump → ℕ
bumps_of key [] = 0
bumps_of key ((kind, status) ∷ bumps) =
    (if kind == key.kind && status == key.status then 1 else 0) + bumps_of key bumps

abbrev pub bumps_in : {Num : Type 0} → UnknownStatusKey → Verdict Num → ℕ
bumps_in key dropped = 0
bumps_in key (produced bumps _) = bumps_of key bumps
bumps_in key crashed = 0

module _ {Num : Type 0} (verdict : TdarrPieDataRequest → Verdict Num) where
  -- The same, summed over the requests.
  abbrev pub all_pies : List TdarrPieDataRequest → List (TdarrPieStats Num)
  all_pies [] = []
  all_pies (p ∷ ps) = pies_of (verdict p) ++ all_pies ps

  abbrev pub any_flag : List TdarrPieDataRequest → Bool
  any_flag [] = false
  any_flag (p ∷ ps) = flags (verdict p) || any_flag ps

  abbrev pub all_bumps : UnknownStatusKey → List TdarrPieDataRequest → ℕ
  all_bumps key [] = 0
  all_bumps key (p ∷ ps) = bumps_in key (verdict p) + all_bumps key ps

  -- What the workers have in hand.
  abbrev pub held_pies : List (Worker Num) → List (TdarrPieStats Num)
  held_pies [] = []
  held_pies (idle ∷ ws) = held_pies ws
  held_pies (busy p ∷ ws) = pies_of (verdict p) ++ held_pies ws
  held_pies (sending _ pie ∷ ws) = pie ∷ held_pies ws
  held_pies (exited ∷ ws) = held_pies ws

  abbrev pub held_flag : List (Worker Num) → Bool
  held_flag [] = false
  held_flag (busy p ∷ ws) = flags (verdict p) || held_flag ws
  held_flag (_ ∷ ws) = held_flag ws

  abbrev pub held_bumps : UnknownStatusKey → List (Worker Num) → ℕ
  held_bumps key [] = 0
  held_bumps key (idle ∷ ws) = held_bumps key ws
  held_bumps key (busy p ∷ ws) = bumps_in key (verdict p) + held_bumps key ws
  held_bumps key (sending bumps _ ∷ ws) = bumps_of key bumps + held_bumps key ws
  held_bumps key (exited ∷ ws) = held_bumps key ws

  -- Everything that the sweep has gathered or has still to gather.
  abbrev pub total_pies : Fan Num → List (TdarrPieStats Num)
  total_pies s = s.pie_data ++ (s.out_chan ++ (held_pies s.workers ++ all_pies s.in_chan))

  abbrev pub total_flag : Fan Num → Bool
  total_flag s = s.partial || (held_flag s.workers || any_flag s.in_chan)

  abbrev pub total_bumps : UnknownStatusKey → Fan Num → ℕ
  total_bumps key s = count_of key s.counts + held_bumps key s.workers + all_bumps key s.in_chan

  pub held_bumps-append :
      (key : UnknownStatusKey) (ws vs : List (Worker Num))
      → held_bumps key (ws ++ vs) ≡ held_bumps key ws + held_bumps key vs
  held_bumps-append key [] vs = omega arith
  held_bumps-append key (idle ∷ ws) vs = held_bumps-append key ws vs
  held_bumps-append key (busy p ∷ ws) vs = omega (arith, held_bumps-append key ws vs)
  held_bumps-append key (sending _ _ ∷ ws) vs = omega (arith, held_bumps-append key ws vs)
  held_bumps-append key (exited ∷ ws) vs = held_bumps-append key ws vs

  pub held_flag-append :
      (ws vs : List (Worker Num)) → held_flag (ws ++ vs) ≡ (held_flag ws || held_flag vs)
  held_flag-append [] vs = refl
  held_flag-append (idle ∷ ws) vs = held_flag-append ws vs
  held_flag-append (busy p ∷ ws) vs = ground (arith, held_flag-append ws vs)
  held_flag-append (sending _ _ ∷ ws) vs = held_flag-append ws vs
  held_flag-append (exited ∷ ws) vs = held_flag-append ws vs

  pub held_pies-append :
      (ws vs : List (Worker Num)) → held_pies (ws ++ vs) ≡ held_pies ws ++ held_pies vs
  held_pies-append [] vs = refl
  held_pies-append (idle ∷ ws) vs = held_pies-append ws vs
  held_pies-append (busy p ∷ ws) vs = simp (held_pies-append ws vs, append_assoc)
  held_pies-append (sending _ pie ∷ ws) vs = ap (λ l. pie ∷ l) (held_pies-append ws vs)
  held_pies-append (exited ∷ ws) vs = held_pies-append ws vs

  pub Step-total_bumps :
      (key : UnknownStatusKey) {s t : Fan Num}
      → Step verdict s t
      → total_bumps key t ≡ total_bumps key s
  Step-total_bumps key {s} (take before behind p rest e f) = omega (
    arith,
    ap (held_bumps key) e,
    held_bumps-append key before (idle ∷ behind),
    held_bumps-append key before (busy p ∷ behind),
    ap (all_bumps key) f,
  )
  Step-total_bumps key {s} (drop_library before behind p e v) = omega (
    arith,
    ap (held_bumps key) e,
    held_bumps-append key before (busy p ∷ behind),
    held_bumps-append key before (idle ∷ behind),
    ap (bumps_in key) v,
  )
  Step-total_bumps key {s} (answer before behind p bumps pie e v) = omega (
    arith,
    ap (held_bumps key) e,
    held_bumps-append key before (busy p ∷ behind),
    held_bumps-append key before (sending bumps pie ∷ behind),
    ap (bumps_in key) v,
  )
  Step-total_bumps key {s} (bump before behind b bumps pie e) = omega (
    arith,
    ap (held_bumps key) e,
    held_bumps-append key before (sending (b ∷ bumps) pie ∷ behind),
    held_bumps-append key before (sending bumps pie ∷ behind),
    count_of-bump key b.0 b.1 s.counts,
  )
  Step-total_bumps key {s} (send before behind pie e) = omega (
    arith,
    ap (held_bumps key) e,
    held_bumps-append key before (sending [] pie ∷ behind),
    held_bumps-append key before (idle ∷ behind),
  )
  Step-total_bumps key {s} (leave before behind e f) = omega (
    arith,
    ap (held_bumps key) e,
    held_bumps-append key before (idle ∷ behind),
    held_bumps-append key before (exited ∷ behind),
  )
  Step-total_bumps key {s} (gather pie rest e) = refl

  pub Step-total_flag : {s t : Fan Num} → Step verdict s t → total_flag t ≡ total_flag s
  Step-total_flag {s} (take before behind p rest e f) = ground (
    arith,
    ap held_flag e,
    held_flag-append before (idle ∷ behind),
    held_flag-append before (busy p ∷ behind),
    ap any_flag f,
  )
  Step-total_flag {s} (drop_library before behind p e v) = ground (
    arith,
    ap held_flag e,
    held_flag-append before (busy p ∷ behind),
    held_flag-append before (idle ∷ behind),
    ap flags v,
  )
  Step-total_flag {s} (answer before behind p bumps pie e v) = ground (
    arith,
    ap held_flag e,
    held_flag-append before (busy p ∷ behind),
    held_flag-append before (sending bumps pie ∷ behind),
    ap flags v,
  )
  Step-total_flag {s} (bump before behind b bumps pie e) = ground (
    arith,
    ap held_flag e,
    held_flag-append before (sending (b ∷ bumps) pie ∷ behind),
    held_flag-append before (sending bumps pie ∷ behind),
  )
  Step-total_flag {s} (send before behind pie e) = ground (
    arith,
    ap held_flag e,
    held_flag-append before (sending [] pie ∷ behind),
    held_flag-append before (idle ∷ behind),
  )
  Step-total_flag {s} (leave before behind e f) = ground (
    arith,
    ap held_flag e,
    held_flag-append before (idle ∷ behind),
    held_flag-append before (exited ∷ behind),
  )
  Step-total_flag {s} (gather pie rest e) = refl
