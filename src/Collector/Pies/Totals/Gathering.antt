-- ===== src/Collector/Pies/Totals/Gathering.antt =====
-- The pies of the fan-out of internal/collector/tdarr.go over its steps, up to their order.
use tdarr_exporter.Prelude.{◌≡◌, refl, sym, ap, ◌∙◌, List, [], ◌∷◌, ◌++◌}
use tdarr_exporter.GoText.{Text_eq}
use tdarr_exporter.Models.{TdarrPieDataRequest, TdarrPieStats}
use tdarr_exporter.Collector.Pies.{Verdict}
use tdarr_exporter.Collector.Pies.Fan.{
  Worker, idle, busy, sending, exited, Fan, Step, take, drop_library, answer, bump, send, leave,
  gather,
}
use mathlib.Core.List.{Perm, append_assoc, perm_append_comm}
use mathlib.Core.List.Perm
use tdarr_exporter.Collector.Pies.Totals.{
  pies_of, all_pies, held_pies, total_pies, held_pies-append,
}

module _ {ℓ} {A : Type ℓ} where
  Perm_of_eq : {xs ys : List A} → xs ≡ ys → Perm xs ys
  Perm_of_eq {xs} e = rw (← e) (Perm.refl xs)

  perm_swap : (xs ys zs : List A) → Perm (xs ++ (ys ++ zs)) (ys ++ (xs ++ zs))
  perm_swap xs ys zs =
      rw (← append_assoc xs ys zs)
        (rw (← append_assoc ys xs zs) (Perm.append_right zs (perm_append_comm xs ys)))

  perm_shift : (hs ps ks rs : List A) → Perm ((hs ++ (ps ++ ks)) ++ rs) ((hs ++ ks) ++ (ps ++ rs))
  perm_shift hs ps ks rs = simp append_assoc (Perm.append_left hs (perm_swap ps ks rs))

module _ {Num : Type 0} (verdict : TdarrPieDataRequest → Verdict Num) where
  held_pies-replace :
      (before behind : List (Worker Num)) (w w' : Worker Num)
      → held_pies verdict (w ∷ behind) ≡ held_pies verdict (w' ∷ behind)
      → held_pies verdict (before ++ (w ∷ behind)) ≡ held_pies verdict (before ++ (w' ∷ behind))
  held_pies-replace before behind w w' h =
      held_pies-append verdict before (w ∷ behind)
      ∙ ap (λ l. held_pies verdict before ++ l) h
      ∙ sym (held_pies-append verdict before (w' ∷ behind))

  -- A step that leaves all that is held leaves the total.
  total_pies-keep :
      (s : Fan Num) (ws : List (Worker Num))
      → held_pies verdict ws ≡ held_pies verdict s.workers
      → Perm (total_pies verdict (record s { workers = ws })) (total_pies verdict s)
  total_pies-keep s ws h =
      Perm_of_eq (ap (λ l. s.pie_data ++ (s.out_chan ++ (l ++ all_pies verdict s.in_chan))) h)

  total_pies-take :
      (s : Fan Num) (before behind : List (Worker Num)) (p : TdarrPieDataRequest)
      (rest : List TdarrPieDataRequest)
      → s.workers ≡ before ++ (idle ∷ behind)
      → s.in_chan ≡ p ∷ rest
      → Perm
          (held_pies verdict (before ++ (busy p ∷ behind)) ++ all_pies verdict rest)
          (held_pies verdict s.workers ++ all_pies verdict s.in_chan)
  total_pies-take s before behind p rest e f =
      rw
        (
          ap (held_pies verdict) e,
          ap (all_pies verdict) f,
          held_pies-append verdict before (busy p ∷ behind),
          held_pies-append verdict before (idle ∷ behind),
        )
        (perm_shift (held_pies verdict before) (pies_of (verdict p)) (held_pies verdict behind)
          (all_pies verdict rest))

  total_pies-send :
      (s : Fan Num) (before behind : List (Worker Num)) (pie : TdarrPieStats Num)
      → s.workers ≡ before ++ (sending [] pie ∷ behind)
      → Perm
          ((s.out_chan ++ pie ∷ [])
            ++ (held_pies verdict (before ++ (idle ∷ behind)) ++ all_pies verdict s.in_chan))
          (s.out_chan ++ (held_pies verdict s.workers ++ all_pies verdict s.in_chan))
  total_pies-send s before behind pie e =
      rw
        (
          ap (held_pies verdict) e,
          held_pies-append verdict before (sending [] pie ∷ behind),
          held_pies-append verdict before (idle ∷ behind),
        )
        (simp append_assoc (
          Perm.append_left s.out_chan (
            perm_swap (pie ∷ []) (held_pies verdict before)
              (held_pies verdict behind ++ all_pies verdict s.in_chan))))

  pub Step-total_pies :
      {s t : Fan Num} → Step verdict s t → Perm (total_pies verdict t) (total_pies verdict s)
  Step-total_pies {s} (take before behind p rest e f) =
      Perm.append_left s.pie_data
        (Perm.append_left s.out_chan (total_pies-take s before behind p rest e f))
  Step-total_pies {s} (drop_library before behind p e v) =
      total_pies-keep s (before ++ (idle ∷ behind))
        (held_pies-replace before behind idle (busy p) (rw v refl) ∙ sym (ap (held_pies verdict) e))
  Step-total_pies {s} (answer before behind p bumps pie e v) =
      total_pies-keep s (before ++ (sending bumps pie ∷ behind)) (
        held_pies-replace before behind (sending bumps pie) (busy p) (rw v refl)
        ∙ sym (ap (held_pies verdict) e))
  Step-total_pies {s} (bump before behind b bumps pie e) =
      total_pies-keep s (before ++ (sending bumps pie ∷ behind)) (
        held_pies-replace before behind (sending bumps pie) (sending (b ∷ bumps) pie) refl
        ∙ sym (ap (held_pies verdict) e))
  Step-total_pies {s} (send before behind pie e) =
      Perm.append_left s.pie_data (total_pies-send s before behind pie e)
  Step-total_pies {s} (leave before behind e f) =
      total_pies-keep s (before ++ (exited ∷ behind))
        (held_pies-replace before behind exited idle refl ∙ sym (ap (held_pies verdict) e))
  Step-total_pies {s} (gather pie rest e) =
      let held = held_pies verdict s.workers ++ all_pies verdict s.in_chan in
      Perm_of_eq (
        append_assoc s.pie_data (pie ∷ []) (rest ++ held)
        ∙ ap (λ l. s.pie_data ++ (l ++ held)) (sym e))
