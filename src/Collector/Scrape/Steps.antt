-- ===== src/Collector/Scrape/Steps.antt =====
-- The steps of `collect` of internal/collector/tdarr.go, one at a time: what each adds to the channel and
-- how the cache stays, through every error and panic.
use tdarr_exporter.Prelude.{
  ◌≡◌, refl, sym, ap, ◌∙◌, Bool, true, false, List, [], ◌++◌, All, All-append,
}
use tdarr_exporter.GoText.{Text}
use tdarr_exporter.Models.{TdarrLibraryInfo, TdarrPieStats}
use tdarr_exporter.Metrics.{Metric}
use tdarr_exporter.Collector.Api.{Result, ok, error, panic}
use tdarr_exporter.Collector.Shape.{IsSample}
use tdarr_exporter.Collector.Scrape.{
  Scrape, Flow, go, stop, unwind, crash, M, continue, ◌>>=◌, ◌>>◌, call, send, return,
}
use tdarr_exporter.Collector.Scrape.Libraries.{Gathered, IsFaithful}
use mathlib.Core.List.{append_assoc, append-nil}
use mathlib.Core.Path.{subst}

-- Behind a step, the channel has samples more than before.
pub record HasSent (instance_name : Text) {Num : Type 0} (s s' : Scrape Num) : Type 0 where
  pub samples : List (Metric Num)
  pub sent : s'.ch ≡ s.ch ++ samples
  pub shaped : All (IsSample instance_name) samples

module _ (instance_name : Text) {Num : Type 0} where
  pub HasSent-refl : (s s' : Scrape Num) → s'.ch ≡ s.ch → HasSent instance_name s s'
  HasSent-refl s s' e = record { samples = []; sent = e ∙ sym (append-nil s.ch); shaped = tt }

  pub HasSent-trans :
      (s s' s'' : Scrape Num)
      → HasSent instance_name s s'
      → HasSent instance_name s' s''
      → HasSent instance_name s s''
  HasSent-trans s s' s'' h k = record {
    samples = h.samples ++ k.samples;
    sent = k.sent ∙ ap (λ l. l ++ k.samples) h.sent ∙ append_assoc s.ch h.samples k.samples;
    shaped = All-append (IsSample instance_name) h.samples k.samples h.shaped k.shaped;
  }

  -- What each step of `collect` ensures, unless the process crashes.
  abbrev pub IsSound : {A : Type 0} → Scrape Num → Flow A × Scrape Num → Type 0
  IsSound s (go _, s') = HasSent instance_name s s' × IsFaithful s'.stats_cache
  IsSound s (stop _, s') = HasSent instance_name s s' × IsFaithful s'.stats_cache
  IsSound s (unwind, s') = HasSent instance_name s s' × IsFaithful s'.stats_cache
  IsSound s (crash, s') = Unit

  pub IsSound-trans :
      {A : Type 0} (s s' : Scrape Num) (r : Flow A × Scrape Num)
      → HasSent instance_name s s'
      → IsSound s' r
      → IsSound s r
  IsSound-trans s s' (go _, s'') h (k, f) = (HasSent-trans s s' s'' h k, f)
  IsSound-trans s s' (stop _, s'') h (k, f) = (HasSent-trans s s' s'' h k, f)
  IsSound-trans s s' (unwind, s'') h (k, f) = (HasSent-trans s s' s'' h k, f)
  IsSound-trans s s' (crash, s'') h k = tt

  pub continue-IsSound :
      {A B : Type 0} (s : Scrape Num) (r : Flow A × Scrape Num) (k : A → M Num B)
      → IsSound s r
      → ((a : A) (s' : Scrape Num) → IsFaithful s'.stats_cache → IsSound s' (k a s'))
      → IsSound s (continue r k)
  continue-IsSound s (go a, s') k (h, f) ih = IsSound-trans s s' (k a s') h (ih a s' f)
  continue-IsSound s (stop _, s') k h ih = h
  continue-IsSound s (unwind, s') k h ih = h
  continue-IsSound s (crash, s') k h ih = tt

  -- A step that is sound wherever it starts.
  pub record IsSafe {A : Type 0} (m : M Num A) : Type 0 where
    pub sound : (s : Scrape Num) → IsFaithful s.stats_cache → IsSound s (m s)

  pub bind-IsSafe :
      {A B : Type 0} {m : M Num A} {k : A → M Num B}
      → IsSafe m
      → ((a : A) → IsSafe (k a))
      → IsSafe (m >>= k)
  bind-IsSafe {m} {k} h ih = record {
    sound = λ s f. continue-IsSound s (m s) k (h.sound s f) (λ a s' f'. (ih a).sound s' f');
  }

  pub then-IsSafe :
      {B : Type 0} {m : M Num (Unit {0})} {k : M Num B} → IsSafe m → IsSafe k → IsSafe (m >> k)
  then-IsSafe {m} {k} h ih = record {
    sound = λ s f. continue-IsSound s (m s) (λ _. k) (h.sound s f) (λ _ s' f'. ih.sound s' f');
  }

  pub call-IsSound :
      {A : Type 0} (r : Result A) (s : Scrape Num) → IsFaithful s.stats_cache → IsSound s (call r s)
  unfolding call
  call-IsSound (ok a) s f = (HasSent-refl s s refl, f)
  call-IsSound (error e) s f = (HasSent-refl s s refl, f)
  call-IsSound panic s f = (HasSent-refl s s refl, f)

  pub call-IsSafe : {A : Type 0} (r : Result A) → IsSafe (call r)
  call-IsSafe r = record { sound = call-IsSound r }

  pub send-IsSafe : (ms : List (Metric Num)) → All (IsSample instance_name) ms → IsSafe (send ms)
  unfolding send
  send-IsSafe ms h = record { sound = λ s f. (record { samples = ms; sent = refl; shaped = h }, f) }

  pub return-IsSafe : {A : Type 0} (a : A) → IsSafe (return a)
  unfolding return
  return-IsSafe a = record { sound = λ s f. (HasSent-refl s s refl, f) }

  pub Gathered-IsSound :
      (all_libs : List TdarrLibraryInfo) (s : Scrape Num)
      (r : Flow (List (TdarrPieStats Num) × Bool) × Scrape Num)
      → Gathered all_libs s r
      → r.1.ch ≡ s.ch
      → IsFaithful s.stats_cache
      → IsSound s r
  Gathered-IsSound all_libs s (go (pies, false), s') (_, f') e f = (HasSent-refl s s' e, f')
  Gathered-IsSound all_libs s (go (pies, true), s') g e f =
      (HasSent-refl s s' e, subst IsFaithful (sym g) f)
  Gathered-IsSound all_libs s (stop _, s') g e f = (HasSent-refl s s' e, subst IsFaithful (sym g) f)
  Gathered-IsSound all_libs s (unwind, s') g e f = (HasSent-refl s s' e, subst IsFaithful (sym g) f)
  Gathered-IsSound all_libs s (crash, s') g e f = tt
