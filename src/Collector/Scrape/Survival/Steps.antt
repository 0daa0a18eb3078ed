-- ===== src/Collector/Scrape/Survival/Steps.antt =====
-- The steps of a scrape of internal/collector/tdarr.go that do not end the process.
use tdarr_exporter.Prelude.{List}
use tdarr_exporter.Metrics.{Metric}
use tdarr_exporter.Collector.Api.{Result, ok, error, panic}
use tdarr_exporter.Collector.Scrape.{
  Scrape, Flow, go, stop, unwind, crash, M, continue, ◌>>=◌, ◌>>◌, call, send, return,
}

-- A step that does not end the process.
abbrev pub IsAlive : {A : Type 0} → Flow A → Type 0
IsAlive crash = ⊥
IsAlive _ = Unit

module _ {Num : Type 0} where
  pub record Survives {A : Type 0} (m : M Num A) : Type 0 where
    pub survives : (s : Scrape Num) → IsAlive (m s).0

  continue-IsAlive :
      {A B : Type 0} (r : Flow A × Scrape Num) (k : A → M Num B)
      → IsAlive r.0
      → ((a : A) → Survives (k a))
      → IsAlive (continue r k).0
  continue-IsAlive (go a, s) k h ih = (ih a).survives s
  continue-IsAlive (stop e, s) k h ih = tt
  continue-IsAlive (unwind, s) k h ih = tt
  continue-IsAlive (crash, s) k h ih = h

  pub bind-Survives :
      {A B : Type 0} (m : M Num A) (k : A → M Num B)
      → Survives m
      → ((a : A) → Survives (k a))
      → Survives (m >>= k)
  bind-Survives m k h ih = record { survives = λ s. continue-IsAlive (m s) k (h.survives s) ih }

  pub then-Survives :
      {B : Type 0} (m : M Num (Unit {0})) (k : M Num B)
      → Survives m
      → Survives k
      → Survives (m >> k)
  then-Survives m k h ih = record {
    survives = λ s. continue-IsAlive (m s) (λ _. k) (h.survives s) (λ _. ih);
  }

  call-IsAlive : {A : Type 0} (r : Result A) (s : Scrape Num) → IsAlive (call r s).0
  unfolding call
  call-IsAlive (ok a) s = tt
  call-IsAlive (error e) s = tt
  call-IsAlive panic s = tt

  pub call-Survives : {A : Type 0} (r : Result A) → Survives (call r)
  call-Survives r = record { survives = call-IsAlive r }

  pub send-Survives : (ms : List (Metric Num)) → Survives (send ms)
  unfolding send
  send-Survives ms = record { survives = λ s. tt }

  pub return-Survives : {A : Type 0} (a : A) → Survives (return a)
  unfolding return
  return-Survives a = record { survives = λ s. tt }
