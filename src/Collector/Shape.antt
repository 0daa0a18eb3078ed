-- ===== src/Collector/Shape.antt =====
-- The shape of a metric of internal/collector/tdarr.go against what `Describe` lists: whether its
-- descriptor is one of the list, whether it has a value for every variable label, and whether it is the
-- sample of `tdarr_up`.
pub mod General
pub mod Libraries
pub mod Nodes
use tdarr_exporter.Prelude.{
  ℕ, zero, suc, ◌≡◌, refl, sym, ◌∙◌, String, Bool, true, false, List, [], ◌∷◌, Option, none, some,
  length, All,
}
use tdarr_exporter.GoText.{Text}
use tdarr_exporter.Metrics.{Desc, TypedDesc, new_gauge, new_counter, Metric, must_new_const_metric}
use tdarr_exporter.Nodes.Descs.{new_tdarr_node_metrics}
use tdarr_exporter.Collector.Descs.{new_collector_metrics, describe}
use text.Mathlib.Text.{◌==◌ as str_eq}

abbrev pub nth {ℓ} : {A : Type ℓ} → ℕ → List A → Option A
nth n [] = none
nth zero (x ∷ xs) = some x
nth (suc n) (x ∷ xs) = nth n xs

abbrev pub is_up : Desc → Bool
is_up d = str_eq d.name "up"

-- What `Describe` of the collector of this instance sends.
abbrev pub described : Text → List Desc
described instance_name =
    describe (new_collector_metrics instance_name) (new_tdarr_node_metrics instance_name)

pub record IsDescribed (instance_name : Text) {Num : Type 0} (m : Metric Num) : Type 0 where
  pub index : ℕ
  pub listed : nth index (described instance_name) ≡ some m.desc
  pub arity : length m.label_values ≡ length m.desc.var_labels

-- A metric of `collect`.
abbrev pub IsSample : Text → {Num : Type 0} → Metric Num → Type 0
IsSample instance_name m = IsDescribed instance_name m × (is_up m.desc ≡ false)

-- A descriptor of the list, other than that of `tdarr_up`, with `n` variable labels.
pub record IsListed (instance_name : Text) (n : ℕ) (d : TypedDesc) : Type 0 where
  pub place : ℕ
  pub found : nth place (described instance_name) ≡ some d.desc
  pub labels : length d.desc.var_labels ≡ n
  pub other : is_up d.desc ≡ false

pub must_new_const_metric-IsSample :
    {instance_name : Text} {n : ℕ} {d : TypedDesc}
    → IsListed instance_name n d
    → {Num : Type 0} (value : Num) (label_values : List Text) → length label_values ≡ n
    → IsSample instance_name (must_new_const_metric d value label_values)
unfolding must_new_const_metric
must_new_const_metric-IsSample l value label_values e =
    (record { index = l.place; listed = l.found; arity = e ∙ sym l.labels }, l.other)

-- The same at a place of the list.
pub sample :
    {instance_name : Text} (place : ℕ) (d : TypedDesc) {Num : Type 0} (value : Num)
    (label_values : List Text)
    → nth place (described instance_name) ≡ some d.desc
    → length label_values ≡ length d.desc.var_labels
    → is_up d.desc ≡ false
    → IsSample instance_name (must_new_const_metric d value label_values)
sample place d value label_values found arity other =
    must_new_const_metric-IsSample
      (record { place = place; found = found; labels = refl; other = other }) value label_values
      arity
