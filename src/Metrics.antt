-- ===== src/Metrics.antt =====
-- The metrics of internal/collector/tdarr.go: `typedDesc` with `newGauge`, `newCounter`, `buildDesc` and
-- `mustNewConstMetric`, and the float64 values that they carry. A descriptor holds what is handed to
-- `prometheus.NewDesc`, less the help text; a metric holds what is handed to
-- `prometheus.MustNewConstMetric`. A channel of metrics is the list of what was sent.
use tdarr_exporter.Prelude.{ℕ, ◌*◌, String, List, Option}
use tdarr_exporter.Prelude.Int.{ℤ}
use tdarr_exporter.GoText.{Text}

-- The float64 operations of the exporter over an abstract type of values: conversion of an integer,
-- `*`, `strconv.ParseFloat` with bit size 64, and the constant 0.01.
pub record Float64 (Num : Type 0) : Type 0 where
  pub of_int : ℤ → Num
  pub mul : Num → Num → Num
  pub parse_float : Text → Option Num
  pub percent_to_ratio : Num

abbrev pub bytes_per_mb : ℕ
bytes_per_mb = 1024 * 1024

abbrev pub bytes_per_gb : ℕ
bytes_per_gb = 1024 * 1024 * 1024

pub data ValueType : Type 0 where
  gauge_value counter_value : ValueType

-- The arguments of `prometheus.NewDesc`: the namespace and name that make up the fully qualified name,
-- the variable labels, and the value of the constant label `tdarr_instance`.
pub record Desc : Type 0 where
  pub namespace : String
  pub name : String
  pub var_labels : List String
  pub instance_name : Text

pub record TypedDesc : Type 0 where
  pub desc : Desc
  pub value_type : ValueType

abbrev pub metric_prefix : String
metric_prefix = "tdarr"

unfoldable pub build_desc : String → List String → Text → Desc
build_desc name var_labels instance_name = record {
  namespace = metric_prefix;
  name = name;
  var_labels = var_labels;
  instance_name = instance_name;
}

unfoldable pub new_gauge : String → List String → Text → TypedDesc
unfolding build_desc
new_gauge name var_labels instance_name = record {
  desc = build_desc name var_labels instance_name;
  value_type = gauge_value;
}

unfoldable pub new_counter : String → List String → Text → TypedDesc
unfolding build_desc
new_counter name var_labels instance_name = record {
  desc = build_desc name var_labels instance_name;
  value_type = counter_value;
}

pub record Metric (Num : Type 0) : Type 0 where
  pub desc : Desc
  pub value_type : ValueType
  pub value : Num
  pub label_values : List Text

unfoldable pub must_new_const_metric : {Num : Type 0} → TypedDesc → Num → List Text → Metric Num
must_new_const_metric d value label_values = record {
  desc = d.desc;
  value_type = d.value_type;
  value = value;
  label_values = label_values;
}
