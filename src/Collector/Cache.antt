-- ===== src/Collector/Cache.antt =====
-- The library-stats cache of internal/collector/tdarr.go: `libStatsSnapshot`, `TdarrLibStatsCache`
-- with `Read` and `Write`, `totalsFromMetric`, `libraryFingerprint` and `shouldRefetch`. A Go slice
-- that may be nil is a list, nil being the empty list: `stats` is only ever the zero value or a slice
-- that `fetchPies` grew from nil by `append`, so it is nil exactly where it is empty. `sort.Slice`, which
-- leaves the order of equal elements open, is a parameter.
pub mod Fingerprint
pub mod Refetch
use tdarr_exporter.Prelude.{
  ℕ, Bool, true, false, not, ◌&&◌, ◌||◌, ◌≡◌, ◌↔◌, List, [], ◌∷◌, arith, ltb, ◌==◌, Eq, list_eq,
  list_eq_iff, if◌then◌else◌, ℕ_eq,
}
use tdarr_exporter.Prelude.Int.{ℤ, ℤ_eq, int_eq_iff}
use tdarr_exporter.GoText.{Text, Text_eq}
use tdarr_exporter.Models.{TdarrLibraryInfo, TdarrCacheTotals, TdarrMetric, TdarrPieStats}

-- Go's `<` on strings. It compares bytes; on valid UTF-8 that is the order of the code points.
unfoldable pub text_less : Text → Text → Bool
text_less [] [] = false
text_less [] (_ ∷ _) = true
text_less (_ ∷ _) [] = false
text_less (c ∷ s) (d ∷ t) = ltb c d || c == d && text_less s t

abbrev pub info_eq : TdarrLibraryInfo → TdarrLibraryInfo → Bool
info_eq a b = a.library_id == b.library_id && a.name == b.name

pub info_eq_iff : (a b : TdarrLibraryInfo) → (info_eq a b ≡ true) ↔ (a ≡ b)
info_eq_iff a b =
    ground (arith, Text_eq.beq_iff a.library_id b.library_id, Text_eq.beq_iff a.name b.name)

instance abbrev pub TdarrLibraryInfo_eq : Eq TdarrLibraryInfo
TdarrLibraryInfo_eq = record { beq = info_eq; beq_iff = info_eq_iff }

abbrev pub totals_eq : TdarrCacheTotals → TdarrCacheTotals → Bool
totals_eq a b =
    a.total_file_count == b.total_file_count
    && a.total_transcode_count == b.total_transcode_count
    && a.total_health_check_count == b.total_health_check_count
    && a.hold_queue == b.hold_queue
    && a.transcode_queue == b.transcode_queue
    && a.transcode_success == b.transcode_success
    && a.transcode_failed == b.transcode_failed
    && a.health_check_queue == b.health_check_queue
    && a.health_check_success == b.health_check_success
    && a.health_check_failed == b.health_check_failed

abbrev pub zero_totals : TdarrCacheTotals
zero_totals = record {
  total_file_count = ℤ.pos 0;
  total_transcode_count = ℤ.pos 0;
  total_health_check_count = ℤ.pos 0;
  hold_queue = ℤ.pos 0;
  transcode_queue = ℤ.pos 0;
  transcode_success = ℤ.pos 0;
  transcode_failed = ℤ.pos 0;
  health_check_queue = ℤ.pos 0;
  health_check_success = ℤ.pos 0;
  health_check_failed = ℤ.pos 0;
}

unfoldable pub totals_from_metric : {Num : Type 0} → TdarrMetric Num → TdarrCacheTotals
totals_from_metric metric = record {
  total_file_count = metric.total_file_count;
  total_transcode_count = metric.total_transcode_count;
  total_health_check_count = metric.total_health_check_count;
  hold_queue = metric.hold_queue;
  transcode_queue = metric.transcode_queue;
  transcode_success = metric.transcode_success;
  transcode_failed = metric.transcode_failed;
  health_check_queue = metric.health_check_queue;
  health_check_success = metric.health_check_success;
  health_check_failed = metric.health_check_failed;
}

pub record LibStatsSnapshot (Num : Type 0) : Type 0 where
  pub totals : TdarrCacheTotals
  pub stats : List (TdarrPieStats Num)
  pub fingerprint : List TdarrLibraryInfo

-- The cache is the snapshot under its lock: `Read` and `Write` take and give the whole of it.
pub record TdarrLibStatsCache (Num : Type 0) : Type 0 where
  pub snap : LibStatsSnapshot Num

unfoldable pub new_tdarr_lib_stats_cache : {Num : Type 0} → TdarrLibStatsCache Num
new_tdarr_lib_stats_cache = record {
  snap = record { totals = zero_totals; stats = []; fingerprint = [] };
}

unfoldable pub read : {Num : Type 0} → TdarrLibStatsCache Num → LibStatsSnapshot Num
read c = c.snap

unfoldable pub write :
    {Num : Type 0} → TdarrLibStatsCache Num → LibStatsSnapshot Num → TdarrLibStatsCache Num
write c snap = record c { snap = snap }

-- fp[i].LibraryId < fp[j].LibraryId
abbrev pub info_less : TdarrLibraryInfo → TdarrLibraryInfo → Bool
info_less a b = text_less a.library_id b.library_id

abbrev pub is_nil {ℓ} : {A : Type ℓ} → List A → Bool
is_nil [] = true
is_nil (_ ∷ _) = false

-- `sort_slice less s` is `s` after `sort.Slice`; the copy leaves the caller's slice as it is.
abbrev pub SortSlice : Type 0
SortSlice =
    (TdarrLibraryInfo → TdarrLibraryInfo → Bool) → List TdarrLibraryInfo → List TdarrLibraryInfo

unfoldable pub library_fingerprint : SortSlice → List TdarrLibraryInfo → List TdarrLibraryInfo
library_fingerprint sort_slice libs = sort_slice info_less libs

unfoldable pub should_refetch :
    {Num : Type 0} → LibStatsSnapshot Num → TdarrMetric Num → List TdarrLibraryInfo → Bool
unfolding totals_from_metric
should_refetch cached metric current_fingerprint =
    is_nil cached.stats
    || not (totals_eq cached.totals (totals_from_metric metric))
    || not (list_eq cached.fingerprint current_fingerprint)
