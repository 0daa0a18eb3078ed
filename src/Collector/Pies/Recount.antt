-- ===== src/Collector/Pies/Recount.antt =====
-- The steps of a sweep of internal/collector/tdarr.go do not depend on the counters.
use tdarr_exporter.Models.{TdarrPieDataRequest}
use tdarr_exporter.Collector.Unknown.{UnknownStatusCounts, bump_unknown_status}
use tdarr_exporter.Collector.Pies.{Verdict}
use tdarr_exporter.Collector.Pies.Fan
use tdarr_exporter.Collector.Pies.Fan.{Fan}

-- A step of a sweep is the same from other counters.
pub recount :
    {Num : Type 0} (verdict : TdarrPieDataRequest → Verdict Num) {s t : Fan Num}
    (c : UnknownStatusCounts)
    → Fan.Step verdict s t
    → (c' : UnknownStatusCounts) × Fan.Step verdict
        (record s { counts = c })
        (record t { counts = c' })
recount verdict c (Fan.take before behind p rest e f) = (c, Fan.take before behind p rest e f)
recount verdict c (Fan.drop_library before behind p e v) = (c, Fan.drop_library before behind p e v)
recount verdict c (Fan.answer before behind p bumps pie e v) =
    (c, Fan.answer before behind p bumps pie e v)
recount verdict c (Fan.bump before behind b bumps pie e) =
    (bump_unknown_status b.0 b.1 c, Fan.bump before behind b bumps pie e)
recount verdict c (Fan.send before behind pie e) = (c, Fan.send before behind pie e)
recount verdict c (Fan.leave before behind e f) = (c, Fan.leave before behind e f)
recount verdict c (Fan.gather pie rest e) = (c, Fan.gather pie rest e)
