-- ===== src/Collector/Unknown.antt =====
-- The persistent counters of statuses outside the known enum: `unknownStatusKey`,
-- `unknownStatusCounts` and `bumpUnknownStatus`. The map's values are float64 in the source; they
-- count up by 1 from 0, so below 2 ^ 53 they are the numbers written here.
pub mod Laws
use tdarr_exporter.Prelude.{
  ℕ, ◌+◌, ◌≡◌, ◌↔◌, Bool, true, ◌&&◌, List, Option, none, some, arith, Eq, ◌==◌,
}
use tdarr_exporter.Prelude.Assoc.{lookup, insert}
use tdarr_exporter.GoText.{Text, Text_eq}

pub record UnknownStatusKey : Type 0 where
  pub kind : Text
  pub status : Text

abbrev pub key_eq : UnknownStatusKey → UnknownStatusKey → Bool
key_eq a b = a.kind == b.kind && a.status == b.status

pub key_eq_iff : (a b : UnknownStatusKey) → (key_eq a b ≡ true) ↔ (a ≡ b)
key_eq_iff a b = ground (arith, Text_eq.beq_iff a.kind b.kind, Text_eq.beq_iff a.status b.status)

instance abbrev pub UnknownStatusKey_eq : Eq UnknownStatusKey
UnknownStatusKey_eq = record { beq = key_eq; beq_iff = key_eq_iff }

abbrev pub UnknownStatusCounts : Type 0
UnknownStatusCounts = List (UnknownStatusKey × ℕ)

-- `m[key]` of a Go map of numbers: 0 where the key is missing.
abbrev pub count_of : UnknownStatusKey → UnknownStatusCounts → ℕ
count_of key counts = elim (lookup key counts) [ none ↦ 0 | some n ↦ n ]

unfoldable pub bump_unknown_status : Text → Text → UnknownStatusCounts → UnknownStatusCounts
bump_unknown_status kind status counts =
    let key : UnknownStatusKey = record { kind = kind; status = status } in
    insert key (count_of key counts + 1) counts
