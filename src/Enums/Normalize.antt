-- ===== src/Enums/Normalize.antt =====
-- What the normalization of a status slice of internal/collector/tdarr_enums.go computes, key by key.
use tdarr_exporter.Prelude.{
  ◌≡◌, refl, ◌∙◌, ap, Bool, true, false, List, [], ◌∷◌, Option, none, some, arith, ◌==◌, elem,
  if◌then◌else◌,
}
use tdarr_exporter.Prelude.Int.{ℤ, pos}
use tdarr_exporter.Prelude.Assoc.{
  insert, lookup, lookup-insert, HasUniqueKeys, insert-HasUniqueKeys,
}
use tdarr_exporter.GoText.{Text, Text_eq}
use tdarr_exporter.Models.{TdarrPieSlice}
use tdarr_exporter.Enums.{zero_all, normalize_entries, normalize_status_slice}

-- The value of the last entry whose name is cleaned to `k`.
abbrev pub last_value : (Text → Text) → Text → List TdarrPieSlice → Option ℤ
last_value cleaner k [] = none
last_value cleaner k (s ∷ raw) = elim (last_value cleaner k raw) [
  | some v ↦ some v
  | none ↦ if cleaner s.name == k then some s.value else none
]

abbrev pub or_else {ℓ} : {A : Type ℓ} → Option A → Option A → Option A
or_else none b = b
or_else (some a) b = some a

or_else-if :
    (o : Option ℤ) (b : Bool) (v : ℤ) (r : Option ℤ)
    → or_else o (if b then some v else r)
      ≡ or_else (elim o [ some w ↦ some w | none ↦ if b then some v else none ]) r
or_else-if none true v r = refl
or_else-if none false v r = refl
or_else-if (some w) b v r = refl

last_value-insert :
    (cleaner : Text → Text) (k : Text) (s : TdarrPieSlice) (raw : List TdarrPieSlice)
    (result : List (Text × ℤ))
    → or_else (last_value cleaner k raw) (lookup k (insert (cleaner s.name) s.value result))
      ≡ or_else (last_value cleaner k (s ∷ raw)) (lookup k result)
last_value-insert cleaner k s raw result =
    rw lookup-insert (or_else-if (last_value cleaner k raw) (cleaner s.name == k) s.value _)

lookup-zero_all :
    (k : Text) (known : List Text) (m : List (Text × ℤ))
    → lookup k (zero_all known m) ≡ (if elem k known then some (pos 0) else lookup k m)
unfolding zero_all elem
lookup-zero_all k [] m = refl
lookup-zero_all k (j ∷ known) m =
    ground (arith, lookup-zero_all k known (insert j (pos 0) m), lookup-insert j k (pos 0) m)

zero_all-HasUniqueKeys :
    (known : List Text) (m : List (Text × ℤ)) → HasUniqueKeys m → HasUniqueKeys (zero_all known m)
unfolding zero_all
zero_all-HasUniqueKeys [] m h = h
zero_all-HasUniqueKeys (k ∷ known) m h =
    zero_all-HasUniqueKeys known (insert k (pos 0) m) (insert-HasUniqueKeys k (pos 0) m h)

module _ {ℓ} {S : Type ℓ} (known : List Text) (cleaner : Text → Text) (kind : Text)
    (unknown_counter : Option (Text → Text → S → S)) where
  lookup-normalize_entries :
      (k : Text) (raw : List TdarrPieSlice) (result : List (Text × ℤ)) (st : S)
      → lookup k (normalize_entries known cleaner kind unknown_counter raw result st).0
        ≡ or_else (last_value cleaner k raw) (lookup k result)
  unfolding normalize_entries
  lookup-normalize_entries k [] result st = refl
  lookup-normalize_entries k (s ∷ raw) result st =
      lookup-normalize_entries k raw (insert (cleaner s.name) s.value result) _
      ∙ last_value-insert cleaner k s raw result

  normalize_entries-HasUniqueKeys :
      (raw : List TdarrPieSlice) (result : List (Text × ℤ)) (st : S)
      → HasUniqueKeys result
      → HasUniqueKeys (normalize_entries known cleaner kind unknown_counter raw result st).0
  unfolding normalize_entries
  normalize_entries-HasUniqueKeys [] result st h = h
  normalize_entries-HasUniqueKeys (s ∷ raw) result st h =
      normalize_entries-HasUniqueKeys raw (insert (cleaner s.name) s.value result) _
        (insert-HasUniqueKeys (cleaner s.name) s.value result h)

  -- For every label: the normalized map holds the value of the last API entry that is cleaned to the
  -- label, whether the label is known or not; with no such entry it holds 0 if the label is known,
  -- and has no such key otherwise.
  pub lookup-normalize_status_slice :
      (raw : List TdarrPieSlice) (st : S) (k : Text)
      → lookup k (normalize_status_slice known cleaner kind unknown_counter raw st).0
        ≡ or_else (last_value cleaner k raw) (if elem k known then some (pos 0) else none)
  unfolding normalize_status_slice lookup
  lookup-normalize_status_slice raw st k =
      lookup-normalize_entries k raw (zero_all known []) st
      ∙ ap (or_else (last_value cleaner k raw)) (lookup-zero_all k known [])

  -- No label stands twice in the normalized map.
  normalize_status_slice-HasUniqueKeys :
      (raw : List TdarrPieSlice) (st : S)
      → HasUniqueKeys (normalize_status_slice known cleaner kind unknown_counter raw st).0
  unfolding normalize_status_slice
  normalize_status_slice-HasUniqueKeys raw st =
      normalize_entries-HasUniqueKeys raw (zero_all known []) st
        (zero_all-HasUniqueKeys known [] tt)
