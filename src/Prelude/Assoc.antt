-- ===== src/Prelude/Assoc.antt =====
-- A Go map as an association list: a key stands at most once, where it was first inserted.
use tdarr_exporter.Prelude.Tests.{Eq, ◌==◌, if◌then◌else◌, Bool-cases}
use mathlib.Core.Logic.{inl, inr}
use Prim.Native.Nat.{ℕ, ◌+◌}
use mathlib.Core.Path.{◌≡◌, refl}
use mathlib.Core.Option.{Option, none, some}
use mathlib.Core.List.{List, [], ◌∷◌}
use native.Mathlib.Omega.{arith}

module _ {ℓ κ} {K : Type ℓ} {V : Type κ} ⦃e : Eq K⦄ where
  unfoldable pub lookup : K → List (K × V) → Option V
  lookup k [] = none
  lookup k ((key, value) ∷ m) = if key == k then some value else lookup k m

  unfoldable pub insert : K → V → List (K × V) → List (K × V)
  insert k v [] = (k, v) ∷ []
  insert k v ((key, value) ∷ m) = if key == k then (k, v) ∷ m else (key, value) ∷ insert k v m

  pub lookup-insert :
      (new key : K) (v : V) (m : List (K × V))
      → lookup key (insert new v m) ≡ (if new == key then some v else lookup key m)
  unfolding insert lookup
  lookup-insert new key v ((other, w) ∷ m) = ground (
    arith,
    lookup-insert new key v m,
    e.beq_iff other new,
    e.beq_iff other key,
    e.beq_iff new key,
  )
  lookup-insert new key v [] = refl

  -- Every key stands once.
  abbrev pub HasUniqueKeys : List (K × V) → Type κ
  HasUniqueKeys [] = Unit
  HasUniqueKeys ((k, v) ∷ m) = (lookup k m ≡ none) × HasUniqueKeys m

  pub insert-HasUniqueKeys :
      (k : K) (v : V) (m : List (K × V)) → HasUniqueKeys m → HasUniqueKeys (insert k v m)
  unfolding insert lookup
  insert-HasUniqueKeys k v [] h = (refl, tt)
  insert-HasUniqueKeys k v ((j, w) ∷ m) (fresh, h) = elim (Bool-cases (j == k)) [
    | inl same ↦ rw same (rw (← (e.beq_iff j k).0 same) (fresh, h))
    | inr other ↦ rw other (
      ground (arith, lookup-insert k j v m, e.beq_iff k j, e.beq_iff j k),
      insert-HasUniqueKeys k v m h,
    )
  ]

-- A Go map of counters: a missing key reads as 0, and `m[k]++` writes it.
module _ {ℓ} {K : Type ℓ} ⦃e : Eq K⦄ where
  abbrev pub get_count : K → List (K × ℕ) → ℕ
  get_count k m = elim (lookup k m) [ none ↦ 0 | some n ↦ n ]

  unfoldable pub increment : K → List (K × ℕ) → List (K × ℕ)
  increment k m = insert k (get_count k m + 1) m

  pub get_count-increment :
      (k j : K) (m : List (K × ℕ))
      → get_count j (increment k m) ≡ get_count j m + (if k == j then 1 else 0)
  unfolding increment
  get_count-increment k j m = ground (arith, lookup-insert k j (get_count k m + 1) m, e.beq_iff k j)
