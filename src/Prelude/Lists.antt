-- ===== src/Prelude/Lists.antt =====
-- Lists measured by native numbers, under the library's names, and predicates by recursion.
use Prim.Native.Nat.{ℕ, zero, suc, ◌+◌, ◌<◌}
use mathlib.Core.Path.{◌≡◌, refl}
use mathlib.Core.Logic.{◌↔◌}
use mathlib.Core.Bool.{Bool, true, false, ◌&&◌, ◌||◌}
use mathlib.Core.List.{List, [], ◌∷◌, ◌++◌}
use native.Mathlib.Omega.{arith}
use tdarr_exporter.Prelude.Tests.{Eq, ◌==◌}

module _ {ℓ} {A : Type ℓ} where
  abbrev pub length : List A → ℕ
  length [] = 0
  length (x ∷ xs) = suc (length xs)

  abbrev pub take : ℕ → List A → List A
  take zero xs = []
  take (suc n) [] = []
  take (suc n) (x ∷ xs) = x ∷ take n xs

  abbrev pub drop : ℕ → List A → List A
  drop zero xs = xs
  drop (suc n) [] = []
  drop (suc n) (x ∷ xs) = drop n xs

  pub drop-length : (xs : List A) → drop (length xs) xs ≡ []
  drop-length [] = refl
  drop-length (x ∷ xs) = drop-length xs

  pub drop-eq-cons :
      (n : ℕ) (xs : List A) → n < length xs → (x : A) × (drop n xs ≡ x ∷ drop (suc n) xs)
  drop-eq-cons n [] h = absurd (omega arith)
  drop-eq-cons zero (x ∷ xs) h = (x, refl)
  drop-eq-cons (suc n) (x ∷ xs) h = drop-eq-cons n xs (omega arith)

  abbrev pub All {κ} : (A → Type κ) → List A → Type κ
  All P [] = Unit
  All P (x ∷ xs) = P x × All P xs

  pub length-append : (xs ys : List A) → length (xs ++ ys) ≡ length xs + length ys
  length-append [] ys = omega arith
  length-append (x ∷ xs) ys = omega (arith, length-append xs ys)

  pub All-append {κ} : (P : A → Type κ) (xs ys : List A) → All P xs → All P ys → All P (xs ++ ys)
  All-append P [] ys h k = k
  All-append P (x ∷ xs) ys (p, h) k = (p, All-append P xs ys h k)

-- One element of a list, and another in its place.
module _ {ℓ κ} {A : Type ℓ} (P : A → Type κ) where
  pub All-at : (before behind : List A) (x : A) → All P (before ++ (x ∷ behind)) → P x
  All-at [] behind x (p, h) = p
  All-at (y ∷ before) behind x (p, h) = All-at before behind x h

  pub All-replace :
      (before behind : List A) (x x' : A)
      → P x'
      → All P (before ++ (x ∷ behind))
      → All P (before ++ (x' ∷ behind))
  All-replace [] behind x x' p' (p, h) = (p', h)
  All-replace (y ∷ before) behind x x' p' (p, h) = (p, All-replace before behind x x' p' h)

-- Equality of lists, element by element.
module _ {ℓ} {A : Type ℓ} ⦃e : Eq A⦄ where
  unfoldable pub list_eq : List A → List A → Bool
  list_eq [] [] = true
  list_eq [] (_ ∷ _) = false
  list_eq (_ ∷ _) [] = false
  list_eq (x ∷ xs) (y ∷ ys) = x == y && list_eq xs ys

  pub list_eq_iff : (xs ys : List A) → (list_eq xs ys ≡ true) ↔ (xs ≡ ys)
  unfolding list_eq
  list_eq_iff [] [] = ground arith
  list_eq_iff [] (y ∷ ys) = ground arith
  list_eq_iff (x ∷ xs) [] = ground arith
  list_eq_iff (x ∷ xs) (y ∷ ys) = ground (arith, e.beq_iff x y, list_eq_iff xs ys)

  instance abbrev pub List_eq : Eq (List A)
  List_eq = record { beq = list_eq; beq_iff = list_eq_iff }

  -- Membership as a test.
  unfoldable pub elem : A → List A → Bool
  elem a [] = false
  elem a (x ∷ xs) = x == a || elem a xs
