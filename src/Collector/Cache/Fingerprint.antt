-- ===== src/Collector/Cache/Fingerprint.antt =====
-- What the fingerprint of a library list, `libraryFingerprint` of internal/collector/tdarr.go, keeps and
-- forgets.
use tdarr_exporter.Prelude.{◌≡◌, refl, sym, false, List, [], ◌∷◌, arith}
use tdarr_exporter.GoText.{Text}
use tdarr_exporter.Models.{TdarrLibraryInfo}
use tdarr_exporter.Collector.Cache.{text_less, info_less, SortSlice, library_fingerprint}
use mathlib.Core.Path.{ap₂}
use mathlib.Core.Bool.{Bool-set}
use mathlib.Core.Logic.Or
use mathlib.Core.List.{Mem, Perm, Pairwise, mem-cons, mem-cons_self, mem-cons_of_mem, Pairwise-cons}
use mathlib.Core.List.Perm

text_less_antisym : (s t : Text) → text_less s t ≡ false → text_less t s ≡ false → s ≡ t
unfolding text_less
text_less_antisym [] [] h k = refl
text_less_antisym [] (_ ∷ _) h k = cc
text_less_antisym (_ ∷ _) [] h k = cc
text_less_antisym (c ∷ s) (d ∷ t) h k = ground (arith, text_less_antisym s t)

-- The order that `sort.Slice` documents of its result: no element is less than one before it.
abbrev pub NotAbove : TdarrLibraryInfo → TdarrLibraryInfo → Type 0
NotAbove a b = info_less b a ≡ false

-- What the exporter relies on of `sort.Slice`: it permutes, and it sorts by `less`.
pub record Sorts (sort_slice : SortSlice) : Type 0 where
  pub permutes : (libs : List TdarrLibraryInfo) → Perm (sort_slice info_less libs) libs
  pub sorts : (libs : List TdarrLibraryInfo) → Pairwise NotAbove (sort_slice info_less libs)

-- No two libraries of the list share an id under different names.
abbrev pub HasOneNamePerId : List TdarrLibraryInfo → Type 0
HasOneNamePerId libs =
    (a b : TdarrLibraryInfo) → Mem a libs → Mem b libs → a.library_id ≡ b.library_id → a ≡ b

text_less_irrefl : (s : Text) → text_less s s ≡ false
unfolding text_less
text_less_irrefl [] = refl
text_less_irrefl (c ∷ s) = ground (arith, text_less_irrefl s)

head-NotAbove :
    {x z : TdarrLibraryInfo} {xs : List TdarrLibraryInfo}
    → Pairwise NotAbove (x ∷ xs)
    → Mem z (x ∷ xs)
    → NotAbove x z
head-NotAbove {x} {z} px m =
    Or.elim (Bool-set _ _) (mem-cons.0 m) (λ e. rw e (text_less_irrefl x.library_id))
      (λ later. (Pairwise-cons.0 px).0 z later)

heads-eq :
    {x y : TdarrLibraryInfo} {xs ys : List TdarrLibraryInfo}
    → HasOneNamePerId (x ∷ xs)
    → Pairwise NotAbove (x ∷ xs)
    → Pairwise NotAbove (y ∷ ys)
    → Perm (x ∷ xs) (y ∷ ys)
    → x ≡ y
heads-eq {x} {y} one px py p =
    let m : Mem y (_ ∷ _) = (Perm.mem_iff p).1 mem-cons_self in
    one x y mem-cons_self m (
      text_less_antisym x.library_id y.library_id
        (head-NotAbove py ((Perm.mem_iff p).0 mem-cons_self)) (head-NotAbove px m))

sorted-eq_of_perm :
    {xs ys : List TdarrLibraryInfo}
    → HasOneNamePerId xs
    → Pairwise NotAbove xs
    → Pairwise NotAbove ys
    → Perm xs ys
    → xs ≡ ys
sorted-eq_of_perm {xs = []} {ys} one px py p = Perm.nil-eq p
sorted-eq_of_perm {xs = x ∷ xs} {ys = []} one px py p = Perm.eq-nil p
sorted-eq_of_perm {xs = x ∷ xs} {ys = y ∷ ys} one px py p =
    let same = heads-eq one px py p in
    let rest = Perm.cons_inv (Perm.trans p (Perm.cons' (sym same) (Perm.refl ys))) in
    ap₂ ◌∷◌ same (
      sorted-eq_of_perm {xs = xs} {ys = ys}
        (λ a b ma mb. one a b (mem-cons_of_mem x ma) (mem-cons_of_mem x mb)) (Pairwise-cons.0 px).1
        (Pairwise-cons.0 py).1 rest)

module _ (sort_slice : SortSlice) (s : Sorts sort_slice) where
  -- Two library lists with the same fingerprint hold the same libraries, ids and names, as often: a
  -- library that is added, removed or renamed changes the fingerprint.
  pub perm_of_library_fingerprint-eq :
      (libs libs' : List TdarrLibraryInfo)
      → library_fingerprint sort_slice libs ≡ library_fingerprint sort_slice libs'
      → Perm libs libs'
  unfolding library_fingerprint
  perm_of_library_fingerprint-eq libs libs' e =
      Perm.trans (Perm.symm (s.permutes libs)) (rw e (s.permutes libs'))

  -- The fingerprint does not depend on the order in which Tdarr lists the libraries, if no id stands
  -- under two names.
  pub library_fingerprint-eq_of_perm :
      (libs libs' : List TdarrLibraryInfo)
      → HasOneNamePerId libs
      → Perm libs libs'
      → library_fingerprint sort_slice libs ≡ library_fingerprint sort_slice libs'
  unfolding library_fingerprint
  library_fingerprint-eq_of_perm libs libs' one p =
      sorted-eq_of_perm
        (λ a b ma mb.
          one a b ((Perm.mem_iff (s.permutes libs)).0 ma) ((Perm.mem_iff (s.permutes libs)).0 mb))
        (s.sorts libs) (s.sorts libs')
        (Perm.trans (s.permutes libs) (Perm.trans p (Perm.symm (s.permutes libs'))))
