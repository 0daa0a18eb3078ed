-- ===== src/Tests/Sort.antt =====
-- An insertion sort, in the place of `sort.Slice`.
use tdarr_exporter.Prelude.{
  ◌≡◌, refl, Bool, true, false, List, [], ◌∷◌, arith, if◌then◌else◌, Bool-cases, inl, inr,
}
use tdarr_exporter.GoText.{Text}
use tdarr_exporter.Models.{TdarrLibraryInfo}
use tdarr_exporter.Collector.Cache.{text_less, info_less, SortSlice}
use tdarr_exporter.Collector.Cache.Fingerprint.{NotAbove, Sorts}
use mathlib.Core.Bool.{Bool-set}
use mathlib.Core.Logic.Or
use mathlib.Core.List.{Perm, Pairwise, mem-cons, not-mem-nil, Pairwise-cons}
use mathlib.Core.List.Perm

abbrev pub insert_sorted :
    (TdarrLibraryInfo → TdarrLibraryInfo → Bool)
    → TdarrLibraryInfo
    → List TdarrLibraryInfo
    → List TdarrLibraryInfo
insert_sorted less x [] = x ∷ []
insert_sorted less x (y ∷ ys) = if less y x then y ∷ insert_sorted less x ys else x ∷ y ∷ ys

abbrev pub insertion_sort : SortSlice
insertion_sort less [] = []
insertion_sort less (x ∷ xs) = insert_sorted less x (insertion_sort less xs)

text_less_trans :
    (s t u : Text) → text_less t s ≡ false → text_less u t ≡ false → text_less u s ≡ false
unfolding text_less
text_less_trans [] [] u h k = k
text_less_trans (c ∷ s) [] u h k = cc
text_less_trans [] (d ∷ t) [] h k = cc
text_less_trans [] (d ∷ t) (b ∷ u) h k = refl
text_less_trans (c ∷ s) (d ∷ t) [] h k = cc
text_less_trans (c ∷ s) (d ∷ t) (b ∷ u) h k = ground (arith, text_less_trans s t u)

text_less_asym : (s t : Text) → text_less s t ≡ true → text_less t s ≡ false
unfolding text_less
text_less_asym [] [] h = refl
text_less_asym [] (_ ∷ _) h = refl
text_less_asym (_ ∷ _) [] h = cc
text_less_asym (c ∷ s) (d ∷ t) h = ground (arith, text_less_asym s t)

insert_sorted-Perm :
    (x : TdarrLibraryInfo) (ys : List TdarrLibraryInfo)
    → Perm (insert_sorted info_less x ys) (x ∷ ys)
insert_sorted-Perm x [] = Perm.refl (x ∷ [])
insert_sorted-Perm x (y ∷ ys) = elim (Bool-cases (info_less y x)) [
  | inl e ↦ rw e (Perm.trans (Perm.cons' refl (insert_sorted-Perm x ys)) (Perm.swap _ _ _))
  | inr e ↦ rw e (Perm.refl _)
]

insert_sorted-Pairwise :
    (x : TdarrLibraryInfo) (ys : List TdarrLibraryInfo)
    → Pairwise NotAbove ys
    → Pairwise NotAbove (insert_sorted info_less x ys)
insert_sorted-Pairwise x [] p = Pairwise-cons.1 (λ a m. absurd (not-mem-nil m), p)
insert_sorted-Pairwise x (y ∷ ys) p =
    let (above, sorted) = Pairwise-cons.0 p in
    elim (Bool-cases (info_less y x)) [
      | inl e ↦ rw e (
          Pairwise-cons.1 (
            λ z m.
                Or.elim (Bool-set _ _) (mem-cons.0 ((Perm.mem_iff (insert_sorted-Perm x ys)).0 m))
                  (λ same. rw same (text_less_asym y.library_id x.library_id e))
                  (λ later. above z later),
            insert_sorted-Pairwise x ys sorted,
          ))
      | inr e ↦ rw e (
          Pairwise-cons.1 (
            λ z m.
                Or.elim (Bool-set _ _) (mem-cons.0 m) (λ same. rw same e)
                  (λ later.
                    text_less_trans x.library_id y.library_id z.library_id e (above z later)),
            p,
          ))
    ]

pub insertion_sort-Sorts : Sorts insertion_sort
insertion_sort-Sorts = record { permutes = permutes; sorts = sorts }
  where
    permutes : (libs : List TdarrLibraryInfo) → Perm (insertion_sort info_less libs) libs
    permutes [] = Perm.refl []
    permutes (x ∷ xs) =
        Perm.trans (insert_sorted-Perm x (insertion_sort info_less xs))
          (Perm.cons' refl (permutes xs))

    sorts : (libs : List TdarrLibraryInfo) → Pairwise NotAbove (insertion_sort info_less libs)
    sorts [] = Pairwise.nil
    sorts (x ∷ xs) = insert_sorted-Pairwise x (insertion_sort info_less xs) (sorts xs)
