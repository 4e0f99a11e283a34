-- ===== src/Tests/Points.antt =====
-- The theorems on warmup/sorted_points.c, with natural numbers in the place of `double`.
use operating_system_ece.Common.{ℕ, ◌+◌, ◌*◌, ◌≡◌, refl, ltb, ◌==◌, List, [], ◌∷◌, pos, some, arith}
use operating_system_ece.Warmup.Points.{
  Doubles, Point, sp_add_point, sp_remove_by_index, sp_delete_duplicates, delete_behind, remove_at,
  keep,
}
use operating_system_ece.Warmup.Points.Order.{IsOrder, Sorted, Inserts, sp_add_point-Sorted}
use operating_system_ece.Warmup.Points.Remove.{RemovesAt, sp_remove_by_index_lem}
use operating_system_ece.Warmup.Points.Duplicates.{Thinned, sp_delete_duplicates_lem}

abbrev naturals : Doubles
naturals = record { Double = ℕ; less = ltb; same = ◌==◌; plus = ◌+◌; times = ◌*◌; sqrt = λ n. n }

naturals-IsOrder : IsOrder naturals
naturals-IsOrder = record { asym = λ a b h. ground arith; same_not_less = λ a b h. ground arith }

abbrev at : ℕ → ℕ → Point naturals
at x y = record { x = x; y = y }

abbrev points : List (Point naturals)
points = at 0 1 ∷ at 1 0 ∷ at 3 4 ∷ []

sp_add_point-Sorted_example :
    Sorted naturals (sp_add_point naturals points (at 2 2))
    × Inserts naturals (at 2 2) points (sp_add_point naturals points (at 2 2))
sp_add_point-Sorted_example =
    sp_add_point-Sorted naturals naturals-IsOrder points (at 2 2) (refl, (refl, tt))

removes_second : sp_remove_by_index naturals points (pos 1) ≡ some (at 1 0, at 0 1 ∷ at 3 4 ∷ [])
unfolding sp_remove_by_index remove_at keep
removes_second = refl

one_duplicate :
    sp_delete_duplicates naturals (at 1 0 ∷ at 1 0 ∷ at 2 0 ∷ []) ≡ (1, at 1 0 ∷ at 2 0 ∷ [])
unfolding sp_delete_duplicates delete_behind
one_duplicate = refl

sp_remove_by_index_lem_example :
    RemovesAt naturals points (pos 1) (sp_remove_by_index naturals points (pos 1))
sp_remove_by_index_lem_example = sp_remove_by_index_lem naturals points (pos 1)

sp_delete_duplicates_lem_example :
    Thinned naturals
      (at 1 0 ∷ at 1 0 ∷ at 2 0 ∷ [])
      (sp_delete_duplicates naturals (at 1 0 ∷ at 1 0 ∷ at 2 0 ∷ []))
sp_delete_duplicates_lem_example = sp_delete_duplicates_lem naturals (at 1 0 ∷ at 1 0 ∷ at 2 0 ∷ [])
