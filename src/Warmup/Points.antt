-- ===== src/Warmup/Points.antt =====
-- warmup/sorted_points.c and warmup/point.c: a list of points sorted by their distance.
pub mod Order
pub mod Remove
pub mod Duplicates
use operating_system_ece.Common.{
  ℕ, zero, suc, ◌+◌, Bool, true, false, not, ◌&&◌, ◌||◌, Option, none, some, List, [], ◌∷◌, ℤ, pos,
  negsuc, same_index, if◌then◌else◌,
}

-- The C type `double` with its operations and `sqrt`; `a > b` is `b < a`.
pub record Doubles : Type 1 where
  pub Double : Type 0
  pub less : Double → Double → Bool
  pub same : Double → Double → Bool
  pub plus : Double → Double → Double
  pub times : Double → Double → Double
  pub sqrt : Double → Double

-- What `point_compare` returns: -1, 0 or 1
pub data Comparison : Type 0 where
  smaller equal larger : Comparison

module _ (D : Doubles) where
  pub record Point : Type 0 where
    pub x : D.Double
    pub y : D.Double

  -- `sqrt((p->x)*(p->x) + (p->y)*(p->y))`
  unfoldable pub distance : Point → D.Double
  distance p = D.sqrt (D.plus (D.times p.x p.x) (D.times p.y p.y))

  unfoldable pub point_compare : Point → Point → Comparison
  unfolding distance
  point_compare p1 p2 =
      let distance_1 = distance p1 in
      let distance_2 = distance p2 in
      if D.less distance_1 distance_2
      then smaller
      else if D.same distance_1 distance_2
      then equal
      else if D.less distance_2 distance_1
      then larger
      else equal

  -- The list behind the dummy node that `sp_init` makes
  abbrev pub SortedPoints : Type 0
  SortedPoints = List Point

  abbrev pub sp_init : SortedPoints
  sp_init = []

  -- The two ways to link in the new point, before and behind the current one
  abbrev pub link_before : Point → Point → SortedPoints → SortedPoints
  link_before p cur rest = p ∷ cur ∷ rest

  abbrev pub link_behind : Point → Point → SortedPoints → SortedPoints
  link_behind p cur rest = cur ∷ p ∷ rest

  -- Where the new point goes at the current one, by the last comparison
  unfoldable pub place : Comparison → Point → Point → SortedPoints → SortedPoints
  place smaller p cur rest = link_before p cur rest
  place larger p cur rest = link_behind p cur rest
  place equal p cur rest =
      if D.same p.x cur.x && D.same p.y cur.y
      then link_before p cur rest
      else if D.less p.x cur.x
      then link_before p cur rest
      else if D.less cur.x p.x
      then link_behind p cur rest
      else if D.less p.y cur.y
      then link_before p cur rest
      else link_behind p cur rest

  -- A round of the loop with a next point: it ends at the comparison -1, and else goes `further`.
  unfoldable pub add_round : Comparison → Point → Point → SortedPoints → SortedPoints → SortedPoints
  unfolding place
  add_round smaller p cur rest further = place smaller p cur rest
  add_round equal p cur rest further = further
  add_round larger p cur rest further = further

  unfoldable pub add_at : Point → Point → SortedPoints → SortedPoints
  unfolding place add_round
  add_at p cur [] = place (point_compare p cur) p cur []
  add_at p cur (next ∷ rest) =
      add_round (point_compare p cur) p cur (next ∷ rest) (cur ∷ add_at p next rest)

  -- It always returns 1: the calls of `malloc` succeed, or an assertion ends the program.
  unfoldable pub sp_add_point : SortedPoints → Point → SortedPoints
  unfolding add_at
  sp_add_point [] p = p ∷ []
  sp_add_point (cur ∷ rest) p = add_at p cur rest

  -- The functions that remove a point return it with the list that is left; `none` is the return
  -- value 0, where the list stays as it was.
  unfoldable pub sp_remove_first : SortedPoints → Option (Point × SortedPoints)
  sp_remove_first [] = none
  sp_remove_first (cur ∷ rest) = some (cur, rest)

  -- A step of the loop leaves the node it passes in the list.
  unfoldable pub keep : Point → Option (Point × SortedPoints) → Option (Point × SortedPoints)
  keep cur none = none
  keep cur (some (p, rest)) = some (p, cur ∷ rest)

  unfoldable pub remove_last_at : Point → SortedPoints → Option (Point × SortedPoints)
  unfolding keep
  remove_last_at cur [] = some (cur, [])
  remove_last_at cur (next ∷ rest) = keep cur (remove_last_at next rest)

  unfoldable pub sp_remove_last : SortedPoints → Option (Point × SortedPoints)
  unfolding remove_last_at
  sp_remove_last [] = none
  sp_remove_last (cur ∷ rest) = remove_last_at cur rest

  unfoldable pub remove_at : ℤ → ℕ → Point → SortedPoints → Option (Point × SortedPoints)
  unfolding keep
  remove_at index current_index cur [] =
      if same_index index (some current_index) then some (cur, []) else none
  remove_at index current_index cur (next ∷ rest) =
      let further = keep cur (remove_at index (current_index + 1) next rest) in
      if same_index index (some current_index) then some (cur, next ∷ rest) else further

  unfoldable pub sp_remove_by_index : SortedPoints → ℤ → Option (Point × SortedPoints)
  unfolding remove_at
  sp_remove_by_index [] index = none
  sp_remove_by_index (cur ∷ rest) index = remove_at index 0 cur rest

  -- The loop of `sp_delete_duplicates`, with the points from `pre` on and their number of duplicates
  unfoldable pub delete_behind : Point → SortedPoints → ℕ → ℕ × SortedPoints
  delete_behind pre [] number_records = (number_records, pre ∷ [])
  delete_behind pre (cur ∷ rest) number_records =
      let dropped = delete_behind pre rest (number_records + 1) in
      let passed = delete_behind cur rest number_records in
      if not (D.same pre.x cur.x) || not (D.same pre.y cur.y)
      then (passed.0, pre ∷ passed.1)
      else dropped

  unfoldable pub sp_delete_duplicates : SortedPoints → ℕ × SortedPoints
  unfolding delete_behind
  sp_delete_duplicates [] = (0, [])
  sp_delete_duplicates (pre ∷ []) = (0, pre ∷ [])
  sp_delete_duplicates (pre ∷ cur ∷ rest) = delete_behind pre (cur ∷ rest) 0
