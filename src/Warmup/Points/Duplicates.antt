-- ===== src/Warmup/Points/Duplicates.antt =====
-- sp_delete_duplicates of warmup/sorted_points.c.
use operating_system_ece.Common.{
  ℕ, ◌+◌, ◌≡◌, refl, Bool, true, false, not, ◌&&◌, ◌||◌, List, [], ◌∷◌, length, arith, Bool-cases,
  inl, inr, ap,
}
use operating_system_ece.Warmup.Points.{Doubles, Point, delete_behind, sp_delete_duplicates}

module _ (D : Doubles) where
  abbrev pub duplicate : Point D → Point D → Bool
  duplicate p q = D.same p.x q.x && D.same p.y q.y

  -- The list without some points, each of which has the coordinates of the last kept one before it
  pub data Thins : Point D → List (Point D) → List (Point D) → Type 0 where
    done : {pre : Point D} → Thins pre [] []
    keeps :
        {pre cur : Point D} {l l' : List (Point D)}
        → duplicate pre cur ≡ false
        → Thins cur l l'
        → Thins pre (cur ∷ l) (cur ∷ l')
    drops :
        {pre cur : Point D} {l l' : List (Point D)}
        → duplicate pre cur ≡ true
        → Thins pre l l'
        → Thins pre (cur ∷ l) l'

  -- The list left begins with its first point, and the number counts the points that are gone.
  record Deletes (pre : Point D) (l : List (Point D)) (n : ℕ) (r : ℕ × List (Point D))
      : Type 0 where
    rest : List (Point D)
    kept : r.1 ≡ pre ∷ rest
    thins : Thins pre l rest
    count : r.0 + length rest ≡ n + length l

  delete_behind-Deletes :
      (pre : Point D) (l : List (Point D)) (n : ℕ) → Deletes pre l n (delete_behind D pre l n)
  unfolding delete_behind
  delete_behind-Deletes pre [] n = record { rest = []; kept = refl; thins = done; count = refl }
  delete_behind-Deletes pre (cur ∷ rest) n = elim (Bool-cases (duplicate pre cur)) [
    | inl y ↦
        let test : (not (D.same pre.x cur.x) || not (D.same pre.y cur.y)) ≡ false = ground arith in
        let d = delete_behind-Deletes pre rest (n + 1) in
        rw test (record {
          rest = d.rest;
          kept = d.kept;
          thins = drops y d.thins;
          count = let c = d.count in omega arith;
        })
    | inr no_duplicate ↦
        let test : (not (D.same pre.x cur.x) || not (D.same pre.y cur.y)) ≡ true = ground arith in
        let d = delete_behind-Deletes cur rest n in
        rw test (record {
          rest = cur ∷ d.rest;
          kept = ap (λ t. pre ∷ t) d.kept;
          thins = keeps no_duplicate d.thins;
          count = let c = d.count in omega arith;
        })
  ]

  -- What is left of a list, and how many points are gone
  abbrev pub Thinned : List (Point D) → ℕ × List (Point D) → Type 0
  Thinned [] (n, l') = (l' ≡ []) × (n ≡ 0)
  Thinned (p ∷ l) (n, l') =
      (rest : List (Point D)) × (l' ≡ p ∷ rest) × Thins p l rest × (n + length rest ≡ length l)

  -- `sp_delete_duplicates` keeps the first of each run of points with the same coordinates, drops the
  -- others of the run and no more, and returns how many it has dropped.
  pub sp_delete_duplicates_lem : (l : List (Point D)) → Thinned l (sp_delete_duplicates D l)
  unfolding sp_delete_duplicates delete_behind
  sp_delete_duplicates_lem [] = (refl, refl)
  sp_delete_duplicates_lem (p ∷ []) = ([], refl, done, refl)
  sp_delete_duplicates_lem (p ∷ q ∷ l) =
      let d = delete_behind-Deletes p (q ∷ l) 0 in
      (d.rest, d.kept, d.thins, let c = d.count in omega arith)
