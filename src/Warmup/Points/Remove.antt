-- ===== src/Warmup/Points/Remove.antt =====
-- The functions of warmup/sorted_points.c that take points out of the list.
use operating_system_ece.Common.{
  ℕ, suc, ◌+◌, ◌≤◌, ◌≡◌, refl, true, false, Option, none, some, List, [], ◌∷◌, ◌++◌, length, ℤ, pos,
  negsuc, same_index, arith, Bool-cases, inl, inr, ap,
}
use operating_system_ece.Warmup.Points.{
  Doubles, Point, keep, remove_last_at, sp_remove_last, remove_at, sp_remove_by_index,
}

module _ (D : Doubles) where
  -- A removal from the list at an index
  pub record Removes (l : List (Point D)) (p : Point D) (l' : List (Point D)) (index : ℕ)
      : Type 0 where
    pub before : List (Point D)
    pub behind : List (Point D)
    pub whole : l ≡ before ++ p ∷ behind
    pub left : l' ≡ before ++ behind
    pub at : length before ≡ index

  abbrev pub RemovesLast : List (Point D) → Option (Point D × List (Point D)) → Type 0
  RemovesLast l none = l ≡ []
  RemovesLast l (some (p, l')) = l ≡ l' ++ p ∷ []

  keep-RemovesLast :
      (cur next : Point D) (rest : List (Point D)) (r : Option (Point D × List (Point D)))
      → RemovesLast (next ∷ rest) r
      → RemovesLast (cur ∷ next ∷ rest) (keep D cur r)
  unfolding keep
  keep-RemovesLast cur next rest none h = let none_left = ap length h in absurd (omega arith)
  keep-RemovesLast cur next rest (some (p, l)) h = ap (λ t. cur ∷ t) h

  remove_last_at-RemovesLast :
      (cur : Point D) (rest : List (Point D)) → RemovesLast (cur ∷ rest) (remove_last_at D cur rest)
  unfolding remove_last_at
  remove_last_at-RemovesLast cur [] = refl
  remove_last_at-RemovesLast cur (next ∷ rest) =
      keep-RemovesLast cur next rest (remove_last_at D next rest)
        (remove_last_at-RemovesLast next rest)

  -- `sp_remove_last` takes the last point off the list, and fails exactly on the empty list.
  pub sp_remove_last_lem : (l : List (Point D)) → RemovesLast l (sp_remove_last D l)
  unfolding sp_remove_last
  sp_remove_last_lem [] = refl
  sp_remove_last_lem (cur ∷ rest) = remove_last_at-RemovesLast cur rest

  -- The result at an index that counts from `current`
  abbrev RemovesFrom : ℤ → ℕ → List (Point D) → Option (Point D × List (Point D)) → Type 0
  RemovesFrom (pos n) current l none = (current ≤ n) → current + length l ≤ n
  RemovesFrom (pos n) current l (some (p, l')) = (i : ℕ) × (current + i ≡ n) × Removes l p l' i
  RemovesFrom (negsuc n) current l none = Unit {0}
  RemovesFrom (negsuc n) current l (some r) = ⊥

  keep-RemovesFrom :
      (index : ℤ) (current : ℕ) (cur : Point D) (rest : List (Point D))
      (r : Option (Point D × List (Point D)))
      → same_index index (some current) ≡ false
      → RemovesFrom index (current + 1) rest r
      → RemovesFrom index current (cur ∷ rest) (keep D cur r)
  unfolding keep
  keep-RemovesFrom (pos n) current cur rest none e h =
      λ l. let far = h (ground arith) in omega arith
  keep-RemovesFrom (pos n) current cur rest (some (p, l)) e (i, s, r) = (
    suc i,
    omega arith,
    record {
      before = cur ∷ r.before;
      behind = r.behind;
      whole = ap (λ t. cur ∷ t) r.whole;
      left = ap (λ t. cur ∷ t) r.left;
      at = let a = r.at in omega arith;
    },
  )
  keep-RemovesFrom (negsuc n) current cur rest none e h = h
  keep-RemovesFrom (negsuc n) current cur rest (some r) e h = h

  found-RemovesFrom :
      (index : ℤ) (current : ℕ) (cur : Point D) (rest : List (Point D))
      → same_index index (some current) ≡ true
      → RemovesFrom index current (cur ∷ rest) (some (cur, rest))
  found-RemovesFrom (pos n) current cur rest e =
      (0, ground arith, record { before = []; behind = rest; whole = refl; left = refl; at = refl })
  found-RemovesFrom (negsuc n) current cur rest e = ground arith

  missing-RemovesFrom :
      (index : ℤ) (current : ℕ) (cur : Point D)
      → same_index index (some current) ≡ false
      → RemovesFrom index current (cur ∷ []) none
  missing-RemovesFrom (pos n) current cur e = λ l. ground arith
  missing-RemovesFrom (negsuc n) current cur e = tt

  remove_at-RemovesFrom :
      (index : ℤ) (current : ℕ) (cur : Point D) (rest : List (Point D))
      → RemovesFrom index current (cur ∷ rest) (remove_at D index current cur rest)
  unfolding remove_at
  remove_at-RemovesFrom index current cur [] = elim (Bool-cases (same_index index (some current))) [
    | inl y ↦ rw y (found-RemovesFrom index current cur [] y)
    | inr n ↦ rw n (missing-RemovesFrom index current cur n)
  ]
  remove_at-RemovesFrom index current cur (next ∷ rest) =
      elim (Bool-cases (same_index index (some current))) [
        | inl y ↦ rw y (found-RemovesFrom index current cur (next ∷ rest) y)
        | inr n ↦ rw n (
            keep-RemovesFrom index current cur (next ∷ rest)
              (remove_at D index (current + 1) next rest) n
              (remove_at-RemovesFrom index (current + 1) next rest))
      ]

  -- The point at an index, or a failure
  abbrev pub RemovesAt : List (Point D) → ℤ → Option (Point D × List (Point D)) → Type 0
  RemovesAt l (pos n) none = length l ≤ n
  RemovesAt l (pos n) (some (p, l')) = Removes l p l' n
  RemovesAt l (negsuc n) none = Unit {0}
  RemovesAt l (negsuc n) (some r) = ⊥

  from_start :
      (l : List (Point D)) (index : ℤ) (r : Option (Point D × List (Point D)))
      → RemovesFrom index 0 l r
      → RemovesAt l index r
  from_start l (pos n) none h = let far = h (omega arith) in omega arith
  from_start l (pos n) (some (p, l')) (i, e, r) = record {
    before = r.before;
    behind = r.behind;
    whole = r.whole;
    left = r.left;
    at = let a = r.at in omega arith;
  }
  from_start l (negsuc n) none h = h
  from_start l (negsuc n) (some r) h = h

  -- `sp_remove_by_index` takes the point out of the list that `index` others precede, and keeps the
  -- others in their order; it fails exactly when the list is too short or the index is negative.
  pub sp_remove_by_index_lem :
      (l : List (Point D)) (index : ℤ) → RemovesAt l index (sp_remove_by_index D l index)
  unfolding sp_remove_by_index
  sp_remove_by_index_lem [] (pos n) = omega arith
  sp_remove_by_index_lem [] (negsuc n) = tt
  sp_remove_by_index_lem (cur ∷ rest) index =
      from_start (cur ∷ rest) index (remove_at D index 0 cur rest)
        (remove_at-RemovesFrom index 0 cur rest)
