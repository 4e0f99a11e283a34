-- ===== src/Warmup/Points/Order.antt =====
-- sp_add_point of warmup/sorted_points.c: the order of the list.
use operating_system_ece.Common.{◌≡◌, refl, true, false, ◌&&◌, List, [], ◌∷◌, Bool-cases, inl, inr}
use operating_system_ece.Warmup.Points.{
  Doubles, Comparison, smaller, equal, larger, Point, point_compare, place, add_round, add_at,
  sp_add_point,
}

-- What the order on `double` is to be.
pub record IsOrder (D : Doubles) : Type 0 where
  pub asym : (a b : D.Double) → D.less a b ≡ true → D.less b a ≡ false
  pub same_not_less :
      (a b : D.Double) → D.same a b ≡ true → (D.less a b ≡ false) × (D.less b a ≡ false)

module _ (D : Doubles) where
  -- How far a point is from the origin
  abbrev pub norm : Point D → D.Double
  norm p = D.sqrt (D.plus (D.times p.x p.x) (D.times p.y p.y))

  -- `p` is not farther from the origin than `q`.
  abbrev pub Before : Point D → Point D → Type 0
  Before p q = D.less (norm q) (norm p) ≡ false

  abbrev pub Sorted : List (Point D) → Type 0
  Sorted [] = Unit {0}
  Sorted (p ∷ []) = Unit {0}
  Sorted (p ∷ q ∷ l) = Before p q × Sorted (q ∷ l)

  -- The list with `p` put in somewhere
  pub data Inserts (p : Point D) : List (Point D) → List (Point D) → Type 0 where
    here : {l : List (Point D)} → Inserts p l (p ∷ l)
    later : {q : Point D} {l l' : List (Point D)} → Inserts p l l' → Inserts p (q ∷ l) (q ∷ l')

  abbrev Compares : Comparison → Point D → Point D → Type 0
  Compares smaller p q = Before p q
  Compares equal p q = Before p q × Before q p
  Compares larger p q = Before q p

  place-cases :
      (P : List (Point D) → Type 0) (c : Comparison) (p cur : Point D) (rest : List (Point D))
      → P (p ∷ cur ∷ rest)
      → P (cur ∷ p ∷ rest)
      → P (place D c p cur rest)
  unfolding place
  place-cases P smaller p cur rest before behind = before
  place-cases P larger p cur rest before behind = behind
  place-cases P equal p cur rest before behind =
      elim (Bool-cases (D.same p.x cur.x && D.same p.y cur.y)) [
        | inl y ↦ rw y before
        | inr n ↦ elim (Bool-cases (D.less p.x cur.x)) [
          | inl a ↦ rw (n, a) before
          | inr b ↦ elim (Bool-cases (D.less cur.x p.x)) [
            | inl e ↦ rw (n, b, e) behind
            | inr f ↦ elim (Bool-cases (D.less p.y cur.y)) [
              | inl g ↦ rw (n, b, f, g) before
              | inr h ↦ rw (n, b, f, h) behind
            ]
          ]
        ]
      ]

  add_round-cases :
      (P : List (Point D) → Type 0) (c : Comparison) (p cur : Point D)
      (rest further : List (Point D))
      → P (p ∷ cur ∷ rest)
      → P further
      → P (add_round D c p cur rest further)
  unfolding add_round place
  add_round-cases P smaller p cur rest further a b = a
  add_round-cases P equal p cur rest further a b = b
  add_round-cases P larger p cur rest further a b = b

  add_at-Inserts :
      (p cur : Point D) (rest : List (Point D)) → Inserts p (cur ∷ rest) (add_at D p cur rest)
  unfolding add_at
  add_at-Inserts p cur [] =
      place-cases (Inserts p (cur ∷ [])) (point_compare D p cur) p cur [] here (later here)
  add_at-Inserts p cur (next ∷ rest) =
      add_round-cases (Inserts p (cur ∷ next ∷ rest)) (point_compare D p cur) p cur (next ∷ rest)
        (cur ∷ add_at D p next rest) here (later (add_at-Inserts p next rest))

  -- The new list begins with the new point or with the current one.
  add_at-cases :
      (P : List (Point D) → Type 0) (p cur : Point D) (rest : List (Point D))
      → P (p ∷ cur ∷ rest)
      → ((l : List (Point D)) → P (cur ∷ l))
      → P (add_at D p cur rest)
  unfolding add_at
  add_at-cases P p cur [] a b = place-cases P (point_compare D p cur) p cur [] a (b (p ∷ []))
  add_at-cases P p cur (next ∷ rest) a b =
      add_round-cases P (point_compare D p cur) p cur (next ∷ rest) (cur ∷ add_at D p next rest) a
        (b (add_at D p next rest))

  module _ (o : IsOrder D) where
    point_compare_lem : (p q : Point D) → Compares (point_compare D p q) p q
    unfolding point_compare
    point_compare_lem p q =
        let a = norm p in
        let b = norm q in
        elim (Bool-cases (D.less a b)) [
          | inl y ↦ rw y (o.asym a b y)
          | inr n ↦ elim (Bool-cases (D.same a b)) [
            | inl s ↦ rw (n, s) ((o.same_not_less a b s).1, n)
            | inr m ↦ elim (Bool-cases (D.less b a)) [
              | inl l ↦ rw (n, m, l) n
              | inr g ↦ rw (n, m, g) (g, n)
            ]
          ]
        ]

    Sorted-place :
        (c : Comparison) (p cur : Point D) → Compares c p cur → Sorted (place D c p cur [])
    unfolding place
    Sorted-place smaller p cur m = (m, tt)
    Sorted-place larger p cur m = (m, tt)
    Sorted-place equal p cur m = place-cases Sorted equal p cur [] (m.0, tt) (m.1, tt)

    -- A list that begins with the new point or the current one
    cons-add_at :
        (q p cur : Point D) (rest : List (Point D))
        → Before q p
        → Before q cur
        → Sorted (add_at D p cur rest)
        → Sorted (q ∷ add_at D p cur rest)
    cons-add_at q p cur rest a b =
        add_at-cases (λ l. Sorted l → Sorted (q ∷ l)) p cur rest (λ s. (a, s)) (λ l s. (b, s))

    Sorted-add_round :
        (c : Comparison) (p cur : Point D) (rest further : List (Point D))
        → Compares c p cur
        → Sorted (cur ∷ rest)
        → (Before cur p → Sorted further)
        → Sorted (add_round D c p cur rest further)
    unfolding add_round place
    Sorted-add_round smaller p cur rest further m s f = (m, s)
    Sorted-add_round equal p cur rest further m s f = f m.1
    Sorted-add_round larger p cur rest further m s f = f m

    Sorted-add_at :
        (p cur : Point D) (rest : List (Point D))
        → Sorted (cur ∷ rest)
        → Sorted (add_at D p cur rest)
    unfolding add_at
    Sorted-add_at p cur [] s = Sorted-place (point_compare D p cur) p cur (point_compare_lem p cur)
    Sorted-add_at p cur (next ∷ rest) (b, s) =
        Sorted-add_round (point_compare D p cur) p cur (next ∷ rest) (cur ∷ add_at D p next rest)
          (point_compare_lem p cur) (b, s)
          (λ m. cons-add_at cur p next rest m b (Sorted-add_at p next rest s))

    -- `sp_add_point` puts its point into the list, keeps the other points in their order, and keeps a
    -- sorted list sorted by the distance from the origin, for any order on `double` in which `<` is
    -- asymmetric and excludes `==`.
    pub sp_add_point-Sorted :
        (l : List (Point D)) (p : Point D)
        → Sorted l
        → Sorted (sp_add_point D l p) × Inserts p l (sp_add_point D l p)
    unfolding sp_add_point
    sp_add_point-Sorted [] p s = (tt, here)
    sp_add_point-Sorted (cur ∷ rest) p s = (Sorted-add_at p cur rest s, add_at-Inserts p cur rest)

    -- Of two points at the same distance the one with the smaller x is to come first. It does not where
    -- a farther point follows: the loop stops there, and compares the coordinates with that point only.
    pub tie_out_of_order :
        (p q r : Point D)
        → D.same (norm p) (norm q) ≡ true
        → D.less p.x q.x ≡ true
        → D.less (norm p) (norm r) ≡ true
        → sp_add_point D (q ∷ r ∷ []) p ≡ q ∷ p ∷ r ∷ []
    unfolding sp_add_point add_at add_round place point_compare
    tie_out_of_order p q r s x f =
        let n = (o.same_not_less (norm p) (norm q) s).0 in rw (n, s, f) refl
