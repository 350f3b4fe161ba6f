-- ===== src/Trajectory/Limits/Acceleration.antt =====
-- compute_acceleration_limit (trajectory.cpp), against Eq. 31 of Kunz and Stilman, which takes a
-- square root for each bound.
use trajex.Double.{Double, lt, le, min_of}
use trajex.Double.Order.{min_of-le}
use trajex.Double.Ieee.{IsIeee}
use trajex.Trajectory.Limits.{
  Joint, is_still, speed_limit, curvature_difference, pair_limits, all_pair_limits, still_limits,
  compute_acceleration_limit,
}
use trajex.Prelude.{
  ℕ, suc, ◌≡◌, refl, sym, ap, ◌∙◌, subst, ◌⊎◌, inl, inr, true, ◌||◌, some, List, [], ◌∷◌, ◌++◌,
  arith, if◌then◌else◌, Bool-cases, get_elem?, All,
}

module _ {D : Type 0} ⦃d : Double D⦄ (epsilon : D) where
  -- The squares of the bounds that the joints set: by pairs that bend differently, and alone.
  abbrev pub pair_bounds : Joint D → List (Joint D) → List D
  pair_bounds i [] = []
  pair_bounds i (j ∷ js) =
      (if is_still epsilon j || lt (curvature_difference i j) epsilon
        then []
        else d.div (d.add (speed_limit i) (speed_limit j)) (curvature_difference i j) ∷ [])
      ++ pair_bounds i js

  abbrev pub all_pair_bounds : List (Joint D) → List D
  all_pair_bounds [] = []
  all_pair_bounds (i ∷ js) =
      (if is_still epsilon i then [] else pair_bounds i js) ++ all_pair_bounds js

  abbrev pub still_bounds : List (Joint D) → List D
  still_bounds [] = []
  still_bounds (i ∷ js) =
      (if le epsilon (d.magnitude i.q_prime) || lt (d.magnitude i.q_double_prime) epsilon
        then []
        else d.div i.bound (d.magnitude i.q_double_prime) ∷ [])
      ++ still_bounds js

  -- The least of some doubles and a start.
  abbrev pub least_of : List D → D → D
  least_of [] m = m
  least_of (c ∷ l) m = least_of l (min_of m c)

  least_of-append : (l r : List D) (m : D) → least_of (l ++ r) m ≡ least_of r (least_of l m)
  least_of-append [] r m = refl
  least_of-append (c ∷ l) r m = least_of-append l r (min_of m c)

  pair_limits_lem :
      (i : Joint D) (js : List (Joint D)) (m : D)
      → pair_limits epsilon i js m ≡ least_of (pair_bounds i js) m
  unfolding pair_limits
  pair_limits_lem i [] m = refl
  pair_limits_lem i (j ∷ js) m =
      elim (Bool-cases (is_still epsilon j || lt (curvature_difference i j) epsilon)) [
        | inl none_here ↦ rw (none_here, pair_limits) (pair_limits_lem i js m)
        | inr here ↦ rw (here, pair_limits) (pair_limits_lem i js _)
      ]

  all_pair_limits_lem :
      (js : List (Joint D)) (m : D) → all_pair_limits epsilon js m ≡ least_of (all_pair_bounds js) m
  unfolding all_pair_limits
  all_pair_limits_lem [] m = refl
  all_pair_limits_lem (i ∷ js) m = elim (Bool-cases (is_still epsilon i)) [
    | inl still ↦ rw (still, all_pair_limits) (all_pair_limits_lem js m)
    | inr moves ↦
        rw (moves, all_pair_limits)
          (all_pair_limits_lem js (pair_limits epsilon i js m)
            ∙ ap (least_of (all_pair_bounds js)) (pair_limits_lem i js m)
            ∙ sym (least_of-append (pair_bounds i js) (all_pair_bounds js) m))
  ]

  still_limits_lem :
      (js : List (Joint D)) (m : D) → still_limits epsilon js m ≡ least_of (still_bounds js) m
  unfolding still_limits
  still_limits_lem [] m = refl
  still_limits_lem (i ∷ js) m =
      elim (Bool-cases
        (le epsilon (d.magnitude i.q_prime) || lt (d.magnitude i.q_double_prime) epsilon)) [
          | inl none_here ↦ rw (none_here, still_limits) (still_limits_lem js m)
          | inr here ↦ rw (here, still_limits) (still_limits_lem js _)
        ]

  -- All the bounds, squared.
  abbrev pub squared_bounds : List (Joint D) → List D
  squared_bounds js = all_pair_bounds js ++ still_bounds js

  limit_lem :
      (js : List (Joint D))
      → compute_acceleration_limit epsilon js ≡ d.sqrt (least_of (squared_bounds js) d.infinity)
  unfolding compute_acceleration_limit
  limit_lem js = ap d.sqrt (
      still_limits_lem js (all_pair_limits epsilon js d.infinity)
      ∙ ap (least_of (still_bounds js)) (all_pair_limits_lem js d.infinity)
      ∙ sym (least_of-append (all_pair_bounds js) (still_bounds js) d.infinity))

  abbrev IsPositive : D → Type 0
  IsPositive c = le d.nought c ≡ true

  least_of-IsPositive :
      (l : List D) (m : D) → All IsPositive l → IsPositive m → IsPositive (least_of l m)
  least_of-IsPositive [] m h p = p
  least_of-IsPositive (c ∷ l) m h p =
      least_of-IsPositive l (min_of m c) h.1 (min_of-le m c d.nought p h.0)

  least_of-start :
      (l : List D) (m a : D)
      → All IsPositive l
      → IsPositive m
      → le m a ≡ true
      → le (least_of l m) a ≡ true
  least_of-start [] m a h p e = e
  least_of-start (c ∷ l) m a h p e =
      least_of-start l (min_of m c) a h.1 (min_of-le m c d.nought p h.0)
        (let q = h.0 in ground arith)

  least_of-All :
      (l : List D) (m : D)
      → All IsPositive l
      → IsPositive m
      → All (λ c. le (least_of l m) c ≡ true) l
  least_of-All [] m h p = tt
  least_of-All (c ∷ l) m h p =
      let q = min_of-le m c d.nought p h.0 in
      (
        least_of-start l (min_of m c) c h.1 q (let r = h.0 in ground arith),
        least_of-All l (min_of m c) h.1 q,
      )

  least_of-found :
      (l : List D) (m : D) → (least_of l m ≡ m) ⊎ ((i : ℕ) × (get_elem? l i ≡ some (least_of l m)))
  least_of-found [] m = inl refl
  least_of-found (c ∷ l) m = elim (least_of-found l (min_of m c)) [
    | inr (i, e) ↦ inr (suc i, e)
    | inl e ↦ elim (Bool-cases (lt c m)) [
      | inl lower ↦ let same : min_of m c ≡ c = rw lower refl in inr (0, ap some (sym (e ∙ same)))
      | inr above ↦ let same : min_of m c ≡ m = rw above refl in inl (e ∙ same)
    ]
  ]

  -- The square root preserves the order of doubles that are not negative.
  abbrev pub IsMonotone : (D → D) → Type 0
  IsMonotone f = (a b : D) → le d.nought a ≡ true → le a b ≡ true → le (f a) (f b) ≡ true

  All-sqrt :
      (m : D) (l : List D)
      → IsMonotone d.sqrt
      → IsPositive m
      → All (λ c. le m c ≡ true) l
      → All (λ c. le (d.sqrt m) (d.sqrt c) ≡ true) l
  All-sqrt m [] mono p h = tt
  All-sqrt m (c ∷ l) mono p h = (mono m c p h.0, All-sqrt m l mono p h.1)

  -- With the doubles of IEEE 754 and a square root that preserves the order, and where no squared
  -- bound is negative or NaN: the acceleration limit is at or below the square root of each squared
  -- bound, and it is the square root of one of them, or of infinity.
  pub compute_acceleration_limit-least :
      (js : List (Joint D))
      → IsIeee D
      → IsMonotone d.sqrt
      → All (λ c. le d.nought c ≡ true) (squared_bounds js)
      → All (λ c. le (compute_acceleration_limit epsilon js) (d.sqrt c) ≡ true) (squared_bounds js)
        × ((compute_acceleration_limit epsilon js ≡ d.sqrt d.infinity)
            ⊎ ((c : D) × (i : ℕ) × (get_elem? (squared_bounds js) i ≡ some c)
                × (compute_acceleration_limit epsilon js ≡ d.sqrt c)))
  compute_acceleration_limit-least js ieee mono h =
      let m = least_of (squared_bounds js) d.infinity in
      let start : IsPositive d.infinity = ground (
        arith,
        ieee.below_infinity d.nought ieee.nought_number,
        ieee.nought_number,
        ieee.infinity_number,
      ) in
      let p = least_of-IsPositive (squared_bounds js) d.infinity h start in
      let below =
        All-sqrt m (squared_bounds js) mono p
          (least_of-All (squared_bounds js) d.infinity h start) in
      (
        subst (λ t. All (λ c. le t (d.sqrt c) ≡ true) (squared_bounds js)) (sym (limit_lem js))
            below,
        elim (least_of-found (squared_bounds js) d.infinity) [
          | inl e ↦ inl (limit_lem js ∙ ap d.sqrt e)
          | inr (i, e) ↦ inr (m, i, e, limit_lem js)
        ],
      )
