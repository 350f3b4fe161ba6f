-- ===== src/Trajectory/Limits/JointSpeed.antt =====
-- compute_joint_velocity_limit (trajectory.cpp).
use mathlib.Core.List.{append-nil, append_assoc}
use trajex.Double.{Double, lt, le, IsNumber}
use trajex.Trajectory.Limits.{
  Joint, JointVelocityLimit, is_still, speed_limit, take_lower, lowest_limit,
  compute_joint_velocity_limit,
}
use trajex.Prelude.{
  ℕ, zero, suc, ◌≤◌, ◌≡◌, refl, sym, ap, subst, ◌⊎◌, inl, inr, true, false, some, List, [], ◌∷◌,
  ◌++◌, arith, Bool-cases, length, get_elem?, take, All, length-append, All-append, take-append_le,
}

module _ {ℓ} {A : Type ℓ} where
  get_elem?-append_left :
      (xs ys : List A) (i : ℕ) {a : A} → get_elem? xs i ≡ some a → get_elem? (xs ++ ys) i ≡ some a
  get_elem?-append_left [] ys i e = cc
  get_elem?-append_left (x ∷ xs) ys zero e = e
  get_elem?-append_left (x ∷ xs) ys (suc i) e = get_elem?-append_left xs ys i e

  get_elem?-append_at :
      (xs : List A) (y : A) (ys : List A) → get_elem? (xs ++ y ∷ ys) (length xs) ≡ some y
  get_elem?-append_at [] y ys = refl
  get_elem?-append_at (x ∷ xs) y ys = get_elem?-append_at xs y ys

  take-append_self : (xs ys : List A) → take (length xs) (xs ++ ys) ≡ xs
  take-append_self [] ys = refl
  take-append_self (x ∷ xs) ys = ap (◌∷◌ x) (take-append_self xs ys)

module _ {D : Type 0} ⦃d : Double D⦄ (epsilon : D) where
  -- The joint moves along the path, and its limit is at or below this one.
  abbrev pub IsBelow : D → Joint D → Type 0
  IsBelow limit j = (is_still epsilon j ≡ false) × (le (speed_limit j) limit ≡ true)

  -- The joint's limit is not below this one.
  abbrev pub Respects : D → Joint D → Type 0
  Respects limit j = (is_still epsilon j ≡ true) ⊎ (lt (speed_limit j) limit ≡ false)

  abbrev pub IsLimiting : List (Joint D) → JointVelocityLimit D → Type 0
  IsLimiting js r =
      (j : Joint D) × (get_elem? js r.index ≡ some j)
      × (is_still epsilon j ≡ false)
      × (r.limit ≡ speed_limit j)
      × (r.index ≤ length js)
      × All (λ k. ¬ IsBelow r.limit k) (take r.index js)

  -- The least limit among the joints that move, and the first joint at it.
  pub record IsLowest (js : List (Joint D)) (r : JointVelocityLimit D) : Type 0 where
    pub number : IsNumber r.limit
    pub least : All (Respects r.limit) js
    pub attained : ((r.limit ≡ d.infinity) × (r.index ≡ 0)) ⊎ IsLimiting js r

  stays :
      (done : List (Joint D)) (j : Joint D) (best : JointVelocityLimit D)
      → IsLowest done best
      → Respects best.limit j
      → IsLowest (done ++ j ∷ []) best
  stays done j best h above = record {
    number = h.number;
    least = All-append (Respects best.limit) done (j ∷ []) h.least (above, tt);
    attained = elim h.attained [
      | inl none_yet ↦ inl none_yet
      | inr (k, at, moves, same, within, first) ↦ inr (
        k,
        get_elem?-append_left done (j ∷ []) best.index at,
        moves,
        same,
        omega (arith, length-append done (j ∷ [])),
        subst (All (λ q. ¬ IsBelow best.limit q))
            (sym (take-append_le best.index done (j ∷ []) within)) first,
      )
    ];
  }

  not-IsBelow :
      (limit lower : D) (k : Joint D) → lt lower limit ≡ true → Respects limit k → ¬ IsBelow lower k
  not-IsBelow limit lower k h (inl still) b = cc
  not-IsBelow limit lower k h (inr above) b = absurd (ground arith)

  Respects-lower :
      (limit lower : D) (k : Joint D) → lt lower limit ≡ true → Respects limit k → Respects lower k
  Respects-lower limit lower k h (inl still) = inl still
  Respects-lower limit lower k h (inr above) = inr (ground arith)

  All-imp :
      (P Q : Joint D → Type 0) (l : List (Joint D))
      → ((k : Joint D) → P k → Q k)
      → All P l
      → All Q l
  All-imp P Q [] f h = tt
  All-imp P Q (k ∷ l) f h = (f k h.0, All-imp P Q l f h.1)

  drops :
      (done : List (Joint D)) (j : Joint D) (best : JointVelocityLimit D)
      → IsLowest done best
      → is_still epsilon j ≡ false
      → lt (speed_limit j) best.limit ≡ true
      → IsLowest (done ++ j ∷ []) (record { limit = speed_limit j; index = length done })
  drops done j best h moves lower = record {
    number = ground arith;
    least =
        All-append (Respects (speed_limit j)) done (j ∷ [])
          (All-imp (Respects best.limit) (Respects (speed_limit j)) done
            (λ k r. Respects-lower best.limit (speed_limit j) k lower r) h.least)
          (inr (ground arith), tt);
    attained = inr (
      j,
      get_elem?-append_at done j [],
      moves,
      refl,
      omega (arith, length-append done (j ∷ [])),
      subst (All (λ q. ¬ IsBelow (speed_limit j) q)) (sym (take-append_self done (j ∷ []))) (
          All-imp (Respects best.limit) (λ q. ¬ IsBelow (speed_limit j) q) done
            (λ k r. not-IsBelow best.limit (speed_limit j) k lower r) h.least),
    );
  }

  take_lower-IsLowest :
      (done : List (Joint D)) (j : Joint D) (best : JointVelocityLimit D)
      → IsLowest done best
      → IsLowest (done ++ j ∷ []) (take_lower epsilon (length done) j best)
  take_lower-IsLowest done j best h = elim (Bool-cases (is_still epsilon j)) [
    | inl still ↦ rw still (stays done j best h (inl still))
    | inr moves ↦ elim (Bool-cases (lt (speed_limit j) best.limit)) [
      | inl lower ↦ rw moves (rw lower (drops done j best h moves lower))
      | inr above ↦ rw moves (rw above (stays done j best h (inr above)))
    ]
  ]

  lowest_limit-IsLowest :
      (rest done : List (Joint D)) (best : JointVelocityLimit D)
      → IsLowest done best
      → IsLowest (done ++ rest) (lowest_limit epsilon (length done) rest best)
  unfolding lowest_limit
  lowest_limit-IsLowest [] done best h = subst (λ l. IsLowest l best) (sym (append-nil done)) h
  lowest_limit-IsLowest (j ∷ rest) done best h =
      let best' = take_lower epsilon (length done) j best in
      let at : length (done ++ j ∷ []) ≡ suc (length done) =
        omega (arith, length-append done (j ∷ [])) in
      subst (λ n. IsLowest (done ++ j ∷ rest) (lowest_limit epsilon n rest best')) at
        (subst (λ l. IsLowest l (lowest_limit epsilon (length (done ++ j ∷ [])) rest best'))
          (append_assoc done (j ∷ []) rest)
          (lowest_limit-IsLowest rest (done ++ j ∷ []) best' (take_lower-IsLowest done j best h)))

  -- If infinity is a number, the joint limit is a number too. No joint that moves along the path has a
  -- limit below it; and it is infinite and its joint is joint 0, or it is the limit of its joint, which
  -- moves, and no joint before that one has a limit at or below it.
  pub compute_joint_velocity_limit-IsLowest :
      (js : List (Joint D))
      → IsNumber d.infinity
      → IsLowest js (compute_joint_velocity_limit epsilon js)
  unfolding compute_joint_velocity_limit
  compute_joint_velocity_limit-IsLowest js number =
      lowest_limit-IsLowest js [] (record { limit = d.infinity; index = 0 })
        (record { number = number; least = tt; attained = inl (refl, refl) })
