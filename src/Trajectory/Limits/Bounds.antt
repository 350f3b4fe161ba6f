-- ===== src/Trajectory/Limits/Bounds.antt =====
-- compute_acceleration_bounds_unchecked (trajectory.cpp).
use trajex.Double.{Double, le, min_of, max_of, IsNumber}
use trajex.Double.Order.{
  max_of-IsNumber, min_of-IsNumber, le-max_of, max_of-le, le-min_of, min_of-le,
}
use trajex.Double.Ieee.{IsIeee}
use trajex.Trajectory.Limits.{
  Joint, AccelerationBounds, is_still, min_from_joint, max_from_joint, tighten, tighten_all,
  compute_acceleration_bounds_unchecked,
}
use trajex.Prelude.{
  ◌≡◌, refl, sym, subst, ◌↔◌, ◌⊎◌, inl, inr, true, false, List, [], ◌∷◌, arith, Bool-cases, All,
}

module _ {D : Type 0} ⦃d : Double D⦄ (epsilon s_dot : D) where
  -- An acceleration between two bounds.
  abbrev pub Within : D → AccelerationBounds D → Type 0
  Within a b = (le b.s_ddot_min a ≡ true) × (le a b.s_ddot_max ≡ true)

  -- An acceleration that a joint allows: any, if it stands still.
  abbrev pub Allows : D → Joint D → Type 0
  Allows a j =
      (is_still epsilon j ≡ true)
      ⊎ ((le (min_from_joint s_dot j) a ≡ true) × (le a (max_from_joint s_dot j) ≡ true))

  -- The joint stands still, or its two bounds are numbers.
  abbrev pub IsReal : Joint D → Type 0
  IsReal j =
      (is_still epsilon j ≡ true)
      ⊎ (IsNumber (min_from_joint s_dot j) × IsNumber (max_from_joint s_dot j))

  abbrev Numbers : AccelerationBounds D → Type 0
  Numbers b = IsNumber b.s_ddot_min × IsNumber b.s_ddot_max

  abbrev Narrows : D → Joint D → AccelerationBounds D → AccelerationBounds D → Type 0
  Narrows a j b b' =
      Numbers b' × (Within a b' → Within a b × Allows a j) × (Within a b → Allows a j → Within a b')

  unmoved :
      (a : D) (j : Joint D) (b : AccelerationBounds D)
      → is_still epsilon j ≡ true
      → Numbers b
      → Narrows a j b (tighten epsilon s_dot j b)
  unmoved a j b still nb =
      let e : tighten epsilon s_dot j b ≡ b = rw still refl in
      subst (Narrows a j b) (sym e) (nb, (λ w. (w, inl still)), (λ w _. w))

  moved :
      (a : D) (j : Joint D) (b : AccelerationBounds D)
      → is_still epsilon j ≡ false
      → IsNumber (min_from_joint s_dot j)
      → IsNumber (max_from_joint s_dot j)
      → Numbers b
      → Narrows a j b (tighten epsilon s_dot j b)
  moved a j b moves lo hi nb =
      let b' : AccelerationBounds D = record {
        s_ddot_min = max_of b.s_ddot_min (min_from_joint s_dot j);
        s_ddot_max = min_of b.s_ddot_max (max_from_joint s_dot j);
      } in
      let e : tighten epsilon s_dot j b ≡ b' = rw moves refl in
      subst (Narrows a j b) (sym e) (
        (max_of-IsNumber b.s_ddot_min _ nb.0 lo, min_of-IsNumber b.s_ddot_max _ nb.1 hi),
        (λ w.
            let (p, q) = le-max_of b.s_ddot_min (min_from_joint s_dot j) a nb.0 lo w.0 in
            let (r, t) = le-min_of b.s_ddot_max (max_from_joint s_dot j) a nb.1 hi w.1 in
            ((p, r), inr (q, t))),
        (λ w. elim [
          | inl still ↦ cc
          | inr (q, t) ↦ (
            max_of-le b.s_ddot_min (min_from_joint s_dot j) a w.0 q,
            min_of-le b.s_ddot_max (max_from_joint s_dot j) a w.1 t,
          )
        ]),
      )

  tighten-Narrows :
      (a : D) (j : Joint D) (b : AccelerationBounds D)
      → IsReal j
      → Numbers b
      → Narrows a j b (tighten epsilon s_dot j b)
  tighten-Narrows a j b (inl still) nb = unmoved a j b still nb
  tighten-Narrows a j b (inr (lo, hi)) nb = elim (Bool-cases (is_still epsilon j)) [
    | inl still ↦ unmoved a j b still nb
    | inr moves ↦ moved a j b moves lo hi nb
  ]

  tighten_all_lem :
      (a : D) (js : List (Joint D)) (b : AccelerationBounds D)
      → All IsReal js
      → Numbers b
      → (Within a (tighten_all epsilon s_dot js b) → Within a b × All (Allows a) js)
        × (Within a b → All (Allows a) js → Within a (tighten_all epsilon s_dot js b))
  unfolding tighten_all
  tighten_all_lem a [] b real nb = ((λ w. (w, tt)), (λ w _. w))
  tighten_all_lem a (j ∷ js) b real nb =
      let (nb', out, back) = tighten-Narrows a j b real.0 nb in
      let (outs, backs) = tighten_all_lem a js (tighten epsilon s_dot j b) real.1 nb' in
      (
        (λ w. let (v, rest) = outs w in let (u, here) = out v in (u, (here, rest))),
        (λ w h. backs (back w h.0) h.1),
      )

  -- With the doubles of IEEE 754, and joints that stand still or have bounds that are numbers: an
  -- acceleration that is a number is between the unchecked bounds exactly if each joint allows it.
  pub unchecked-Within :
      (js : List (Joint D)) (a : D)
      → IsIeee D
      → All IsReal js
      → IsNumber a
      → Within a (compute_acceleration_bounds_unchecked epsilon s_dot js) ↔ All (Allows a) js
  unfolding compute_acceleration_bounds_unchecked
  unchecked-Within js a ieee real n =
      let b : AccelerationBounds D = record {
        s_ddot_min = d.neg d.infinity;
        s_ddot_max = d.infinity;
      } in
      let (out, back) =
        tighten_all_lem a js b real (ieee.neg_infinity_number, ieee.infinity_number) in
      let wide : Within a b = (
        ground (arith, ieee.above_neg_infinity a n, ieee.neg_infinity_number),
        ground (arith, ieee.below_infinity a n, ieee.infinity_number),
      ) in
      ((λ w. (out w).1), (λ h. back wide h))
