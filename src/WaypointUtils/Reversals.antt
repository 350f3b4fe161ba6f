-- ===== src/WaypointUtils/Reversals.antt =====
-- What `segment_at_reversals` returns.
use mathlib.Core.List.{append_assoc}
use trajex.Prelude.{
  ℕ, ◌≤◌, ◌<◌, ◌≡◌, refl, ap, ◌∙◌, inl, inr, List, [], ◌∷◌, ◌++◌, map, arith, Bool-cases, length,
  All, ok,
}
use trajex.Double.{Double}
use trajex.Xtensor.{Xtensor}
use trajex.WaypointUtils.{Batch, is_cusp, cut_from, segment_at_reversals}
use trajex.WaypointUtils.Dedup.{IsEven, add_waypoint_lem, from_waypoint_lem}
use trajex.WaypointUtils.Cutting.{segments, IsCut, segments-IsCut}

module _ {D : Type 0} where
  abbrev pub of_rows : ℕ → List (List D) → Batch D
  of_rows w l = record { dof = w; waypoints = l }

module _ {D : Type 0} ⦃d : Double D⦄ ⦃x : Xtensor D⦄ (threshold : D) where
  cut_from_lem :
      (rest : List (List D)) (w : ℕ) (done : List (Batch D)) (current : List (List D))
      (before where_ : List D)
      → All (λ r. length r ≡ w) (where_ ∷ rest)
      → cut_from threshold done (of_rows w current) before where_ rest
        ≡ ok (done ++ map (of_rows w) (segments (is_cusp threshold) current before where_ rest))
  unfolding cut_from segments
  cut_from_lem [] w done current before where_ even =
      rw (add_waypoint_lem (of_rows w current) where_ even.0)
  cut_from_lem (after ∷ rest) w done current before where_ even =
      elim (Bool-cases (is_cusp threshold before where_ after)) [
        | inl t ↦
            rw (add_waypoint_lem (of_rows w current) where_ even.0, t, cut_from)
              (rw (from_waypoint_lem where_ w even.0) (
                cut_from_lem rest w (done ++ of_rows w (current ++ where_ ∷ []) ∷ []) (where_ ∷ [])
                  where_ after even.1
                ∙ ap ok (
                    append_assoc done (of_rows w (current ++ where_ ∷ []) ∷ []) (
                      map (of_rows w)
                        (segments (is_cusp threshold) (where_ ∷ []) where_ after rest)))))
        | inr f ↦
            rw (add_waypoint_lem (of_rows w current) where_ even.0, f, cut_from)
              (cut_from_lem rest w done (current ++ where_ ∷ []) where_ after even.1)
      ]

  -- On waypoints of one width `segment_at_reversals` succeeds. Fewer than three come back as one
  -- segment. Of more it makes one segment more than there are cusps inside the sequence; each has two
  -- waypoints or more and no cusp inside, each ends in the waypoint that the next begins with, and
  -- with these taken once the segments are the sequence again.
  pub segment_at_reversals_lem :
      (a : Batch D)
      → IsEven a
      → (ls : List (List (List D))) × (segment_at_reversals a threshold
          ≡ ok (map (of_rows a.dof) ls))
        × (length a.waypoints < 3 → ls ≡ a.waypoints ∷ [])
        × (3 ≤ length a.waypoints → IsCut (is_cusp threshold) a.waypoints ls)
  unfolding segment_at_reversals
  segment_at_reversals_lem a even = go a.dof a.waypoints even
    where
      go :
          (w : ℕ) (l : List (List D))
          → All (λ r. length r ≡ w) l
          → (ls : List (List (List D))) × (segment_at_reversals (of_rows w l) threshold
              ≡ ok (map (of_rows w) ls))
            × (length l < 3 → ls ≡ l ∷ [])
            × (3 ≤ length l → IsCut (is_cusp threshold) l ls)
      go w [] ev = (([] ∷ []), refl, (λ _. refl), λ h. absurd (omega arith))
      go w (p ∷ []) ev = (((p ∷ []) ∷ []), refl, (λ _. refl), λ h. absurd (omega arith))
      go w (p ∷ q ∷ []) ev = (((p ∷ q ∷ []) ∷ []), refl, (λ _. refl), λ h. absurd (omega arith))
      go w (p ∷ q ∷ r ∷ rest) ev = (
        segments (is_cusp threshold) (p ∷ []) p q (r ∷ rest),
        rw ev.0 (cut_from_lem (r ∷ rest) w [] (p ∷ []) p q ev.1),
        (λ h. absurd (omega arith)),
        λ _. segments-IsCut (is_cusp threshold) (r ∷ rest) [] p q tt,
      )

  -- On three or more waypoints of one width `segment_at_reversals` succeeds. It makes one segment
  -- more than there are cusps inside the sequence; each segment has two waypoints or more and no
  -- cusp inside, each ends in the waypoint that the next begins with, and with these taken once the
  -- segments are the sequence again.
  pub segment_at_reversals-IsCut :
      (a : Batch D)
      → IsEven a
      → 3 ≤ length a.waypoints
      → (ls : List (List (List D))) × (segment_at_reversals a threshold
          ≡ ok (map (of_rows a.dof) ls))
        × IsCut (is_cusp threshold) a.waypoints ls
  segment_at_reversals-IsCut a even h =
      let (ls, e, _, cut) = segment_at_reversals_lem a even in (ls, e, cut h)
