-- ===== src/WaypointUtils.antt =====
-- src/viam/trajex/totg/waypoint_utils.cpp: thinning out waypoints that stand together, and cutting a
-- sequence where the motion turns back.
pub mod Thinning
pub mod Dedup
pub mod Reversals
pub mod Cutting
use trajex.Prelude.{
  ℕ, Bool, not, ◌&&◌, none, some, List, [], ◌∷◌, ◌++◌, ltb, if◌then◌else◌, length, Result, ok,
  ◌>>=◌,
}
use trajex.Double.{Double, lt}
use trajex.Xtensor.{Xtensor}
use trajex.Waypoints.{Accumulator, from_waypoint, add_waypoint, back, pop_back}

abbrev pub Batch : Type 0 → Type 0
Batch D = Accumulator (List D)

abbrev pub row_width : {D : Type 0} → List D → ℕ
row_width r = length r

module _ {D : Type 0} ⦃d : Double D⦄ ⦃x : Xtensor D⦄ where
  -- xt::norm_linf(waypoint - kept) > tolerance
  unfoldable pub is_far : D → List D → List D → Bool
  is_far tolerance kept waypoint = lt tolerance (x.norm_linf (x.minus waypoint kept))

  -- The lambda of the loop over all waypoints but the first.
  keep_if_far : D → Batch D → List D → Result (Batch D)
  unfolding back add_waypoint is_far
  keep_if_far tolerance result waypoint = elim (back result) [
    | none ↦ ok result
    | some kept ↦
        if is_far tolerance kept waypoint then add_waypoint row_width result waypoint else ok result
  ]

  keep_far : D → Batch D → List (List D) → Result (Batch D)
  unfolding keep_if_far
  keep_far tolerance result [] = ok result
  keep_far tolerance result (w ∷ ws) =
      keep_if_far tolerance result w >>= λ r. keep_far tolerance r ws

  -- The destination replaces the last kept waypoint, unless that is the only one.
  restore_last : Batch D → List D → Result (Batch D)
  unfolding back pop_back add_waypoint
  restore_last result destination = elim (back result) [
    | none ↦ ok result
    | some kept ↦
        if ltb 1 (length result.waypoints) && not (x.row_eq kept destination)
        then add_waypoint row_width (pop_back result) destination
        else ok result
  ]

  unfoldable pub deduplicate_waypoints : Batch D → D → Result (Batch D)
  unfolding keep_far restore_last from_waypoint
  deduplicate_waypoints waypoints tolerance = elim waypoints.waypoints [
    | [] ↦ ok waypoints
    | first ∷ rest ↦ do
      result ← keep_far tolerance (from_waypoint row_width first) rest
      elim (back waypoints) [
        | none ↦ ok result
        | some destination ↦ restore_last result destination
      ]
  ]

  -- The middle of three waypoints is a cusp if the motion turns back there.
  unfoldable pub is_cusp : D → List D → List D → List D → Bool
  is_cusp threshold before where_ after =
      let ab = x.minus where_ before in
      let bc = x.minus after where_ in
      let dot = x.sum (x.times (x.over ab (x.norm_l2 ab)) (x.over bc (x.norm_l2 bc))) in
      lt (d.magnitude (d.add dot d.one)) threshold

  -- The loop from the waypoint behind `before` to the end. Its last waypoint ends the last segment.
  cut_from :
      D → List (Batch D) → Batch D → List D → List D → List (List D) → Result (List (Batch D))
  unfolding is_cusp add_waypoint from_waypoint
  cut_from threshold segments current before where_ [] = do
    current' ← add_waypoint row_width current where_
    ok (segments ++ current' ∷ [])
  cut_from threshold segments current before where_ (after ∷ rest) = do
    current' ← add_waypoint row_width current where_
    let turn = is_cusp threshold before where_ after
    cut_from threshold (if turn then segments ++ current' ∷ [] else segments)
        (if turn then from_waypoint row_width where_ else current') where_ after rest

  unfoldable pub segment_at_reversals : Batch D → D → Result (List (Batch D))
  unfolding cut_from
  segment_at_reversals waypoints threshold = elim waypoints.waypoints [
    | [] ↦ ok (waypoints ∷ [])
    | a ∷ [] ↦ ok (waypoints ∷ [])
    | a ∷ b ∷ [] ↦ ok (waypoints ∷ [])
    | a ∷ b ∷ c ∷ rest ↦ cut_from threshold [] (from_waypoint row_width a) a b (c ∷ rest)
  ]
