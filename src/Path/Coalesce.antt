-- ===== src/Path/Coalesce.antt =====
-- The colinearization of path::create (path.cpp): a waypoint is dropped while it and those dropped
-- before it stay in a tube around the segment from the last kept waypoint to the one behind it. The
-- two loops over iterators are one recursion over the waypoints that are left: where the inner loop
-- breaks, its candidate becomes the base of the outer loop, which adds it.
pub mod Tube
use trajex.Double.{Double, lt, le, eq, two}
use trajex.Xtensor.{Xtensor}
use trajex.Waypoints.{from_waypoint, add_waypoint}
use trajex.WaypointUtils.{Batch, row_width}
use trajex.Prelude.{
  ℕ, zero, suc, ◌+◌, ◌-◌, ◌*◌, ◌/◌, ◌%◌, ◌≤◌, ◌<◌, ◌≡◌, refl, sym, ap, ◌∙◌, subst, ◌≢◌, ◌↔◌, ◌⊎◌,
  inl, inr, Bool, true, false, not, ◌&&◌, ◌||◌, Option, none, some, List, [], ◌∷◌, ◌++◌, map, arith,
  ltb, leb, ◌==◌, if◌then◌else◌, Bool-cases, Option-cases, length, get_elem?, take, drop, drop_last,
  last?, All, length-append, length-take, length-drop, take-length, last?-append_one,
  drop_last-append_one, length-drop_last, All-append, All-drop, All-take, All-last?, zero_cases,
  get_elem?-some, length-map, take-append_le, replicate, length-replicate, All-replicate,
  All-get_elem?, Error, Result, ok, err, ◌>>=◌, ◌>>◌, throw_if, Result-cases, Holds, Holds-bind,
  Holds-all, Holds-map, Holds-at, Holds-throw_if, Holds-then,
}

-- std::ranges::all_of
abbrev pub all_of {ℓ} : {A : Type ℓ} → (A → Bool) → List A → Bool
all_of f [] = true
all_of f (a ∷ l) = f a && all_of f l

module _ {D : Type 0} ⦃d : Double D⦄ ⦃x : Xtensor D⦄ where
  -- locus_within_tolerance, over the context that begin_segment has set.
  unfoldable pub locus_within_tolerance : D → List D → List D → D → List D → Bool
  locus_within_tolerance radius start start_to_next length_sq locus =
      let start_to_locus = x.minus locus start in
      let dot = x.sum (x.times start_to_locus start_to_next) in
      if lt dot d.nought || lt length_sq dot
      then false
      else let t = d.div dot length_sq in
        let projected_point = x.plus start (x.scale t start_to_next) in
        le (x.norm_l2 (x.minus locus projected_point)) radius

  -- The conditions of the inner loop: begin_segment, the candidate, and those already skipped.
  unfoldable pub can_skip : D → List D → List (List D) → List D → List D → Bool
  unfolding locus_within_tolerance
  can_skip radius base skipped candidate target =
      let start_to_next = x.minus target base in
      let length_sq = x.sum (x.times start_to_next start_to_next) in
      let within : List D → Bool = locus_within_tolerance radius base start_to_next length_sq in
      not (x.all_zero start_to_next) && (within candidate && all_of within skipped)

  coalesce_from : D → Batch D → List D → List (List D) → List (List D) → Result (Batch D)
  unfolding can_skip add_waypoint
  coalesce_from radius colinearized base skipped [] = ok colinearized
  coalesce_from radius colinearized base skipped (candidate ∷ []) =
      add_waypoint row_width colinearized candidate
  coalesce_from radius colinearized base skipped (candidate ∷ target ∷ rest) =
      elim (can_skip radius base skipped candidate target) [
        | true ↦ coalesce_from radius colinearized base (skipped ++ candidate ∷ []) (target ∷ rest)
        | false ↦ add_waypoint row_width colinearized candidate >>= λ added.
            coalesce_from radius added candidate [] (target ∷ rest)
      ]

  -- The waypoints that the path goes through.
  unfoldable pub colinearize : D → Batch D → Result (Batch D)
  unfolding coalesce_from from_waypoint
  colinearize max_linear_deviation waypoints =
      if eq max_linear_deviation d.nought then ok waypoints else elim waypoints.waypoints [
        | [] ↦ ok waypoints
        | base ∷ rest ↦
            coalesce_from (d.div max_linear_deviation two) (from_waypoint row_width base) base []
              rest
      ]
