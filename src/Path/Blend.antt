-- ===== src/Path/Blend.antt =====
-- path::options, and the lambda try_create_blend of path::create (path.cpp): the arc that rounds a
-- corner.
use trajex.Double.{Double, lt, le, eq, min_of, two}
use trajex.Xtensor.{Xtensor}
use trajex.Path.{clamp}
use trajex.Path.Segment.{Circular, circular_arc}
use trajex.Prelude.{
  curvatures_crossed, bad_max_curvature, bad_min_curvature, bad_linear_deviation,
  bad_blend_deviation, Bool, not, ◌||◌, Option, none, some, List, if◌then◌else◌, Result, ok, ◌>>=◌,
  ◌>>◌, throw_if,
}

pub record PathOptions (D : Type 0) : Type 0 where
  pub max_blend_deviation : D
  pub max_linear_deviation : D
  pub min_blend_curvature : D
  pub max_blend_curvature : D

-- blend_geometry
pub record Blend (D : Type 0) : Type 0 where
  pub arc : Circular D
  pub trim_distance : D
  pub takes_half_incoming : Bool
  pub takes_half_outgoing : Bool

module _ {D : Type 0} where
  unfoldable pub set_max_blend_deviation : PathOptions D → D → PathOptions D
  set_max_blend_deviation opts deviation = record opts { max_blend_deviation = deviation }

  unfoldable pub set_max_linear_deviation : PathOptions D → D → PathOptions D
  set_max_linear_deviation opts deviation = record opts { max_linear_deviation = deviation }

  unfoldable pub set_max_deviation : PathOptions D → D → PathOptions D
  set_max_deviation opts deviation =
      set_max_linear_deviation (set_max_blend_deviation opts deviation) deviation

  unfoldable pub set_max_blend_curvature : PathOptions D → D → PathOptions D
  set_max_blend_curvature opts curvature = record opts { max_blend_curvature = curvature }

  unfoldable pub set_min_blend_curvature : PathOptions D → D → PathOptions D
  set_min_blend_curvature opts curvature = record opts { min_blend_curvature = curvature }

module _ {D : Type 0} ⦃d : Double D⦄ where
  -- The checks of the options in path::create.
  unfoldable pub check_options : PathOptions D → Result (Unit {0})
  check_options opts = do
    throw_if (not (d.is_finite opts.max_blend_deviation) || lt opts.max_blend_deviation d.nought)
        bad_blend_deviation
    throw_if (not (d.is_finite opts.max_linear_deviation) || lt opts.max_linear_deviation d.nought)
        bad_linear_deviation
    throw_if (not (d.is_finite opts.min_blend_curvature) || le opts.min_blend_curvature d.nought)
        bad_min_curvature
    throw_if (not (d.is_finite opts.max_blend_curvature) || lt opts.max_blend_curvature d.nought)
        bad_max_curvature
    throw_if (lt opts.max_blend_curvature opts.min_blend_curvature) curvatures_crossed

  -- What the deviation and half of each segment leave to be trimmed.
  unfoldable pub natural_trim : PathOptions D → D → D → D → D
  natural_trim opts incoming_norm outgoing_norm tan_quarter =
      let max_trim_from_segments = min_of (d.div incoming_norm two) (d.div outgoing_norm two) in
      if le (d.mul max_trim_from_segments tan_quarter) opts.max_blend_deviation
      then max_trim_from_segments
      else d.div opts.max_blend_deviation tan_quarter

  -- The trim, capped where the corner is nearly straight; `none` where it nearly reverses.
  unfoldable pub trim_for : PathOptions D → D → D → D → Option D
  unfolding natural_trim
  trim_for opts incoming_norm outgoing_norm angle =
      let half_angle = d.div angle two in
      let tan_half = d.tan half_angle in
      let natural = natural_trim opts incoming_norm outgoing_norm (d.tan (d.div half_angle two)) in
      if lt (d.mul opts.max_blend_curvature natural) tan_half
      then none
      else some (min_of natural (d.div tan_half opts.min_blend_curvature))

module _ {D : Type 0} ⦃d : Double D⦄ ⦃x : Xtensor D⦄ where
  -- The arc itself, from the trim on.
  unfoldable pub blend_arc : List D → List D → List D → D → D → D → D → Result (Blend D)
  unfolding circular_arc
  blend_arc corner incoming_unit outgoing_unit incoming_norm outgoing_norm angle trim_distance =
      let half_angle = d.div angle two in
      let radius = d.div trim_distance (d.tan half_angle) in
      let bisector = x.minus outgoing_unit incoming_unit in
      let bisector_unit = x.over bisector (x.norm_l2 bisector) in
      let center_offset = d.div radius (d.cos half_angle) in
      let center = x.plus corner (x.scale center_offset bisector_unit) in
      let blend_start = x.minus corner (x.scale trim_distance incoming_unit) in
      let x_vec_raw = x.minus blend_start center in
      let x_vec =
        x.minus x_vec_raw (x.scale (x.sum (x.times x_vec_raw incoming_unit)) incoming_unit) in
      let x_unit = x.over x_vec (x.norm_l2 x_vec) in
      circular_arc center x_unit incoming_unit radius angle >>= λ arc. ok (record {
        arc = arc;
        trim_distance = trim_distance;
        takes_half_incoming = eq trim_distance (d.div incoming_norm two);
        takes_half_outgoing = eq trim_distance (d.div outgoing_norm two);
      })

  -- The corner between two unit directions: no arc where they agree, or are opposite.
  unfoldable pub blend_corner :
      PathOptions D → List D → List D → List D → D → D → Result (Option (Blend D))
  unfolding trim_for blend_arc
  blend_corner opts corner incoming_unit outgoing_unit incoming_norm outgoing_norm =
      let dot_clamped = clamp (x.sum (x.times incoming_unit outgoing_unit)) (d.neg d.one) d.one in
      if eq dot_clamped d.one || eq dot_clamped (d.neg d.one)
      then ok none
      else let angle = d.acos dot_clamped in
        elim (trim_for opts incoming_norm outgoing_norm angle) [
          | none ↦ ok none
          | some trim_distance ↦
              blend_arc corner incoming_unit outgoing_unit incoming_norm outgoing_norm angle
                trim_distance
              >>= λ blend. ok (some blend)
        ]

  -- try_create_blend
  unfoldable pub try_create_blend :
      PathOptions D → List D → List D → List D → Result (Option (Blend D))
  unfolding blend_corner
  try_create_blend opts current_pos corner next_waypoint =
      if le opts.max_blend_deviation d.nought
      then ok none
      else let incoming = x.minus corner current_pos in
        let outgoing = x.minus next_waypoint corner in
        let incoming_norm = x.norm_l2 incoming in
        let outgoing_norm = x.norm_l2 outgoing in
        let incoming_unit = x.over incoming incoming_norm in
        let outgoing_unit = x.over outgoing outgoing_norm in
        if (le incoming_norm d.nought || le outgoing_norm d.nought)
          || x.row_eq incoming_unit outgoing_unit
        then ok none
        else blend_corner opts corner incoming_unit outgoing_unit incoming_norm outgoing_norm
