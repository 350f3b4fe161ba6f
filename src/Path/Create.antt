-- ===== src/Path/Create.antt =====
-- path::create (path.cpp): the loop that lays out lines and arcs from waypoint to waypoint.
pub mod Layout
pub mod Polyline
pub mod Advancing
pub mod Views
use trajex.Double.{Double, lt, le, eq}
use trajex.Xtensor.{Xtensor}
use trajex.Path.{PositionedSegment, TotgPath}
use trajex.Path.Segment.{Segment, linear, circular, Linear, Circular, linear_along, linear_between}
use trajex.Path.Blend.{PathOptions, Blend, try_create_blend, check_options}
use trajex.Path.Coalesce.{colinearize}
use trajex.WaypointUtils.{Batch}
use trajex.Prelude.{
  ℕ, zero, suc, ◌+◌, ◌-◌, ◌*◌, ◌/◌, ◌%◌, ◌≤◌, ◌<◌, ◌≡◌, refl, sym, ap, ◌∙◌, subst, ◌≢◌, ◌↔◌, ◌⊎◌,
  inl, inr, Bool, true, false, not, ◌&&◌, ◌||◌, Option, none, some, List, [], ◌∷◌, ◌++◌, map, arith,
  ltb, leb, ◌==◌, if◌then◌else◌, Bool-cases, Option-cases, length, get_elem?, take, drop, drop_last,
  last?, All, length-append, length-take, length-drop, take-length, last?-append_one,
  drop_last-append_one, length-drop_last, All-append, All-drop, All-take, All-last?, zero_cases,
  get_elem?-some, length-map, take-append_le, replicate, length-replicate, All-replicate,
  All-get_elem?, Error, Result, ok, err, ◌>>=◌, ◌>>◌, throw_if, Result-cases, Holds, Holds-bind,
  Holds-all, Holds-map, Holds-at, Holds-throw_if, too_few_waypoints, no_path,
}

-- The variables of the loop.
pub record Builder (D : Type 0) : Type 0 where
  pub segments : List (PositionedSegment (Segment D) D)
  pub cumulative_length : D
  pub segment_start : List D
  pub current_position : List D
  pub previous_blend_takes_half : Bool

module _ {D : Type 0} ⦃d : Double D⦄ where
  -- segments.push_back, and the length that is added behind it.
  unfoldable pub push : Builder D → Segment D → D → Builder D
  push b seg len = record b {
    segments = b.segments ++ record { seg = seg; start = b.cumulative_length } ∷ [];
    cumulative_length = d.add b.cumulative_length len;
  }

  -- There is a value strictly between the ends of the line to the blend.
  unfoldable pub has_inside : D → D → Bool
  has_inside span_start span_end =
      lt span_start span_end
      && le (d.next_after span_start span_end) (d.next_after span_end span_start)

module _ {D : Type 0} ⦃d : Double D⦄ ⦃x : Xtensor D⦄ where
  -- The line up to the blend, if there is room for one.
  unfoldable pub emit_incoming : Builder D → List D → Blend D → Result (Builder D)
  unfolding push has_inside linear_along
  emit_incoming b locus blend =
      let incoming = x.minus locus b.current_position in
      let dist_to_locus = x.norm_l2 incoming in
      let incoming_unit = x.over incoming dist_to_locus in
      let segment_fully_consumed = b.previous_blend_takes_half && blend.takes_half_incoming in
      let incoming_length = d.sub dist_to_locus blend.trim_distance in
      let span_end = d.add b.cumulative_length incoming_length in
      if not segment_fully_consumed && has_inside b.cumulative_length span_end
      then (linear_along b.current_position incoming_unit incoming_length >>= λ l.
          ok (push b (linear l) incoming_length))
      else ok b

  unfoldable pub emit_blend : Builder D → List D → List D → Blend D → Result (Builder D)
  unfolding emit_incoming push
  emit_blend b locus next blend = do
    with_line ← emit_incoming b locus blend
    let with_arc = push with_line (circular blend.arc) (d.mul blend.arc.radius blend.arc.angle_rads)
    let outgoing = x.minus next locus
    let outgoing_unit = x.over outgoing (x.norm_l2 outgoing)
    ok (record with_arc {
      current_position = x.plus locus (x.scale blend.trim_distance outgoing_unit);
      segment_start = locus;
      previous_blend_takes_half = blend.takes_half_outgoing;
    })

  -- A line to a waypoint that is not rounded.
  unfoldable pub emit_line : Builder D → List D → Result (Builder D)
  unfolding push linear_between
  emit_line b locus = do
    l ← linear_between b.current_position locus
    ok (record (push b (linear l) l.length) {
      current_position = locus;
      segment_start = locus;
      previous_blend_takes_half = false;
    })

  unfoldable pub emit_corner : PathOptions D → Builder D → List D → List D → Result (Builder D)
  unfolding emit_blend emit_line try_create_blend
  emit_corner opts b locus next = try_create_blend opts b.segment_start locus next >>= λ blend_opt.
      elim blend_opt [ none ↦ emit_line b locus | some blend ↦ emit_blend b locus next blend ]

  unfoldable pub build_segments : PathOptions D → Builder D → List (List D) → Result (Builder D)
  unfolding emit_corner emit_line
  build_segments opts b [] = ok b
  build_segments opts b (locus ∷ []) = emit_line b locus
  build_segments opts b (locus ∷ next ∷ rest) =
      emit_corner opts b locus next >>= λ b'. build_segments opts b' (next ∷ rest)

  abbrev pub started_at : List D → Builder D
  started_at first = record {
    segments = [];
    cumulative_length = d.nought;
    segment_start = first;
    current_position = first;
    previous_blend_takes_half = false;
  }

  -- The path, unless there is no segment.
  unfoldable pub finish : ℕ → Builder D → Result (TotgPath (Segment D) D)
  finish dof b = do
    throw_if (length b.segments == 0) no_path
    ok (record { segments = b.segments; dof = dof; total = b.cumulative_length })

  -- The path through waypoints that have been thinned out.
  unfoldable pub create_through :
      PathOptions D → ℕ → List (List D) → Result (TotgPath (Segment D) D)
  unfolding build_segments finish
  create_through opts dof [] = err no_path
  create_through opts dof (first ∷ rest) =
      build_segments opts (started_at first) rest >>= λ b. finish dof b

  -- path::create
  unfoldable pub create : Batch D → PathOptions D → Result (TotgPath (Segment D) D)
  unfolding check_options colinearize create_through
  create waypoints opts = do
    throw_if (ltb (length waypoints.waypoints) 2) too_few_waypoints
    check_options opts
    through ← colinearize opts.max_linear_deviation waypoints
    create_through opts waypoints.dof through.waypoints
