-- ===== src/Trajectory/Switching/Acceleration.antt =====
-- The search for a switching point on the acceleration limit curve (trajectory.cpp,
-- find_acceleration_switching_point): at the extrema of joints inside of an arc, then at the end of the
-- segment. The loop runs for a number of rounds, and the result is `none` when they are used up.
use trajex.Double.{Double, lt, le, eq, min_of, max_of}
use trajex.Path.{TotgPath, View, Cursor, seek, base, view_at}
use trajex.Path.Rich.{hint_view}
use trajex.Path.Segment.{
  Segment, Circular, linear, circular, tangent_of, curvature_of, configuration_of,
}
use trajex.Trajectory.Stepping.{half}
use trajex.Trajectory.Limits.{
  TrajectoryOptions, LimitCurves, wrap_eq, wrap_lt, joints, compute_limit_curves,
  compute_acceleration_limit, compute_acceleration_bounds,
}
use trajex.Trajectory.Switching.{
  SwitchingPoint, nondifferentiable_extremum, discontinuous_curvature, wrap_le,
}
use trajex.Trajectory.Switching.Velocity.{unless_found}
use trajex.Prelude.{
  ℕ, zero, suc, Bool, true, false, ◌&&◌, ◌||◌, Option, none, some, List, [], ◌∷◌, ◌==◌,
  if◌then◌else◌, Result, ok, err, ◌>>=◌, fault,
}

-- A place in a segment.
pub record Placed (D : Type 0) : Type 0 where
  pub segment : View (Segment D) D
  pub s : D

module _ {D : Type 0} ⦃d : Double D⦄ where
  -- The place where one joint has its extremum on an arc, if it is on the arc and not behind.
  unfoldable pub extremum_of : D → Circular D → D → D → D → Option D
  extremum_of start arc position x y =
      let raw = d.atan2 y x in
      let extremum_angle = if lt raw d.nought then d.add raw d.pi else raw in
      let s_global = d.add start (d.mul arc.radius (min_of extremum_angle arc.angle_rads)) in
      if eq x d.nought && eq y d.nought
      then none
      else if lt (d.add arc.angle_rads (d.mul (d.of_size 4) d.machine_epsilon)) extremum_angle
      then none
      else if lt s_global position
      then none
      else some s_global

  -- std::ranges::sort
  unfoldable pub insert_in_order : D → List D → List D
  insert_in_order a [] = a ∷ []
  insert_in_order a (b ∷ l) =
      let rest = insert_in_order a l in if lt b a then b ∷ rest else a ∷ b ∷ l

  unfoldable pub extrema : D → Circular D → D → List D → List D → List D
  unfolding extremum_of insert_in_order
  extrema start arc position (x ∷ xs) (y ∷ ys) =
      let rest = extrema start arc position xs ys in
      elim (extremum_of start arc position x y) [ none ↦ rest | some s ↦ insert_in_order s rest ]
  extrema start arc position _ _ = []

module _ {D : Type 0} ⦃d : Double D⦄ (p : TotgPath (Segment D) D) (opt : TrajectoryOptions D) where
  -- The acceleration limit in a segment.
  unfoldable pub limit_in : View (Segment D) D → D → Result D
  limit_in v s = do
    q_prime ← tangent_of v s
    q_double_prime ← curvature_of v s
    ok (compute_acceleration_limit opt.epsilon (joints q_prime q_double_prime opt.max_acceleration))

  -- The other segment, if the acceleration limit is continuous across the boundary, or this one.
  unfoldable pub continue_into :
      View (Segment D) D → D → View (Segment D) D → D → D → Result (Placed D)
  unfolding limit_in
  continue_into current current_end other other_end s = do
    at_other ← limit_in other other_end
    at_current ← limit_in current current_end
    ok (record {
      segment = if wrap_eq opt.epsilon at_other at_current then other else current;
      s = s;
    })

  -- before_candidate and its segment
  unfoldable pub before_candidate : Cursor D → View (Segment D) D → D → Result (Placed D)
  unfolding continue_into
  before_candidate cursor current candidate = do
    let before = max_of d.nought (d.sub candidate opt.epsilon)
    placed ← elim (lt before current.start) [
      | false ↦ ok (record { segment = current; s = before })
      | true ↦ elim (base p (seek p cursor candidate)) [
        | zero ↦ ok (record { segment = current; s = before })
        | suc i ↦ elim (view_at p i) [
          | none ↦ err fault
          | some prior ↦
              continue_into current current.start prior prior.stop (max_of before prior.start)
        ]
      ]
    ]
    ok (record placed { s = max_of placed.s placed.segment.start })

  -- The segment behind the candidate's: the next one where the candidate is not yet in it.
  abbrev pub behind : Cursor D → D → ℕ
  behind cursor candidate =
      let i = base p (seek p cursor candidate) in if i == base p cursor then suc i else i

  -- after_candidate and its segment
  unfoldable pub after_candidate : Cursor D → View (Segment D) D → D → Result (Placed D)
  unfolding limit_in
  after_candidate cursor current candidate = do
    let after = min_of p.total (d.add candidate opt.epsilon)
    placed ← elim (lt current.stop after) [
      | false ↦ ok (record { segment = current; s = after })
      | true ↦ elim (view_at p (behind cursor candidate)) [
        | none ↦ ok (record { segment = current; s = after })
        | some next ↦ do
          at_current ← limit_in current current.stop
          at_next ← limit_in next next.start
          ok (record {
            segment = if wrap_eq opt.epsilon at_current at_next then next else current;
            s = min_of after next.stop;
          })
      ]
    ]
    ok (record placed { s = min_of placed.s placed.segment.stop })

  -- The candidate is a local minimum of the acceleration limit.
  unfoldable pub is_local_minimum : Cursor D → View (Segment D) D → D → D → Result Bool
  unfolding before_candidate after_candidate limit_in
  is_local_minimum cursor current candidate s_dot_max_acc = do
    before ← before_candidate cursor current candidate
    after ← after_candidate cursor current candidate
    let half_epsilon = d.mul opt.epsilon half
    elim (wrap_eq half_epsilon before.s candidate || wrap_eq half_epsilon candidate after.s) [
      | true ↦ ok false
      | false ↦ do
        s_dot_before ← limit_in before.segment before.s
        s_dot_after ← limit_in after.segment after.s
        ok (lt s_dot_max_acc s_dot_before && lt s_dot_max_acc s_dot_after)
    ]

  -- One candidate: below the velocity limit, and a local minimum.
  unfoldable pub judge_extremum :
      Cursor D → View (Segment D) D → D → Result (Option (SwitchingPoint D))
  unfolding is_local_minimum
  judge_extremum cursor current candidate = do
    q_prime ← tangent_of current candidate
    q_double_prime ← curvature_of current candidate
    q ← configuration_of current candidate
    curves ← compute_limit_curves q q_prime q_double_prime opt
    elim (wrap_lt opt.epsilon curves.s_dot_max_vel curves.s_dot_max_acc) [
      | true ↦ ok none
      | false ↦ do
        minimal ← is_local_minimum cursor current candidate curves.s_dot_max_acc
        ok (
            if minimal
            then some (record {
              point = record { s = candidate; s_dot = curves.s_dot_max_acc };
              kind = nondifferentiable_extremum;
              forward_accel = some d.nought;
              backward_accel = some d.nought;
            })
            else none)
    ]

  unfoldable pub first_extremum :
      Cursor D → View (Segment D) D → List D → Result (Option (SwitchingPoint D))
  unfolding judge_extremum
  first_extremum cursor current [] = ok none
  first_extremum cursor current (s ∷ candidates) = do
    found ← judge_extremum cursor current s
    elim found [ some sp ↦ ok (some sp) | none ↦ first_extremum cursor current candidates ]

  -- Case 2, on an arc.
  unfoldable pub extremal_switching_point :
      Cursor D → View (Segment D) D → Result (Option (SwitchingPoint D))
  unfolding extrema first_extremum
  extremal_switching_point cursor current = elim current.of_segment [
    | linear _ ↦ ok none
    | circular arc ↦
        first_extremum cursor current (extrema current.start arc cursor.position arc.x arc.y)
  ]

  -- Case A: the limit steps up; whether it is a switching point, and the forward acceleration.
  unfoldable pub step_up : View (Segment D) D → D → D → Result (Option (Bool × D))
  step_up current boundary acc_before = do
    let before_boundary = max_of (d.sub boundary opt.epsilon) current.start
    let actual_step_left = d.sub boundary before_boundary
    elim (lt actual_step_left (d.mul opt.epsilon half)) [
      | true ↦ ok none
      | false ↦ do
        q_prime ← tangent_of current before_boundary
        q_double_prime ← curvature_of current before_boundary
        let js = joints q_prime q_double_prime opt.max_acceleration
        let acc_bb = compute_acceleration_limit opt.epsilon js
        let slope_left = d.div (d.sub acc_before acc_bb) actual_step_left
        bounds ← compute_acceleration_bounds opt.epsilon acc_bb js
        ok (some (le slope_left (d.div bounds.s_ddot_min acc_bb), bounds.s_ddot_max))
    ]

  -- Case B: the limit steps down.
  unfoldable pub step_down : View (Segment D) D → D → D → Result (Option (Bool × D))
  step_down segment_after boundary acc_after = do
    let after_boundary = min_of (d.add boundary opt.epsilon) segment_after.stop
    let actual_step_right = d.sub after_boundary boundary
    elim (lt actual_step_right (d.mul opt.epsilon half)) [
      | true ↦ ok none
      | false ↦ do
        q_prime ← tangent_of segment_after after_boundary
        q_double_prime ← curvature_of segment_after after_boundary
        let js = joints q_prime q_double_prime opt.max_acceleration
        let acc_ab = compute_acceleration_limit opt.epsilon js
        let slope_right = d.div (d.sub acc_ab acc_after) actual_step_right
        bounds ← compute_acceleration_bounds opt.epsilon acc_ab js
        ok (some (le (d.div bounds.s_ddot_max acc_ab) slope_right, bounds.s_ddot_max))
    ]

  -- compute_limit_curves in a segment
  unfoldable pub curves_in : View (Segment D) D → D → Result (LimitCurves D)
  curves_in v s = do
    q_prime ← tangent_of v s
    q_double_prime ← curvature_of v s
    q ← configuration_of v s
    compute_limit_curves q q_prime q_double_prime opt

  -- Case 1: the step of the limit at the end of a segment.
  unfoldable pub boundary_switching_point :
      View (Segment D) D → View (Segment D) D → D → Result (Option (SwitchingPoint D))
  unfolding curves_in step_up step_down
  boundary_switching_point current segment_after boundary = do
    before ← curves_in current boundary
    after ← curves_in segment_after boundary
    let s_dot = min_of before.s_dot_max_acc after.s_dot_max_acc
    step ← elim (lt before.s_dot_max_acc after.s_dot_max_acc) [
      | true ↦ step_up current boundary before.s_dot_max_acc
      | false ↦ elim (lt after.s_dot_max_acc before.s_dot_max_acc) [
        | true ↦ step_down segment_after boundary after.s_dot_max_acc
        | false ↦ ok none
      ]
    ]
    elim step [
      | none ↦ ok none
      | some r ↦ ok (
          if r.0 && wrap_le opt.epsilon s_dot (min_of before.s_dot_max_vel after.s_dot_max_vel)
          then some (record {
            point = record { s = boundary; s_dot = s_dot };
            kind = discontinuous_curvature;
            forward_accel = some r.1;
            backward_accel = none;
          })
          else none)
    ]

  -- The loop of find_acceleration_switching_point.
  unfoldable pub acceleration_from : ℕ → D → Cursor D → Result (Option (Option (SwitchingPoint D)))
  unfolding extremal_switching_point boundary_switching_point unless_found
  acceleration_from zero max_search_hint cursor = ok none
  acceleration_from (suc n) max_search_hint cursor = hint_view p cursor >>= λ current.
      extremal_switching_point cursor current >>= λ extremal.
      unless_found
        (λ _. elim (le p.total current.stop || lt max_search_hint current.stop) [
          | true ↦ ok (some none)
          | false ↦
              let moved = seek p cursor current.stop in
              hint_view p moved >>= λ segment_after.
              boundary_switching_point current segment_after current.stop >>= λ found.
              unless_found (λ _. acceleration_from n max_search_hint moved) found
        ])
        extremal

  -- find_acceleration_switching_point
  unfoldable pub find_acceleration_switching_point :
      ℕ → Cursor D → D → Result (Option (Option (SwitchingPoint D)))
  unfolding acceleration_from
  find_acceleration_switching_point n cursor max_search_hint =
      acceleration_from n max_search_hint cursor
