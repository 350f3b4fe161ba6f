-- ===== src/Trajectory/Forward.antt =====
-- The forward integration of trajectory::create (trajectory.cpp, integrate_forward_from): one
-- pass of its loop, which ends in a further point or in the place where a switching point is
-- needed. The integration points stand newest first. The rounds are those of its bisection. The
-- run has no observer; the cursor, a rich one in the source, is the plain cursor that it caches
-- the geometry of.
use trajex.Double.{Double, lt, le, eq, two}
use trajex.Xtensor.{Xtensor}
use trajex.Path.{TotgPath, View, Cursor, seek}
use trajex.Path.Rich.{hint_view, cursor_tangent, cursor_curvature}
use trajex.Path.Segment.{Segment}
use trajex.Trajectory.{IntegrationPoint}
use trajex.Trajectory.Limits.{
  TrajectoryOptions, PhasePoint, LimitCurves, AccelerationBounds, wrap_eq, joints,
  compute_acceleration_bounds, compute_velocity_limit_slope,
}
use trajex.Trajectory.Stepping.{euler_step}
use trajex.Trajectory.Switching.{
  SwitchingPoint, SwitchingKind, path_end, discontinuous_velocity_limit, limit_curves_at, wrap_ge,
}
use trajex.Prelude.{
  ℕ, true, false, ◌&&◌, Option, none, some, List, ◌∷◌, if◌then◌else◌, Result, ok, err, ◌>>=◌, ◌>>◌,
  throw_if, forward_not_increasing, forward_stalled,
}
use trajex.Trajectory.Breach.{LimitHit, Checked, check_next}

-- Where the loop stands at the top of a pass. `mandated` is the forward acceleration of the switching
-- point, on the first pass.
pub record ForwardState (D : Type 0) : Type 0 where
  pub points : List (IntegrationPoint D)
  pub time : D
  pub current : PhasePoint D
  pub mandated : Option D
  pub cursor : Cursor D
  pub probed : Option (D × LimitCurves D)

-- A pass goes on, or stops: at the switching point that it knows, or to search for one.
pub data ForwardOutcome (D : Type 0) : Type 0 where
  advanced : ForwardState D → ForwardOutcome D
  stopped : List (IntegrationPoint D) → Cursor D → Option (SwitchingPoint D) → ForwardOutcome D

module _ {D : Type 0} ⦃d : Double D⦄ where
  -- The step crossed the end of the segment, or landed close to it: it ends there.
  unfoldable pub quantize_forward :
      D → View (Segment D) D → PhasePoint D → PhasePoint D → PhasePoint D
  quantize_forward epsilon segment current next =
      if wrap_ge (d.mul epsilon two) next.s segment.stop
      then record {
        s = segment.stop;
        s_dot =
            d.lerp current.s_dot next.s_dot
              (d.div (d.sub segment.stop current.s) (d.sub next.s current.s));
      }
      else next

  -- s_ddot_to_clamped, for the point on the curve at the same place
  abbrev pub to_clamped : PhasePoint D → PhasePoint D → D → D
  to_clamped current next s_dot_max_vel =
      d.mul (d.div (d.sub s_dot_max_vel current.s_dot) (d.sub next.s current.s))
        (d.midpoint current.s_dot s_dot_max_vel)

  -- Following the velocity limit curve: the point on the curve, if it is near or within reach.
  unfoldable pub follow : D → AccelerationBounds D → PhasePoint D → PhasePoint D → D → PhasePoint D
  follow epsilon bounds current next s_dot_max_vel =
      let clamped : PhasePoint D = record { s = next.s; s_dot = s_dot_max_vel } in
      let s_ddot_to_clamped = to_clamped current next s_dot_max_vel in
      if wrap_eq epsilon next.s_dot s_dot_max_vel
      then clamped
      else if le bounds.s_ddot_min s_ddot_to_clamped && le s_ddot_to_clamped bounds.s_ddot_max
      then clamped
      else next

  -- If bounds were returned, the curve is followed.
  unfoldable pub followed :
      D → PhasePoint D → PhasePoint D → Option (AccelerationBounds D) → D → PhasePoint D
  unfolding follow
  followed epsilon current next none s_dot_max_vel = next
  followed epsilon current next (some bounds) s_dot_max_vel =
      follow epsilon bounds current next s_dot_max_vel

  -- The acceleration at the limit, and the bounds if it follows the curve.
  unfoldable pub at_limit : D → D → AccelerationBounds D → D × Option (AccelerationBounds D)
  at_limit s_dot vel_curve_slope bounds =
      let s_ddot_tangent = d.mul vel_curve_slope s_dot in
      if lt s_ddot_tangent bounds.s_ddot_min
      then (bounds.s_ddot_min, none)
      else if lt s_ddot_tangent bounds.s_ddot_max
      then (s_ddot_tangent, some bounds)
      else (bounds.s_ddot_max, none)

  abbrev pub point_of : D → PhasePoint D → D → IntegrationPoint D
  point_of time p s_ddot = record { time = time; s = p.s; s_dot = p.s_dot; s_ddot = s_ddot }

module _ {D : Type 0} ⦃d : Double D⦄ (p : TotgPath (Segment D) D) (opt : TrajectoryOptions D) where
  -- The curves of the last probe, if it was here.
  unfoldable pub curves_for : Cursor D → D → Option (D × LimitCurves D) → Result (LimitCurves D)
  curves_for c s none = limit_curves_at p opt c
  curves_for c s (some (at_s, curves)) = if eq at_s s then ok curves else limit_curves_at p opt c

  -- s_ddot_desired and s_ddot_bounds
  unfoldable pub choose_forward :
      ForwardState D → Cursor D → Result (D × Option (AccelerationBounds D))
  unfolding curves_for at_limit
  choose_forward st c = elim st.mandated [
    | some s_ddot ↦ ok (s_ddot, none)
    | none ↦ do
      q_prime ← cursor_tangent p c p.dof
      q_double_prime ← cursor_curvature p c p.dof
      vl ← curves_for c st.current.s st.probed
      bounds ←
          compute_acceleration_bounds opt.epsilon st.current.s_dot
            (joints q_prime q_double_prime opt.max_acceleration)
      elim (wrap_eq opt.epsilon st.current.s_dot vl.s_dot_max_vel) [
        | false ↦ ok (bounds.s_ddot_max, none)
        | true ↦ do
          vel_curve_slope ← compute_velocity_limit_slope vl opt
          ok (at_limit st.current.s_dot vel_curve_slope bounds)
      ]
  ]

  -- The point that is left, and the one that is reached, with the time that lies between them.
  abbrev pub step_time : ForwardState D → PhasePoint D → D
  step_time st next = d.div (d.sub next.s st.current.s) (d.midpoint st.current.s_dot next.s_dot)

  abbrev pub left_behind : ForwardState D → PhasePoint D → List (IntegrationPoint D)
  left_behind st next =
      point_of st.time st.current (d.div (d.sub next.s_dot st.current.s_dot) (step_time st next))
      ∷ st.points

  abbrev pub up_to : ForwardState D → PhasePoint D → List (IntegrationPoint D)
  up_to st next =
      point_of (d.add st.time (step_time st next)) next d.quiet_nan ∷ left_behind st next

  -- No progress: a limit was hit at once, or a stall.
  unfoldable pub stalled :
      ForwardState D → Cursor D → Option (LimitHit D) → Result (ForwardOutcome D)
  stalled st c none = err forward_stalled
  stalled st c (some _) =
      ok
        (stopped (point_of st.time st.current d.quiet_nan ∷ st.points) (seek p c st.current.s) none)

  abbrev pub at_rest : D → SwitchingKind → Option D → SwitchingPoint D
  at_rest s kind forward_accel = record {
    point = record { s = s; s_dot = d.nought };
    kind = kind;
    forward_accel = forward_accel;
    backward_accel = none;
  }

  -- Progress: at a limit the pass stops, in a corner at rest; else it goes on to the path's end.
  unfoldable pub arrived :
      ForwardState D
      → D × LimitCurves D
      → Cursor D
      → PhasePoint D
      → Option (LimitHit D)
      → Result (ForwardOutcome D)
  arrived st probed c next (some hit) = ok (
      if eq hit.s_dot_max_vel d.nought
      then stopped (up_to st next) c (some (at_rest hit.breach.s discontinuous_velocity_limit none))
      else stopped (up_to st next) (seek p c next.s) none)
  arrived st probed c next none = elim (eq next.s p.total) [
    | true ↦
        ok (
          stopped (up_to st next) (seek p c next.s)
            (some (at_rest next.s path_end (some d.nought))))
    | false ↦
        throw_if (le next.s st.current.s) forward_not_increasing
        >> ok (
            advanced (record {
              points = left_behind st next;
              time = d.add st.time (step_time st next);
              current = next;
              mandated = none;
              cursor = c;
              probed = some probed;
            }))
  ]

  -- The pass commits a point, or stops.
  unfoldable pub commit : ForwardState D → D × LimitCurves D → Checked D → Result (ForwardOutcome D)
  unfolding stalled arrived
  commit st probed c = elim (eq (d.sub c.next.s st.current.s) d.nought) [
    | true ↦ stalled st c.cursor c.hit
    | false ↦ arrived st probed c.cursor c.next c.hit
  ]

  unfoldable pub commit_checked :
      ForwardState D → D × LimitCurves D → Option (Checked D) → Result (Option (ForwardOutcome D))
  unfolding commit
  commit_checked st probed none = ok none
  commit_checked st probed (some c) = commit st probed c >>= λ o. ok (some o)

module _ {D : Type 0} ⦃d : Double D⦄ ⦃x : Xtensor D⦄ (p : TotgPath (Segment D) D)
    (opt : TrajectoryOptions D) where
  -- One pass of the loop of integrate_forward_from.
  unfoldable pub forward_pass : ℕ → ForwardState D → Result (Option (ForwardOutcome D))
  unfolding choose_forward quantize_forward followed check_next commit_checked
  forward_pass n st = do
    let c = seek p st.cursor st.current.s
    current_segment ← hint_view p c
    (s_ddot, following) ← choose_forward p opt st c
    stepped_to ← euler_step st.current s_ddot opt.delta opt.epsilon
    throw_if (le stepped_to.s st.current.s) forward_not_increasing
    let landed = quantize_forward opt.epsilon current_segment st.current stepped_to
    let c_next = seek p c landed.s
    curves ← limit_curves_at p opt c_next
    let next = followed opt.epsilon st.current landed following curves.s_dot_max_vel
    checked ← check_next p opt n st.current current_segment next curves c_next
    commit_checked p opt st (landed.s, curves) checked
