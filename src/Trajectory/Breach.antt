-- ===== src/Trajectory/Breach.antt =====
-- The check of a step of the forward integration against the limit curves (trajectory.cpp,
-- integrate_forward_from): the bisection where a curve is breached, and what the breach means. The
-- bisection runs for a number of rounds, and the result is `none` when they are used up.
use trajex.Double.{Double, lt, le, eq, min_of}
use trajex.Xtensor.{Xtensor}
use trajex.Path.{TotgPath, View, Cursor, seek}
use trajex.Path.Rich.{hint_view, cursor_tangent, cursor_curvature}
use trajex.Path.Segment.{Segment, tangent_of}
use trajex.Trajectory.Limits.{
  TrajectoryOptions, PhasePoint, LimitCurves, wrap_eq, joints, compute_acceleration_limit,
  compute_acceleration_bounds_unchecked, compute_velocity_limit_slope,
}
use trajex.Trajectory.Stepping.{half}
use trajex.Trajectory.Switching.{limit_curves_at, is_broken}
use trajex.Prelude.{
  ℕ, zero, suc, Bool, true, false, ◌&&◌, ◌||◌, Option, none, some, List, if◌then◌else◌, Result, ok,
  ◌>>=◌,
}

-- integration_observer::limit_hit_event
pub record LimitHit (D : Type 0) : Type 0 where
  pub breach : PhasePoint D
  pub s_dot_max_acc : D
  pub s_dot_max_vel : D

-- The two ends of the bisection, with the geometry and the limits at them.
pub record Bisection (D : Type 0) : Type 0 where
  pub next : PhasePoint D
  pub breach : PhasePoint D
  pub cursor : Cursor D
  pub q_prime : List D
  pub q_double_prime : List D
  pub next_acc : D
  pub next_vel : D
  pub breach_acc : D
  pub breach_vel : D

-- What the check against the limit curves leaves: the next point, the limit hit, and the cursor.
pub record Checked (D : Type 0) : Type 0 where
  pub next : PhasePoint D
  pub hit : Option (LimitHit D)
  pub cursor : Cursor D

module _ {D : Type 0} ⦃d : Double D⦄ where
  abbrev pub hit_at : PhasePoint D → D → D → LimitHit D
  hit_at p acc vel = record { breach = p; s_dot_max_acc = acc; s_dot_max_vel = vel }

  -- The bisection ends in a limit hit.
  abbrev pub stops_at : Bisection D → Cursor D → Checked D
  stops_at b c = record {
    next = b.next;
    hit = some (hit_at b.breach b.breach_acc b.breach_vel);
    cursor = c;
  }

module _ {D : Type 0} ⦃d : Double D⦄ (p : TotgPath (Segment D) D) (opt : TrajectoryOptions D) where
  -- One round of the bisection: the middle takes the place of the end on its side of the limits.
  unfoldable pub halve : Bisection D → Result (Bisection D)
  halve b = do
    let mid : PhasePoint D = record {
      s = d.midpoint b.next.s b.breach.s;
      s_dot = d.midpoint b.next.s_dot b.breach.s_dot;
    }
    let c = seek p b.cursor mid.s
    q_prime ← cursor_tangent p c p.dof
    q_double_prime ← cursor_curvature p c p.dof
    curves ← limit_curves_at p opt c
    ok (
        if lt curves.s_dot_max_acc mid.s_dot || lt curves.s_dot_max_vel mid.s_dot
        then record b {
          breach = mid;
          cursor = c;
          breach_acc = curves.s_dot_max_acc;
          breach_vel = curves.s_dot_max_vel;
        }
        else record b {
          next = mid;
          cursor = c;
          q_prime = q_prime;
          q_double_prime = q_double_prime;
          next_acc = curves.s_dot_max_acc;
          next_vel = curves.s_dot_max_vel;
        })

  unfoldable pub bisect : ℕ → Bisection D → Result (Option (Bisection D))
  unfolding halve
  bisect zero b = ok none
  bisect (suc n) b =
      if wrap_eq opt.epsilon b.next.s b.breach.s then ok (some b) else halve b >>= λ r. bisect n r

  -- The bisection starts from the current point, with the candidate in breach.
  unfoldable pub open_bisection :
      Cursor D → PhasePoint D → PhasePoint D → D → D → Result (Bisection D)
  open_bisection cursor current breach breach_acc breach_vel = do
    let c = seek p cursor current.s
    q_prime ← cursor_tangent p c p.dof
    q_double_prime ← cursor_curvature p c p.dof
    curves ← limit_curves_at p opt c
    ok (record {
      next = current;
      breach = breach;
      cursor = c;
      q_prime = q_prime;
      q_double_prime = q_double_prime;
      next_acc = curves.s_dot_max_acc;
      next_vel = curves.s_dot_max_vel;
      breach_acc = breach_acc;
      breach_vel = breach_vel;
    })

  -- The slope of a trajectory at the lower bound, on the velocity curve, and at the upper one, on the
  -- acceleration curve.
  abbrev pub min_phase_slope : Bisection D → D
  min_phase_slope b =
      d.div
        (compute_acceleration_bounds_unchecked opt.epsilon b.next_vel
          (joints b.q_prime b.q_double_prime opt.max_acceleration)).s_ddot_min
        b.next_vel

  abbrev pub next_phase_slope : Bisection D → D
  next_phase_slope b =
      d.div
        (compute_acceleration_bounds_unchecked opt.epsilon b.next_acc
          (joints b.q_prime b.q_double_prime opt.max_acceleration)).s_ddot_max
        b.next_acc

  -- The velocity curve was hit: trapped, or numerical overshoot that commits the breach on the lower
  -- of the curves.
  unfoldable pub judge_velocity : Bisection D → Cursor D → Result (Checked D)
  judge_velocity b cursor = do
    let c = seek p cursor b.next.s
    curves ← limit_curves_at p opt c
    vel_curve_slope ← compute_velocity_limit_slope curves opt
    ok (
        if lt vel_curve_slope (min_phase_slope b) then stops_at b c else record {
          next = record { s = b.breach.s; s_dot = min_of b.breach_acc b.breach_vel };
          hit = none;
          cursor = c;
        })

  -- The slope of the acceleration curve at a point, from the curve a tolerance before it.
  unfoldable pub acceleration_slope : Bisection D → D → Cursor D → Result D
  acceleration_slope b before_next c = do
    q_prime ← cursor_tangent p c p.dof
    q_double_prime ← cursor_curvature p c p.dof
    let before_acc =
        compute_acceleration_limit opt.epsilon (joints q_prime q_double_prime opt.max_acceleration)
    ok (d.div (d.sub b.next_acc before_acc) (d.sub b.next.s before_next))

  -- The acceleration curve was hit: a sink stops, a source goes on if the velocity curve allows.
  unfoldable pub judge_acceleration : Bisection D → Cursor D → Result (Checked D)
  unfolding judge_velocity acceleration_slope
  judge_acceleration b cursor =
      let before_next = d.sub b.next.s opt.epsilon in
      let c = seek p cursor before_next in
      elim (lt (d.sub b.next.s before_next) (d.mul opt.epsilon half)) [
        | true ↦ ok (stops_at b cursor)
        | false ↦ acceleration_slope b before_next c >>= λ next_acc_curve_slope.
            elim (lt next_acc_curve_slope (next_phase_slope b)) [
              | true ↦ ok (stops_at b c)
              | false ↦ elim (le b.breach.s_dot b.breach_vel) [
                | true ↦ ok (record {
                  next = record { s = b.breach.s; s_dot = b.breach_acc };
                  hit = none;
                  cursor = c;
                })
                | false ↦ judge_velocity b c
              ]
            ]
      ]

  -- What a bisection that is over means.
  unfoldable pub judge : View (Segment D) D → Bisection D → Result (Checked D)
  unfolding judge_acceleration judge_velocity
  judge current_segment b = do
    let c = seek p b.cursor b.breach.s
    breach_segment ← hint_view p c
    elim (eq current_segment.start breach_segment.start) [
      | false ↦ ok (stops_at b c)
      | true ↦ elim (le b.breach_acc b.breach.s_dot) [
        | true ↦ judge_acceleration b c
        | false ↦ judge_velocity b c
      ]
    ]

  unfoldable pub judge_over :
      View (Segment D) D → Option (Bisection D) → Result (Option (Checked D))
  unfolding judge
  judge_over current_segment none = ok none
  judge_over current_segment (some b) = judge current_segment b >>= λ r. ok (some r)

  -- The candidate is above a limit curve, or not.
  unfoldable pub check_limits :
      ℕ
      → PhasePoint D
      → View (Segment D) D
      → PhasePoint D
      → LimitCurves D
      → Cursor D
      → Result (Option (Checked D))
  unfolding open_bisection bisect judge_over
  check_limits n current current_segment next curves cursor =
      elim (le next.s_dot curves.s_dot_max_acc && le next.s_dot curves.s_dot_max_vel) [
        | true ↦ ok (some (record { next = next; hit = none; cursor = cursor }))
        | false ↦ do
          b ← open_bisection cursor current next curves.s_dot_max_acc curves.s_dot_max_vel
          over ← bisect n b
          judge_over current_segment over
      ]

module _ {D : Type 0} ⦃d : Double D⦄ ⦃x : Xtensor D⦄ (p : TotgPath (Segment D) D)
    (opt : TrajectoryOptions D) where
  -- Between two segments whose tangents do not meet, the path velocity must pass through zero.
  unfoldable pub is_corner : View (Segment D) D → View (Segment D) D → Result Bool
  is_corner current_segment next_segment = elim (eq next_segment.start current_segment.start) [
    | true ↦ ok false
    | false ↦ do
      current_end_tangent ← tangent_of current_segment current_segment.stop
      next_start_tangent ← tangent_of next_segment next_segment.start
      ok (is_broken opt.epsilon current_end_tangent next_start_tangent)
  ]

  -- The next point, checked.
  unfoldable pub check_next :
      ℕ
      → PhasePoint D
      → View (Segment D) D
      → PhasePoint D
      → LimitCurves D
      → Cursor D
      → Result (Option (Checked D))
  unfolding is_corner check_limits
  check_next n current current_segment next curves cursor = do
    next_segment ← hint_view p cursor
    corner ← is_corner current_segment next_segment
    elim corner [
      | true ↦ ok (
          some (record {
            next = next;
            hit = some (hit_at next curves.s_dot_max_acc d.nought);
            cursor = cursor;
          }))
      | false ↦ check_limits p opt n current current_segment next curves cursor
    ]
