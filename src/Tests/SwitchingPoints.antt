-- ===== src/Tests/SwitchingPoints.antt =====
-- The search for switching points along two lines that meet in a corner: the corner is found, and
-- an escape before it.
use trajex.Double.Fixed.{fixed_double, Fixed, fixed}
use trajex.Path.{Cursor, seek, view_at}
use trajex.Path.Rich.{hint_view, cursor_tangent, cursor_curvature}
use trajex.Trajectory.Limits.{TrajectoryOptions, joints, try_compute_eq40_delta}
use trajex.Path.Segment.{tangent_of, tangent_into, curvature_into}
use trajex.Trajectory.Switching.{
  is_broken, SwitchingPoint, velocity_point, discontinuous_velocity_limit,
}
use trajex.Trajectory.Switching.Velocity.{find_velocity_switching_point}
use trajex.Double.{lt}
use trajex.Trajectory.Limits.{TcpLimits}
use trajex.Trajectory.Switching.{velocity_escape}
use trajex.Tests.Store.{row, fixed_xtensor}
use trajex.Tests.RichCursors.{lines}
use trajex.Prelude.{◌≡◌, refl, true, none, some, List, [], ◌∷◌, if◌then◌else◌, ok}

abbrev strict : TrajectoryOptions Fixed
strict = record {
  max_velocity = row 9 9;
  max_acceleration = row 2 2;
  delta = fixed 1;
  epsilon = fixed 0;
  tcp = none;
}

abbrev at_start : Cursor Fixed
at_start = record { position = fixed 0; hint = 0 }

abbrev corner : SwitchingPoint Fixed
corner = velocity_point (fixed 5) (fixed 0) discontinuous_velocity_limit

corner-found :
    find_velocity_switching_point lines strict 9 at_start (fixed 9) ≡ ok (some (some corner))
unfolding find_velocity_switching_point hint_view view_at tangent_of tangent_into seek is_broken
    cursor_tangent cursor_curvature curvature_into try_compute_eq40_delta joints
corner-found = refl

abbrev first_of : List Fixed → Fixed
first_of [] = fixed 0
first_of (a ∷ _) = a

-- A TCP limit whose ratio grows until the first joint is at three.
abbrev tool : TcpLimits Fixed
tool = record {
  max_linear_speed = fixed 6;
  is_set = true;
  evaluator = λ q _ _. some (record {
    value = fixed 6;
    arc_length_derivative = if lt (first_of q) (fixed 3) then fixed 18 else fixed 0;
  });
}

abbrev limited : TrajectoryOptions Fixed
limited = record strict { epsilon = fixed 1; tcp = some tool }

-- There the trajectory can leave the velocity limit curve.
abbrev escape : SwitchingPoint Fixed
escape = velocity_point (fixed 3) (fixed 1) velocity_escape
