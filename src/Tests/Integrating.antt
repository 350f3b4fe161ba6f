-- ===== src/Tests/Integrating.antt =====
-- The integration along two lines that meet in a corner.
use trajex.Double.Fixed.{fixed_double, Fixed, nan, num, fixed}
use trajex.Path.{Cursor, locate, view_at, seek}
use trajex.Path.Rich.{hint_view, cursor_tangent, cursor_curvature}
use trajex.Path.Segment.{tangent_of, curvature_of, tangent_into, curvature_into}
use trajex.Trajectory.Stepping.{euler_step}
use trajex.Double.{le, IsNumber}
use trajex.Double.Sorted.{upper_bound}
use trajex.Path.Rich.Settled.{IsSettled}
use trajex.Trajectory.Limits.{
  PhasePoint, TrajectoryOptions, LimitCurves, joints, compute_joint_limit_curves,
  compute_acceleration_bounds,
}
use trajex.Trajectory.Backward.{Bracket, first_bracket, expand, solve}
use trajex.Trajectory.Backward.Solver.{IsSearchable, IsSolution, solve-Settles}
use trajex.Trajectory.Switching.{
  is_broken, limit_curves_at, path_begin, path_end, SwitchingPoint, SwitchingCache,
}
use trajex.Trajectory.Integration.{
  Integration, forward, backward, start_integration, integrate_step, here, on,
}
use trajex.Trajectory.Integration.Increasing.{Run-IsRising}
use trajex.Trajectory.Integration.Receding.{IsRising}
use mathlib.Core.Option.{some-injective}
use trajex.Path.{View, base}
use trajex.Path.Segment.{Segment, Circular, circular}
use trajex.Trajectory.Switching.Search.{find_switching_point}
use trajex.Trajectory.Switching.Located.{HasArcs}
use trajex.Trajectory.{IntegrationPoint}
use trajex.Tests.Store.{row, fixed_xtensor}
use trajex.Tests.RichCursors.{lines, lines-IsWellFormed}
use trajex.Tests.Ieee.{fixed-IsIeee, fixed-IsRounded}
use trajex.Prelude.{
  ℕ, zero, suc, ◌≡◌, refl, ap, true, Option, none, some, List, [], ◌∷◌, arith, Result, ok,
}

abbrev options : TrajectoryOptions Fixed
options = record {
  max_velocity = row 9 9;
  max_acceleration = row 2 2;
  delta = fixed 1;
  epsilon = fixed 1;
  tcp = none;
}

abbrev at_start : Cursor Fixed
at_start = record { position = fixed 0; hint = 0 }

at_start-IsSettled : IsSettled lines at_start
unfolding locate upper_bound
at_start-IsSettled = record { inside = omega arith; settled = λ _. refl }

no_arc :
    (i : ℕ) (v : View (Segment Fixed) Fixed) (arc : Circular Fixed)
    → view_at lines i ≡ some v
    → ¬ (v.of_segment ≡ circular arc)
unfolding view_at
no_arc zero v arc e h = absurd (cc (ap (λ u. u.of_segment) (some-injective _ v e), h))
no_arc (suc zero) v arc e h = absurd (cc (ap (λ u. u.of_segment) (some-injective _ v e), h))
no_arc (suc (suc i)) v arc e h = absurd (cc e)

lines-HasArcs : HasArcs lines
lines-HasArcs = record {
  radius = λ i v arc e h. absurd (no_arc i v arc e h);
  stop = λ i v arc e h. absurd (no_arc i v arc e h);
}

-- The search of the program, with twelve rounds for its loops.
abbrev search :
    SwitchingCache Fixed
    → Cursor Fixed
    → Result (Option (SwitchingCache Fixed × SwitchingPoint Fixed))
search = find_switching_point lines options 12

abbrev first : Integration Fixed
first = start_integration at_start

abbrev line_curves : LimitCurves Fixed
line_curves = record {
  s_dot_max_acc = fixed 1000;
  s_dot_max_vel = fixed 9;
  joint = fixed 9;
  tcp = fixed 1000;
  limiting = record { q_prime = fixed 1; q_double_prime = fixed 0; bound = fixed 9 };
  tcp_ratio = none;
}

-- One pass later: from rest at the bound of the acceleration.
abbrev second : Integration Fixed
second =
    forward
      (record {
        points = record { time = fixed 0; s = fixed 0; s_dot = fixed 0; s_ddot = fixed 1 } ∷ [];
        time = fixed 2;
        current = record { s = fixed 2; s_dot = fixed 2 };
        mandated = none;
        cursor = record { position = fixed 2; hint = 0 };
        probed = some (fixed 2, line_curves);
      })
      (record {
        point = record { s = fixed 0; s_dot = fixed 0 };
        kind = path_begin;
        forward_accel = none;
        backward_accel = none;
      })
      (record { next_accel = none; next_vel = none })

first_pass : integrate_step search lines options 3 (start_integration at_start) ≡ ok (some second)
unfolding integrate_step start_integration hint_view view_at seek cursor_tangent tangent_into
    cursor_curvature curvature_into limit_curves_at compute_joint_limit_curves joints
    compute_acceleration_bounds euler_step
first_pass = refl

-- And one more, which ends in the corner.
abbrev third : Integration Fixed
third =
    forward
      (record {
        points =
            record { time = fixed 2; s = fixed 2; s_dot = fixed 2; s_ddot = fixed 2 }
            ∷ record { time = fixed 0; s = fixed 0; s_dot = fixed 0; s_ddot = fixed 1 }
            ∷ [];
        time = fixed 3;
        current = record { s = fixed 5; s_dot = fixed 4 };
        mandated = none;
        cursor = record { position = fixed 5; hint = 1 };
        probed = some (fixed 5, line_curves);
      })
      (record {
        point = record { s = fixed 0; s_dot = fixed 0 };
        kind = path_begin;
        forward_accel = none;
        backward_accel = none;
      })
      (record { next_accel = none; next_vel = none })

second_pass : integrate_step search lines options 3 second ≡ ok (some third)
unfolding integrate_step start_integration hint_view view_at seek cursor_tangent tangent_into
    cursor_curvature curvature_into limit_curves_at compute_joint_limit_curves joints
    compute_acceleration_bounds euler_step tangent_of is_broken
second_pass = refl

abbrev all : List (IntegrationPoint Fixed)
all =
    record { time = fixed 4; s = fixed 9; s_dot = fixed 6; s_ddot = nan }
    ∷ record { time = fixed 3; s = fixed 5; s_dot = fixed 4; s_ddot = fixed 2 }
    ∷ record { time = fixed 2; s = fixed 2; s_dot = fixed 2; s_ddot = fixed 2 }
    ∷ record { time = fixed 0; s = fixed 0; s_dot = fixed 0; s_ddot = fixed 1 }
    ∷ []

-- The next pass reaches the end of the path, from where the integration goes back.
abbrev fourth : Integration Fixed
fourth =
    backward
      (record {
        points = all;
        window = all;
        newest = record { time = fixed 0; s = fixed 9; s_dot = fixed 0; s_ddot = fixed 0 };
        others = [];
        switching = record {
          point = record { s = fixed 9; s_dot = fixed 0 };
          kind = path_end;
          forward_accel = some (fixed 0);
          backward_accel = none;
        };
        cursor = record { position = fixed 9; hint = 1 };
        path_cursor = record { position = fixed 9; hint = 1 };
      })
      (record { next_accel = none; next_vel = none })

third_pass : integrate_step search lines options 12 third ≡ ok (some fourth)
unfolding integrate_step hint_view view_at seek cursor_tangent tangent_into cursor_curvature
    curvature_into compute_acceleration_bounds joints euler_step limit_curves_at
    compute_joint_limit_curves
third_pass = refl

-- A pass back, to the start of the second line.
abbrev fifth : Integration Fixed
fifth =
    backward
      (record {
        points = all;
        window = all;
        newest = record { time = fixed 2; s = fixed 5; s_dot = fixed 4; s_ddot = num 998 };
        others = record { time = fixed 0; s = fixed 9; s_dot = fixed 0; s_ddot = fixed 0 } ∷ [];
        switching = record {
          point = record { s = fixed 9; s_dot = fixed 0 };
          kind = path_end;
          forward_accel = some (fixed 0);
          backward_accel = none;
        };
        cursor = record { position = fixed 5; hint = 1 };
        path_cursor = record { position = fixed 9; hint = 1 };
      })
      (record { next_accel = none; next_vel = none })

fourth_pass : integrate_step search lines options 12 fourth ≡ ok (some fifth)
unfolding integrate_step hint_view view_at seek cursor_tangent tangent_into cursor_curvature
    curvature_into compute_acceleration_bounds joints euler_step limit_curves_at
    compute_joint_limit_curves base tangent_of curvature_of
fourth_pass = refl

Run-IsRising_example : IsRising all
Run-IsRising_example =
    Run-IsRising lines options lines-IsWellFormed fixed-IsIeee fixed-IsRounded refl lines-HasArcs
      refl 12 at_start fifth refl at_start-IsSettled
      (on 12 (on 12 (on 3 (on 3 here first_pass) second_pass) third_pass) fourth_pass)

-- A residual with its root at 3.
abbrev beyond_three : Fixed → Fixed
beyond_three v = fixed_double.sub v (fixed 3)

abbrev slower : PhasePoint Fixed
slower = record { s = fixed 9; s_dot = fixed 2 }

abbrev faster : PhasePoint Fixed
faster = record { s = fixed 8; s_dot = fixed 9 }

abbrev straddling : Bracket Fixed
straddling = record {
  low = fixed 2;
  high = fixed 9;
  residual_low = num 999;
  residual_high = fixed 6;
}

straddling-expanded :
    expand 9 beyond_three
      (fixed 90)
      (fixed_double.magnitude (fixed_double.sub faster.s_dot slower.s_dot))
      (first_bracket (fixed 0) beyond_three slower faster)
    ≡ ok (some straddling)
unfolding expand first_bracket
straddling-expanded = refl

beyond_three-IsNumber : (v : Fixed) → le (fixed 2) v ≡ true → IsNumber (beyond_three v)
beyond_three-IsNumber nan h = cc h
beyond_three-IsNumber (num k) h = refl

straddling-IsSearchable : IsSearchable beyond_three (fixed 0) straddling
straddling-IsSearchable = record {
  from_zero = refl;
  ordered = refl;
  numbers_in = λ v above below. beyond_three-IsNumber v above;
}

solve-Settles_example :
    (v : Fixed) × (solve 9 (fixed 0) (fixed 90) beyond_three slower faster ≡ ok (some v))
    × IsSolution beyond_three (fixed 0) v
solve-Settles_example =
    solve-Settles beyond_three (fixed 0) 9 (fixed 90) slower faster straddling fixed-IsRounded
      straddling-expanded straddling-IsSearchable (omega arith)

three-solved : solve 9 (fixed 0) (fixed 90) beyond_three slower faster ≡ ok (some (fixed 3))
unfolding solve
three-solved = refl
