-- ===== src/Tests/LimitCurves.antt =====
-- Two joints that move, with a bound on the speed of the tool.
use trajex.Double.{le}
use trajex.Double.Fixed.{fixed_double, Fixed, fixed}
use trajex.Trajectory.Limits.{
  PhasePoint, Joint, TcpLimits, TrajectoryOptions, LimitCurves, joints,
  compute_joint_velocity_limit, compute_acceleration_limit, compute_limit_curves,
  compute_velocity_limit_slope, compute_acceleration_bounds_unchecked,
}
use trajex.Trajectory.Limits.JointSpeed.{IsLowest, compute_joint_velocity_limit-IsLowest}
use trajex.Trajectory.Limits.Bounds.{Within, Allows, unchecked-Within}
use trajex.Trajectory.Limits.Slope.{IsPaired, Defined, compute_velocity_limit_slope-Defined}
use trajex.Trajectory.Limits.Acceleration.{squared_bounds, compute_acceleration_limit-least}
use trajex.Trajectory.Options.{
  check_trajectory_options, IsAdmissible, check_trajectory_options-IsAdmissible,
}
use trajex.Trajectory.Stepping.{euler_step}
use trajex.Tests.Store.{row}
use trajex.Tests.Ieee.{fixed-IsIeee}
use trajex.Prelude.{ℕ, ◌≡◌, refl, ◌↔◌, ◌⊎◌, inr, true, some, List, [], ◌∷◌, get_elem?, All, ok}

abbrev shoulder : Joint Fixed
shoulder = record { q_prime = fixed 2; q_double_prime = fixed 0; bound = fixed 4 }

abbrev elbow : Joint Fixed
elbow = record { q_prime = fixed 1; q_double_prime = fixed 2; bound = fixed 3 }

abbrev arm : List (Joint Fixed)
arm = shoulder ∷ elbow ∷ []

compute_joint_velocity_limit-IsLowest_example :
    IsLowest (fixed 1) arm (compute_joint_velocity_limit (fixed 1) arm)
compute_joint_velocity_limit-IsLowest_example =
    compute_joint_velocity_limit-IsLowest (fixed 1) arm refl

unchecked-Within_example :
    Within
      (fixed 1)
      (fixed 1)
      (fixed 1)
      (compute_acceleration_bounds_unchecked (fixed 1) (fixed 1) arm)
    ↔ All (Allows (fixed 1) (fixed 1) (fixed 1)) arm
unchecked-Within_example =
    unchecked-Within (fixed 1) (fixed 1) arm (fixed 1) fixed-IsIeee
      (inr (refl, refl), (inr (refl, refl), tt)) refl

compute_acceleration_limit-least_example :
    All (λ c. le (compute_acceleration_limit (fixed 1) arm) c ≡ true) (squared_bounds (fixed 1) arm)
    × ((compute_acceleration_limit (fixed 1) arm ≡ fixed_double.infinity)
        ⊎ ((c : Fixed) × (i : ℕ) × (get_elem? (squared_bounds (fixed 1) arm) i ≡ some c)
            × (compute_acceleration_limit (fixed 1) arm ≡ c)))
compute_acceleration_limit-least_example =
    compute_acceleration_limit-least (fixed 1) arm fixed-IsIeee (λ a b p h. h) (refl, tt)

abbrev tool : TcpLimits Fixed
tool = record {
  max_linear_speed = fixed 6;
  is_set = true;
  evaluator = λ _ _ _. some (record { value = fixed 6; arc_length_derivative = fixed 0 });
}

abbrev arm_options : TrajectoryOptions Fixed
arm_options = record {
  max_velocity = row 4 3;
  max_acceleration = row 4 3;
  delta = fixed 1;
  epsilon = fixed 1;
  tcp = some tool;
}

abbrev curves : LimitCurves Fixed
curves = record {
  s_dot_max_acc = fixed 3;
  s_dot_max_vel = fixed 1;
  joint = fixed 2;
  tcp = fixed 1;
  limiting = shoulder;
  tcp_ratio = some (record { value = fixed 6; arc_length_derivative = fixed 0 });
}

curves-computed : compute_limit_curves (row 0 0) (row 2 1) (row 0 2) arm_options ≡ ok curves
unfolding compute_limit_curves joints
curves-computed = refl

compute_velocity_limit_slope-Defined_example :
    IsPaired arm_options curves × Defined (compute_velocity_limit_slope curves arm_options)
compute_velocity_limit_slope-Defined_example =
    compute_velocity_limit_slope-Defined (row 0 0) (row 2 1) (row 0 2) arm_options curves
      fixed-IsIeee curves-computed

arm_options-checked : check_trajectory_options 2 arm_options ≡ ok tt
unfolding check_trajectory_options
arm_options-checked = refl

check_trajectory_options-IsAdmissible_example :
    (check_trajectory_options 2 arm_options ≡ ok tt) ↔ IsAdmissible 2 arm_options
check_trajectory_options-IsAdmissible_example = check_trajectory_options-IsAdmissible 2 arm_options

abbrev started : PhasePoint Fixed
started = record { s = fixed 3; s_dot = fixed 2 }

abbrev later : PhasePoint Fixed
later = record { s = fixed 15; s_dot = fixed 6 }

started-stepped : euler_step started (fixed 2) (fixed 2) (fixed 1) ≡ ok later
unfolding euler_step
started-stepped = refl
