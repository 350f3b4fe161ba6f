-- ===== src/Tests/Trajectories.antt =====
-- Integration points at times 0, 2 and 5.
use trajex.Double.Sorted.{IsIncreasing}
use trajex.Double.Fixed.{Fixed, fixed, fixed_double}
use trajex.Trajectory.{IntegrationPoint, time_of_point, locate_time, seek_hint}
use trajex.Trajectory.Search.{seek_hint-eq-locate_time}
use trajex.Trajectory.Points.{validate_points}
use trajex.Prelude.{ℕ, ◌≡◌, refl, List, [], ◌∷◌, arith, ok}

abbrev at_rest : ℕ → ℕ → IntegrationPoint Fixed
at_rest t s = record { time = fixed t; s = fixed s; s_dot = fixed 0; s_ddot = fixed 0 }

abbrev points : List (IntegrationPoint Fixed)
points = at_rest 0 0 ∷ at_rest 2 1 ∷ at_rest 5 3 ∷ []

points-IsIncreasing : IsIncreasing time_of_point points
points-IsIncreasing = (refl, omega arith, (refl, omega arith, refl))

seek_hint-eq-locate_time_example : seek_hint points (fixed 3) 2 ≡ locate_time points (fixed 3)
seek_hint-eq-locate_time_example =
    seek_hint-eq-locate_time points points-IsIncreasing (fixed 3) refl 2

points-admitted : validate_points (fixed 3) (at_rest 0 0) (at_rest 2 1 ∷ at_rest 5 3 ∷ []) ≡ ok tt
unfolding validate_points
points-admitted = refl
