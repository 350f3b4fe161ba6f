-- ===== src/Trajectory/Points.antt =====
-- trajectory::create with integration points given: how it checks them (trajectory.cpp).
use trajex.Double.{Double, lt, le, eq}
use trajex.Trajectory.{IntegrationPoint}
use trajex.Prelude.{
  Bool, not, ◌||◌, List, [], ◌∷◌, Result, ◌>>◌, throw_if, arc_lengths_decrease,
  times_not_increasing, first_time_not_zero, off_the_path,
}

module _ {D : Type 0} ⦃d : Double D⦄ (path_length : D) where
  -- point.s < arc_length{0.0} || point.s > p.length()
  abbrev pub off_path : IntegrationPoint D → Bool
  off_path p = lt p.s d.nought || lt path_length p.s

  -- The loop over pairs, and then the last point.
  unfoldable pub check_points : IntegrationPoint D → List (IntegrationPoint D) → Result (Unit {0})
  check_points curr [] = throw_if (off_path curr) off_the_path
  check_points curr (next ∷ rest) = do
    throw_if (le next.time curr.time) times_not_increasing
    throw_if (off_path curr) off_the_path
    throw_if (lt next.s curr.s) arc_lengths_decrease
    check_points next rest

  -- The check of points that are not empty.
  unfoldable pub validate_points :
      IntegrationPoint D → List (IntegrationPoint D) → Result (Unit {0})
  unfolding check_points
  validate_points front rest = do
    throw_if (not (eq front.time d.nought)) first_time_not_zero
    check_points front rest
