-- ===== src/Trajectory/Stepping.antt =====
-- euler_step (trajectory.cpp): one step of the integration in the phase plane, forward or backward.
use trajex.Double.{Double, lt, two}
use trajex.Trajectory.Limits.{PhasePoint, wrap_eq}
use trajex.Prelude.{◌&&◌, if◌then◌else◌, Result, ok, ◌>>◌, throw_if, no_progress}

module _ {D : Type 0} ⦃d : Double D⦄ where
  abbrev pub half : D
  half = d.div d.one two

  -- Where a step ends, before it is checked; one that would carry s_dot below zero ends at zero.
  unfoldable pub stepped : PhasePoint D → D → D → PhasePoint D
  stepped where_ s_ddot dt =
      let s_dot_new = d.add where_.s_dot (d.mul s_ddot dt) in
      if lt s_dot_new d.nought
      then record {
        s =
            d.add where_.s
              (d.mul (d.midpoint where_.s_dot d.nought) (d.div (d.neg where_.s_dot) s_ddot));
        s_dot = d.nought;
      }
      else record {
        s =
            d.add (d.add where_.s (d.mul where_.s_dot dt))
              (d.mul (d.mul (d.mul half s_ddot) dt) dt);
        s_dot = s_dot_new;
      }

  unfoldable pub euler_step : PhasePoint D → D → D → D → Result (PhasePoint D)
  unfolding stepped
  euler_step where_ s_ddot dt epsilon = do
    let p = stepped where_ s_ddot dt
    throw_if (wrap_eq epsilon p.s where_.s && wrap_eq epsilon p.s_dot where_.s_dot) no_progress
    ok p
