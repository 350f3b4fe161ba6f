-- ===== src/Trajectory/Options.antt =====
-- The checks of trajectory::create (trajectory.cpp) on its options.
use trajex.Double.{Double, lt, le}
use trajex.Path.Coalesce.{all_of}
use trajex.Trajectory.Limits.{TcpLimits, TrajectoryOptions}
use trajex.Prelude.{
  ℕ, ◌≡◌, refl, ◌↔◌, Bool, true, false, not, ◌&&◌, ◌||◌, Option, none, some, List, [], ◌∷◌, arith,
  ◌==◌, length, All, Result, ok, ◌>>◌, throw_if, bad_epsilon, bad_delta, bad_acceleration,
  bad_velocity, acceleration_dof, no_tcp_evaluator, velocity_dof, bad_tcp_speed,
}

module _ {D : Type 0} ⦃d : Double D⦄ where
  -- std::isfinite(v) && v >= 0.0
  abbrev pub is_bound : D → Bool
  is_bound v = d.is_finite v && le d.nought v

  unfoldable pub check_tcp : Option (TcpLimits D) → Result (Unit {0})
  check_tcp none = ok tt
  check_tcp (some tcp) = do
    throw_if (not (lt d.nought tcp.max_linear_speed) || not (d.is_finite tcp.max_linear_speed))
        bad_tcp_speed
    throw_if (not tcp.is_set) no_tcp_evaluator

  unfoldable pub check_trajectory_options : ℕ → TrajectoryOptions D → Result (Unit {0})
  unfolding check_tcp
  check_trajectory_options path_dof opt = do
    throw_if (not (length opt.max_velocity == path_dof)) velocity_dof
    throw_if (not (length opt.max_acceleration == path_dof)) acceleration_dof
    throw_if (not (all_of is_bound opt.max_velocity)) bad_velocity
    throw_if (not (all_of is_bound opt.max_acceleration)) bad_acceleration
    throw_if (not (d.is_finite opt.delta) || le opt.delta d.nought) bad_delta
    throw_if (not (d.is_finite opt.epsilon) || le opt.epsilon d.nought) bad_epsilon
    check_tcp opt.tcp

  -- Finite and not below zero.
  abbrev pub IsBound : D → Type 0
  IsBound v = (d.is_finite v ≡ true) × (le d.nought v ≡ true)

  abbrev pub IsStep : D → Type 0
  IsStep v = (d.is_finite v ≡ true) × (le v d.nought ≡ false)

  abbrev pub IsTcp : Option (TcpLimits D) → Type 0
  IsTcp none = Unit
  IsTcp (some tcp) =
      (lt d.nought tcp.max_linear_speed ≡ true)
      × (d.is_finite tcp.max_linear_speed ≡ true)
      × (tcp.is_set ≡ true)

  pub record IsAdmissible (path_dof : ℕ) (opt : TrajectoryOptions D) : Type 0 where
    pub velocity_width : length opt.max_velocity ≡ path_dof
    pub acceleration_width : length opt.max_acceleration ≡ path_dof
    pub velocities : All IsBound opt.max_velocity
    pub accelerations : All IsBound opt.max_acceleration
    pub step : IsStep opt.delta
    pub tolerance : IsStep opt.epsilon
    pub tcp_limit : IsTcp opt.tcp

  all_of-IsBound : (l : List D) → (all_of is_bound l ≡ true) ↔ All IsBound l
  all_of-IsBound [] = ((λ _. tt), (λ _. refl))
  all_of-IsBound (v ∷ l) =
      let (there, back) = all_of-IsBound l in
      (
        (λ h. ((ground arith, ground arith), there (ground arith))),
        (λ h. let rest = back h.1 in let here = h.0 in ground arith),
      )

  check_tcp-IsTcp : (o : Option (TcpLimits D)) → (check_tcp o ≡ ok tt) ↔ IsTcp o
  unfolding check_tcp
  check_tcp-IsTcp none = ((λ _. tt), (λ _. refl))
  check_tcp-IsTcp (some tcp) =
      ((λ h. (ground arith, ground arith, ground arith)), (λ h. ground arith))

  -- The checks pass exactly if the options have as many bounds on velocity and acceleration as the path
  -- has joints, each of them finite and not below zero, a time step and a tolerance that are finite and
  -- above zero, and, if they limit the TCP, a finite speed above zero and an evaluator.
  pub check_trajectory_options-IsAdmissible :
      (path_dof : ℕ) (opt : TrajectoryOptions D)
      → (check_trajectory_options path_dof opt ≡ ok tt) ↔ IsAdmissible path_dof opt
  unfolding check_trajectory_options
  check_trajectory_options-IsAdmissible path_dof opt =
      let velocities = all_of-IsBound opt.max_velocity in
      let accelerations = all_of-IsBound opt.max_acceleration in
      let tcp = check_tcp-IsTcp opt.tcp in
      (
        (λ h. record {
          velocity_width = ground arith;
          acceleration_width = ground arith;
          velocities = velocities.0 (ground arith);
          accelerations = accelerations.0 (ground arith);
          step = (ground arith, ground arith);
          tolerance = (ground arith, ground arith);
          tcp_limit = tcp.0 (ground arith);
        }),
        (λ h.
            let w = h.velocity_width in
            let a = h.acceleration_width in
            let v = velocities.1 h.velocities in
            let u = accelerations.1 h.accelerations in
            let s = h.step in let t = h.tolerance in let c = tcp.1 h.tcp_limit in ground arith),
      )
