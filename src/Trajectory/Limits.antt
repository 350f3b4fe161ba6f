-- ===== src/Trajectory/Limits.antt =====
-- The limit curves of a trajectory, their slope, the bounds on its acceleration, and the step of its
-- integration (trajectory.cpp). The vectors over the joints are read joint by joint: they are of one
-- length, which trajectory::create checks. The evaluator of a TCP limit is a parameter of the options.
pub mod JointSpeed
pub mod Bounds
pub mod Slope
pub mod Acceleration
use trajex.Double.{Double, lt, le, eq, min_of, max_of}
use trajex.Prelude.{
  ℕ, zero, suc, ◌+◌, ◌-◌, ◌*◌, ◌/◌, ◌%◌, ◌≤◌, ◌<◌, ◌≡◌, refl, sym, ap, ◌∙◌, subst, ◌≢◌, ◌↔◌, ◌⊎◌,
  inl, inr, Bool, true, false, not, ◌&&◌, ◌||◌, Option, none, some, List, [], ◌∷◌, ◌++◌, map, arith,
  ltb, leb, ◌==◌, if◌then◌else◌, Bool-cases, Option-cases, length, get_elem?, take, drop, drop_last,
  last?, All, length-append, length-take, length-drop, take-length, last?-append_one,
  drop_last-append_one, length-drop_last, All-append, All-drop, All-take, All-last?, zero_cases,
  get_elem?-some, length-map, take-append_le, replicate, length-replicate, All-replicate,
  All-get_elem?, Error, Result, ok, err, ◌>>=◌, ◌>>◌, throw_if, Result-cases, Holds, Holds-bind,
  Holds-all, Holds-map, Holds-at, Holds-throw_if, Holds-then, bad_function_call, singular_slope,
  bad_tcp_ratio, infinite_slope, fault, infeasible_acceleration,
}

-- tcp_limits::linear_speed_per_arc_velocity
pub record TcpRatio (D : Type 0) : Type 0 where
  pub value : D
  pub arc_length_derivative : D

pub record TcpLimits (D : Type 0) : Type 0 where
  pub max_linear_speed : D
  -- The std::function holds something to call.
  pub is_set : Bool
  pub evaluator : List D → List D → List D → Option (TcpRatio D)

-- trajectory::options
pub record TrajectoryOptions (D : Type 0) : Type 0 where
  pub max_velocity : List D
  pub max_acceleration : List D
  pub delta : D
  pub epsilon : D
  pub tcp : Option (TcpLimits D)

-- One joint at a point on the path, with its bound on velocity or acceleration.
pub record Joint (D : Type 0) : Type 0 where
  pub q_prime : D
  pub q_double_prime : D
  pub bound : D

-- joint_velocity_limit, with its limiting_joint
pub record JointVelocityLimit (D : Type 0) : Type 0 where
  pub limit : D
  pub index : ℕ

pub record LimitCurves (D : Type 0) : Type 0 where
  pub s_dot_max_acc : D
  pub s_dot_max_vel : D
  pub joint : D
  pub tcp : D
  pub limiting : Joint D
  pub tcp_ratio : Option (TcpRatio D)

pub record AccelerationBounds (D : Type 0) : Type 0 where
  pub s_ddot_min : D
  pub s_ddot_max : D

pub record PhasePoint (D : Type 0) : Type 0 where
  pub s : D
  pub s_dot : D

module _ {D : Type 0} where
  unfoldable pub joints : List D → List D → List D → List (Joint D)
  joints (a ∷ as_) (b ∷ bs) (c ∷ cs) =
      record { q_prime = a; q_double_prime = b; bound = c } ∷ joints as_ bs cs
  joints _ _ _ = []

module _ {D : Type 0} ⦃d : Double D⦄ where
  -- epsilon.wrap(a) > epsilon.wrap(b), <, and ==
  abbrev pub wrap_gt : D → D → D → Bool
  wrap_gt epsilon a b = lt epsilon (d.sub a b)

  abbrev pub wrap_lt : D → D → D → Bool
  wrap_lt epsilon a b = not (wrap_gt epsilon a b) && lt (d.sub a b) (d.neg epsilon)

  abbrev pub wrap_eq : D → D → D → Bool
  wrap_eq epsilon a b = not (wrap_gt epsilon a b) && not (lt (d.sub a b) (d.neg epsilon))

  -- std::abs(q_prime(i)) < epsilon
  abbrev pub is_still : D → Joint D → Bool
  is_still epsilon j = lt (d.magnitude j.q_prime) epsilon

  -- q_dot_max(i) / std::abs(q_prime(i))
  abbrev pub speed_limit : Joint D → D
  speed_limit j = d.div j.bound (d.magnitude j.q_prime)

  -- One round of compute_joint_velocity_limit.
  abbrev pub take_lower : D → ℕ → Joint D → JointVelocityLimit D → JointVelocityLimit D
  take_lower epsilon i j best =
      if is_still epsilon j
      then best
      else if lt (speed_limit j) best.limit
      then record { limit = speed_limit j; index = i }
      else best

  unfoldable pub lowest_limit : D → ℕ → List (Joint D) → JointVelocityLimit D → JointVelocityLimit D
  lowest_limit epsilon i [] best = best
  lowest_limit epsilon i (j ∷ js) best =
      lowest_limit epsilon (suc i) js (take_lower epsilon i j best)

  -- compute_joint_velocity_limit
  unfoldable pub compute_joint_velocity_limit : D → List (Joint D) → JointVelocityLimit D
  unfolding lowest_limit
  compute_joint_velocity_limit epsilon js =
      lowest_limit epsilon 0 js (record { limit = d.infinity; index = 0 })

  -- compute_tcp_velocity_limit: the limit, and the evaluator's result.
  unfoldable pub compute_tcp_velocity_limit :
      D → List D → List D → List D → TcpLimits D → Result (D × Option (TcpRatio D))
  compute_tcp_velocity_limit epsilon q q_prime q_double_prime tcp = do
    throw_if (not tcp.is_set) bad_function_call
    elim (tcp.evaluator q q_prime q_double_prime) [
      | none ↦ ok (d.infinity, none)
      | some r ↦ do
        throw_if (not (d.is_finite r.value) || lt r.value d.nought) bad_tcp_ratio
        ok ((if lt r.value epsilon then d.infinity else d.div tcp.max_linear_speed r.value), some r)
    ]

  -- q''(i) / q'(i)
  abbrev pub curvature_ratio : Joint D → D
  curvature_ratio j = d.div j.q_double_prime j.q_prime

  abbrev pub curvature_difference : Joint D → Joint D → D
  curvature_difference i j = d.magnitude (d.sub (curvature_ratio i) (curvature_ratio j))

  -- The inner loop of compute_acceleration_limit, over the joints behind `i`.
  unfoldable pub pair_limits : D → Joint D → List (Joint D) → D → D
  pair_limits epsilon i [] s_dot_max_accel_sq = s_dot_max_accel_sq
  pair_limits epsilon i (j ∷ js) s_dot_max_accel_sq = pair_limits epsilon i js (
      if is_still epsilon j || lt (curvature_difference i j) epsilon
      then s_dot_max_accel_sq
      else min_of s_dot_max_accel_sq
          (d.div (d.add (speed_limit i) (speed_limit j)) (curvature_difference i j)))

  -- Its outer loop over pairs.
  unfoldable pub all_pair_limits : D → List (Joint D) → D → D
  unfolding pair_limits
  all_pair_limits epsilon [] s_dot_max_accel_sq = s_dot_max_accel_sq
  all_pair_limits epsilon (i ∷ js) s_dot_max_accel_sq = all_pair_limits epsilon js (
      if is_still epsilon i
      then s_dot_max_accel_sq
      else pair_limits epsilon i js s_dot_max_accel_sq)

  -- Its loop over the joints that stand still on a curve.
  unfoldable pub still_limits : D → List (Joint D) → D → D
  still_limits epsilon [] s_dot_max_accel_sq = s_dot_max_accel_sq
  still_limits epsilon (i ∷ js) s_dot_max_accel_sq = still_limits epsilon js (
      if le epsilon (d.magnitude i.q_prime) || lt (d.magnitude i.q_double_prime) epsilon
      then s_dot_max_accel_sq
      else min_of s_dot_max_accel_sq (d.div i.bound (d.magnitude i.q_double_prime)))

  -- compute_acceleration_limit
  unfoldable pub compute_acceleration_limit : D → List (Joint D) → D
  unfolding all_pair_limits still_limits
  compute_acceleration_limit epsilon js =
      d.sqrt (still_limits epsilon js (all_pair_limits epsilon js d.infinity))

  -- compute_joint_limit_curves; without a joint there is none to limit.
  unfoldable pub compute_joint_limit_curves :
      List D → List D → TrajectoryOptions D → Result (LimitCurves D)
  unfolding compute_joint_velocity_limit compute_acceleration_limit
  compute_joint_limit_curves q_prime q_double_prime opt =
      let moving = joints q_prime q_double_prime opt.max_velocity in
      let lowest = compute_joint_velocity_limit opt.epsilon moving in
      elim (get_elem? moving lowest.index) [
        | none ↦ err fault
        | some limiting ↦ ok (record {
          s_dot_max_acc =
              compute_acceleration_limit opt.epsilon
                (joints q_prime q_double_prime opt.max_acceleration);
          s_dot_max_vel = lowest.limit;
          joint = lowest.limit;
          tcp = d.infinity;
          limiting = limiting;
          tcp_ratio = none;
        })
      ]

  -- compute_limit_curves
  unfoldable pub compute_limit_curves :
      List D → List D → List D → TrajectoryOptions D → Result (LimitCurves D)
  unfolding compute_joint_limit_curves compute_tcp_velocity_limit
  compute_limit_curves q q_prime q_double_prime opt = do
    curves ← compute_joint_limit_curves q_prime q_double_prime opt
    elim opt.tcp [
      | none ↦ ok curves
      | some limits ↦ do
        (tcp, ratio) ← compute_tcp_velocity_limit opt.epsilon q q_prime q_double_prime limits
        ok (record curves { tcp = tcp; tcp_ratio = ratio; s_dot_max_vel = min_of curves.joint tcp })
    ]

  -- What one joint leaves of the acceleration at a path velocity.
  abbrev pub centripetal : D → Joint D → D
  centripetal s_dot j = d.div (d.mul j.q_double_prime (d.mul s_dot s_dot)) j.q_prime

  abbrev pub min_from_joint : D → Joint D → D
  min_from_joint s_dot j =
      d.sub (d.div (d.neg j.bound) (d.magnitude j.q_prime)) (centripetal s_dot j)

  abbrev pub max_from_joint : D → Joint D → D
  max_from_joint s_dot j = d.sub (speed_limit j) (centripetal s_dot j)

  abbrev pub tighten : D → D → Joint D → AccelerationBounds D → AccelerationBounds D
  tighten epsilon s_dot j b = if is_still epsilon j then b else record {
    s_ddot_min = max_of b.s_ddot_min (min_from_joint s_dot j);
    s_ddot_max = min_of b.s_ddot_max (max_from_joint s_dot j);
  }

  unfoldable pub tighten_all : D → D → List (Joint D) → AccelerationBounds D → AccelerationBounds D
  tighten_all epsilon s_dot [] b = b
  tighten_all epsilon s_dot (j ∷ js) b = tighten_all epsilon s_dot js (tighten epsilon s_dot j b)

  -- compute_acceleration_bounds_unchecked
  unfoldable pub compute_acceleration_bounds_unchecked :
      D → D → List (Joint D) → AccelerationBounds D
  unfolding tighten_all
  compute_acceleration_bounds_unchecked epsilon s_dot js =
      tighten_all epsilon s_dot js
        (record { s_ddot_min = d.neg d.infinity; s_ddot_max = d.infinity })

  -- compute_acceleration_bounds
  unfoldable pub compute_acceleration_bounds :
      D → D → List (Joint D) → Result (AccelerationBounds D)
  unfolding compute_acceleration_bounds_unchecked
  compute_acceleration_bounds epsilon s_dot js = do
    let b = compute_acceleration_bounds_unchecked epsilon s_dot js
    throw_if (wrap_gt epsilon b.s_ddot_min b.s_ddot_max) infeasible_acceleration
    let lower = min_of b.s_ddot_min b.s_ddot_max
    ok (
        if wrap_eq epsilon b.s_ddot_max b.s_ddot_min
        then record { s_ddot_min = lower; s_ddot_max = lower }
        else b)

  -- compute_joint_velocity_limit_slope
  unfoldable pub compute_joint_velocity_limit_slope : D → Joint D → Result D
  compute_joint_velocity_limit_slope epsilon limiting = do
    let numerator = d.mul (d.neg limiting.bound) limiting.q_double_prime
    let denominator = d.mul limiting.q_prime (d.magnitude limiting.q_prime)
    throw_if (lt (d.magnitude denominator) epsilon) singular_slope
    ok (d.div numerator denominator)

  -- The slope of a TCP limit.
  unfoldable pub tcp_slope : TcpLimits D → TcpRatio D → Result D
  tcp_slope limits r = do
    let slope =
        d.div (d.mul (d.neg limits.max_linear_speed) r.arc_length_derivative)
          (d.mul r.value r.value)
    throw_if (not (d.is_finite slope)) infinite_slope
    ok slope

  -- compute_velocity_limit_slope; reading an option that is not there is a fault.
  unfoldable pub compute_velocity_limit_slope : LimitCurves D → TrajectoryOptions D → Result D
  unfolding compute_joint_velocity_limit_slope tcp_slope
  compute_velocity_limit_slope curves opt =
      if le curves.joint curves.tcp
      then compute_joint_velocity_limit_slope opt.epsilon curves.limiting
      else elim opt.tcp [
        | none ↦ err fault
        | some limits ↦ elim curves.tcp_ratio [ none ↦ err fault | some r ↦ tcp_slope limits r ]
      ]

  -- try_compute_eq40_delta, at the geometry of a cursor: the delta, and the limit.
  unfoldable pub try_compute_eq40_delta :
      List D → List D → List D → TrajectoryOptions D → Result (Option (D × D))
  unfolding compute_limit_curves compute_velocity_limit_slope compute_acceleration_bounds_unchecked
  try_compute_eq40_delta q q_prime q_double_prime opt =
      compute_limit_curves q q_prime q_double_prime opt >>= λ curves.
      if eq curves.s_dot_max_vel d.nought
      then ok none
      else compute_velocity_limit_slope curves opt >>= λ curve_slope.
          let accel_bounds =
            compute_acceleration_bounds_unchecked opt.epsilon curves.s_dot_max_vel
              (joints q_prime q_double_prime opt.max_acceleration) in
          let trajectory_slope = d.div accel_bounds.s_ddot_min curves.s_dot_max_vel in
          ok (some (d.sub trajectory_slope curve_slope, curves.s_dot_max_vel))
