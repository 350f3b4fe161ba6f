-- ===== src/Trajectory/Limits/Slope.antt =====
-- compute_velocity_limit_slope of what compute_limit_curves returns (trajectory.cpp).
use trajex.Double.{Double, lt, le, min_of, IsNumber}
use trajex.Double.Ieee.{IsIeee}
use trajex.Trajectory.Limits.{
  Joint, TcpRatio, TcpLimits, TrajectoryOptions, LimitCurves, joints, compute_joint_velocity_limit,
  compute_tcp_velocity_limit, compute_joint_limit_curves, compute_limit_curves,
  compute_joint_velocity_limit_slope, tcp_slope, compute_velocity_limit_slope,
}
use trajex.Trajectory.Limits.JointSpeed.{compute_joint_velocity_limit-IsLowest}
use trajex.Prelude.{
  ◌≡◌, refl, sym, ap, ◌∙◌, subst, ◌≢◌, inl, inr, true, false, not, ◌||◌, Option, none, some, List,
  arith, Bool-cases, Option-cases, get_elem?, Result, ok, err, ◌>>=◌, throw_if, Holds, Holds-bind,
  Holds-at, Holds-then, bad_function_call, bad_tcp_ratio, fault,
}

-- A result that is not undefined behaviour.
abbrev pub Defined {ℓ} : {A : Type ℓ} → Result A → Type 0
Defined (ok _) = Unit
Defined (err e) = e ≢ fault

module _ {D : Type 0} ⦃d : Double D⦄ where
  -- Where the TCP limit is the lower one, there is a TCP limit with a ratio; the combined limit is
  -- the lower of the two, and the joint limit is a number.
  pub record IsPaired (opt : TrajectoryOptions D) (c : LimitCurves D) : Type 0 where
    pub joint_number : IsNumber c.joint
    pub lower : c.s_dot_max_vel ≡ min_of c.joint c.tcp
    pub tcp_there :
        le c.joint c.tcp ≡ false
        → (l : TcpLimits D) × (r : TcpRatio D) × (opt.tcp ≡ some l) × (c.tcp_ratio ≡ some r)

  module _ (ieee : IsIeee D) where
    joint_le : (limit : D) → IsNumber limit → le limit d.infinity ≡ true
    joint_le limit n = ground (arith, ieee.below_infinity limit n, ieee.infinity_number)

    -- Curves of joints alone.
    record IsJoints (c : LimitCurves D) : Type 0 where
      number : IsNumber c.joint
      tcp_none : c.tcp ≡ d.infinity
      vel_joint : c.s_dot_max_vel ≡ c.joint

    joint_curves-IsJoints :
        (q_prime q_double_prime : List D) (opt : TrajectoryOptions D)
        → Holds IsJoints (compute_joint_limit_curves q_prime q_double_prime opt)
    unfolding compute_joint_limit_curves
    joint_curves-IsJoints q_prime q_double_prime opt =
        let js = joints q_prime q_double_prime opt.max_velocity in
        let lowest = compute_joint_velocity_limit opt.epsilon js in
        let low = compute_joint_velocity_limit-IsLowest opt.epsilon js ieee.infinity_number in
        elim (Option-cases (get_elem? js lowest.index)) [
          | inl e ↦ rw (e, compute_joint_limit_curves) tt
          | inr (j, e) ↦
              rw (e, compute_joint_limit_curves)
                (record { number = low.number; tcp_none = refl; vel_joint = refl })
        ]

    -- A TCP limit without a ratio is infinite.
    abbrev HasRatio : D × Option (TcpRatio D) → Type 0
    HasRatio (tcp, none) = tcp ≡ d.infinity
    HasRatio (tcp, some r) = Unit

    tcp_limit-HasRatio :
        (epsilon : D) (q q_prime q_double_prime : List D) (limits : TcpLimits D)
        → Holds HasRatio (compute_tcp_velocity_limit epsilon q q_prime q_double_prime limits)
    unfolding compute_tcp_velocity_limit
    tcp_limit-HasRatio epsilon q q_prime q_double_prime limits =
        Holds-then HasRatio (throw_if (not limits.is_set) bad_function_call) _
          (elim (Option-cases (limits.evaluator q q_prime q_double_prime)) [
            | inl e ↦ rw e refl
            | inr (r, e) ↦ rw e (
                Holds-then HasRatio
                  (throw_if (not (d.is_finite r.value) || lt r.value d.nought) bad_tcp_ratio) _ tt)
          ])

    joints_alone : (opt : TrajectoryOptions D) (c : LimitCurves D) → IsJoints c → IsPaired opt c
    joints_alone opt c j = record {
      joint_number = j.number;
      lower =
          (let same : min_of c.joint d.infinity ≡ c.joint =
              ground (arith, ieee.below_infinity c.joint j.number, ieee.infinity_number) in
            subst (λ t. c.s_dot_max_vel ≡ min_of c.joint t) (sym j.tcp_none)
              (j.vel_joint ∙ sym same));
      tcp_there = λ b. absurd (
          let there : le c.joint c.tcp ≡ true =
            subst (λ t. le c.joint t ≡ true) (sym j.tcp_none) (joint_le c.joint j.number) in
          cc);
    }

    with_tcp :
        (opt : TrajectoryOptions D) (limits : TcpLimits D) (c : LimitCurves D)
        → opt.tcp ≡ some limits
        → IsJoints c
        → (t : D × Option (TcpRatio D)) → HasRatio t
        → IsPaired opt (record c { tcp = t.0; tcp_ratio = t.1; s_dot_max_vel = min_of c.joint t.0 })
    with_tcp opt limits c e j (tcp, none) h = record {
      joint_number = j.number;
      lower = refl;
      tcp_there = λ b. absurd (
          let there : le c.joint tcp ≡ true =
            subst (λ t. le c.joint t ≡ true) (sym h) (joint_le c.joint j.number) in
          cc);
    }
    with_tcp opt limits c e j (tcp, some r) h = record {
      joint_number = j.number;
      lower = refl;
      tcp_there = λ b. (limits, r, e, refl);
    }

    cases :
        (q q_prime q_double_prime : List D) (opt : TrajectoryOptions D) (c : LimitCurves D)
        → IsJoints c
        → (o : Option (TcpLimits D)) → opt.tcp ≡ o
        → Holds (IsPaired opt) (elim o as (λ _. Result (LimitCurves D)) [
          | none ↦ ok c
          | some limits ↦
              compute_tcp_velocity_limit opt.epsilon q q_prime q_double_prime limits >>= λ t.
              ok (record c { tcp = t.0; tcp_ratio = t.1; s_dot_max_vel = min_of c.joint t.0 })
        ])
    cases q q_prime q_double_prime opt c j none e = joints_alone opt c j
    cases q q_prime q_double_prime opt c j (some limits) e =
        Holds-bind HasRatio (IsPaired opt)
          (compute_tcp_velocity_limit opt.epsilon q q_prime q_double_prime limits) _
          (tcp_limit-HasRatio opt.epsilon q q_prime q_double_prime limits)
          (with_tcp opt limits c e j)

    limit_curves-IsPaired :
        (q q_prime q_double_prime : List D) (opt : TrajectoryOptions D)
        → Holds (IsPaired opt) (compute_limit_curves q q_prime q_double_prime opt)
    unfolding compute_limit_curves
    limit_curves-IsPaired q q_prime q_double_prime opt =
        Holds-bind IsJoints (IsPaired opt) (compute_joint_limit_curves q_prime q_double_prime opt) _
          (joint_curves-IsJoints q_prime q_double_prime opt)
          (λ c j. cases q q_prime q_double_prime opt c j opt.tcp refl)

  joint_slope-Defined :
      (epsilon : D) (j : Joint D) → Defined (compute_joint_velocity_limit_slope epsilon j)
  unfolding compute_joint_velocity_limit_slope
  joint_slope-Defined epsilon j =
      elim (Bool-cases (lt (d.magnitude (d.mul j.q_prime (d.magnitude j.q_prime))) epsilon)) [
        | inl singular ↦ rw (singular, compute_joint_velocity_limit_slope) (λ e. cc)
        | inr plain ↦ rw (plain, compute_joint_velocity_limit_slope) tt
      ]

  tcp_slope-Defined : (l : TcpLimits D) (r : TcpRatio D) → Defined (tcp_slope l r)
  unfolding tcp_slope
  tcp_slope-Defined l r =
      elim (Bool-cases (
        d.is_finite (
          d.div (d.mul (d.neg l.max_linear_speed) r.arc_length_derivative)
            (d.mul r.value r.value)))) [
              | inl finite ↦ rw (finite, tcp_slope) tt
              | inr wild ↦ rw (wild, tcp_slope) (λ e. cc)
            ]

  slope-Defined :
      (opt : TrajectoryOptions D) (c : LimitCurves D)
      → IsPaired opt c
      → Defined (compute_velocity_limit_slope c opt)
  unfolding compute_velocity_limit_slope
  slope-Defined opt c paired = elim (Bool-cases (le c.joint c.tcp)) [
    | inl joint ↦
        rw (joint, compute_velocity_limit_slope) (joint_slope-Defined opt.epsilon c.limiting)
    | inr tcp ↦
        let (l, r, e, f) = paired.tcp_there tcp in
        let same : compute_velocity_limit_slope c opt ≡ tcp_slope l r =
          (let body : Option (TcpLimits D) → Option (TcpRatio D) → Result D = λ o q.
              elim o as (λ _. Result D) [
                | none ↦ err fault
                | some l' ↦ elim q as (λ _. Result D) [
                  | none ↦ err fault
                  | some r' ↦ tcp_slope l' r'
                ]
              ] in
            rw (tcp, compute_velocity_limit_slope)
              (ap (λ o. body o c.tcp_ratio) e ∙ ap (body (some l)) f)) in
        subst Defined (sym same) (tcp_slope-Defined l r)
  ]

  -- With the doubles of IEEE 754, for limit curves that `compute_limit_curves` returns: the joint limit
  -- is a number and the velocity limit is the lower of the two; where the TCP limit is below the joint
  -- limit, the options have a TCP limit and the curves its ratio; so the slope never reads an option
  -- that is not there.
  pub compute_velocity_limit_slope-Defined :
      (q q_prime q_double_prime : List D) (opt : TrajectoryOptions D) (c : LimitCurves D)
      → IsIeee D
      → compute_limit_curves q q_prime q_double_prime opt ≡ ok c
      → IsPaired opt c × Defined (compute_velocity_limit_slope c opt)
  compute_velocity_limit_slope-Defined q q_prime q_double_prime opt c ieee e =
      let paired =
        Holds-at (IsPaired opt) (compute_limit_curves q q_prime q_double_prime opt)
          (limit_curves-IsPaired ieee q q_prime q_double_prime opt) e in
      (paired, slope-Defined opt c paired)
