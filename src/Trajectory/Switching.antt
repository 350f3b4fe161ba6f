-- ===== src/Trajectory/Switching.antt =====
-- The switching points of the integration (trajectory.cpp), and the limit curves at a cursor.
pub mod Velocity
pub mod Acceleration
pub mod Search
pub mod Escape
pub mod Walking
pub mod Located
pub mod Stocked
pub mod Found
use trajex.Double.{Double, lt}
use trajex.Xtensor.{Xtensor}
use trajex.Path.{TotgPath, Cursor}
use trajex.Path.Rich.{cursor_configuration, cursor_tangent, cursor_curvature}
use trajex.Path.Segment.{Segment}
use trajex.Trajectory.Limits.{
  TrajectoryOptions, PhasePoint, LimitCurves, wrap_gt, wrap_eq, wrap_lt, compute_joint_limit_curves,
  compute_limit_curves,
}
use trajex.Prelude.{
  ℕ, zero, suc, ◌+◌, ◌-◌, ◌*◌, ◌/◌, ◌%◌, ◌≤◌, ◌<◌, ◌≡◌, refl, sym, ap, ◌∙◌, subst, ◌≢◌, ◌↔◌, ◌⊎◌,
  inl, inr, Bool, true, false, not, ◌&&◌, ◌||◌, Option, none, some, List, [], ◌∷◌, ◌++◌, map, arith,
  ltb, leb, ◌==◌, if◌then◌else◌, Bool-cases, Option-cases, length, get_elem?, take, drop, drop_last,
  last?, All, length-append, length-take, length-drop, take-length, last?-append_one,
  drop_last-append_one, length-drop_last, All-append, All-drop, All-take, All-last?, zero_cases,
  get_elem?-some, length-map, take-append_le, replicate, length-replicate, All-replicate,
  All-get_elem?, Error, Result, ok, err, ◌>>=◌, ◌>>◌, throw_if, Result-cases, Holds, Holds-bind,
  Holds-all, Holds-map, Holds-at, Holds-throw_if, Holds-then, OrNone, Holds-some, Holds-both,
  Holds-self, if-both, elim-both, Holds-any,
}

-- trajectory::switching_point_kind
pub data SwitchingKind : Type 0 where
  path_begin discontinuous_curvature nondifferentiable_extremum : SwitchingKind
  velocity_escape discontinuous_velocity_limit path_end : SwitchingKind

-- switching_point
pub record SwitchingPoint (D : Type 0) : Type 0 where
  pub point : PhasePoint D
  pub kind : SwitchingKind
  pub forward_accel : Option D
  pub backward_accel : Option D

-- switching_point_cache
pub record SwitchingCache (D : Type 0) : Type 0 where
  pub next_accel : Option (SwitchingPoint D)
  pub next_vel : Option (SwitchingPoint D)

module _ {D : Type 0} ⦃d : Double D⦄ where
  -- epsilon.wrap(a) >= epsilon.wrap(b) and <=
  abbrev pub wrap_ge : D → D → D → Bool
  wrap_ge epsilon a b = not (wrap_lt epsilon a b)

  abbrev pub wrap_le : D → D → D → Bool
  wrap_le epsilon a b = not (wrap_gt epsilon a b)

  -- compute_limit_curves at a cursor; only a TCP limit reads the configuration.
  unfoldable pub limit_curves_at :
      TotgPath (Segment D) D → TrajectoryOptions D → Cursor D → Result (LimitCurves D)
  limit_curves_at p opt c = do
    q_prime ← cursor_tangent p c p.dof
    q_double_prime ← cursor_curvature p c p.dof
    elim opt.tcp [
      | none ↦ compute_joint_limit_curves q_prime q_double_prime opt
      | some _ ↦ do
        q ← cursor_configuration p c p.dof
        compute_limit_curves q q_prime q_double_prime opt
    ]

module _ {D : Type 0} ⦃d : Double D⦄ ⦃x : Xtensor D⦄ where
  -- xt::sum(a * b) is not one, within the tolerance: the tangents do not meet smoothly.
  unfoldable pub is_broken : D → List D → List D → Bool
  is_broken epsilon a b = not (wrap_eq epsilon (x.sum (x.times a b)) d.one)

module _ {D : Type 0} ⦃d : Double D⦄ where
  -- select_switching_point
  unfoldable pub select_switching_point :
      D → Option (SwitchingPoint D) → Option (SwitchingPoint D) → Option (SwitchingPoint D)
  select_switching_point epsilon none sp2 = sp2
  select_switching_point epsilon (some sp1) none = some sp1
  select_switching_point epsilon (some sp1) (some sp2) =
      if wrap_eq epsilon sp1.point.s sp2.point.s
      then (if lt sp1.point.s_dot sp2.point.s_dot then some sp1 else some sp2)
      else if lt sp1.point.s sp2.point.s
      then some sp1
      else some sp2

  -- A switching point of the velocity curve, which has no accelerations.
  abbrev pub velocity_point : D → D → SwitchingKind → SwitchingPoint D
  velocity_point s s_dot kind = record {
    point = record { s = s; s_dot = s_dot };
    kind = kind;
    forward_accel = none;
    backward_accel = none;
  }
