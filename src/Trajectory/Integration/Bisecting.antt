-- ===== src/Trajectory/Integration/Bisecting.antt =====
-- The check against the limit curves in the forward integration (trajectory.cpp), and where on the
-- path it leaves the next point.
use trajex.Double.{min_of, Double, lt, le, eq}
use trajex.Double.Ieee.{IsIeee, IsRounded}
use trajex.Path.{TotgPath, View, Cursor, seek}
use trajex.Path.Hint.{IsWellFormed}
use trajex.Path.Rich.{hint_view, cursor_tangent, cursor_curvature}
use trajex.Path.Rich.Settled.{OnPath, IsSettled, seek-IsSettled}
use trajex.Path.Segment.{Segment}
use trajex.Trajectory.Limits.{
  wrap_eq, TrajectoryOptions, PhasePoint, LimitCurves, compute_velocity_limit_slope,
}
use trajex.Trajectory.Stepping.{half}
use trajex.Trajectory.Switching.{limit_curves_at}
use trajex.Trajectory.Breach.{
  next_phase_slope, judge_over, stops_at, min_phase_slope, Bisection, Checked, halve, bisect,
  open_bisection, judge, judge_velocity, judge_acceleration, acceleration_slope, check_limits,
}
use trajex.Prelude.{
  ℕ, zero, suc, ◌≡◌, sym, subst, true, ◌&&◌, ◌||◌, Option, none, some, arith, Holds, Holds-bind,
  OrNone, Holds-some, if-both, elim-both, Holds-any,
}

module _ {D : Type 0} ⦃d : Double D⦄ where
  pub le_trans : (a b c : D) → le a b ≡ true → le b c ≡ true → le a c ≡ true
  le_trans a b c h k = ground arith

  module _ (p : TotgPath (Segment D) D) where
    -- What the check leaves: a next point that is not behind, on the path, as is the breach.
    pub record IsChecked (s : D) (c : Checked D) : Type 0 where
      pub onward : le s c.next.s ≡ true
      pub inside : le c.next.s p.total ≡ true
      pub settled : IsSettled p c.cursor
      pub breached : OrNone (λ hit. OnPath p hit.breach.s) c.hit

    -- The breach is not behind the next point, and neither is behind `s`.
    pub record IsBracketed (s : D) (b : Bisection D) : Type 0 where
      pub onward : le s b.next.s ≡ true
      pub ordered : le b.next.s b.breach.s ≡ true
      pub inside : le b.breach.s p.total ≡ true
      pub settled : IsSettled p b.cursor

    module _ (w : IsWellFormed p) (ieee : IsIeee D) (rounded : IsRounded D)
        (opt : TrajectoryOptions D) (s : D) (start : OnPath p s) where
      settled_at : (c : Cursor D) (t : D) → IsSettled p c → IsSettled p (seek p c t)
      settled_at c t h = seek-IsSettled p w ieee c t h

      halve-IsBracketed :
          (b : Bisection D) → IsBracketed s b → Holds (IsBracketed s) (halve p opt b)
      unfolding halve
      halve-IsBracketed b h =
          let (zero_start, _) = start in
          let from_zero = le_trans d.nought s b.next.s zero_start h.onward in
          let above = rounded.midpoint_above b.next.s b.breach.s from_zero h.ordered in
          let below = rounded.midpoint_below b.next.s b.breach.s from_zero h.ordered in
          let mid : PhasePoint D = record {
            s = d.midpoint b.next.s b.breach.s;
            s_dot = d.midpoint b.next.s_dot b.breach.s_dot;
          } in
          let c = seek p b.cursor mid.s in
          let settled = settled_at b.cursor mid.s h.settled in
          Holds-any (IsBracketed s) (cursor_tangent p c p.dof) _ (λ q_prime.
            Holds-any (IsBracketed s) (cursor_curvature p c p.dof) _ (λ q_double_prime.
              Holds-any (IsBracketed s) (limit_curves_at p opt c) _ (λ curves.
                if-both (IsBracketed s)
                  (lt curves.s_dot_max_acc mid.s_dot || lt curves.s_dot_max_vel mid.s_dot)
                  (λ _. record {
                    onward = h.onward;
                    ordered = above;
                    inside = le_trans mid.s b.breach.s p.total below h.inside;
                    settled = settled;
                  })
                  (λ _. record {
                    onward = le_trans s b.next.s mid.s h.onward above;
                    ordered = below;
                    inside = h.inside;
                    settled = settled;
                  }))))

      bisect-IsBracketed :
          (n : ℕ) (b : Bisection D)
          → IsBracketed s b
          → Holds (OrNone (IsBracketed s)) (bisect p opt n b)
      unfolding bisect
      bisect-IsBracketed zero b h = tt
      bisect-IsBracketed (suc n) b h =
          if-both (Holds (OrNone (IsBracketed s))) (wrap_eq opt.epsilon b.next.s b.breach.s)
            (λ _. h)
            (λ _.
              Holds-bind (IsBracketed s) (OrNone (IsBracketed s)) (halve p opt b) _
                (halve-IsBracketed b h) (λ r k. bisect-IsBracketed n r k))

      breached_at : (b : Bisection D) → IsBracketed s b → OnPath p b.breach.s
      breached_at b h =
          let (zero_start, _) = start in
          let from_zero = le_trans d.nought s b.next.s zero_start h.onward in
          (le_trans d.nought b.next.s b.breach.s from_zero h.ordered, h.inside)

      stops-IsChecked :
          (b : Bisection D) (c : Cursor D)
          → IsBracketed s b
          → IsSettled p c
          → IsChecked s (stops_at b c)
      stops-IsChecked b c h k = record {
        onward = h.onward;
        inside = le_trans b.next.s b.breach.s p.total h.ordered h.inside;
        settled = k;
        breached = breached_at b h;
      }

      commits-IsChecked :
          (b : Bisection D) (s_dot : D) (c : Cursor D)
          → IsBracketed s b
          → IsSettled p c
          → IsChecked s
              (record { next = record { s = b.breach.s; s_dot = s_dot }; hit = none; cursor = c })
      commits-IsChecked b s_dot c h k = record {
        onward = le_trans s b.next.s b.breach.s h.onward h.ordered;
        inside = h.inside;
        settled = k;
        breached = tt;
      }

      judge_velocity-IsChecked :
          (b : Bisection D) (c : Cursor D)
          → IsBracketed s b
          → IsSettled p c
          → Holds (IsChecked s) (judge_velocity p opt b c)
      unfolding judge_velocity
      judge_velocity-IsChecked b cursor h k =
          let c = seek p cursor b.next.s in
          let settled = settled_at cursor b.next.s k in
          Holds-any (IsChecked s) (limit_curves_at p opt c) _ (λ curves.
            Holds-any (IsChecked s) (compute_velocity_limit_slope curves opt) _ (λ vel_curve_slope.
              if-both (IsChecked s) (lt vel_curve_slope (min_phase_slope p opt b))
                (λ _. stops-IsChecked b c h settled)
                (λ _. commits-IsChecked b (min_of b.breach_acc b.breach_vel) c h settled)))

      judge_acceleration-IsChecked :
          (b : Bisection D) (c : Cursor D)
          → IsBracketed s b
          → IsSettled p c
          → Holds (IsChecked s) (judge_acceleration p opt b c)
      unfolding judge_acceleration
      judge_acceleration-IsChecked b cursor h k =
          let before_next = d.sub b.next.s opt.epsilon in
          let c = seek p cursor before_next in
          let settled = settled_at cursor before_next k in
          elim-both (Holds (IsChecked s)) (lt (d.sub b.next.s before_next) (d.mul opt.epsilon half))
            (λ _. stops-IsChecked b cursor h k)
            (λ _. Holds-any (IsChecked s) (acceleration_slope p opt b before_next c) _ (λ slope.
              elim-both (Holds (IsChecked s)) (lt slope (next_phase_slope p opt b))
                (λ _. stops-IsChecked b c h settled)
                (λ _.
                  elim-both (Holds (IsChecked s)) (le b.breach.s_dot b.breach_vel)
                    (λ _. commits-IsChecked b b.breach_acc c h settled)
                    (λ _. judge_velocity-IsChecked b c h settled))))

      judge-IsChecked :
          (current_segment : View (Segment D) D) (b : Bisection D)
          → IsBracketed s b
          → Holds (IsChecked s) (judge p opt current_segment b)
      unfolding judge
      judge-IsChecked current_segment b h =
          let c = seek p b.cursor b.breach.s in
          let settled = settled_at b.cursor b.breach.s h.settled in
          Holds-any (IsChecked s) (hint_view p c) _ (λ breach_segment.
            elim-both (Holds (IsChecked s)) (eq current_segment.start breach_segment.start)
              (λ _.
                elim-both (Holds (IsChecked s)) (le b.breach_acc b.breach.s_dot)
                  (λ _. judge_acceleration-IsChecked b c h settled)
                  (λ _. judge_velocity-IsChecked b c h settled))
              (λ _. stops-IsChecked b c h settled))

      open_bisection-IsBracketed :
          (cursor : Cursor D) (current breach : PhasePoint D) (acc vel : D)
          → current.s ≡ s
          → le s breach.s ≡ true
          → le breach.s p.total ≡ true
          → IsSettled p cursor
          → Holds (IsBracketed s) (open_bisection p opt cursor current breach acc vel)
      unfolding open_bisection
      open_bisection-IsBracketed cursor current breach acc vel here above inside k =
          let c = seek p cursor current.s in
          Holds-any (IsBracketed s) (cursor_tangent p c p.dof) _ (λ q_prime.
            Holds-any (IsBracketed s) (cursor_curvature p c p.dof) _ (λ q_double_prime.
              Holds-any (IsBracketed s) (limit_curves_at p opt c) _ (λ curves. record {
                onward = subst (λ t. le s t ≡ true) (sym here) (ground arith);
                ordered = subst (λ t. le t breach.s ≡ true) (sym here) above;
                inside = inside;
                settled = settled_at cursor current.s k;
              })))

      judged-IsChecked :
          (current_segment : View (Segment D) D) (over : Option (Bisection D))
          → OrNone (IsBracketed s) over
          → Holds (OrNone (IsChecked s)) (judge_over p opt current_segment over)
      unfolding judge_over
      judged-IsChecked current_segment none h = tt
      judged-IsChecked current_segment (some b) h =
          Holds-some (IsChecked s) (judge p opt current_segment b)
            (judge-IsChecked current_segment b h)

      pub check_limits-IsChecked :
          (n : ℕ) (current next : PhasePoint D) (current_segment : View (Segment D) D)
          (curves : LimitCurves D) (cursor : Cursor D)
          → current.s ≡ s
          → le s next.s ≡ true
          → le next.s p.total ≡ true
          → IsSettled p cursor
          → Holds
              (OrNone (IsChecked s))
              (check_limits p opt n current current_segment next curves cursor)
      unfolding check_limits
      check_limits-IsChecked n current next current_segment curves cursor here above inside k =
          elim-both (Holds (OrNone (IsChecked s)))
            (le next.s_dot curves.s_dot_max_acc && le next.s_dot curves.s_dot_max_vel)
            (λ _. record { onward = above; inside = inside; settled = k; breached = tt })
            (λ _.
              Holds-bind (IsBracketed s) (OrNone (IsChecked s))
                (open_bisection p opt cursor current next curves.s_dot_max_acc curves.s_dot_max_vel)
                _
                (open_bisection-IsBracketed cursor current next curves.s_dot_max_acc
                  curves.s_dot_max_vel here above inside k)
                (λ b h.
                  Holds-bind (OrNone (IsBracketed s)) (OrNone (IsChecked s)) (bisect p opt n b) _
                    (bisect-IsBracketed n b h) (λ over o. judged-IsChecked current_segment over o)))
