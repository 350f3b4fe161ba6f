-- ===== src/Trajectory/Backward.antt =====
-- The backward integration of trajectory::create (trajectory.cpp, integrate_backwards_from): one pass
-- of its loop, which ends in a further backward point or in the splice of the backward points onto
-- the forward ones. Both lists stand newest first, so that the window on the forward points is a
-- list whose first two are its right and left end. The expansion and the bisection of the solver run
-- for a number of rounds, and the result is `none` when they are used up. The run has no observer.
pub mod Solver
use trajex.Double.{Double, lt, le, eq, min_of, max_of, two}
use trajex.Path.{View, TotgPath, Cursor, seek, base, view_at}
use trajex.Path.Rich.{hint_view, cursor_tangent, cursor_curvature}
use trajex.Path.Segment.{Segment, tangent_of, curvature_of}
use trajex.Trajectory.{IntegrationPoint}
use trajex.Trajectory.Limits.{
  TrajectoryOptions, PhasePoint, Joint, wrap_eq, wrap_gt, joints, compute_acceleration_bounds,
  compute_acceleration_bounds_unchecked,
}
use trajex.Trajectory.Stepping.{euler_step}
use trajex.Trajectory.Switching.{SwitchingPoint, limit_curves_at, wrap_le}
use trajex.Prelude.{
  ℕ, zero, suc, ◌+◌, ◌-◌, ◌*◌, ◌/◌, ◌%◌, ◌≤◌, ◌<◌, ◌≡◌, refl, sym, ap, ◌∙◌, subst, ◌≢◌, ◌↔◌, ◌⊎◌,
  inl, inr, Bool, true, false, not, ◌&&◌, ◌||◌, Option, none, some, List, [], ◌∷◌, ◌++◌, map, arith,
  ltb, leb, ◌==◌, if◌then◌else◌, Bool-cases, Option-cases, length, get_elem?, take, drop, drop_last,
  last?, All, length-append, length-take, length-drop, take-length, last?-append_one,
  drop_last-append_one, length-drop_last, All-append, All-drop, All-take, All-last?, zero_cases,
  get_elem?-some, length-map, take-append_le, replicate, length-replicate, All-replicate,
  All-get_elem?, Error, Result, ok, err, ◌>>=◌, ◌>>◌, throw_if, Result-cases, Holds, Holds-bind,
  Holds-all, Holds-map, Holds-at, Holds-throw_if, Holds-then, OrNone, Holds-some, Holds-both,
  Holds-self, if-both, elim-both, Holds-any, limit_exceeded, backward_reached_start,
  limit_not_positive, backward_not_decreasing, no_forward_trajectory, switching_behind,
  no_splice_time, switching_at_start, fault, straddle_lost, no_splice_velocity, bracket_exceeded,
}

-- The state of the loop. The backward points are the newest and the others, down to the switching
-- point. `path_cursor` is the forward integration's, which stays.
pub record BackwardState (D : Type 0) : Type 0 where
  pub points : List (IntegrationPoint D)
  pub window : List (IntegrationPoint D)
  pub newest : IntegrationPoint D
  pub others : List (IntegrationPoint D)
  pub switching : SwitchingPoint D
  pub cursor : Cursor D
  pub path_cursor : Cursor D

-- The solver's bracket on the path velocity, with the residuals at its ends.
pub record Bracket (D : Type 0) : Type 0 where
  pub low : D
  pub high : D
  pub residual_low : D
  pub residual_high : D

-- Where the window slides to: the forward points that a crossing keeps, or the window it holds.
pub data Slide (D : Type 0) : Type 0 where
  crosses : List (IntegrationPoint D) → Slide D
  keeps : List (IntegrationPoint D) → Slide D

-- A pass goes on, or has spliced.
pub data BackwardOutcome (D : Type 0) : Type 0 where
  receded : BackwardState D → BackwardOutcome D
  spliced : List (IntegrationPoint D) → SwitchingPoint D → Cursor D → BackwardOutcome D

module _ {D : Type 0} ⦃d : Double D⦄ where
  abbrev pub phase_of : IntegrationPoint D → PhasePoint D
  phase_of a = record { s = a.s; s_dot = a.s_dot }

  -- The acceleration that the switching point sets, on the first pass.
  unfoldable pub mandate : SwitchingPoint D → List (IntegrationPoint D) → Option D
  mandate switching [] = switching.backward_accel
  mandate switching (_ ∷ _) = none

  -- The checks of the switching point, and the first backward point.
  unfoldable pub begin_behind :
      List (IntegrationPoint D)
      → IntegrationPoint D
      → Option (IntegrationPoint D)
      → SwitchingPoint D
      → Cursor D
      → Result (BackwardState D)
  begin_behind points back none where_ cursor = err fault
  begin_behind points back (some front) where_ cursor = do
    throw_if (le where_.point.s front.s) switching_at_start
    throw_if (lt where_.point.s back.s) switching_behind
    ok (record {
      points = points;
      window = points;
      newest = record {
        time = d.nought;
        s = where_.point.s;
        s_dot = where_.point.s_dot;
        s_ddot = elim where_.forward_accel [ none ↦ d.quiet_nan | some a ↦ a ];
      };
      others = [];
      switching = where_;
      cursor = cursor;
      path_cursor = cursor;
    })

  -- What integrate_backwards_from does before its loop.
  unfoldable pub start_backward :
      List (IntegrationPoint D) → SwitchingPoint D → Cursor D → Result (BackwardState D)
  unfolding begin_behind
  start_backward (back ∷ second ∷ older) where_ cursor =
      begin_behind (back ∷ second ∷ older) back (last? (second ∷ older)) where_ cursor
  start_backward _ where_ cursor = err no_forward_trajectory

  -- required_s_ddot - bounds.s_ddot_min
  unfoldable pub residual : D → List (Joint D) → PhasePoint D → D → D → D
  residual epsilon js current delta_s s_dot =
      let dt = d.div delta_s (d.midpoint s_dot current.s_dot) in
      d.sub (d.div (d.sub current.s_dot s_dot) dt)
        (compute_acceleration_bounds_unchecked epsilon s_dot js).s_ddot_min

  abbrev pub straddles_zero : D → D → Bool
  straddles_zero a b = (le a d.nought && le d.nought b) || (le d.nought a && le b d.nought)

  abbrev pub is_straddling : Bracket D → Bool
  is_straddling b = straddles_zero b.residual_low b.residual_high

  -- The bracket around the step, padded by the tolerance.
  unfoldable pub first_bracket : D → (D → D) → PhasePoint D → PhasePoint D → Bracket D
  first_bracket epsilon f current next =
      let other_bound = d.sub next.s_dot (d.sub next.s_dot current.s_dot) in
      let low = max_of d.nought (d.sub (min_of next.s_dot other_bound) epsilon) in
      let high = d.add (max_of next.s_dot other_bound) epsilon in
      record { low = low; high = high; residual_low = f low; residual_high = f high }

  -- The expansion: the width doubles until the residuals straddle zero, or the ceiling is passed.
  unfoldable pub expand : ℕ → (D → D) → D → D → Bracket D → Result (Option (Bracket D))
  expand zero f ceiling width b = ok none
  expand (suc n) f ceiling width b =
      let wider = d.mul width two in
      let low = max_of d.nought (d.sub b.low wider) in
      let high = d.add b.high wider in
      elim (is_straddling b) [
        | true ↦ ok (some b)
        | false ↦
            throw_if (lt ceiling high) bracket_exceeded
            >> expand n f ceiling wider
                (record { low = low; high = high; residual_low = f low; residual_high = f high })
      ]

  -- The bisection, until the residual is near zero or the middle is an end.
  unfoldable pub pinch : ℕ → D → (D → D) → Bracket D → Result (Option (Bracket D))
  pinch zero epsilon f b = ok none
  pinch (suc n) epsilon f b = do
    throw_if (not (is_straddling b)) straddle_lost
    let mid = d.midpoint b.low b.high
    let at_mid = f mid
    elim (eq mid b.low || eq mid b.high) [
      | true ↦ ok (some b)
      | false ↦ elim (wrap_eq epsilon at_mid d.nought) [
        | true ↦
            ok (
              some
                (record { low = mid; high = mid; residual_low = at_mid; residual_high = at_mid }))
        | false ↦ elim (straddles_zero b.residual_low at_mid) [
          | true ↦ pinch n epsilon f (record b { high = mid; residual_high = at_mid })
          | false ↦ pinch n epsilon f (record b { low = mid; residual_low = at_mid })
        ]
      ]
    ]

  -- Whichever end of the bracket has the smaller residual.
  unfoldable pub better_end : Bracket D → D
  better_end r =
      if le (d.magnitude r.residual_low) (d.magnitude r.residual_high) then r.low else r.high

  unfoldable pub pinched_end : Option (Bracket D) → Option D
  unfolding better_end
  pinched_end none = none
  pinched_end (some r) = some (better_end r)

  unfoldable pub pinch_expanded : ℕ → D → (D → D) → Option (Bracket D) → Result (Option D)
  unfolding pinch pinched_end
  pinch_expanded n epsilon f none = ok none
  pinch_expanded n epsilon f (some b) = do pinched ← pinch n epsilon f b; ok (pinched_end pinched)

  -- The path velocity that the solver settles on.
  unfoldable pub solve : ℕ → D → D → (D → D) → PhasePoint D → PhasePoint D → Result (Option D)
  unfolding first_bracket expand pinch_expanded
  solve n epsilon ceiling f current next = elim (wrap_eq epsilon (f next.s_dot) d.nought) [
    | true ↦ ok (some next.s_dot)
    | false ↦ do
      let width = d.magnitude (d.sub next.s_dot current.s_dot)
      expanded ← expand n f ceiling width (first_bracket epsilon f current next)
      pinch_expanded n epsilon f expanded
  ]

  -- The step crossed the start of the segment, or landed close to it: it ends there.
  unfoldable pub quantize_backward : D → D → PhasePoint D → PhasePoint D → PhasePoint D
  quantize_backward epsilon start current next =
      if not (eq current.s start) && wrap_le (d.mul epsilon two) next.s start
      then record {
        s = start;
        s_dot =
            d.lerp current.s_dot next.s_dot
              (d.div (d.sub start current.s) (d.sub next.s current.s));
      }
      else next

  -- forward's s_dot at the step's left end, and the step's at the left end of a forward segment
  abbrev pub fwd_interp : PhasePoint D → IntegrationPoint D → IntegrationPoint D → D
  fwd_interp next left right =
      d.lerp left.s_dot right.s_dot (d.div (d.sub next.s left.s) (d.sub right.s left.s))

  abbrev pub bwd_interp : PhasePoint D → PhasePoint D → IntegrationPoint D → D
  bwd_interp next current left =
      d.lerp next.s_dot current.s_dot (d.div (d.sub left.s next.s) (d.sub current.s next.s))

  -- At the first forward segment the window stays.
  unfoldable pub unless_begin : List (IntegrationPoint D) → Slide D → Slide D → Slide D
  unless_begin [] stays further = stays
  unless_begin (_ ∷ _) stays further = further

  -- The search for an intersection, which slides the window to the left.
  unfoldable pub slide : PhasePoint D → PhasePoint D → List (IntegrationPoint D) → Slide D
  unfolding unless_begin
  slide next current (right ∷ left ∷ older) =
      let further = slide next current (left ∷ older) in
      if not (lt next.s right.s)
      then keeps (right ∷ left ∷ older)
      else if le left.s next.s
      then (if lt (fwd_interp next left right) next.s_dot
          then crosses (left ∷ older)
          else keeps (right ∷ left ∷ older))
      else if lt left.s current.s && lt left.s_dot (bwd_interp next current left)
      then crosses (left ∷ older)
      else unless_begin older (keeps (right ∷ left ∷ older)) further
  slide next current l = keeps l

  -- The backward points, with their times, behind the forward ones. The first is the oldest to come.
  unfoldable pub append_timed :
      D → List (IntegrationPoint D) → List (IntegrationPoint D) → List (IntegrationPoint D)
  append_timed total_time [] l = l
  append_timed total_time (b ∷ bs) l =
      append_timed (d.add total_time b.time) bs (record b { time = total_time } ∷ l)

  -- mean_sdot and dt at the splice
  abbrev pub splice_velocity : IntegrationPoint D → IntegrationPoint D → D
  splice_velocity last first = d.midpoint last.s_dot first.s_dot

  abbrev pub splice_time : IntegrationPoint D → IntegrationPoint D → D
  splice_time last first = d.div (d.sub first.s last.s) (splice_velocity last first)

  -- The last forward point that is kept is joined to the first backward point.
  unfoldable pub join_onto :
      IntegrationPoint D
      → List (IntegrationPoint D)
      → IntegrationPoint D
      → List (IntegrationPoint D)
      → List (IntegrationPoint D)
  unfolding append_timed
  join_onto last older first backwards =
      let dt = splice_time last first in
      append_timed (d.add last.time dt) (first ∷ backwards)
        (record last { s_ddot = d.div (d.sub first.s_dot last.s_dot) dt } ∷ older)

  -- The splice
  unfoldable pub splice :
      D → List (IntegrationPoint D) → List (IntegrationPoint D) → Result (List (IntegrationPoint D))
  unfolding join_onto
  splice epsilon (last ∷ older) (first ∷ backwards) = do
    throw_if (wrap_eq epsilon (splice_velocity last first) d.nought) no_splice_velocity
    throw_if (le (splice_time last first) d.nought) no_splice_time
    ok (join_onto last older first backwards)
  splice epsilon _ _ = err fault

  -- The backward point for a step, with the acceleration and the time that it takes.
  unfoldable pub backward_point : PhasePoint D → PhasePoint D → IntegrationPoint D
  backward_point current next =
      let dt = d.div (d.sub current.s next.s) (d.midpoint next.s_dot current.s_dot) in
      record {
        time = dt;
        s = next.s;
        s_dot = next.s_dot;
        s_ddot = d.div (d.sub current.s_dot next.s_dot) dt;
      }

module _ {D : Type 0} ⦃d : Double D⦄ (p : TotgPath (Segment D) D) (opt : TrajectoryOptions D) where
  -- The segment that is integrated into: at the start of one, the one before it.
  unfoldable pub segment_into : Cursor D → D → Result (View (Segment D) D)
  segment_into c s = elim (view_at p (base p c)) [
    | none ↦ err fault
    | some v ↦ elim (eq s v.start) [
      | false ↦ ok v
      | true ↦ elim (base p c) [
        | zero ↦ err fault
        | suc i ↦ elim (view_at p i) [ none ↦ err fault | some before ↦ ok before ]
      ]
    ]
  ]

  -- s_ddot_desired and s_ddot_mandated
  unfoldable pub choose_backward :
      SwitchingPoint D → List (IntegrationPoint D) → PhasePoint D → Cursor D → Result (D × Bool)
  unfolding segment_into mandate
  choose_backward switching more current c = elim (mandate switching more) [
    | some s_ddot ↦ ok (s_ddot, true)
    | none ↦ do
      v ← segment_into c current.s
      q_prime ← tangent_of v current.s
      q_double_prime ← curvature_of v current.s
      bounds ←
          compute_acceleration_bounds opt.epsilon current.s_dot
            (joints q_prime q_double_prime opt.max_acceleration)
      ok (bounds.s_ddot_min, false)
  ]

  -- `Elaboration 1`: the path velocity at the step's end for which the step is consistent.
  unfoldable pub refine_step : ℕ → D → PhasePoint D → PhasePoint D → Cursor D → Result (Option D)
  unfolding solve residual
  refine_step n ceiling current next c = do
    q_prime ← cursor_tangent p c p.dof
    q_double_prime ← cursor_curvature p c p.dof
    let js = joints q_prime q_double_prime opt.max_acceleration
    let f : D → D = residual opt.epsilon js current (d.sub current.s next.s)
    solve n opt.epsilon (d.mul two ceiling) f current next

  -- The backward step must not be above the limit curves.
  unfoldable pub check_backward : PhasePoint D → Cursor D → Result (Unit {0})
  check_backward next c = do
    curves ← limit_curves_at p opt c
    let s_dot_limit = min_of curves.s_dot_max_acc curves.s_dot_max_vel
    throw_if (le s_dot_limit d.nought) limit_not_positive
    throw_if (wrap_gt opt.epsilon next.s_dot s_dot_limit) limit_exceeded

  -- What follows the step: the splice, or one more backward point.
  unfoldable pub act_on :
      BackwardState D → PhasePoint D → Cursor D → Slide D → Result (BackwardOutcome D)
  unfolding splice check_backward backward_point
  act_on st next c (crosses kept) = do
    points ← splice opt.epsilon kept (st.newest ∷ st.others)
    ok (spliced points st.switching st.path_cursor)
  act_on st next c (keeps window) =
      check_backward next (seek p c next.s)
      >> ok (
          receded (record st {
            window = window;
            newest = backward_point (phase_of st.newest) next;
            others = st.newest ∷ st.others;
            cursor = seek p c next.s;
          }))

  unfoldable pub settle : BackwardState D → PhasePoint D → Cursor D → Result (BackwardOutcome D)
  unfolding slide act_on
  settle st next c = act_on st next c (slide next (phase_of st.newest) st.window)

  -- The step, refined unless its acceleration is mandated.
  unfoldable pub refine_unless :
      Bool
      → ℕ
      → D
      → PhasePoint D
      → PhasePoint D
      → Cursor D
      → Result (Option (PhasePoint D × Cursor D))
  unfolding refine_step
  refine_unless true n ceiling current next c = ok (some (next, c))
  refine_unless false n ceiling current next c = do
    let c_next = seek p c next.s
    refined ← refine_step n ceiling current next c_next
    elim refined [ none ↦ ok none | some s_dot ↦ ok (some (record next { s_dot = s_dot }, c_next)) ]

  unfoldable pub settle_refined :
      BackwardState D → Option (PhasePoint D × Cursor D) → Result (Option (BackwardOutcome D))
  unfolding settle
  settle_refined st none = ok none
  settle_refined st (some (next, c)) = settle st next c >>= λ o. ok (some o)

  -- One pass of the loop of integrate_backwards_from.
  unfoldable pub backward_pass : ℕ → D → BackwardState D → Result (Option (BackwardOutcome D))
  unfolding choose_backward quantize_backward refine_unless settle_refined
  backward_pass n ceiling st = do
    let current = phase_of st.newest
    let c = seek p st.cursor current.s
    (s_ddot, mandated) ← choose_backward st.switching st.others current c
    stepped_to ← euler_step current s_ddot (d.neg opt.delta) opt.epsilon
    segment ← hint_view p c
    let next = quantize_backward opt.epsilon segment.start current stepped_to
    throw_if (le current.s next.s) backward_not_decreasing
    throw_if (le next.s d.nought) backward_reached_start
    refined ← refine_unless mandated n ceiling current next c
    settle_refined st refined
