-- ===== src/Trajectory/Switching/Velocity.antt =====
-- The search for a switching point on the velocity limit curve (trajectory.cpp): at the boundaries of
-- segments, and where the trajectory can escape from the curve inside of them. A loop runs for a
-- number of rounds, and the result is `none` when they are used up; the bisection has the 100 rounds
-- of the source.
use trajex.Double.{Double, lt, le, eq, min_of, two}
use trajex.Xtensor.{Xtensor}
use trajex.Path.{TotgPath, View, Cursor, seek, segment_at}
use trajex.Path.Rich.{hint_view, cursor_configuration, cursor_tangent, cursor_curvature}
use trajex.Path.Segment.{Segment, tangent_of, curvature_of, configuration_of}
use trajex.Trajectory.Limits.{
  TrajectoryOptions, LimitCurves, wrap_eq, wrap_gt, joints, compute_limit_curves,
  compute_acceleration_limit, compute_acceleration_bounds, compute_velocity_limit_slope,
  try_compute_eq40_delta,
}
use trajex.Trajectory.Switching.{
  SwitchingPoint, velocity_escape, discontinuous_velocity_limit, velocity_point, is_broken, wrap_le,
  wrap_ge, select_switching_point,
}
use trajex.Prelude.{
  ℕ, zero, suc, Bool, true, false, ◌&&◌, ◌||◌, Option, none, some, List, [], if◌then◌else◌, Result,
  ok, err, ◌>>=◌, fault,
}

-- eq40_escape_bracket
pub record EscapeBracket (D : Type 0) : Type 0 where
  pub before : D
  pub after : D
  pub after_delta : D
  pub after_s_dot_max_vel : D

-- The state of the scan for a bracket.
pub record Scan (D : Type 0) : Type 0 where
  pub cursor : Cursor D
  pub previous_position : D
  pub previous_delta : Option D
  pub previous_segment : View (Segment D) D

-- A round of a search: it is over, it has found something, or it goes on.
pub data Round (S A : Type 0) : Type 0 where
  over : Round S A
  finds : A → Round S A
  goes : S → Round S A

unfoldable pub after_round {ℓ} :
    {S A : Type 0} {B : Type ℓ} → Result B → (A → Result B) → (S → Result B) → Round S A → Result B
after_round ends found on over = ends
after_round ends found on (finds a) = found a
after_round ends found on (goes s) = on s

unfoldable pub found_or : {S A : Type 0} → Round S A → Option A → Round S A
found_or rest none = rest
found_or rest (some a) = finds a

-- What is searched is there, or the rest of the search goes on; a search whose rounds are used up
-- has no result.
unfoldable pub unless_found :
    {A : Type 0} → (Unit {0} → Result (Option (Option A))) → Option A → Result (Option (Option A))
unless_found rest (some a) = ok (some (some a))
unless_found rest none = rest tt

unfoldable pub with_bracket :
    {A B : Type 0}
    → (A → Result (Option (Option B)))
    → Option (Option A)
    → Result (Option (Option B))
with_bracket rest none = ok none
with_bracket rest (some none) = ok (some none)
with_bracket rest (some (some a)) = rest a

module _ {D : Type 0} ⦃d : Double D⦄ (p : TotgPath (Segment D) D) (opt : TrajectoryOptions D) where
  -- try_compute_eq40_delta at a cursor.
  unfoldable pub eq40_at : Cursor D → Result (Option (D × D))
  eq40_at c = do
    q_prime ← cursor_tangent p c p.dof
    q_double_prime ← cursor_curvature p c p.dof
    elim opt.tcp [
      | none ↦ try_compute_eq40_delta [] q_prime q_double_prime opt
      | some _ ↦ do
        q ← cursor_configuration p c p.dof
        try_compute_eq40_delta q q_prime q_double_prime opt
    ]

  -- path::configuration
  unfoldable pub path_configuration : D → Result (List D)
  path_configuration s = do
    at ← segment_at p s
    elim at [ none ↦ err fault | some v ↦ configuration_of v s ]

  -- The conditions of the two loops that walk along the path.
  abbrev pub in_search : D → D → Bool
  in_search position max_search_hint = le position max_search_hint && lt position p.total

  -- The slope of the trajectory at the lower bound, on the velocity curve.
  unfoldable pub trajectory_slope : List D → List D → D → Result D
  trajectory_slope q_prime q_double_prime s_dot_max_vel = do
    accel ←
        compute_acceleration_bounds opt.epsilon s_dot_max_vel
          (joints q_prime q_double_prime opt.max_acceleration)
    ok (d.div accel.s_ddot_min s_dot_max_vel)

  -- Conditions 41 and 42, the second only if the first holds.
  unfoldable pub both_conditions :
      List D → List D → LimitCurves D → List D → List D → LimitCurves D → Result Bool
  unfolding trajectory_slope
  both_conditions q_prime_before q_double_prime_before before q_prime_after q_double_prime_after
        after =
      do
        curve_before ← compute_velocity_limit_slope before opt
        slope_before ← trajectory_slope q_prime_before q_double_prime_before before.s_dot_max_vel
        elim (le curve_before slope_before) [
          | false ↦ ok false
          | true ↦ do
            curve_after ← compute_velocity_limit_slope after opt
            slope_after ← trajectory_slope q_prime_after q_double_prime_after after.s_dot_max_vel
            ok (le slope_after curve_after)
        ]

  -- A boundary whose tangents meet is a switching point if it fulfils conditions 41 and 42, below the
  -- acceleration curve.
  unfoldable pub judge_boundary :
      D
      → View (Segment D) D
      → View (Segment D) D
      → List D
      → List D
      → Result (Option (SwitchingPoint D))
  unfolding both_conditions path_configuration
  judge_boundary boundary current_segment segment_after q_prime_before q_prime_after = do
    q_double_prime_before ← curvature_of current_segment boundary
    q_double_prime_after ← curvature_of segment_after boundary
    boundary_q ← path_configuration boundary
    before ← compute_limit_curves boundary_q q_prime_before q_double_prime_before opt
    after ← compute_limit_curves boundary_q q_prime_after q_double_prime_after opt
    let s_dot = min_of before.s_dot_max_vel after.s_dot_max_vel
    elim (wrap_le opt.epsilon before.s_dot_max_acc before.s_dot_max_vel
        || wrap_le opt.epsilon after.s_dot_max_acc after.s_dot_max_vel) [
          | true ↦ ok none
          | false ↦ do
            valid ←
                both_conditions q_prime_before q_double_prime_before before q_prime_after
                  q_double_prime_after after
            ok (
                if valid
                  && wrap_ge opt.epsilon (min_of before.s_dot_max_acc after.s_dot_max_acc) s_dot
                then some (velocity_point boundary s_dot discontinuous_velocity_limit)
                else none)
        ]

  -- The escape at a position is on or below the acceleration curve.
  unfoldable pub below_acceleration_curve : Cursor D → SwitchingPoint D → Result Bool
  below_acceleration_curve cursor sp = do
    let at = seek p cursor sp.point.s
    q_prime ← cursor_tangent p at p.dof
    q_double_prime ← cursor_curvature p at p.dof
    ok (
        wrap_le opt.epsilon sp.point.s_dot (
          compute_acceleration_limit opt.epsilon
            (joints q_prime q_double_prime opt.max_acceleration)))

  -- One round of the bisection, by Delta at the middle.
  unfoldable pub narrow :
      EscapeBracket D → D → Option (D × D) → Round (EscapeBracket D) (SwitchingPoint D)
  narrow b mid none = goes (record b { before = mid })
  narrow b mid (some (delta, s_dot_max_vel)) =
      if eq delta d.nought
      then finds (velocity_point mid s_dot_max_vel velocity_escape)
      else if lt delta d.nought
      then goes (record b { after = mid; after_s_dot_max_vel = s_dot_max_vel })
      else goes (record b { before = mid })

  unfoldable pub bisect_escape : ℕ → Cursor D → EscapeBracket D → Result (Option (SwitchingPoint D))
  unfolding narrow after_round
  bisect_escape zero cursor b = ok none
  bisect_escape (suc n) cursor b = elim (wrap_eq opt.epsilon b.before b.after) [
    | true ↦ ok (some (velocity_point b.after b.after_s_dot_max_vel velocity_escape))
    | false ↦ do
      let mid = d.midpoint b.before b.after
      let c = seek p cursor mid
      at_mid ← eq40_at c
      after_round (ok none) (λ sp. ok (some sp)) (λ r. bisect_escape n c r) (narrow b mid at_mid)
  ]

  -- refine_continuous_velocity_switching_point
  unfoldable pub refine_escape : Cursor D → EscapeBracket D → Result (Option (SwitchingPoint D))
  unfolding bisect_escape
  refine_escape cursor b = elim (wrap_eq opt.epsilon b.after_delta d.nought) [
    | true ↦ ok (some (velocity_point b.after b.after_s_dot_max_vel velocity_escape))
    | false ↦ bisect_escape 100 cursor b
  ]

  -- Where the scan goes next: a step on, to the end of the segment if it is near, not past the hint.
  abbrev pub next_position : D → View (Segment D) D → D → D
  next_position position segment max_search_hint =
      let stepped = d.add position opt.delta in
      min_of
        (if wrap_ge (d.mul opt.epsilon two) stepped segment.stop then segment.stop else stepped)
        max_search_hint

  -- A sign bracket: Delta was above zero before, and is not above it now.
  unfoldable pub bracket_at : D → Option D → D → D × D → Option (EscapeBracket D)
  bracket_at previous_position none position (delta, s_dot_max_vel) = none
  bracket_at previous_position (some previous_delta) position (delta, s_dot_max_vel) =
      if lt d.nought previous_delta && le delta d.nought
      then some (record {
        before = previous_position;
        after = position;
        after_delta = delta;
        after_s_dot_max_vel = s_dot_max_vel;
      })
      else none

  unfoldable pub delta_of : Option (D × D) → Option D
  delta_of none = none
  delta_of (some (delta, _)) = some delta

  -- The end of a round of the scan, at a position where Delta is `result`.
  unfoldable pub scan_on :
      D → Scan D → View (Segment D) D → Option D → Option (D × D) → Round (Scan D) (EscapeBracket D)
  unfolding delta_of
  scan_on max_search_hint st segment baseline result =
      let next = next_position st.cursor.position segment max_search_hint in
      if eq next st.cursor.position
      then over
      else goes (record {
        cursor = seek p st.cursor next;
        previous_position = st.cursor.position;
        previous_delta = delta_of result;
        previous_segment = segment;
      })

  unfoldable pub scan_result :
      D → Scan D → View (Segment D) D → Option D → Option (D × D) → Round (Scan D) (EscapeBracket D)
  unfolding bracket_at scan_on found_or
  scan_result max_search_hint st segment baseline none =
      scan_on max_search_hint st segment baseline none
  scan_result max_search_hint st segment baseline (some r) =
      found_or (scan_on max_search_hint st segment baseline (some r))
        (bracket_at st.previous_position baseline st.cursor.position r)

module _ {D : Type 0} ⦃d : Double D⦄ ⦃x : Xtensor D⦄ (p : TotgPath (Segment D) D)
    (opt : TrajectoryOptions D) where
  -- The baseline, which a discontinuous boundary between the samples invalidates.
  unfoldable pub baseline_of : Scan D → View (Segment D) D → Result (Option D)
  baseline_of st current_segment = elim (eq current_segment.stop st.previous_segment.stop) [
    | true ↦ ok st.previous_delta
    | false ↦ do
      before ← tangent_of st.previous_segment st.previous_segment.stop
      after ← tangent_of current_segment st.previous_segment.stop
      ok (if is_broken opt.epsilon before after then none else st.previous_delta)
  ]

  -- One round of find_eq40_escape_bracket.
  unfoldable pub scan_round : D → Scan D → Result (Round (Scan D) (EscapeBracket D))
  unfolding eq40_at baseline_of scan_result
  scan_round max_search_hint st = elim (in_search p opt st.cursor.position max_search_hint) [
    | false ↦ ok over
    | true ↦ do
      result ← eq40_at p opt st.cursor
      current_segment ← hint_view p st.cursor
      baseline ← baseline_of st current_segment
      ok (scan_result p opt max_search_hint st current_segment baseline result)
  ]

  unfoldable pub scan : ℕ → D → Scan D → Result (Option (Option (EscapeBracket D)))
  unfolding scan_round after_round
  scan zero max_search_hint st = ok none
  scan (suc n) max_search_hint st = do
    r ← scan_round max_search_hint st
    after_round (ok (some none)) (λ b. ok (some (some b))) (λ st'. scan n max_search_hint st') r

  -- find_eq40_escape_bracket
  unfoldable pub find_eq40_escape_bracket :
      ℕ → Cursor D → D → D → Result (Option (Option (EscapeBracket D)))
  unfolding scan
  find_eq40_escape_bracket n cursor search_position max_search_hint = do
    let c = seek p cursor search_position
    segment ← hint_view p c
    scan n max_search_hint (record {
      cursor = c;
      previous_position = search_position;
      previous_delta = none;
      previous_segment = segment;
    })

  -- What was refined, if it is below the acceleration curve.
  unfoldable pub accept : Cursor D → Option (SwitchingPoint D) → Result (Option (SwitchingPoint D))
  unfolding below_acceleration_curve
  accept cursor none = ok none
  accept cursor (some sp) = do
    below ← below_acceleration_curve p opt cursor sp
    ok (if below then some sp else none)

  -- A bracket, refined and accepted or not.
  unfoldable pub try_bracket : Cursor D → EscapeBracket D → Result (Option (SwitchingPoint D))
  unfolding refine_escape accept
  try_bracket cursor b = do refined ← refine_escape p opt cursor b; accept cursor refined

  -- The loop of find_continuous_velocity_switching_point.
  unfoldable pub escape_from :
      ℕ → ℕ → Cursor D → D → D → Result (Option (Option (SwitchingPoint D)))
  unfolding find_eq40_escape_bracket with_bracket try_bracket unless_found
  escape_from n zero cursor max_search_hint search_position = ok none
  escape_from n (suc rounds) cursor max_search_hint search_position =
      elim (in_search p opt search_position max_search_hint) [
        | false ↦ ok (some none)
        | true ↦ do
          coarse ← find_eq40_escape_bracket n cursor search_position max_search_hint
          with_bracket
              (λ b. try_bracket cursor b >>= λ found.
                unless_found (λ _. escape_from n rounds cursor max_search_hint b.after) found)
              coarse
      ]

  -- find_continuous_velocity_switching_point
  unfoldable pub find_continuous_velocity_switching_point :
      ℕ → Cursor D → D → Result (Option (Option (SwitchingPoint D)))
  unfolding escape_from
  find_continuous_velocity_switching_point n cursor max_search_hint =
      escape_from n n cursor max_search_hint cursor.position

  -- A boundary ahead of the start: a corner stops the motion, other boundaries are judged.
  unfoldable pub try_boundary :
      D → View (Segment D) D → Cursor D → Result (Option (SwitchingPoint D))
  unfolding judge_boundary
  try_boundary boundary current_segment c = do
    q_prime_before ← tangent_of current_segment boundary
    segment_after ← hint_view p c
    q_prime_after ← tangent_of segment_after boundary
    elim (is_broken opt.epsilon q_prime_before q_prime_after) [
      | true ↦ ok (some (velocity_point boundary d.nought discontinuous_velocity_limit))
      | false ↦
          judge_boundary p opt boundary current_segment segment_after q_prime_before q_prime_after
    ]

  -- The loop of find_discontinuous_velocity_switching_point.
  unfoldable pub boundary_from :
      ℕ → D → D → Cursor D → D → Result (Option (Option (SwitchingPoint D)))
  unfolding try_boundary unless_found
  boundary_from zero from max_search_hint c last = ok none
  boundary_from (suc n) from max_search_hint c last =
      elim (in_search p opt c.position max_search_hint) [
        | false ↦ ok (some none)
        | true ↦ hint_view p c >>= λ current_segment.
            let boundary = current_segment.stop in
            let moved = seek p c boundary in
            elim (wrap_le opt.epsilon boundary last
              || wrap_ge opt.epsilon boundary p.total
              || wrap_gt opt.epsilon boundary max_search_hint) [
                | true ↦ ok (some none)
                | false ↦ elim (wrap_le opt.epsilon boundary from) [
                  | true ↦ boundary_from n from max_search_hint moved last
                  | false ↦ try_boundary boundary current_segment moved >>= λ r.
                      unless_found (λ _. boundary_from n from max_search_hint moved boundary) r
                ]
              ]
      ]

  -- find_discontinuous_velocity_switching_point
  unfoldable pub find_discontinuous_velocity_switching_point :
      ℕ → Cursor D → D → Result (Option (Option (SwitchingPoint D)))
  unfolding boundary_from
  find_discontinuous_velocity_switching_point n cursor max_search_hint =
      boundary_from n cursor.position max_search_hint cursor (d.neg d.infinity)

  -- The nearer of a switching point and the limit of the search.
  unfoldable pub bound_by : Option (SwitchingPoint D) → D → D
  bound_by none max_search_hint = max_search_hint
  bound_by (some sp) max_search_hint = min_of sp.point.s max_search_hint

  unfoldable pub select_or_none :
      Option (SwitchingPoint D)
      → Option (Option (SwitchingPoint D))
      → Option (Option (SwitchingPoint D))
  unfolding select_switching_point
  select_or_none discontinuous none = none
  select_or_none discontinuous (some continuous) =
      some (select_switching_point opt.epsilon discontinuous continuous)

  -- The search inside of the segments, before the boundary that was found.
  unfoldable pub search_below :
      ℕ
      → Cursor D
      → D
      → Option (Option (SwitchingPoint D))
      → Result (Option (Option (SwitchingPoint D)))
  unfolding find_continuous_velocity_switching_point bound_by select_or_none
  search_below n cursor max_search_hint none = ok none
  search_below n cursor max_search_hint (some discontinuous) = do
    continuous ←
        find_continuous_velocity_switching_point n cursor (bound_by discontinuous max_search_hint)
    ok (select_or_none discontinuous continuous)

  -- find_velocity_switching_point
  unfoldable pub find_velocity_switching_point :
      ℕ → Cursor D → D → Result (Option (Option (SwitchingPoint D)))
  unfolding find_discontinuous_velocity_switching_point search_below
  find_velocity_switching_point n cursor max_search_hint = do
    found ← find_discontinuous_velocity_switching_point n cursor max_search_hint
    search_below n cursor max_search_hint found
