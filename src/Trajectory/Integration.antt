-- ===== src/Trajectory/Integration.antt =====
-- trajectory::create (trajectory.cpp) where it is given no integration points: forward and backward
-- integration take turns from switching point to switching point. A pass of either loop is one step
-- of a state machine; the search for a switching point is a parameter. The integration points stand
-- newest first until the end. The run has no observer.
pub mod Receding
pub mod Bisecting
pub mod Advancing
pub mod Increasing
use trajex.Double.{Double, le}
use trajex.Xtensor.{Xtensor}
use trajex.Path.{TotgPath, Cursor}
use trajex.Path.Segment.{Segment}
use trajex.Trajectory.{IntegrationPoint}
use trajex.Trajectory.Limits.{TrajectoryOptions, PhasePoint}
use trajex.Trajectory.Switching.{
  SwitchingKind, path_begin, path_end, SwitchingPoint, SwitchingCache,
}
use trajex.Trajectory.Switching.Search.{find_switching_point}
use trajex.Trajectory.Forward.{ForwardOutcome, ForwardState, advanced, stopped, forward_pass}
use trajex.Trajectory.Backward.{
  BackwardOutcome, BackwardState, receded, spliced, start_backward, backward_pass,
}
use trajex.Prelude.{
  ℕ, zero, suc, ◌+◌, ◌-◌, ◌*◌, ◌/◌, ◌%◌, ◌≤◌, ◌<◌, ◌≡◌, refl, sym, ap, ◌∙◌, subst, ◌≢◌, ◌↔◌, ◌⊎◌,
  inl, inr, Bool, true, false, not, ◌&&◌, ◌||◌, Option, none, some, List, [], ◌∷◌, ◌++◌, map, arith,
  ltb, leb, ◌==◌, if◌then◌else◌, Bool-cases, Option-cases, length, get_elem?, take, drop, drop_last,
  last?, All, length-append, length-take, length-drop, take-length, last?-append_one,
  drop_last-append_one, length-drop_last, All-append, All-drop, All-take, All-last?, zero_cases,
  get_elem?-some, length-map, take-append_le, replicate, length-replicate, All-replicate,
  All-get_elem?, Error, Result, ok, err, ◌>>=◌, ◌>>◌, throw_if, Result-cases, Holds, Holds-bind,
  Holds-all, Holds-map, Holds-at, Holds-throw_if, Holds-then, OrNone, Holds-some, Holds-both,
  Holds-self, if-both, elim-both, Holds-any, no_switching_progress, fault,
}

-- Integrating forward from a switching point, or backward from one, or done.
pub data Integration (D : Type 0) : Type 0 where
  forward : ForwardState D → SwitchingPoint D → SwitchingCache D → Integration D
  backward : BackwardState D → SwitchingCache D → Integration D
  done : List (IntegrationPoint D) → Integration D

abbrev pub is_path_end : SwitchingKind → Bool
is_path_end path_end = true
is_path_end _ = false

module _ {D : Type 0} ⦃d : Double D⦄ where
  -- The beginning of time: at rest, at the start of the path.
  unfoldable pub path_start : SwitchingPoint D
  path_start = record {
    point = record { s = d.nought; s_dot = d.nought };
    kind = path_begin;
    forward_accel = none;
    backward_accel = none;
  }

  unfoldable pub start_integration : Cursor D → Integration D
  unfolding path_start
  start_integration cursor =
      forward
        (record {
          points = [];
          time = d.nought;
          current = path_start.point;
          mandated = none;
          cursor = cursor;
          probed = none;
        })
        path_start (record { next_accel = none; next_vel = none })

  -- integrate_forward_from, before its loop: the last point makes way for the one that it restarts from.
  unfoldable pub resume :
      List (IntegrationPoint D)
      → SwitchingPoint D
      → Cursor D
      → SwitchingCache D
      → Result (Integration D)
  resume [] where_ cursor cache = err fault
  resume (back ∷ older) where_ cursor cache = ok (
      forward
        (record {
          points = older;
          time = back.time;
          current = where_.point;
          mandated = where_.forward_accel;
          cursor = cursor;
          probed = none;
        })
        where_ cache)

  -- The loop over switching points ends at the path's end.
  unfoldable pub after_splice :
      List (IntegrationPoint D)
      → SwitchingPoint D
      → Cursor D
      → SwitchingCache D
      → Result (Integration D)
  unfolding resume
  after_splice points where_ cursor cache =
      if is_path_end where_.kind then ok (done points) else resume points where_ cursor cache

  -- ensure_progress, and the start of the backward integration.
  unfoldable pub turn_back :
      List (IntegrationPoint D)
      → Cursor D
      → SwitchingPoint D
      → SwitchingPoint D
      → SwitchingCache D
      → Result (Integration D)
  unfolding start_backward
  turn_back points cursor from to cache = do
    throw_if (le to.point.s from.point.s) no_switching_progress
    st ← start_backward points to cursor
    ok (backward st cache)

module _ {D : Type 0} ⦃d : Double D⦄ ⦃x : Xtensor D⦄
    (find : SwitchingCache D → Cursor D → Result (Option (SwitchingCache D × SwitchingPoint D)))
    (p : TotgPath (Segment D) D) (opt : TrajectoryOptions D) where
  unfoldable pub arrive_found :
      List (IntegrationPoint D)
      → Cursor D
      → Option (SwitchingCache D × SwitchingPoint D)
      → SwitchingPoint D
      → Result (Option (Integration D))
  unfolding turn_back
  arrive_found points cursor none from = ok none
  arrive_found points cursor (some (cache, to)) from =
      turn_back points cursor from to cache >>= λ r. ok (some r)

  -- The forward loop has returned its switching point, which it may have to search for.
  unfoldable pub arrive :
      List (IntegrationPoint D)
      → Cursor D
      → Option (SwitchingPoint D)
      → SwitchingPoint D
      → SwitchingCache D
      → Result (Option (Integration D))
  unfolding turn_back arrive_found
  arrive points cursor (some to) from cache =
      turn_back points cursor from to cache >>= λ r. ok (some r)
  arrive points cursor none from cache = do
    found ← find cache cursor
    arrive_found points cursor found from

  -- s_dot_upper_bound
  unfoldable pub velocity_ceiling : D
  velocity_ceiling = d.mul (d.sqrt (d.of_size p.dof)) (x.amax opt.max_velocity)

  unfoldable pub after_forward :
      SwitchingPoint D
      → SwitchingCache D
      → Option (ForwardOutcome D)
      → Result (Option (Integration D))
  unfolding arrive
  after_forward from cache none = ok none
  after_forward from cache (some (advanced st)) = ok (some (forward st from cache))
  after_forward from cache (some (stopped points cursor to)) = arrive points cursor to from cache

  unfoldable pub after_backward :
      SwitchingCache D → Option (BackwardOutcome D) → Result (Option (Integration D))
  unfolding after_splice
  after_backward cache none = ok none
  after_backward cache (some (receded st)) = ok (some (backward st cache))
  after_backward cache (some (spliced points where_ cursor)) =
      after_splice points where_ cursor cache >>= λ r. ok (some r)

  -- One pass of the loop that runs; `n` rounds are for the loops within it.
  unfoldable pub integrate_step : ℕ → Integration D → Result (Option (Integration D))
  unfolding forward_pass backward_pass after_forward after_backward velocity_ceiling
  integrate_step n (done points) = ok (some (done points))
  integrate_step n (forward st from cache) = do
    outcome ← forward_pass p opt n st
    after_forward from cache outcome
  integrate_step n (backward st cache) = do
    outcome ← backward_pass p opt n velocity_ceiling st
    after_backward cache outcome

  -- What the passes reach, each with as many rounds as it needs.
  pub data Run (start : Integration D) : Integration D → Type 0 where
    here : Run start start
    on :
        {a b : Integration D} (n : ℕ) → Run start a → integrate_step n a ≡ ok (some b) → Run start b

-- A pass with the search of the program.
unfoldable pub create_step :
    {D : Type 0} ⦃d : Double D⦄ ⦃x : Xtensor D⦄
    → TotgPath (Segment D) D
    → TrajectoryOptions D
    → ℕ
    → Integration D
    → Result (Option (Integration D))
unfolding integrate_step find_switching_point
create_step p opt n t = integrate_step (find_switching_point p opt n) p opt n t
