-- ===== src/Trajectory/Integration/Increasing.antt =====
-- The integration points of every state that the integration of trajectory::create reaches.
use trajex.Double.{Double, le, two}
use trajex.Double.Ieee.{IsIeee, IsRounded}
use trajex.Xtensor.{Xtensor}
use trajex.Path.{TotgPath, Cursor}
use trajex.Path.Hint.{IsWellFormed}
use trajex.Path.Rich.Settled.{OnPath, IsSettled}
use trajex.Path.Segment.{Segment}
use trajex.Trajectory.{IntegrationPoint}
use trajex.Trajectory.Limits.{TrajectoryOptions}
use trajex.Trajectory.Switching.{SwitchingPoint, SwitchingCache}
use trajex.Trajectory.Forward.{ForwardOutcome, advanced, stopped, forward_pass}
use trajex.Trajectory.Backward.{BackwardOutcome, receded, spliced, start_backward, backward_pass}
use trajex.Trajectory.Integration.{
  Integration, forward, backward, done, start_integration, resume, after_splice, turn_back, arrive,
  arrive_found, after_forward, after_backward, integrate_step, Run, here, on, path_start,
  is_path_end, velocity_ceiling,
}
use trajex.Trajectory.Integration.Receding.{
  Ahead, IsRising, IsReceding, Recedes, StandsAt, start_backward-IsReceding, backward_pass-Recedes,
}
use trajex.Trajectory.Switching.Search.{find_switching_point}
use trajex.Trajectory.Switching.Walking.{Walks}
use trajex.Trajectory.Switching.Located.{HasArcs}
use trajex.Trajectory.Switching.Stocked.{IsStocked, find_switching_point-IsStocked}
use trajex.Trajectory.Integration.Advancing.{
  StopsOnPath, IsAdvancing, Advances, forward_pass-Advances,
}
use trajex.Prelude.{
  ℕ, ◌≡◌, refl, subst, true, Option, none, some, List, [], ◌∷◌, arith, Result, ok, ◌>>=◌, throw_if,
  Holds, Holds-bind, Holds-at, Holds-then, OrNone, Holds-some, if-both, no_switching_progress,
}

module _ {D : Type 0} ⦃d : Double D⦄ where
  -- The integration points of a state, newest first.
  abbrev pub points_of : Integration D → List (IntegrationPoint D)
  points_of (forward st from cache) = st.points
  points_of (backward st cache) = st.points
  points_of (done l) = l

  module _ (p : TotgPath (Segment D) D) where
    abbrev pub Sits : SwitchingPoint D → Cursor D → Type 0
    Sits sp c = OnPath p sp.point.s × IsSettled p c

    abbrev IsSound : Integration D → Type 0
    IsSound (forward st from cache) = IsAdvancing p st × IsStocked p cache
    IsSound (backward st cache) = IsReceding Sits st × IsStocked p cache
    IsSound (done l) = IsRising l

    IsSound-IsRising : (t : Integration D) → IsSound t → IsRising (points_of t)
    IsSound-IsRising (forward st from cache) (h, _) = h.rising
    IsSound-IsRising (backward st cache) (h, _) = h.whole
    IsSound-IsRising (done l) h = h

    turn_back-IsSound :
        (l : List (IntegrationPoint D)) (c : Cursor D) (from to : SwitchingPoint D)
        (cache : SwitchingCache D)
        → IsRising l
        → IsSettled p c
        → IsStocked p cache
        → OnPath p to.point.s
        → Holds (OrNone IsSound) (turn_back l c from to cache >>= λ r. ok (some r))
    unfolding turn_back
    turn_back-IsSound l c from to cache r k stocked at_to =
        Holds-some IsSound (turn_back l c from to cache) (
          Holds-then IsSound (throw_if (le to.point.s from.point.s) no_switching_progress) _ (
            Holds-bind (IsReceding Sits) IsSound (start_backward l to c) _
              (start_backward-IsReceding Sits l to c r (at_to, k)) (λ st h. (h, stocked))))

    resume-IsSound :
        (l : List (IntegrationPoint D)) (sp : SwitchingPoint D) (c : Cursor D)
        (cache : SwitchingCache D)
        → IsRising l
        → StandsAt sp.point.s l
        → Sits sp c
        → IsStocked p cache
        → Holds IsSound (resume l sp c cache)
    unfolding resume
    resume-IsSound [] sp c cache r s sits stocked = tt
    resume-IsSound (back ∷ older) sp c cache (a, r) s (at_sp, k) stocked = (
      record { rising = r; ahead = subst (λ t. Ahead t older) s a; on_path = at_sp; settled = k },
      stocked,
    )

    after_splice-IsSound :
        (l : List (IntegrationPoint D)) (sp : SwitchingPoint D) (c : Cursor D)
        (cache : SwitchingCache D)
        → IsRising l
        → StandsAt sp.point.s l
        → Sits sp c
        → IsStocked p cache
        → Holds IsSound (after_splice l sp c cache)
    unfolding after_splice
    after_splice-IsSound l sp c cache r s sits stocked =
        if-both (Holds IsSound) (is_path_end sp.kind) (λ _. r)
          (λ _. resume-IsSound l sp c cache r s sits stocked)

    -- What the search relies on and promises: points on the path.
    record FindsOnPath
        (find : SwitchingCache D → Cursor D → Result (Option (SwitchingCache D × SwitchingPoint D)))
        : Type 0 where
      found :
          (cache : SwitchingCache D) (c : Cursor D)
          → IsStocked p cache
          → Walks p c
          → Holds (OrNone (λ r. IsStocked p r.0 × OnPath p r.1.point.s)) (find cache c)

    module _ ⦃x : Xtensor D⦄ (opt : TrajectoryOptions D)
        (find : SwitchingCache D → Cursor D → Result (Option (SwitchingCache D × SwitchingPoint D)))
        (finds : FindsOnPath find) where
      found-IsSound :
          (l : List (IntegrationPoint D)) (c : Cursor D)
          (found : Option (SwitchingCache D × SwitchingPoint D)) (from : SwitchingPoint D)
          → IsRising l
          → IsSettled p c
          → OrNone (λ r. IsStocked p r.0 × OnPath p r.1.point.s) found
          → Holds (OrNone IsSound) (arrive_found find p opt l c found from)
      unfolding arrive_found
      found-IsSound l c none from r k h = tt
      found-IsSound l c (some (cache, to)) from r k (stocked, at_to) =
          turn_back-IsSound l c from to cache r k stocked at_to

      arrive-IsSound :
          (l : List (IntegrationPoint D)) (c : Cursor D) (to : Option (SwitchingPoint D))
          (from : SwitchingPoint D) (cache : SwitchingCache D)
          → IsRising l
          → IsSettled p c
          → IsStocked p cache
          → StopsOnPath p c to
          → Holds (OrNone IsSound) (arrive find p opt l c to from cache)
      unfolding arrive
      arrive-IsSound l c (some to) from cache r k stocked at_to =
          turn_back-IsSound l c from to cache r k stocked at_to
      arrive-IsSound l c none from cache r k stocked at_to =
          Holds-bind (OrNone (λ r. IsStocked p r.0 × OnPath p r.1.point.s)) (OrNone IsSound)
            (find cache c) _ (finds.found cache c stocked (record { settled = k; on_path = at_to }))
            (λ found h. found-IsSound l c found from r k h)

      after_forward-IsSound :
          (from : SwitchingPoint D) (cache : SwitchingCache D) (o : Option (ForwardOutcome D))
          → IsStocked p cache
          → OrNone (Advances p) o
          → Holds (OrNone IsSound) (after_forward find p opt from cache o)
      unfolding after_forward
      after_forward-IsSound from cache none stocked h = tt
      after_forward-IsSound from cache (some (advanced st)) stocked h = (h, stocked)
      after_forward-IsSound from cache (some (stopped l c to)) stocked (r, (k, at_to)) =
          arrive-IsSound l c to from cache r k stocked at_to

      after_backward-IsSound :
          (cache : SwitchingCache D) (o : Option (BackwardOutcome D))
          → IsStocked p cache
          → OrNone (Recedes Sits) o
          → Holds (OrNone IsSound) (after_backward find p opt cache o)
      unfolding after_backward
      after_backward-IsSound cache none stocked h = tt
      after_backward-IsSound cache (some (receded st)) stocked h = (h, stocked)
      after_backward-IsSound cache (some (spliced l sp c)) stocked ((r, s), sits) =
          Holds-some IsSound (after_splice l sp c cache)
            (after_splice-IsSound l sp c cache r s sits stocked)

      module _ (w : IsWellFormed p) (ieee : IsIeee D) (rounded : IsRounded D)
          (finite : d.is_finite p.total ≡ true)
          (tolerant : le d.nought (d.mul opt.epsilon two) ≡ true) where
        integrate_step-IsSound :
            (n : ℕ) (t : Integration D)
            → IsSound t
            → Holds (OrNone IsSound) (integrate_step find p opt n t)
        unfolding integrate_step
        integrate_step-IsSound n (forward st from cache) (h, stocked) =
            Holds-bind (OrNone (Advances p)) (OrNone IsSound) (forward_pass p opt n st) _
              (forward_pass-Advances p w ieee rounded finite opt tolerant n st h)
              (λ o k. after_forward-IsSound from cache o stocked k)
        integrate_step-IsSound n (backward st cache) (h, stocked) =
            Holds-bind (OrNone (Recedes Sits)) (OrNone IsSound)
              (backward_pass p opt n (velocity_ceiling find p opt) st) _
              (backward_pass-Recedes Sits p opt n (velocity_ceiling find p opt) st h)
              (λ o k. after_backward-IsSound cache o stocked k)
        integrate_step-IsSound n (done l) h = h

        Run-IsSound : (s t : Integration D) → Run find p opt s t → IsSound s → IsSound t
        Run-IsSound s t here h = h
        Run-IsSound s t (on {a} {b} n r e) h =
            Holds-at (OrNone IsSound) (integrate_step find p opt n a)
              (integrate_step-IsSound n a (Run-IsSound s a r h)) e

        start-IsSound :
            (c : Cursor D)
            → IsSettled p c
            → le d.nought p.total ≡ true
            → IsSound (start_integration c)
        unfolding start_integration path_start
        start-IsSound c k long = (
          record {
            rising = tt;
            ahead = refl;
            on_path = (ground (arith, ieee.nought_number), long);
            settled = k;
          },
          (tt, tt),
        )

    module _ ⦃x : Xtensor D⦄ (opt : TrajectoryOptions D) (w : IsWellFormed p) (ieee : IsIeee D)
        (rounded : IsRounded D) (finite : d.is_finite p.total ≡ true) (arcs : HasArcs p)
        (long : le d.nought p.total ≡ true) where
      find_switching_point-FindsOnPath : (n : ℕ) → FindsOnPath (find_switching_point p opt n)
      find_switching_point-FindsOnPath n = record {
        found = λ cache c stocked k.
            find_switching_point-IsStocked p (long, ground (arith, w.total_number)) opt w ieee
              rounded finite arcs n cache c stocked k;
      }

      -- Of an integration from rest at the start of a well-formed path of a finite length that is
      -- not below zero, whose arcs have radii that are not below zero and end at their start plus
      -- their length, with a tolerance that is not below zero, on doubles that round as IEEE 754
      -- says: every state that it reaches with find_switching_point as its search, at whatever pass
      -- and in whichever direction it integrates, has integration points of which the first is at
      -- the path's start and each later one is further along the path than the one before it.
      pub Run-IsRising :
          (n : ℕ) (c : Cursor D) (t : Integration D)
          → le d.nought (d.mul opt.epsilon two) ≡ true
          → IsSettled p c
          → Run (find_switching_point p opt n) p opt (start_integration c) t
          → IsRising (points_of t)
      Run-IsRising n c t tolerant k r =
          let finds = find_switching_point-FindsOnPath n in
          let find = find_switching_point p opt n in
          IsSound-IsRising t (
            Run-IsSound opt find finds w ieee rounded finite tolerant (start_integration c) t r
              (start-IsSound opt find finds w ieee rounded finite tolerant c k long))
