-- ===== src/Trajectory/Sample/Answered.antt =====
-- A sample of trajectory::cursor, against what a plain cursor answers (trajectory.cpp).
use trajex.Double.Ieee.{IsIeee}
use trajex.Double.{Double}
use trajex.Path.{TotgPath, Cursor}
use trajex.Path.Segment.{Segment}
use trajex.Path.Rich.{
  Rich, cursor_configuration, cursor_tangent, cursor_curvature, configuration_ref, tangent_ref,
  curvature_ref,
}
use trajex.Path.Rich.Refinement.{IsCoherent, Current, Answers, queries-Answers}
use trajex.Trajectory.{IntegrationPoint, Trajectory, is_spent}
use trajex.Trajectory.Sample.{
  TrajectorySample, SamplingCursor, sample_at, point_or_fault, sample_cursor,
}
use trajex.Prelude.{
  ℕ, ◌≡◌, refl, ap, subst, Option, none, some, List, get_elem?, Result, ok, err, throw_if, Holds,
  Holds-bind, Holds-then, cursor_at_sentinel,
}

module _ {D : Type 0} ⦃d : Double D⦄ (p : TotgPath (Segment D) D) where
  -- The sample and the cursor that is left: the sample is of the integration point of the hint, and of
  -- what a plain cursor at the same place answers.
  pub record IsSampleOf (traj : Trajectory D) (c c' : SamplingCursor D) (out : TrajectorySample D)
      : Type 0 where
    pub coherent : IsCoherent p c'.path_cursor
    pub same_place : c'.path_cursor.plain ≡ c.path_cursor.plain
    pub point : IntegrationPoint D
    pub point_there : get_elem? traj.points c.clock.time_hint ≡ some point
    pub q : List D
    pub q_prime : List D
    pub q_double_prime : List D
    pub configurations : Current p (cursor_configuration p) c.path_cursor.plain q
    pub tangents : Current p (cursor_tangent p) c.path_cursor.plain q_prime
    pub curvatures : Current p (cursor_curvature p) c.path_cursor.plain q_double_prime
    pub made :
        out ≡ sample_at point c.clock.time c.path_cursor.plain.position q q_prime q_double_prime

  abbrev Answered : (Cursor D → ℕ → Result (List D)) → Cursor D → Rich D × List D → Type 0
  Answered fill at (r, v) = IsCoherent p r × (r.plain ≡ at) × Current p fill at v

  answered :
      (fill : Cursor D → ℕ → Result (List D)) (n : ℕ) (r : Rich D)
      (answer : Result (Rich D × List D))
      → Answers p fill n r answer
      → Holds (Answered fill r.plain) answer
  answered fill n r (ok (r', v)) h = h
  answered fill n r (err e) h = tt

  -- The same, of a cursor at the same place as another.
  moved :
      (fill : Cursor D → ℕ → Result (List D)) (n : ℕ) (r : Rich D) (at : Cursor D)
      (answer : Result (Rich D × List D))
      → r.plain ≡ at
      → Answers p fill n r answer
      → Holds (Answered fill at) answer
  moved fill n r at answer e h =
      subst (λ t. Holds (Answered fill t) answer) e (answered fill n r answer h)

  module _ (ieee : IsIeee D) where
    abbrev pub Sampled :
        Trajectory D → SamplingCursor D → SamplingCursor D × TrajectorySample D → Type 0
    Sampled traj c (c', out) = IsSampleOf traj c c' out

    pub sample_cursor-Sampled :
        (traj : Trajectory D) (c : SamplingCursor D)
        → IsCoherent p c.path_cursor
        → Holds (Sampled traj c) (sample_cursor p traj c)
    unfolding sample_cursor
    sample_cursor-Sampled traj c h =
        Holds-then (Sampled traj c) (throw_if (is_spent c.clock) cursor_at_sentinel) _ (
          Holds-bind (λ p0. get_elem? traj.points c.clock.time_hint ≡ some p0) (Sampled traj c)
            (point_or_fault (get_elem? traj.points c.clock.time_hint)) _
            (there (get_elem? traj.points c.clock.time_hint))
            (λ p0 e.
              let at = c.path_cursor.plain in
              Holds-bind (Answered (cursor_configuration p) at) (Sampled traj c)
                (configuration_ref p c.path_cursor) _
                (answered (cursor_configuration p) _ c.path_cursor _
                  (queries-Answers p ieee c.path_cursor h).0)
                (λ a x.
                  Holds-bind (Answered (cursor_tangent p) at) (Sampled traj c) (tangent_ref p a.0) _
                    (moved (cursor_tangent p) _ a.0 at _ x.1 (queries-Answers p ieee a.0 x.0).1)
                    (λ b y.
                      Holds-bind (Answered (cursor_curvature p) at) (Sampled traj c)
                        (curvature_ref p b.0) _
                        (moved (cursor_curvature p) _ b.0 at _ y.1
                          (queries-Answers p ieee b.0 y.0).2)
                        (λ k z. record {
                          coherent = z.0;
                          same_place = z.1;
                          point = p0;
                          point_there = e;
                          q = a.1;
                          q_prime = b.1;
                          q_double_prime = k.1;
                          configurations = x.2;
                          tangents = y.2;
                          curvatures = z.2;
                          made =
                              ap
                                (λ (t : Cursor D). sample_at p0 c.clock.time t.position a.1 b.1 k.1)
                                z.1;
                        })))))
      where
        there : (o : Option (IntegrationPoint D)) → Holds (λ p0. o ≡ some p0) (point_or_fault o)
        there none = tt
        there (some p0) = refl
