-- ===== src/Trajectory/Sample/Reads.antt =====
-- What trajectory::cursor reads off its path and its integration points (trajectory.cpp).
use trajex.Trajectory.Sample.Answered.{Sampled, sample_cursor-Sampled}
use trajex.Double.Ieee.{IsIeee}
use trajex.Double.Sorted.{IsIncreasing}
use trajex.Double.{Double, lt, eq, IsNumber}
use trajex.Path.{TotgPath, Cursor, create_cursor, seek}
use trajex.Path.Rich.Settled.{IsSettled, create_cursor-IsSettled}
use trajex.Path.Hint.{IsWellFormed}
use trajex.Path.Segment.{Segment}
use trajex.Path.Rich.{
  enrich, Rich, cursor_configuration, cursor_tangent, cursor_curvature, invalidate, rich_seek,
}
use trajex.Path.Rich.Refinement.{IsCoherent, Current, rich_seek-IsCoherent}
use trajex.Trajectory.{
  IntegrationPoint, Trajectory, time_of_point, locate_time, seek_hint, seek_time, path_position,
}
use trajex.Trajectory.Search.{seek_hint-eq-locate_time}
use trajex.Trajectory.Sample.{
  new_cursor, TrajectorySample, SamplingCursor, sent, seek_sampling, sample_at, sample_cursor,
}
use trajex.Prelude.{
  ◌≡◌, refl, sym, ap, ◌∙◌, subst, inl, inr, false, Option, none, some, List, Bool-cases, get_elem?,
  ok, Holds-bind, Holds-at,
}

module _ {D : Type 0} ⦃d : Double D⦄ (p : TotgPath (Segment D) D) where
  rich_seek-plain : (r : Rich D) (s : D) → (rich_seek p r s).plain ≡ seek p r.plain s
  unfolding rich_seek invalidate
  rich_seek-plain r s = elim (Bool-cases (eq (seek p r.plain s).position r.plain.position)) [
    | inl here ↦ rw (here, rich_seek) refl
    | inr away ↦ rw (away, rich_seek, invalidate) refl
  ]

  module _ (traj : Trajectory D) (c : SamplingCursor D) (t : D) where
    -- Where a cursor is that seeks to a time on the trajectory.
    abbrev landed : SamplingCursor D
    landed = record {
      clock = record {
        time = t;
        time_hint = locate_time traj.points t;
        position = elim (get_elem? traj.points (locate_time traj.points t)) [
          | none ↦ c.clock.position
          | some p0 ↦ path_position traj t p0
        ];
      };
      path_cursor = sent p traj c.path_cursor t (get_elem? traj.points (locate_time traj.points t));
    }

    landed_lem :
        IsIncreasing time_of_point traj.points
        → IsNumber t
        → lt t d.nought ≡ false
        → lt traj.duration t ≡ false
        → seek_sampling p traj c t ≡ landed
    unfolding seek_sampling seek_time
    landed_lem increasing number low high =
        let hint : seek_hint traj.points t c.clock.time_hint ≡ locate_time traj.points t =
          seek_hint-eq-locate_time traj.points increasing t number c.clock.time_hint in
        rw (low, seek_sampling, seek_time) (rw high (rw hint refl))

    -- The sample of a time, by a binary search and a plain cursor that seeks from where this one is.
    pub record IsReading (c' : SamplingCursor D) (out : TrajectorySample D) : Type 0 where
      pub coherent : IsCoherent p c'.path_cursor
      pub point : IntegrationPoint D
      pub point_there : get_elem? traj.points (locate_time traj.points t) ≡ some point
      pub q : List D
      pub q_prime : List D
      pub q_double_prime : List D
      pub configurations :
          Current p
            (cursor_configuration p)
            (seek p c.path_cursor.plain (path_position traj t point))
            q
      pub tangents :
          Current p
            (cursor_tangent p)
            (seek p c.path_cursor.plain (path_position traj t point))
            q_prime
      pub curvatures :
          Current p
            (cursor_curvature p)
            (seek p c.path_cursor.plain (path_position traj t point))
            q_double_prime
      pub made :
          out
          ≡ sample_at point t
              (seek p c.path_cursor.plain (path_position traj t point)).position
              q
              q_prime
              q_double_prime

    sent-IsCoherent :
        IsIeee D
        → IsWellFormed p
        → IsCoherent p c.path_cursor
        → (o : Option (IntegrationPoint D)) → IsCoherent p (sent p traj c.path_cursor t o)
    unfolding sent
    sent-IsCoherent ieee w h none = h
    sent-IsCoherent ieee w h (some p0) =
        rich_seek-IsCoherent p ieee w c.path_cursor (path_position traj t p0) h

    -- On a well-formed path, with the doubles of IEEE 754, a coherent path cursor and integration points
    -- at strictly increasing times: seek to a time that is a number on the trajectory, and a sample that
    -- is returned there. The sample is of the integration point that the binary search finds for the
    -- time, and of the configuration, tangent and curvature that a plain cursor answers, which seeks to
    -- the interpolated position, at a position that compares equal. The path cursor is left coherent.
    pub sample_cursor-IsReading :
        (c' : SamplingCursor D) (out : TrajectorySample D)
        → IsIeee D
        → IsWellFormed p
        → IsIncreasing time_of_point traj.points
        → IsCoherent p c.path_cursor
        → IsNumber t
        → lt t d.nought ≡ false
        → lt traj.duration t ≡ false
        → sample_cursor p traj (seek_sampling p traj c t) ≡ ok (c', out)
        → IsReading c' out
    unfolding sent
    sample_cursor-IsReading c' out ieee w increasing h number low high e =
        let at_landed : sample_cursor p traj landed ≡ ok (c', out) =
          sym (ap (sample_cursor p traj) (landed_lem increasing number low high)) ∙ e in
        let s =
          Holds-at (Sampled p ieee traj landed) (sample_cursor p traj landed)
            (sample_cursor-Sampled p ieee traj landed
              (sent-IsCoherent ieee w h (get_elem? traj.points (locate_time traj.points t))))
            at_landed in
        let place : landed.path_cursor.plain
            ≡ seek p c.path_cursor.plain (path_position traj t s.point) =
          ap (λ o. (sent p traj c.path_cursor t o).plain) s.point_there
          ∙ rich_seek-plain c.path_cursor (path_position traj t s.point) in
        record {
          coherent = s.coherent;
          point = s.point;
          point_there = s.point_there;
          q = s.q;
          q_prime = s.q_prime;
          q_double_prime = s.q_double_prime;
          configurations =
              subst (λ k. Current p (cursor_configuration p) k s.q) place s.configurations;
          tangents = subst (λ k. Current p (cursor_tangent p) k s.q_prime) place s.tangents;
          curvatures =
              subst (λ k. Current p (cursor_curvature p) k s.q_double_prime) place s.curvatures;
          made =
              s.made
              ∙ ap (λ (k : Cursor D). sample_at s.point t k.position s.q s.q_prime s.q_double_prime)
                  place;
        }

  -- A coherent path cursor with nothing cached.
  abbrev IsFresh : SamplingCursor D → Type 0
  IsFresh c =
      IsCoherent p c.path_cursor
      × (c.path_cursor.has_configuration ≡ false)
      × (c.path_cursor.has_tangent ≡ false)
      × (c.path_cursor.has_curvature ≡ false)

  -- On a well-formed path that is not shorter than zero, with the doubles of IEEE 754: the path cursor
  -- of a new cursor is coherent, whatever its arrays hold, and no configuration, tangent or curvature is cached yet.
  pub new_cursor-IsCoherent :
      (q t k : List D) (c : SamplingCursor D)
      → IsIeee D
      → IsWellFormed p
      → lt p.total d.nought ≡ false
      → new_cursor p q t k ≡ ok c
      → IsCoherent p c.path_cursor
        × (c.path_cursor.has_configuration ≡ false)
        × (c.path_cursor.has_tangent ≡ false)
        × (c.path_cursor.has_curvature ≡ false)
  unfolding new_cursor enrich
  new_cursor-IsCoherent q t k c ieee w long e =
      Holds-at IsFresh (new_cursor p q t k)
        (Holds-bind (IsSettled p) IsFresh (create_cursor p d.nought) _
          (create_cursor-IsSettled p w ieee d.nought ieee.nought_number long)
          (λ plain settled. (
            record {
              settled = settled;
              configurations = λ b. cc;
              tangents = λ b. cc;
              curvatures = λ b. cc;
            },
            refl,
            refl,
            refl,
          )))
        e
