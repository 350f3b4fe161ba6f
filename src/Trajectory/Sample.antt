-- ===== src/Trajectory/Sample.antt =====
-- trajectory::cursor with its cursor on the path, and the sample that it takes there (trajectory.cpp).
-- What a query of the path has cached before a later one throws is not modelled.
pub mod Answered
pub mod Reads
use trajex.Double.{Double, lt}
use trajex.Path.{TotgPath, create_cursor}
use trajex.Path.Segment.{Segment, each_of}
use trajex.Path.Rich.{Rich, enrich, rich_seek, configuration_ref, tangent_ref, curvature_ref}
use trajex.Trajectory.{IntegrationPoint, Trajectory, TimeCursor, path_position, seek_time, is_spent}
use trajex.Prelude.{
  ℕ, zero, suc, ◌+◌, ◌-◌, ◌*◌, ◌/◌, ◌%◌, ◌≤◌, ◌<◌, ◌≡◌, refl, sym, ap, ◌∙◌, subst, ◌≢◌, ◌↔◌, ◌⊎◌,
  inl, inr, Bool, true, false, not, ◌&&◌, ◌||◌, Option, none, some, List, [], ◌∷◌, ◌++◌, map, arith,
  ltb, leb, ◌==◌, if◌then◌else◌, Bool-cases, Option-cases, length, get_elem?, take, drop, drop_last,
  last?, All, length-append, length-take, length-drop, take-length, last?-append_one,
  drop_last-append_one, length-drop_last, All-append, All-drop, All-take, All-last?, zero_cases,
  get_elem?-some, length-map, take-append_le, replicate, length-replicate, All-replicate,
  All-get_elem?, Error, Result, ok, err, ◌>>=◌, ◌>>◌, throw_if, Result-cases, Holds, Holds-bind,
  Holds-all, Holds-map, Holds-at, Holds-throw_if, Holds-then, cursor_at_sentinel, fault,
}

-- trajectory::sample
pub record TrajectorySample (D : Type 0) : Type 0 where
  pub time : D
  pub s : D
  pub configuration : List D
  pub velocity : List D
  pub acceleration : List D

pub record SamplingCursor (D : Type 0) : Type 0 where
  pub clock : TimeCursor D
  pub path_cursor : Rich D

module _ {D : Type 0} ⦃d : Double D⦄ where
  -- create_cursor; what the arrays of the rich cursor hold at first is an argument.
  unfoldable pub new_cursor :
      TotgPath (Segment D) D → List D → List D → List D → Result (SamplingCursor D)
  unfolding create_cursor enrich
  new_cursor p q t k = create_cursor p d.nought >>= λ c. ok (record {
    clock = record { time = d.nought; time_hint = 0; position = c.position };
    path_cursor = enrich c q t k;
  })

  -- update_path_cursor_position_
  unfoldable pub sent :
      TotgPath (Segment D) D → Trajectory D → Rich D → D → Option (IntegrationPoint D) → Rich D
  unfolding path_position rich_seek
  sent p traj r t none = r
  sent p traj r t (some p0) = rich_seek p r (path_position traj t p0)

  -- trajectory::cursor::seek
  unfoldable pub seek_sampling :
      TotgPath (Segment D) D → Trajectory D → SamplingCursor D → D → SamplingCursor D
  unfolding seek_time sent
  seek_sampling p traj c t =
      let clock = seek_time traj c.clock t in
      if lt t d.nought || lt traj.duration t then record c { clock = clock } else record {
        clock = clock;
        path_cursor = sent p traj c.path_cursor t (get_elem? traj.points clock.time_hint);
      }

  -- The sample, of the path's configuration, tangent and curvature.
  unfoldable pub sample_at :
      IntegrationPoint D → D → D → List D → List D → List D → TrajectorySample D
  sample_at p0 time s q q_prime q_double_prime =
      let s_dot = d.add p0.s_dot (d.mul p0.s_ddot (d.sub time p0.time)) in
      record {
        time = time;
        s = s;
        configuration = q;
        velocity = map (λ a. d.mul a s_dot) q_prime;
        acceleration =
            each_of d.add (map (λ a. d.mul a p0.s_ddot) q_prime)
              (map (λ a. d.mul a (d.mul s_dot s_dot)) q_double_prime);
      }

  abbrev pub point_or_fault : Option (IntegrationPoint D) → Result (IntegrationPoint D)
  point_or_fault none = err fault
  point_or_fault (some p0) = ok p0

  -- trajectory::cursor::sample
  unfoldable pub sample_cursor :
      TotgPath (Segment D) D
      → Trajectory D
      → SamplingCursor D
      → Result (SamplingCursor D × TrajectorySample D)
  unfolding sample_at configuration_ref tangent_ref curvature_ref
  sample_cursor p traj c = do
    throw_if (is_spent c.clock) cursor_at_sentinel
    p0 ← point_or_fault (get_elem? traj.points c.clock.time_hint)
    (r1, q) ← configuration_ref p c.path_cursor
    (r2, q_prime) ← tangent_ref p r1
    (r3, q_double_prime) ← curvature_ref p r2
    ok (
      record c { path_cursor = r3 },
      sample_at p0 c.clock.time r3.plain.position q q_prime q_double_prime,
    )
