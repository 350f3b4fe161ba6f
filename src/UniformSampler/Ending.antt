-- ===== src/UniformSampler/Ending.antt =====
-- A caller that calls `advance` on a cursor of a trajectory (uniform_sampler.cpp, trajectory.cpp).
use trajex.Double.{Double}
use trajex.Path.{TotgPath}
use trajex.Path.Segment.{Segment}
use trajex.Trajectory.{Trajectory}
use trajex.Trajectory.Sample.{SamplingCursor, TrajectorySample, seek_sampling, sample_cursor}
use trajex.UniformSampler.{CursorApi, UniformSampler, remaining}
use trajex.Prelude.{◌≡◌, ◌⊎◌, some, List, length, last?, ok, ◌>>=◌}

-- A trajectory with its path, and a cursor with the trajectory that it is on.
pub record Planned (D : Type 0) : Type 0 where
  pub path : TotgPath (Segment D) D
  pub points : Trajectory D

pub record Placed (D : Type 0) : Type 0 where
  pub of : Planned D
  pub cursor : SamplingCursor D

module _ {D : Type 0} ⦃d : Double D⦄ where
  -- The trajectories and cursors of the program; `create` is what create_cursor makes.
  abbrev pub trajectory_api :
      (Planned D → SamplingCursor D) → CursorApi D (Planned D) (Placed D) (TrajectorySample D)
  trajectory_api create = record {
    duration = λ t. t.points.duration;
    create_cursor = λ t. record { of = t; cursor = create t };
    trajectory_of = λ c. c.of;
    seek = λ c t. record c { cursor = seek_sampling c.of.path c.of.points c.cursor t };
    sample = λ c. do
      r ← sample_cursor c.of.path c.of.points c.cursor
      ok r.1;
  }

  -- The cursors that a caller sees until `advance` returns false: as many as samples remain, and the
  -- last one is at the duration of the trajectory.
  pub record Ends (s : UniformSampler D) (c : Placed D) (l : List (Placed D)) : Type 0 where
    pub count : length l ≡ remaining s
    pub ends :
        (remaining s ≡ 0)
        ⊎ ((last : Placed D) × (last? l ≡ some last)
            × (last.of ≡ c.of)
            × (last.cursor.clock.time ≡ c.of.points.duration))
