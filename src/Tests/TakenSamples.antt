-- ===== src/Tests/TakenSamples.antt =====
-- A sample at three seconds of a trajectory on two lines.
use trajex.Double.Fixed.{fixed_double, Fixed, fixed}
use trajex.Path.{create_cursor, seek, view_at}
use trajex.Path.Rich.Refinement.{IsCoherent}
use trajex.Path.Segment.{configuration_into, tangent_into, curvature_into}
use trajex.Path.Rich.{
  enrich, rich_seek, configuration_ref, tangent_ref, curvature_ref, cursor_configuration,
  cursor_tangent, cursor_curvature,
}
use trajex.Trajectory.{IntegrationPoint, Trajectory, seek_time}
use trajex.Trajectory.Sample.{
  new_cursor, TrajectorySample, SamplingCursor, seek_sampling, sample_cursor,
}
use trajex.Trajectory.Sample.Reads.{IsReading, sample_cursor-IsReading, new_cursor-IsCoherent}
use trajex.UniformSampler.Ending.{Planned, Placed}
use trajex.Tests.Store.{row}
use trajex.Tests.Ieee.{fixed-IsIeee}
use trajex.Tests.RichCursors.{lines, lines-IsWellFormed, rich, rich-IsCoherent}
use trajex.Prelude.{ℕ, ◌≡◌, refl, true, false, List, [], ◌∷◌, arith, ok}

abbrev moving : ℕ → ℕ → IntegrationPoint Fixed
moving t s = record { time = fixed t; s = fixed s; s_dot = fixed 1; s_ddot = fixed 0 }

abbrev motion : Trajectory Fixed
motion = record {
  points = moving 0 0 ∷ moving 2 1 ∷ moving 5 4 ∷ [];
  duration = fixed 5;
  path_length = fixed 9;
}

abbrev resting : SamplingCursor Fixed
resting = record {
  clock = record { time = fixed 0; time_hint = 0; position = fixed 7 };
  path_cursor = rich;
}

abbrev settled_there : SamplingCursor Fixed
settled_there = record {
  clock = record { time = fixed 3; time_hint = 1; position = fixed 2 };
  path_cursor = record {
    plain = record { position = fixed 2; hint = 0 };
    configuration = row 2 0;
    tangent = row 1 0;
    curvature = row 0 0;
    has_configuration = true;
    has_tangent = true;
    has_curvature = true;
  };
}

abbrev reading : TrajectorySample Fixed
reading = record {
  time = fixed 3;
  s = fixed 2;
  configuration = row 2 0;
  velocity = row 1 0;
  acceleration = row 0 0;
}

reading-taken :
    sample_cursor lines motion (seek_sampling lines motion resting (fixed 3))
    ≡ ok (settled_there, reading)
unfolding sample_cursor seek_sampling seek_time seek rich_seek configuration_ref tangent_ref
    curvature_ref cursor_configuration cursor_tangent cursor_curvature configuration_into
    tangent_into curvature_into view_at
reading-taken = refl

sample_cursor-IsReading_example : IsReading lines motion resting (fixed 3) settled_there reading
sample_cursor-IsReading_example =
    sample_cursor-IsReading lines motion resting (fixed 3) settled_there reading fixed-IsIeee
      lines-IsWellFormed (refl, omega arith, (refl, omega arith, refl)) rich-IsCoherent refl refl
      refl reading-taken

abbrev unused : List Fixed
unused = row 0 0

abbrev at_zero : SamplingCursor Fixed
at_zero = record {
  clock = record { time = fixed 0; time_hint = 0; position = fixed 0 };
  path_cursor = record {
    plain = record { position = fixed 0; hint = 0 };
    configuration = unused;
    tangent = unused;
    curvature = unused;
    has_configuration = false;
    has_tangent = false;
    has_curvature = false;
  };
}

at_zero-created : new_cursor lines unused unused unused ≡ ok at_zero
unfolding new_cursor create_cursor enrich view_at
at_zero-created = refl

new_cursor-IsCoherent_example :
    IsCoherent lines at_zero.path_cursor × (false ≡ false) × (false ≡ false) × (false ≡ false)
new_cursor-IsCoherent_example =
    new_cursor-IsCoherent lines unused unused unused at_zero fixed-IsIeee lines-IsWellFormed refl
      at_zero-created

abbrev planned : Planned Fixed
planned = record { path = lines; points = motion }

abbrev placed : Placed Fixed
placed = record { of = planned; cursor = resting }
