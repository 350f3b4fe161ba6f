-- ===== src/Tests/RichCursors.antt =====
-- A rich cursor on a path of two lines.
use mathlib.Core.Option.{some-injective}
use trajex.Double.Fixed.{fixed_double, Fixed, fixed}
use trajex.Double.Sorted.{upper_bound}
use trajex.Path.{PositionedSegment, TotgPath, Cursor, view_at, locate}
use trajex.Path.Hint.{IsWellFormed}
use trajex.Path.Segment.{Segment, linear, configuration_into}
use trajex.Path.Rich.{
  Rich, cursor_configuration, cursor_tangent, cursor_curvature, rich_seek, configuration_ref,
  tangent_ref, curvature_ref,
}
use trajex.Path.Rich.Settled.{IsSettled}
use trajex.Path.Rich.Refinement.{IsCoherent, Answers, queries-Answers, rich_seek-IsCoherent}
use trajex.Tests.Store.{row}
use trajex.Tests.Ieee.{fixed-IsIeee}
use trajex.Prelude.{
  ℕ, zero, suc, ◌≤◌, ◌<◌, ◌≡◌, refl, subst, true, false, some, [], ◌∷◌, arith, get_elem?, ok,
}

abbrev Placed : Type 0
Placed = PositionedSegment (Segment Fixed) Fixed

abbrev first_line : Placed
first_line = record {
  seg = linear (record { start = row 0 0; unit_direction = row 1 0; length = fixed 5 });
  start = fixed 0;
}

abbrev second_line : Placed
second_line = record {
  seg = linear (record { start = row 5 0; unit_direction = row 0 1; length = fixed 4 });
  start = fixed 5;
}

abbrev pub lines : TotgPath (Segment Fixed) Fixed
lines = record { segments = first_line ∷ second_line ∷ []; dof = 2; total = fixed 9 }

lines-bounded :
    (i : ℕ) (e : Placed) → get_elem? lines.segments i ≡ some e → fixed_double.rank e.start < 1009
lines-bounded zero e h =
    subst (λ x. fixed_double.rank x.start < 1009) (some-injective first_line e h) (omega arith)
lines-bounded (suc zero) e h =
    subst (λ x. fixed_double.rank x.start < 1009) (some-injective second_line e h) (omega arith)
lines-bounded (suc (suc i)) e h = cc

pub lines-IsWellFormed : IsWellFormed lines
lines-IsWellFormed = record {
  increasing = (refl, omega arith, refl);
  total_number = refl;
  begins = λ e h.
      subst (λ x. fixed_double.rank x.start ≤ 1000) (some-injective first_line e h) (omega arith);
  bounded = lines-bounded;
}

abbrev at_seven : Cursor Fixed
at_seven = record { position = fixed 7; hint = 1 }

abbrev pub rich : Rich Fixed
rich = record {
  plain = at_seven;
  configuration = row 5 2;
  tangent = row 8 8;
  curvature = row 8 8;
  has_configuration = true;
  has_tangent = false;
  has_curvature = false;
}

at_seven-IsSettled : IsSettled lines at_seven
unfolding locate upper_bound
at_seven-IsSettled = record { inside = omega arith; settled = λ _. refl }

at_seven-configuration : cursor_configuration lines at_seven 2 ≡ ok (row 5 2)
unfolding cursor_configuration view_at configuration_into
at_seven-configuration = refl

pub rich-IsCoherent : IsCoherent lines rich
rich-IsCoherent = record {
  settled = at_seven-IsSettled;
  configurations = λ _. (fixed 7, 2, refl, refl, at_seven-configuration);
  tangents = λ e. cc;
  curvatures = λ e. cc;
}

queries-Answers_example :
    Answers lines (cursor_configuration lines) 2 rich (configuration_ref lines rich)
    × Answers lines (cursor_tangent lines) 2 rich (tangent_ref lines rich)
    × Answers lines (cursor_curvature lines) 2 rich (curvature_ref lines rich)
queries-Answers_example = queries-Answers lines fixed-IsIeee rich rich-IsCoherent

rich_seek-IsCoherent_example : IsCoherent lines (rich_seek lines rich (fixed 3))
rich_seek-IsCoherent_example =
    rich_seek-IsCoherent lines fixed-IsIeee lines-IsWellFormed rich (fixed 3) rich-IsCoherent
