-- ===== src/Tests/Creation.antt =====
-- A path through three waypoints.
use trajex.Double.Fixed.{fixed_double, Fixed, fixed}
use trajex.WaypointUtils.{Batch}
use trajex.Tests.Store.{row, batch, fixed_xtensor}
use trajex.Path.Create.Views.{create-view_at}
use trajex.Path.{View, view_at, TotgPath, locate, update_hint}
use trajex.Path.Hint.{IsWellFormed}
use trajex.Path.Create.Advancing.{create-update_hint}
use trajex.Tests.Ieee.{fixed-IsIeee}
use trajex.Path.Segment.{Segment, linear}
use trajex.Path.Blend.{PathOptions, check_options}
use trajex.Path.Coalesce.{colinearize}
use trajex.Path.Coalesce.Tube.{Tube, colinearize-Tube}
use trajex.Path.Create.{create}
use trajex.Path.Create.Layout.{IsPath, create-IsPath}
use trajex.Path.Create.Polyline.{polyline, polyline_end, create-polyline}
use trajex.Prelude.{◌≡◌, refl, some, List, [], ◌∷◌, arith, ok}

abbrev opts : PathOptions Fixed
opts = record {
  max_blend_deviation = fixed 0;
  max_linear_deviation = fixed 0;
  min_blend_curvature = fixed 1;
  max_blend_curvature = fixed 9;
}

abbrev corner : Batch Fixed
corner = record { dof = 2; waypoints = row 1 2 ∷ row 3 4 ∷ row 3 9 ∷ [] }

opts-pass : check_options opts ≡ ok tt
unfolding check_options
opts-pass = refl

abbrev through : TotgPath (Segment Fixed) Fixed
through = record {
  segments = polyline (fixed 0) (row 1 2) (row 3 4 ∷ row 3 9 ∷ []);
  dof = 2;
  total = polyline_end (fixed 0) (row 1 2) (row 3 4 ∷ row 3 9 ∷ []);
}

create-polyline_example : create corner opts ≡ ok through
create-polyline_example =
    create-polyline opts refl corner (row 1 2) (row 3 4) (row 3 9 ∷ []) opts-pass refl refl
      (refl, (refl, tt))

corner-created : create corner opts ≡ ok through
unfolding create polyline polyline_end
corner-created = refl

create-IsPath_example : IsPath 2 through
create-IsPath_example = create-IsPath corner opts through corner-created

colinearize-Tube_example :
    (kept : List (List Fixed)) × (colinearize (fixed 4) batch
      ≡ ok (record { dof = 2; waypoints = row 1 2 ∷ kept }))
    × Tube (fixed 2) (row 1 2) (row 3 4 ∷ row 3 9 ∷ row 1 2 ∷ []) kept
colinearize-Tube_example =
    colinearize-Tube (fixed 4) batch (row 1 2) (row 3 4 ∷ row 3 9 ∷ row 1 2 ∷ []) refl
      (refl, (refl, (refl, (refl, tt)))) refl

create-update_hint_example :
    IsWellFormed through × (update_hint through (fixed 3) 0 ≡ locate through (fixed 3))
unfolding polyline polyline_end
create-update_hint_example =
    create-update_hint corner opts through (fixed 3) 0 fixed-IsIeee corner-created
      (refl, (refl, tt)) (record { number = refl; from_zero = omega arith; to_total = omega arith })
      (omega arith)

abbrev last_view : View (Segment Fixed) Fixed
last_view = record {
  of_segment = linear (record { start = row 3 4; unit_direction = row 0 1; length = fixed 5 });
  start = fixed 2;
  stop = fixed 7;
}

last_view-there : view_at through 1 ≡ some last_view
unfolding view_at polyline polyline_end
last_view-there = refl

create-view_at_example : fixed 7 ≡ fixed_double.add (fixed 2) (fixed 5)
create-view_at_example =
    create-view_at corner opts through 1 last_view corner-created last_view-there
