-- ===== src/Path/Create/Polyline.antt =====
-- path::create (path.cpp) with the deviations that path::options begins with, which are zero.
use mathlib.Core.List.{append-nil, append_assoc}
use trajex.Double.{Double, le, eq}
use trajex.Xtensor.{Xtensor}
use trajex.Path.{PositionedSegment}
use trajex.Path.Segment.{Segment, linear, Linear, linear_between}
use trajex.Path.Blend.{PathOptions, try_create_blend, check_options}
use trajex.Path.Coalesce.{colinearize}
use trajex.Path.Create.{
  Builder, push, emit_line, emit_corner, build_segments, started_at, finish, create_through, create,
}
use trajex.WaypointUtils.{Batch}
use trajex.Prelude.{
  ℕ, ◌<◌, ◌≡◌, refl, sym, ap, ◌∙◌, true, false, List, [], ◌∷◌, ◌++◌, arith, ltb, ◌==◌, length, ok,
}

module _ {D : Type 0} ⦃d : Double D⦄ ⦃x : Xtensor D⦄ where
  abbrev between : List D → List D → Linear D
  between a b = record {
    start = a;
    unit_direction = x.over (x.minus b a) (x.norm_l2 (x.minus b a));
    length = x.norm_l2 (x.minus b a);
  }

  -- The lines from each waypoint to the next, from an arc length on, and where they end.
  unfoldable pub polyline : D → List D → List (List D) → List (PositionedSegment (Segment D) D)
  polyline at a [] = []
  polyline at a (b ∷ l) =
      record { seg = linear (between a b); start = at }
      ∷ polyline (d.add at (x.norm_l2 (x.minus b a))) b l

  unfoldable pub polyline_end : D → List D → List (List D) → D
  polyline_end at a [] = at
  polyline_end at a (b ∷ l) = polyline_end (d.add at (x.norm_l2 (x.minus b a))) b l

  -- No waypoint is at distance zero from the one before it.
  abbrev pub IsApart : List D → List (List D) → Type 0
  IsApart a [] = Unit
  IsApart a (b ∷ l) = (eq (x.norm_l2 (x.minus b a)) d.nought ≡ false) × IsApart b l

  -- The builder behind a line to a waypoint.
  abbrev led_to : Builder D → List D → Builder D
  led_to b locus =
      record (push b (linear (between b.current_position locus))
        (x.norm_l2 (x.minus locus b.current_position))) {
          current_position = locus;
          segment_start = locus;
          previous_blend_takes_half = false;
        }

  emit_line_lem :
      (b : Builder D) (locus : List D)
      → eq (x.norm_l2 (x.minus locus b.current_position)) d.nought ≡ false
      → emit_line b locus ≡ ok (led_to b locus)
  unfolding emit_line linear_between
  emit_line_lem b locus apart = rw (apart, emit_line)

  finish_lem :
      (dof : ℕ) (b : Builder D)
      → 0 < length b.segments
      → finish dof b ≡ ok (record { segments = b.segments; dof = dof; total = b.cumulative_length })
  unfolding finish
  finish_lem dof b h =
      let filled : (length b.segments == 0) ≡ false = ground arith in rw (filled, finish)

  module _ (opts : PathOptions D) (hard : le opts.max_blend_deviation d.nought ≡ true) where
    emit_corner_lem :
        (b : Builder D) (locus next : List D)
        → eq (x.norm_l2 (x.minus locus b.current_position)) d.nought ≡ false
        → emit_corner opts b locus next ≡ ok (led_to b locus)
    unfolding emit_corner try_create_blend
    emit_corner_lem b locus next apart = rw (hard, emit_corner) (emit_line_lem b locus apart)

    Drawn : Builder D → List (List D) → Type 0
    Drawn b l =
        (b' : Builder D) × (build_segments opts b l ≡ ok b')
        × (b'.segments ≡ b.segments ++ polyline b.cumulative_length b.current_position l)
        × (b'.cumulative_length ≡ polyline_end b.cumulative_length b.current_position l)

    build_segments_lem :
        (b : Builder D) (l : List (List D)) → IsApart b.current_position l → Drawn b l
    unfolding build_segments polyline polyline_end Drawn push
    build_segments_lem b [] apart = (b, refl, sym (append-nil b.segments), refl)
    build_segments_lem b (locus ∷ []) apart =
        (led_to b locus, emit_line_lem b locus apart.0, refl, refl)
    build_segments_lem b (locus ∷ next ∷ rest) apart =
        let (b', e, s, c) = build_segments_lem (led_to b locus) (next ∷ rest) apart.1 in
        (
          b',
          rw (emit_corner_lem b locus next apart.0, build_segments) e,
          s ∙ append_assoc b.segments _ _,
          c,
        )

    create_through_lem :
        (dof : ℕ) (first second : List D) (rest : List (List D))
        → IsApart first (second ∷ rest)
        → create_through opts dof (first ∷ second ∷ rest)
          ≡ ok (record {
            segments = polyline d.nought first (second ∷ rest);
            dof = dof;
            total = polyline_end d.nought first (second ∷ rest);
          })
    unfolding create_through finish Drawn polyline
    create_through_lem dof first second rest apart =
        let (b, e, s, c) = build_segments_lem (started_at first) (second ∷ rest) apart in
        let filled : 0 < length b.segments = rw s (omega arith) in
        rw (e, create_through) (finish_lem dof b filled ∙ rw s (rw c refl))

    -- With options that pass the checks, a blend deviation of at most zero and a linear deviation of
    -- zero, and two waypoints or more, none at distance zero from the one before it: `create`
    -- succeeds, and the path is the lines from each waypoint to the next.
    pub create-polyline :
        (waypoints : Batch D) (first second : List D) (rest : List (List D))
        → check_options opts ≡ ok tt
        → eq opts.max_linear_deviation d.nought ≡ true
        → waypoints.waypoints ≡ first ∷ second ∷ rest
        → IsApart first (second ∷ rest)
        → create waypoints opts
          ≡ ok (record {
            segments = polyline d.nought first (second ∷ rest);
            dof = waypoints.dof;
            total = polyline_end d.nought first (second ∷ rest);
          })
    unfolding create colinearize
    create-polyline waypoints first second rest passes straight e apart =
        let many : ltb (length waypoints.waypoints) 2 ≡ false = ground (arith, ap length e) in
        rw (many, create)
          (rw passes (
            rw (straight, colinearize)
              (rw e (create_through_lem waypoints.dof first second rest apart))))
