-- ===== src/Path/Create/Layout.antt =====
-- How path::create (path.cpp) lays its segments out along the arc length.
use trajex.Double.{Double, le, eq}
use trajex.Xtensor.{Xtensor}
use trajex.Path.{PositionedSegment, TotgPath}
use trajex.Path.Segment.{Segment, linear, circular, length_of, linear_along, linear_between}
use trajex.Path.Blend.{PathOptions, Blend, try_create_blend, check_options}
use trajex.Path.Coalesce.{colinearize}
use trajex.Path.Create.{
  too_few_waypoints, no_path, Builder, push, has_inside, emit_incoming, emit_blend, emit_line,
  emit_corner, build_segments, started_at, finish, create_through, create,
}
use trajex.WaypointUtils.{Batch}
use trajex.Prelude.{
  ℕ, ◌<◌, ◌≡◌, refl, sym, ap, ◌∙◌, subst, inl, inr, false, not, ◌&&◌, none, some, List, [], ◌∷◌,
  ◌++◌, arith, ltb, ◌==◌, Bool-cases, length, All, All-append, ok, throw_if, Holds, Holds-bind,
  Holds-all, Holds-at, Holds-throw_if, Holds-then,
}

module _ {D : Type 0} ⦃d : Double D⦄ where
  -- Each segment starts where the one before it ends, by the lengths as they are added up.
  abbrev pub IsLaid : D → List (PositionedSegment (Segment D) D) → D → Type 0
  IsLaid from [] total = from ≡ total
  IsLaid from (e ∷ l) total = (e.start ≡ from) × IsLaid (d.add from (length_of e.seg)) l total

  -- No line has the length zero.
  abbrev pub IsNotPoint : PositionedSegment (Segment D) D → Type 0
  IsNotPoint e = elim e.seg [ linear l ↦ eq l.length d.nought ≡ false | circular c ↦ Unit ]

  IsLaid-append_one :
      (from total : D) (l : List (PositionedSegment (Segment D) D))
      (e : PositionedSegment (Segment D) D)
      → IsLaid from l total
      → e.start ≡ total
      → IsLaid from (l ++ e ∷ []) (d.add total (length_of e.seg))
  IsLaid-append_one from total [] e h at = (at ∙ sym h, ap (λ t. d.add t (length_of e.seg)) h)
  IsLaid-append_one from total (q ∷ l) e h at =
      (h.0, IsLaid-append_one (d.add from (length_of q.seg)) total l e h.1 at)

  -- The segments so far reach from zero to the length so far.
  record IsSound (b : Builder D) : Type 0 where
    laid : IsLaid d.nought b.segments b.cumulative_length
    lines : All IsNotPoint b.segments

  push-IsSound :
      (b : Builder D) (seg : Segment D) (len : D)
      → IsSound b
      → len ≡ length_of seg
      → IsNotPoint (record { seg = seg; start = b.cumulative_length })
      → IsSound (push b seg len)
  unfolding push
  push-IsSound b seg len sound e n = record {
    laid =
        subst
          (λ t.
            IsLaid d.nought (b.segments ++ record { seg = seg; start = b.cumulative_length } ∷ [])
              (d.add b.cumulative_length t))
          (sym e) (IsLaid-append_one d.nought b.cumulative_length b.segments _ sound.laid refl);
    lines = All-append IsNotPoint b.segments _ sound.lines (n, tt);
  }

module _ {D : Type 0} ⦃d : Double D⦄ ⦃x : Xtensor D⦄ where
  emit_incoming-IsSound :
      (b : Builder D) (locus : List D) (blend : Blend D)
      → IsSound b
      → Holds IsSound (emit_incoming b locus blend)
  unfolding emit_incoming linear_along
  emit_incoming-IsSound b locus blend sound =
      let dist = x.norm_l2 (x.minus locus b.current_position) in
      let len = d.sub dist blend.trim_distance in
      elim (Bool-cases (
        not (b.previous_blend_takes_half && blend.takes_half_incoming)
        && has_inside b.cumulative_length (d.add b.cumulative_length len))) [
          | inr f ↦ rw (f, emit_incoming) sound
          | inl t ↦
              rw (t, emit_incoming)
                (elim (Bool-cases (le len d.nought)) [
                  | inl short ↦ rw short tt
                  | inr long ↦ rw long (push-IsSound b _ len sound refl (ground arith))
                ])
        ]

  emit_blend-IsSound :
      (b : Builder D) (locus next : List D) (blend : Blend D)
      → IsSound b
      → Holds IsSound (emit_blend b locus next blend)
  unfolding emit_blend
  emit_blend-IsSound b locus next blend sound =
      Holds-bind IsSound IsSound (emit_incoming b locus blend) _
        (emit_incoming-IsSound b locus blend sound)
        (λ with_line s.
          let pushed = push-IsSound with_line (circular blend.arc) _ s refl tt in
          record { laid = pushed.laid; lines = pushed.lines })

  emit_line-IsSound :
      (b : Builder D) (locus : List D) → IsSound b → Holds IsSound (emit_line b locus)
  unfolding emit_line linear_between
  emit_line-IsSound b locus sound =
      elim (Bool-cases (eq (x.norm_l2 (x.minus locus b.current_position)) d.nought)) [
        | inl same ↦ rw (same, emit_line) tt
        | inr apart ↦
            let pushed =
              push-IsSound b
                (linear (record {
                  start = b.current_position;
                  unit_direction =
                      x.over (x.minus locus b.current_position)
                        (x.norm_l2 (x.minus locus b.current_position));
                  length = x.norm_l2 (x.minus locus b.current_position);
                }))
                _ sound refl apart in
            rw (apart, emit_line) (record { laid = pushed.laid; lines = pushed.lines })
      ]

  emit_corner-IsSound :
      (opts : PathOptions D) (b : Builder D) (locus next : List D)
      → IsSound b
      → Holds IsSound (emit_corner opts b locus next)
  unfolding emit_corner
  emit_corner-IsSound opts b locus next sound =
      Holds-bind (λ _. Unit {0}) IsSound (try_create_blend opts b.segment_start locus next) _
        (Holds-all (λ _. Unit {0}) _ (λ _. tt))
        (elim [
          | none ↦ λ _. emit_line-IsSound b locus sound
          | some blend ↦ λ _. emit_blend-IsSound b locus next blend sound
        ])

  build_segments-IsSound :
      (opts : PathOptions D) (b : Builder D) (l : List (List D))
      → IsSound b
      → Holds IsSound (build_segments opts b l)
  unfolding build_segments
  build_segments-IsSound opts b [] sound = sound
  build_segments-IsSound opts b (locus ∷ []) sound = emit_line-IsSound b locus sound
  build_segments-IsSound opts b (locus ∷ next ∷ rest) sound =
      Holds-bind IsSound IsSound (emit_corner opts b locus next) _
        (emit_corner-IsSound opts b locus next sound)
        (λ b' s. build_segments-IsSound opts b' (next ∷ rest) s)

  -- What a path is that path::create returns for waypoints of the width `dof`.
  pub record IsPath (dof : ℕ) (p : TotgPath (Segment D) D) : Type 0 where
    pub laid : IsLaid d.nought p.segments p.total
    pub lines : All IsNotPoint p.segments
    pub filled : 0 < length p.segments
    pub width : p.dof ≡ dof

  finish-IsPath : (dof : ℕ) (b : Builder D) → IsSound b → Holds (IsPath dof) (finish dof b)
  unfolding finish
  finish-IsPath dof b s =
      Holds-throw_if (IsPath dof) (length b.segments == 0) no_path _
        (λ full. record { laid = s.laid; lines = s.lines; filled = ground arith; width = refl })

  create_through-IsPath :
      (opts : PathOptions D) (dof : ℕ) (l : List (List D))
      → Holds (IsPath dof) (create_through opts dof l)
  unfolding create_through
  create_through-IsPath opts dof [] = tt
  create_through-IsPath opts dof (first ∷ rest) =
      Holds-bind IsSound (IsPath dof) (build_segments opts (started_at first) rest) _
        (build_segments-IsSound opts (started_at first) rest (record { laid = refl; lines = tt }))
        (finish-IsPath dof)

  create_lem :
      (waypoints : Batch D) (opts : PathOptions D)
      → Holds (IsPath waypoints.dof) (create waypoints opts)
  unfolding create
  create_lem waypoints opts =
      let Q : TotgPath (Segment D) D → Type 0 = IsPath waypoints.dof in
      Holds-then Q (throw_if (ltb (length waypoints.waypoints) 2) too_few_waypoints) _ (
        Holds-then Q (check_options opts) _ (
          Holds-bind (λ _. Unit {0}) Q (colinearize opts.max_linear_deviation waypoints) _
            (Holds-all (λ _. Unit {0}) _ (λ _. tt))
            (λ through _. create_through-IsPath opts waypoints.dof through.waypoints)))

  -- A path that `create` returns has a segment at least. The first starts at zero, each other where
  -- the one before it ends, and the path is as long as where the last ends, all by the lengths as
  -- they are added up. No line has the length zero, and the path is as wide as the waypoints.
  pub create-IsPath :
      (waypoints : Batch D) (opts : PathOptions D) (p : TotgPath (Segment D) D)
      → create waypoints opts ≡ ok p
      → IsPath waypoints.dof p
  create-IsPath waypoints opts p e =
      Holds-at (IsPath waypoints.dof) (create waypoints opts) (create_lem waypoints opts) e
