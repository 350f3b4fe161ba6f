-- ===== src/Path/Create/Advancing.antt =====
-- The paths of path::create (path.cpp) whose segments have room for a position, and the search on
-- them.
use mathlib.Core.Option.{some-injective}
use trajex.Double.{Double, lt, IsNumber}
use trajex.Double.Ieee.{IsIeee}
use trajex.Double.Sorted.{IsIncreasing}
use trajex.Xtensor.{Xtensor}
use trajex.Path.{PositionedSegment, TotgPath, start_of, locate, update_hint}
use trajex.Path.Hint.{IsWellFormed, IsOnPath, update_hint-eq-locate}
use trajex.Path.Segment.{Segment, length_of}
use trajex.Path.Blend.{PathOptions}
use trajex.Path.Create.{create}
use trajex.Path.Create.Layout.{IsLaid, create-IsPath}
use trajex.WaypointUtils.{Batch}
use trajex.Prelude.{
  ℕ, zero, suc, ◌≤◌, ◌<◌, ◌≡◌, sym, subst, true, some, List, [], ◌∷◌, arith, length, get_elem?, All,
  ok,
}

module _ {D : Type 0} ⦃d : Double D⦄ where
  -- The length of the segment moves the place it starts at.
  abbrev pub Advances : PositionedSegment (Segment D) D → Type 0
  Advances e = lt e.start (d.add e.start (length_of e.seg)) ≡ true

  moved :
      (from : D) (e : PositionedSegment (Segment D) D)
      → e.start ≡ from
      → Advances e
      → lt from (d.add from (length_of e.seg)) ≡ true
  moved from e h a = subst (λ t. lt t (d.add t (length_of e.seg)) ≡ true) h a

  laid-above :
      (from total : D) (l : List (PositionedSegment (Segment D) D))
      → IsNumber from
      → IsLaid from l total
      → All Advances l
      → (d.rank from ≤ d.rank total) × IsNumber total
  laid-above from total [] n h a =
      subst (λ t. (d.rank from ≤ d.rank t) × IsNumber t) h (omega arith, n)
  laid-above from total (e ∷ l) n h a =
      let there = moved from e h.0 a.0 in
      let (above, m) = laid-above (d.add from (length_of e.seg)) total l (ground arith) h.1 a.1 in
      (ground arith, m)

  laid-IsIncreasing :
      (from total : D) (l : List (PositionedSegment (Segment D) D))
      → IsNumber from
      → IsLaid from l total
      → All Advances l
      → IsIncreasing start_of l
  laid-IsIncreasing from total [] n h a = tt
  laid-IsIncreasing from total (e ∷ []) n h a = subst IsNumber (sym h.0) n
  laid-IsIncreasing from total (e ∷ f ∷ l) n h a =
      let there = moved from e h.0 a.0 in
      let along = a.0 in
      let at : f.start ≡ d.add e.start (length_of e.seg) =
        subst (λ t. f.start ≡ d.add t (length_of e.seg)) (sym h.0) h.1.0 in
      (
        subst IsNumber (sym h.0) n,
        subst (λ t. d.rank e.start < d.rank t) (sym at) (ground arith),
        laid-IsIncreasing (d.add from (length_of e.seg)) total (f ∷ l) (ground arith) h.1 a.1,
      )

  laid-bounded :
      (from total : D) (l : List (PositionedSegment (Segment D) D))
      → IsNumber from
      → IsLaid from l total
      → All Advances l
      → (i : ℕ) (e : PositionedSegment (Segment D) D) → get_elem? l i ≡ some e
      → d.rank e.start < d.rank total
  laid-bounded from total [] n h a i e g = cc
  laid-bounded from total (q ∷ l) n h a zero e g =
      let there = moved from q h.0 a.0 in
      let (above, m) = laid-above (d.add from (length_of q.seg)) total l (ground arith) h.1 a.1 in
      let short : d.rank q.start < d.rank total =
        subst (λ t. d.rank t < d.rank total) (sym h.0) (ground arith) in
      subst (λ x. d.rank x.start < d.rank total) (some-injective q e g) short
  laid-bounded from total (q ∷ l) n h a (suc i) e g =
      let there = moved from q h.0 a.0 in
      laid-bounded (d.add from (length_of q.seg)) total l (ground arith) h.1 a.1 i e g

  laid-begins :
      (from total : D) (l : List (PositionedSegment (Segment D) D))
      → IsLaid from l total
      → (e : PositionedSegment (Segment D) D) → get_elem? l 0 ≡ some e
      → d.rank e.start ≤ d.rank from
  laid-begins from total [] h e g = cc
  laid-begins from total (q ∷ l) h e g =
      subst (λ x. d.rank x.start ≤ d.rank from) (some-injective q e g)
        (subst (λ t. d.rank t ≤ d.rank from) (sym h.0) (omega arith))

module _ {D : Type 0} ⦃d : Double D⦄ ⦃x : Xtensor D⦄ where
  -- With the doubles of IEEE 754, on a path that `create` returned and whose segments each move the
  -- place they start at by their length: the path is well-formed, and for a position on it the
  -- cursor's hint, whichever segment it was at before, is moved to the segment that the binary search
  -- finds.
  pub create-update_hint :
      (waypoints : Batch D) (opts : PathOptions D) (p : TotgPath (Segment D) D) (position : D)
      (hint : ℕ)
      → IsIeee D
      → create waypoints opts ≡ ok p
      → All Advances p.segments
      → IsOnPath p position
      → hint < length p.segments
      → IsWellFormed p × (update_hint p position hint ≡ locate p position)
  create-update_hint waypoints opts p position hint ieee e a on inside =
      let made = create-IsPath waypoints opts p e in
      let zero_number = ieee.nought_number in
      let w : IsWellFormed p = record {
        increasing = laid-IsIncreasing d.nought p.total p.segments zero_number made.laid a;
        total_number = (laid-above d.nought p.total p.segments zero_number made.laid a).1;
        begins = laid-begins d.nought p.total p.segments made.laid;
        bounded = laid-bounded d.nought p.total p.segments zero_number made.laid a;
      } in
      (w, update_hint-eq-locate p w position hint on inside)
