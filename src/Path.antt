-- ===== src/Path.antt =====
-- src/viam/trajex/totg/path.{hpp,cpp}: the segments of a path, the search for the one that holds an
-- arc length, and the cursor with its hint. What a segment is (a line or an arc) stays a parameter
-- `S`. An iterator is an index into the segments.
pub mod Hint
pub mod Segment
pub mod Blend
pub mod Coalesce
pub mod Create
pub mod Rich
use trajex.Prelude.{
  ℕ, zero, suc, ◌+◌, ◌-◌, ◌*◌, ◌/◌, ◌%◌, ◌≤◌, ◌<◌, ◌≡◌, refl, sym, ap, ◌∙◌, subst, ◌≢◌, ◌↔◌, ◌⊎◌,
  inl, inr, Bool, true, false, not, ◌&&◌, ◌||◌, Option, none, some, List, [], ◌∷◌, ◌++◌, map, arith,
  ltb, leb, ◌==◌, if◌then◌else◌, Bool-cases, Option-cases, length, get_elem?, take, drop, drop_last,
  last?, All, length-append, length-take, length-drop, take-length, last?-append_one,
  drop_last-append_one, length-drop_last, All-append, All-drop, All-take, All-last?, zero_cases,
  get_elem?-some, length-map, take-append_le, replicate, length-replicate, All-replicate,
  All-get_elem?, Error, Result, ok, err, ◌>>=◌, ◌>>◌, throw_if, no_segments, arc_length_exceeds,
  before_path_start, empty_path,
}
use trajex.Double.{Double, lt, le, eq, IsNumber}
use trajex.Double.Sorted.{upper_bound, IsIncreasing}

pub record PositionedSegment (S D : Type 0) : Type 0 where
  pub seg : S
  pub start : D

-- The class `path`.
pub record TotgPath (S D : Type 0) : Type 0 where
  pub segments : List (PositionedSegment S D)
  pub dof : ℕ
  pub total : D

-- path::segment::view
pub record View (S D : Type 0) : Type 0 where
  pub of_segment : S
  pub start : D
  pub stop : D

pub record Cursor (D : Type 0) : Type 0 where
  pub position : D
  pub hint : ℕ

module _ {D : Type 0} ⦃d : Double D⦄ where
  -- std::clamp
  abbrev pub clamp : D → D → D → D
  clamp v lo hi = if lt v lo then lo else if lt hi v then hi else v

  -- *this == end()
  abbrev pub at_end : Cursor D → Bool
  at_end c = not (d.is_finite c.position)

module _ {S D : Type 0} ⦃d : Double D⦄ where
  abbrev pub start_of : PositionedSegment S D → D
  start_of e = e.start

  abbrev pub stop_at : TotgPath S D → ℕ → D
  stop_at p i = elim (get_elem? p.segments (suc i)) [ none ↦ p.total | some e ↦ e.start ]

  -- path::const_iterator::operator*; `none` past the end.
  unfoldable pub view_at : TotgPath S D → ℕ → Option (View S D)
  view_at p i = elim (get_elem? p.segments i) [
    | none ↦ none
    | some e ↦ some (record { of_segment = e.seg; start = e.start; stop = stop_at p i })
  ]

  -- path::operator()
  unfoldable pub segment_at : TotgPath S D → D → Result (Option (View S D))
  unfolding view_at
  segment_at p s = do
    throw_if (length p.segments == 0) no_segments
    throw_if (lt p.total s) arc_length_exceeds
    let it = upper_bound start_of s p.segments
    throw_if (it == 0) before_path_start
    ok (view_at p (it - 1))

  -- position_ >= view.start() && position_ < view.end()
  abbrev pub in_view : D → View S D → Bool
  in_view position v = le v.start position && lt position v.stop

  abbrev pub holds : TotgPath S D → D → ℕ → Bool
  holds p position i = elim (view_at p i) [ none ↦ false | some v ↦ in_view position v ]

  -- The binary search of update_hint_.
  unfoldable pub locate : TotgPath S D → D → ℕ
  locate p position =
      let seg_it = upper_bound start_of position p.segments in if seg_it == 0 then 0 else seg_it - 1

  -- The position is exactly at the end of the segment of the hint.
  abbrev pub boundary_hint : TotgPath S D → D → ℕ → ℕ
  boundary_hint p position hint = if holds p position (suc hint) then suc hint else hint

  abbrev pub far_hint : TotgPath S D → D → ℕ → ℕ
  far_hint p position hint =
      if not (hint == 0) && holds p position (hint - 1)
      then hint - 1
      else if holds p position (suc hint)
      then suc hint
      else locate p position

  -- path::cursor::update_hint_. A hint past the end is not dereferenceable, and stays.
  unfoldable pub update_hint : TotgPath S D → D → ℕ → ℕ
  update_hint p position hint = elim (view_at p hint) [
    | none ↦ hint
    | some current ↦
        if in_view position current
        then hint
        else if eq position current.stop
        then boundary_hint p position hint
        else far_hint p position hint
  ]

  -- path::create_cursor
  unfoldable pub create_cursor : TotgPath S D → D → Result (Cursor D)
  unfolding update_hint
  create_cursor p s = do
    throw_if (length p.segments == 0) empty_path
    let position = clamp s d.nought p.total
    ok (record { position = position; hint = update_hint p position 0 })

  sought : TotgPath S D → D → D
  sought p s = if lt s d.nought then d.neg d.infinity else if lt p.total s then d.infinity else s

  -- path::cursor::seek
  unfoldable pub seek : TotgPath S D → Cursor D → D → Cursor D
  unfolding sought update_hint
  seek p c s =
      let position = sought p s in
      record {
        position = position;
        hint = if d.is_finite position then update_hint p position c.hint else c.hint;
      }

  -- path::cursor::base
  unfoldable pub base : TotgPath S D → Cursor D → ℕ
  base p c = if at_end c then length p.segments else c.hint
