-- ===== src/Path/Rich.antt =====
-- path::cursor's geometry, and path::cursor::rich (path.hpp, path.cpp), which keeps what it has
-- computed until it moves. An exception leaves a rich cursor as it was, so the result of a query
-- holds the cursor only where it returns. What a fresh array holds is an argument.
pub mod Settled
pub mod Refinement
use trajex.Double.{Double, eq}
use trajex.Path.{TotgPath, View, Cursor, view_at, at_end, seek}
use trajex.Path.Segment.{Segment, configuration_into, tangent_into, curvature_into, require_dof}
use trajex.Prelude.{
  fault, cursor_at_sentinel, ℕ, zero, suc, ◌+◌, ◌-◌, ◌*◌, ◌/◌, ◌%◌, ◌≤◌, ◌<◌, ◌≡◌, refl, sym, ap,
  ◌∙◌, subst, ◌≢◌, ◌↔◌, ◌⊎◌, inl, inr, Bool, true, false, not, ◌&&◌, ◌||◌, Option, none, some, List,
  [], ◌∷◌, ◌++◌, map, arith, ltb, leb, ◌==◌, if◌then◌else◌, Bool-cases, Option-cases, length,
  get_elem?, take, drop, drop_last, last?, All, length-append, length-take, length-drop,
  take-length, last?-append_one, drop_last-append_one, length-drop_last, All-append, All-drop,
  All-take, All-last?, zero_cases, get_elem?-some, length-map, take-append_le, replicate,
  length-replicate, All-replicate, All-get_elem?, Error, Result, ok, err, ◌>>=◌, ◌>>◌, throw_if,
  Result-cases, Holds, Holds-bind, Holds-all, Holds-map, Holds-at, Holds-throw_if, Holds-then,
}

-- path::cursor::rich. The bits say which of the arrays are filled for the position.
pub record Rich (D : Type 0) : Type 0 where
  pub plain : Cursor D
  pub configuration : List D
  pub tangent : List D
  pub curvature : List D
  pub has_configuration : Bool
  pub has_tangent : Bool
  pub has_curvature : Bool

module _ {D : Type 0} ⦃d : Double D⦄ where
  -- path::cursor::seek_by
  unfoldable pub seek_by : TotgPath (Segment D) D → Cursor D → D → Cursor D
  seek_by p c delta = seek p c (d.add c.position delta)

  -- The view that the hint stands for; a hint past the end is not dereferenceable.
  unfoldable pub hint_view : TotgPath (Segment D) D → Cursor D → Result (View (Segment D) D)
  hint_view p c = elim (view_at p c.hint) [ none ↦ err fault | some v ↦ ok v ]

  -- path::cursor::configuration, tangent and curvature, into a span of so many places.
  unfoldable pub cursor_configuration : TotgPath (Segment D) D → Cursor D → ℕ → Result (List D)
  unfolding hint_view
  cursor_configuration p c size = do
    throw_if (at_end c) cursor_at_sentinel
    v ← hint_view p c
    configuration_into v c.position size

  unfoldable pub cursor_tangent : TotgPath (Segment D) D → Cursor D → ℕ → Result (List D)
  unfolding hint_view
  cursor_tangent p c size = do
    throw_if (at_end c) cursor_at_sentinel
    v ← hint_view p c
    tangent_into v c.position size

  unfoldable pub cursor_curvature : TotgPath (Segment D) D → Cursor D → ℕ → Result (List D)
  unfolding hint_view
  cursor_curvature p c size = do
    throw_if (at_end c) cursor_at_sentinel
    v ← hint_view p c
    curvature_into v c.position size

  -- path::cursor::enrich, with what the three arrays of the path's width hold.
  unfoldable pub enrich : Cursor D → List D → List D → List D → Rich D
  enrich c q t k = record {
    plain = c;
    configuration = q;
    tangent = t;
    curvature = k;
    has_configuration = false;
    has_tangent = false;
    has_curvature = false;
  }

  -- path::cursor::rich::invalidate_
  unfoldable pub invalidate : Rich D → Rich D
  invalidate r = record r { has_configuration = false; has_tangent = false; has_curvature = false }

  -- path::cursor::rich::seek and seek_by
  unfoldable pub rich_seek : TotgPath (Segment D) D → Rich D → D → Rich D
  unfolding invalidate
  rich_seek p r s =
      let moved = seek p r.plain s in
      if not (eq moved.position r.plain.position)
      then invalidate (record r { plain = moved })
      else record r { plain = moved }

  unfoldable pub rich_seek_by : TotgPath (Segment D) D → Rich D → D → Rich D
  rich_seek_by p r delta = rich_seek p r (d.add r.plain.position delta)

  -- path::cursor::rich::cached_: the array, filled if its bit is not set.
  abbrev pub cached : List D → Bool → (ℕ → Result (List D)) → Result (List D)
  cached storage true fill = ok storage
  cached storage false fill = fill (length storage)

  unfoldable pub configuration_ref : TotgPath (Segment D) D → Rich D → Result (Rich D × List D)
  configuration_ref p r = do
    q ← cached r.configuration r.has_configuration (cursor_configuration p r.plain)
    ok (record r { configuration = q; has_configuration = true }, q)

  unfoldable pub tangent_ref : TotgPath (Segment D) D → Rich D → Result (Rich D × List D)
  tangent_ref p r = do
    t ← cached r.tangent r.has_tangent (cursor_tangent p r.plain)
    ok (record r { tangent = t; has_tangent = true }, t)

  unfoldable pub curvature_ref : TotgPath (Segment D) D → Rich D → Result (Rich D × List D)
  curvature_ref p r = do
    k ← cached r.curvature r.has_curvature (cursor_curvature p r.plain)
    ok (record r { curvature = k; has_curvature = true }, k)

  -- The overload that copies to a span.
  unfoldable pub copy_to : Result (Rich D × List D) → ℕ → Result (Rich D × List D)
  unfolding require_dof
  copy_to answer size = answer >>= λ r. require_dof size (length r.1) >> ok r
