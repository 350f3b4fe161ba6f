-- ===== src/Path/Segment.antt =====
-- path::segment (path.hpp, path.cpp): lines and arcs, the checks of their constructors, and where a
-- view of a segment lies, which way it points and how it bends. An output span is its size, and what
-- a call writes to it is the call's result.
use trajex.Double.{Double, lt, le, eq}
use trajex.Xtensor.{Xtensor}
use trajex.Path.{length, View}
use trajex.Prelude.{
  ℕ, not, ◌||◌, List, [], ◌∷◌, map, ◌==◌, Result, ok, ◌>>=◌, ◌>>◌, throw_if, not_perpendicular,
  length_not_positive, outside_segment, not_unit_vectors, span_size, coincident_ends,
}

-- path::segment::linear
pub record Linear (D : Type 0) : Type 0 where
  pub start : List D
  pub unit_direction : List D
  pub length : D

-- path::segment::circular
pub record Circular (D : Type 0) : Type 0 where
  pub center : List D
  pub x : List D
  pub y : List D
  pub radius : D
  pub angle_rads : D

pub data Segment (D : Type 0) : Type 0 where
  linear : Linear D → Segment D
  circular : Circular D → Segment D

-- A loop that writes f(a(i), b(i)) for each index of a span.
abbrev pub each_of {ℓ} : {A : Type ℓ} → (A → A → A) → List A → List A → List A
each_of f [] bs = []
each_of f (a ∷ as_) [] = []
each_of f (a ∷ as_) (b ∷ bs) = f a b ∷ each_of f as_ bs

unfoldable pub require_dof : ℕ → ℕ → Result (Unit {0})
require_dof size dof = throw_if (not (size == dof)) span_size

module _ {D : Type 0} ⦃d : Double D⦄ where
  -- How far a segment reaches: an arc's is the product that path::create adds up.
  abbrev pub length_of : Segment D → D
  length_of (linear l) = l.length
  length_of (circular c) = d.mul c.radius c.angle_rads

  -- path::segment::view::dof_
  abbrev pub segment_dof : Segment D → ℕ
  segment_dof (linear l) = length l.start
  segment_dof (circular c) = length c.center

  -- path::segment::linear::linear(start, unit_direction, length)
  unfoldable pub linear_along : List D → List D → D → Result (Linear D)
  linear_along start unit_direction len = do
    throw_if (le len d.nought) length_not_positive
    ok (record { start = start; unit_direction = unit_direction; length = len })

  -- local_s of the three queries, once they have checked it.
  unfoldable pub local_arc : View (Segment D) D → D → Result D
  local_arc v s = do
    let local_s = d.sub s v.start
    throw_if (lt local_s d.nought || lt (d.sub v.stop v.start) local_s) outside_segment
    ok local_s

  abbrev line_point : D → D → D → D
  line_point distance a u = d.add a (d.mul distance u)

  -- x(i) * cos + y(i) * sin
  abbrev on_circle : D → Circular D → List D
  on_circle angle c = each_of (λ a b. d.add (d.mul a (d.cos angle)) (d.mul b (d.sin angle))) c.x c.y

  -- -x(i) * sin + y(i) * cos
  abbrev along_circle : D → Circular D → List D
  along_circle angle c =
      each_of (λ a b. d.add (d.mul (d.neg a) (d.sin angle)) (d.mul b (d.cos angle))) c.x c.y

  point_at : Segment D → D → List D
  point_at (linear l) s = each_of (line_point s) l.start l.unit_direction
  point_at (circular c) s =
      each_of (λ a b. d.add a (d.mul c.radius b)) c.center (on_circle (d.div s c.radius) c)

  tangent_at : Segment D → D → List D
  tangent_at (linear l) s = l.unit_direction
  tangent_at (circular c) s = along_circle (d.div s c.radius) c

  curvature_at : Segment D → D → List D
  curvature_at (linear l) s = map (λ _. d.nought) l.start
  curvature_at (circular c) s =
      map (λ a. d.mul (d.neg (d.div d.one c.radius)) a) (on_circle (d.div s c.radius) c)

  -- path::segment::view::configuration, tangent and curvature, into a span of so many places.
  unfoldable pub configuration_into : View (Segment D) D → D → ℕ → Result (List D)
  unfolding local_arc require_dof point_at
  configuration_into v s size = do
    local_s ← local_arc v s
    require_dof size (segment_dof v.of_segment)
    ok (point_at v.of_segment local_s)

  unfoldable pub tangent_into : View (Segment D) D → D → ℕ → Result (List D)
  unfolding local_arc require_dof tangent_at
  tangent_into v s size = do
    local_s ← local_arc v s
    require_dof size (segment_dof v.of_segment)
    ok (tangent_at v.of_segment local_s)

  unfoldable pub curvature_into : View (Segment D) D → D → ℕ → Result (List D)
  unfolding local_arc require_dof curvature_at
  curvature_into v s size = do
    local_s ← local_arc v s
    require_dof size (segment_dof v.of_segment)
    ok (curvature_at v.of_segment local_s)

  -- The overloads that allocate their result.
  unfoldable pub configuration_of : View (Segment D) D → D → Result (List D)
  configuration_of v s = configuration_into v s (segment_dof v.of_segment)

  unfoldable pub tangent_of : View (Segment D) D → D → Result (List D)
  tangent_of v s = tangent_into v s (segment_dof v.of_segment)

  unfoldable pub curvature_of : View (Segment D) D → D → Result (List D)
  curvature_of v s = curvature_into v s (segment_dof v.of_segment)

module _ {D : Type 0} ⦃d : Double D⦄ ⦃x : Xtensor D⦄ where
  -- path::segment::linear::linear(start, end)
  unfoldable pub linear_between : List D → List D → Result (Linear D)
  linear_between start end_ = do
    let diff = x.minus end_ start
    let norm = x.norm_l2 diff
    throw_if (eq norm d.nought) coincident_ends
    ok (record { start = start; unit_direction = x.over diff norm; length = norm })

  -- path::segment::circular::circular
  unfoldable pub circular_arc : List D → List D → List D → D → D → Result (Circular D)
  circular_arc center xs ys radius angle_rads = do
    let x_norm = x.norm_l2 xs
    let y_norm = x.norm_l2 ys
    throw_if
        (lt d.millionth (d.magnitude (d.sub x_norm d.one))
          || lt d.millionth (d.magnitude (d.sub y_norm d.one)))
        not_unit_vectors
    throw_if (lt d.millionth (d.magnitude (x.sum (x.times xs ys)))) not_perpendicular
    ok (record { center = center; x = xs; y = ys; radius = radius; angle_rads = angle_rads })
