-- ===== src/Trajectory/Switching/Located.antt =====
-- Where find_acceleration_switching_point (trajectory.cpp) finds a switching point: on the path.
use trajex.Double.{eq, Double, lt, le, min_of, IsNumber}
use trajex.Double.Ieee.{IsIeee, IsRounded}
use trajex.Path.{TotgPath, View, Cursor, seek, view_at}
use trajex.Path.Hint.{IsWellFormed}
use trajex.Path.Rich.{hint_view}
use trajex.Path.Rich.Settled.{OnPath}
use trajex.Path.Segment.{
  configuration_of, curvature_of, tangent_of, Segment, Circular, linear, circular,
}
use trajex.Trajectory.Stepping.{half}
use trajex.Trajectory.Limits.{
  LimitCurves, wrap_lt, compute_limit_curves, TrajectoryOptions, wrap_eq,
}
use trajex.Trajectory.Switching.{SwitchingPoint, wrap_le}
use trajex.Trajectory.Switching.Velocity.{unless_found}
use trajex.Trajectory.Switching.Acceleration.{
  step_up, step_down, curves_in, extremum_of, insert_in_order, extrema, before_candidate,
  after_candidate, is_local_minimum, judge_extremum, first_extremum, extremal_switching_point,
  boundary_switching_point, acceleration_from, find_acceleration_switching_point,
}
use trajex.Trajectory.Switching.Walking.{Walks, hint_view-Ends, seek-Walks}
use trajex.Trajectory.Integration.Bisecting.{le_trans}
use trajex.Prelude.{
  ℕ, zero, suc, ◌≡◌, refl, sym, subst, ◌⊎◌, inl, inr, Bool, true, false, ◌&&◌, ◌||◌, Option, none,
  some, List, [], ◌∷◌, arith, if◌then◌else◌, Option-cases, All, Result, ok, err, ◌>>=◌, Holds,
  Holds-bind, Holds-all, Holds-at, OrNone, if-both, elim-both, Holds-any, Holds-known, elim-option,
  fault,
}

module _ {D : Type 0} ⦃d : Double D⦄ (p : TotgPath (Segment D) D) where
  -- An arc of the path has a radius that is not below zero, and ends at its start plus its length,
  -- where `create` lets it end.
  pub record HasArcs : Type 0 where
    pub radius :
        (i : ℕ) (v : View (Segment D) D) (arc : Circular D)
        → view_at p i ≡ some v
        → v.of_segment ≡ circular arc
        → le d.nought arc.radius ≡ true
    pub stop :
        (i : ℕ) (v : View (Segment D) D) (arc : Circular D)
        → view_at p i ≡ some v
        → v.of_segment ≡ circular arc
        → v.stop ≡ d.add v.start (d.mul arc.radius arc.angle_rads)

  -- A place that is not behind the cursor and not past the end of the segment, if it is a number.
  abbrev IsCandidate : D → D → D → Type 0
  IsCandidate position stop s = (lt s position ≡ false) × (lt stop s ≡ false)

  module _ (rounded : IsRounded D) where
    not_above : (a b : D) → lt b (min_of a b) ≡ false
    not_above a b = ground arith

    extremum_of-IsCandidate :
        (start position x y : D) (arc : Circular D)
        → le d.nought arc.radius ≡ true
        → OrNone
            (IsCandidate position (d.add start (d.mul arc.radius arc.angle_rads)))
            (extremum_of start arc position x y)
    unfolding extremum_of
    extremum_of-IsCandidate start position x y arc r =
        let raw = d.atan2 y x in
        let angle = if lt raw d.nought then d.add raw d.pi else raw in
        let nearer : lt arc.angle_rads (min_of angle arc.angle_rads) ≡ false =
          not_above angle arc.angle_rads in
        let s = d.add start (d.mul arc.radius (min_of angle arc.angle_rads)) in
        let R : Option D → Type 0 =
          OrNone (IsCandidate position (d.add start (d.mul arc.radius arc.angle_rads))) in
        if-both R (eq x d.nought && eq y d.nought) (λ _. tt)
          (λ _.
            if-both R (lt (d.add arc.angle_rads (d.mul (d.of_size 4) d.machine_epsilon)) angle)
              (λ _. tt)
              (λ _.
                if-both R (lt s position) (λ _. tt)
                  (λ ahead. (
                    ahead,
                    rounded.add_below start (d.mul arc.radius (min_of angle arc.angle_rads))
                        (d.mul arc.radius arc.angle_rads)
                        (rounded.mul_below arc.radius (min_of angle arc.angle_rads) arc.angle_rads r
                          nearer),
                  ))))

    insert-All : (P : D → Type 0) (a : D) (l : List D) → P a → All P l → All P (insert_in_order a l)
    unfolding insert_in_order
    insert-All P a [] h k = (h, tt)
    insert-All P a (b ∷ l) h (k, ks) =
        if-both (All P) (lt b a) (λ _. (k, insert-All P a l h ks)) (λ _. (h, (k, ks)))

    placed_in :
        (P : D → Type 0) (o : Option D) (rest : List D)
        → OrNone P o
        → All P rest
        → All P (elim o as (λ _. List D) [ none ↦ rest | some s ↦ insert_in_order s rest ])
    placed_in P none rest h k = k
    placed_in P (some s) rest h k = insert-All P s rest h k

    extrema-All :
        (start position : D) (arc : Circular D) (xs ys : List D)
        → le d.nought arc.radius ≡ true
        → All
            (IsCandidate position (d.add start (d.mul arc.radius arc.angle_rads)))
            (extrema start arc position xs ys)
    unfolding extrema
    extrema-All start position arc [] ys r = tt
    extrema-All start position arc (x ∷ xs) [] r = tt
    extrema-All start position arc (x ∷ xs) (y ∷ ys) r =
        placed_in (IsCandidate position (d.add start (d.mul arc.radius arc.angle_rads)))
          (extremum_of start arc position x y) (extrema start arc position xs ys)
          (extremum_of-IsCandidate start position x y arc r)
          (extrema-All start position arc xs ys r)

    module _ (opt : TrajectoryOptions D) where
      viewed :
          (c : Cursor D) (v : View (Segment D) D) → hint_view p c ≡ ok v → view_at p c.hint ≡ some v
      unfolding hint_view
      viewed c v e = elim (Option-cases (view_at p c.hint)) [
        | inl none_there ↦
            let thrown : hint_view p c ≡ err fault = rw (none_there, hint_view) refl in
            absurd (cc (e, thrown))
        | inr (u, g) ↦ let same : hint_view p c ≡ ok u = rw (g, hint_view) refl in cc (e, same, g)
      ]

      apart-IsNumber : (epsilon a b : D) → wrap_eq epsilon a b ≡ false → IsNumber b
      apart-IsNumber epsilon a b h = rounded.sub_number a b (ground arith)

      minimum-IsNumber :
          (cursor : Cursor D) (current : View (Segment D) D) (s limit : D)
          → Holds (λ b. (b ≡ false) ⊎ IsNumber s) (is_local_minimum p opt cursor current s limit)
      unfolding is_local_minimum
      minimum-IsNumber cursor current s limit =
          let R : Bool → Type 0 = λ b. (b ≡ false) ⊎ IsNumber s in
          let half_epsilon = d.mul opt.epsilon half in
          Holds-any R (before_candidate p opt cursor current s) _ (λ before.
            Holds-any R (after_candidate p opt cursor current s) _ (λ after.
              elim-both (Holds R)
                (wrap_eq half_epsilon before.s s || wrap_eq half_epsilon s after.s) (λ _. inl refl)
                (λ apart.
                  let number = apart-IsNumber half_epsilon before.s s (ground arith) in
                  Holds-all R _ (λ _. inr number))))

      abbrev pub Lies : SwitchingPoint D → Type 0
      Lies sp = OnPath p sp.point.s

      judge_extremum-Lies :
          (cursor : Cursor D) (current : View (Segment D) D) (s : D)
          → OnPath p cursor.position
          → OnPath p current.stop
          → IsCandidate cursor.position current.stop s
          → Holds (OrNone Lies) (judge_extremum p opt cursor current s)
      unfolding judge_extremum
      judge_extremum-Lies cursor current s (zero_start, _) (_, inside) (ahead, within) =
          let R : Option (SwitchingPoint D) → Type 0 = OrNone Lies in
          Holds-any R (tangent_of current s) _ (λ q_prime.
            Holds-any R (curvature_of current s) _ (λ q_double_prime.
              Holds-any R (configuration_of current s) _ (λ q.
                Holds-any R (compute_limit_curves q q_prime q_double_prime opt) _ (λ curves.
                  elim-both (Holds R)
                    (wrap_lt opt.epsilon curves.s_dot_max_vel curves.s_dot_max_acc) (λ _. tt)
                    (λ _.
                      Holds-bind (λ b. (b ≡ false) ⊎ IsNumber s) R
                        (is_local_minimum p opt cursor current s curves.s_dot_max_acc) _
                        (minimum-IsNumber cursor current s curves.s_dot_max_acc)
                        (λ minimal h.
                          if-both R minimal
                            (λ yes. elim h [
                              | inl wrong ↦ absurd (cc (yes, wrong))
                              | inr number ↦ (ground arith, ground arith)
                            ])
                            (λ _. tt)))))))

      first_extremum-Lies :
          (cursor : Cursor D) (current : View (Segment D) D) (l : List D)
          → OnPath p cursor.position
          → OnPath p current.stop
          → All (IsCandidate cursor.position current.stop) l
          → Holds (OrNone Lies) (first_extremum p opt cursor current l)
      unfolding first_extremum
      first_extremum-Lies cursor current [] on inside h = tt
      first_extremum-Lies cursor current (s ∷ l) on inside (h, hs) =
          Holds-bind (OrNone Lies) (OrNone Lies) (judge_extremum p opt cursor current s) _
            (judge_extremum-Lies cursor current s on inside h)
            (λ found k. go found k (first_extremum-Lies cursor current l on inside hs))
        where
          go :
              (found : Option (SwitchingPoint D))
              → OrNone Lies found
              → Holds (OrNone Lies) (first_extremum p opt cursor current l)
              → Holds (OrNone Lies) (elim found as (λ _. Result (Option (SwitchingPoint D))) [
                | some sp ↦ ok (some sp)
                | none ↦ first_extremum p opt cursor current l
              ])
          go none k rest = rest
          go (some sp) k rest = k

      -- The step of the limit at the end of a segment, up or down.
      abbrev step_at :
          View (Segment D) D
          → View (Segment D) D
          → D
          → LimitCurves D
          → LimitCurves D
          → Result (Option (Bool × D))
      step_at v u boundary before after =
          elim (lt before.s_dot_max_acc after.s_dot_max_acc) as (λ _. Result (Option (Bool × D))) [
            | true ↦ step_up p opt v boundary before.s_dot_max_acc
            | false ↦
                elim (lt after.s_dot_max_acc before.s_dot_max_acc)
                  as (λ _. Result (Option (Bool × D))) [
                    | true ↦ step_down p opt u boundary after.s_dot_max_acc
                    | false ↦ ok none
                  ]
          ]

      boundary-Lies :
          (v u : View (Segment D) D) (boundary : D)
          → OnPath p boundary
          → Holds (OrNone Lies) (boundary_switching_point p opt v u boundary)
      unfolding boundary_switching_point
      boundary-Lies v u boundary on =
          let R : Option (SwitchingPoint D) → Type 0 = OrNone Lies in
          Holds-any R (curves_in p opt v boundary) _ (λ before.
            Holds-any R (curves_in p opt u boundary) _ (λ after.
              Holds-bind (OrNone (λ _. Unit {0})) R (step_at v u boundary before after) _
                (Holds-all (OrNone (λ _. Unit {0})) (step_at v u boundary before after)
                  (λ step. elim step as (OrNone (λ _. Unit {0})) [ none ↦ tt | some _ ↦ tt ]))
                (λ step h.
                  elim-option (λ _. Unit {0}) (Holds R) step h tt
                    (λ r _.
                      if-both R
                        (r.0
                          && wrap_le opt.epsilon (min_of before.s_dot_max_acc after.s_dot_max_acc)
                              (min_of before.s_dot_max_vel after.s_dot_max_vel))
                        (λ _. on) (λ _. tt)))))

      unless_found-Lies :
          (rest : Unit {0} → Result (Option (Option (SwitchingPoint D))))
          (found : Option (SwitchingPoint D))
          → OrNone Lies found
          → Holds (OrNone (OrNone Lies)) (rest tt)
          → Holds (OrNone (OrNone Lies)) (unless_found rest found)
      unfolding unless_found
      unless_found-Lies rest (some sp) h k = h
      unless_found-Lies rest none h k = k

      module _ (arcs : HasArcs) (w : IsWellFormed p) (ieee : IsIeee D)
          (finite : d.is_finite p.total ≡ true) where
        extremal-Lies :
            (cursor : Cursor D) (current : View (Segment D) D)
            → OnPath p cursor.position
            → OnPath p current.stop
            → hint_view p cursor ≡ ok current
            → Holds (OrNone Lies) (extremal_switching_point p opt cursor current)
        unfolding extremal_switching_point
        extremal-Lies cursor current on inside e = go current.of_segment refl
          where
            go :
                (seg : Segment D)
                → current.of_segment ≡ seg
                → Holds (OrNone Lies) (extremal_switching_point p opt cursor current)
            go (linear l) same = rw (same, extremal_switching_point) tt
            go (circular arc) same =
                let here = viewed cursor current e in
                let stops = arcs.stop cursor.hint current arc here same in
                rw (same, extremal_switching_point)
                  (first_extremum-Lies cursor current
                    (extrema current.start arc cursor.position arc.x arc.y) on inside
                    (subst
                      (λ t.
                        All (IsCandidate cursor.position t)
                          (extrema current.start arc cursor.position arc.x arc.y))
                      (sym stops)
                      (extrema-All current.start cursor.position arc arc.x arc.y
                        (arcs.radius cursor.hint current arc here same))))

        acceleration_from-Lies :
            (n : ℕ) (hint : D) (c : Cursor D)
            → Walks p c
            → Holds (OrNone (OrNone Lies)) (acceleration_from p opt n hint c)
        unfolding acceleration_from
        acceleration_from-Lies zero hint c k = tt
        acceleration_from-Lies (suc n) hint c k =
            let R : Option (Option (SwitchingPoint D)) → Type 0 = OrNone (OrNone Lies) in
            Holds-known R (hint_view p c) _ (λ v e.
              let (beyond, inside) =
                Holds-at _ (hint_view p c) (hint_view-Ends p w ieee rounded finite c k) e in
              let on : OnPath p v.stop =
                (le_trans d.nought c.position v.stop k.on_path.0 beyond, inside) in
              let moved = seek p c v.stop in
              Holds-bind (OrNone Lies) R (extremal_switching_point p opt c v) _
                (extremal-Lies c v k.on_path on e)
                (λ extremal h.
                  unless_found-Lies
                    (λ _.
                      elim (le p.total v.stop || lt hint v.stop)
                        as (λ _. Result (Option (Option (SwitchingPoint D)))) [
                          | true ↦ ok (some none)
                          | false ↦ hint_view p moved >>= λ u.
                              boundary_switching_point p opt v u v.stop >>= λ found.
                              unless_found (λ _. acceleration_from p opt n hint moved) found
                        ])
                    extremal h
                    (elim-both (Holds R) (le p.total v.stop || lt hint v.stop) (λ _. tt)
                      (λ _. Holds-any R (hint_view p moved) _ (λ u.
                        Holds-bind (OrNone Lies) R (boundary_switching_point p opt v u v.stop) _
                          (boundary-Lies v u v.stop on)
                          (λ found g.
                            unless_found-Lies (λ _. acceleration_from p opt n hint moved) found g
                              (acceleration_from-Lies n hint moved
                                (seek-Walks p w ieee rounded finite c v.stop k.settled on))))))))

        pub find_acceleration_switching_point-Lies :
            (n : ℕ) (c : Cursor D) (hint : D)
            → Walks p c
            → Holds (OrNone (OrNone Lies)) (find_acceleration_switching_point p opt n c hint)
        unfolding find_acceleration_switching_point
        find_acceleration_switching_point-Lies n c hint k = acceleration_from-Lies n hint c k
