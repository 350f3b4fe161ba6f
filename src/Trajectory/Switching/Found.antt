-- ===== src/Trajectory/Switching/Found.antt =====
-- What find_velocity_switching_point (trajectory.cpp) returns: a boundary of segments, or an escape.
use trajex.Double.{min_of, Double, lt}
use trajex.Double.Ieee.{IsIeee}
use trajex.Xtensor.{Xtensor}
use trajex.Path.{TotgPath, View, Cursor, seek}
use trajex.Path.Rich.{hint_view}
use trajex.Path.Hint.{IsWellFormed}
use trajex.Path.Segment.{curvature_of, tangent_of, Segment}
use trajex.Trajectory.Limits.{compute_limit_curves, wrap_gt, TrajectoryOptions, wrap_eq}
use trajex.Trajectory.Switching.{
  is_broken, wrap_ge, wrap_le, SwitchingPoint, discontinuous_velocity_limit, select_switching_point,
}
use trajex.Trajectory.Switching.Velocity.{
  both_conditions, path_configuration, find_discontinuous_velocity_switching_point, bound_by,
  search_below, find_velocity_switching_point, boundary_from, select_or_none, try_boundary,
  judge_boundary, unless_found, in_search, escape_from, find_continuous_velocity_switching_point,
}
use trajex.Prelude.{
  ℕ, zero, suc, ◌≡◌, refl, ap, ◌∙◌, subst, ◌⊎◌, inl, inr, Bool, true, false, ◌&&◌, ◌||◌, Option,
  none, some, List, arith, Result, ok, Holds, Holds-bind, Holds-map, Holds-at, OrNone, if-both,
  elim-both, Holds-known, OrNone-map,
}
use trajex.Path.Rich.Settled.{OnPath, IsSettled}
use trajex.Trajectory.Limits.{LimitCurves}
use trajex.Double.Ieee.{IsRounded}
use trajex.Trajectory.Switching.Walking.{Walks, hint_view-Ends, seek-Walks}
use trajex.Trajectory.Integration.Bisecting.{le_trans}
use trajex.Trajectory.Switching.Escape.{Accepted, escape_from-Accepted}

both_left : (a b : Bool) → (a && b) ≡ true → a ≡ true
both_left a b h = ground arith

both_right : (a b : Bool) → (a && b) ≡ true → b ≡ true
both_right a b h = ground arith

module _ {D : Type 0} ⦃d : Double D⦄ ⦃x : Xtensor D⦄ (p : TotgPath (Segment D) D)
    (opt : TrajectoryOptions D) where
  -- The tangents, curvatures and limits on both sides of a boundary `s` of the segments `v` and `u`.
  pub record Sides (v u : View (Segment D) D) (s : D) : Type 0 where
    pub tangent_before : List D
    pub tangent_after : List D
    pub curvature_before : List D
    pub curvature_after : List D
    pub at : List D
    pub before : LimitCurves D
    pub after : LimitCurves D
    pub tangents : (tangent_of v s ≡ ok tangent_before) × (tangent_of u s ≡ ok tangent_after)
    pub curvatures :
        (curvature_of v s ≡ ok curvature_before) × (curvature_of u s ≡ ok curvature_after)
    pub configured : path_configuration p opt s ≡ ok at
    pub limits :
        (compute_limit_curves at tangent_before curvature_before opt ≡ ok before)
        × (compute_limit_curves at tangent_after curvature_after opt ≡ ok after)

  -- The lower of the two velocity limits there, which are below the acceleration limits, fulfils
  -- conditions 41 and 42 and is not above the lower acceleration limit.
  pub record IsJudged (v u : View (Segment D) D) (s s_dot : D) : Type 0 where
    pub sides : Sides v u s
    pub lower : s_dot ≡ min_of sides.before.s_dot_max_vel sides.after.s_dot_max_vel
    pub velocity_limited :
        (wrap_le opt.epsilon sides.before.s_dot_max_acc sides.before.s_dot_max_vel ≡ false)
        × (wrap_le opt.epsilon sides.after.s_dot_max_acc sides.after.s_dot_max_vel ≡ false)
    pub conditions :
        both_conditions p opt sides.tangent_before sides.curvature_before sides.before
          sides.tangent_after sides.curvature_after sides.after
        ≡ ok true
    pub reachable :
        wrap_ge opt.epsilon (min_of sides.before.s_dot_max_acc sides.after.s_dot_max_acc) s_dot
        ≡ true

  -- A corner, whose tangents do not meet: the trajectory stops there.
  pub record IsCorner (v u : View (Segment D) D) (s s_dot : D) : Type 0 where
    pub tangent_before : List D
    pub tangent_after : List D
    pub tangents : (tangent_of v s ≡ ok tangent_before) × (tangent_of u s ≡ ok tangent_after)
    pub broken : is_broken opt.epsilon tangent_before tangent_after ≡ true
    pub stops : s_dot ≡ d.nought

  -- At a boundary of the segments `v` and `u`.
  abbrev pub IsSwitch : View (Segment D) D → View (Segment D) D → SwitchingPoint D → Type 0
  IsSwitch v u sp =
      (sp.kind ≡ discontinuous_velocity_limit)
      × (v.stop ≡ sp.point.s)
      × (IsCorner v u sp.point.s sp.point.s_dot ⊎ IsJudged v u sp.point.s sp.point.s_dot)

  -- A switching point where the segment of some cursor on the path ends, on the path.
  pub record AtBoundary (sp : SwitchingPoint D) : Type 0 where
    pub walker : Cursor D
    pub current : View (Segment D) D
    pub behind : View (Segment D) D
    pub walks : Walks p walker
    pub ends : hint_view p walker ≡ ok current
    pub begins : hint_view p (seek p walker sp.point.s) ≡ ok behind
    pub on_path : OnPath p sp.point.s
    pub switch : IsSwitch current behind sp

  -- What the search may find.
  abbrev pub IsFound : Cursor D → SwitchingPoint D → Type 0
  IsFound c sp = AtBoundary sp ⊎ Accepted p opt c sp

  judge_boundary-IsSwitch :
      (v u : View (Segment D) D) (before after : List D)
      → tangent_of v v.stop ≡ ok before
      → tangent_of u v.stop ≡ ok after
      → Holds (OrNone (IsSwitch v u)) (judge_boundary p opt v.stop v u before after)
  unfolding judge_boundary
  judge_boundary-IsSwitch v u before after h k =
      let R : Option (SwitchingPoint D) → Type 0 = OrNone (IsSwitch v u) in
      let boundary = v.stop in
      Holds-known R (curvature_of v boundary) _ (λ k_before e1.
        Holds-known R (curvature_of u boundary) _ (λ k_after e2.
          Holds-known R (path_configuration p opt boundary) _ (λ q e3.
            Holds-known R (compute_limit_curves q before k_before opt) _ (λ at_before e4.
              Holds-known R (compute_limit_curves q after k_after opt) _ (λ at_after e5.
                elim-both (Holds R)
                  (wrap_le opt.epsilon at_before.s_dot_max_acc at_before.s_dot_max_vel
                    || wrap_le opt.epsilon at_after.s_dot_max_acc at_after.s_dot_max_vel)
                  (λ _. tt)
                  (λ limited.
                    Holds-known R
                      (both_conditions p opt before k_before at_before after k_after at_after) _
                      (λ valid e6.
                        if-both R
                          (valid
                            && wrap_ge opt.epsilon
                                (min_of at_before.s_dot_max_acc at_after.s_dot_max_acc)
                                (min_of at_before.s_dot_max_vel at_after.s_dot_max_vel))
                          (λ good. (
                            refl,
                            refl,
                            inr (record {
                              sides = record {
                                tangent_before = before;
                                tangent_after = after;
                                curvature_before = k_before;
                                curvature_after = k_after;
                                at = q;
                                before = at_before;
                                after = at_after;
                                tangents = (h, k);
                                curvatures = (e1, e2);
                                configured = e3;
                                limits = (e4, e5);
                              };
                              lower = refl;
                              velocity_limited = (ground arith, ground arith);
                              conditions = e6 ∙ ap ok (both_left valid _ good);
                              reachable = both_right valid _ good;
                            }),
                          ))
                          (λ _. tt))))))))

  try_boundary-IsSwitch :
      (v : View (Segment D) D) (c : Cursor D)
      → Holds
          (OrNone (λ sp. (u : View (Segment D) D) × (hint_view p c ≡ ok u) × IsSwitch v u sp))
          (try_boundary p opt v.stop v c)
  unfolding try_boundary
  try_boundary-IsSwitch v c =
      let R : Option (SwitchingPoint D) → Type 0 =
        OrNone (λ sp. (u : View (Segment D) D) × (hint_view p c ≡ ok u) × IsSwitch v u sp) in
      Holds-known R (tangent_of v v.stop) _ (λ before e1. Holds-known R (hint_view p c) _ (λ u e2.
        Holds-known R (tangent_of u v.stop) _ (λ after e3.
          elim-both (Holds R) (is_broken opt.epsilon before after)
            (λ broken. (
              u,
              e2,
              (
                refl,
                refl,
                inl (record {
                  tangent_before = before;
                  tangent_after = after;
                  tangents = (e1, e3);
                  broken = broken;
                  stops = refl;
                }),
              ),
            ))
            (λ _.
              Holds-map (OrNone (IsSwitch v u)) R (judge_boundary p opt v.stop v u before after)
                (judge_boundary-IsSwitch v u before after e1 e3)
                (λ o h. OrNone-map (IsSwitch v u) _ o h (λ sp k. (u, e2, k)))))))

  boundary_found :
      (rest : Unit {0} → Result (Option (Option (SwitchingPoint D))))
      (found : Option (SwitchingPoint D))
      → OrNone AtBoundary found
      → Holds (OrNone (OrNone AtBoundary)) (rest tt)
      → Holds (OrNone (OrNone AtBoundary)) (unless_found rest found)
  unfolding unless_found
  boundary_found rest (some sp) h k = h
  boundary_found rest none h k = k

  select-IsFound :
      (c : Cursor D) (sp1 sp2 : Option (SwitchingPoint D))
      → OrNone AtBoundary sp1
      → OrNone (Accepted p opt c) sp2
      → OrNone (IsFound c) (select_switching_point opt.epsilon sp1 sp2)
  unfolding select_switching_point
  select-IsFound c none none h k = tt
  select-IsFound c none (some b) h k = inr k
  select-IsFound c (some a) none h k = inl h
  select-IsFound c (some a) (some b) h k =
      if-both (OrNone (IsFound c)) (wrap_eq opt.epsilon a.point.s b.point.s)
        (λ _.
          if-both (OrNone (IsFound c)) (lt a.point.s_dot b.point.s_dot) (λ _. inl h) (λ _. inr k))
        (λ _. if-both (OrNone (IsFound c)) (lt a.point.s b.point.s) (λ _. inl h) (λ _. inr k))

  selected-IsFound :
      (c : Cursor D) (sp1 : Option (SwitchingPoint D)) (sp2 : Option (Option (SwitchingPoint D)))
      → OrNone AtBoundary sp1
      → OrNone (OrNone (Accepted p opt c)) sp2
      → OrNone (OrNone (IsFound c)) (select_or_none p opt sp1 sp2)
  unfolding select_or_none
  selected-IsFound c sp1 none h k = tt
  selected-IsFound c sp1 (some sp2) h k = select-IsFound c sp1 sp2 h k

  module _ (w : IsWellFormed p) (ieee : IsIeee D) (rounded : IsRounded D)
      (finite : d.is_finite p.total ≡ true) where
    bounded_by :
        (c : Cursor D) (v : View (Segment D) D) → Walks p c → hint_view p c ≡ ok v → OnPath p v.stop
    bounded_by c v k e =
        let (beyond, inside) =
          Holds-at _ (hint_view p c) (hint_view-Ends p w ieee rounded finite c k) e in
        (le_trans d.nought c.position v.stop k.on_path.0 beyond, inside)

    boundary_at :
        (c : Cursor D) (v u : View (Segment D) D) (sp : SwitchingPoint D)
        → Walks p c
        → hint_view p c ≡ ok v
        → hint_view p (seek p c v.stop) ≡ ok u
        → IsSwitch v u sp
        → AtBoundary sp
    boundary_at c v u sp k e e' (kind, stop, velocity) = record {
      walker = c;
      current = v;
      behind = u;
      walks = k;
      ends = e;
      begins = subst (λ s. hint_view p (seek p c s) ≡ ok u) stop e';
      on_path = subst (OnPath p) stop (bounded_by c v k e);
      switch = (kind, stop, velocity);
    }

    boundary_from-AtBoundary :
        (n : ℕ) (from hint : D) (c : Cursor D) (last : D)
        → Walks p c
        → Holds (OrNone (OrNone AtBoundary)) (boundary_from p opt n from hint c last)
    unfolding boundary_from
    boundary_from-AtBoundary zero from hint c last k = tt
    boundary_from-AtBoundary (suc n) from hint c last k =
        let R : Option (Option (SwitchingPoint D)) → Type 0 = OrNone (OrNone AtBoundary) in
        elim-both (Holds R) (in_search p opt c.position hint)
          (λ _. Holds-known R (hint_view p c) _ (λ v e.
            let moved = seek p c v.stop in
            let there =
              seek-Walks p w ieee rounded finite c v.stop k.settled (bounded_by c v k e) in
            elim-both (Holds R)
              (wrap_le opt.epsilon v.stop last
                || wrap_ge opt.epsilon v.stop p.total
                || wrap_gt opt.epsilon v.stop hint)
              (λ _. tt)
              (λ _.
                elim-both (Holds R) (wrap_le opt.epsilon v.stop from)
                  (λ _. boundary_from-AtBoundary n from hint moved last there)
                  (λ _.
                    Holds-bind (OrNone AtBoundary) R (try_boundary p opt v.stop v moved) _
                      (Holds-map _ (OrNone AtBoundary) (try_boundary p opt v.stop v moved)
                        (try_boundary-IsSwitch v moved)
                        (λ o h.
                          OrNone-map _ AtBoundary o h
                            (λ sp (u, e', q). boundary_at c v u sp k e e' q)))
                      (λ found h.
                        boundary_found (λ _. boundary_from p opt n from hint moved v.stop) found h
                          (boundary_from-AtBoundary n from hint moved v.stop there))))))
          (λ _. tt)

    search_below-IsFound :
        (n : ℕ) (c : Cursor D) (hint : D) (found : Option (Option (SwitchingPoint D)))
        → IsSettled p c
        → OrNone (OrNone AtBoundary) found
        → Holds (OrNone (OrNone (IsFound c))) (search_below p opt n c hint found)
    unfolding search_below find_continuous_velocity_switching_point
    search_below-IsFound n c hint none settled h = tt
    search_below-IsFound n c hint (some sp1) settled h =
        Holds-bind (OrNone (OrNone (Accepted p opt c))) (OrNone (OrNone (IsFound c)))
          (escape_from p opt n n c (bound_by p opt sp1 hint) c.position) _
          (escape_from-Accepted p opt ieee w n n c (bound_by p opt sp1 hint) c.position settled)
          (λ sp2 k. selected-IsFound c sp1 sp2 h k)

    pub search-IsFound :
        (n : ℕ) (c : Cursor D) (hint : D)
        → Walks p c
        → Holds (OrNone (OrNone (IsFound c))) (find_velocity_switching_point p opt n c hint)
    unfolding find_velocity_switching_point find_discontinuous_velocity_switching_point
    search-IsFound n c hint k =
        Holds-bind (OrNone (OrNone AtBoundary)) (OrNone (OrNone (IsFound c)))
          (boundary_from p opt n c.position hint c (d.neg d.infinity)) _
          (boundary_from-AtBoundary n c.position hint c (d.neg d.infinity) k)
          (λ found h. search_below-IsFound n c hint found k.settled h)

    pub IsFound-OnPath : (c : Cursor D) (sp : SwitchingPoint D) → IsFound c sp → OnPath p sp.point.s
    IsFound-OnPath c sp (inl h) = h.on_path
    IsFound-OnPath c sp (inr ((kind, h), below)) = h.on_path
