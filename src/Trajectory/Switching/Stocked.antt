-- ===== src/Trajectory/Switching/Stocked.antt =====
-- find_switching_point (trajectory.cpp) and its cache: what it finds is on the path.
use trajex.Double.{Double, lt, le, eq}
use trajex.Double.Ieee.{IsIeee, IsRounded}
use trajex.Xtensor.{Xtensor}
use trajex.Path.{TotgPath, Cursor}
use trajex.Path.Hint.{IsWellFormed}
use trajex.Path.Rich.Settled.{OnPath}
use trajex.Path.Segment.{Segment}
use trajex.Trajectory.Limits.{TrajectoryOptions, wrap_eq}
use trajex.Trajectory.Switching.{
  SwitchingPoint, SwitchingCache, select_switching_point, velocity_point, path_end,
}
use trajex.Trajectory.Switching.Velocity.{find_velocity_switching_point}
use trajex.Trajectory.Switching.Acceleration.{find_acceleration_switching_point}
use trajex.Trajectory.Switching.Search.{
  still_ahead, bound_of, entry_for, resolve, select_or_end, find_switching_point,
}
use trajex.Trajectory.Switching.Walking.{Walks}
use trajex.Trajectory.Switching.Located.{HasArcs, find_acceleration_switching_point-Lies}
use trajex.Trajectory.Switching.Found.{IsFound, search-IsFound, IsFound-OnPath}
use trajex.Prelude.{
  ℕ, ◌≡◌, true, Option, none, some, Result, Holds, Holds-bind, Holds-map, OrNone, if-both,
  OrNone-map, elim-option,
}

module _ {D : Type 0} ⦃d : Double D⦄ (p : TotgPath (Segment D) D) where
  abbrev pub Lies : SwitchingPoint D → Type 0
  Lies sp = OnPath p sp.point.s

  -- The switching points that the cache holds are on the path.
  abbrev pub IsStocked : SwitchingCache D → Type 0
  IsStocked cache = OrNone Lies cache.next_accel × OrNone Lies cache.next_vel

  still_ahead-Lies :
      (position : D) (o : Option (SwitchingPoint D))
      → OrNone Lies o
      → OrNone Lies (still_ahead position o)
  unfolding still_ahead
  still_ahead-Lies position none h = tt
  still_ahead-Lies position (some sp) h =
      if-both (OrNone Lies) (le sp.point.s position) (λ _. tt) (λ _. h)

  select-Lies :
      (epsilon : D) (a b : Option (SwitchingPoint D))
      → OrNone Lies a
      → OrNone Lies b
      → OrNone Lies (select_switching_point epsilon a b)
  unfolding select_switching_point
  select-Lies epsilon none b h k = k
  select-Lies epsilon (some a) none h k = h
  select-Lies epsilon (some a) (some b) h k =
      if-both (OrNone Lies) (wrap_eq epsilon a.point.s b.point.s)
        (λ _. if-both (OrNone Lies) (lt a.point.s_dot b.point.s_dot) (λ _. h) (λ _. k))
        (λ _. if-both (OrNone Lies) (lt a.point.s b.point.s) (λ _. h) (λ _. k))

  module _ (end_on : OnPath p p.total) where
    entry_for-Lies :
        (bound : D) (found : Option (Option (SwitchingPoint D)))
        → OrNone (OrNone Lies) found
        → OrNone (OrNone Lies) (entry_for p.total bound found)
    unfolding entry_for
    entry_for-Lies bound none h = tt
    entry_for-Lies bound (some (some sp)) h = h
    entry_for-Lies bound (some none) h =
        if-both (OrNone Lies) (eq bound p.total) (λ _. end_on) (λ _. tt)

    resolve-Lies :
        (search : D → Result (Option (Option (SwitchingPoint D)))) (a b : Option (SwitchingPoint D))
        → ((bound : D) → Holds (OrNone (OrNone Lies)) (search bound))
        → OrNone Lies a
        → Holds (OrNone (OrNone Lies)) (resolve search p.total a b)
    unfolding resolve
    resolve-Lies search (some sp) b h k = k
    resolve-Lies search none b h k =
        Holds-bind (OrNone (OrNone Lies)) (OrNone (OrNone Lies)) (search (bound_of p.total b)) _
          (h (bound_of p.total b)) (λ found g. entry_for-Lies (bound_of p.total b) found g)

    select_or_end-Lies :
        (epsilon : D) (cache : SwitchingCache D)
        → IsStocked cache
        → Lies (select_or_end epsilon p.total cache)
    unfolding select_or_end
    select_or_end-Lies epsilon cache (h, k) =
        go (select_switching_point epsilon cache.next_accel cache.next_vel)
          (select-Lies epsilon cache.next_accel cache.next_vel h k)
      where
        go :
            (o : Option (SwitchingPoint D))
            → OrNone Lies o
            → Lies (elim o as (λ _. SwitchingPoint D) [
              | none ↦ velocity_point p.total d.nought path_end
              | some sp ↦ sp
            ])
        go none g = end_on
        go (some sp) g = g

    module _ ⦃x : Xtensor D⦄ (opt : TrajectoryOptions D) (w : IsWellFormed p) (ieee : IsIeee D)
        (rounded : IsRounded D) (finite : d.is_finite p.total ≡ true) (arcs : HasArcs p) where
      velocity-Lies :
          (n : ℕ) (c : Cursor D) (bound : D)
          → Walks p c
          → Holds (OrNone (OrNone Lies)) (find_velocity_switching_point p opt n c bound)
      velocity-Lies n c bound k =
          Holds-map (OrNone (OrNone (IsFound p opt c))) (OrNone (OrNone Lies))
            (find_velocity_switching_point p opt n c bound)
            (search-IsFound p opt w ieee rounded finite n c bound k)
            (λ o h. OrNone-map (OrNone (IsFound p opt c)) (OrNone Lies) o h (λ o' h'.
              OrNone-map (IsFound p opt c) Lies o' h'
                (λ sp f. IsFound-OnPath p opt w ieee rounded finite c sp f)))

      pub find_switching_point-IsStocked :
          (n : ℕ) (cache : SwitchingCache D) (c : Cursor D)
          → IsStocked cache
          → Walks p c
          → Holds (OrNone (λ r. IsStocked r.0 × Lies r.1)) (find_switching_point p opt n cache c)
      unfolding find_switching_point
      find_switching_point-IsStocked n cache c (h, h') k =
          let R : Option (SwitchingCache D × SwitchingPoint D) → Type 0 =
            OrNone (λ r. IsStocked r.0 × Lies r.1) in
          let accel = still_ahead c.position cache.next_accel in
          let vel = still_ahead c.position cache.next_vel in
          Holds-bind (OrNone (OrNone Lies)) R
            (resolve (find_acceleration_switching_point p opt n c) p.total accel vel) _
            (resolve-Lies (find_acceleration_switching_point p opt n c) accel vel
              (λ bound.
                find_acceleration_switching_point-Lies p rounded opt arcs w ieee finite n c bound k)
              (still_ahead-Lies c.position cache.next_accel h))
            (λ found g. elim-option (OrNone Lies) (Holds R) found g tt (λ next_accel a.
              Holds-bind (OrNone (OrNone Lies)) R
                (resolve (find_velocity_switching_point p opt n c) p.total vel next_accel) _
                (resolve-Lies (find_velocity_switching_point p opt n c) vel next_accel
                  (λ bound. velocity-Lies n c bound k)
                  (still_ahead-Lies c.position cache.next_vel h'))
                (λ found' g'. elim-option (OrNone Lies) (Holds R) found' g' tt (λ next_vel v. (
                  (a, v),
                  select_or_end-Lies opt.epsilon
                      (record { next_accel = next_accel; next_vel = next_vel }) (a, v),
                )))))
