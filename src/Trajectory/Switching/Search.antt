-- ===== src/Trajectory/Switching/Search.antt =====
-- find_switching_point (trajectory.cpp): the next switching point of either kind, with the cache of the
-- two that were found before.
use trajex.Double.{Double, le, eq}
use trajex.Xtensor.{Xtensor}
use trajex.Path.{TotgPath, Cursor}
use trajex.Path.Segment.{Segment}
use trajex.Trajectory.Limits.{TrajectoryOptions}
use trajex.Trajectory.Switching.{
  SwitchingPoint, SwitchingCache, path_end, velocity_point, select_switching_point,
}
use trajex.Trajectory.Switching.Velocity.{find_velocity_switching_point}
use trajex.Trajectory.Switching.Acceleration.{find_acceleration_switching_point}
use trajex.Prelude.{ℕ, Option, none, some, if◌then◌else◌, Result, ok, ◌>>=◌}

module _ {D : Type 0} ⦃d : Double D⦄ where
  -- An entry of the cache that has fallen behind the cursor is dropped.
  unfoldable pub still_ahead : D → Option (SwitchingPoint D) → Option (SwitchingPoint D)
  still_ahead position none = none
  still_ahead position (some sp) = if le sp.point.s position then none else some sp

  -- The other entry bounds the search.
  unfoldable pub bound_of : D → Option (SwitchingPoint D) → D
  bound_of path_length none = path_length
  bound_of path_length (some sp) = sp.point.s

  -- What a search leaves in the cache: if it was not bounded and found nothing, the path's end.
  unfoldable pub entry_for :
      D → D → Option (Option (SwitchingPoint D)) → Option (Option (SwitchingPoint D))
  entry_for path_length bound none = none
  entry_for path_length bound (some (some sp)) = some (some sp)
  entry_for path_length bound (some none) =
      some
        (if eq bound path_length then some (velocity_point path_length d.nought path_end) else none)

  -- An entry of the cache, searched for if it is not there.
  unfoldable pub resolve :
      (D → Result (Option (Option (SwitchingPoint D))))
      → D
      → Option (SwitchingPoint D)
      → Option (SwitchingPoint D)
      → Result (Option (Option (SwitchingPoint D)))
  unfolding bound_of entry_for
  resolve search path_length (some sp) other = ok (some (some sp))
  resolve search path_length none other = do
    let bound = bound_of path_length other
    found ← search bound
    ok (entry_for path_length bound found)

  -- The selection, or the path's end.
  unfoldable pub select_or_end : D → D → SwitchingCache D → SwitchingPoint D
  unfolding select_switching_point
  select_or_end epsilon path_length cache =
      elim (select_switching_point epsilon cache.next_accel cache.next_vel) [
        | none ↦ velocity_point path_length d.nought path_end
        | some sp ↦ sp
      ]

module _ {D : Type 0} ⦃d : Double D⦄ ⦃x : Xtensor D⦄ (p : TotgPath (Segment D) D)
    (opt : TrajectoryOptions D) where
  unfoldable pub find_switching_point :
      ℕ → SwitchingCache D → Cursor D → Result (Option (SwitchingCache D × SwitchingPoint D))
  unfolding still_ahead resolve select_or_end find_acceleration_switching_point
      find_velocity_switching_point
  find_switching_point n cache cursor = do
    let cached_accel = still_ahead cursor.position cache.next_accel
    let cached_vel = still_ahead cursor.position cache.next_vel
    accel ←
        resolve (find_acceleration_switching_point p opt n cursor) p.total cached_accel cached_vel
    elim accel [
      | none ↦ ok none
      | some next_accel ↦ do
        vel ← resolve (find_velocity_switching_point p opt n cursor) p.total cached_vel next_accel
        elim vel [
          | none ↦ ok none
          | some next_vel ↦
              let found : SwitchingCache D = record {
                next_accel = next_accel;
                next_vel = next_vel;
              } in
              ok (some (found, select_or_end opt.epsilon p.total found))
        ]
    ]
