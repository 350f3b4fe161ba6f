-- ===== src/Trajectory.antt =====
-- src/viam/trajex/totg/trajectory.cpp: the cursor of a trajectory and its hint, an index into the
-- integration points. The cursor on the path is a parameter: where `seek` puts it is all that is
-- used of it. A hint past the end is not read through.
pub mod Search
pub mod Points
pub mod Limits
pub mod Options
pub mod Stepping
pub mod Sample
pub mod Switching
pub mod Breach
pub mod Forward
pub mod Backward
pub mod Integration
use trajex.Double.{Double, lt, le}
use trajex.Double.Sorted.{upper_bound}
use trajex.Prelude.{
  ℕ, zero, suc, ◌+◌, ◌-◌, ◌*◌, ◌/◌, ◌%◌, ◌≤◌, ◌<◌, ◌≡◌, refl, sym, ap, ◌∙◌, subst, ◌≢◌, ◌↔◌, ◌⊎◌,
  inl, inr, Bool, true, false, not, ◌&&◌, ◌||◌, Option, none, some, List, [], ◌∷◌, ◌++◌, map, arith,
  ltb, leb, ◌==◌, if◌then◌else◌, Bool-cases, Option-cases, length, get_elem?, take, drop, drop_last,
  last?, All, length-append, length-take, length-drop, take-length, last?-append_one,
  drop_last-append_one, length-drop_last, All-append, All-drop, All-take, All-last?, zero_cases,
  get_elem?-some, length-map, take-append_le, replicate, length-replicate, All-replicate,
  All-get_elem?, Error, Result, ok, err, ◌>>=◌, ◌>>◌, throw_if,
}

pub record IntegrationPoint (D : Type 0) : Type 0 where
  pub time : D
  pub s : D
  pub s_dot : D
  pub s_ddot : D

pub record Trajectory (D : Type 0) : Type 0 where
  pub points : List (IntegrationPoint D)
  pub duration : D
  -- path_.length()
  pub path_length : D

-- The class `trajectory::cursor`; `position` is where its path cursor was last sent.
pub record TimeCursor (D : Type 0) : Type 0 where
  pub time : D
  pub time_hint : ℕ
  pub position : D

module _ {D : Type 0} ⦃d : Double D⦄ where
  abbrev pub time_of_point : IntegrationPoint D → D
  time_of_point p = p.time

  -- time_hint_->time <= t, of an index that may be past the end.
  abbrev pub begun : List (IntegrationPoint D) → D → ℕ → Bool
  begun l t i = elim (get_elem? l i) [ none ↦ false | some p ↦ le p.time t ]

  -- The index is past the end, or t < time_hint_->time.
  abbrev pub not_over : List (IntegrationPoint D) → D → ℕ → Bool
  not_over l t i = elim (get_elem? l i) [ none ↦ true | some p ↦ lt t p.time ]

  -- The point is the last one that has begun by t.
  abbrev pub holds_time : List (IntegrationPoint D) → D → ℕ → Bool
  holds_time l t i = begun l t i && not_over l t (suc i)

  -- prev_hint->time <= t && t < time_hint_->time
  abbrev pub holds_before : List (IntegrationPoint D) → D → ℕ → Bool
  holds_before l t i =
      begun l t i && elim (get_elem? l (suc i)) [ none ↦ false | some p ↦ lt t p.time ]

  -- The binary search of `seek`.
  unfoldable pub locate_time : List (IntegrationPoint D) → D → ℕ
  locate_time l t = let it = upper_bound time_of_point t l in if it == 0 then 0 else it - 1

  -- The hint that `seek` sets for a time on the trajectory.
  unfoldable pub seek_hint : List (IntegrationPoint D) → D → ℕ → ℕ
  unfolding locate_time
  seek_hint l t hint =
      if holds_time l t hint
      then hint
      else if holds_time l t (suc hint)
      then suc hint
      else if not (hint == 0) && holds_before l t (hint - 1)
      then hint - 1
      else locate_time l t

  -- update_path_cursor_position_: where it sends the path cursor.
  unfoldable pub path_position : Trajectory D → D → IntegrationPoint D → D
  path_position traj t p =
      let dt = d.sub t p.time in
      let half : D = d.div d.one (d.add d.one d.one) in
      let s_interp =
        d.add (d.add p.s (d.mul p.s_dot dt)) (d.mul (d.mul (d.mul half p.s_ddot) dt) dt) in
      if lt traj.path_length s_interp then traj.path_length else s_interp

  -- trajectory::cursor::seek
  unfoldable pub seek_time : Trajectory D → TimeCursor D → D → TimeCursor D
  unfolding seek_hint path_position
  seek_time traj c t =
      if lt t d.nought
      then record c { time = d.neg d.infinity }
      else if lt traj.duration t
      then record c { time = d.infinity }
      else let hint = seek_hint traj.points t c.time_hint in
        record {
          time = t;
          time_hint = hint;
          position = elim (get_elem? traj.points hint) [
            | none ↦ c.position
            | some p ↦ path_position traj t p
          ];
        }

  -- trajectory::cursor::seek_by
  unfoldable pub seek_by : Trajectory D → TimeCursor D → D → TimeCursor D
  unfolding seek_time
  seek_by traj c dt = seek_time traj c (d.add c.time dt)

  -- *this == end()
  abbrev pub is_spent : TimeCursor D → Bool
  is_spent c = not (d.is_finite c.time)
