-- ===== src/Trajectory/Integration/Advancing.antt =====
-- The forward integration (trajectory.cpp, integrate_forward_from) and the order of the points along
-- the path.
use trajex.Double.{Double, lt, le, eq, two}
use trajex.Double.Ieee.{IsIeee, IsRounded}
use trajex.Double.Sorted.{IsIncreasing-IsNumber}
use trajex.Xtensor.{Xtensor}
use trajex.Path.{TotgPath, View, Cursor, seek, stop_at, view_at, locate, start_of}
use trajex.Path.Hint.{IsWellFormed, IsOnPath, locate-found}
use trajex.Path.Rich.{hint_view}
use trajex.Path.Rich.Settled.{OnPath, IsSettled, seek-position, seek-IsSettled}
use trajex.Path.Segment.{Segment}
use trajex.Trajectory.Limits.{
  wrap_eq, TrajectoryOptions, PhasePoint, LimitCurves, AccelerationBounds,
}
use trajex.Trajectory.Stepping.{euler_step}
use trajex.Trajectory.Switching.{SwitchingPoint, limit_curves_at, wrap_ge}
use trajex.Trajectory.Breach.{LimitHit, Checked, check_next, is_corner}
use trajex.Trajectory.Forward.{
  left_behind, to_clamped, ForwardState, ForwardOutcome, advanced, stopped, quantize_forward,
  follow, followed, stalled, arrived, commit, commit_checked, choose_forward, forward_pass,
}
use trajex.Trajectory.Integration.Receding.{Ahead, IsRising}
use trajex.Trajectory.Integration.Bisecting.{le_trans, IsChecked, check_limits-IsChecked}
use trajex.Prelude.{
  ℕ, suc, ◌<◌, ◌≡◌, refl, sym, ap, ◌∙◌, subst, inl, inr, true, false, ◌&&◌, Option, none, some,
  arith, Bool-cases, Option-cases, length, get_elem?, throw_if, Holds, Holds-bind, Holds-throw_if,
  Holds-then, OrNone, Holds-some, if-both, elim-both, Holds-any, forward_not_increasing,
}

module _ {D : Type 0} ⦃d : Double D⦄ (p : TotgPath (Segment D) D) where
  -- The points rise to the current one, which is on the path.
  pub record IsAdvancing (st : ForwardState D) : Type 0 where
    pub rising : IsRising st.points
    pub ahead : Ahead st.current.s st.points
    pub on_path : OnPath p st.current.s
    pub settled : IsSettled p st.cursor

  -- The switching point it stopped at, or else the cursor, is on the path.
  abbrev pub StopsOnPath : Cursor D → Option (SwitchingPoint D) → Type 0
  StopsOnPath c none = OnPath p c.position
  StopsOnPath c (some sp) = OnPath p sp.point.s

  -- After a pass: the same, or a stop whose points rise, at a place on the path.
  abbrev pub Advances : ForwardOutcome D → Type 0
  Advances (advanced st) = IsAdvancing st
  Advances (stopped l c to) = IsRising l × (IsSettled p c × StopsOnPath c to)

  module _ (w : IsWellFormed p) (ieee : IsIeee D) (rounded : IsRounded D)
      (finite : d.is_finite p.total ≡ true) where
    on-IsOnPath : (s : D) → OnPath p s → IsOnPath p s
    on-IsOnPath s (a, b) = record {
      number = ground arith;
      from_zero = ground arith;
      to_total = ground arith;
    }

    pub on-finite : (s : D) → OnPath p s → d.is_finite s ≡ true
    on-finite s (a, b) = rounded.finite_below s p.total finite a b

    -- Progress that is not zero is progress.
    moved-above :
        (s next : D)
        → OnPath p s
        → le s next ≡ true
        → le next p.total ≡ true
        → eq (d.sub next s) d.nought ≡ false
        → le next s ≡ false
    moved-above s next on above inside moved = elim (Bool-cases (le next s)) [
      | inr above_it ↦ above_it
      | inl at_or_below ↦
          let (zero_start, _) = on in
          let same : eq next s ≡ true = ground arith in
          let next_finite = on-finite next (le_trans d.nought s next zero_start above, inside) in
          absurd (cc (moved, rounded.sub_equal next s next_finite same))
    ]

    -- A segment found on the path ends there, not before the position.
    stop_at-beyond :
        (s : D) (i : ℕ)
        → OnPath p s
        → i ≡ locate p s
        → 0 < length p.segments
        → (le s (stop_at p i) ≡ true) × (le (stop_at p i) p.total ≡ true)
    stop_at-beyond s i on e filled =
        let path = on-IsOnPath s on in
        let (seg, found, below, next) = locate-found p w s path filled in
        elim (Option-cases (get_elem? p.segments (suc i))) [
          | inl last ↦ rw (last, stop_at) (ground (arith, w.total_number))
          | inr (b, g) ↦
              let above = next b (subst (λ k. get_elem? p.segments (suc k) ≡ some b) e g) in
              let number = IsIncreasing-IsNumber start_of p.segments (suc i) w.increasing g in
              rw (g, stop_at) (ground (arith, w.total_number, w.bounded (suc i) b g, path.number))
        ]

    abbrev pub EndsBeyond : D → View (Segment D) D → Type 0
    EndsBeyond s v = (le s v.stop ≡ true) × (le v.stop p.total ≡ true)

    pub hint_view-EndsBeyond :
        (s : D) (c : Cursor D)
        → OnPath p s
        → c.hint ≡ locate p s
        → 0 < length p.segments
        → Holds (EndsBeyond s) (hint_view p c)
    unfolding hint_view view_at
    hint_view-EndsBeyond s c on e filled = elim (Option-cases (get_elem? p.segments c.hint)) [
      | inl none_there ↦ rw (none_there, hint_view) tt
      | inr (seg, g) ↦ rw (g, hint_view) (stop_at-beyond s c.hint on e filled)
    ]

    settled_at : (c : Cursor D) (t : D) → IsSettled p c → IsSettled p (seek p c t)
    settled_at c t h = seek-IsSettled p w ieee c t h

    sought_on : (c : Cursor D) (s : D) → OnPath p s → OnPath p (seek p c s).position
    sought_on c s (from_zero, to_total) =
        let at_s : (seek p c s).position ≡ s = seek-position p c s (ground arith) (ground arith) in
        rw at_s (from_zero, to_total)

    -- The segment under the cursor, once it is sent to a place on the path.
    pub seek-EndsBeyond :
        (s : D) (c : Cursor D)
        → OnPath p s
        → IsSettled p c
        → Holds (EndsBeyond s) (hint_view p (seek p c s))
    seek-EndsBeyond s c on h =
        let k = settled_at c s h in
        let at_s : (seek p c s).position ≡ s = seek-position p c s (ground arith) (ground arith) in
        let hint = k.settled (subst (λ t. d.is_finite t ≡ true) (sym at_s) (on-finite s on)) in
        hint_view-EndsBeyond s (seek p c s) on (hint ∙ ap (locate p) at_s) (omega (arith, k.inside))

    abbrev Reaches : D → PhasePoint D → Type 0
    Reaches s next = (le s next.s ≡ true) × (le next.s p.total ≡ true)

    module _ (opt : TrajectoryOptions D)
        (tolerant : le d.nought (d.mul opt.epsilon two) ≡ true) where
      quantize_forward-Reaches :
          (segment : View (Segment D) D) (current next : PhasePoint D)
          → OnPath p current.s
          → EndsBeyond current.s segment
          → le next.s current.s ≡ false
          → Reaches current.s (quantize_forward opt.epsilon segment current next)
      unfolding quantize_forward
      quantize_forward-Reaches segment current next on (beyond, inside) moves =
          if-both (Reaches current.s) (wrap_ge (d.mul opt.epsilon two) next.s segment.stop)
            (λ _. (beyond, inside))
            (λ short.
              let (zero_start, _) = on in
              let stop_finite =
                on-finite segment.stop
                  (le_trans d.nought current.s segment.stop zero_start beyond, inside) in
              let below : lt (d.sub next.s segment.stop) (d.neg (d.mul opt.epsilon two)) ≡ true =
                ground arith in
              let short_of =
                rounded.sub_below next.s segment.stop (d.mul opt.epsilon two) stop_finite tolerant
                  below in
              (ground arith, ground arith))

      followed-Reaches :
          (current next : PhasePoint D) (bounds : Option (AccelerationBounds D)) (limit s : D)
          → Reaches s next
          → Reaches s (followed opt.epsilon current next bounds limit)
      unfolding followed follow
      followed-Reaches current next none limit s h = h
      followed-Reaches current next (some bounds) limit s h =
          if-both (Reaches s) (wrap_eq opt.epsilon next.s_dot limit) (λ _. h)
            (λ _.
              if-both (Reaches s)
                (le bounds.s_ddot_min (to_clamped current next limit)
                  && le (to_clamped current next limit) bounds.s_ddot_max)
                (λ _. h) (λ _. h))

      left_behind-IsRising :
          (st : ForwardState D) (next : PhasePoint D)
          → IsAdvancing st
          → IsRising (left_behind p opt st next)
      left_behind-IsRising st next h = (h.ahead, h.rising)

      stalled-Advances :
          (st : ForwardState D) (c : Cursor D) (hit : Option (LimitHit D))
          → IsAdvancing st
          → IsSettled p c
          → Holds Advances (stalled p opt st c hit)
      unfolding stalled
      stalled-Advances st c none h k = tt
      stalled-Advances st c (some hit) h k =
          ((h.ahead, h.rising), (settled_at c st.current.s k, sought_on c st.current.s h.on_path))

      arrived-Advances :
          (st : ForwardState D) (probed : D × LimitCurves D) (c : Cursor D) (next : PhasePoint D)
          (hit : Option (LimitHit D))
          → IsAdvancing st
          → IsSettled p c
          → le next.s st.current.s ≡ false
          → OnPath p next.s
          → OrNone (λ hit. OnPath p hit.breach.s) hit
          → Holds Advances (arrived p opt st probed c next hit)
      unfolding arrived
      arrived-Advances st probed c next (some hit) h k above on breached =
          if-both Advances (eq hit.s_dot_max_vel d.nought)
            (λ _. ((above, left_behind-IsRising st next h), (k, breached)))
            (λ _. (
              (above, left_behind-IsRising st next h),
              (settled_at c next.s k, sought_on c next.s on),
            ))
      arrived-Advances st probed c next none h k above on breached =
          elim-both (Holds Advances) (eq next.s p.total)
            (λ _. ((above, left_behind-IsRising st next h), (settled_at c next.s k, on)))
            (λ _.
              Holds-then Advances (throw_if (le next.s st.current.s) forward_not_increasing) _
                (record {
                  rising = left_behind-IsRising st next h;
                  ahead = above;
                  on_path = on;
                  settled = k;
                }))

      commit-Advances :
          (st : ForwardState D) (probed : D × LimitCurves D) (c : Checked D)
          → IsAdvancing st
          → IsChecked p st.current.s c
          → Holds Advances (commit p opt st probed c)
      unfolding commit
      commit-Advances st probed c h k =
          let (zero_start, _) = h.on_path in
          elim-both (Holds Advances) (eq (d.sub c.next.s st.current.s) d.nought)
            (λ _. stalled-Advances st c.cursor c.hit h k.settled)
            (λ moved.
              arrived-Advances st probed c.cursor c.next c.hit h k.settled
                (moved-above st.current.s c.next.s h.on_path k.onward k.inside moved)
                (le_trans d.nought st.current.s c.next.s zero_start k.onward, k.inside) k.breached)

      commit_checked-Advances :
          (st : ForwardState D) (probed : D × LimitCurves D) (c : Option (Checked D))
          → IsAdvancing st
          → OrNone (IsChecked p st.current.s) c
          → Holds (OrNone Advances) (commit_checked p opt st probed c)
      unfolding commit_checked
      commit_checked-Advances st probed none h k = tt
      commit_checked-Advances st probed (some c) h k =
          Holds-some Advances (commit p opt st probed c) (commit-Advances st probed c h k)

      module _ ⦃x : Xtensor D⦄ where
        check_next-IsChecked :
            (n : ℕ) (current next : PhasePoint D) (segment : View (Segment D) D)
            (curves : LimitCurves D) (cursor : Cursor D)
            → OnPath p current.s
            → Reaches current.s next
            → IsSettled p cursor
            → Holds
                (OrNone (IsChecked p current.s))
                (check_next p opt n current segment next curves cursor)
        unfolding check_next
        check_next-IsChecked n current next segment curves cursor on (above, inside) k =
            let (zero_start, _) = on in
            Holds-any (OrNone (IsChecked p current.s)) (hint_view p cursor) _ (λ next_segment.
              Holds-any (OrNone (IsChecked p current.s)) (is_corner p opt segment next_segment) _
                (λ corner.
                  elim-both (Holds (OrNone (IsChecked p current.s))) corner
                    (λ _. record {
                      onward = above;
                      inside = inside;
                      settled = k;
                      breached = (le_trans d.nought current.s next.s zero_start above, inside);
                    })
                    (λ _.
                      check_limits-IsChecked p w ieee rounded opt current.s on n current next
                        segment curves cursor refl above inside k)))

        pub forward_pass-Advances :
            (n : ℕ) (st : ForwardState D)
            → IsAdvancing st
            → Holds (OrNone Advances) (forward_pass p opt n st)
        unfolding forward_pass
        forward_pass-Advances n st h =
            let c = seek p st.cursor st.current.s in
            let k = settled_at st.cursor st.current.s h.settled in
            Holds-bind (EndsBeyond st.current.s) (OrNone Advances) (hint_view p c) _
              (seek-EndsBeyond st.current.s st.cursor h.on_path h.settled)
              (λ segment beyond.
                Holds-any (OrNone Advances) (choose_forward p opt st c) _ (λ (s_ddot, following).
                  Holds-any (OrNone Advances) (euler_step st.current s_ddot opt.delta opt.epsilon) _
                    (λ stepped_to.
                      Holds-throw_if (OrNone Advances) (le stepped_to.s st.current.s)
                        forward_not_increasing _
                        (λ moves.
                          let landed = quantize_forward opt.epsilon segment st.current stepped_to in
                          let reaches =
                            quantize_forward-Reaches segment st.current stepped_to h.on_path beyond
                              moves in
                          let c_next = seek p c landed.s in
                          Holds-any (OrNone Advances) (limit_curves_at p opt c_next) _ (λ curves.
                            let next =
                              followed opt.epsilon st.current landed following
                                curves.s_dot_max_vel in
                            Holds-bind (OrNone (IsChecked p st.current.s)) (OrNone Advances)
                              (check_next p opt n st.current segment next curves c_next) _
                              (check_next-IsChecked n st.current next segment curves c_next
                                h.on_path
                                (followed-Reaches st.current landed following curves.s_dot_max_vel
                                  st.current.s reaches)
                                (settled_at c landed.s k))
                              (λ checked ok_next.
                                commit_checked-Advances st (landed.s, curves) checked h
                                  ok_next))))))
