-- ===== src/Trajectory/Integration/Receding.antt =====
-- The backward integration (trajectory.cpp, integrate_backwards_from) and the order of the points
-- along the path.
use trajex.Double.{Double, lt, le}
use trajex.Path.{seek, TotgPath, Cursor}
use trajex.Path.Segment.{Segment}
use trajex.Trajectory.{IntegrationPoint}
use trajex.Trajectory.Limits.{wrap_eq, TrajectoryOptions, PhasePoint}
use trajex.Trajectory.Stepping.{euler_step}
use trajex.Path.{seek}
use trajex.Path.Rich.{hint_view}
use trajex.Trajectory.Switching.{SwitchingPoint}
use trajex.Trajectory.Backward.{
  quantize_backward, settle_refined, choose_backward, refine_unless, refine_step, begin_behind,
  splice_time, splice_velocity, join_onto, act_on, unless_begin, BackwardState, BackwardOutcome,
  receded, spliced, Slide, crosses, keeps, slide, append_timed, splice, fwd_interp, bwd_interp,
  settle, backward_pass, start_backward, phase_of, check_backward,
}
use trajex.Prelude.{
  ℕ, ◌≡◌, refl, inl, inr, Bool, true, false, ◌&&◌, Option, none, some, List, [], ◌∷◌, arith,
  Bool-cases, last?, ok, ◌>>◌, throw_if, Holds, Holds-bind, Holds-throw_if, Holds-then, OrNone,
  Holds-some, Holds-any, backward_reached_start, backward_not_decreasing, switching_behind,
  switching_at_start, no_splice_time, no_splice_velocity,
}

module _ {D : Type 0} ⦃d : Double D⦄ where
  -- The first point of the list is not at `s` or beyond; if there is none, `s` is the path's start.
  abbrev pub Ahead : D → List (IntegrationPoint D) → Type 0
  Ahead s [] = s ≡ d.nought
  Ahead s (a ∷ l) = le s a.s ≡ false

  -- Newest first: every point is further along the path than the one before it, and the first of all
  -- is at the path's start.
  abbrev pub IsRising : List (IntegrationPoint D) → Type 0
  IsRising [] = Unit
  IsRising (a ∷ l) = Ahead a.s l × IsRising l

  -- Newest first: every point is less far along the path than the one before it.
  abbrev pub IsFalling : List (IntegrationPoint D) → Type 0
  IsFalling [] = Unit
  IsFalling (a ∷ []) = Unit
  IsFalling (a ∷ b ∷ l) = (le b.s a.s ≡ false) × IsFalling (b ∷ l)

  IsRising-tail :
      (a : IntegrationPoint D) (l : List (IntegrationPoint D)) → IsRising (a ∷ l) → IsRising l
  IsRising-tail a l (_, h) = h

  abbrev pub Sound : D → Slide D → Type 0
  Sound s (crosses l) = Ahead s l × IsRising l
  Sound s (keeps l) = IsRising l

  unless_begin-Sound :
      (s : D) (right left : IntegrationPoint D) (l : List (IntegrationPoint D)) (slid : Slide D)
      → IsRising (right ∷ left ∷ l)
      → Sound s slid
      → Sound s (unless_begin l (keeps (right ∷ left ∷ l)) slid)
  unfolding unless_begin
  unless_begin-Sound s right left [] slid all h = all
  unless_begin-Sound s right left (a ∷ l) slid all h = h

  pub slide-Sound :
      (next current : PhasePoint D) (window : List (IntegrationPoint D))
      → le current.s next.s ≡ false
      → IsRising window
      → Sound current.s (slide next current window)
  unfolding slide
  slide-Sound next current [] back h = h
  slide-Sound next current (right ∷ []) back h = h
  slide-Sound next current (right ∷ left ∷ older) back h =
      let rest = IsRising-tail right (left ∷ older) h in
      elim (Bool-cases (lt next.s right.s)) [
        | inr out ↦ rw (out, slide) h
        | inl within ↦ elim (Bool-cases (le left.s next.s)) [
          | inl over ↦ elim (Bool-cases (lt (fwd_interp next left right) next.s_dot)) [
            | inl above ↦ rw (within, slide) (rw over (rw above (ground arith, rest)))
            | inr below ↦ rw (within, slide) (rw over (rw below h))
          ]
          | inr past ↦
              elim (Bool-cases
                (lt left.s current.s && lt left.s_dot (bwd_interp next current left))) [
                  | inl above ↦ rw (within, slide) (rw past (rw above (ground arith, rest)))
                  | inr below ↦
                      rw (within, slide)
                        (rw past (
                          rw below (
                            unless_begin-Sound current.s right left older _ h
                              (slide-Sound next current (left ∷ older) back rest))))
                ]
        ]
      ]

  -- The oldest point of the list, and its newest, is at `s`.
  abbrev pub EndsAt : D → List (IntegrationPoint D) → Type 0
  EndsAt s [] = Unit
  EndsAt s (a ∷ []) = a.s ≡ s
  EndsAt s (a ∷ b ∷ l) = EndsAt s (b ∷ l)

  abbrev pub StandsAt : D → List (IntegrationPoint D) → Type 0
  StandsAt s [] = Unit
  StandsAt s (a ∷ l) = a.s ≡ s

  append_timed-IsRising :
      (t s : D) (backwards l : List (IntegrationPoint D)) (first : IntegrationPoint D)
      → IsFalling (first ∷ backwards)
      → EndsAt s (first ∷ backwards)
      → Ahead first.s l
      → IsRising l
      → IsRising (append_timed t (first ∷ backwards) l)
        × StandsAt s (append_timed t (first ∷ backwards) l)
  unfolding append_timed
  append_timed-IsRising t s [] l first f e a r = ((a, r), e)
  append_timed-IsRising t s (b ∷ bs) l first (g, f) e a r =
      append_timed-IsRising (d.add t first.time) s bs (record first { time = t } ∷ l) b f e g (a, r)

  abbrev Capped : D → List (IntegrationPoint D) → Type 0
  Capped s l = IsRising l × StandsAt s l

  splice-IsRising :
      (epsilon s : D) (kept backwards : List (IntegrationPoint D)) (first : IntegrationPoint D)
      → IsFalling (first ∷ backwards)
      → EndsAt s (first ∷ backwards)
      → Ahead first.s kept
      → IsRising kept
      → Holds (Capped s) (splice epsilon kept (first ∷ backwards))
  unfolding splice join_onto
  splice-IsRising epsilon s [] backwards first f e a r = tt
  splice-IsRising epsilon s (last ∷ older) backwards first f e a r =
      Holds-then (Capped s)
        (throw_if (wrap_eq epsilon (splice_velocity last first) d.nought) no_splice_velocity)
        (throw_if (le (splice_time last first) d.nought) no_splice_time
          >> ok (join_onto last older first backwards))
        (Holds-then (Capped s) (throw_if (le (splice_time last first) d.nought) no_splice_time)
          (ok (join_onto last older first backwards))
          (append_timed-IsRising (d.add last.time (splice_time last first)) s backwards
            (record last { s_ddot = d.div (d.sub first.s_dot last.s_dot) (splice_time last first) }
              ∷ older)
            first f e a r))

  module _ (Q : SwitchingPoint D → Cursor D → Type 0) where
    -- The points of the window rise, the backward ones fall from the switching point.
    pub record IsReceding (st : BackwardState D) : Type 0 where
      pub rising : IsRising st.window
      pub whole : IsRising st.points
      pub falling : IsFalling (st.newest ∷ st.others)
      pub ends : EndsAt st.switching.point.s (st.newest ∷ st.others)
      pub kept : Q st.switching st.path_cursor

    -- After a pass: the same, or a splice whose points rise to the switching point.
    abbrev pub Recedes : BackwardOutcome D → Type 0
    Recedes (receded st) = IsReceding st
    Recedes (spliced l switching cursor) =
        (IsRising l × StandsAt switching.point.s l) × Q switching cursor

    -- What start_backward sets up.
    pub start_backward-IsReceding :
        (points : List (IntegrationPoint D)) (where_ : SwitchingPoint D) (cursor : Cursor D)
        → IsRising points
        → Q where_ cursor
        → Holds IsReceding (start_backward points where_ cursor)
    unfolding start_backward
    start_backward-IsReceding [] where_ cursor r q = tt
    start_backward-IsReceding (a ∷ []) where_ cursor r q = tt
    start_backward-IsReceding (back ∷ second ∷ older) where_ cursor r q =
        elim (last? (second ∷ older))
          as (λ o. Holds IsReceding (begin_behind (back ∷ second ∷ older) back o where_ cursor)) [
            | none ↦ tt
            | some front ↦
                Holds-then IsReceding (throw_if (le where_.point.s front.s) switching_at_start) _ (
                  Holds-then IsReceding (throw_if (lt where_.point.s back.s) switching_behind) _
                    (record { rising = r; whole = r; falling = tt; ends = refl; kept = q }))
          ]

    module _ (p : TotgPath (Segment D) D) (opt : TrajectoryOptions D) where
      act_on-Recedes :
          (st : BackwardState D) (next : PhasePoint D) (c : Cursor D) (slid : Slide D)
          → IsReceding st
          → le st.newest.s next.s ≡ false
          → Sound st.newest.s slid
          → Holds Recedes (act_on p opt st next c slid)
      unfolding act_on
      act_on-Recedes st next c (crosses kept) h back (a, r) =
          Holds-bind (Capped st.switching.point.s) Recedes
            (splice opt.epsilon kept (st.newest ∷ st.others)) _
            (splice-IsRising opt.epsilon st.switching.point.s kept st.others st.newest h.falling
              h.ends a r)
            (λ l capped. (capped, h.kept))
      act_on-Recedes st next c (keeps window) h back r =
          Holds-then Recedes (check_backward p opt next (seek p c next.s)) _ (record {
            rising = r;
            whole = h.whole;
            falling = (back, h.falling);
            ends = h.ends;
            kept = h.kept;
          })

      abbrev IsBehind : D → PhasePoint D × Cursor D → Type 0
      IsBehind s (next, c) = le s next.s ≡ false

      refined-IsBehind :
          (s : D) (next : PhasePoint D) (c : Cursor D) (refined : Option D)
          → le s next.s ≡ false
          → Holds (OrNone (IsBehind s)) (elim refined [
            | none ↦ ok none
            | some s_dot ↦ ok (some (record next { s_dot = s_dot }, c))
          ])
      refined-IsBehind s next c none back = tt
      refined-IsBehind s next c (some s_dot) back = back

      refine_unless-IsBehind :
          (mandated : Bool) (n : ℕ) (ceiling s : D) (current next : PhasePoint D) (c : Cursor D)
          → le s next.s ≡ false
          → Holds (OrNone (IsBehind s)) (refine_unless p opt mandated n ceiling current next c)
      unfolding refine_unless
      refine_unless-IsBehind true n ceiling s current next c back = back
      refine_unless-IsBehind false n ceiling s current next c back =
          Holds-any (OrNone (IsBehind s))
            (refine_step p opt n ceiling current next (seek p c next.s)) _
            (λ refined. refined-IsBehind s next (seek p c next.s) refined back)

      settle_refined-Recedes :
          (st : BackwardState D) (refined : Option (PhasePoint D × Cursor D))
          → IsReceding st
          → OrNone (IsBehind st.newest.s) refined
          → Holds (OrNone Recedes) (settle_refined p opt st refined)
      unfolding settle_refined settle
      settle_refined-Recedes st none h back = tt
      settle_refined-Recedes st (some (next, c)) h back =
          Holds-some Recedes (settle p opt st next c) (
            act_on-Recedes st next c (slide next (phase_of st.newest) st.window) h back
              (slide-Sound next (phase_of st.newest) st.window back h.rising))

      pub backward_pass-Recedes :
          (n : ℕ) (ceiling : D) (st : BackwardState D)
          → IsReceding st
          → Holds (OrNone Recedes) (backward_pass p opt n ceiling st)
      unfolding backward_pass
      backward_pass-Recedes n ceiling st h =
          let current = phase_of st.newest in
          let c = seek p st.cursor current.s in
          Holds-any (OrNone Recedes) (choose_backward p opt st.switching st.others current c) _
            (λ (s_ddot, mandated).
              Holds-any (OrNone Recedes) (euler_step current s_ddot (d.neg opt.delta) opt.epsilon) _
                (λ stepped_to. Holds-any (OrNone Recedes) (hint_view p c) _ (λ segment.
                  let next = quantize_backward opt.epsilon segment.start current stepped_to in
                  Holds-throw_if (OrNone Recedes) (le current.s next.s) backward_not_decreasing _
                    (λ back.
                      Holds-then (OrNone Recedes)
                        (throw_if (le next.s d.nought) backward_reached_start) _
                        (Holds-bind (OrNone (IsBehind current.s)) (OrNone Recedes)
                          (refine_unless p opt mandated n ceiling current next c) _
                          (refine_unless-IsBehind mandated n ceiling current.s current next c back)
                          (λ refined behind. settle_refined-Recedes st refined h behind))))))
