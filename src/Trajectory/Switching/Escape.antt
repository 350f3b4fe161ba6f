-- ===== src/Trajectory/Switching/Escape.antt =====
-- The search for an escape from the velocity limit curve (trajectory.cpp,
-- find_continuous_velocity_switching_point).
use trajex.Double.{Double, lt, le, eq}
use trajex.Double.Ieee.{IsIeee}
use trajex.Xtensor.{Xtensor}
use trajex.Path.{TotgPath, View, Cursor, seek, at_end}
use trajex.Path.Rich.{hint_view, cursor_tangent}
use trajex.Path.Hint.{IsWellFormed}
use trajex.Path.Rich.Settled.{OnPath, IsSettled, seek-finite, seek-OnPath, seek-IsSettled}
use trajex.Path.Segment.{Segment}
use trajex.Trajectory.Limits.{TrajectoryOptions, wrap_eq}
use trajex.Trajectory.Switching.{SwitchingPoint, velocity_escape}
use trajex.Trajectory.Switching.Velocity.{
  after_round, next_position, found_or, unless_found, with_bracket, try_bracket, EscapeBracket,
  Scan, Round, over, finds, goes, eq40_at, in_search, below_acceleration_curve, narrow,
  bisect_escape, refine_escape, bracket_at, scan_on, scan_result, baseline_of, scan_round, scan,
  find_eq40_escape_bracket, accept, escape_from,
}
use trajex.Prelude.{
  ℕ, zero, suc, ◌≡◌, refl, subst, true, ◌&&◌, Option, none, some, arith, Result, ok, Holds,
  Holds-bind, Holds-all, Holds-throw_if, OrNone, Holds-both, Holds-self, if-both, elim-both,
  Holds-any, cursor_at_sentinel,
}

module _ {D : Type 0} ⦃d : Double D⦄ (p : TotgPath (Segment D) D) (opt : TrajectoryOptions D) where
  -- At the place `s` on the path, where the velocity limit is `s_dot`, Delta is not above zero.
  pub record EscapesAt (s s_dot : D) : Type 0 where
    pub at : Cursor D
    pub delta : D
    pub settled : IsSettled p at
    pub position : at.position ≡ s
    pub on_path : OnPath p s
    pub evaluated : eq40_at p opt at ≡ ok (some (delta, s_dot))
    pub escapes : le delta d.nought ≡ true

  abbrev IsBracket : EscapeBracket D → Type 0
  IsBracket b = EscapesAt b.after b.after_s_dot_max_vel

  abbrev pub IsEscape : SwitchingPoint D → Type 0
  IsEscape sp = (sp.kind ≡ velocity_escape) × EscapesAt sp.point.s sp.point.s_dot

  -- An escape at or below the acceleration limit there, within the tolerance.
  abbrev pub Accepted : Cursor D → SwitchingPoint D → Type 0
  Accepted c sp = IsEscape sp × (below_acceleration_curve p opt c sp ≡ ok true)

  abbrev Narrowed : Round (EscapeBracket D) (SwitchingPoint D) → Type 0
  Narrowed over = Unit
  Narrowed (finds sp) = IsEscape sp
  Narrowed (goes b) = IsBracket b

  -- Where a cursor is that was sent somewhere.
  abbrev IsPlaced : Cursor D → Type 0
  IsPlaced c = IsSettled p c × (d.is_finite c.position ≡ true → OnPath p c.position)

  abbrev Scanned : Round (Scan D) (EscapeBracket D) → Type 0
  Scanned (finds b) = IsBracket b
  Scanned (goes st) = IsPlaced st.cursor
  Scanned over = Unit

  narrow-Narrowed :
      (b : EscapeBracket D) (c : Cursor D) (mid : D) (r : Option (D × D))
      → IsBracket b
      → IsSettled p c
      → OnPath p mid
      → c.position ≡ mid
      → eq40_at p opt c ≡ ok r
      → Narrowed (narrow p opt b mid r)
  unfolding narrow
  narrow-Narrowed b c mid none h k on at e = h
  narrow-Narrowed b c mid (some (delta, s_dot)) h k on at e =
      if-both Narrowed (eq delta d.nought)
        (λ zero_there. (
          refl,
          record {
            at = c;
            delta = delta;
            settled = k;
            position = at;
            on_path = on;
            evaluated = e;
            escapes = ground arith;
          },
        ))
        (λ _.
          if-both Narrowed (lt delta d.nought)
            (λ below. record {
              at = c;
              delta = delta;
              settled = k;
              position = at;
              on_path = on;
              evaluated = e;
              escapes = ground arith;
            })
            (λ _. h))

  module _ (ieee : IsIeee D) where
    cursor_tangent-finite :
        (c : Cursor D) → Holds (λ _. d.is_finite c.position ≡ true) (cursor_tangent p c p.dof)
    unfolding cursor_tangent
    cursor_tangent-finite c =
        Holds-throw_if (λ _. d.is_finite c.position ≡ true) (at_end c) cursor_at_sentinel _
          (λ there. Holds-all (λ _. d.is_finite c.position ≡ true) _ (λ _. ground arith))

    finite_at : (c : Cursor D) → Holds (λ _. d.is_finite c.position ≡ true) (eq40_at p opt c)
    unfolding eq40_at
    finite_at c =
        Holds-bind (λ _. d.is_finite c.position ≡ true) (λ _. d.is_finite c.position ≡ true)
          (cursor_tangent p c p.dof) _ (cursor_tangent-finite c)
          (λ _ f. Holds-all (λ _. d.is_finite c.position ≡ true) _ (λ _. f))

    abbrev Evaluates : Cursor D → Option (D × D) → Type 0
    Evaluates c r = (eq40_at p opt c ≡ ok r) × (d.is_finite c.position ≡ true)

    eq40_at-Evaluates : (c : Cursor D) → Holds (Evaluates c) (eq40_at p opt c)
    eq40_at-Evaluates c =
        Holds-both (λ r. eq40_at p opt c ≡ ok r) (λ _. d.is_finite c.position ≡ true)
          (eq40_at p opt c) (Holds-self (eq40_at p opt c)) (finite_at c)

    module _ (w : IsWellFormed p) where
      seek-IsPlaced : (c : Cursor D) (s : D) → IsSettled p c → IsPlaced (seek p c s)
      seek-IsPlaced c s k = (seek-IsSettled p w ieee c s k, λ f. seek-OnPath p w ieee c s f)

      bisect_escape-IsEscape :
          (n : ℕ) (c : Cursor D) (b : EscapeBracket D)
          → IsBracket b
          → IsSettled p c
          → Holds (OrNone IsEscape) (bisect_escape p opt n c b)
      unfolding bisect_escape after_round
      bisect_escape-IsEscape zero c b h settled = tt
      bisect_escape-IsEscape (suc n) c b h settled =
          let mid = d.midpoint b.before b.after in
          let c_mid = seek p c mid in
          let (there, on) = seek-IsPlaced c mid settled in
          elim-both (Holds (OrNone IsEscape)) (wrap_eq opt.epsilon b.before b.after)
            (λ _. (refl, h))
            (λ _.
              Holds-bind (Evaluates c_mid) (OrNone IsEscape) (eq40_at p opt c_mid) _
                (eq40_at-Evaluates c_mid)
                (λ r (e, finite).
                  go (narrow p opt b mid r) (λ k g. bisect_escape-IsEscape n c_mid k g there)
                    (narrow-Narrowed b c_mid mid r h there
                      (subst (OnPath p) (seek-finite p w ieee c mid finite) (on finite))
                      (seek-finite p w ieee c mid finite) e)))
        where
          go :
              (r : Round (EscapeBracket D) (SwitchingPoint D))
              (rest : (k : EscapeBracket D)
                → IsBracket k
                → Holds
                    (OrNone IsEscape)
                    (bisect_escape p opt n (seek p c (d.midpoint b.before b.after)) k))
              → Narrowed r
              → Holds (OrNone IsEscape) (
                  after_round
                    (ok none)
                    (λ sp. ok (some sp))
                    (λ k. bisect_escape p opt n (seek p c (d.midpoint b.before b.after)) k)
                    r)
          go over rest h = tt
          go (finds sp) rest h = h
          go (goes k) rest h = rest k h

      refine_escape-IsEscape :
          (c : Cursor D) (b : EscapeBracket D)
          → IsBracket b
          → IsSettled p c
          → Holds (OrNone IsEscape) (refine_escape p opt c b)
      unfolding refine_escape
      refine_escape-IsEscape c b h settled =
          elim-both (Holds (OrNone IsEscape)) (wrap_eq opt.epsilon b.after_delta d.nought)
            (λ _. (refl, h)) (λ _. bisect_escape-IsEscape 100 c b h settled)

      bracket_at-IsBracket :
          (previous : D) (baseline : Option D) (c : Cursor D) (r : D × D)
          → IsSettled p c
          → OnPath p c.position
          → eq40_at p opt c ≡ ok (some r)
          → OrNone IsBracket (bracket_at p opt previous baseline c.position r)
      unfolding bracket_at
      bracket_at-IsBracket previous none c (delta, s_dot) k on e = tt
      bracket_at-IsBracket previous (some previous_delta) c (delta, s_dot) k on e =
          if-both (OrNone IsBracket) (lt d.nought previous_delta && le delta d.nought)
            (λ crossed. record {
              at = c;
              delta = delta;
              settled = k;
              position = refl;
              on_path = on;
              evaluated = e;
              escapes = ground arith;
            })
            (λ _. tt)

      found_or-Scanned :
          (rest : Round (Scan D) (EscapeBracket D)) (found : Option (EscapeBracket D))
          → Scanned rest
          → OrNone IsBracket found
          → Scanned (found_or rest found)
      unfolding found_or
      found_or-Scanned rest none h k = h
      found_or-Scanned rest (some b) h k = k

      scan_on-Scanned :
          (hint : D) (st : Scan D) (segment : View (Segment D) D) (baseline : Option D)
          (r : Option (D × D))
          → IsSettled p st.cursor
          → Scanned (scan_on p opt hint st segment baseline r)
      unfolding scan_on
      scan_on-Scanned hint st segment baseline r k =
          if-both Scanned
            (eq (next_position p opt st.cursor.position segment hint) st.cursor.position) (λ _. tt)
            (λ _. seek-IsPlaced st.cursor _ k)

      scan_result-Scanned :
          (hint : D) (st : Scan D) (segment : View (Segment D) D) (baseline : Option D)
          (r : Option (D × D))
          → IsSettled p st.cursor
          → OnPath p st.cursor.position
          → eq40_at p opt st.cursor ≡ ok r
          → Scanned (scan_result p opt hint st segment baseline r)
      unfolding scan_result
      scan_result-Scanned hint st segment baseline none k on e =
          scan_on-Scanned hint st segment baseline none k
      scan_result-Scanned hint st segment baseline (some r) k on e =
          found_or-Scanned (scan_on p opt hint st segment baseline (some r))
            (bracket_at p opt st.previous_position baseline st.cursor.position r)
            (scan_on-Scanned hint st segment baseline (some r) k)
            (bracket_at-IsBracket st.previous_position baseline st.cursor r k on e)

      module _ ⦃x : Xtensor D⦄ where
        scan_round-Scanned :
            (hint : D) (st : Scan D) → IsPlaced st.cursor → Holds Scanned (scan_round p opt hint st)
        unfolding scan_round
        scan_round-Scanned hint st (k, on) =
            elim-both (Holds Scanned) (in_search p opt st.cursor.position hint)
              (λ _.
                Holds-bind (Evaluates st.cursor) Scanned (eq40_at p opt st.cursor) _
                  (eq40_at-Evaluates st.cursor)
                  (λ r (e, finite). Holds-any Scanned (hint_view p st.cursor) _ (λ segment.
                    Holds-any Scanned (baseline_of p opt st segment) _ (λ baseline.
                      scan_result-Scanned hint st segment baseline r k (on finite) e))))
              (λ _. tt)

        scan-IsBracket :
            (n : ℕ) (hint : D) (st : Scan D)
            → IsPlaced st.cursor
            → Holds (OrNone (OrNone IsBracket)) (scan p opt n hint st)
        unfolding scan after_round
        scan-IsBracket zero hint st placed = tt
        scan-IsBracket (suc n) hint st placed =
            Holds-bind Scanned (OrNone (OrNone IsBracket)) (scan_round p opt hint st) _
              (scan_round-Scanned hint st placed) (λ r h. go r (λ k g. scan-IsBracket n hint k g) h)
          where
            go :
                (r : Round (Scan D) (EscapeBracket D))
                (rest : (k : Scan D)
                  → IsPlaced k.cursor
                  → Holds (OrNone (OrNone IsBracket)) (scan p opt n hint k))
                → Scanned r
                → Holds (OrNone (OrNone IsBracket)) (
                    after_round
                      (ok (some none))
                      (λ b. ok (some (some b)))
                      (λ k. scan p opt n hint k)
                      r)
            go over rest h = tt
            go (finds b) rest h = h
            go (goes k) rest h = rest k h

        find_eq40_escape_bracket-IsBracket :
            (n : ℕ) (c : Cursor D) (position hint : D)
            → IsSettled p c
            → Holds (OrNone (OrNone IsBracket)) (find_eq40_escape_bracket p opt n c position hint)
        unfolding find_eq40_escape_bracket
        find_eq40_escape_bracket-IsBracket n c position hint k =
            Holds-any (OrNone (OrNone IsBracket)) (hint_view p (seek p c position)) _
              (λ segment. scan-IsBracket n hint _ (seek-IsPlaced c position k))

        accept-Accepted :
            (c : Cursor D) (found : Option (SwitchingPoint D))
            → OrNone IsEscape found
            → Holds (OrNone (Accepted c)) (accept p opt c found)
        unfolding accept
        accept-Accepted c none h = tt
        accept-Accepted c (some sp) h =
            Holds-bind (λ b. below_acceleration_curve p opt c sp ≡ ok b) (OrNone (Accepted c))
              (below_acceleration_curve p opt c sp) _
              (Holds-self (below_acceleration_curve p opt c sp))
              (λ below e.
                if-both (OrNone (Accepted c)) below
                  (λ yes_below.
                    (h, subst (λ b. below_acceleration_curve p opt c sp ≡ ok b) yes_below e))
                  (λ _. tt))

        try_bracket-Accepted :
            (c : Cursor D) (b : EscapeBracket D)
            → IsBracket b
            → IsSettled p c
            → Holds (OrNone (Accepted c)) (try_bracket p opt c b)
        unfolding try_bracket
        try_bracket-Accepted c b h settled =
            Holds-bind (OrNone IsEscape) (OrNone (Accepted c)) (refine_escape p opt c b) _
              (refine_escape-IsEscape c b h settled) (λ found k. accept-Accepted c found k)

        unless_found-Accepted :
            (c : Cursor D) (rest : Unit {0} → Result (Option (Option (SwitchingPoint D))))
            (found : Option (SwitchingPoint D))
            → OrNone (Accepted c) found
            → Holds (OrNone (OrNone (Accepted c))) (rest tt)
            → Holds (OrNone (OrNone (Accepted c))) (unless_found rest found)
        unfolding unless_found
        unless_found-Accepted c rest (some sp) h k = h
        unless_found-Accepted c rest none h k = k

        with_bracket-Accepted :
            (c : Cursor D) (rest : EscapeBracket D → Result (Option (Option (SwitchingPoint D))))
            (coarse : Option (Option (EscapeBracket D)))
            → OrNone (OrNone IsBracket) coarse
            → ((b : EscapeBracket D) → IsBracket b → Holds (OrNone (OrNone (Accepted c))) (rest b))
            → Holds (OrNone (OrNone (Accepted c))) (with_bracket rest coarse)
        unfolding with_bracket
        with_bracket-Accepted c rest none h k = tt
        with_bracket-Accepted c rest (some none) h k = tt
        with_bracket-Accepted c rest (some (some b)) h k = k b h

        pub escape_from-Accepted :
            (n rounds : ℕ) (c : Cursor D) (hint position : D)
            → IsSettled p c
            → Holds (OrNone (OrNone (Accepted c))) (escape_from p opt n rounds c hint position)
        unfolding escape_from
        escape_from-Accepted n zero c hint position settled = tt
        escape_from-Accepted n (suc rounds) c hint position settled =
            elim-both (Holds (OrNone (OrNone (Accepted c)))) (in_search p opt position hint)
              (λ _.
                Holds-bind (OrNone (OrNone IsBracket)) (OrNone (OrNone (Accepted c)))
                  (find_eq40_escape_bracket p opt n c position hint) _
                  (find_eq40_escape_bracket-IsBracket n c position hint settled)
                  (λ coarse h. with_bracket-Accepted c _ coarse h (λ b k.
                    Holds-bind (OrNone (Accepted c)) (OrNone (OrNone (Accepted c)))
                      (try_bracket p opt c b) _ (try_bracket-Accepted c b k settled)
                      (λ found a.
                        unless_found-Accepted c (λ _. escape_from p opt n rounds c hint b.after)
                          found a (escape_from-Accepted n rounds c hint b.after settled)))))
              (λ _. tt)
