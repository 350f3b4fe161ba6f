-- ===== src/Trajectory/Backward/Solver.antt =====
-- The solver of the backward integration (trajectory.cpp, `Elaboration 1`).
use trajex.Double.{two, Double, lt, le, eq, IsNumber}
use trajex.Double.Ieee.{IsRounded}
use trajex.Trajectory.Limits.{PhasePoint, wrap_eq}
use trajex.Trajectory.Backward.{
  Bracket, is_straddling, straddles_zero, first_bracket, expand, pinch, better_end, pinched_end,
  pinch_expanded, solve,
}
use trajex.Prelude.{
  ℕ, zero, suc, ◌+◌, ◌≤◌, ◌<◌, ◌≡◌, refl, sym, ◌∙◌, subst, ◌⊎◌, inl, inr, true, false, not, ◌||◌,
  some, arith, Bool-cases, ok, throw_if, Holds, Holds-at, Holds-throw_if, Holds-then, OrNone,
  if-both, elim-both, bracket_exceeded, straddle_lost,
}

module _ {D : Type 0} ⦃d : Double D⦄ (f : D → D) where
  -- The residuals of a bracket are those at its ends.
  pub record IsBracketOf (b : Bracket D) : Type 0 where
    pub at_low : b.residual_low ≡ f b.low
    pub at_high : b.residual_high ≡ f b.high

  magnitudes :
      (a a' b b' : D)
      → a ≡ a'
      → b ≡ b'
      → le (d.magnitude a) (d.magnitude b) ≡ le (d.magnitude a') (d.magnitude b')
  magnitudes a a' b b' e g = rw (e, g) refl

  -- The velocity is the end of `b` with the residual that is not the larger one.
  abbrev pub IsBetterEnd : Bracket D → D → Type 0
  IsBetterEnd b v =
      ((v ≡ b.low) × (le (d.magnitude (f b.low)) (d.magnitude (f b.high)) ≡ true))
      ⊎ ((v ≡ b.high) × (le (d.magnitude (f b.low)) (d.magnitude (f b.high)) ≡ false))

  -- A bracket that straddles zero and cannot be halved.
  pub record IsPinched (b : Bracket D) : Type 0 where
    pub residuals : IsBracketOf b
    pub straddles : is_straddling b ≡ true
    pub narrow : (eq (d.midpoint b.low b.high) b.low || eq (d.midpoint b.low b.high) b.high) ≡ true

  module _ (epsilon : D) where
    -- The bracket is one place with no residual, or cannot be halved.
    abbrev IsOver : Bracket D → Type 0
    IsOver b = ((b.low ≡ b.high) × (wrap_eq epsilon (f b.low) d.nought ≡ true)) ⊎ IsPinched b

    -- What the expansion finds.
    abbrev IsFound : Bracket D → Type 0
    IsFound b = IsBracketOf b × (is_straddling b ≡ true)

    expand-IsFound :
        (n : ℕ) (ceiling width : D) (b : Bracket D)
        → IsBracketOf b
        → Holds (OrNone IsFound) (expand n f ceiling width b)
    unfolding expand
    expand-IsFound zero ceiling width b h = tt
    expand-IsFound (suc n) ceiling width b h =
        elim-both (Holds (OrNone IsFound)) (is_straddling b) (λ across. (h, across))
          (λ _.
            Holds-then (OrNone IsFound)
              (throw_if (lt ceiling (d.add b.high (d.mul width two))) bracket_exceeded) _
              (expand-IsFound n ceiling (d.mul width two) _
                (record { at_low = refl; at_high = refl })))

    pinch-IsOver :
        (n : ℕ) (b : Bracket D) → IsBracketOf b → Holds (OrNone IsOver) (pinch n epsilon f b)
    unfolding pinch
    pinch-IsOver zero b h = tt
    pinch-IsOver (suc n) b h =
        let mid = d.midpoint b.low b.high in
        Holds-throw_if (OrNone IsOver) (not (is_straddling b)) straddle_lost _ (λ straddling.
          elim-both (Holds (OrNone IsOver)) (eq mid b.low || eq mid b.high)
            (λ narrow. inr (record { residuals = h; straddles = ground arith; narrow = narrow }))
            (λ _.
              elim-both (Holds (OrNone IsOver)) (wrap_eq epsilon (f mid) d.nought)
                (λ root. inl (refl, root))
                (λ _.
                  elim-both (Holds (OrNone IsOver)) (straddles_zero b.residual_low (f mid))
                    (λ _.
                      pinch-IsOver n (record b { high = mid; residual_high = f mid })
                        (record { at_low = h.at_low; at_high = refl }))
                    (λ _.
                      pinch-IsOver n (record b { low = mid; residual_low = f mid })
                        (record { at_low = refl; at_high = h.at_high })))))

    -- What the solver may settle on.
    abbrev pub IsSolution : D → Type 0
    IsSolution v =
        (wrap_eq epsilon (f v) d.nought ≡ true)
        ⊎ ((b : Bracket D) × (IsPinched b × IsBetterEnd b v))

    better_end-IsSolution : (b : Bracket D) → IsOver b → IsSolution (better_end b)
    unfolding better_end
    better_end-IsSolution b (inl (same, root)) = inl (
        if-both (λ v. wrap_eq epsilon (f v) d.nought ≡ true)
          (le (d.magnitude b.residual_low) (d.magnitude b.residual_high)) (λ _. root)
          (λ _. subst (λ v. wrap_eq epsilon (f v) d.nought ≡ true) same root))
    better_end-IsSolution b (inr h) =
        let same =
          magnitudes b.residual_low (f b.low) b.residual_high (f b.high) h.residuals.at_low
            h.residuals.at_high in
        inr (
          b,
          (
            h,
            if-both (IsBetterEnd b) (le (d.magnitude b.residual_low) (d.magnitude b.residual_high))
                (λ low. inl (refl, sym same ∙ low)) (λ high. inr (refl, sym same ∙ high)),
          ),
        )

    -- A bracket that is not reversed, at velocities that are not below zero, with a residual that is a
    -- number everywhere in it.
    pub record IsSearchable (b : Bracket D) : Type 0 where
      pub from_zero : le d.nought b.low ≡ true
      pub ordered : le b.low b.high ≡ true
      pub numbers_in : (v : D) → le b.low v ≡ true → le v b.high ≡ true → IsNumber (f v)

    other_half :
        (low mid high : D)
        → IsNumber mid
        → straddles_zero low high ≡ true
        → straddles_zero low mid ≡ false
        → straddles_zero mid high ≡ true
    other_half low mid high n h k = ground arith

    le_trans : (a b c : D) → le a b ≡ true → le b c ≡ true → le a c ≡ true
    le_trans a b c h k = ground arith

    le-rank : (a b : D) → le a b ≡ true → d.rank a ≤ d.rank b
    le-rank a b h = ground arith

    shrinks :
        (low mid high : D)
        → le low mid ≡ true
        → le mid high ≡ true
        → (eq mid low || eq mid high) ≡ false
        → (d.rank low < d.rank mid) × (d.rank mid < d.rank high)
    shrinks low mid high h k e = (ground arith, ground arith)

    pinch-Settles :
        (n : ℕ) (b : Bracket D)
        → IsRounded D
        → IsSearchable b
        → is_straddling b ≡ true
        → d.rank b.high < n + d.rank b.low
        → (r : Bracket D) × (pinch n epsilon f b ≡ ok (some r))
    unfolding pinch
    pinch-Settles zero b w h across room =
        absurd (omega (arith, le-rank b.low b.high h.ordered, room))
    pinch-Settles (suc n) b w h across room =
        let mid = d.midpoint b.low b.high in
        let above = w.midpoint_above b.low b.high h.from_zero h.ordered in
        let below = w.midpoint_below b.low b.high h.from_zero h.ordered in
        rw across (
          elim-both (λ r. (x : Bracket D) × (r ≡ ok (some x))) (eq mid b.low || eq mid b.high)
            (λ _. (b, refl))
            (λ wide.
              let (up, down) = shrinks b.low mid b.high above below wide in
              elim-both (λ r. (x : Bracket D) × (r ≡ ok (some x)))
                (wrap_eq epsilon (f mid) d.nought) (λ _. (_, refl))
                (λ _.
                  elim-both (λ r. (x : Bracket D) × (r ≡ ok (some x)))
                    (straddles_zero b.residual_low (f mid))
                    (λ left.
                      pinch-Settles n (record b { high = mid; residual_high = f mid }) w
                        (record {
                          from_zero = h.from_zero;
                          ordered = above;
                          numbers_in = λ v p q. h.numbers_in v p (le_trans v mid b.high q below);
                        })
                        left (omega arith))
                    (λ right.
                      pinch-Settles n (record b { low = mid; residual_low = f mid }) w
                        (record {
                          from_zero = le_trans d.nought b.low mid h.from_zero above;
                          ordered = below;
                          numbers_in = λ v p q. h.numbers_in v (le_trans b.low mid v above p) q;
                        })
                        (other_half b.residual_low (f mid) b.residual_high
                          (h.numbers_in mid above below) across right)
                        (omega arith)))))

    pinched_lem :
        (n : ℕ) (b r : Bracket D)
        → pinch n epsilon f b ≡ ok (some r)
        → pinch_expanded n epsilon f (some b) ≡ ok (some (better_end r))
    unfolding pinch_expanded pinched_end
    pinched_lem n b r e = rw (e, pinch_expanded) refl

    solve_bracket :
        (n : ℕ) (ceiling : D) (current next : PhasePoint D) (b : Bracket D)
        → expand n f ceiling
            (d.magnitude (d.sub next.s_dot current.s_dot))
            (first_bracket epsilon f current next)
          ≡ ok (some b)
        → wrap_eq epsilon (f next.s_dot) d.nought ≡ false
        → solve n epsilon ceiling f current next ≡ pinch_expanded n epsilon f (some b)
    unfolding solve
    solve_bracket n ceiling current next b e off = rw (off, solve) (rw e refl)

    -- If the expansion of the solver's bracket finds one, which is not reversed and not below zero and
    -- in which the residual is a number, then with as many rounds as there are doubles in it, on
    -- doubles that round as IEEE 754 says: the solver of the backward integration settles on a path
    -- velocity. Its residual is zero within the tolerance; or it is an end of a bracket whose
    -- residuals straddle zero and whose middle is one of its ends, and the other end has no smaller
    -- residual.
    pub solve-Settles :
        (n : ℕ) (ceiling : D) (current next : PhasePoint D) (b : Bracket D)
        → IsRounded D
        → expand n f ceiling
            (d.magnitude (d.sub next.s_dot current.s_dot))
            (first_bracket epsilon f current next)
          ≡ ok (some b)
        → IsSearchable b
        → d.rank b.high < n + d.rank b.low
        → (v : D) × (solve n epsilon ceiling f current next ≡ ok (some v)) × IsSolution v
    unfolding first_bracket solve
    solve-Settles n ceiling current next b w e h room =
        let (bracket, across) =
          Holds-at (OrNone IsFound)
            (expand n f ceiling (d.magnitude (d.sub next.s_dot current.s_dot))
              (first_bracket epsilon f current next))
            (expand-IsFound n ceiling (d.magnitude (d.sub next.s_dot current.s_dot))
              (first_bracket epsilon f current next) (record { at_low = refl; at_high = refl }))
            e in
        elim (Bool-cases (wrap_eq epsilon (f next.s_dot) d.nought)) [
          | inl root ↦ (next.s_dot, rw (root, solve) refl, inl root)
          | inr off ↦
              let (r, settled) = pinch-Settles n b w h across room in
              (
                better_end r,
                solve_bracket n ceiling current next b e off ∙ pinched_lem n b r settled,
                better_end-IsSolution r (
                    Holds-at (OrNone IsOver) (pinch n epsilon f b) (pinch-IsOver n b bracket)
                      settled),
              )
        ]
