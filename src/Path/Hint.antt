-- ===== src/Path/Hint.antt =====
-- path::cursor::update_hint_ (path.cpp) and the binary search that its shortcuts stand for.
use trajex.Prelude.{
  ℕ, suc, ◌-◌, ◌≤◌, ◌<◌, ◌≡◌, sym, ◌∙◌, ◌⊎◌, inl, inr, true, false, not, ◌&&◌, none, some, List, [],
  ◌∷◌, arith, ◌==◌, Bool-cases, Option-cases, length, get_elem?, get_elem?-some,
}
use trajex.Double.{Double, eq, IsNumber}
use trajex.Double.Sorted.{
  upper_bound, IsIncreasing, IsIncreasing-IsNumber, rank_mono, upper_bound_at, upper_bound_found,
}
use trajex.Path.{
  PositionedSegment, TotgPath, View, start_of, stop_at, view_at, in_view, holds, locate,
  boundary_hint, far_hint, update_hint,
}

get_elem?-pos {ℓ} :
    {A : Type ℓ} (l : List A) (i : ℕ) {x : A} → get_elem? l i ≡ some x → 0 < length l
get_elem?-pos [] i e = cc
get_elem?-pos (y ∷ l) i e = omega arith

module _ {S D : Type 0} ⦃d : Double D⦄ (p : TotgPath S D) where
  -- The segments begin at zero or below, at strictly increasing arc lengths short of the path's.
  pub record IsWellFormed : Type 0 where
    pub increasing : IsIncreasing start_of p.segments
    pub total_number : IsNumber p.total
    pub begins :
        (e : PositionedSegment S D)
        → get_elem? p.segments 0 ≡ some e
        → d.rank e.start ≤ d.rank d.nought
    pub bounded :
        (i : ℕ) (e : PositionedSegment S D)
        → get_elem? p.segments i ≡ some e
        → d.rank e.start < d.rank p.total

  pub record IsOnPath (position : D) : Type 0 where
    pub number : IsNumber position
    pub from_zero : d.rank d.nought ≤ d.rank position
    pub to_total : d.rank position ≤ d.rank p.total

  module _ (w : IsWellFormed) where
    view_inv :
        (i : ℕ) (v : View S D)
        → view_at p i ≡ some v
        → (e : PositionedSegment S D) × (get_elem? p.segments i ≡ some e)
          × (v.start ≡ e.start)
          × (v.stop ≡ stop_at p i)
    unfolding view_at
    view_inv i v h = elim (Option-cases (get_elem? p.segments i)) [
      | inl e ↦ ground arith
      | inr (e, g) ↦ (e, g, ground arith, ground arith)
    ]

    view_at-some :
        (i : ℕ) (e : PositionedSegment S D)
        → get_elem? p.segments i ≡ some e
        → view_at p i ≡ some (record { of_segment = e.seg; start = e.start; stop = stop_at p i })
    unfolding view_at
    view_at-some i e g = rw (g, view_at)

    -- A segment that holds a position is the one that the binary search finds.
    locate-in_view :
        (position : D) (i : ℕ) (v : View S D)
        → IsNumber position
        → view_at p i ≡ some v
        → in_view position v ≡ true
        → locate p position ≡ i
    unfolding locate
    locate-in_view position i v n h inside =
        let (e, g, st, en) = view_inv i v h in
        let found : upper_bound start_of position p.segments ≡ suc i =
          upper_bound_at start_of position p.segments i w.increasing n g (ground arith)
            (λ b f. let stop : v.stop ≡ b.start = en ∙ rw (f, stop_at) in ground arith) in
        rw found (ground arith)

    holds_inv :
        (position : D) (i : ℕ)
        → holds p position i ≡ true
        → (v : View S D) × (view_at p i ≡ some v) × (in_view position v ≡ true)
    holds_inv position i h = elim (Option-cases (view_at p i)) [
      | inl e ↦ ground arith
      | inr (v, e) ↦ (v, e, ground arith)
    ]

    locate-holds :
        (position : D) (i : ℕ)
        → IsNumber position
        → holds p position i ≡ true
        → locate p position ≡ i
    locate-holds position i n h =
        let (v, e, inside) = holds_inv position i h in locate-in_view position i v n e inside

    -- A segment ends after it starts.
    stop-above :
        (i : ℕ) (e : PositionedSegment S D)
        → get_elem? p.segments i ≡ some e
        → (d.rank e.start < d.rank (stop_at p i)) × IsNumber (stop_at p i)
    stop-above i e g = elim (Option-cases (get_elem? p.segments (suc i))) [
      | inl last ↦ rw (last, stop_at) (w.bounded i e g, w.total_number)
      | inr (b, next) ↦
          rw (next, stop_at)
            (
              rank_mono start_of p.segments i (suc i) w.increasing (omega arith) g next,
              IsIncreasing-IsNumber start_of p.segments (suc i) w.increasing next,
            )
    ]

    -- At the end of a segment the next one holds the position, and the last one keeps it.
    locate-boundary :
        (position : D) (i : ℕ) (v : View S D)
        → IsOnPath position
        → view_at p i ≡ some v
        → eq position v.stop ≡ true
        → locate p position ≡ boundary_hint p position i
    unfolding view_at locate
    locate-boundary position i v on h at_stop =
        let (e, g, st, en) = view_inv i v h in
        elim (Option-cases (get_elem? p.segments (suc i))) [
          | inl last ↦
              let stop : v.stop ≡ p.total = en ∙ rw (last, stop_at) in
              let none_next : holds p position (suc i) ≡ false = rw (last, holds) in
              let found : upper_bound start_of position p.segments ≡ suc i =
                upper_bound_at start_of position p.segments i w.increasing on.number g
                  (ground (arith, w.bounded i e g)) (λ b f. ground arith) in
              rw (none_next, found) (ground arith)
          | inr (b, next) ↦
              let stop : v.stop ≡ b.start = en ∙ rw (next, stop_at) in
              let inside : holds p position (suc i) ≡ true =
                (let (above, num) = stop-above (suc i) b next in
                  let b_num = IsIncreasing-IsNumber start_of p.segments (suc i) w.increasing next in
                  rw (next, holds) (ground arith)) in
              locate-holds position (suc i) on.number inside ∙ rw inside
        ]

    locate-far :
        (position : D) (i : ℕ) → IsNumber position → locate p position ≡ far_hint p position i
    locate-far position i n = elim (Bool-cases (not (i == 0) && holds p position (i - 1))) [
      | inl t ↦ rw t (locate-holds position (i - 1) n (ground arith))
      | inr f ↦ rw f (elim (Bool-cases (holds p position (suc i))) [
        | inl t' ↦ rw t' (locate-holds position (suc i) n t')
        | inr f' ↦ rw f'
      ])
    ]

    -- On a well-formed path the cursor's hint, whichever segment it was at before, is moved to the
    -- segment that the binary search finds for a position on the path, whichever shortcut answers.
    pub update_hint-eq-locate :
        (position : D) (hint : ℕ)
        → IsOnPath position
        → hint < length p.segments
        → update_hint p position hint ≡ locate p position
    unfolding update_hint
    update_hint-eq-locate position hint on h =
        let (e, g) = get_elem?-some p.segments hint h in
        let v : View S D = record { of_segment = e.seg; start = e.start; stop = stop_at p hint } in
        let here : view_at p hint ≡ some v = view_at-some hint e g in
        elim (Bool-cases (in_view position v)) [
          | inl inside ↦
              rw (here, update_hint, inside)
                (sym (locate-in_view position hint v on.number here inside))
          | inr outside ↦ elim (Bool-cases (eq position v.stop)) [
            | inl stop ↦
                rw (here, update_hint, outside, stop)
                  (sym (locate-boundary position hint v on here stop))
            | inr away ↦
                rw (here, update_hint, outside, away) (sym (locate-far position hint on.number))
          ]
        ]

    -- That segment holds the position: it starts at or before it, and the next one, if there is
    -- one, starts after it.
    pub locate-found :
        (position : D)
        → IsOnPath position
        → 0 < length p.segments
        → (e : PositionedSegment S D) × (get_elem? p.segments (locate p position) ≡ some e)
          × (d.rank e.start ≤ d.rank position)
          × ((b : PositionedSegment S D)
              → get_elem? p.segments (suc (locate p position)) ≡ some b
              → d.rank position < d.rank b.start)
    unfolding locate
    locate-found position on h =
        let (x, g0) = get_elem?-some p.segments 0 h in
        let (i, a, u, g, below, next) =
          upper_bound_found start_of position p.segments w.increasing on.number x g0
            (omega (arith, w.begins x g0, on.from_zero)) in
        let found : locate p position ≡ i = rw u (ground arith) in rw found (a, g, below, next)

    -- On a well-formed path with a segment the binary search finds, for a position on the path, a
    -- segment that starts at or before it; it is the last one, or the one behind it starts after it.
    pub locate-between :
        (position : D)
        → IsOnPath position
        → 0 < length p.segments
        → (e : PositionedSegment S D) × (get_elem? p.segments (locate p position) ≡ some e)
          × (d.rank e.start ≤ d.rank position)
          × ((get_elem? p.segments (suc (locate p position)) ≡ none)
              ⊎ ((b : PositionedSegment S D) × (get_elem? p.segments (suc (locate p position))
                    ≡ some b)
                  × (d.rank position < d.rank b.start)))
    locate-between position on h =
        let (e, found, below, above) = locate-found position on h in
        (
          e,
          found,
          below,
          elim (Option-cases (get_elem? p.segments (suc (locate p position)))) [
            | inl last ↦ inl last
            | inr (b, next) ↦ inr (b, next, above b next)
          ],
        )
