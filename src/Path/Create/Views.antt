-- ===== src/Path/Create/Views.antt =====
-- The views of the segments of a path from path::create, as its iterator gives them (path.cpp).
use mathlib.Core.Option.{some-injective}
use trajex.Double.{Double}
use trajex.Xtensor.{Xtensor}
use trajex.Path.{PositionedSegment, TotgPath, View, stop_at, view_at}
use trajex.Path.Segment.{Segment, length_of}
use trajex.Path.Blend.{PathOptions}
use trajex.Path.Create.{create}
use trajex.Path.Create.Layout.{IsLaid, create-IsPath}
use trajex.WaypointUtils.{Batch}
use trajex.Prelude.{
  ℕ, zero, suc, ◌≡◌, refl, sym, ap, ◌∙◌, subst, inl, inr, none, some, List, [], ◌∷◌, Option-cases,
  get_elem?, ok,
}

module _ {D : Type 0} ⦃d : Double D⦄ where
  -- Where the segment at a place ends.
  abbrev stop_in : List (PositionedSegment (Segment D) D) → D → ℕ → D
  stop_in l total i = elim (get_elem? l (suc i)) [ none ↦ total | some e ↦ e.start ]

  abbrev Ends : D → PositionedSegment (Segment D) D → Type 0
  Ends stop e = stop ≡ d.add e.start (length_of e.seg)

  laid-Ends :
      (from total : D) (l : List (PositionedSegment (Segment D) D))
      → IsLaid from l total
      → (i : ℕ) (e : PositionedSegment (Segment D) D) → get_elem? l i ≡ some e
      → Ends (stop_in l total i) e
  laid-Ends from total [] h i e g = cc
  laid-Ends from total (q ∷ []) h zero e g =
      subst (Ends total) (some-injective q e g)
        (sym h.1 ∙ ap (λ t. d.add t (length_of q.seg)) (sym h.0))
  laid-Ends from total (q ∷ f ∷ l) h zero e g =
      subst (Ends f.start) (some-injective q e g)
        (h.1.0 ∙ ap (λ t. d.add t (length_of q.seg)) (sym h.0))
  laid-Ends from total (q ∷ []) h (suc i) e g = cc
  laid-Ends from total (q ∷ f ∷ l) h (suc i) e g =
      laid-Ends (d.add from (length_of q.seg)) total (f ∷ l) h.1 i e g

module _ {D : Type 0} ⦃d : Double D⦄ ⦃x : Xtensor D⦄ where
  -- On a path that `create` returned, the view of each segment ends at the place where it starts plus
  -- the length of the segment, by the addition of doubles, whether or not a segment follows it.
  pub create-view_at :
      (waypoints : Batch D) (opts : PathOptions D) (p : TotgPath (Segment D) D) (i : ℕ)
      (v : View (Segment D) D)
      → create waypoints opts ≡ ok p
      → view_at p i ≡ some v
      → v.stop ≡ d.add v.start (length_of v.of_segment)
  unfolding view_at
  create-view_at waypoints opts p i v made here =
      let laid = (create-IsPath waypoints opts p made).laid in
      elim (Option-cases (get_elem? p.segments i)) [
        | inl e ↦
            let missing : view_at p i ≡ none = rw (e, view_at) refl in absurd (cc (missing, here))
        | inr (e, g) ↦
            let found : view_at p i
                ≡ some (record { of_segment = e.seg; start = e.start; stop = stop_at p i }) =
              rw (g, view_at) refl in
            subst (λ (u : View (Segment D) D). u.stop ≡ d.add u.start (length_of u.of_segment))
              (some-injective _ v (sym found ∙ here))
              (laid-Ends d.nought p.total p.segments laid i e g)
      ]
