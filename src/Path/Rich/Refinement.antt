-- ===== src/Path/Rich/Refinement.antt =====
-- What path::cursor::rich (path.cpp) answers, against the cursor that computes anew.
use trajex.Double.Ieee.{IsIeee}
use trajex.Double.{Double, eq}
use trajex.Path.{TotgPath, Cursor, seek}
use trajex.Path.Hint.{IsWellFormed}
use trajex.Path.Segment.{Segment}
use trajex.Path.Rich.{
  cursor_at_sentinel, Rich, cursor_configuration, cursor_tangent, cursor_curvature, invalidate,
  rich_seek, cached, configuration_ref, tangent_ref, curvature_ref,
}
use trajex.Path.Rich.Settled.{IsSettled, locate-eq, seek-IsSettled}
use trajex.Prelude.{
  ℕ, ◌≡◌, refl, sym, ◌∙◌, subst, inl, inr, Bool, true, false, List, arith, Bool-cases, length,
  Result, ok, err, Result-cases,
}

module _ {D : Type 0} ⦃d : Double D⦄ (p : TotgPath (Segment D) D) where
  -- What a plain cursor answers, at a position that compares equal to this cursor's.
  abbrev pub Current : (Cursor D → ℕ → Result (List D)) → Cursor D → List D → Type 0
  Current fill c v =
      (q : D) × (n : ℕ) × (eq q c.position ≡ true)
      × (d.is_finite q ≡ true)
      × (fill (record { position = q; hint = c.hint }) n ≡ ok v)

  -- Each array whose bit is set holds what a plain cursor answers.
  pub record IsCoherent (r : Rich D) : Type 0 where
    pub settled : IsSettled p r.plain
    pub configurations :
        r.has_configuration ≡ true → Current (cursor_configuration p) r.plain r.configuration
    pub tangents : r.has_tangent ≡ true → Current (cursor_tangent p) r.plain r.tangent
    pub curvatures : r.has_curvature ≡ true → Current (cursor_curvature p) r.plain r.curvature

  abbrev Filled : (Cursor D → ℕ → Result (List D)) → Cursor D → ℕ → Result (List D) → Type 0
  Filled fill c size (ok v) = Current fill c v
  Filled fill c size (err e) = fill c size ≡ err e

  -- What a query may return: an answer that is current, or the error of a plain cursor.
  abbrev pub Answers :
      (Cursor D → ℕ → Result (List D)) → ℕ → Rich D → Result (Rich D × List D) → Type 0
  Answers fill size r (ok (r', v)) = IsCoherent r' × (r'.plain ≡ r.plain) × Current fill r.plain v
  Answers fill size r (err e) = fill r.plain size ≡ err e

  filled_configuration :
      (c : Cursor D) (n : ℕ) (v : List D)
      → cursor_configuration p c n ≡ ok v
      → d.is_finite c.position ≡ true
  unfolding cursor_configuration
  filled_configuration c n v h = elim (Bool-cases (d.is_finite c.position)) [
    | inl finite ↦ finite
    | inr out ↦
        let refused : cursor_configuration p c n ≡ err cursor_at_sentinel =
          rw (out, cursor_configuration) in
        absurd (cc (refused, h))
  ]

  filled_tangent :
      (c : Cursor D) (n : ℕ) (v : List D)
      → cursor_tangent p c n ≡ ok v
      → d.is_finite c.position ≡ true
  unfolding cursor_tangent
  filled_tangent c n v h = elim (Bool-cases (d.is_finite c.position)) [
    | inl finite ↦ finite
    | inr out ↦
        let refused : cursor_tangent p c n ≡ err cursor_at_sentinel = rw (out, cursor_tangent) in
        absurd (cc (refused, h))
  ]

  filled_curvature :
      (c : Cursor D) (n : ℕ) (v : List D)
      → cursor_curvature p c n ≡ ok v
      → d.is_finite c.position ≡ true
  unfolding cursor_curvature
  filled_curvature c n v h = elim (Bool-cases (d.is_finite c.position)) [
    | inl finite ↦ finite
    | inr out ↦
        let refused : cursor_curvature p c n ≡ err cursor_at_sentinel =
          rw (out, cursor_curvature) in
        absurd (cc (refused, h))
  ]

  module _ (ieee : IsIeee D) where
    fresh :
        (fill : Cursor D → ℕ → Result (List D)) (c : Cursor D) (n : ℕ) {v : List D}
        → d.is_finite c.position ≡ true
        → fill c n ≡ ok v
        → Current fill c v
    fresh fill c n finite h =
        let number = ieee.finite_number c.position finite in
        (c.position, n, ground (arith, number), finite, h)

    -- One array: as it stands if its bit is set, else filled.
    cached_lem :
        (fill : Cursor D → ℕ → Result (List D)) (c : Cursor D)
        → ((n : ℕ) (v : List D) → fill c n ≡ ok v → d.is_finite c.position ≡ true)
        → (storage : List D) (bit : Bool) → (bit ≡ true → Current fill c storage)
        → (r : Result (List D)) → cached storage bit (fill c) ≡ r
        → Filled fill c (length storage) r
    cached_lem fill c finite storage true now (ok v) e = subst (Current fill c) (cc e) (now refl)
    cached_lem fill c finite storage true now (err x) e = cc
    cached_lem fill c finite storage false now (ok v) e =
        fresh fill c (length storage) (finite (length storage) v e) e
    cached_lem fill c finite storage false now (err x) e = e

    configuration_ref_lem :
        (r : Rich D)
        → IsCoherent r
        → Answers (cursor_configuration p) (length r.configuration) r (configuration_ref p r)
    unfolding configuration_ref
    configuration_ref_lem r c =
        let filled =
          cached_lem (cursor_configuration p) r.plain (filled_configuration r.plain) r.configuration
            r.has_configuration c.configurations in
        elim (Result-cases
          (cached r.configuration r.has_configuration (cursor_configuration p r.plain))) [
            | inr (e, h) ↦ rw (h, configuration_ref) (filled (err e) h)
            | inl (v, h) ↦
                let now = filled (ok v) h in
                rw (h, configuration_ref)
                  (
                    record {
                      settled = c.settled;
                      configurations = λ _. now;
                      tangents = c.tangents;
                      curvatures = c.curvatures;
                    },
                    refl,
                    now,
                  )
          ]

    tangent_ref_lem :
        (r : Rich D)
        → IsCoherent r
        → Answers (cursor_tangent p) (length r.tangent) r (tangent_ref p r)
    unfolding tangent_ref
    tangent_ref_lem r c =
        let filled =
          cached_lem (cursor_tangent p) r.plain (filled_tangent r.plain) r.tangent r.has_tangent
            c.tangents in
        elim (Result-cases (cached r.tangent r.has_tangent (cursor_tangent p r.plain))) [
          | inr (e, h) ↦ rw (h, tangent_ref) (filled (err e) h)
          | inl (v, h) ↦
              let now = filled (ok v) h in
              rw (h, tangent_ref)
                (
                  record {
                    settled = c.settled;
                    configurations = c.configurations;
                    tangents = λ _. now;
                    curvatures = c.curvatures;
                  },
                  refl,
                  now,
                )
        ]

    curvature_ref_lem :
        (r : Rich D)
        → IsCoherent r
        → Answers (cursor_curvature p) (length r.curvature) r (curvature_ref p r)
    unfolding curvature_ref
    curvature_ref_lem r c =
        let filled =
          cached_lem (cursor_curvature p) r.plain (filled_curvature r.plain) r.curvature
            r.has_curvature c.curvatures in
        elim (Result-cases (cached r.curvature r.has_curvature (cursor_curvature p r.plain))) [
          | inr (e, h) ↦ rw (h, curvature_ref) (filled (err e) h)
          | inl (v, h) ↦
              let now = filled (ok v) h in
              rw (h, curvature_ref)
                (
                  record {
                    settled = c.settled;
                    configurations = c.configurations;
                    tangents = c.tangents;
                    curvatures = λ _. now;
                  },
                  refl,
                  now,
                )
        ]

    -- Each of the three queries of a coherent rich cursor returns a coherent one at the same place, and
    -- what a plain cursor there answers at a position that compares equal; or it throws what the plain
    -- cursor throws. The doubles are those of IEEE 754.
    pub queries-Answers :
        (r : Rich D)
        → IsCoherent r
        → Answers (cursor_configuration p) (length r.configuration) r (configuration_ref p r)
          × Answers (cursor_tangent p) (length r.tangent) r (tangent_ref p r)
          × Answers (cursor_curvature p) (length r.curvature) r (curvature_ref p r)
    queries-Answers r c = (configuration_ref_lem r c, tangent_ref_lem r c, curvature_ref_lem r c)

    module _ (w : IsWellFormed p) where
      kept :
          (fill : Cursor D → ℕ → Result (List D)) (before after : Cursor D) (v : List D)
          → IsSettled p before
          → IsSettled p after
          → eq after.position before.position ≡ true
          → Current fill before v
          → Current fill after v
      kept fill before after v hb ha e (q, n, same, finite, h) =
          let was : d.is_finite before.position ≡ true =
            sym (ieee.finite_eq q before.position same) ∙ finite in
          let is : d.is_finite after.position ≡ true =
            ieee.finite_eq after.position before.position e ∙ was in
          let hint : before.hint ≡ after.hint =
            hb.settled was
            ∙ sym (locate-eq p after.position before.position e)
            ∙ sym (ha.settled is) in
          (
            q,
            n,
            ground arith,
            finite,
            subst (λ k. fill (record { position = q; hint = k }) n ≡ ok v) hint h,
          )

      -- On a well-formed path, with the doubles of IEEE 754, a coherent rich cursor stays coherent
      -- when it seeks.
      pub rich_seek-IsCoherent : (r : Rich D) (s : D) → IsCoherent r → IsCoherent (rich_seek p r s)
      unfolding rich_seek
      rich_seek-IsCoherent r s c =
          let moved = seek p r.plain s in
          let settled = seek-IsSettled p w ieee r.plain s c.settled in
          elim (Bool-cases (eq moved.position r.plain.position)) [
            | inr away ↦
                rw (away, rich_seek, invalidate)
                  (record {
                    settled = settled;
                    configurations = λ e. cc;
                    tangents = λ e. cc;
                    curvatures = λ e. cc;
                  })
            | inl here ↦
                rw (here, rich_seek)
                  (record {
                    settled = settled;
                    configurations = λ e.
                        kept (cursor_configuration p) r.plain moved r.configuration c.settled
                          settled here (c.configurations e);
                    tangents = λ e.
                        kept (cursor_tangent p) r.plain moved r.tangent c.settled settled here
                          (c.tangents e);
                    curvatures = λ e.
                        kept (cursor_curvature p) r.plain moved r.curvature c.settled settled here
                          (c.curvatures e);
                  })
          ]
