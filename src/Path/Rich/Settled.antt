-- ===== src/Path/Rich/Settled.antt =====
-- The hint of a path cursor (path.cpp) across `seek`.
use trajex.Double.Ieee.{IsIeee}
use trajex.Double.{Double, lt, le, eq, IsNumber}
use trajex.Double.Sorted.{upper_bound}
use trajex.Path.{
  PositionedSegment, TotgPath, Cursor, clamp, start_of, locate, update_hint, create_cursor, sought,
  seek,
}
use trajex.Path.Hint.{IsWellFormed, IsOnPath, update_hint-eq-locate, locate-found}
use trajex.Path.Segment.{Segment}
use trajex.Prelude.{
  ℕ, zero, suc, ◌<◌, ◌≡◌, refl, ap, subst, inl, inr, true, false, some, List, [], ◌∷◌, arith, ◌==◌,
  if◌then◌else◌, Bool-cases, length, get_elem?, Holds, Holds-throw_if, empty_path,
}

get_elem?-lt {ℓ} : {A : Type ℓ} (l : List A) (i : ℕ) {a : A} → get_elem? l i ≡ some a → i < length l
get_elem?-lt [] i e = cc
get_elem?-lt (x ∷ l) zero e = omega arith
get_elem?-lt (x ∷ l) (suc i) e = omega (arith, get_elem?-lt l i e)

module _ {D : Type 0} ⦃d : Double D⦄ (p : TotgPath (Segment D) D) where
  upper_bound-eq :
      (a b : D) (l : List (PositionedSegment (Segment D) D))
      → eq a b ≡ true
      → upper_bound start_of a l ≡ upper_bound start_of b l
  unfolding upper_bound
  upper_bound-eq a b [] e = refl
  upper_bound-eq a b (q ∷ l) e =
      let same : lt a q.start ≡ lt b q.start = ground arith in
      rw (same) (ap (λ n. if lt b q.start then 0 else suc n) (upper_bound-eq a b l e))

  pub locate-eq : (a b : D) → eq a b ≡ true → locate p a ≡ locate p b
  unfolding locate
  locate-eq a b e = rw (upper_bound-eq a b p.segments e) refl

  -- On the path the cursor is where it was sent.
  pub seek-position :
      (c : Cursor D) (s : D)
      → lt s d.nought ≡ false
      → lt p.total s ≡ false
      → (seek p c s).position ≡ s
  unfolding seek sought
  seek-position c s low high = rw (low, seek) (rw high refl)

  -- A place on the path.
  abbrev pub OnPath : D → Type 0
  OnPath s = (le d.nought s ≡ true) × (le s p.total ≡ true)

  -- The hint is on the path, and is the segment of the position wherever that is on the path.
  pub record IsSettled (c : Cursor D) : Type 0 where
    pub inside : c.hint < length p.segments
    pub settled : d.is_finite c.position ≡ true → c.hint ≡ locate p c.position

  module _ (w : IsWellFormed p) (ieee : IsIeee D) where
    -- A cursor that seeks past an end keeps its hint.
    ended :
        (c : Cursor D) (position : D)
        → d.is_finite position ≡ false
        → IsSettled c
        → IsSettled (record { position = position; hint = c.hint })
    ended c position out h = record { inside = h.inside; settled = λ f. cc }

    landed :
        (c : Cursor D) (s : D)
        → d.is_finite s ≡ true
        → lt s d.nought ≡ false
        → lt p.total s ≡ false
        → IsSettled c
        → IsSettled (record { position = s; hint = update_hint p s c.hint })
    landed c s finite low high h =
        let number : IsNumber s = ieee.finite_number s finite in
        let on : IsOnPath p s = record {
          number = number;
          from_zero = ground (arith, ieee.nought_number);
          to_total = ground (arith, w.total_number);
        } in
        let same = update_hint-eq-locate p w s c.hint on h.inside in
        let (e, found, _, _) = locate-found p w s on (omega (arith, h.inside)) in
        record {
          inside = rw same (get_elem?-lt p.segments (locate p s) found);
          settled = λ _. same;
        }

    within : (s : D) → IsNumber s → lt s d.nought ≡ false → lt p.total s ≡ false → OnPath s
    within s n low high = (ground (arith, ieee.nought_number), ground (arith, w.total_number))

    -- A cursor that is not past an end is where it was sent.
    pub seek-finite :
        (c : Cursor D) (s : D)
        → d.is_finite (seek p c s).position ≡ true
        → (seek p c s).position ≡ s
    unfolding seek sought
    seek-finite c s h = elim (Bool-cases (lt s d.nought)) [
      | inr nlow ↦ elim (Bool-cases (lt p.total s)) [
        | inr nhigh ↦ seek-position c s nlow nhigh
        | inl high ↦
            let far : (seek p c s).position ≡ d.infinity = rw (nlow, seek) (rw high refl) in
            absurd (cc (h, far, ieee.infinity_end))
      ]
      | inl low ↦
          let far : (seek p c s).position ≡ d.neg d.infinity = rw (low, seek) refl in
          absurd (cc (h, far, ieee.neg_infinity_end))
    ]

    -- Such a place is on the path.
    pub seek-OnPath :
        (c : Cursor D) (s : D)
        → d.is_finite (seek p c s).position ≡ true
        → OnPath (seek p c s).position
    unfolding seek sought
    seek-OnPath c s h =
        let at_s = seek-finite c s h in
        let number = ieee.finite_number (seek p c s).position h in
        elim (Bool-cases (lt s d.nought)) [
          | inr nlow ↦ elim (Bool-cases (lt p.total s)) [
            | inr nhigh ↦ rw at_s (within s (subst (λ t. IsNumber t) at_s number) nlow nhigh)
            | inl high ↦
                let far : (seek p c s).position ≡ d.infinity = rw (nlow, seek) (rw high refl) in
                absurd (cc (h, far, ieee.infinity_end))
          ]
          | inl low ↦
              let far : (seek p c s).position ≡ d.neg d.infinity = rw (low, seek) refl in
              absurd (cc (h, far, ieee.neg_infinity_end))
        ]

    pub seek-IsSettled : (c : Cursor D) (s : D) → IsSettled c → IsSettled (seek p c s)
    unfolding seek sought
    seek-IsSettled c s h = elim (Bool-cases (lt s d.nought)) [
      | inl low ↦ rw (low, seek) (rw (ieee.neg_infinity_end) (ended c _ ieee.neg_infinity_end h))
      | inr nlow ↦ elim (Bool-cases (lt p.total s)) [
        | inl high ↦
            rw (nlow, seek) (rw (high) (rw (ieee.infinity_end) (ended c _ ieee.infinity_end h)))
        | inr nhigh ↦ elim (Bool-cases (d.is_finite s)) [
          | inr lost ↦ rw (nlow, seek) (rw nhigh (rw lost (ended c s lost h)))
          | inl found ↦ rw (nlow, seek) (rw nhigh (rw found (landed c s found nlow nhigh h)))
        ]
      ]
    ]

    at_start :
        (s : D)
        → IsNumber s
        → lt p.total d.nought ≡ false
        → 0 < length p.segments
        → IsSettled (record {
          position = clamp s d.nought p.total;
          hint = update_hint p (clamp s d.nought p.total) 0;
        })
    at_start s number long filled =
        let on : IsOnPath p (clamp s d.nought p.total) = record {
          number = ground (arith, ieee.nought_number, w.total_number);
          from_zero = ground (arith, ieee.nought_number, w.total_number);
          to_total = ground (arith, ieee.nought_number, w.total_number);
        } in
        let same = update_hint-eq-locate p w (clamp s d.nought p.total) 0 on filled in
        let (e, found, _, _) = locate-found p w (clamp s d.nought p.total) on filled in
        record {
          inside = rw same (get_elem?-lt p.segments (locate p (clamp s d.nought p.total)) found);
          settled = λ _. same;
        }

    -- A new cursor on a path that is not shorter than zero.
    pub create_cursor-IsSettled :
        (s : D) → IsNumber s → lt p.total d.nought ≡ false → Holds IsSettled (create_cursor p s)
    unfolding create_cursor
    create_cursor-IsSettled s number long =
        Holds-throw_if IsSettled (length p.segments == 0) empty_path _
          (λ full. at_start s number long (ground arith))
