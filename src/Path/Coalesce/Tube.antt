-- ===== src/Path/Coalesce/Tube.antt =====
-- The waypoints that the colinearization of path::create (path.cpp) keeps and drops.
use mathlib.Core.List.{append_assoc}
use trajex.Double.{Double, lt, le, eq, two}
use trajex.Xtensor.{Xtensor}
use trajex.WaypointUtils.{Batch}
use trajex.WaypointUtils.Dedup.{IsEven, add_waypoint_lem, from_waypoint_lem}
use trajex.Path.Coalesce.{locus_within_tolerance, all_of, can_skip, coalesce_from, colinearize}
use trajex.Prelude.{
  ◌≡◌, refl, ◌∙◌, subst, inl, inr, Bool, true, false, ◌||◌, List, [], ◌∷◌, ◌++◌, arith, Bool-cases,
  length, All, All-append, ok,
}

pub all_of-All {ℓ} :
    {A : Type ℓ} (f : A → Bool) (l : List A) → all_of f l ≡ true → All (λ a. f a ≡ true) l
all_of-All f [] h = tt
all_of-All f (a ∷ l) h = (ground arith, all_of-All f l (ground arith))

pub All-map {ℓ} :
    {A : Type ℓ} (P Q : A → Type 0) (l : List A) → ((a : A) → P a → Q a) → All P l → All Q l
All-map P Q [] f h = tt
All-map P Q (a ∷ l) f h = (f a h.0, All-map P Q l f h.1)

module _ {D : Type 0} ⦃d : Double D⦄ ⦃x : Xtensor D⦄ (radius : D) where
  abbrev along : List D → List D → List D → D
  along base target locus = x.sum (x.times (x.minus locus base) (x.minus target base))

  -- The waypoint projects between the ends of the segment, and is within the radius of where it does.
  pub record IsNear (base target locus : List D) : Type 0 where
    pub onward : lt (along base target locus) d.nought ≡ false
    pub short : lt (along base target target) (along base target locus) ≡ false
    pub close :
        le
          (x.norm_l2 (
            x.minus locus (
              x.plus base (
                x.scale
                  (d.div (along base target locus) (along base target target))
                  (x.minus target base)))))
          radius
        ≡ true

  abbrev IsDropped : List D → List D → List (List D) → Type 0
  IsDropped base target [] = Unit
  IsDropped base target (q ∷ l) =
      (x.all_zero (x.minus target base) ≡ false) × All (IsNear base target) (q ∷ l)

  -- `Tube base rest kept`: of the waypoints `rest` behind `base` those in `kept` are kept, the last
  -- one among them. The others are in the tubes around the segments between those that are kept,
  -- and segments with a waypoint dropped beside them are not points.
  pub data Tube : List D → List (List D) → List (List D) → Type 0 where
    arrived : {base : List D} → Tube base [] []
    hop :
        {base target : List D} {rest kept : List (List D)} (skipped : List (List D))
        → IsDropped base target skipped
        → Tube target rest kept
        → Tube base (skipped ++ target ∷ rest) (target ∷ kept)

  near_lem :
      (base target locus : List D)
      → locus_within_tolerance radius base (x.minus target base) (along base target target) locus
        ≡ true
      → IsNear base target locus
  unfolding locus_within_tolerance
  near_lem base target locus h =
      let dot = along base target locus in
      elim (Bool-cases (lt dot d.nought || lt (along base target target) dot)) [
        | inl outside ↦
            let far : locus_within_tolerance radius base (x.minus target base)
                  (along base target target) locus
                ≡ false =
              rw (outside, locus_within_tolerance) refl in
            absurd (cc (h, far))
        | inr inside ↦ record {
          onward = ground arith;
          short = ground arith;
          close = rw inside at h;
        }
      ]

  IsDropped-all :
      (base target : List D) (l : List (List D))
      → x.all_zero (x.minus target base) ≡ false
      → All (IsNear base target) l
      → IsDropped base target l
  IsDropped-all base target [] z h = tt
  IsDropped-all base target (q ∷ l) z h = (z, h)

  dropped_lem :
      (base candidate target : List D) (skipped : List (List D))
      → can_skip radius base skipped candidate target ≡ true
      → IsDropped base target (skipped ++ candidate ∷ [])
  unfolding can_skip
  dropped_lem base candidate target skipped h =
      let within : List D → Bool =
        locus_within_tolerance radius base (x.minus target base) (along base target target) in
      let apart : x.all_zero (x.minus target base) ≡ false = ground arith in
      let rest : all_of within skipped ≡ true = ground arith in
      let here : within candidate ≡ true = ground arith in
      IsDropped-all base target (skipped ++ candidate ∷ []) apart (
        All-append (IsNear base target) skipped (candidate ∷ [])
          (All-map (λ q. within q ≡ true) (IsNear base target) skipped (near_lem base target)
            (all_of-All within skipped rest))
          (near_lem base target candidate here, tt))

  coalesce_from_lem :
      (rest : List (List D)) (a : Batch D) (base : List D) (skipped : List (List D)) (c : List D)
      → IsDropped base c skipped
      → All (λ r. length r ≡ a.dof) (c ∷ rest)
      → (kept : List (List D)) × (coalesce_from radius a base skipped (c ∷ rest)
          ≡ ok (record a { waypoints = a.waypoints ++ kept }))
        × Tube base (skipped ++ c ∷ rest) kept
  unfolding coalesce_from
  coalesce_from_lem [] a base skipped c near even =
      (c ∷ [], add_waypoint_lem a c even.0, hop skipped near arrived)
  coalesce_from_lem (t ∷ rest) a base skipped c near even =
      elim (Bool-cases (can_skip radius base skipped c t)) [
        | inl skips ↦
            let (kept, e, tube) =
              coalesce_from_lem rest a base (skipped ++ c ∷ []) t
                (dropped_lem base c t skipped skips) even.1 in
            (
              kept,
              rw (skips, coalesce_from) e,
              subst (λ l. Tube base l kept) (append_assoc skipped (c ∷ []) (t ∷ rest)) tube,
            )
        | inr stays ↦
            let added : Batch D = record a { waypoints = a.waypoints ++ c ∷ [] } in
            let (kept, e, tube) = coalesce_from_lem rest added c [] t tt even.1 in
            (
              c ∷ kept,
              rw (stays, coalesce_from)
                  (rw (add_waypoint_lem a c even.0)
                    (e ∙ rw (append_assoc a.waypoints (c ∷ []) kept))),
              hop skipped near tube,
            )
      ]

module _ {D : Type 0} ⦃d : Double D⦄ ⦃x : Xtensor D⦄ where
  -- With a linear deviation other than zero, and one waypoint or more of one width, the
  -- colinearization succeeds and keeps the first waypoint and the last. Each waypoint that it drops
  -- projects between the kept waypoints before and behind it and is within half the deviation of the
  -- line between them, which are not one point; also where more than one is dropped in a row.
  pub colinearize-Tube :
      (max_linear_deviation : D) (a : Batch D) (first : List D) (rest : List (List D))
      → eq max_linear_deviation d.nought ≡ false
      → IsEven a
      → a.waypoints ≡ first ∷ rest
      → (kept : List (List D)) × (colinearize max_linear_deviation a
          ≡ ok (record { dof = a.dof; waypoints = first ∷ kept }))
        × Tube (d.div max_linear_deviation two) first rest kept
  unfolding colinearize coalesce_from
  colinearize-Tube max_linear_deviation a first [] n even e =
      let evens : All (λ r. length r ≡ a.dof) (first ∷ []) = rw e at even in
      ([], rw (n, colinearize) (rw e (rw (from_waypoint_lem first a.dof evens.0) refl)), arrived)
  colinearize-Tube max_linear_deviation a first (c ∷ rest) n even e =
      let evens : All (λ r. length r ≡ a.dof) (first ∷ c ∷ rest) = rw e at even in
      let (kept, f, tube) =
        coalesce_from_lem (d.div max_linear_deviation two) rest
          (record { dof = a.dof; waypoints = first ∷ [] }) first [] c tt evens.1 in
      (kept, rw (n, colinearize) (rw e (rw (from_waypoint_lem first a.dof evens.0) f)), tube)
