-- ===== src/WaypointUtils/Dedup.antt =====
-- What `deduplicate_waypoints` keeps.
use mathlib.Core.List.{append-nil, append_assoc}
use trajex.Prelude.{
  ℕ, ◌≡◌, refl, ap, ◌∙◌, ◌⊎◌, inl, inr, true, false, not, ◌&&◌, some, List, [], ◌∷◌, ◌++◌, arith,
  ltb, if◌then◌else◌, Bool-cases, length, drop_last, last?, All, length-append, last?-append_one,
  drop_last-append_one, All-last?, ok,
}
use trajex.Double.{Double}
use trajex.Xtensor.{Xtensor}
use trajex.Waypoints.{from_waypoint, add_waypoint}
use trajex.WaypointUtils.{
  Batch, row_width, is_far, keep_if_far, keep_far, restore_last, deduplicate_waypoints,
}
use trajex.WaypointUtils.Thinning.{
  thinned, IsSpaced, thinned-IsSpaced, drop_last-IsSpaced, Keeps, thinned-Keeps, thinned-nil,
  Keeps-restore, take_one,
}

module _ {D : Type 0} where
  -- Every row of a batch is as wide as the batch says.
  abbrev pub IsEven : Batch D → Type 0
  IsEven a = All (λ r. length r ≡ a.dof) a.waypoints

  pub add_waypoint_lem :
      (a : Batch D) (r : List D)
      → length r ≡ a.dof
      → add_waypoint row_width a r ≡ ok (record a { waypoints = a.waypoints ++ r ∷ [] })
  unfolding add_waypoint
  add_waypoint_lem a r e = ground arith

  pub from_waypoint_lem :
      (r : List D) (w : ℕ)
      → length r ≡ w
      → from_waypoint row_width r ≡ record { dof = w; waypoints = r ∷ [] }
  unfolding from_waypoint
  from_waypoint_lem r w e = rw e

module _ {D : Type 0} ⦃d : Double D⦄ ⦃x : Xtensor D⦄ (tolerance : D) where
  keep_far_lem :
      (ws : List (List D)) (a : Batch D) (kept : List D)
      → last? a.waypoints ≡ some kept
      → All (λ r. length r ≡ a.dof) ws
      → keep_far tolerance a ws
        ≡ ok (record a { waypoints = a.waypoints ++ thinned (is_far tolerance) kept ws })
  unfolding keep_far thinned
  keep_far_lem [] a kept e even = rw (append-nil a.waypoints)
  keep_far_lem (w ∷ ws) a kept e even = elim (Bool-cases (is_far tolerance kept w)) [
    | inl far ↦
        rw (e, keep_if_far, far)
          (rw (add_waypoint_lem a w even.0) (
            keep_far_lem ws (record a { waypoints = a.waypoints ++ w ∷ [] }) w
              (last?-append_one a.waypoints w) even.1
            ∙ rw (append_assoc a.waypoints (w ∷ []) (thinned (is_far tolerance) w ws))))
    | inr near ↦ rw (e, keep_if_far, near) (keep_far_lem ws a kept e even.1)
  ]

  last?-cons : (r : List D) (l : List (List D)) → (z : List D) × (last? (r ∷ l) ≡ some z)
  last?-cons r [] = (r, refl)
  last?-cons r (q ∷ l) = last?-cons q l

  abbrev restored : List (List D) → List D → List D → List (List D)
  restored l kept z = if ltb 1 (length l) && not (x.row_eq kept z) then drop_last l ++ z ∷ [] else l

  restore_last_lem :
      (a : Batch D) (kept z : List D)
      → last? a.waypoints ≡ some kept
      → length z ≡ a.dof
      → restore_last a z ≡ ok (record a { waypoints = restored a.waypoints kept z })
  unfolding restore_last
  restore_last_lem a kept z e w =
      elim (Bool-cases (ltb 1 (length a.waypoints) && not (x.row_eq kept z))) [
        | inl t ↦
            rw (e, restore_last, t)
              (add_waypoint_lem (record a { waypoints = drop_last a.waypoints }) z w)
        | inr f ↦ rw (e, restore_last, f)
      ]

  -- What a thinned-out sequence `l` is, of the waypoints `first ∷ rest`.
  pub record IsDeduplicated (first : List D) (rest l : List (List D)) : Type 0 where
    pub keeps : Keeps l (first ∷ rest)
    pub starts : (l' : List (List D)) × (l ≡ first ∷ l')
    pub spaced : IsSpaced (is_far tolerance) (drop_last l)
    pub ends :
        (l ≡ first ∷ [])
        ⊎ ((k z : List D) × (last? l ≡ some k)
            × (last? (first ∷ rest) ≡ some z)
            × ((k ≡ z) ⊎ (x.row_eq k z ≡ true)))
    pub collapsed : l ≡ first ∷ [] → All (λ w. is_far tolerance first w ≡ false) rest

  restored-IsDeduplicated :
      (first : List D) (rest t : List (List D)) (kept z : List D)
      → Keeps t rest
      → IsSpaced (is_far tolerance) (first ∷ t)
      → (t ≡ [] → All (λ w. is_far tolerance first w ≡ false) rest)
      → last? (first ∷ t) ≡ some kept
      → last? (first ∷ rest) ≡ some z
      → IsDeduplicated first rest (restored (first ∷ t) kept z)
  restored-IsDeduplicated first rest [] kept z k sp c ek ez = record {
    keeps = take_one k;
    starts = ([], refl);
    spaced = tt;
    ends = inl refl;
    collapsed = λ _. c refl;
  }
  restored-IsDeduplicated first rest (y ∷ t) kept z k sp c ek ez =
      elim (Bool-cases (x.row_eq kept z)) [
        | inl same ↦
            let unchanged : restored (first ∷ y ∷ t) kept z ≡ first ∷ y ∷ t = ground arith in
            rw unchanged (record {
              keeps = take_one k;
              starts = (y ∷ t, refl);
              spaced = drop_last-IsSpaced (is_far tolerance) (first ∷ y ∷ t) sp;
              ends = inr (kept, z, ek, ez, inr same);
              collapsed = λ e. ground arith;
            })
        | inr other ↦
            let replaced : restored (first ∷ y ∷ t) kept z ≡ first ∷ (drop_last (y ∷ t) ++ z ∷ []) =
              ground arith in
            rw replaced (record {
              keeps = Keeps-restore z (take_one k) (λ e. cc) ez;
              starts = (drop_last (y ∷ t) ++ z ∷ [], refl);
              spaced =
                  rw (drop_last-append_one (first ∷ drop_last (y ∷ t)) z)
                    (drop_last-IsSpaced (is_far tolerance) (first ∷ y ∷ t) sp);
              ends = inr (z, z, last?-append_one (first ∷ drop_last (y ∷ t)) z, ez, inl refl);
              collapsed = λ e.
                  absurd (omega (arith, ap length e, length-append (drop_last (y ∷ t)) (z ∷ [])));
            })
      ]

  -- On one waypoint or more of one width `deduplicate_waypoints` succeeds. It keeps the first waypoint, and
  -- some of the others in their order. Every kept waypoint but the last is more than the tolerance
  -- from the one kept before it. If more than one is kept, the last kept one is the destination or
  -- compares equal to it; if only one is, all the others were within the tolerance of it.
  pub deduplicate_waypoints-IsDeduplicated :
      (a : Batch D) (first : List D) (rest : List (List D))
      → IsEven a
      → a.waypoints ≡ first ∷ rest
      → (r : Batch D) × (deduplicate_waypoints a tolerance ≡ ok r)
        × (r.dof ≡ a.dof)
        × IsDeduplicated first rest r.waypoints
  unfolding deduplicate_waypoints
  deduplicate_waypoints-IsDeduplicated a first rest even e =
      let t = thinned (is_far tolerance) first rest in
      let (kept, ek) = last?-cons first t in
      let (z, ez) = last?-cons first rest in
      let evens : All (λ r. length r ≡ a.dof) (first ∷ rest) = rw e at even in
      let a' : Batch D = record { dof = a.dof; waypoints = first ∷ t } in
      let looped : keep_far tolerance (from_waypoint row_width first) rest ≡ ok a' =
        rw (from_waypoint_lem first a.dof evens.0)
          (keep_far_lem rest (record { dof = a.dof; waypoints = first ∷ [] }) first refl evens.1) in
      let destination : last? a.waypoints ≡ some z = rw e (ez) in
      (
        record { dof = a.dof; waypoints = restored (first ∷ t) kept z },
        rw (e, deduplicate_waypoints, looped)
            (rw destination (
              restore_last_lem a' kept z ek
                (All-last? (λ r. length r ≡ a.dof) (first ∷ rest) evens ez))),
        refl,
        restored-IsDeduplicated first rest t kept z (thinned-Keeps (is_far tolerance) first rest)
            (thinned-IsSpaced (is_far tolerance) first rest)
            (thinned-nil (is_far tolerance) first rest) ek ez,
      )
