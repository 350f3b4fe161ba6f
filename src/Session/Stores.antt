-- ===== src/Session/Stores.antt =====
-- Stores as a session uses them: what a provisional append and its undoing leave.
use trajex.Prelude.{
  ℕ, ◌<◌, ◌≡◌, refl, sym, ap, ◌∙◌, subst, ◌⊎◌, inl, inr, List, [], ◌∷◌, ◌++◌, arith, length, take,
  drop, zero_cases, ok,
}
use trajex.Double.{Double}
use trajex.Waypoints.{Accumulator}
use trajex.WaypointStore.{Store, rows, waypoints, append}
use trajex.WaypointStore.Places.{length-contents}
use trajex.WaypointStore.Append.{IsStored, IsBatch, Extended, append-rows, rows-contents}
use trajex.WaypointStore.Shrink.{truncate-rows, accumulator_of-suc}
use trajex.Session.{TrajectoryApi, rolled_back, as_batch, build}

take-append_self {ℓ} : {A : Type ℓ} (xs ys : List A) → take (length xs) (xs ++ ys) ≡ xs
take-append_self [] ys = refl
take-append_self (x ∷ xs) ys = ap (◌∷◌ x) (take-append_self xs ys)

module _ {D : Type 0} where
  -- A well-formed store with the same rows, though its chunks may differ.
  pub record SameStore (s s' : Store D) : Type 0 where
    pub stored : IsStored s'
    pub rows_eq : rows s' ≡ rows s
    pub size_eq : s'.size ≡ s.size
    pub dof_eq : s'.dof ≡ s.dof

  pub SameStore-refl : (s : Store D) → IsStored s → SameStore s s
  SameStore-refl s v = record { stored = v; rows_eq = refl; size_eq = refl; dof_eq = refl }

  pub length-rows : (s : Store D) → IsStored s → length (rows s) ≡ s.size
  length-rows s v = ap length (rows-contents s v.is_viewed) ∙ length-contents s.cell s.size

  -- Undoing an append brings back the rows of before.
  pub rolled_back-SameStore :
      (s s' : Store D) (added : List (List D)) (w : ℕ)
      → IsStored s
      → (s.size ≡ 0) ⊎ (w ≡ s.dof)
      → Extended s added w s'
      → SameStore s (rolled_back s' s.size)
  unfolding rolled_back
  rolled_back-SameStore s s' added w v fits x =
      let (t, e, tv, r, n, same) = truncate-rows s' s.size x.stored (omega (arith, x.size_eq)) in
      let back : take s.size (rows s ++ added) ≡ rows s =
        subst (λ k. take k (rows s ++ added) ≡ rows s) (length-rows s v)
          (take-append_self (rows s) added) in
      let dof : t.dof ≡ s.dof = elim (zero_cases s.size) [
        | inl z ↦ (tv.fresh (n ∙ z)).1 ∙ sym (v.fresh z).1
        | inr (m, z) ↦ elim fits [
          | inl none_yet ↦ absurd (omega arith)
          | inr width ↦ same (omega arith) ∙ x.dof_eq ∙ width
        ]
      ] in
      rw (e, rolled_back)
        (record {
          stored = tv;
          rows_eq = r ∙ ap (take s.size) x.rows_eq ∙ back;
          size_eq = n;
          dof_eq = dof;
        })

  -- A store that is well formed, with a batch as wide as its rows or no rows, takes the rows of the
  -- batch from row `from` on, where there are such rows; `truncate` at the size of before then
  -- brings back the rows, the size and the width of before.
  pub append-undone :
      (s : Store D) (batch : Accumulator (List D)) (from : ℕ)
      → IsStored s
      → IsBatch batch
      → (s.size ≡ 0) ⊎ (batch.dof ≡ s.dof)
      → from < length batch.waypoints
      → (s' : Store D) × (append s batch from ≡ ok s') × SameStore s (rolled_back s' s.size)
  append-undone s batch from v b fits h =
      let (s', e, x) = append-rows s batch from v b fits h in
      (s', e, rolled_back-SameStore s s' (drop from batch.waypoints) batch.dof v fits x)

  -- A store that is not empty can be taken as a batch.
  pub as_batch_lem :
      (s : Store D)
      → IsStored s
      → 0 < s.size
      → as_batch s ≡ ok (record { dof = s.dof; waypoints = rows s })
  unfolding as_batch waypoints
  as_batch_lem s v pos =
      let full = v.is_viewed.viewed ∙ accumulator_of-suc s.dof s.size pos in rw full

module _ {D T C P Sample : Type 0} ⦃d : Double D⦄ (api : TrajectoryApi D T C P Sample) where
  -- Building from a store that is not empty is building from its rows.
  pub build_lem : (s : Store D) → IsStored s → 0 < s.size → build api s ≡ api.create (rows s)
  unfolding build waypoints
  build_lem s v pos = let full = v.is_viewed.viewed ∙ accumulator_of-suc s.dof s.size pos in rw full
