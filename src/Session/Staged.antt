-- ===== src/Session/Staged.antt =====
-- What session::stage_ does to the staged motion.
use trajex.Prelude.{
  ℕ, suc, ◌-◌, ◌<◌, ◌≡◌, refl, sym, ap, ◌∙◌, subst, ◌⊎◌, inl, inr, true, false, none, some, List,
  [], ◌∷◌, ◌++◌, arith, ◌==◌, Option-cases, length, get_elem?, drop, last?, length-append,
  length-drop, Error, ok, err,
}
use mathlib.Core.List.{append-nil, append_assoc, head?}
use trajex.Double.{Double}
use trajex.Waypoints.{Accumulator}
use trajex.WaypointStore.{Store, rows}
use trajex.WaypointStore.Append.{IsBatch, IsStored, Extended, append-rows, rows-empty}
use trajex.Session.{build, rolled_back, TrajectoryApi, Staging}
use trajex.Session.Extend.{growth_of, stage, seeded, store_of}
use trajex.Session.Stores.{SameStore, build_lem, rolled_back-SameStore, as_batch_lem, length-rows}

module _ {ℓ} {A : Type ℓ} where
  pub last?-append : (xs : List A) (y : A) (ys : List A) → last? (xs ++ y ∷ ys) ≡ last? (y ∷ ys)
  last?-append [] y ys = refl
  last?-append (x ∷ []) y ys = refl
  last?-append (x ∷ z ∷ xs) y ys = last?-append (z ∷ xs) y ys

  pub drop-last :
      (l : List A) → 0 < length l → (z : A) × (drop (length l - 1) l ≡ z ∷ []) × (last? l ≡ some z)
  drop-last [] h = elim h [ ]
  drop-last (x ∷ []) h = (x, refl, refl)
  drop-last (x ∷ y ∷ l) h =
      let (z, e, f) = drop-last (y ∷ l) (omega arith) in
      let shift : suc (suc (length l)) - 1 ≡ suc (suc (length l) - 1) = omega arith in
      (z, rw shift e, f)

  pub get_elem?-last : (l : List A) → 0 < length l → get_elem? l (length l - 1) ≡ last? l
  get_elem?-last [] h = elim h [ ]
  get_elem?-last (x ∷ []) h = refl
  get_elem?-last (x ∷ y ∷ l) h =
      let shift : suc (suc (length l)) - 1 ≡ suc (suc (length l) - 1) = omega arith in
      rw shift (get_elem?-last (y ∷ l) (omega arith))

  pub head?-append : (xs ys : List A) → 0 < length xs → head? (xs ++ ys) ≡ head? xs
  head?-append [] ys h = elim h [ ]
  head?-append (x ∷ xs) ys h = refl

  head?-pos : (l : List A) {z : A} → head? l ≡ some z → 0 < length l
  head?-pos [] e = cc
  head?-pos (x ∷ l) e = omega arith

  -- A batch of more than its seam ends behind it.
  pub last?-append_batch : (base l : List A) → 1 < length l → last? (base ++ drop 1 l) ≡ last? l
  last?-append_batch base [] h = elim h [ ]
  last?-append_batch base (x ∷ []) h = absurd (omega arith)
  last?-append_batch base (x ∷ y ∷ l) h = last?-append base y l

module _ {D : Type 0} where
  Extended-trans :
      (s s1 s2 : Store D) (a b : List (List D)) (w w' : ℕ)
      → Extended s a w s1
      → Extended s1 b w' s2
      → Extended s (a ++ b) w' s2
  Extended-trans s s1 s2 a b w w' x y = record {
    stored = y.stored;
    rows_eq = y.rows_eq ∙ ap (λ l. l ++ b) x.rows_eq ∙ append_assoc (rows s) a b;
    size_eq = omega (arith, y.size_eq, x.size_eq, length-append a b);
    dof_eq = y.dof_eq;
  }

module _ {D T C P Sample : Type 0} ⦃d : Double D⦄ (api : TrajectoryApi D T C P Sample) where
  open api use {create}

  -- The staged motion is empty, or was built from its waypoints, which begin where those of the
  -- active trajectory end, and end in the last waypoint received.
  pub record IsStaged (w : Store D) (last_waypoint : List D) (st : Staging D T) : Type 0 where
    pub stored : IsStored (store_of api st)
    pub empty : st.next ≡ none → (store_of api st).size ≡ 0
    pub own : (t : T) → st.next ≡ some t → (store : Store D) × (st.waypoints ≡ some store)
    pub built : (t : T) → st.next ≡ some t → create (rows (store_of api st)) ≡ ok t
    pub filled : (t : T) → st.next ≡ some t → 0 < (store_of api st).size
    pub same_dof : (t : T) → st.next ≡ some t → (store_of api st).dof ≡ w.dof
    pub joined : (t : T) → st.next ≡ some t → head? (rows (store_of api st)) ≡ last? (rows w)
    pub ended : (t : T) → st.next ≡ some t → last? (rows (store_of api st)) ≡ some last_waypoint

  module _ (w : Store D) (v : IsStored w) (pos : 0 < w.size) (last_waypoint : List D)
      (st : Staging D T) (is : IsStaged w last_waypoint st) where
    Seeded : Type 0
    Seeded =
        (s : Store D) × (seam : List (List D)) × (seeded api w (store_of api st) ≡ ok s)
        × Extended (store_of api st) seam w.dof s
        × (head? (rows s) ≡ last? (rows w))
        × (((store_of api st).size ≡ 0) ⊎ (w.dof ≡ (store_of api st).dof))

    seeded_empty : (store_of api st).size ≡ 0 → Seeded
    unfolding seeded Seeded
    seeded_empty z =
        let store = store_of api st in
        let batch : Accumulator (List D) = record { dof = w.dof; waypoints = rows w } in
        let len = length-rows w v in
        let (row, dropped, at_end) = drop-last (rows w) (omega (arith, len)) in
        let (s, e, x) =
          append-rows store batch (w.size - 1) is.stored (record { same_dof = v.same_dof }) (inl z)
            (omega (arith, len)) in
        let seam : drop (w.size - 1) (rows w) ≡ row ∷ [] =
          subst (λ n. drop (n - 1) (rows w) ≡ row ∷ []) len dropped in
        let zero_size : (store.size == 0) ≡ true = ground arith in
        let joined : rows s ≡ row ∷ [] = x.rows_eq ∙ rw (rows-empty store is.stored z, seam) in
        (
          s,
          drop (w.size - 1) (rows w),
          rw (zero_size) (rw (as_batch_lem w v pos) e),
          x,
          (ap head? joined ∙ sym at_end),
          inl z,
        )

    seeded_filled : (t : T) → st.next ≡ some t → Seeded
    unfolding seeded Seeded
    seeded_filled t e =
        let store = store_of api st in
        let not_empty : (store.size == 0) ≡ false = ground (arith, is.filled t e) in
        (
          store,
          [],
          rw not_empty,
          record {
            stored = is.stored;
            rows_eq = sym (append-nil (rows store));
            size_eq = omega arith;
            dof_eq = is.same_dof t e;
          },
          is.joined t e,
          inr (sym (is.same_dof t e)),
        )

    seeded_lem : Seeded
    seeded_lem = elim (Option-cases st.next) [
      | inl e ↦ seeded_empty (is.empty e)
      | inr (t, e) ↦ seeded_filled t e
    ]

    -- The staged store with the batch behind its own rows, or behind the seam.
    pub record Appended (batch : Accumulator (List D)) (s : Store D) : Type 0 where
      pub stored : IsStored s
      pub filled : 0 < s.size
      pub dof_eq : s.dof ≡ w.dof
      pub joined : head? (rows s) ≡ last? (rows w)
      pub ended : last? (rows s) ≡ last? batch.waypoints

    -- What the batch is appended to, and what `stage` returns with or without a trajectory.
    pub stage_lem :
        (batch : Accumulator (List D))
        → IsBatch batch
        → batch.dof ≡ w.dof
        → 1 < length batch.waypoints
        → (s : Store D) × Appended batch s
          × ((t : T)
              → create (rows s) ≡ ok t
              → stage api w st batch
                ≡ (record { waypoints = some s; next = some t }, ok (growth_of api st t)))
          × ((e : Error)
              → create (rows s) ≡ err e
              → stage api w st batch
                ≡ (record st { waypoints = some (rolled_back s (store_of api st).size) }, err e))
          × SameStore (store_of api st) (rolled_back s (store_of api st).size)
    unfolding stage Seeded
    stage_lem batch b dof h =
        let (s1, seam, e1, x1, hd, fits) = seeded_lem in
        let (s2, e2, x2) = append-rows s1 batch 1 x1.stored b (inr (dof ∙ sym x1.dof_eq)) h in
        let store = store_of api st in
        let both : Extended store (seam ++ drop 1 batch.waypoints) batch.dof s2 =
          Extended-trans store s1 s2 seam (drop 1 batch.waypoints) w.dof batch.dof x1 x2 in
        let grown : 0 < s2.size = omega (arith, x2.size_eq, length-drop 1 batch.waypoints) in
        let built : build api s2 ≡ create (rows s2) = build_lem api s2 x2.stored grown in
        let fits' : (store.size ≡ 0) ⊎ (batch.dof ≡ store.dof) = elim fits [
          | inl z ↦ inl z
          | inr f ↦ inr (dof ∙ f)
        ] in
        (
          s2,
          record {
            stored = x2.stored;
            filled = grown;
            dof_eq = x2.dof_eq ∙ dof;
            joined =
                ap head? x2.rows_eq
                ∙ head?-append (rows s1) (drop 1 batch.waypoints) (
                    head?-pos (rows s1)
                      (hd ∙ (drop-last (rows w) (omega (arith, length-rows w v))).2))
                ∙ hd;
            ended = ap last? x2.rows_eq ∙ last?-append_batch (rows s1) batch.waypoints h;
          },
          (λ t c. rw (e1, stage) (rw (e2) (rw (built ∙ c)))),
          (λ e c. rw (e1, stage) (rw (e2) (rw (built ∙ c)))),
          rolled_back-SameStore store s2 (seam ++ drop 1 batch.waypoints) batch.dof is.stored fits'
              both,
        )
