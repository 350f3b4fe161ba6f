-- ===== src/Session/Atomic.antt =====
-- session::extend (session.cpp): what it leaves of a session on each of its paths.
use mathlib.Core.List.{head?}
use mathlib.Core.Option.{some-injective}
use trajex.Double.{Double}
use trajex.Waypoints.{Accumulator, at}
use trajex.WaypointStore.{Store, rows}
use trajex.WaypointStore.Append.{IsStored, IsBatch, append-rows}
use trajex.WaypointStore.Shrink.{last_lem}
use trajex.Session.{
  TrajectoryApi, ExtendResult, Staging, Session, staged_of, no_staging, rolled_back, sampler_for,
  install, rows_bit_exact, first_extend,
}
use trajex.Session.Extend.{
  settle_staged, settle_begun, store_of, last_of, extend_staged, has_samplable_material,
  starting_local_time, branch_ahead, pivot_to, begin_staging, extend_active, later_extend, extend,
}
use trajex.Session.Stores.{SameStore, rolled_back-SameStore, build_lem}
use trajex.Session.Staged.{IsStaged, Appended, stage_lem, get_elem?-last, drop-last}
use trajex.Session.Coherence.{
  no_staging-IsStaged, IsCoherent, SameSession, SameStaging, SameSession-refl, IsCoherent-store,
}
use trajex.Prelude.{
  ◌+◌, ◌-◌, ◌<◌, ◌≡◌, refl, sym, ap, ◌∙◌, subst, inl, inr, ◌&&◌, none, some, List, arith, ◌==◌,
  Bool-cases, Option-cases, length, get_elem?, drop, last?, length-drop, Error, Result, ok, err,
  Result-cases,
}
use trajex.Session.First.{Outcome, refused, wound_back, installed, sampler_error, first_extend_lem}

module _ {D T C P Sample : Type 0} ⦃d : Double D⦄ (api : TrajectoryApi D T C P Sample) where
  open api use {create, duration}

  pivot_to_lem :
      (s : Session D T C) (active t : T)
      → IsStored s.waypoints
      → 0 < s.waypoints.size
      → s.staging ≡ none
      → create (rows s.waypoints) ≡ ok t
      → (old : Session D T C) → Outcome api old (pivot_to api s active t)
  unfolding pivot_to install
  pivot_to_lem s active t v pos none_staged e old =
      let (row, le, lq, _) = last_lem s.waypoints v pos in
      elim (Result-cases (sampler_for api s t (starting_local_time api s))) [
        | inr (x, h) ↦
            rw (h, pivot_to) (inr (sampler_error api s t (starting_local_time api s) x h))
        | inl (sampler, h) ↦
            rw (h, pivot_to)
              (rw le
                (installed api s t sampler row (s.generation_count + 1) v pos e lq none_staged))
      ]

  last_of_lem :
      (batch : Accumulator (List D)) (otherwise : List D)
      → 0 < length batch.waypoints
      → last? batch.waypoints ≡ some (last_of api batch otherwise)
  unfolding at
  last_of_lem batch otherwise h =
      let (z, dropped, e) = drop-last batch.waypoints h in
      let found : get_elem? batch.waypoints (length batch.waypoints - 1) ≡ some z =
        get_elem?-last batch.waypoints h ∙ e in
      e ∙ ground arith

  -- The staged motion with a trajectory that its waypoints build.
  IsStaged-built :
      (w : Store D) (st : Staging D T) (is_pos : 0 < w.size) (v : IsStored w) (l l' : List D)
      (is : IsStaged api w l st) (batch : Accumulator (List D)) (store : Store D) (t : T)
      → Appended api w v is_pos l st is batch store
      → last? batch.waypoints ≡ some l'
      → create (rows store) ≡ ok t
      → IsStaged api w l' (record { waypoints = some store; next = some t })
  IsStaged-built w st pos v l l' is batch store t a e q = record {
    stored = a.stored;
    empty = λ n. cc;
    own = λ u m. (store, refl);
    built = λ u m. q ∙ ap ok (some-injective t u m);
    filled = λ u m. a.filled;
    same_dof = λ u m. a.dof_eq;
    joined = λ u m. a.joined;
    ended = λ u m. a.ended ∙ e;
  }

  staged_in :
      (s : Session D T C) (active : T) (st : Staging D T) (row : List D)
      → IsCoherent api s
      → s.active ≡ some active
      → (t : T) → st.next ≡ some t
      → IsStaged api s.waypoints row st
      → IsCoherent api (record s { staging = some st; last_waypoint = row })
  staged_in s active st row c q t n is = record {
    stored = c.stored;
    idle = λ e. cc;
    built = c.built;
    seam = λ u e m. cc;
    staged = λ st' e. subst (IsStaged api s.waypoints row) (some-injective st st' e) is;
  }

  -- A failed stage: the staged store is wound back.
  staged_wound_back :
      (s : Session D T C) (active : T) (st : Staging D T) (back : Store D)
      → IsCoherent api s
      → s.active ≡ some active
      → s.staging ≡ some st
      → SameStore (store_of api st) back
      → IsCoherent api (record s { staging = some (record st { waypoints = some back }) })
        × SameSession api s (record s { staging = some (record st { waypoints = some back }) })
  staged_wound_back s active st back c q qs same =
      let is = c.staged st qs in
      let is' : IsStaged api s.waypoints s.last_waypoint (record st { waypoints = some back }) =
        record {
          stored = same.stored;
          empty = λ n. same.size_eq ∙ is.empty n;
          own = λ u m. (back, refl);
          built = λ u m. ap create same.rows_eq ∙ is.built u m;
          filled = λ u m. omega (arith, same.size_eq, is.filled u m);
          same_dof = λ u m. same.dof_eq ∙ is.same_dof u m;
          joined = λ u m. ap head? same.rows_eq ∙ is.joined u m;
          ended = λ u m. ap last? same.rows_eq ∙ is.ended u m;
        } in
      (
        record {
          stored = c.stored;
          idle = λ e. cc;
          built = c.built;
          seam = λ u e m. c.seam u e (subst (λ o. staged_of o ≡ none) (sym qs) m);
          staged = λ st' e.
              subst (IsStaged api s.waypoints s.last_waypoint)
                (some-injective (record st { waypoints = some back }) st' e) is';
        },
        record {
          same_store = (SameSession-refl api s c).same_store;
          same_staging =
              subst (λ o. SameStaging api o (some (record st { waypoints = some back }))) (sym qs)
                (refl, (λ n e. cc), same);
          same_rest = refl;
        },
      )

  extend_staged_lem :
      (s : Session D T C) (active : T) (st : Staging D T) (batch : Accumulator (List D))
      → IsCoherent api s
      → s.active ≡ some active
      → s.staging ≡ some st
      → IsBatch batch
      → batch.dof ≡ s.waypoints.dof
      → 1 < length batch.waypoints
      → Outcome api s (extend_staged api s st batch)
  unfolding extend_staged
  extend_staged_lem s active st batch c q qs b dof h =
      let is = c.staged st qs in
      let pos = (c.built active q).1 in
      let (store, app, good, bad, back) =
        stage_lem api s.waypoints c.stored pos s.last_waypoint st is batch b dof h in
      elim (Result-cases (create (rows store))) [
        | inl (t, e) ↦
            subst (λ r. Outcome api s (settle_staged api s batch r)) (sym (good t e))
              (staged_in s active (record { waypoints = some store; next = some t }) _ c q t refl
                (IsStaged-built s.waypoints st pos c.stored s.last_waypoint _ is batch store t app
                  (last_of_lem batch s.last_waypoint (omega arith)) e))
        | inr (x, e) ↦
            subst (λ r. Outcome api s (settle_staged api s batch r)) (sym (bad x e))
              (inl (staged_wound_back s active st _ c q qs back))
      ]

  begin_staging_lem :
      (s : Session D T C) (active candidate : T) (batch : Accumulator (List D))
      → IsCoherent api s
      → s.active ≡ some active
      → s.staging ≡ none
      → IsBatch batch
      → batch.dof ≡ s.waypoints.dof
      → 1 < length batch.waypoints
      → (old : Session D T C) → ((e : Error) → Outcome api old (s, err e))
      → Outcome api old (begin_staging api s active candidate batch)
  unfolding begin_staging
  begin_staging_lem s active candidate batch c q qs b dof h old same =
      let is = no_staging-IsStaged api s.waypoints s.last_waypoint in
      let pos = (c.built active q).1 in
      let (store, app, good, bad, back) =
        stage_lem api s.waypoints c.stored pos s.last_waypoint no_staging is batch b dof h in
      elim (Result-cases (create (rows store))) [
        | inl (t, e) ↦
            subst (λ r. Outcome api old (settle_begun api s active candidate batch r))
              (sym (good t e))
              (staged_in s active (record { waypoints = some store; next = some t }) _ c q t refl
                (IsStaged-built s.waypoints no_staging pos c.stored s.last_waypoint _ is batch store
                  t app (last_of_lem batch s.last_waypoint (omega arith)) e))
        | inr (x, e) ↦
            subst (λ r. Outcome api old (settle_begun api s active candidate batch r))
              (sym (bad x e)) (same x)
      ]

  extend_active_lem :
      (s : Session D T C) (active : T) (batch : Accumulator (List D))
      → IsCoherent api s
      → s.active ≡ some active
      → s.staging ≡ none
      → IsBatch batch
      → batch.dof ≡ s.waypoints.dof
      → 1 < length batch.waypoints
      → Outcome api s (extend_active api s active batch)
  unfolding extend_active
  extend_active_lem s active batch c q qs b dof h =
      let (store, e, x) = append-rows s.waypoints batch 1 c.stored b (inr dof) h in
      let pos : 0 < store.size = omega (arith, x.size_eq, length-drop 1 batch.waypoints) in
      let w = rolled_back store s.waypoints.size in
      let back : SameStore s.waypoints w =
        rolled_back-SameStore s.waypoints store (drop 1 batch.waypoints) batch.dof c.stored
          (inr dof) x in
      let same : (y : Error) → Outcome api s (record s { waypoints = w }, err y) =
        λ y. wound_back api s w y c back in
      let built = build_lem api store x.stored pos in
      elim (Result-cases (create (rows store))) [
        | inr (y, f) ↦ rw (e, extend_active) (rw (built ∙ f) (same y))
        | inl (t, f) ↦
            elim (Bool-cases (branch_ahead api s active t && has_samplable_material api s t)) [
              | inl pivots ↦
                  rw (e, extend_active)
                    (rw (built ∙ f) (
                      rw pivots (
                        pivot_to_lem (record s { waypoints = store }) active t x.stored pos qs f
                          s)))
              | inr stages ↦
                  rw (e, extend_active)
                    (rw (built ∙ f) (
                      rw stages (
                        begin_staging_lem (record s { waypoints = w }) active t batch
                          (IsCoherent-store api s w c back) q qs b (dof ∙ sym back.dof_eq) h s
                          same)))
            ]
      ]

  later_extend_lem :
      (s : Session D T C) (active : T) (batch : Accumulator (List D))
      → IsCoherent api s
      → s.active ≡ some active
      → IsBatch batch
      → 0 < length batch.waypoints
      → Outcome api s (later_extend api s active batch)
  unfolding later_extend
  later_extend_lem s active batch c q b h = elim (Bool-cases (batch.dof == s.waypoints.dof)) [
    | inr other ↦ rw (other, later_extend) (refused api s _ c)
    | inl same ↦ elim (Result-cases (at batch 0)) [
      | inr (e, f) ↦ rw (same, later_extend) (rw f (refused api s e c))
      | inl (seam, f) ↦ elim (Bool-cases (rows_bit_exact seam s.last_waypoint)) [
        | inr off ↦ rw (same, later_extend) (rw f (rw off (refused api s _ c)))
        | inl joined ↦ elim (Bool-cases (length batch.waypoints == 1)) [
          | inl single ↦ rw (same, later_extend) (rw f (rw joined (rw single c)))
          | inr more ↦
              let many : 1 < length batch.waypoints = ground arith in
              let dof : batch.dof ≡ s.waypoints.dof = ground arith in
              elim (Option-cases s.staging) [
                | inl none_staged ↦
                    let e : later_extend api s active batch ≡ extend_active api s active batch =
                      rw (same, later_extend)
                        (rw f (
                          rw joined (
                            rw more (
                              ap
                                (λ o. elim o as (λ _. Session D T C × Result (ExtendResult D)) [
                                  | none ↦ extend_active api s active batch
                                  | some st' ↦ extend_staged api s st' batch
                                ])
                                none_staged)))) in
                    subst (Outcome api s) (sym e)
                      (extend_active_lem s active batch c q none_staged b dof many)
                | inr (st, is_staged) ↦
                    let e : later_extend api s active batch ≡ extend_staged api s st batch =
                      rw (same, later_extend)
                        (rw f (
                          rw joined (
                            rw more (
                              ap
                                (λ o. elim o as (λ _. Session D T C × Result (ExtendResult D)) [
                                  | none ↦ extend_active api s active batch
                                  | some st' ↦ extend_staged api s st' batch
                                ])
                                is_staged)))) in
                    subst (Outcome api s) (sym e)
                      (extend_staged_lem s active st batch c q is_staged b dof many)
              ]
        ]
      ]
    ]
  ]

  -- `extend` of a coherent session, with a batch whose rows are as wide as it says, either returns
  -- and leaves a coherent session; or throws and leaves a coherent session that is the one it found,
  -- but for chunks without rows and for the owner of an empty staged store; or throws an error that
  -- the sampler of a trajectory throws.
  pub extend-Outcome :
      (s : Session D T C) (batch : Accumulator (List D))
      → IsCoherent api s
      → IsBatch batch
      → Outcome api s (extend api s batch)
  unfolding extend
  extend-Outcome s batch c b = elim (Bool-cases (length batch.waypoints == 0)) [
    | inl empty ↦ rw (empty, extend) (refused api s _ c)
    | inr full ↦
        let h : 0 < length batch.waypoints = ground arith in
        elim (Option-cases s.active) [
          | inl idle ↦
              let e : extend api s batch ≡ first_extend api s batch =
                rw (full, extend)
                  (ap
                    (λ o. elim o as (λ _. Session D T C × Result (ExtendResult D)) [
                      | none ↦ first_extend api s batch
                      | some active' ↦ later_extend api s active' batch
                    ])
                    idle) in
              subst (Outcome api s) (sym e) (first_extend_lem api s batch c idle b h)
          | inr (active, q) ↦
              let e : extend api s batch ≡ later_extend api s active batch =
                rw (full, extend)
                  (ap
                    (λ o. elim o as (λ _. Session D T C × Result (ExtendResult D)) [
                      | none ↦ first_extend api s batch
                      | some active' ↦ later_extend api s active' batch
                    ])
                    q) in
              subst (Outcome api s) (sym e) (later_extend_lem s active batch c q b h)
        ]
  ]
