-- ===== src/Session/Start.antt =====
-- A new session, and a first batch whose trajectory the sampler refuses.
use trajex.Double.{Double, le}
use trajex.Waypoints.{Accumulator}
use trajex.WaypointStore.{empty_store, rows}
use trajex.WaypointStore.Append.{IsBatch, append-rows, empty_store-IsStored, rows-empty}
use trajex.Session.{
  TrajectoryApi, ExtendResult, Session, build, build_first, first_extend, new_session, sampler_for,
  validate_sample_rate_and_compute_period,
}
use trajex.Session.Extend.{extend, later_extend}
use trajex.Session.Stores.{build_lem}
use trajex.Session.Coherence.{IsCoherent}
use trajex.Prelude.{
  ◌<◌, ◌≡◌, refl, ap, ◌∙◌, subst, ◌⊎◌, inl, inr, true, false, none, some, List, [], ◌++◌, arith,
  ◌==◌, Bool-cases, length, Error, Result, ok, err, bad_sample_rate,
}

module _ {D T C P Sample : Type 0} ⦃d : Double D⦄ (api : TrajectoryApi D T C P Sample) where
  abbrev started : D → Session D T C
  started rate = record {
    sample_rate = rate;
    sample_period = d.div d.one rate;
    waypoints = empty_store api.junk;
    active = none;
    sampler = none;
    cursor = none;
    epoch = d.nought;
    current_time = d.nought;
    emitted_sample_count = 0;
    staging = none;
    last_waypoint = [];
    generation_count = 0;
  }

  started-IsCoherent : (rate : D) → IsCoherent api (started rate)
  started-IsCoherent rate = record {
    stored = empty_store-IsStored api.junk;
    idle = λ _. (refl, refl);
    built = λ t e. cc;
    seam = λ t e n. cc;
    staged = λ st e. cc;
  }

  admitted :
      (rate : D)
      → d.is_finite rate ≡ true
      → le rate d.nought ≡ false
      → new_session api rate ≡ ok (started rate)
  unfolding new_session validate_sample_rate_and_compute_period
  admitted rate finite high = rw (finite, new_session) (rw high)

  refused_rate :
      (rate : D)
      → (d.is_finite rate ≡ false) ⊎ (le rate d.nought ≡ true)
      → new_session api rate ≡ err bad_sample_rate
  unfolding new_session validate_sample_rate_and_compute_period
  refused_rate rate (inl not_finite) = rw (not_finite, new_session)
  refused_rate rate (inr low) = elim (Bool-cases (d.is_finite rate)) [
    | inl finite ↦ rw (finite, new_session) (rw low)
    | inr not_finite ↦ rw (not_finite, new_session)
  ]

  -- The session that the constructor returns, for a rate that it admits, is coherent; it samples at
  -- that rate, which is finite and above zero, and has emitted nothing.
  pub new_session-IsCoherent :
      (rate : D) (s : Session D T C)
      → new_session api rate ≡ ok s
      → IsCoherent api s
        × (s.sample_rate ≡ rate)
        × (d.is_finite rate ≡ true)
        × (le rate d.nought ≡ false)
        × (s.emitted_sample_count ≡ 0)
  new_session-IsCoherent rate s h = elim (Bool-cases (d.is_finite rate)) [
    | inr not_finite ↦ absurd (cc (refused_rate rate (inl not_finite), h))
    | inl finite ↦ elim (Bool-cases (le rate d.nought)) [
      | inl low ↦ absurd (cc (refused_rate rate (inr low), h))
      | inr high ↦
          let e : started rate ≡ s = cc (admitted rate finite high, h) in
          subst
            (λ q.
              IsCoherent api q
              × (q.sample_rate ≡ rate)
              × (d.is_finite rate ≡ true)
              × (le rate d.nought ≡ false)
              × (q.emitted_sample_count ≡ 0))
            e (started-IsCoherent rate, refl, finite, high, refl)
    ]
  ]

  -- A coherent session without a trajectory takes a batch, whose rows are as wide as it says, that
  -- builds a trajectory whose sampler throws. Then `extend` throws that error and leaves a session
  -- without a trajectory whose store holds the whole batch.
  pub extend-first_leaks :
      (s : Session D T C) (batch : Accumulator (List D)) (t : T) (e : Error)
      → IsCoherent api s
      → s.active ≡ none
      → IsBatch batch
      → 0 < length batch.waypoints
      → api.create batch.waypoints ≡ ok t
      → sampler_for api s t d.nought ≡ err e
      → (s' : Session D T C) × (extend api s batch ≡ (s', err e))
        × (rows s'.waypoints ≡ batch.waypoints)
        × (s'.active ≡ none)
  unfolding extend first_extend build_first sampler_for
  extend-first_leaks s batch t e c idle b h built bad =
      let (store, app, x) = append-rows s.waypoints batch 0 c.stored b (inl (c.idle idle).0) h in
      let all : rows store ≡ batch.waypoints =
        x.rows_eq
        ∙ ap (λ l. l ++ batch.waypoints) (rows-empty s.waypoints c.stored (c.idle idle).0) in
      let pos : 0 < store.size = omega (arith, x.size_eq) in
      let made : build api store ≡ ok t =
        build_lem api store x.stored pos ∙ ap api.create all ∙ built in
      let full : (length batch.waypoints == 0) ≡ false = ground arith in
      (
        record s { waypoints = store },
        let e1 : extend api s batch ≡ first_extend api s batch =
              rw (full, extend)
                (ap
                  (λ o. elim o as (λ _. Session D T C × Result (ExtendResult D)) [
                    | none ↦ first_extend api s batch
                    | some active ↦ later_extend api s active batch
                  ])
                  idle) in
            e1 ∙ rw (app, first_extend) (rw (made, build_first) (rw bad)),
        all,
        idle,
      )
