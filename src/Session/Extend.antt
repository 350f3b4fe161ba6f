-- ===== src/Session/Extend.antt =====
-- session::extend and session::stage_ behind the first build (session.cpp).
use trajex.Prelude.{
  ◌-◌, Bool, not, ◌&&◌, ◌||◌, Option, none, some, List, ◌==◌, if◌then◌else◌, length, Result, ok,
  err, ◌>>=◌, empty_batch, dof_mismatch, seam_mismatch,
}
use trajex.Double.{Double, lt}
use trajex.Waypoints.{Accumulator, at}
use trajex.WaypointStore.{Store, empty_store, append, last}
use trajex.Session.{
  TrajectoryApi, Kind, pivot, staged_branch_sampled, staged_unsamplable, staged_again, noop,
  ExtendResult, Staging, Session, no_staging, rows_bit_exact, rolled_back, as_batch,
  find_branch_local_time, build, sampler_for, install, first_extend,
}

module _ {D T C P Sample : Type 0} ⦃d : Double D⦄ (api : TrajectoryApi D T C P Sample) where
  open api use {create, duration, junk}

  -- The staged store before the batch: a new one begins with the active trajectory's last waypoint.
  unfoldable pub seeded : Store D → Store D → Result (Store D)
  seeded active_waypoints store =
      if store.size == 0
      then (as_batch active_waypoints >>= λ seam. append store seam (active_waypoints.size - 1))
      else ok store

  abbrev pub store_of : Staging D T → Store D
  store_of st = elim st.waypoints [ none ↦ empty_store junk | some store ↦ store ]

  abbrev pub growth_of : Staging D T → T → D
  growth_of st t = elim st.next [
    | none ↦ duration t
    | some before ↦ d.sub (duration t) (duration before)
  ]

  -- session::stage_, over the waypoints of the active trajectory.
  unfoldable pub stage : Store D → Staging D T → Accumulator (List D) → Staging D T × Result D
  stage active_waypoints st batch =
      let store = store_of st in
      elim (seeded active_waypoints store) [
        | err e ↦ (record st { waypoints = some store }, err e)
        | ok with_seam ↦ elim (append with_seam batch 1) [
          | err e ↦ (record st { waypoints = some with_seam }, err e)
          | ok appended ↦ elim (build api appended) [
            | err e ↦ (record st { waypoints = some (rolled_back appended store.size) }, err e)
            | ok t ↦ (record { waypoints = some appended; next = some t }, ok (growth_of st t))
          ]
        ]
      ]

  -- batch.at(batch.size() - 1), of a batch that is not empty.
  abbrev pub last_of : Accumulator (List D) → List D → List D
  last_of batch otherwise = elim (at batch (length batch.waypoints - 1)) [
    | ok row ↦ row
    | err _ ↦ otherwise
  ]

  abbrev pub result : Kind → Option D → D → ExtendResult D
  result k slack delta = record { kind = k; branch_slack = slack; delta_total_duration = delta }

  abbrev pub settle_staged :
      Session D T C
      → Accumulator (List D)
      → Staging D T × Result D
      → Session D T C × Result (ExtendResult D)
  settle_staged s batch (st, err e) = (record s { staging = some st }, err e)
  settle_staged s batch (st, ok growth) = (
    record s { staging = some st; last_waypoint = last_of batch s.last_waypoint },
    ok (result staged_again none growth),
  )

  -- A session that is staging takes the batch into the staged motion.
  unfoldable pub extend_staged :
      Session D T C → Staging D T → Accumulator (List D) → Session D T C × Result (ExtendResult D)
  extend_staged s st batch = settle_staged s batch (stage s.waypoints st batch)

  abbrev pub starting_local_time : Session D T C → D
  starting_local_time s =
      if s.emitted_sample_count == 0
      then d.nought
      else d.add (d.sub s.current_time s.epoch) s.sample_period

  abbrev pub branch_global : Session D T C → T → T → D
  branch_global s active candidate = d.add s.epoch (find_branch_local_time api active candidate)

  abbrev pub branch_ahead : Session D T C → T → T → Bool
  branch_ahead s active candidate =
      s.emitted_sample_count == 0 || lt s.current_time (branch_global s active candidate)

  abbrev pub has_samplable_material : Session D T C → T → Bool
  has_samplable_material s candidate = lt (starting_local_time s) (duration candidate)

  abbrev pub branch_slack : Session D T C → T → T → D
  branch_slack s active candidate = d.sub (branch_global s active candidate) s.current_time

  -- The candidate becomes active; the session already holds its waypoints.
  unfoldable pub pivot_to : Session D T C → T → T → Session D T C × Result (ExtendResult D)
  pivot_to s active candidate = elim (sampler_for api s candidate (starting_local_time s)) [
    | err e ↦ (s, err e)
    | ok sampler ↦ elim (last s.waypoints) [
      | err e ↦ (s, err e)
      | ok row ↦ (
        record (install api s candidate sampler) { last_waypoint = row },
        ok (
            result pivot (some (branch_slack s active candidate))
              (d.sub (duration candidate) (duration active))),
      )
    ]
  ]

  abbrev pub settle_begun :
      Session D T C
      → T
      → T
      → Accumulator (List D)
      → Staging D T × Result D
      → Session D T C × Result (ExtendResult D)
  settle_begun s active candidate batch (st, err e) = (s, err e)
  settle_begun s active candidate batch (st, ok growth) = (
    record s { staging = some st; last_waypoint = last_of batch s.last_waypoint },
    ok (
        result
          (if branch_ahead s active candidate then staged_unsamplable else staged_branch_sampled)
          (some (branch_slack s active candidate)) growth),
  )

  -- The candidate is given up, and the batch begins the staged motion.
  unfoldable pub begin_staging :
      Session D T C → T → T → Accumulator (List D) → Session D T C × Result (ExtendResult D)
  begin_staging s active candidate batch =
      settle_begun s active candidate batch (stage s.waypoints no_staging batch)

  unfoldable pub extend_active :
      Session D T C → T → Accumulator (List D) → Session D T C × Result (ExtendResult D)
  extend_active s active batch =
      let committed = s.waypoints.size in
      elim (append s.waypoints batch 1) [
        | err e ↦ (s, err e)
        | ok store ↦ elim (build api store) [
          | err e ↦ (record s { waypoints = rolled_back store committed }, err e)
          | ok candidate ↦
              if branch_ahead s active candidate && has_samplable_material s candidate
              then pivot_to (record s { waypoints = store }) active candidate
              else begin_staging (record s { waypoints = rolled_back store committed }) active
                  candidate batch
        ]
      ]

  -- The checks of every extend but the first, and what they lead to.
  unfoldable pub later_extend :
      Session D T C → T → Accumulator (List D) → Session D T C × Result (ExtendResult D)
  later_extend s active batch =
      if not (batch.dof == s.waypoints.dof) then (s, err dof_mismatch) else elim (at batch 0) [
        | err e ↦ (s, err e)
        | ok seam ↦
            if not (rows_bit_exact seam s.last_waypoint)
            then (s, err seam_mismatch)
            else if length batch.waypoints == 1
            then (s, ok (result noop none d.nought))
            else elim s.staging [
              | some st ↦ extend_staged s st batch
              | none ↦ extend_active s active batch
            ]
      ]

  -- session::extend
  unfoldable pub extend :
      Session D T C → Accumulator (List D) → Session D T C × Result (ExtendResult D)
  extend s batch = if length batch.waypoints == 0 then (s, err empty_batch) else elim s.active [
    | none ↦ first_extend api s batch
    | some active ↦ later_extend s active batch
  ]

  -- session::start_staging
  unfoldable pub start_staging : Session D T C → Session D T C
  start_staging s = elim s.active [
    | none ↦ s
    | some _ ↦ elim s.staging [ none ↦ record s { staging = some no_staging } | some _ ↦ s ]
  ]
