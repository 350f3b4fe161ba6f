-- ===== src/Session.antt =====
-- src/viam/trajex/totg/streaming/session.{hpp,cpp}: the state of a streaming session, and the
-- operations that build and install trajectories. `path::create` followed by `trajectory::create`
-- is one parameter, with what else the session calls of a trajectory. What an exception leaves
-- behind is modelled: an operation that can throw after a change returns the state with the error.
pub mod Extend
pub mod Stores
pub mod Coherence
pub mod First
pub mod Atomic
pub mod Start
pub mod Staged
pub mod Sampling
pub mod Counting
pub mod Sampled
pub mod Kept
pub mod Horizon
use trajex.Prelude.{
  ℕ, zero, suc, ◌+◌, ◌-◌, ◌*◌, ◌/◌, ◌%◌, ◌≤◌, ◌<◌, ◌≡◌, refl, sym, ap, ◌∙◌, subst, ◌≢◌, ◌↔◌, ◌⊎◌,
  inl, inr, Bool, true, false, not, ◌&&◌, ◌||◌, Option, none, some, List, [], ◌∷◌, ◌++◌, map, arith,
  ltb, leb, ◌==◌, if◌then◌else◌, Bool-cases, Option-cases, length, get_elem?, take, drop, drop_last,
  last?, All, length-append, length-take, length-drop, take-length, last?-append_one,
  drop_last-append_one, length-drop_last, All-append, All-drop, All-take, All-last?, zero_cases,
  get_elem?-some, length-map, take-append_le, replicate, length-replicate, All-replicate,
  All-get_elem?, Error, Result, ok, err, ◌>>=◌, ◌>>◌, throw_if, bad_sample_rate,
}
use trajex.Double.{Double, le, eq}
use trajex.Waypoints.{Accumulator}
use trajex.WaypointStore.{Store, empty_store, rows, append, truncate, last, waypoints}
use trajex.UniformSampler.{CursorApi, UniformSampler, quantized_for_trajectory}

pub record TrajectoryApi (D T C P Sample : Type 0) : Type 0 where
  pub cursors : CursorApi D T C Sample
  pub open cursors use *
  pub create : List (List D) → Result T
  pub points : T → List P
  pub point_time : P → D
  pub same_point : P → P → Bool
  pub time_of : Sample → D
  pub at_time : Sample → D → Sample
  -- What memory holds before a store writes to it.
  pub junk : ℕ → ℕ → List D

pub data Kind : Type 0 where
  first_build pivot staged_branch_sampled staged_unsamplable staged_again noop : Kind

pub record ExtendResult (D : Type 0) : Type 0 where
  pub kind : Kind
  pub branch_slack : Option D
  pub delta_total_duration : D

pub record Staging (D T : Type 0) : Type 0 where
  pub waypoints : Option (Store D)
  pub next : Option T

pub record Session (D T C : Type 0) : Type 0 where
  pub sample_rate : D
  pub sample_period : D
  pub waypoints : Store D
  pub active : Option T
  pub sampler : Option (UniformSampler D)
  pub cursor : Option C
  pub epoch : D
  pub current_time : D
  pub emitted_sample_count : ℕ
  pub staging : Option (Staging D T)
  pub last_waypoint : List D
  pub generation_count : ℕ

abbrev pub no_staging : {D T : Type 0} → Staging D T
no_staging = record { waypoints = none; next = none }

abbrev pub staged_of : {D T : Type 0} → Option (Staging D T) → Option T
staged_of none = none
staged_of (some st) = st.next

module _ {D : Type 0} ⦃d : Double D⦄ where
  -- std::ranges::equal over two rows of doubles.
  unfoldable pub rows_bit_exact : List D → List D → Bool
  rows_bit_exact [] [] = true
  rows_bit_exact [] (b ∷ bs) = false
  rows_bit_exact (a ∷ as_) [] = false
  rows_bit_exact (a ∷ as_) (b ∷ bs) = eq a b && rows_bit_exact as_ bs

  unfoldable pub validate_sample_rate_and_compute_period : D → Result D
  validate_sample_rate_and_compute_period rate = do
    throw_if (not (d.is_finite rate) || le rate d.nought) bad_sample_rate
    ok (d.div d.one rate)

module _ {D : Type 0} where
  -- `truncate` in a catch block, at a count that the store has.
  unfoldable pub rolled_back : Store D → ℕ → Store D
  rolled_back store count = elim (truncate store count) [ ok s ↦ s | err _ ↦ store ]

  -- The accumulator of a store, as the batch of rows that it views.
  unfoldable pub as_batch : Store D → Result (Accumulator (List D))
  unfolding waypoints
  as_batch store = do a ← waypoints store; ok (record { dof = a.dof; waypoints = rows store })

module _ {D T C P Sample : Type 0} ⦃d : Double D⦄ (api : TrajectoryApi D T C P Sample) where
  open api use {
    create, duration, points, point_time, same_point, create_cursor, time_of, at_time, junk,
  }

  branch_time : D → List P → List P → D
  branch_time whole [] ys = whole
  branch_time whole (p ∷ ps) [] = point_time p
  branch_time whole (p ∷ ps) (q ∷ qs) =
      let later = branch_time whole ps qs in if same_point p q then later else point_time p

  unfoldable pub find_branch_local_time : T → T → D
  unfolding branch_time
  find_branch_local_time existing candidate =
      branch_time (duration existing) (points existing) (points candidate)

  unfoldable pub new_session : D → Result (Session D T C)
  unfolding validate_sample_rate_and_compute_period
  new_session rate = do
    period ← validate_sample_rate_and_compute_period rate
    ok (record {
      sample_rate = rate;
      sample_period = period;
      waypoints = empty_store junk;
      active = none;
      sampler = none;
      cursor = none;
      epoch = d.nought;
      current_time = d.nought;
      emitted_sample_count = 0;
      staging = none;
      last_waypoint = [];
      generation_count = 0;
    })

  -- build_trajectory_from_(store.waypoints())
  unfoldable pub build : Store D → Result T
  unfolding waypoints
  build store = waypoints store >>= λ _. create (rows store)

  unfoldable pub sampler_for : Session D T C → T → D → Result (UniformSampler D)
  sampler_for s t start = quantized_for_trajectory (duration t) s.sample_rate start

  -- A new active trajectory, over the waypoints that the session already holds.
  unfoldable pub install : Session D T C → T → UniformSampler D → Session D T C
  install s t sampler = record s {
    active = some t;
    cursor = some (create_cursor t);
    sampler = some sampler;
    generation_count = s.generation_count + 1;
  }

  -- The first extend, behind its `append`.
  unfoldable pub build_first : Session D T C → Session D T C × Result (ExtendResult D)
  build_first s = elim (build s.waypoints) [
    | err e ↦ (record s { waypoints = rolled_back s.waypoints 0 }, err e)
    | ok t ↦ elim (sampler_for s t d.nought) [
      | err e ↦ (s, err e)
      | ok sampler ↦ elim (last s.waypoints) [
        | err e ↦ (s, err e)
        | ok row ↦ (
          record (install s t sampler) { last_waypoint = row; generation_count = 1 },
          ok (record {
            kind = first_build;
            branch_slack = none;
            delta_total_duration = duration t;
          }),
        )
      ]
    ]
  ]

  unfoldable pub first_extend :
      Session D T C → Accumulator (List D) → Session D T C × Result (ExtendResult D)
  first_extend s batch = elim (append s.waypoints batch 0) [
    | err e ↦ (s, err e)
    | ok store ↦ build_first (record s { waypoints = store })
  ]
