-- ===== src/Tests/Sessions.antt =====
-- A session before its first batch.
use trajex.Prelude.{
  ℕ, ◌≡◌, refl, true, false, none, some, [], ◌∷◌, arith, ◌==◌, length, ok, err, start_past_end,
}
use trajex.Double.Fixed.{Fixed, fixed, fixed_double}
use trajex.UniformSampler.{
  CursorApi, uniform_sampler, remaining, next, advance, target, quantized_for_trajectory,
}
use trajex.Session.Start.{new_session-IsCoherent, extend-first_leaks}
use trajex.Session.Counting.{AllCounted, sample_next-AllCounted}
use trajex.Session.Sampling.{sample_next, sample_one, rebase_at_terminal, take_next, emit}
use trajex.Double.{le}
use trajex.WaypointStore.{empty_store, rows}
use trajex.WaypointStore.Append.{empty_store-IsStored}
use trajex.Session.{
  TrajectoryApi, Session, new_session, sampler_for, validate_sample_rate_and_compute_period,
}
use trajex.Session.Extend.{extend, start_staging}
use trajex.Session.Coherence.{IsCoherent, start_staging-IsCoherent}
use trajex.Session.First.{Outcome}
use trajex.Session.Atomic.{extend-Outcome}
use trajex.Tests.Store.{batch, batch-IsBatch}

-- A trajectory is how many waypoints it has, and takes as many seconds. A cursor is the time that it
-- is at, on a trajectory of four waypoints.
abbrev pub cursor_api : CursorApi Fixed ℕ ℕ ℕ
cursor_api = record {
  duration = fixed;
  create_cursor = λ t. t;
  trajectory_of = λ _. 4;
  seek = λ _ t. fixed_double.to_size t;
  sample = λ c. ok c;
}

abbrev pub counting_api : TrajectoryApi Fixed ℕ ℕ ℕ ℕ
counting_api = record {
  cursors = cursor_api;
  create = λ l. ok (length l);
  points = λ t. [];
  point_time = fixed;
  same_point = ◌==◌;
  time_of = fixed;
  at_time = λ n _. n;
  junk = λ _ _. [];
}

abbrev pub fresh : Session Fixed ℕ ℕ
fresh = record {
  sample_rate = fixed 1;
  sample_period = fixed 1;
  waypoints = empty_store counting_api.junk;
  active = none;
  sampler = none;
  cursor = none;
  epoch = fixed 0;
  current_time = fixed 0;
  emitted_sample_count = 0;
  staging = none;
  last_waypoint = [];
  generation_count = 0;
}

fresh-IsCoherent : IsCoherent counting_api fresh
fresh-IsCoherent = record {
  stored = empty_store-IsStored counting_api.junk;
  idle = λ _. (refl, refl);
  built = λ t e. cc;
  seam = λ t e n. cc;
  staged = λ st e. cc;
}

extend-Outcome_example : Outcome counting_api fresh (extend counting_api fresh batch)
extend-Outcome_example = extend-Outcome counting_api fresh batch fresh-IsCoherent batch-IsBatch

start_staging-IsCoherent_example :
    IsCoherent counting_api (start_staging counting_api fresh)
    × (start_staging counting_api (start_staging counting_api fresh)
        ≡ start_staging counting_api fresh)
start_staging-IsCoherent_example = start_staging-IsCoherent counting_api fresh fresh-IsCoherent

fresh-new_session : new_session counting_api (fixed 1) ≡ ok fresh
unfolding new_session validate_sample_rate_and_compute_period
fresh-new_session = refl

new_session-IsCoherent_example :
    IsCoherent counting_api fresh
    × (fresh.sample_rate ≡ fixed 1)
    × (fixed_double.is_finite (fixed 1) ≡ true)
    × (le (fixed 1) (fixed 0) ≡ false)
    × (fresh.emitted_sample_count ≡ 0)
new_session-IsCoherent_example =
    new_session-IsCoherent counting_api (fixed 1) fresh fresh-new_session

-- Each trajectory is over at once, which no sampler takes.
abbrev instant_api : TrajectoryApi Fixed ℕ ℕ ℕ ℕ
instant_api = record counting_api { cursors = record cursor_api { duration = λ _. fixed 0 } }

fresh_instant-IsCoherent : IsCoherent instant_api fresh
fresh_instant-IsCoherent = record {
  stored = empty_store-IsStored counting_api.junk;
  idle = λ _. (refl, refl);
  built = λ t e. cc;
  seam = λ t e n. cc;
  staged = λ st e. cc;
}

instant-sampler : sampler_for instant_api fresh 4 (fixed 0) ≡ err start_past_end
unfolding sampler_for quantized_for_trajectory
instant-sampler = refl

extend-first_leaks_example :
    (s : Session Fixed ℕ ℕ) × (extend instant_api fresh batch ≡ (s, err start_past_end))
    × (rows s.waypoints ≡ batch.waypoints)
    × (s.active ≡ none)
extend-first_leaks_example =
    extend-first_leaks instant_api fresh batch 4 start_past_end fresh_instant-IsCoherent refl
      batch-IsBatch (omega arith) refl instant-sampler

abbrev running : Session Fixed ℕ ℕ
running = record fresh {
  active = some 4;
  sampler = some (uniform_sampler 5 (fixed 0));
  cursor = some 0;
  epoch = fixed 3;
}

abbrev two_later : Session Fixed ℕ ℕ
two_later = record running {
  sampler = some (record { num_samples = 5; next_sample = 2; start = fixed 0 });
  cursor = some 0;
  emitted_sample_count = 2;
  current_time = fixed 0;
}

two_samples : sample_next counting_api 2 running ≡ ok (two_later, 0 ∷ 0 ∷ [])
unfolding sample_next sample_one rebase_at_terminal take_next emit remaining next advance target
two_samples = refl

sample_next-AllCounted_example : AllCounted counting_api 2 running (two_later, 0 ∷ 0 ∷ [])
sample_next-AllCounted_example =
    sample_next-AllCounted counting_api 2 running (two_later, 0 ∷ 0 ∷ []) two_samples
