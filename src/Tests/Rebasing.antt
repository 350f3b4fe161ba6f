-- ===== src/Tests/Rebasing.antt =====
-- A session whose active trajectory has its last sample left, with motion staged behind it.
use mathlib.Core.Option.{some-injective}
use trajex.Double.Fixed.{fixed_double, Fixed, fixed}
use trajex.UniformSampler.{quantized_for_trajectory, remaining, next, advance, target}
use trajex.WaypointStore.{Store, rows}
use trajex.WaypointStore.Append.{IsStored}
use trajex.WaypointStore.Places.{accumulator_of, places, place}
use trajex.Session.{Staging, Session, install, sampler_for}
use trajex.Session.Sampling.{
  sample_next, sample_one, rebase_at_terminal, rebase, install_staged, staged_sampler, take_next,
  emit,
}
use trajex.Session.Staged.{IsStaged}
use trajex.Session.Coherence.{IsCoherent}
use trajex.Session.Horizon.{sample_at_least}
use trajex.Session.Horizon.Rounds.{total}
use trajex.Session.Horizon.Stops.{IsDone, sample_at_least-IsDone}
use trajex.Session.Sampled.{sample_next-IsCoherent}
use trajex.Tests.Store.{row, stored, stored-IsStored}
use trajex.Tests.Sessions.{counting_api, fresh}
use trajex.Prelude.{
  ℕ, suc, ◌≡◌, refl, ap, subst, none, some, List, [], ◌∷◌, arith, ◌==◌, if◌then◌else◌, ok,
}

abbrev following_rows : ℕ → ℕ → List Fixed
following_rows c o = if o == 0 then row 1 2 else row 3 4

abbrev following : Store Fixed
following = record stored { cell = following_rows }

following-IsStored : IsStored following
unfolding accumulator_of places place rows
following-IsStored = record {
  is_viewed = record { viewed = refl; widths = (refl, tt); room = omega arith };
  fresh = λ e. absurd (omega (arith, e));
  same_dof = (refl, (refl, tt));
}

abbrev staged : Staging Fixed ℕ
staged = record { waypoints = some following; next = some 2 }

abbrev ending : Session Fixed ℕ ℕ
ending = record fresh {
  waypoints = stored;
  active = some 2;
  sampler = some (record { num_samples = 5; next_sample = 4; start = fixed 0 });
  cursor = some 0;
  emitted_sample_count = 4;
  staging = some staged;
  last_waypoint = row 3 4;
}

staged-IsStaged : IsStaged counting_api stored (row 3 4) staged
unfolding rows
staged-IsStaged = record {
  stored = following-IsStored;
  empty = λ e. cc;
  own = λ t e. (following, refl);
  built = λ t e. ap ok (some-injective 2 t e);
  filled = λ t e. omega arith;
  same_dof = λ t e. refl;
  joined = λ t e. refl;
  ended = λ t e. refl;
}

ending-IsCoherent : IsCoherent counting_api ending
unfolding rows
ending-IsCoherent = record {
  stored = stored-IsStored;
  idle = λ e. cc;
  built = λ t e. (ap ok (some-injective 2 t e), omega arith);
  seam = λ t e n. cc;
  staged = λ st e.
      subst (IsStaged counting_api stored (row 3 4)) (some-injective staged st e) staged-IsStaged;
}

abbrev rebased : Session Fixed ℕ ℕ
rebased = record ending {
  waypoints = following;
  sampler = some (record { num_samples = 3; next_sample = 1; start = fixed 0 });
  cursor = some 0;
  epoch = fixed 2;
  emitted_sample_count = 5;
  current_time = fixed 0;
  staging = none;
  generation_count = 1;
}

one_sample : sample_next counting_api 1 ending ≡ ok (rebased, 0 ∷ [])
unfolding sample_next sample_one rebase_at_terminal rebase install_staged staged_sampler install
    sampler_for quantized_for_trajectory take_next emit remaining next advance target
one_sample = refl

sample_next-IsCoherent_example : IsCoherent counting_api rebased
sample_next-IsCoherent_example =
    sample_next-IsCoherent counting_api 1 ending (rebased, 0 ∷ []) ending-IsCoherent one_sample

at_least_one :
    sample_at_least counting_api (suc (total counting_api ending)) (fixed 0) ending
    ≡ ok (some (rebased, 0 ∷ []))
unfolding sample_at_least sample_one rebase_at_terminal rebase install_staged staged_sampler install
    sampler_for quantized_for_trajectory take_next emit remaining next advance target
at_least_one = refl

sample_at_least-IsDone_example : IsDone counting_api (fixed 0) (some (rebased, 0 ∷ []))
sample_at_least-IsDone_example =
    sample_at_least-IsDone counting_api (fixed 0) ending (some (rebased, 0 ∷ [])) (omega arith)
      at_least_one
