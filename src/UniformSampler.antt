-- ===== src/UniformSampler.antt =====
-- src/viam/trajex/totg/uniform_sampler.{hpp,cpp}. A trajectory and its cursor are what the sampler
-- uses of them: a duration, and a cursor that seeks and samples. The conversion of a double that no
-- std::size_t can hold, which is undefined behaviour, is whatever `to_size` says.
pub mod Drain
pub mod Ending
use trajex.Prelude.{
  ℕ, ◌+◌, ◌-◌, not, ◌||◌, Option, none, some, ◌==◌, if◌then◌else◌, Result, ok, ◌>>=◌, ◌>>◌,
  throw_if, bad_duration_or_frequency, non_finite_samples, negative_start, start_past_end,
}
use trajex.Double.{Double, lt, le}

-- What the sampler and the session call of `trajectory` and `trajectory::cursor`.
pub record CursorApi (D T C Sample : Type 0) : Type 0 where
  pub duration : T → D
  pub create_cursor : T → C
  pub trajectory_of : C → T
  pub seek : C → D → C
  pub sample : C → Result Sample

pub record UniformSampler (D : Type 0) : Type 0 where
  pub num_samples : ℕ
  pub next_sample : ℕ
  pub start : D

module _ {D : Type 0} ⦃d : Double D⦄ where
  abbrev pub uniform_sampler : ℕ → D → UniformSampler D
  uniform_sampler n start = record { num_samples = n; next_sample = 0; start = start }

  unfoldable pub calculate_quantized_samples : D → D → Result ℕ
  calculate_quantized_samples duration_sec frequency_hz = do
    throw_if (le duration_sec d.nought || le frequency_hz d.nought) bad_duration_or_frequency
    let putative_samples = d.mul duration_sec frequency_hz
    throw_if (not (d.is_finite putative_samples)) non_finite_samples
    ok (d.to_size (d.add (d.ceil putative_samples) d.one))

  unfoldable pub calculate_quantized_dt : D → D → Result D
  unfolding calculate_quantized_samples
  calculate_quantized_dt duration_sec frequency_hz = do
    num_samples ← calculate_quantized_samples duration_sec frequency_hz
    ok (d.div duration_sec (d.of_size (num_samples - 1)))

  unfoldable pub quantized_for_duration : D → D → Result (UniformSampler D)
  unfolding calculate_quantized_samples
  quantized_for_duration duration frequency = do
    n ← calculate_quantized_samples duration frequency
    ok (uniform_sampler n d.nought)

  -- `duration` is that of the trajectory.
  unfoldable pub quantized_for_trajectory : D → D → D → Result (UniformSampler D)
  unfolding calculate_quantized_samples
  quantized_for_trajectory duration frequency start = do
    throw_if (lt start d.nought) negative_start
    throw_if (le duration start) start_past_end
    n ← calculate_quantized_samples (d.sub duration start) frequency
    ok (uniform_sampler n start)

  unfoldable pub remaining : UniformSampler D → ℕ
  remaining s = s.num_samples - s.next_sample

  -- Where `advance` puts the cursor: exactly at the end for the last sample.
  unfoldable pub target : UniformSampler D → D → D
  target s duration =
      let when =
        if s.next_sample == s.num_samples - 1
        then d.one
        else d.div (d.of_size s.next_sample) (d.of_size (s.num_samples - 1)) in
      d.lerp s.start duration when

module _ {D T C Sample : Type 0} ⦃d : Double D⦄ (api : CursorApi D T C Sample) where
  open api use {duration, trajectory_of, seek, sample}

  -- `none` is the return value false, which leaves sampler and cursor alone.
  unfoldable pub advance : UniformSampler D → C → Option (UniformSampler D × C)
  unfolding target
  advance s c =
      if s.next_sample == s.num_samples
      then none
      else some (
        record s { next_sample = s.next_sample + 1 },
        seek c (target s (duration (trajectory_of c))),
      )

  unfoldable pub next : UniformSampler D → C → Result (UniformSampler D × C × Option Sample)
  unfolding advance
  next s c = elim (advance s c) [
    | none ↦ ok (s, c, none)
    | some (s', c') ↦ do taken ← sample c'; ok (s', c', some taken)
  ]
