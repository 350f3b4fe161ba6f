-- ===== src/Session/Horizon/Rounds.antt =====
-- How many rounds session::sample_at_least takes, and where it stops (session.cpp).
use trajex.Double.{Double, lt, le}
use trajex.UniformSampler.{
  UniformSampler, next, advance, quantized_for_trajectory, calculate_quantized_samples,
}
use trajex.Session.{install, sampler_for, TrajectoryApi, Staging, Session}
use trajex.Session.Sampling.{
  staged_sampler, rebase, rebase_at_terminal, install_staged, at_terminal,
}
use trajex.Prelude.{
  ℕ, ◌+◌, ◌-◌, ◌≤◌, ◌<◌, ◌≡◌, refl, inl, inr, Option, none, some, arith, ◌==◌, Bool-cases, Result,
  ok, err, ◌>>=◌, throw_if, Holds, Holds-bind, Holds-all, Holds-then, start_past_end,
  negative_start,
}

module _ {D T C P Sample : Type 0} ⦃d : Double D⦄ (api : TrajectoryApi D T C P Sample) where
  open api use {cursors}

  -- No more samples were taken than there are.
  abbrev pub IsTaken : UniformSampler D → Type 0
  IsTaken x = x.next_sample ≤ x.num_samples

  abbrev pub AllTaken : Option (UniformSampler D) → Type 0
  AllTaken none = Unit
  AllTaken (some x) = IsTaken x

  abbrev pub IsInside : Session D T C → Type 0
  IsInside s = AllTaken s.sampler

  abbrev pub left_of : Option (UniformSampler D) → ℕ
  left_of none = 0
  left_of (some x) = x.num_samples - x.next_sample

  abbrev pub left : Session D T C → ℕ
  left s = left_of s.sampler

  abbrev pub count : Result (UniformSampler D) → ℕ
  count (ok sampler) = sampler.num_samples
  count (err e) = 0

  -- At most so many samples a rebase brings.
  abbrev pub brought : Session D T C → Option T → ℕ
  brought s none = 0
  brought s (some t) =
      count (staged_sampler api s t d.nought) + count (staged_sampler api s t s.sample_period)

  abbrev pub staged_left : Session D T C → Option (Staging D T) → ℕ
  staged_left s none = 0
  staged_left s (some st) = brought s st.next

  abbrev pub total : Session D T C → ℕ
  total s = left s + staged_left s s.staging

  abbrev pub Within : ℕ → Session D T C → Type 0
  Within n s = IsInside s × (total s ≤ n)

  abbrev pub WithinOrNone : ℕ → Option (Session D T C) → Type 0
  WithinOrNone n none = Unit
  WithinOrNone n (some s) = Within n s

  counted :
      (m : Result (UniformSampler D))
      → Holds IsTaken m
      → Holds (λ x. IsTaken x × (x.num_samples - x.next_sample ≤ count m)) m
  counted (ok x) h = (h, omega arith)
  counted (err e) h = tt

  sampler_for-IsTaken :
      (s : Session D T C) (t : T) (start : D) → Holds IsTaken (sampler_for api s t start)
  unfolding sampler_for quantized_for_trajectory
  sampler_for-IsTaken s t start =
      Holds-then IsTaken (throw_if (lt start d.nought) negative_start) _ (
        Holds-then IsTaken (throw_if (le (api.duration t) start) start_past_end) _ (
          Holds-bind (λ _. Unit {0}) IsTaken
            (calculate_quantized_samples (d.sub (api.duration t) start) s.sample_rate) _
            (Holds-all (λ _. Unit {0}) _ (λ _. tt)) (λ n _. omega arith)))

  staged_sampler-IsTaken :
      (s : Session D T C) (t : T) (start : D) → Holds IsTaken (staged_sampler api s t start)
  unfolding staged_sampler
  staged_sampler-IsTaken s t start = elim (Bool-cases (lt start (api.duration t))) [
    | inl short ↦ rw (short, staged_sampler) (sampler_for-IsTaken s t start)
    | inr over ↦ rw (over, staged_sampler) (omega arith)
  ]

  installed :
      (s : Session D T C) (st : Staging D T) (t : T) (start : D)
      → Holds (Within (count (staged_sampler api s t start))) (install_staged api s st t start)
  unfolding install_staged install
  installed s st t start =
      Holds-bind
        (λ x. IsTaken x × (x.num_samples - x.next_sample ≤ count (staged_sampler api s t start)))
        (Within (count (staged_sampler api s t start))) (staged_sampler api s t start) _
        (counted (staged_sampler api s t start) (staged_sampler-IsTaken s t start))
        (λ x h. (h.0, omega (arith, h.1)))

  pub rebased :
      (s : Session D T C) (start : D)
      → ((t : T) → count (staged_sampler api s t start) ≤ brought s (some t))
      → Holds (WithinOrNone (staged_left s s.staging)) (rebase api s start)
  unfolding rebase
  rebased s start few =
      let R : Type 0 = Result (Option (Session D T C)) in
      let staged_case : Staging D T → Option T → R = λ st n. elim n as (λ _. R) [
        | none ↦ ok none
        | some staged ↦ install_staged api s st staged start >>= λ s'. ok (some s')
      ] in
      elim s.staging
        as (λ o.
          Holds (WithinOrNone (staged_left s o))
            (elim o as (λ _. R) [ none ↦ ok none | some st ↦ staged_case st st.next ])) [
              | none ↦ tt
              | some st ↦
                  elim st.next as (λ n. Holds (WithinOrNone (brought s n)) (staged_case st n)) [
                    | none ↦ tt
                    | some t ↦
                        Holds-bind (Within (count (staged_sampler api s t start)))
                          (WithinOrNone (brought s (some t))) (install_staged api s st t start) _
                          (installed s st t start) (λ s' h. (h.0, omega (arith, h.1, few t)))
                  ]
            ]

  pub rebase_at_terminal-Within :
      (s : Session D T C) → IsInside s → Holds (Within (total s)) (rebase_at_terminal api s)
  unfolding rebase_at_terminal
  rebase_at_terminal-Within s i = elim (Bool-cases (at_terminal api s)) [
    | inr f ↦ rw (f, rebase_at_terminal) (i, omega arith)
    | inl t ↦
        rw (t, rebase_at_terminal)
          (Holds-bind (WithinOrNone (staged_left s s.staging)) (Within (total s))
            (rebase api s d.nought) _ (rebased s d.nought (λ t. omega arith))
            (elim [ none ↦ λ _. (i, omega arith) | some s' ↦ λ h. (h.0, omega (arith, h.1)) ]))
  ]

  brought-same :
      (s : Session D T C) (x : Option (UniformSampler D)) (y : Option C) (n : ℕ) (t : D)
      (o : Option T)
      → brought (record s { sampler = x; cursor = y; emitted_sample_count = n; current_time = t }) o
        ≡ brought s o
  unfolding staged_sampler sampler_for
  brought-same s x y n t none = refl
  brought-same s x y n t (some staged) = refl

  pub staged_left-same :
      (s : Session D T C) (x : Option (UniformSampler D)) (y : Option C) (n : ℕ) (t : D)
      (o : Option (Staging D T))
      → staged_left
          (record s { sampler = x; cursor = y; emitted_sample_count = n; current_time = t })
          o
        ≡ staged_left s o
  staged_left-same s x y n t none = refl
  staged_left-same s x y n t (some st) = brought-same s x y n t st.next

  -- A sample went out and is counted off, or none went out.
  abbrev pub Took : Session D T C → Session D T C × Option Sample → Type 0
  Took s (s', none) = Within (total s) s'
  Took s (s', some x) = IsInside s' × (total s' < total s)

  abbrev pub Drew : UniformSampler D → UniformSampler D × C × Option Sample → Type 0
  Drew x (x', c, none) = x' ≡ x
  Drew x (x', c, some v) =
      IsTaken x' × (x'.num_samples - x'.next_sample < x.num_samples - x.next_sample)

  pub next-Drew : (x : UniformSampler D) (c : C) → IsTaken x → Holds (Drew x) (next cursors x c)
  unfolding next advance
  next-Drew x c h = elim (Bool-cases (x.next_sample == x.num_samples)) [
    | inl over ↦ rw (over, next, advance) refl
    | inr more ↦
        rw (more, next, advance)
          (Holds-bind (λ _. Unit {0}) (Drew x) (cursors.sample _) _
            (Holds-all (λ _. Unit {0}) (cursors.sample _) (λ _. tt))
            (λ v _. (ground arith, ground arith)))
  ]
