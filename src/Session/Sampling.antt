-- ===== src/Session/Sampling.antt =====
-- Sampling a session: session::sample_one_, install_staged_ and the loops over them, and the
-- durations that are left (session.cpp).
use trajex.Prelude.{
  ℕ, zero, suc, ◌+◌, Bool, false, Option, none, some, List, [], ◌∷◌, ◌==◌, if◌then◌else◌, Result,
  ok, ◌>>=◌,
}
use trajex.Double.{Double, lt, le}
use trajex.UniformSampler.{UniformSampler, uniform_sampler, remaining, next}
use trajex.Session.{TrajectoryApi, Staging, Session, staged_of, sampler_for, install}

module _ {D T C P Sample : Type 0} ⦃d : Double D⦄ (api : TrajectoryApi D T C P Sample) where
  open api use {duration, time_of, at_time, cursors}

  -- The sampler over staged motion from `start` on; motion that ends by then keeps its last sample.
  unfoldable pub staged_sampler : Session D T C → T → D → Result (UniformSampler D)
  unfolding sampler_for
  staged_sampler s staged start =
      if lt start (duration staged)
      then sampler_for api s staged start
      else ok (uniform_sampler 1 d.nought)

  -- session::install_staged_, with the staged motion `st` and its trajectory. The staged waypoints
  -- are there whenever its trajectory is.
  unfoldable pub install_staged : Session D T C → Staging D T → T → D → Result (Session D T C)
  unfolding staged_sampler install
  install_staged s st staged start = do
    new_sampler ← staged_sampler s staged start
    let old_duration : D = elim s.active [ none ↦ d.nought | some active ↦ duration active ]
    ok (record (install api s staged new_sampler) {
      waypoints = elim st.waypoints [ none ↦ s.waypoints | some store ↦ store ];
      epoch = d.add s.epoch old_duration;
      staging = none;
    })

  -- install_staged_, if staged motion is there; `none` if it is not.
  unfoldable pub rebase : Session D T C → D → Result (Option (Session D T C))
  unfolding install_staged
  rebase s start = elim s.staging [
    | none ↦ ok none
    | some st ↦ elim st.next [
      | none ↦ ok none
      | some staged ↦ install_staged s st staged start >>= λ s'. ok (some s')
    ]
  ]

  -- sampler_->next(*cursor_)
  unfoldable pub take_next : Session D T C → Result (Session D T C × Option Sample)
  take_next s = elim s.sampler [
    | none ↦ ok (s, none)
    | some sampler ↦ elim s.cursor [
      | none ↦ ok (s, none)
      | some cursor ↦ do
        (sampler', cursor', taken) ← next cursors sampler cursor
        ok (record s { sampler = some sampler'; cursor = some cursor' }, taken)
    ]
  ]

  -- The end of sample_one_: the sample goes out in global time.
  unfoldable pub emit : Session D T C → Sample → Session D T C × Option Sample
  emit s local_sample =
      let taken = at_time local_sample (d.add (time_of local_sample) s.epoch) in
      (
        record s {
          emitted_sample_count = s.emitted_sample_count + 1;
          current_time = time_of taken;
        },
        some taken,
      )

  abbrev pub at_terminal : Session D T C → Bool
  at_terminal s = elim s.sampler [ none ↦ false | some sampler ↦ remaining sampler == 1 ]

  -- The first rebase of sample_one_, in place of the active trajectory's terminal.
  unfoldable pub rebase_at_terminal : Session D T C → Result (Session D T C)
  unfolding rebase remaining
  rebase_at_terminal s =
      if at_terminal s
      then (rebase s d.nought >>= λ r. elim r [ none ↦ ok s | some s' ↦ ok s' ])
      else ok s

  -- The second rebase, past a terminal that has gone out.
  unfoldable pub sample_past_terminal : Session D T C → Result (Session D T C × Option Sample)
  unfolding rebase take_next emit
  sample_past_terminal s = rebase s s.sample_period >>= λ r. elim r [
    | none ↦ ok (s, none)
    | some s' ↦
        take_next s' >>= λ t. elim t.1 [ none ↦ ok (t.0, none) | some taken ↦ ok (emit t.0 taken) ]
  ]

  -- session::sample_one_; an error is an exception of the sampler or the cursor.
  unfoldable pub sample_one : Session D T C → Result (Session D T C × Option Sample)
  unfolding rebase_at_terminal take_next emit sample_past_terminal
  sample_one s = elim s.sampler [
    | none ↦ ok (s, none)
    | some _ ↦ elim s.cursor [
      | none ↦ ok (s, none)
      | some _ ↦ rebase_at_terminal s >>= λ s'. take_next s' >>= λ t. elim t.1 [
        | some taken ↦ ok (emit t.0 taken)
        | none ↦ sample_past_terminal t.0
      ]
    ]
  ]

  -- session::sample_next
  unfoldable pub sample_next : ℕ → Session D T C → Result (Session D T C × List Sample)
  sample_next zero s = ok (s, [])
  sample_next (suc n) s = sample_one s >>= λ t. elim t.1 [
    | none ↦ ok (t.0, [])
    | some taken ↦ sample_next n t.0 >>= λ u. ok (u.0, taken ∷ u.1)
  ]

  unfoldable pub remaining_active_duration : Session D T C → D
  remaining_active_duration s = elim s.active [
    | none ↦ d.nought
    | some active ↦
        let active_end = d.add s.epoch (duration active) in
        if le active_end s.current_time then d.nought else d.sub active_end s.current_time
  ]

  unfoldable pub remaining_total_duration : Session D T C → D
  remaining_total_duration s = elim s.active [
    | none ↦ d.nought
    | some active ↦
        let active_end = d.add s.epoch (duration active) in
        let total_end : D = elim (staged_of s.staging) [
          | none ↦ active_end
          | some staged ↦ d.add active_end (duration staged)
        ] in
        if le total_end s.current_time then d.nought else d.sub total_end s.current_time
  ]
