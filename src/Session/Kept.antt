-- ===== src/Session/Kept.antt =====
-- Properties of a session that sampling keeps if its parts do (session.cpp): sample_one_ and
-- sample_next.
use trajex.Double.{Double}
use trajex.UniformSampler.{UniformSampler, next}
use trajex.Session.{TrajectoryApi, Session}
use trajex.Session.Sampling.{
  rebase, take_next, emit, rebase_at_terminal, sample_past_terminal, sample_one, sample_next,
  at_terminal,
}
use trajex.Prelude.{
  ℕ, zero, suc, inl, inr, Option, none, some, List, [], ◌∷◌, Bool-cases, Option-cases, Result, ok,
  ◌>>=◌, Holds, Holds-bind, Holds-all, OrNone,
}

module _ {D T C P Sample : Type 0} ⦃d : Double D⦄ (api : TrajectoryApi D T C P Sample) where
  open api use {cursors}

  -- What a sampler, a cursor, a count and a time do not matter to, and rebases keep.
  pub record IsKept (I : Session D T C → Type 0) : Type 0 where
    pub moved :
        (s : Session D T C) (sampler : UniformSampler D) (cursor : C)
        → I s
        → I (record s { sampler = some sampler; cursor = some cursor })
    pub counted :
        (s : Session D T C) (n : ℕ) (t : D)
        → I s
        → I (record s { emitted_sample_count = n; current_time = t })
    pub rebased : (s : Session D T C) (start : D) → I s → Holds (OrNone I) (rebase api s start)

  module _ (I : Session D T C → Type 0) (kept : IsKept I) where
    take_next-kept : (s : Session D T C) → I s → Holds (λ r. I r.0) (take_next api s)
    unfolding take_next
    take_next-kept s i = elim (Option-cases s.sampler) [
      | inl e ↦ rw (e, take_next) i
      | inr (sampler, e) ↦ elim (Option-cases s.cursor) [
        | inl f ↦ rw (e, take_next) (rw f i)
        | inr (cursor, f) ↦
            rw (e, take_next)
              (rw f (
                Holds-bind (λ _. Unit {0}) (λ (r : Session D T C × Option Sample). I r.0)
                  (next cursors sampler cursor) _
                  (Holds-all (λ _. Unit {0}) (next cursors sampler cursor) (λ _. tt))
                  (λ u _. kept.moved s u.0 u.1 i)))
      ]
    ]

    rebase_at_terminal-kept : (s : Session D T C) → I s → Holds I (rebase_at_terminal api s)
    unfolding rebase_at_terminal
    rebase_at_terminal-kept s i = elim (Bool-cases (at_terminal api s)) [
      | inr f ↦ rw (f, rebase_at_terminal) i
      | inl t ↦
          rw (t, rebase_at_terminal)
            (Holds-bind (OrNone I) I (rebase api s d.nought) _ (kept.rebased s d.nought i)
              (elim [ none ↦ λ _. i | some s' ↦ λ k. k ]))
    ]

    emitted :
        (s : Session D T C) (o : Option Sample)
        → I s
        → Holds
            (λ r. I r.0)
            (elim o as (λ _. Result (Session D T C × Option Sample)) [
              | none ↦ ok (s, none)
              | some taken ↦ ok (emit api s taken)
            ])
    unfolding emit
    emitted s none i = i
    emitted s (some taken) i = kept.counted s _ _ i

    sample_past_terminal-kept :
        (s : Session D T C) → I s → Holds (λ r. I r.0) (sample_past_terminal api s)
    unfolding sample_past_terminal
    sample_past_terminal-kept s i =
        Holds-bind (OrNone I) (λ (r : Session D T C × Option Sample). I r.0)
          (rebase api s s.sample_period) _ (kept.rebased s s.sample_period i)
          (elim [
            | none ↦ λ _. i
            | some s' ↦ λ k.
                Holds-bind (λ r. I r.0) (λ (r : Session D T C × Option Sample). I r.0)
                  (take_next api s') _ (take_next-kept s' k) (λ r q. emitted r.0 r.1 q)
          ])

    sampled_or_past :
        (s : Session D T C) (o : Option Sample)
        → I s
        → Holds
            (λ r. I r.0)
            (elim o as (λ _. Result (Session D T C × Option Sample)) [
              | some taken ↦ ok (emit api s taken)
              | none ↦ sample_past_terminal api s
            ])
    unfolding emit
    sampled_or_past s (some taken) i = kept.counted s _ _ i
    sampled_or_past s none i = sample_past_terminal-kept s i

    sample_one-kept : (s : Session D T C) → I s → Holds (λ r. I r.0) (sample_one api s)
    unfolding sample_one
    sample_one-kept s i = elim (Option-cases s.sampler) [
      | inl e ↦ rw (e, sample_one) i
      | inr (sampler, e) ↦ elim (Option-cases s.cursor) [
        | inl f ↦ rw (e, sample_one) (rw f i)
        | inr (cursor, f) ↦
            rw (e, sample_one)
              (rw f (
                Holds-bind I (λ (r : Session D T C × Option Sample). I r.0)
                  (rebase_at_terminal api s) _ (rebase_at_terminal-kept s i)
                  (λ s' k.
                    Holds-bind (λ r. I r.0) (λ (r : Session D T C × Option Sample). I r.0)
                      (take_next api s') _ (take_next-kept s' k)
                      (λ r q. sampled_or_past r.0 r.1 q))))
      ]
    ]

    then_more :
        (n : ℕ) (s : Session D T C) (o : Option Sample)
        → I s
        → ((s' : Session D T C) → I s' → Holds (λ r. I r.0) (sample_next api n s'))
        → Holds
            (λ r. I r.0)
            (elim o as (λ _. Result (Session D T C × List Sample)) [
              | none ↦ ok (s, [])
              | some taken ↦ sample_next api n s >>= λ u. ok (u.0, taken ∷ u.1)
            ])
    then_more n s none i more = i
    then_more n s (some taken) i more =
        Holds-bind (λ r. I r.0) (λ (r : Session D T C × List Sample). I r.0) (sample_next api n s) _
          (more s i) (λ u k. k)

    pub sample_next-kept :
        (n : ℕ) (s : Session D T C) → I s → Holds (λ r. I r.0) (sample_next api n s)
    unfolding sample_next
    sample_next-kept zero s i = i
    sample_next-kept (suc n) s i =
        Holds-bind (λ r. I r.0) (λ (r : Session D T C × List Sample). I r.0) (sample_one api s) _
          (sample_one-kept s i) (λ r k. then_more n r.0 r.1 k (sample_next-kept n))
