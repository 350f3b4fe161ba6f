-- ===== src/Session/Horizon/Takes.antt =====
-- What a sample takes of the samples that are left (session.cpp).
use trajex.Double.{Double}
use trajex.UniformSampler.{UniformSampler, next}
use trajex.Session.{TrajectoryApi, Session}
use trajex.Session.Sampling.{
  rebase, take_next, emit, rebase_at_terminal, sample_past_terminal, sample_one,
}
use trajex.Session.Horizon.Rounds.{
  left_of, AllTaken, IsTaken, IsInside, left, staged_left, total, Within, WithinOrNone, Took, Drew,
  rebased, rebase_at_terminal-Within, staged_left-same, next-Drew,
}
use trajex.Prelude.{
  ◌+◌, ◌-◌, ◌≤◌, ◌≡◌, refl, sym, ap, subst, Option, none, some, arith, Result, ok, ◌>>=◌, Holds,
  Holds-bind, Holds-map,
}

module _ {D T C P Sample : Type 0} ⦃d : Double D⦄ (api : TrajectoryApi D T C P Sample) where
  open api use {cursors}

  drawn :
      (s : Session D T C) (x : UniformSampler D)
      → s.sampler ≡ some x
      → IsTaken api x
      → (r : UniformSampler D × C × Option Sample) → Drew api x r
      → Took api s (record s { sampler = some r.0; cursor = some r.1 }, r.2)
  drawn s x e i (x', c, none) h =
      let same =
        staged_left-same api s (some x') (some c) s.emitted_sample_count s.current_time s.staging in
      let before : left api s ≡ x.num_samples - x.next_sample = ap (left_of api) e in
      let now : x'.num_samples - x'.next_sample ≡ x.num_samples - x.next_sample =
        ap (λ y. left_of api (some y)) h in
      (subst (IsTaken api) (sym h) i, omega (arith, same, before, now))
  drawn s x e i (x', c, some v) h =
      let same =
        staged_left-same api s (some x') (some c) s.emitted_sample_count s.current_time s.staging in
      let before : left api s ≡ x.num_samples - x.next_sample = ap (left_of api) e in
      (h.0, omega (arith, same, before, h.1))

  take_next-Took : (s : Session D T C) → IsInside api s → Holds (Took api s) (take_next api s)
  unfolding take_next
  take_next-Took s i =
      (let R : Type 0 = Result (Session D T C × Option Sample) in
        let body : Option (UniformSampler D) → Option C → R = λ o q. elim o as (λ _. R) [
          | none ↦ ok (s, none)
          | some x ↦ elim q as (λ _. R) [
            | none ↦ ok (s, none)
            | some cursor ↦ next cursors x cursor >>= λ t.
                ok (record s { sampler = some t.0; cursor = some t.1 }, t.2)
          ]
        ] in
        let go : (o : Option (UniformSampler D))
            → s.sampler ≡ o
            → (q : Option C) → Holds (Took api s) (body o q) =
          elim [
            | none ↦ λ e q. (i, omega arith)
            | some x ↦ λ e. elim [
              | none ↦ (i, omega arith)
              | some cursor ↦
                  let taken : IsTaken api x = subst (AllTaken api) e i in
                  Holds-bind (Drew api x) (Took api s) (next cursors x cursor) _
                    (next-Drew api x cursor taken) (drawn s x e taken)
            ]
          ] in
        go s.sampler refl s.cursor)

  later :
      (s s' : Session D T C) (r : Session D T C × Option Sample)
      → total api s' ≤ total api s
      → Took api s' r
      → Took api s r
  later s s' (t, none) k h = (h.0, omega (arith, h.1))
  later s s' (t, some x) k h = (h.0, omega (arith, h.1))

  emitted :
      (s s' : Session D T C) (o : Option Sample)
      → Took api s (s', o)
      → Holds (Took api s) (elim o as (λ _. Result (Session D T C × Option Sample)) [
        | none ↦ ok (s', none)
        | some taken ↦ ok (emit api s' taken)
      ])
  unfolding emit
  emitted s s' none h = h
  emitted s s' (some v) h =
      let taken = api.at_time v (d.add (api.time_of v) s'.epoch) in
      let same =
        staged_left-same api s' s'.sampler s'.cursor (s'.emitted_sample_count + 1)
          (api.time_of taken) s'.staging in
      (h.0, omega (arith, h.1, same))

  sample_past_terminal-Took :
      (s : Session D T C) → IsInside api s → Holds (Took api s) (sample_past_terminal api s)
  unfolding sample_past_terminal
  sample_past_terminal-Took s i =
      Holds-bind (WithinOrNone api (staged_left api s s.staging)) (Took api s)
        (rebase api s s.sample_period) _ (rebased api s s.sample_period (λ t. omega arith))
        (elim [
          | none ↦ λ _. (i, omega arith)
          | some s' ↦ λ k.
              Holds-bind (Took api s') (Took api s) (take_next api s') _ (take_next-Took s' k.0)
                (λ r h. emitted s r.0 r.1 (later s s' r (omega (arith, k.1)) h))
        ])

  sampled_or_past :
      (s s' : Session D T C) (o : Option Sample)
      → Took api s (s', o)
      → Holds (Took api s) (elim o as (λ _. Result (Session D T C × Option Sample)) [
        | some taken ↦ ok (emit api s' taken)
        | none ↦ sample_past_terminal api s'
      ])
  sampled_or_past s s' (some v) h = emitted s s' (some v) h
  sampled_or_past s s' none h =
      Holds-map (Took api s') (Took api s) (sample_past_terminal api s')
        (sample_past_terminal-Took s' h.0) (λ r k. later s s' r h.1 k)

  pub sample_one-Took : (s : Session D T C) → IsInside api s → Holds (Took api s) (sample_one api s)
  unfolding sample_one
  sample_one-Took s i =
      let R : Type 0 = Result (Session D T C × Option Sample) in
      let run : R = rebase_at_terminal api s >>= λ s'. take_next api s' >>= λ t.
      elim t.1 as (λ _. R) [
        | some taken ↦ ok (emit api t.0 taken)
        | none ↦ sample_past_terminal api t.0
      ] in
      let run_lem : Holds (Took api s) run =
        Holds-bind (Within api (total api s)) (Took api s) (rebase_at_terminal api s) _
          (rebase_at_terminal-Within api s i)
          (λ s' k.
            Holds-bind (Took api s') (Took api s) (take_next api s') _ (take_next-Took s' k.0)
              (λ r h. sampled_or_past s r.0 r.1 (later s s' r k.1 h))) in
      elim s.sampler
        as (λ o. Holds (Took api s) (elim o as (λ _. R) [
          | none ↦ ok (s, none)
          | some _ ↦ elim s.cursor as (λ _. R) [ none ↦ ok (s, none) | some _ ↦ run ]
        ])) [
          | none ↦ (i, omega arith)
          | some _ ↦
              elim s.cursor
                as (λ o.
                  Holds (Took api s) (elim o as (λ _. R) [ none ↦ ok (s, none) | some _ ↦ run ])) [
                    | none ↦ (i, omega arith)
                    | some _ ↦ run_lem
                  ]
        ]
