-- ===== src/Session/Counting.antt =====
-- What sampling does to the count of emitted samples.
use trajex.Double.{Double}
use trajex.UniformSampler.{next}
use trajex.Session.{install, TrajectoryApi, Staging, Session}
use trajex.Session.Sampling.{
  staged_sampler, rebase, take_next, emit, rebase_at_terminal, sample_past_terminal, sample_one,
  sample_next, install_staged, at_terminal,
}
use trajex.Prelude.{
  ℕ, zero, suc, ◌+◌, ◌≤◌, ◌≡◌, refl, ap, ◌∙◌, inl, inr, Option, none, some, List, [], ◌∷◌, arith,
  Bool-cases, Option-cases, length, Result, ok, ◌>>=◌, Holds, Holds-bind, Holds-all, Holds-map,
  Holds-at,
}

module _ {D T C P Sample : Type 0} ⦃d : Double D⦄ (api : TrajectoryApi D T C P Sample) where
  open api use {cursors}

  -- Nothing went out.
  abbrev Kept : Session D T C → Session D T C → Type 0
  Kept s s' =
      (s'.emitted_sample_count ≡ s.emitted_sample_count) × (s'.current_time ≡ s.current_time)

  abbrev KeptOr : Session D T C → Option (Session D T C) → Type 0
  KeptOr s none = Unit
  KeptOr s (some s') = Kept s s'

  -- A sample went out and was counted, or none went out.
  abbrev Counted : Session D T C → Session D T C × Option Sample → Type 0
  Counted s (s', none) = Kept s s'
  Counted s (s', some x) =
      (s'.emitted_sample_count ≡ s.emitted_sample_count + 1) × (s'.current_time ≡ api.time_of x)

  install_staged_lem :
      (s : Session D T C) (st : Staging D T) (t : T) (start : D)
      → Holds (Kept s) (install_staged api s st t start)
  unfolding install_staged install
  install_staged_lem s st t start =
      Holds-bind (λ _. Unit {0}) (Kept s) (staged_sampler api s t start) _
        (Holds-all (λ _. Unit {0}) (staged_sampler api s t start) (λ _. tt)) (λ _ _. (refl, refl))

  rebase_lem : (s : Session D T C) (start : D) → Holds (KeptOr s) (rebase api s start)
  unfolding rebase
  rebase_lem s start =
      let R : Type 0 = Result (Option (Session D T C)) in
      let staged_case : Staging D T → Option T → R = λ st n. elim n as (λ _. R) [
        | none ↦ ok none
        | some staged ↦ install_staged api s st staged start >>= λ s'. ok (some s')
      ] in
      elim s.staging
        as (λ o.
          Holds (KeptOr s)
            (elim o as (λ _. R) [ none ↦ ok none | some st ↦ staged_case st st.next ])) [
              | none ↦ tt
              | some st ↦ elim st.next as (λ n. Holds (KeptOr s) (staged_case st n)) [
                | none ↦ tt
                | some t ↦
                    Holds-bind (Kept s) (KeptOr s) (install_staged api s st t start) _
                      (install_staged_lem s st t start) (λ a h. h)
              ]
            ]

  take_next_lem : (s : Session D T C) → Holds (λ r. Kept s r.0) (take_next api s)
  unfolding take_next
  take_next_lem s = elim (Option-cases s.sampler) [
    | inl e ↦ rw (e, take_next) (refl, refl)
    | inr (sampler, e) ↦ elim (Option-cases s.cursor) [
      | inl f ↦ rw (e, take_next) (rw f (refl, refl))
      | inr (cursor, f) ↦
          rw (e, take_next)
            (rw f (
              Holds-bind (λ _. Unit {0}) (λ (r : Session D T C × Option Sample). Kept s r.0)
                (next cursors sampler cursor) _
                (Holds-all (λ _. Unit {0}) (next cursors sampler cursor) (λ _. tt))
                (λ _ _. (refl, refl))))
    ]
  ]

  emitted :
      (s s' : Session D T C) (o : Option Sample)
      → Kept s s'
      → Holds (Counted s) (elim o as (λ _. Result (Session D T C × Option Sample)) [
        | none ↦ ok (s', none)
        | some x ↦ ok (emit api s' x)
      ])
  unfolding emit
  emitted s s' none k = k
  emitted s s' (some x) k = (omega (arith, k.0), refl)

  rebased :
      (s : Session D T C) (o : Option (Session D T C))
      → KeptOr s o
      → Holds (Kept s) (elim o as (λ _. Result (Session D T C)) [ none ↦ ok s | some s' ↦ ok s' ])
  rebased s none k = (refl, refl)
  rebased s (some s') k = k

  rebase_at_terminal_lem : (s : Session D T C) → Holds (Kept s) (rebase_at_terminal api s)
  unfolding rebase_at_terminal
  rebase_at_terminal_lem s = elim (Bool-cases (at_terminal api s)) [
    | inr f ↦ rw (f, rebase_at_terminal) (refl, refl)
    | inl t ↦
        rw (t, rebase_at_terminal)
          (Holds-bind (KeptOr s) (Kept s) (rebase api s d.nought) _ (rebase_lem s d.nought)
            (rebased s))
  ]

  taken_then :
      (s s' : Session D T C)
      → Kept s s'
      → (r : Session D T C × Option Sample) → Kept s' r.0
      → Kept s r.0
  taken_then s s' k r h = (h.0 ∙ k.0, h.1 ∙ k.1)

  past :
      (s : Session D T C) (o : Option (Session D T C))
      → KeptOr s o
      → Holds (Counted s) (elim o as (λ _. Result (Session D T C × Option Sample)) [
        | none ↦ ok (s, none)
        | some s' ↦ take_next api s' >>= λ t.
            elim t.1 as (λ _. Result (Session D T C × Option Sample)) [
              | none ↦ ok (t.0, none)
              | some taken ↦ ok (emit api t.0 taken)
            ]
      ])
  past s none k = (refl, refl)
  past s (some s') k =
      Holds-bind (λ r. Kept s' r.0) (Counted s) (take_next api s') _ (take_next_lem s')
        (λ r h. emitted s r.0 r.1 (taken_then s s' k r h))

  sample_past_terminal_lem : (s : Session D T C) → Holds (Counted s) (sample_past_terminal api s)
  unfolding sample_past_terminal
  sample_past_terminal_lem s =
      Holds-bind (KeptOr s) (Counted s) (rebase api s s.sample_period) _
        (rebase_lem s s.sample_period) (past s)

  Counted-later :
      (s s' : Session D T C) (r : Session D T C × Option Sample)
      → Kept s s'
      → Counted s' r
      → Counted s r
  Counted-later s s' (t, none) k h = (h.0 ∙ k.0, h.1 ∙ k.1)
  Counted-later s s' (t, some x) k h = (omega (arith, h.0, k.0), h.1)

  sampled_or_past :
      (s s' : Session D T C) (o : Option Sample)
      → Kept s s'
      → Holds (Counted s) (elim o as (λ _. Result (Session D T C × Option Sample)) [
        | some taken ↦ ok (emit api s' taken)
        | none ↦ sample_past_terminal api s'
      ])
  unfolding emit
  sampled_or_past s s' (some x) k = (omega (arith, k.0), refl)
  sampled_or_past s s' none k =
      Holds-map (Counted s') (Counted s) (sample_past_terminal api s') (sample_past_terminal_lem s')
        (λ r h. Counted-later s s' r k h)

  sample_one_lem : (s : Session D T C) → Holds (Counted s) (sample_one api s)
  unfolding sample_one
  sample_one_lem s =
      let R : Type 0 = Result (Session D T C × Option Sample) in
      let run : R = rebase_at_terminal api s >>= λ s'. take_next api s' >>= λ t.
      elim t.1 as (λ _. R) [
        | some taken ↦ ok (emit api t.0 taken)
        | none ↦ sample_past_terminal api t.0
      ] in
      let run_lem : Holds (Counted s) run =
        Holds-bind (Kept s) (Counted s) (rebase_at_terminal api s) _ (rebase_at_terminal_lem s)
          (λ s' k.
            Holds-bind (λ r. Kept s' r.0) (Counted s) (take_next api s') _ (take_next_lem s')
              (λ r h. sampled_or_past s r.0 r.1 (taken_then s s' k r h))) in
      elim s.sampler
        as (λ o. Holds (Counted s) (elim o as (λ _. R) [
          | none ↦ ok (s, none)
          | some _ ↦ elim s.cursor as (λ _. R) [ none ↦ ok (s, none) | some _ ↦ run ]
        ])) [
          | none ↦ (refl, refl)
          | some _ ↦
              elim s.cursor
                as (λ o.
                  Holds (Counted s) (elim o as (λ _. R) [ none ↦ ok (s, none) | some _ ↦ run ])) [
                    | none ↦ (refl, refl)
                    | some _ ↦ run_lem
                  ]
        ]

  -- The time of the last of some samples, or `t` if there are none.
  unfoldable pub time_after : D → List Sample → D
  time_after t [] = t
  time_after t (x ∷ l) = time_after (api.time_of x) l

  -- What came out of at most n samples, and what the session holds of it.
  abbrev pub AllCounted : ℕ → Session D T C → Session D T C × List Sample → Type 0
  AllCounted n s (s', l) =
      (length l ≤ n)
      × (s'.emitted_sample_count ≡ s.emitted_sample_count + length l)
      × (s'.current_time ≡ time_after s.current_time l)

  then_more :
      (n : ℕ) (s : Session D T C) (r : Session D T C × Option Sample)
      → Counted s r
      → ((s' : Session D T C) → Holds (AllCounted n s') (sample_next api n s'))
      → Holds (AllCounted (suc n) s) (elim r.1 as (λ _. Result (Session D T C × List Sample)) [
        | none ↦ ok (r.0, [])
        | some taken ↦ sample_next api n r.0 >>= λ u. ok (u.0, taken ∷ u.1)
      ])
  unfolding time_after
  then_more n s (s', none) h more = (omega arith, omega (arith, h.0), h.1)
  then_more n s (s', some x) h more =
      Holds-bind (AllCounted n s') (AllCounted (suc n) s) (sample_next api n s') _ (more s')
        (λ u k. (omega (arith, k.0), omega (arith, k.1, h.0), k.2 ∙ ap (λ t. time_after t u.1) h.1))

  sample_next_lem : (n : ℕ) (s : Session D T C) → Holds (AllCounted n s) (sample_next api n s)
  unfolding sample_next time_after
  sample_next_lem zero s = (omega arith, omega arith, refl)
  sample_next_lem (suc n) s =
      Holds-bind (Counted s) (AllCounted (suc n) s) (sample_one api s) _ (sample_one_lem s)
        (λ r h. then_more n s r h (sample_next_lem n))

  -- If `sample_next` returns, it returns n samples at most; the count of emitted samples has grown by
  -- as many, and the current time is that of the last one, or is as before if there is none.
  pub sample_next-AllCounted :
      (n : ℕ) (s : Session D T C) (r : Session D T C × List Sample)
      → sample_next api n s ≡ ok r
      → AllCounted n s r
  sample_next-AllCounted n s r e =
      Holds-at (AllCounted n s) (sample_next api n s) (sample_next_lem n s) e
