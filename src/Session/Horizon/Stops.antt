-- ===== src/Session/Horizon/Stops.antt =====
-- Where the loop of session::sample_at_least stops (session.cpp).
use trajex.Session.Horizon.Takes.{sample_one-Took}
use trajex.Double.{Double, le}
use trajex.Session.{TrajectoryApi, Session}
use trajex.Session.Sampling.{sample_one}
use trajex.Session.Horizon.{and_then, sample_until, sample_at_least}
use trajex.Session.Horizon.Rounds.{IsInside, total, Took}
use trajex.Prelude.{
  ℕ, zero, suc, ◌<◌, ◌≡◌, ◌⊎◌, inl, inr, true, false, Option, none, some, List, [], ◌∷◌, arith,
  Bool-cases, Result, ok, ◌>>=◌, Result-cases, Holds, Holds-bind, Holds-at,
}

module _ {D T C P Sample : Type 0} ⦃d : Double D⦄ (api : TrajectoryApi D T C P Sample) where
  -- The loop has come to an end, at the target or where there was nothing more to sample.
  abbrev pub IsDone : D → Option (Session D T C × List Sample) → Type 0
  IsDone target none = ⊥
  IsDone target (some (s, l)) =
      (le target s.current_time ≡ true)
      ⊎ ((before : Session D T C) × (sample_one api before ≡ ok (s, none)))

  and_then-IsDone :
      (target : D) (x : Sample) (o : Option (Session D T C × List Sample))
      → IsDone target o
      → IsDone target (and_then api x o)
  and_then-IsDone target x none h = h
  and_then-IsDone target x (some u) h = h

  round :
      (n : ℕ) (target : D) (s s' : Session D T C) (o : Option Sample)
      → sample_one api s ≡ ok (s', o)
      → Took api s (s', o)
      → (IsInside api s'
          → total api s' < total api s
          → Holds (IsDone target) (sample_until api n target s'))
      → Holds (IsDone target) (elim o as (λ _. Result (Option (Session D T C × List Sample))) [
        | none ↦ ok (some (s', []))
        | some taken ↦
            elim (le target s'.current_time)
              as (λ _. Result (Option (Session D T C × List Sample))) [
                | true ↦ ok (some (s', taken ∷ []))
                | false ↦ sample_until api n target s' >>= λ u. ok (and_then api taken u)
              ]
      ])
  round n target s s' none e h more = inr (s, e)
  round n target s s' (some x) e h more = elim (Bool-cases (le target s'.current_time)) [
    | inl there ↦ rw there (inl there)
    | inr short ↦ rw short (
        Holds-bind (IsDone target) (IsDone target) (sample_until api n target s') _ (more h.0 h.1)
          (and_then-IsDone target x))
  ]

  sample_until-IsDone :
      (n : ℕ) (target : D) (s : Session D T C)
      → IsInside api s
      → total api s < n
      → Holds (IsDone target) (sample_until api n target s)
  unfolding sample_until
  sample_until-IsDone zero target s i h = elim h [ ]
  sample_until-IsDone (suc n) target s i h = elim (Result-cases (sample_one api s)) [
    | inr (f, e) ↦ rw (e, sample_until) tt
    | inl (r, e) ↦
        rw (e, sample_until)
          (round n target s r.0 r.1 e
            (Holds-at (Took api s) (sample_one api s) (sample_one-Took api s i) e)
            (λ i' k. sample_until-IsDone n target r.0 i' (omega (arith, k, h))))
  ]

  -- The session's sampler has taken no more samples than there are. If nothing throws, then
  -- sample_at_least ends after one round more, at most, than there are samples left in that sampler and
  -- in the samplers that the staged motion may bring; it ends where the current time has reached the
  -- horizon, or where there was nothing more to sample.
  pub sample_at_least-IsDone :
      (horizon : D) (s : Session D T C) (r : Option (Session D T C × List Sample))
      → IsInside api s
      → sample_at_least api (suc (total api s)) horizon s ≡ ok r
      → IsDone (d.add s.current_time horizon) r
  unfolding sample_at_least
  sample_at_least-IsDone horizon s r i e =
      Holds-at (IsDone (d.add s.current_time horizon))
        (sample_until api (suc (total api s)) (d.add s.current_time horizon) s)
        (sample_until-IsDone (suc (total api s)) (d.add s.current_time horizon) s i (omega arith)) e
