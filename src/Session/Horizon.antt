-- ===== src/Session/Horizon.antt =====
-- session::sample_at_least (session.cpp): samples until the time of the last reaches a horizon. The
-- loop has a number of rounds, and `none` says that they are used up.
pub mod Rounds
pub mod Takes
pub mod Stops
use trajex.Double.{Double, le}
use trajex.Session.{TrajectoryApi, Session}
use trajex.Session.Sampling.{sample_one}
use trajex.Prelude.{
  ℕ, zero, suc, ◌+◌, ◌-◌, ◌*◌, ◌/◌, ◌%◌, ◌≤◌, ◌<◌, ◌≡◌, refl, sym, ap, ◌∙◌, subst, ◌≢◌, ◌↔◌, ◌⊎◌,
  inl, inr, Bool, true, false, not, ◌&&◌, ◌||◌, Option, none, some, List, [], ◌∷◌, ◌++◌, map, arith,
  ltb, leb, ◌==◌, if◌then◌else◌, Bool-cases, Option-cases, length, get_elem?, take, drop, drop_last,
  last?, All, length-append, length-take, length-drop, take-length, last?-append_one,
  drop_last-append_one, length-drop_last, All-append, All-drop, All-take, All-last?, zero_cases,
  get_elem?-some, length-map, take-append_le, replicate, length-replicate, All-replicate,
  All-get_elem?, Error, Result, ok, err, ◌>>=◌, ◌>>◌, throw_if, Result-cases, Holds, Holds-bind,
  Holds-all, Holds-map, Holds-at, Holds-throw_if, Holds-then,
}

module _ {D T C P Sample : Type 0} ⦃d : Double D⦄ (api : TrajectoryApi D T C P Sample) where
  abbrev pub and_then :
      Sample → Option (Session D T C × List Sample) → Option (Session D T C × List Sample)
  and_then taken none = none
  and_then taken (some (s, l)) = some (s, taken ∷ l)

  unfoldable pub sample_until :
      ℕ → D → Session D T C → Result (Option (Session D T C × List Sample))
  unfolding sample_one
  sample_until zero target s = ok none
  sample_until (suc n) target s = sample_one api s >>= λ t. elim t.1 [
    | none ↦ ok (some (t.0, []))
    | some taken ↦ elim (le target t.0.current_time) [
      | true ↦ ok (some (t.0, taken ∷ []))
      | false ↦ sample_until n target t.0 >>= λ u. ok (and_then taken u)
    ]
  ]

  -- session::sample_at_least
  unfoldable pub sample_at_least :
      ℕ → D → Session D T C → Result (Option (Session D T C × List Sample))
  unfolding sample_until
  sample_at_least rounds horizon s = sample_until rounds (d.add s.current_time horizon) s
