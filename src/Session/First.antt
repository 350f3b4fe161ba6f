-- ===== src/Session/First.antt =====
-- The first batch of a session, and what may be left of a session by an `extend` that throws.
use mathlib.Core.Option.{some-injective}
use trajex.Double.{Double}
use trajex.Waypoints.{Accumulator}
use trajex.WaypointStore.{Store, rows}
use trajex.WaypointStore.Append.{IsStored, IsBatch, append-rows}
use trajex.WaypointStore.Shrink.{last_lem}
use trajex.UniformSampler.{UniformSampler, quantized_for_trajectory}
use trajex.Session.{
  TrajectoryApi, ExtendResult, Session, rolled_back, build, sampler_for, install, build_first,
  first_extend,
}
use trajex.Session.Stores.{SameStore, rolled_back-SameStore, build_lem}
use trajex.Session.Coherence.{IsCoherent, SameSession, SameSession-refl, IsCoherent-store}
use trajex.Prelude.{
  ℕ, ◌<◌, ◌≡◌, refl, sym, ap, ◌∙◌, subst, ◌⊎◌, inl, inr, none, some, List, arith, length, drop,
  last?, length-drop, Error, Result, ok, err, Result-cases, bad_duration_or_frequency,
  non_finite_samples, negative_start, start_past_end,
}

-- What `quantized_for_trajectory` throws.
abbrev pub IsSamplerError : Error → Type 0
IsSamplerError e =
    (e ≡ bad_duration_or_frequency)
    ⊎ ((e ≡ non_finite_samples) ⊎ ((e ≡ negative_start) ⊎ (e ≡ start_past_end)))

quantized-IsSamplerError :
    {D : Type 0} ⦃d : Double D⦄ (duration rate start : D) (e : Error)
    → quantized_for_trajectory duration rate start ≡ err e
    → IsSamplerError e
unfolding quantized_for_trajectory
quantized-IsSamplerError duration rate start e h = ground arith

module _ {D T C P Sample : Type 0} ⦃d : Double D⦄ (api : TrajectoryApi D T C P Sample) where
  open api use {create, duration}

  abbrev pub OutcomeOf : Session D T C → Session D T C → Result (ExtendResult D) → Type 0
  OutcomeOf s s' (ok _) = IsCoherent api s'
  OutcomeOf s s' (err e) = (IsCoherent api s' × SameSession api s s') ⊎ IsSamplerError e

  abbrev pub Outcome : Session D T C → Session D T C × Result (ExtendResult D) → Type 0
  Outcome s r = OutcomeOf s r.0 r.1

  pub refused : (s : Session D T C) (e : Error) → IsCoherent api s → Outcome s (s, err e)
  refused s e c = inl (c, SameSession-refl api s c)

  -- A failed build: the waypoints are wound back.
  pub wound_back :
      (s : Session D T C) (store : Store D) (e : Error)
      → IsCoherent api s
      → SameStore s.waypoints store
      → Outcome s (record s { waypoints = store }, err e)
  wound_back s store e c same = inl (
    IsCoherent-store api s store c same,
    record {
      same_store = same;
      same_staging = (SameSession-refl api s c).same_staging;
      same_rest = refl;
    },
  )

  -- A trajectory that the waypoints build becomes active.
  pub installed :
      (s : Session D T C) (t : T) (sampler : UniformSampler D) (row : List D) (n : ℕ)
      → IsStored s.waypoints
      → 0 < s.waypoints.size
      → create (rows s.waypoints) ≡ ok t
      → last? (rows s.waypoints) ≡ some row
      → s.staging ≡ none
      → IsCoherent api
          (record (install api s t sampler) { last_waypoint = row; generation_count = n })
  unfolding install
  installed s t sampler row n v pos e l none_staged = record {
    stored = v;
    idle = λ q. cc;
    built = λ u q. (e ∙ ap ok (some-injective t u q), pos);
    seam = λ u q m. l;
    staged = λ st q. cc;
  }

  pub sampler_error :
      (s : Session D T C) (t : T) (start : D) (e : Error)
      → sampler_for api s t start ≡ err e
      → IsSamplerError e
  unfolding sampler_for
  sampler_error s t start e h = quantized-IsSamplerError (duration t) s.sample_rate start e h

  build_first_failed :
      (s : Session D T C) (e : Error)
      → build api s.waypoints ≡ err e
      → build_first api s ≡ (record s { waypoints = rolled_back s.waypoints 0 }, err e)
  unfolding build_first
  build_first_failed s e h = rw (h, build_first)

  build_first_lem :
      (s : Session D T C)
      → IsStored s.waypoints
      → 0 < s.waypoints.size
      → s.staging ≡ none
      → (t : T) → create (rows s.waypoints) ≡ ok t
      → (old : Session D T C) → Outcome old (build_first api s)
  unfolding build_first
  build_first_lem s v pos none_staged t e old =
      let (row, le, lq, _) = last_lem s.waypoints v pos in
      let built : build api s.waypoints ≡ ok t = build_lem api s.waypoints v pos ∙ e in
      elim (Result-cases (sampler_for api s t d.nought)) [
        | inr (x, h) ↦ rw (built, build_first) (rw h (inr (sampler_error s t d.nought x h)))
        | inl (sampler, h) ↦
            rw (built, build_first)
              (rw (h, le) (installed s t sampler row 1 v pos e lq none_staged))
      ]

  pub first_extend_lem :
      (s : Session D T C) (batch : Accumulator (List D))
      → IsCoherent api s
      → s.active ≡ none
      → IsBatch batch
      → 0 < length batch.waypoints
      → Outcome s (first_extend api s batch)
  unfolding first_extend
  first_extend_lem s batch c idle b h =
      let (z, none_staged) = c.idle idle in
      let (store, e, x) = append-rows s.waypoints batch 0 c.stored b (inl z) h in
      let pos : 0 < store.size = omega (arith, x.size_eq, length-drop 0 batch.waypoints) in
      let s1 : Session D T C = record s { waypoints = store } in
      let back : SameStore s.waypoints (rolled_back store 0) =
        subst (λ n. SameStore s.waypoints (rolled_back store n)) z
          (rolled_back-SameStore s.waypoints store (drop 0 batch.waypoints) batch.dof c.stored
            (inl z) x) in
      elim (Result-cases (create (rows store))) [
        | inl (t, q) ↦ rw (e, first_extend) (build_first_lem s1 x.stored pos none_staged t q s)
        | inr (err', q) ↦
            rw (e, first_extend)
              (subst (Outcome s)
                (sym (build_first_failed s1 err' (build_lem api store x.stored pos ∙ q)))
                (wound_back s (rolled_back store 0) err' c back))
      ]
