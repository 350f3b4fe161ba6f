-- ===== src/Session/Sampled.antt =====
-- Coherence of a session across its rebases and samples (session.cpp).
use trajex.Session.Kept.{IsKept, sample_next-kept}
use mathlib.Core.Option.{some-injective}
use trajex.Double.{Double}
use trajex.WaypointStore.{Store, rows}
use trajex.Session.{install, TrajectoryApi, Staging, Session}
use trajex.Session.Sampling.{staged_sampler, rebase, sample_next, install_staged}
use trajex.Session.Staged.{IsStaged}
use trajex.Session.Coherence.{IsCoherent}
use trajex.Prelude.{
  ℕ, ◌<◌, ◌≡◌, refl, subst, Option, none, some, List, Result, ok, ◌>>=◌, Holds, Holds-bind,
  Holds-all, Holds-at, OrNone,
}

module _ {D T C P Sample : Type 0} ⦃d : Double D⦄ (api : TrajectoryApi D T C P Sample) where
  -- The staged motion becomes the active one.
  installed :
      (s : Session D T C) (w : Option (Store D)) (t : T) (start : D)
      → IsCoherent api s
      → IsStaged api s.waypoints s.last_waypoint (record { waypoints = w; next = some t })
      → Holds
          (IsCoherent api)
          (install_staged api s (record { waypoints = w; next = some t }) t start)
  unfolding install_staged install
  installed s none t start c is = let (store, e) = is.own t refl in absurd (cc e)
  installed s (some store) t start c is =
      Holds-bind (λ _. Unit {0}) (IsCoherent api) (staged_sampler api s t start) _
        (Holds-all (λ _. Unit {0}) (staged_sampler api s t start) (λ _. tt))
        (λ sampler _. record {
          stored = is.stored;
          idle = λ e. cc;
          built = λ u e.
              subst (λ v. (api.create (rows store) ≡ ok v) × (0 < store.size))
                (some-injective t u e) (is.built t refl, is.filled t refl);
          seam = λ u e n. is.ended t refl;
          staged = λ st e. cc;
        })

  rebased_staging :
      (s : Session D T C) (w : Option (Store D)) (next_one : Option T) (start : D)
      → IsCoherent api s
      → IsStaged api s.waypoints s.last_waypoint (record { waypoints = w; next = next_one })
      → Holds (OrNone (IsCoherent api)) (elim next_one as (λ _. Result (Option (Session D T C))) [
        | none ↦ ok none
        | some staged ↦
            install_staged api s (record { waypoints = w; next = next_one }) staged start >>= λ s'.
            ok (some s')
      ])
  rebased_staging s w none start c is = tt
  rebased_staging s w (some t) start c is =
      Holds-bind (IsCoherent api) (OrNone (IsCoherent api)) (install_staged api s _ t start) _
        (installed s w t start c is) (λ s' k. k)

  rebase-IsCoherent :
      (s : Session D T C) (start : D)
      → IsCoherent api s
      → Holds (OrNone (IsCoherent api)) (rebase api s start)
  unfolding rebase
  rebase-IsCoherent s start c =
      (let go : (o : Option (Staging D T))
            → s.staging ≡ o
            → Holds (OrNone (IsCoherent api)) (elim o as (λ _. Result (Option (Session D T C))) [
              | none ↦ ok none
              | some st ↦ elim st.next as (λ _. Result (Option (Session D T C))) [
                | none ↦ ok none
                | some staged ↦ install_staged api s st staged start >>= λ s'. ok (some s')
              ]
            ]) =
          elim [
            | none ↦ λ e. tt
            | some st ↦ λ e. rebased_staging s st.waypoints st.next start c (c.staged st e)
          ] in
        go s.staging refl)

  IsCoherent-IsKept : IsKept api (IsCoherent api)
  IsCoherent-IsKept = record {
    moved = λ s sampler cursor c. record {
      stored = c.stored;
      idle = c.idle;
      built = c.built;
      seam = c.seam;
      staged = c.staged;
    };
    counted = λ s n t c. record {
      stored = c.stored;
      idle = c.idle;
      built = c.built;
      seam = c.seam;
      staged = c.staged;
    };
    rebased = rebase-IsCoherent;
  }

  -- If `sample_next` returns, it leaves a coherent session of a coherent one, also where it rebased to
  -- the staged motion.
  pub sample_next-IsCoherent :
      (n : ℕ) (s : Session D T C) (r : Session D T C × List Sample)
      → IsCoherent api s
      → sample_next api n s ≡ ok r
      → IsCoherent api r.0
  sample_next-IsCoherent n s r c e =
      Holds-at (λ q. IsCoherent api q.0) (sample_next api n s)
        (sample_next-kept api (IsCoherent api) IsCoherent-IsKept n s c) e
