-- ===== src/Session/Coherence.antt =====
-- The invariant of a session: each trajectory that it holds is the one that its waypoints build.
use mathlib.Core.Option.{some-injective}
use trajex.Prelude.{
  ◌<◌, ◌≡◌, refl, sym, ap, ◌∙◌, subst, ◌≢◌, ◌⊎◌, inl, inr, Option, none, some, List, arith,
  Option-cases, last?, ok,
}
use trajex.Double.{Double}
use trajex.WaypointStore.{Store, rows}
use trajex.WaypointStore.Append.{empty_store-IsStored, IsStored}
use trajex.Session.{TrajectoryApi, Staging, Session, staged_of, no_staging}
use trajex.Session.Extend.{store_of, start_staging}
use trajex.Session.Stores.{SameStore, SameStore-refl}
use trajex.Session.Staged.{IsStaged}

module _ {D T C P Sample : Type 0} ⦃d : Double D⦄ (api : TrajectoryApi D T C P Sample) where
  open api use {create}

  pub record IsCoherent (s : Session D T C) : Type 0 where
    pub stored : IsStored s.waypoints
    -- Before the first trajectory there are no waypoints, and nothing is staged.
    pub idle : s.active ≡ none → (s.waypoints.size ≡ 0) × (s.staging ≡ none)
    pub built :
        (t : T) → s.active ≡ some t → (create (rows s.waypoints) ≡ ok t) × (0 < s.waypoints.size)
    -- The seam is the last waypoint of the active trajectory, until motion is staged behind it.
    pub seam :
        (t : T)
        → s.active ≡ some t
        → staged_of s.staging ≡ none
        → last? (rows s.waypoints) ≡ some s.last_waypoint
    pub staged :
        (st : Staging D T) → s.staging ≡ some st → IsStaged api s.waypoints s.last_waypoint st

  abbrev pub SameStaging : Option (Staging D T) → Option (Staging D T) → Type 0
  SameStaging none none = Unit
  SameStaging none (some _) = ⊥
  SameStaging (some _) none = ⊥
  SameStaging (some st) (some st') =
      (st'.next ≡ st.next)
      × (st.next ≢ none → st'.waypoints ≢ none)
      × SameStore (store_of api st) (store_of api st')

  -- The same session, but for chunks that hold no row.
  pub record SameSession (s s' : Session D T C) : Type 0 where
    pub same_store : SameStore s.waypoints s'.waypoints
    pub same_staging : SameStaging s.staging s'.staging
    pub same_rest : s' ≡ record s { waypoints = s'.waypoints; staging = s'.staging }

  SameStaging-refl :
      (o : Option (Staging D T))
      → ((st : Staging D T)
          → o ≡ some st
          → IsStored (store_of api st) × (st.next ≢ none → st.waypoints ≢ none))
      → SameStaging o o
  SameStaging-refl none h = tt
  SameStaging-refl (some st) h =
      (refl, (h st refl).1, SameStore-refl (store_of api st) (h st refl).0)

  pub owned :
      (w : Store D) (l : List D) (st : Staging D T)
      → IsStaged api w l st
      → st.next ≢ none
      → st.waypoints ≢ none
  owned w l st is n e = elim (Option-cases st.next) [
    | inl q ↦ n q
    | inr (t, q) ↦ let (store, o) = is.own t q in cc
  ]

  pub SameSession-refl : (s : Session D T C) → IsCoherent s → SameSession s s
  SameSession-refl s c = record {
    same_store = SameStore-refl s.waypoints c.stored;
    same_staging =
        SameStaging-refl s.staging
          (λ st e. ((c.staged st e).stored, owned s.waypoints s.last_waypoint st (c.staged st e)));
    same_rest = refl;
  }

  -- A session with the same rows is as coherent.
  pub IsCoherent-store :
      (s : Session D T C) (store : Store D)
      → IsCoherent s
      → SameStore s.waypoints store
      → IsCoherent (record s { waypoints = store })
  IsCoherent-store s store c same = record {
    stored = same.stored;
    idle = λ e. (same.size_eq ∙ (c.idle e).0, (c.idle e).1);
    built = λ t e.
        (ap create same.rows_eq ∙ (c.built t e).0, omega (arith, same.size_eq, (c.built t e).1));
    seam = λ t e n. ap last? same.rows_eq ∙ c.seam t e n;
    staged = λ st e. IsStaged-store st (c.staged st e);
  }
    where
      IsStaged-store :
          (st : Staging D T)
          → IsStaged api s.waypoints s.last_waypoint st
          → IsStaged api store s.last_waypoint st
      IsStaged-store st is = record {
        stored = is.stored;
        empty = is.empty;
        own = is.own;
        built = is.built;
        filled = is.filled;
        same_dof = λ t e. is.same_dof t e ∙ sym same.dof_eq;
        joined = λ t e. is.joined t e ∙ sym (ap last? same.rows_eq);
        ended = is.ended;
      }

  pub no_staging-IsStaged : (w : Store D) (l : List D) → IsStaged api w l no_staging
  no_staging-IsStaged w l = record {
    stored = empty_store-IsStored api.junk;
    empty = λ _. refl;
    own = λ t e. cc;
    built = λ t e. cc;
    filled = λ t e. cc;
    same_dof = λ t e. cc;
    joined = λ t e. cc;
    ended = λ t e. cc;
  }

  start_staging_cases :
      (s : Session D T C)
      → (start_staging api s ≡ s)
        ⊎ ((t : T) × (s.active ≡ some t)
            × (s.staging ≡ none)
            × (start_staging api s ≡ record s { staging = some no_staging }))
  unfolding start_staging
  start_staging_cases s = elim (Option-cases s.active) [
    | inl none_yet ↦ inl (ground arith)
    | inr (t, active) ↦ elim (Option-cases s.staging) [
      | inr (st, staging) ↦ inl (ground arith)
      | inl staging ↦ inr (t, active, staging, ground arith)
    ]
  ]

  start_staging_staged :
      (s : Session D T C)
      → start_staging api (record s { staging = some no_staging })
        ≡ record s { staging = some no_staging }
  unfolding start_staging
  start_staging_staged s = ground arith

  begun-IsCoherent :
      (s : Session D T C) (t : T)
      → s.active ≡ some t
      → s.staging ≡ none
      → IsCoherent s
      → IsCoherent (record s { staging = some no_staging })
  begun-IsCoherent s t active staging c = record {
    stored = c.stored;
    idle = λ e. cc;
    built = c.built;
    seam = λ u e n. c.seam u e (rw staging);
    staged = λ st e.
        subst (IsStaged api s.waypoints s.last_waypoint) (some-injective no_staging st e)
          (no_staging-IsStaged s.waypoints s.last_waypoint);
  }

  -- `start_staging` keeps a session coherent, and does nothing when it is called again.
  pub start_staging-IsCoherent :
      (s : Session D T C)
      → IsCoherent s
      → IsCoherent (start_staging api s)
        × (start_staging api (start_staging api s) ≡ start_staging api s)
  start_staging-IsCoherent s c = elim (start_staging_cases s) [
    | inl e ↦ (subst IsCoherent (sym e) c, ap (start_staging api) e)
    | inr (t, active, staging, e) ↦ (
      subst IsCoherent (sym e) (begun-IsCoherent s t active staging c),
      ap (start_staging api) e ∙ start_staging_staged s ∙ sym e,
    )
  ]
