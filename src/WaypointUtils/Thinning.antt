-- ===== src/WaypointUtils/Thinning.antt =====
-- The thinning of a sequence by a test on neighbours, on plain lists (waypoint_utils.cpp).
use mathlib.Core.Option.{some-injective}
use trajex.Prelude.{
  ◌≡◌, refl, subst, ◌≢◌, inl, inr, Bool, true, false, some, List, [], ◌∷◌, ◌++◌, arith,
  if◌then◌else◌, Bool-cases, drop_last, last?, All,
}

module _ {ℓ} {R : Type ℓ} where
  -- `Keeps a b`: a has some of the elements of b, in their order.
  pub data Keeps : List R → List R → Type ℓ where
    none_left : Keeps [] []
    skip : {r : R} {a b : List R} → Keeps a b → Keeps a (r ∷ b)
    take_one : {r : R} {a b : List R} → Keeps a b → Keeps (r ∷ a) (r ∷ b)

  Keeps-nil : (a : List R) → Keeps [] a
  Keeps-nil [] = none_left
  Keeps-nil (r ∷ a) = skip (Keeps-nil a)

  Keeps-last : (a : List R) {z : R} → last? a ≡ some z → Keeps (z ∷ []) a
  Keeps-last [] e = cc
  Keeps-last (r ∷ []) {z} e =
      subst (λ q. Keeps (q ∷ []) (r ∷ [])) (some-injective r z e) (take_one none_left)
  Keeps-last (r ∷ s ∷ a) e = skip (Keeps-last (s ∷ a) e)

  -- The last element that is kept may be exchanged for the last of all.
  pub Keeps-restore :
      {l a : List R} (z : R)
      → Keeps l a
      → l ≢ []
      → last? a ≡ some z
      → Keeps (drop_last l ++ z ∷ []) a
  Keeps-restore z none_left n e = absurd (n refl)
  Keeps-restore z (skip {b = []} none_left) n e = absurd (n refl)
  Keeps-restore z (skip {b = s ∷ b} k) n e = skip (Keeps-restore z k n e)
  Keeps-restore z (take_one {r} {a = []} {b = b} k) n e = Keeps-last (r ∷ b) e
  Keeps-restore z (take_one {r} {a = x ∷ a} {b = []} k) n e = elim k [ ]
  Keeps-restore z (take_one {r} {a = x ∷ a} {b = s ∷ b} k) n e =
      take_one (Keeps-restore z k (λ q. cc) e)

module _ {ℓ} {R : Type ℓ} (far : R → R → Bool) where
  -- The rows behind `kept` that the loop keeps.
  unfoldable pub thinned : R → List R → List R
  thinned kept [] = []
  thinned kept (w ∷ ws) = if far kept w then w ∷ thinned w ws else thinned kept ws

  -- Each row is far from the one before.
  abbrev pub IsSpaced : List R → Type 0
  IsSpaced [] = Unit
  IsSpaced (a ∷ []) = Unit
  IsSpaced (a ∷ b ∷ rest) = (far a b ≡ true) × IsSpaced (b ∷ rest)

  pub thinned-IsSpaced : (kept : R) (ws : List R) → IsSpaced (kept ∷ thinned kept ws)
  unfolding thinned
  thinned-IsSpaced kept [] = tt
  thinned-IsSpaced kept (w ∷ ws) = elim (Bool-cases (far kept w)) [
    | inl e ↦ rw e (e, thinned-IsSpaced w ws)
    | inr e ↦ rw e (thinned-IsSpaced kept ws)
  ]

  pub drop_last-IsSpaced : (l : List R) → IsSpaced l → IsSpaced (drop_last l)
  drop_last-IsSpaced [] h = tt
  drop_last-IsSpaced (a ∷ []) h = tt
  drop_last-IsSpaced (a ∷ b ∷ []) h = tt
  drop_last-IsSpaced (a ∷ b ∷ c ∷ l) h = (h.0, drop_last-IsSpaced (b ∷ c ∷ l) h.1)

  pub thinned-Keeps : (kept : R) (ws : List R) → Keeps (thinned kept ws) ws
  unfolding thinned
  thinned-Keeps kept [] = none_left
  thinned-Keeps kept (w ∷ ws) = elim (Bool-cases (far kept w)) [
    | inl e ↦ rw e (take_one (thinned-Keeps w ws))
    | inr e ↦ rw e (skip (thinned-Keeps kept ws))
  ]

  pub thinned-nil :
      (kept : R) (ws : List R) → thinned kept ws ≡ [] → All (λ w. far kept w ≡ false) ws
  unfolding thinned
  thinned-nil kept [] e = tt
  thinned-nil kept (w ∷ ws) e = elim (Bool-cases (far kept w)) [
    | inl t ↦ ground arith
    | inr f ↦ (f, thinned-nil kept ws (rw f at e))
  ]
