-- ===== src/Trajectory/Search.antt =====
-- trajectory::cursor::seek (trajectory.cpp) and the binary search that its shortcuts stand for.
use trajex.Double.{Double, IsNumber}
use trajex.Double.Sorted.{upper_bound, IsIncreasing, upper_bound_at}
use trajex.Trajectory.{
  IntegrationPoint, time_of_point, begun, holds_time, holds_before, locate_time, seek_hint,
}
use trajex.Prelude.{
  ℕ, suc, ◌-◌, ◌≤◌, ◌<◌, ◌≡◌, sym, inl, inr, true, not, ◌&&◌, some, List, arith, ◌==◌, Bool-cases,
  Option-cases, get_elem?,
}

module _ {D : Type 0} ⦃d : Double D⦄ (l : List (IntegrationPoint D))
    (w : IsIncreasing time_of_point l) (t : D) (n : IsNumber t) where
  at-locate_time :
      (i : ℕ) (p : IntegrationPoint D)
      → get_elem? l i ≡ some p
      → d.rank p.time ≤ d.rank t
      → ((b : IntegrationPoint D) → get_elem? l (suc i) ≡ some b → d.rank t < d.rank b.time)
      → locate_time l t ≡ i
  unfolding locate_time
  at-locate_time i p g below above =
      let found : upper_bound time_of_point t l ≡ suc i =
        upper_bound_at time_of_point t l i w n g below above in
      rw found (ground arith)

  begun_inv :
      (i : ℕ)
      → begun l t i ≡ true
      → (p : IntegrationPoint D) × (get_elem? l i ≡ some p) × (d.rank p.time ≤ d.rank t)
  begun_inv i h = elim (Option-cases (get_elem? l i)) [
    | inl e ↦ ground arith
    | inr (p, e) ↦ (p, e, ground arith)
  ]

  holds_time-locate_time : (i : ℕ) → holds_time l t i ≡ true → locate_time l t ≡ i
  holds_time-locate_time i h =
      let (p, g, below) = begun_inv i (ground arith) in
      at-locate_time i p g below (λ b f. ground arith)

  holds_before-locate_time : (i : ℕ) → holds_before l t i ≡ true → locate_time l t ≡ i
  holds_before-locate_time i h =
      let (p, g, below) = begun_inv i (ground arith) in
      at-locate_time i p g below (λ b f. ground arith)

  -- On integration points at strictly increasing times, the hint that `seek` sets for a time is the
  -- point that the binary search finds, whatever the hint was before and whichever shortcut answers.
  pub seek_hint-eq-locate_time : (hint : ℕ) → seek_hint l t hint ≡ locate_time l t
  unfolding seek_hint
  seek_hint-eq-locate_time hint = elim (Bool-cases (holds_time l t hint)) [
    | inl here ↦ rw (here, seek_hint) (sym (holds_time-locate_time hint here))
    | inr moved ↦ elim (Bool-cases (holds_time l t (suc hint))) [
      | inl after ↦ rw (moved, seek_hint, after) (sym (holds_time-locate_time (suc hint) after))
      | inr far ↦ elim (Bool-cases (not (hint == 0) && holds_before l t (hint - 1))) [
        | inl before ↦
            rw (moved, seek_hint, far, before)
              (sym (holds_before-locate_time (hint - 1) (ground arith)))
        | inr away ↦ rw (moved, seek_hint, far, away)
      ]
    ]
  ]
