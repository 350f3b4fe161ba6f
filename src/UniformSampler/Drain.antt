-- ===== src/UniformSampler/Drain.antt =====
-- A caller that calls `advance` until it returns false.
use trajex.Double.{Double}
use trajex.UniformSampler.{CursorApi, UniformSampler, remaining, target, advance}
use trajex.Prelude.{
  ℕ, zero, suc, ◌+◌, ◌-◌, ◌≤◌, ◌<◌, ◌≡◌, refl, ap, ◌∙◌, inl, inr, true, false, none, some, List, [],
  ◌∷◌, arith, ◌==◌, length, last?, zero_cases,
}

module _ {ℓ} {A : Type ℓ} where
  last?-cons_nil : (x : A) (l : List A) → length l ≡ 0 → last? (x ∷ l) ≡ some x
  last?-cons_nil x [] h = refl
  last?-cons_nil x (y ∷ l) h = absurd (omega arith)

  last?-cons_pos : (x : A) (l : List A) → 0 < length l → last? (x ∷ l) ≡ last? l
  last?-cons_pos x [] h = elim h [ ]
  last?-cons_pos x (y ∷ l) h = refl

module _ {D T C Sample : Type 0} ⦃d : Double D⦄ (api : CursorApi D T C Sample) where
  open api use {duration, trajectory_of, seek}

  -- No more samples were taken than there are.
  abbrev pub IsWithin : UniformSampler D → Type 0
  IsWithin s = s.next_sample ≤ s.num_samples

  -- The cursors that at most so many calls of `advance` leave.
  unfoldable pub visited : ℕ → UniformSampler D → C → List C
  visited zero s c = []
  visited (suc n) s c = elim (advance api s c) [ none ↦ [] | some (s', c') ↦ c' ∷ visited n s' c' ]

  stops : (s : UniformSampler D) (c : C) → s.next_sample ≡ s.num_samples → advance api s c ≡ none
  unfolding advance
  stops s c e = ground arith

  advances :
      (s : UniformSampler D) (c : C)
      → s.next_sample < s.num_samples
      → advance api s c
        ≡ some (
          record s { next_sample = s.next_sample + 1 },
          seek c (target s (duration (trajectory_of c))),
        )
  unfolding advance
  advances s c h =
      let more : (s.next_sample == s.num_samples) ≡ false = ground arith in rw (more, advance)

  at_stop :
      (s : UniformSampler D) (whole : D)
      → s.next_sample + 1 ≡ s.num_samples
      → target s whole ≡ d.lerp s.start whole d.one
  unfolding target
  at_stop s whole e =
      let final : (s.next_sample == s.num_samples - 1) ≡ true = ground arith in rw (final, target)

  abbrev stepped : UniformSampler D → UniformSampler D
  stepped s = record s { next_sample = s.next_sample + 1 }

  abbrev moved : UniformSampler D → C → C
  moved s c = seek c (target s (duration (trajectory_of c)))

  -- `Drained s c l`: what the cursors `l` are that a caller sees until `advance` returns false.
  pub record Drained (s : UniformSampler D) (c : C) (l : List C) : Type 0 where
    pub count : length l ≡ remaining s
    pub ends :
        0 < remaining s
        → (before : C) × (trajectory_of before ≡ trajectory_of c)
          × (last? l ≡ some (seek before (d.lerp s.start (duration (trajectory_of c)) d.one)))

  module _ (keeps : (c : C) (t : D) → trajectory_of (seek c t) ≡ trajectory_of c) where
    Drained-cons :
        (s : UniformSampler D) (c : C) (l : List C)
        → s.next_sample < s.num_samples
        → Drained (stepped s) (moved s c) l
        → Drained s c (moved s c ∷ l)
    unfolding remaining
    Drained-cons s c l h rest = elim (zero_cases (length l)) [
      | inl z ↦
          let final = at_stop s (duration (trajectory_of c)) (omega (arith, rest.count)) in
          record {
            count = omega (arith, rest.count);
            ends = λ p. (c, refl, last?-cons_nil (moved s c) l z ∙ ap (λ t. some (seek c t)) final);
          }
      | inr (m, z) ↦ record {
        count = omega (arith, rest.count);
        ends = λ p.
            let (before, on, e) = rest.ends (omega (arith, rest.count)) in
            (
              before,
              on ∙ keeps c (target s (duration (trajectory_of c))),
              last?-cons_pos (moved s c) l (omega arith)
                  ∙ e
                  ∙ ap (λ t. some (seek before (d.lerp s.start (duration t) d.one)))
                      (keeps c (target s (duration (trajectory_of c)))),
            );
      }
    ]

    -- As many calls of `advance` succeed as samples remain, however many more a caller tries; and the
    -- last of them, if there is one, seeks to where std::lerp at one from the start to the duration is.
    -- A cursor that seeks stays on its trajectory, and no more samples were taken than there are.
    pub visited-Drained :
        (n : ℕ) (s : UniformSampler D) (c : C)
        → IsWithin s
        → remaining s ≤ n
        → Drained s c (visited n s c)
    unfolding visited remaining
    visited-Drained zero s c w h = record { count = omega arith; ends = λ p. absurd (omega arith) }
    visited-Drained (suc n) s c w h = elim (zero_cases (remaining s)) [
      | inl z ↦
          let e = stops s c (omega arith) in
          rw (e, visited) (record { count = omega arith; ends = λ p. absurd (omega arith) })
      | inr (m, z) ↦
          rw (advances s c (omega arith), visited)
            (Drained-cons s c (visited n (stepped s) (moved s c)) (omega arith)
              (visited-Drained n (stepped s) (moved s c) (omega arith) (omega arith)))
    ]
