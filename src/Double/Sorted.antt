-- ===== src/Double/Sorted.antt =====
-- std::upper_bound over entries that are sorted by a key of type `double`, as the path and the
-- trajectory use it.
use mathlib.Core.Option.{some-injective}
use trajex.Prelude.{
  ℕ, zero, suc, ◌≤◌, ◌<◌, ◌≡◌, refl, subst, inl, inr, some, List, [], ◌∷◌, arith, ltb,
  if◌then◌else◌, Bool-cases, get_elem?,
}
use trajex.Double.{Double, lt, IsNumber}

module _ {ℓ} {A : Type ℓ} {D : Type 0} ⦃d : Double D⦄ (key : A → D) where
  -- The place of the first entry whose key is above `value`, or the length.
  unfoldable pub upper_bound : D → List A → ℕ
  upper_bound value [] = 0
  upper_bound value (a ∷ l) = if lt value (key a) then 0 else suc (upper_bound value l)

  -- The keys are numbers, and strictly increase.
  abbrev pub IsIncreasing : List A → Type 0
  IsIncreasing [] = Unit
  IsIncreasing (a ∷ []) = IsNumber (key a)
  IsIncreasing (a ∷ b ∷ l) =
      IsNumber (key a) × (d.rank (key a) < d.rank (key b)) × IsIncreasing (b ∷ l)

  pub IsIncreasing-IsNumber :
      (l : List A) (i : ℕ) {a : A} → IsIncreasing l → get_elem? l i ≡ some a → IsNumber (key a)
  IsIncreasing-IsNumber [] i h e = cc
  IsIncreasing-IsNumber (x ∷ []) zero {a} h e =
      subst (λ q. IsNumber (key q)) (some-injective x a e) h
  IsIncreasing-IsNumber (x ∷ []) (suc i) h e = cc
  IsIncreasing-IsNumber (x ∷ y ∷ l) zero {a} h e =
      subst (λ q. IsNumber (key q)) (some-injective x a e) h.0
  IsIncreasing-IsNumber (x ∷ y ∷ l) (suc i) h e = IsIncreasing-IsNumber (y ∷ l) i h.2 e

  -- The head is below every later entry.
  rank-head :
      (x : A) (l : List A) (i : ℕ) {a : A}
      → IsIncreasing (x ∷ l)
      → get_elem? l i ≡ some a
      → d.rank (key x) < d.rank (key a)
  rank-head x [] i h e = cc
  rank-head x (y ∷ l) zero {a} h e =
      subst (λ q. d.rank (key x) < d.rank (key q)) (some-injective y a e) h.1
  rank-head x (y ∷ l) (suc i) {a} h e = omega (arith, h.1, rank-head y l i h.2 e)

  -- Of two entries the later has the greater key.
  pub rank_mono :
      (l : List A) (i j : ℕ) {a b : A}
      → IsIncreasing l
      → i < j
      → get_elem? l i ≡ some a
      → get_elem? l j ≡ some b
      → d.rank (key a) < d.rank (key b)
  rank_mono [] i j h lt' e f = cc
  rank_mono (x ∷ l) i zero h lt' e f = elim lt' [ ]
  rank_mono (x ∷ l) zero (suc j) {a} {b} h lt' e f =
      subst (λ q. d.rank (key q) < d.rank (key b)) (some-injective x a e) (rank-head x l j h f)
  rank_mono (x ∷ []) (suc i) (suc j) h lt' e f = cc
  rank_mono (x ∷ y ∷ l) (suc i) (suc j) h lt' e f = rank_mono (y ∷ l) i j h.2 (omega arith) e f

  -- An entry at or below the value, with none or one above it next, is the last at or below it.
  pub upper_bound_at :
      (value : D) (l : List A) (i : ℕ) {a : A}
      → IsIncreasing l
      → IsNumber value
      → get_elem? l i ≡ some a
      → d.rank (key a) ≤ d.rank value
      → ((b : A) → get_elem? l (suc i) ≡ some b → d.rank value < d.rank (key b))
      → upper_bound value l ≡ suc i
  unfolding upper_bound
  upper_bound_at value [] i h n e below above = cc
  upper_bound_at value (x ∷ []) zero {a} h n e below above =
      let same : x ≡ a = some-injective x a e in ground arith
  upper_bound_at value (x ∷ y ∷ l) zero {a} h n e below above =
      let same : x ≡ a = some-injective x a e in
      ground (arith, above y refl, IsIncreasing-IsNumber (y ∷ l) 0 h.2 refl)
  upper_bound_at value (x ∷ []) (suc i) h n e below above = cc
  upper_bound_at value (x ∷ y ∷ l) (suc i) {a} h n e below above =
      ground (arith, upper_bound_at value (y ∷ l) i h.2 n e below above, rank-head x (y ∷ l) i h e)

  -- Where the first key is at or below the value, so is the entry before the upper bound, and the
  -- entry at it is above.
  pub upper_bound_found :
      (value : D) (l : List A)
      → IsIncreasing l
      → IsNumber value
      → (x : A) → get_elem? l 0 ≡ some x
      → d.rank (key x) ≤ d.rank value
      → (i : ℕ) × (a : A) × (upper_bound value l ≡ suc i)
        × (get_elem? l i ≡ some a)
        × (d.rank (key a) ≤ d.rank value)
        × ((b : A) → get_elem? l (suc i) ≡ some b → d.rank value < d.rank (key b))
  unfolding upper_bound
  upper_bound_found value [] h n x e below = cc
  upper_bound_found value (z ∷ []) h n x e below =
      (0, x, (let same : z ≡ x = some-injective z x e in ground arith), e, below, λ b f. cc)
  upper_bound_found value (z ∷ y ∷ l) h n x e below =
      elim (Bool-cases (ltb (d.rank value) (d.rank (key y)))) [
        | inl above ↦
            let next : (b : A) → some y ≡ some b → d.rank value < d.rank (key b) = λ b f.
              subst (λ q. d.rank value < d.rank (key q)) (some-injective y b f) (ground arith) in
            (0, x, upper_bound_at value (z ∷ y ∷ l) 0 h n e below next, e, below, next)
        | inr notyet ↦
            let (i, a, u, g, le_a, next) =
              upper_bound_found value (y ∷ l) h.2 n y refl (ground arith) in
            (suc i, a, (let same : z ≡ x = some-injective z x e in ground arith), g, le_a, next)
      ]
