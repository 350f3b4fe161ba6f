-- ===== src/Double/Ieee.antt =====
-- What IEEE 754 says of doubles beyond the comparisons, for the theorems that need it.
use trajex.Double.{Double, lt, le, eq, IsNumber}
use trajex.Prelude.{◌≤◌, ◌≡◌, true, false}

module _ (D : Type 0) ⦃d : Double D⦄ where
  -- Of the infinities, of zero, and of values that compare equal.
  pub record IsIeee : Type 0 where
    pub finite_number : (a : D) → d.is_finite a ≡ true → IsNumber a
    pub nought_number : IsNumber d.nought
    pub infinity_number : IsNumber d.infinity
    pub neg_infinity_number : IsNumber (d.neg d.infinity)
    pub infinity_end : d.is_finite d.infinity ≡ false
    pub neg_infinity_end : d.is_finite (d.neg d.infinity) ≡ false
    pub below_infinity : (a : D) → IsNumber a → d.rank a ≤ d.rank d.infinity
    pub above_neg_infinity : (a : D) → IsNumber a → d.rank (d.neg d.infinity) ≤ d.rank a
    pub finite_eq : (a b : D) → eq a b ≡ true → d.is_finite a ≡ d.is_finite b

  -- Of subtraction and NaN, of sums and products, of std::midpoint of values that are not negative, and of values below a finite one.
  pub record IsRounded : Type 0 where
    pub sub_equal :
        (a b : D) → d.is_finite a ≡ true → eq a b ≡ true → eq (d.sub a b) d.nought ≡ true
    pub sub_below :
        (a b e : D)
        → d.is_finite b ≡ true
        → le d.nought e ≡ true
        → lt (d.sub a b) (d.neg e) ≡ true
        → lt a b ≡ true
    pub sub_number : (a b : D) → IsNumber (d.sub a b) → IsNumber b
    pub add_below : (c a b : D) → lt b a ≡ false → lt (d.add c b) (d.add c a) ≡ false
    pub mul_below :
        (c a b : D) → le d.nought c ≡ true → lt b a ≡ false → lt (d.mul c b) (d.mul c a) ≡ false
    pub midpoint_above :
        (a b : D) → le d.nought a ≡ true → le a b ≡ true → le a (d.midpoint a b) ≡ true
    pub midpoint_below :
        (a b : D) → le d.nought a ≡ true → le a b ≡ true → le (d.midpoint a b) b ≡ true
    pub finite_below :
        (a b : D)
        → d.is_finite b ≡ true
        → le d.nought a ≡ true
        → le a b ≡ true
        → d.is_finite a ≡ true
