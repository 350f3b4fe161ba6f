-- ===== src/Double/Order.antt =====
-- std::min and std::max of doubles that are numbers.
use trajex.Double.{Double, le, min_of, max_of, IsNumber}
use trajex.Prelude.{◌≡◌, true, arith}

module _ {D : Type 0} ⦃d : Double D⦄ where
  pub max_of-IsNumber : (x y : D) → IsNumber x → IsNumber y → IsNumber (max_of x y)
  max_of-IsNumber x y n m = ground arith

  pub min_of-IsNumber : (x y : D) → IsNumber x → IsNumber y → IsNumber (min_of x y)
  min_of-IsNumber x y n m = ground arith

  pub le-max_of :
      (x y a : D)
      → IsNumber x
      → IsNumber y
      → le (max_of x y) a ≡ true
      → (le x a ≡ true) × (le y a ≡ true)
  le-max_of x y a n m h = ground arith

  pub max_of-le : (x y a : D) → le x a ≡ true → le y a ≡ true → le (max_of x y) a ≡ true
  max_of-le x y a h k = ground arith

  pub le-min_of :
      (x y a : D)
      → IsNumber x
      → IsNumber y
      → le a (min_of x y) ≡ true
      → (le a x ≡ true) × (le a y ≡ true)
  le-min_of x y a n m h = ground arith

  pub min_of-le : (x y a : D) → le a x ≡ true → le a y ≡ true → le a (min_of x y) ≡ true
  min_of-le x y a h k = ground arith
