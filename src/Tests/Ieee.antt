-- ===== src/Tests/Ieee.antt =====
-- The doubles of the tests are as IEEE 754 says.
use native.Mathlib.Nat.{mul-le-mul_left}
use trajex.Double.{lt, le, eq, IsNumber}
use trajex.Double.Ieee.{IsIeee, IsRounded}
use trajex.Double.Fixed.{clip, size, signed, Fixed, nan, num, fixed_double}
use trajex.Prelude.{ℕ, ◌*◌, ◌≤◌, ◌<◌, ◌≡◌, refl, inl, inr, true, false, arith, ltb, Bool-cases}

is_finite-IsNumber : (a : Fixed) → fixed_double.is_finite a ≡ true → IsNumber a
is_finite-IsNumber nan h = cc
is_finite-IsNumber (num k) h = refl

rank-low : (a : Fixed) → IsNumber a → fixed_double.rank a ≤ 2000
rank-low nan n = cc
rank-low (num k) n = ground arith

rank-high : (a : Fixed) → IsNumber a → 0 ≤ fixed_double.rank a
rank-high a n = omega arith

is_finite-eq : (a b : Fixed) → eq a b ≡ true → fixed_double.is_finite a ≡ fixed_double.is_finite b
is_finite-eq nan b h = cc
is_finite-eq (num k) nan h = cc
is_finite-eq (num k) (num m) h = ground arith

pub fixed-IsIeee : IsIeee Fixed
fixed-IsIeee = record {
  finite_number = is_finite-IsNumber;
  nought_number = refl;
  infinity_number = refl;
  neg_infinity_number = refl;
  infinity_end = refl;
  neg_infinity_end = refl;
  below_infinity = rank-low;
  above_neg_infinity = rank-high;
  finite_eq = is_finite-eq;
}

sub-equal :
    (a b : Fixed)
    → fixed_double.is_finite a ≡ true
    → eq a b ≡ true
    → eq (fixed_double.sub a b) fixed_double.nought ≡ true
sub-equal nan b f h = cc
sub-equal (num k) nan f h = cc
sub-equal (num k) (num m) f h = ground arith

sub-below :
    (a b e : Fixed)
    → fixed_double.is_finite b ≡ true
    → le fixed_double.nought e ≡ true
    → lt (fixed_double.sub a b) (fixed_double.neg e) ≡ true
    → lt a b ≡ true
sub-below nan b e f z h = cc
sub-below (num k) nan e f z h = cc
sub-below (num k) (num m) nan f z h = cc
sub-below (num k) (num m) (num n) f z h = ground arith

midpoint-above :
    (a b : Fixed)
    → le fixed_double.nought a ≡ true
    → le a b ≡ true
    → le a (fixed_double.midpoint a b) ≡ true
midpoint-above nan b z h = cc
midpoint-above (num k) nan z h = cc
midpoint-above (num k) (num m) z h = ground arith

midpoint-below :
    (a b : Fixed)
    → le fixed_double.nought a ≡ true
    → le a b ≡ true
    → le (fixed_double.midpoint a b) b ≡ true
midpoint-below nan b z h = cc
midpoint-below (num k) nan z h = cc
midpoint-below (num k) (num m) z h = ground arith

finite-below :
    (a b : Fixed)
    → fixed_double.is_finite b ≡ true
    → le fixed_double.nought a ≡ true
    → le a b ≡ true
    → fixed_double.is_finite a ≡ true
finite-below nan b f z h = cc
finite-below (num k) nan f z h = cc
finite-below (num k) (num m) f z h = ground arith

sub-IsNumber : (a b : Fixed) → IsNumber (fixed_double.sub a b) → IsNumber b
sub-IsNumber nan b h = cc h
sub-IsNumber (num k) nan h = cc h
sub-IsNumber (num k) (num m) h = refl

num-below : (x y : ℕ) → x ≤ y → lt (num y) (num x) ≡ false
num-below x y h = ground arith

signed-up : (k m n p q : ℕ) → 1000 ≤ k → 1000 ≤ m → m ≤ n → p ≤ q → signed k m p ≤ signed k n q
signed-up k m n p q a b c h = ground arith

signed-down : (k m n p q : ℕ) → 1000 ≤ k → n < 1000 → m ≤ n → q ≤ p → signed k m p ≤ signed k n q
signed-down k m n p q a b c h = ground arith

signed-across : (k m n p q : ℕ) → 1000 ≤ k → m < 1000 → 1000 ≤ n → signed k m p ≤ signed k n q
signed-across k m n p q a b c = ground arith

-- A factor that is not below zero keeps the order.
product-below :
    (k m n : ℕ) → 1000 ≤ k → m ≤ n → signed k m (size k * size m) ≤ signed k n (size k * size n)
product-below k m n a h = elim (Bool-cases (ltb m 1000)) [
  | inr up ↦
      signed-up k m n (size k * size m) (size k * size n) a (ground arith) h
        (mul-le-mul_left (size k) (ground arith))
  | inl low ↦ elim (Bool-cases (ltb n 1000)) [
    | inr above ↦
        signed-across k m n (size k * size m) (size k * size n) a (ground arith) (ground arith)
    | inl below ↦
        signed-down k m n (size k * size m) (size k * size n) a (ground arith) h
          (mul-le-mul_left (size k) (ground arith))
  ]
]

mul-below :
    (c a b : Fixed)
    → le fixed_double.nought c ≡ true
    → lt b a ≡ false
    → lt (fixed_double.mul c b) (fixed_double.mul c a) ≡ false
mul-below nan a b z h = refl
mul-below (num k) nan nan z h = refl
mul-below (num k) nan (num n) z h = refl
mul-below (num k) (num m) nan z h = refl
mul-below (num k) (num m) (num n) z h =
    num-below (signed (clip k) (clip m) (size (clip k) * size (clip m)))
      (signed (clip k) (clip n) (size (clip k) * size (clip n)))
      (product-below (clip k) (clip m) (clip n) (ground arith) (ground arith))

add-below :
    (c a b : Fixed) → lt b a ≡ false → lt (fixed_double.add c b) (fixed_double.add c a) ≡ false
add-below nan a b h = refl
add-below (num k) nan nan h = refl
add-below (num k) nan (num n) h = refl
add-below (num k) (num m) nan h = refl
add-below (num k) (num m) (num n) h = ground arith

pub fixed-IsRounded : IsRounded Fixed
fixed-IsRounded = record {
  sub_equal = sub-equal;
  sub_below = sub-below;
  sub_number = sub-IsNumber;
  add_below = add-below;
  mul_below = mul-below;
  midpoint_above = midpoint-above;
  midpoint_below = midpoint-below;
  finite_below = finite-below;
}
