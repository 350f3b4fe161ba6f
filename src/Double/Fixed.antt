-- ===== src/Double/Fixed.antt =====
-- A small instance of `Double`, for the tests: `num k` stands for k - 1000, clipped to the range
-- from -1000, which plays -infinity, to 1000, which plays +infinity.
use Prim.Native.Nat.{min}
use trajex.Prelude.{
  ℕ, ◌+◌, ◌-◌, ◌*◌, ◌/◌, Bool, true, false, not, ◌&&◌, ◌||◌, ltb, ◌==◌, if◌then◌else◌,
}
use trajex.Double.{Double}

pub data Fixed : Type 0 where
  nan : Fixed
  num : ℕ → Fixed

-- The number n, for n up to 1000.
abbrev pub fixed : ℕ → Fixed
fixed n = num (1000 + n)

abbrev pub clip : ℕ → ℕ
clip n = min 2000 n

abbrev on_numbers : (ℕ → ℕ → ℕ) → Fixed → Fixed → Fixed
on_numbers f (num a) (num b) = num (f (clip a) (clip b))
on_numbers f _ _ = nan

abbrev fixed_is_nan : Fixed → Bool
fixed_is_nan nan = true
fixed_is_nan (num k) = false

abbrev fixed_rank : Fixed → ℕ
fixed_rank nan = 0
fixed_rank (num k) = if ltb k 2000 then k else 2000

abbrev fixed_is_finite : Fixed → Bool
fixed_is_finite nan = false
fixed_is_finite (num k) = ltb 0 k && ltb k 2000

abbrev fixed_add : Fixed → Fixed → Fixed
fixed_add = on_numbers λ a b. clip (a + b - 1000)

abbrev fixed_sub : Fixed → Fixed → Fixed
fixed_sub = on_numbers λ a b. clip (a + 1000 - b)

abbrev pub size : ℕ → ℕ
size a = (a - 1000) + (1000 - a)

-- The number of that size, below zero unless the signs are the same.
abbrev pub signed : ℕ → ℕ → ℕ → ℕ
signed a b n =
    if (ltb a 1000 && ltb b 1000) || (not (ltb a 1000) && not (ltb b 1000))
    then clip (1000 + n)
    else 1000 - n

abbrev fixed_mul : Fixed → Fixed → Fixed
fixed_mul = on_numbers λ a b. signed a b (size a * size b)

-- Rounded to the nearest, halves away from zero.
abbrev fixed_div : Fixed → Fixed → Fixed
fixed_div =
    on_numbers λ a b. if b == 1000 then 2000 else signed a b ((size a + size b / 2) / size b)

abbrev fixed_neg : Fixed → Fixed
fixed_neg nan = nan
fixed_neg (num k) = num (2000 - k)

abbrev fixed_magnitude : Fixed → Fixed
fixed_magnitude nan = nan
fixed_magnitude (num k) = if ltb k 1000 then num (2000 - k) else num k

abbrev fixed_next : Fixed → Fixed → Fixed
fixed_next = on_numbers λ a b. if ltb a b then a + 1 else if ltb b a then a - 1 else a

abbrev fixed_to_size : Fixed → ℕ
fixed_to_size nan = 0
fixed_to_size (num k) = k - 1000

abbrev fixed_lerp : Fixed → Fixed → Fixed → Fixed
fixed_lerp a b nan = nan
fixed_lerp a b (num t) = if t == 1001 then b else fixed_add a (fixed_mul (num t) (fixed_sub b a))

instance abbrev pub fixed_double : Double Fixed
fixed_double = record {
  is_nan = fixed_is_nan;
  rank = fixed_rank;
  is_finite = fixed_is_finite;
  nought = fixed 0;
  one = fixed 1;
  infinity = num 2000;
  quiet_nan = nan;
  add = fixed_add;
  sub = fixed_sub;
  mul = fixed_mul;
  div = fixed_div;
  neg = fixed_neg;
  magnitude = fixed_magnitude;
  sqrt = λ x. x;
  ceil = λ x. x;
  lerp = fixed_lerp;
  midpoint = on_numbers λ a b. (a + b) / 2;
  sin = λ x. x;
  cos = λ _. fixed 1;
  tan = λ x. x;
  acos = λ _. fixed 1;
  atan2 = λ y _. y;
  pi = fixed 3;
  machine_epsilon = fixed 0;
  next_after = fixed_next;
  millionth = fixed 0;
  of_size = fixed;
  to_size = fixed_to_size;
}
