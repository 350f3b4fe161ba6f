-- ===== src/Double.antt =====
-- What the program does with a `double` (C++ `double`, `std::chrono::duration<double>`, and the
-- wrappers of src/viam/trajex/types: `arc_length`, `arc_velocity`, `arc_acceleration`).
-- Floating point is not modelled by any one representation: every definition that computes with
-- doubles takes the operations below as an instance argument.
-- A comparison of two binary64 values is false if one is NaN; other values are compared as the
-- integers `rank` (the usual 64-bit key of binary64, at which -0.0 and +0.0 meet).
pub mod Fixed
pub mod Sorted
pub mod Ieee
pub mod Order
use trajex.Prelude.{
  ℕ, zero, suc, ◌+◌, ◌-◌, ◌*◌, ◌/◌, ◌%◌, ◌≤◌, ◌<◌, ◌≡◌, refl, sym, ap, ◌∙◌, subst, ◌≢◌, ◌↔◌, ◌⊎◌,
  inl, inr, Bool, true, false, not, ◌&&◌, ◌||◌, Option, none, some, List, [], ◌∷◌, ◌++◌, map, arith,
  ltb, leb, ◌==◌, if◌then◌else◌, Bool-cases, Option-cases, length, get_elem?, take, drop, drop_last,
  last?, All, length-append, length-take, length-drop, take-length, last?-append_one,
  drop_last-append_one, length-drop_last, All-append, All-drop, All-take, All-last?, zero_cases,
  get_elem?-some, length-map, take-append_le, replicate, length-replicate, All-replicate,
  All-get_elem?, Error, Result, ok, err, ◌>>=◌, ◌>>◌, throw_if,
}

pub record Double (D : Type 0) : Type 0 where
  pub is_nan : D → Bool
  pub rank : D → ℕ
  pub is_finite : D → Bool
  pub nought : D
  pub one : D
  pub infinity : D
  pub quiet_nan : D
  pub add : D → D → D
  pub sub : D → D → D
  pub mul : D → D → D
  pub div : D → D → D
  pub neg : D → D
  pub magnitude : D → D
  pub sqrt : D → D
  pub ceil : D → D
  pub lerp : D → D → D → D
  pub midpoint : D → D → D
  pub sin : D → D
  pub cos : D → D
  pub tan : D → D
  pub acos : D → D
  -- std::atan2(y, x), std::numbers::pi, std::numeric_limits<double>::epsilon()
  pub atan2 : D → D → D
  pub pi : D
  pub machine_epsilon : D
  -- std::nextafter, and the literal 1e-6
  pub next_after : D → D → D
  pub millionth : D
  -- static_cast<double>(std::size_t) and static_cast<std::size_t>(double)
  pub of_size : ℕ → D
  pub to_size : D → ℕ

module _ {D : Type 0} ⦃d : Double D⦄ where
  abbrev pub numbers : D → D → Bool
  numbers x y = not (d.is_nan x) && not (d.is_nan y)

  -- x < y, x <= y and x == y
  abbrev pub lt : D → D → Bool
  lt x y = numbers x y && ltb (d.rank x) (d.rank y)

  abbrev pub le : D → D → Bool
  le x y = numbers x y && leb (d.rank x) (d.rank y)

  abbrev pub eq : D → D → Bool
  eq x y = numbers x y && (d.rank x == d.rank y)

  -- std::min and std::max
  abbrev pub min_of : D → D → D
  min_of x y = if lt y x then y else x

  abbrev pub max_of : D → D → D
  max_of x y = if lt x y then y else x

  -- The literal 2.0
  abbrev pub two : D
  two = d.add d.one d.one

  abbrev pub IsNumber : D → Type 0
  IsNumber x = d.is_nan x ≡ false
