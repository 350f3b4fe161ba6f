-- ===== src/Xtensor.antt =====
-- The array operations of the xtensor library that the program calls. They are third-party code:
-- every definition that uses them takes them as an instance argument.
use trajex.Prelude.{Bool, List}

pub record Xtensor (D : Type 0) : Type 0 where
  -- a - b, a + b, a * b, x * a, a / x, element by element, and a == b
  pub minus : List D → List D → List D
  pub plus : List D → List D → List D
  pub scale : D → List D → List D
  pub times : List D → List D → List D
  pub over : List D → D → List D
  pub row_eq : List D → List D → Bool
  -- xt::all(xt::equal(a, 0.0))
  pub all_zero : List D → Bool
  -- xt::sum, xt::norm_l2, xt::norm_linf
  pub sum : List D → D
  pub norm_l2 : List D → D
  pub norm_linf : List D → D
  -- xt::amax
  pub amax : List D → D
