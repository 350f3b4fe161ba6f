-- ===== src/Waypoints.antt =====
-- src/viam/trajex/totg/waypoint_accumulator.{hpp,cpp}: a sequence of equally wide rows. A
-- `waypoint_view` is a pointer to a row that somebody else owns; what a view is stays a parameter
-- `V`, with its width, so that a batch (a list of rows) and the store's own accumulator (places in
-- its chunks) are instances.
use trajex.Prelude.{
  ℕ, Bool, not, List, [], ◌∷◌, ◌++◌, Option, none, some, ◌==◌, if◌then◌else◌, length, get_elem?,
  last?, drop_last, empty_waypoints, dof_mismatch, index_out_of_range, Result, ok, err, ◌>>◌,
  throw_if,
}

-- The rank-two array that a caller hands over: its shape and the views of its rows.
pub record Matrix {ℓ} (V : Type ℓ) : Type ℓ where
  pub columns : ℕ
  pub rows : List V

pub record Accumulator {ℓ} (V : Type ℓ) : Type ℓ where
  pub dof : ℕ
  pub waypoints : List V

module _ {ℓ} {V : Type ℓ} where
  -- xt::adapt(&waypoints(i, 0), dof_, no_ownership()) for each row i.
  unfoldable pub append_rows : Accumulator V → Matrix V → Accumulator V
  append_rows a m = record a { waypoints = a.waypoints ++ m.rows }

  unfoldable pub require_non_empty : Matrix V → Result (Unit {0})
  require_non_empty m = throw_if (length m.rows == 0) empty_waypoints

  unfoldable pub require_matching_dof : Accumulator V → Matrix V → Result (Unit {0})
  require_matching_dof a m = throw_if (not (m.columns == a.dof)) dof_mismatch

  -- The constructor from a matrix.
  unfoldable pub from_matrix : Matrix V → Result (Accumulator V)
  unfolding append_rows require_non_empty
  from_matrix m = do
    require_non_empty m
    ok (append_rows (record { dof = m.columns; waypoints = [] }) m)

  unfoldable pub add_waypoints : Accumulator V → Matrix V → Result (Accumulator V)
  unfolding append_rows require_matching_dof
  add_waypoints a m = do require_matching_dof a m; ok (append_rows a m)

  unfoldable pub size : Accumulator V → ℕ
  size a = length a.waypoints

  unfoldable pub empty : Accumulator V → Bool
  empty a = length a.waypoints == 0

  unfoldable pub at : Accumulator V → ℕ → Result V
  at a i = elim (get_elem? a.waypoints i) [ none ↦ err index_out_of_range | some v ↦ ok v ]

  -- `std::vector::back`, which has no value on an empty accumulator.
  unfoldable pub back : Accumulator V → Option V
  back a = last? a.waypoints

  unfoldable pub pop_back : Accumulator V → Accumulator V
  pop_back a = record a { waypoints = drop_last a.waypoints }

  module _ (width : V → ℕ) where
    -- The constructor from one view.
    unfoldable pub from_waypoint : V → Accumulator V
    from_waypoint v = record { dof = width v; waypoints = v ∷ [] }

    unfoldable pub add_waypoint : Accumulator V → V → Result (Accumulator V)
    add_waypoint a v =
        if not (width v == a.dof)
        then err dof_mismatch
        else ok (record a { waypoints = a.waypoints ++ v ∷ [] })
