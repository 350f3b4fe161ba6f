-- ===== src/Tests/Store.antt =====
-- Stores and sequences of waypoints at concrete inputs.
use trajex.Prelude.{
  ℕ, ◌≡◌, refl, inl, inr, Bool, true, false, ◌&&◌, some, List, [], ◌∷◌, map, arith, ◌==◌,
  if◌then◌else◌, length, last?, ok,
}
use trajex.Double.Fixed.{fixed_double, Fixed, fixed}
use trajex.Double.{lt, eq}
use trajex.Xtensor.{Xtensor}
use trajex.Waypoints.{Accumulator}
use trajex.WaypointStore.{Store, empty_store, append, last, reset_to_last, rows}
use trajex.WaypointStore.Places.{accumulator_of, places, place}
use trajex.WaypointStore.Append.{IsStored, IsBatch, Extended, append-rows, empty_store-IsStored}
use trajex.WaypointStore.Shrink.{last_lem, reset_to_last-rows}
use trajex.WaypointUtils.{Batch, is_cusp, deduplicate_waypoints, segment_at_reversals}
use trajex.WaypointUtils.Dedup.{IsDeduplicated, deduplicate_waypoints-IsDeduplicated}
use trajex.WaypointUtils.Cutting.{IsCut}
use trajex.WaypointUtils.Reversals.{of_rows, segment_at_reversals-IsCut}
use trajex.Session.{rolled_back}
use trajex.Session.Stores.{SameStore, append-undone}

abbrev pub row : ℕ → ℕ → List Fixed
row a b = fixed a ∷ fixed b ∷ []

abbrev unwritten : ℕ → ℕ → List Fixed
unwritten _ _ = []

abbrev pub batch : Accumulator (List Fixed)
batch = record { dof = 2; waypoints = row 1 2 ∷ row 3 4 ∷ row 3 9 ∷ row 1 2 ∷ [] }

pub batch-IsBatch : IsBatch batch
batch-IsBatch = record { same_dof = (refl, (refl, (refl, (refl, tt)))) }

append-rows_example :
    (s : Store Fixed) × (append (empty_store unwritten) batch 1 ≡ ok s)
    × Extended (empty_store unwritten) (row 3 4 ∷ row 3 9 ∷ row 1 2 ∷ []) 2 s
append-rows_example =
    append-rows (empty_store unwritten) batch 1 (empty_store-IsStored unwritten) batch-IsBatch
      (inl refl) (omega arith)

abbrev pub two_rows : ℕ → ℕ → List Fixed
two_rows c o = if o == 0 then row 5 6 else row 1 2

abbrev pub stored : Store Fixed
stored = record {
  chunks = 2 ∷ [];
  cell = two_rows;
  size = 2;
  dof = 2;
  accumulator = some (record {
    dof = 2;
    waypoints =
        record { chunk = 0; offset = 0; width = 2 }
        ∷ record { chunk = 0; offset = 1; width = 2 }
        ∷ [];
  });
}

pub stored-IsStored : IsStored stored
unfolding accumulator_of places place rows
stored-IsStored = record {
  is_viewed = record { viewed = refl; widths = (refl, tt); room = omega arith };
  fresh = λ e. absurd (omega (arith, e));
  same_dof = (refl, (refl, tt));
}

append-undone_example :
    (s : Store Fixed) × (append stored batch 1 ≡ ok s) × SameStore stored (rolled_back s 2)
append-undone_example =
    append-undone stored batch 1 stored-IsStored batch-IsBatch (inr refl) (omega arith)

last_lem_example :
    (r : List Fixed) × (last stored ≡ ok r) × (last? (rows stored) ≡ some r) × (length r ≡ 2)
last_lem_example = last_lem stored stored-IsStored (omega arith)

stored-last : last stored ≡ ok (row 1 2)
unfolding last
stored-last = refl

reset_to_last-rows_example :
    (s : Store Fixed) × (reset_to_last stored ≡ ok s)
    × IsStored s
    × (rows s ≡ row 1 2 ∷ [])
    × (s.dof ≡ 2)
reset_to_last-rows_example = reset_to_last-rows stored (row 1 2) stored-IsStored stored-last

abbrev zip_with : (Fixed → Fixed → Fixed) → List Fixed → List Fixed → List Fixed
zip_with f [] _ = []
zip_with f (a ∷ as_) [] = []
zip_with f (a ∷ as_) (b ∷ bs) = f a b ∷ zip_with f as_ bs

abbrev fold : (Fixed → Fixed → Fixed) → List Fixed → Fixed
fold f [] = fixed 0
fold f (a ∷ l) = f a (fold f l)

abbrev larger : Fixed → Fixed → Fixed
larger a b = if lt (fixed_double.magnitude a) b then b else fixed_double.magnitude a

abbrev same_rows : List Fixed → List Fixed → Bool
same_rows [] [] = true
same_rows [] (_ ∷ _) = false
same_rows (_ ∷ _) [] = false
same_rows (a ∷ l) (b ∷ m) = eq a b && same_rows l m

-- The norm of a row along an axis, of which alone the tests take one, is its largest entry.
instance abbrev pub fixed_xtensor : Xtensor Fixed
fixed_xtensor = record {
  minus = zip_with fixed_double.sub;
  plus = zip_with fixed_double.add;
  scale = λ n l. map (λ a. fixed_double.mul n a) l;
  all_zero = λ l. same_rows l (map (λ _. fixed 0) l);
  times = zip_with fixed_double.mul;
  over = λ l n. map (λ a. fixed_double.div a n) l;
  row_eq = same_rows;
  sum = fold fixed_double.add;
  norm_l2 = fold larger;
  norm_linf = fold larger;
  amax = fold larger;
}

deduplicate_waypoints-IsDeduplicated_example :
    (r : Batch Fixed) × (deduplicate_waypoints batch (fixed 1) ≡ ok r)
    × (r.dof ≡ 2)
    × IsDeduplicated (fixed 1) (row 1 2) (row 3 4 ∷ row 3 9 ∷ row 1 2 ∷ []) r.waypoints
deduplicate_waypoints-IsDeduplicated_example =
    deduplicate_waypoints-IsDeduplicated (fixed 1) batch (row 1 2)
      (row 3 4 ∷ row 3 9 ∷ row 1 2 ∷ []) (refl, (refl, (refl, (refl, tt)))) refl

segment_at_reversals-IsCut_example :
    (ls : List (List (List Fixed))) × (segment_at_reversals batch (fixed 1)
      ≡ ok (map (of_rows 2) ls))
    × IsCut (is_cusp (fixed 1)) batch.waypoints ls
segment_at_reversals-IsCut_example =
    segment_at_reversals-IsCut (fixed 1) batch (refl, (refl, (refl, (refl, tt)))) (omega arith)
