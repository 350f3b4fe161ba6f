-- ===== src/WaypointStore/Places.antt =====
-- Where the rows of a store lie: row i stands in chunk i / 1024 at offset i % 1024.
use trajex.Prelude.{
  ℕ, zero, suc, ◌+◌, ◌*◌, ◌/◌, ◌%◌, ◌≤◌, ◌<◌, ◌≡◌, refl, ◌∙◌, ◌⊎◌, inl, inr, Option, none, some,
  List, [], ◌∷◌, ◌++◌, map, arith, length, take, last?, length-append, take-length,
  last?-append_one, take-append_le,
}
use mathlib.Core.List.{map-append}
use trajex.Waypoints.{Accumulator}
use trajex.WaypointStore.{Place, views, write, k_chunk_rows}

unfoldable pub place : ℕ → ℕ → Place
place w i = record { chunk = i / k_chunk_rows; offset = i % k_chunk_rows; width = w }

-- The first n places, in order.
unfoldable pub places : ℕ → ℕ → List Place
places w zero = []
places w (suc n) = places w n ++ place w n ∷ []

unfoldable pub accumulator_of : ℕ → ℕ → Option (Accumulator Place)
accumulator_of w zero = none
accumulator_of w (suc n) = some (record { dof = w; waypoints = places w (suc n) })

-- The first n rows of the chunks.
unfoldable pub contents {ℓ} : {R : Type ℓ} → (ℕ → ℕ → R) → ℕ → List R
contents cell zero = []
contents cell (suc n) = contents cell n ++ cell (n / k_chunk_rows) (n % k_chunk_rows) ∷ []

pub length-places : (w n : ℕ) → length (places w n) ≡ n
unfolding places
length-places w zero = refl
length-places w (suc n) =
    omega (arith, length-append (places w n) (place w n ∷ []), length-places w n)

pub views-accumulator_of : (w n : ℕ) → views (accumulator_of w n) ≡ places w n
unfolding accumulator_of places
views-accumulator_of w zero = refl
views-accumulator_of w (suc n) = refl

le_cases : (k n : ℕ) → (k ≤ n) ⊎ (n < k)
le_cases k n = ground arith

module _ {D : Type 0} where
  pub map-places :
      (cell : ℕ → ℕ → List D) (w n : ℕ)
      → map (λ (p : Place). cell p.chunk p.offset) (places w n) ≡ contents cell n
  unfolding places contents place
  map-places cell w zero = refl
  map-places cell w (suc n) = rw (map-append, map-places cell w n)

  pub length-contents : (cell : ℕ → ℕ → List D) (n : ℕ) → length (contents cell n) ≡ n
  unfolding contents
  length-contents cell zero = refl
  length-contents cell (suc n) = omega (
    arith,
    length-append (contents cell n) (cell (n / k_chunk_rows) (n % k_chunk_rows) ∷ []),
    length-contents cell n,
  )

  -- A write past the first n rows does not touch them.
  pub contents-write_above :
      (cell : ℕ → ℕ → List D) (c o : ℕ) (row : List D) (n : ℕ)
      → n ≤ c * k_chunk_rows + o
      → o < k_chunk_rows
      → contents (write cell c o row) n ≡ contents cell n
  unfolding contents
  contents-write_above cell c o row zero h l = refl
  contents-write_above cell c o row (suc n) h l =
      rw (contents-write_above cell c o row n (omega arith) l, kept)
    where
      kept :
          write cell c o row (n / k_chunk_rows) (n % k_chunk_rows)
          ≡ cell (n / k_chunk_rows) (n % k_chunk_rows)
      kept = ground arith

  -- A write of the next row.
  pub contents-write :
      (cell : ℕ → ℕ → List D) (c o : ℕ) (row : List D) (n : ℕ)
      → n ≡ c * k_chunk_rows + o
      → o < k_chunk_rows
      → contents (write cell c o row) (suc n) ≡ contents cell n ++ row ∷ []
  unfolding contents
  contents-write cell c o row n e l = rw (contents-write_above cell c o row n (omega arith) l, here)
    where
      here : write cell c o row (n / k_chunk_rows) (n % k_chunk_rows) ≡ row
      here = ground arith

  pub take-contents :
      (cell : ℕ → ℕ → List D) (n k : ℕ) → k ≤ n → take k (contents cell n) ≡ contents cell k
  unfolding contents
  take-contents cell zero zero h = refl
  take-contents cell zero (suc k) h = absurd (omega arith)
  take-contents cell (suc n) k h = elim (le_cases k n) [
    | inl le ↦
        take-append_le k (contents cell n) _ (omega (arith, length-contents cell n))
        ∙ take-contents cell n k le
    | inr gt ↦
        let e : k ≡ suc n = omega arith in
        rw e (take-length (suc n) _ (omega (arith, length-contents cell (suc n))))
  ]

  pub last?-contents :
      (cell : ℕ → ℕ → List D) (n : ℕ)
      → last? (contents cell (suc n)) ≡ some (cell (n / k_chunk_rows) (n % k_chunk_rows))
  unfolding contents
  last?-contents cell n = last?-append_one (contents cell n) _
