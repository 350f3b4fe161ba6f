-- ===== src/WaypointStore.antt =====
-- src/viam/trajex/totg/streaming/private/waypoint_store.hpp: a session's own copy of its waypoints.
-- A chunk is its width and its place in the list of chunks; what stands in the chunks is a function
-- of chunk and offset. A view of the accumulator is a place in a chunk, read through `cell`. What
-- a chunk holds before it is written is whatever the function says there. Allocation does not fail.
-- A write outside its chunk, which is undefined behaviour in the source, is the error `fault`.
pub mod Places
pub mod Append
pub mod Shrink
use trajex.Prelude.{
  ℕ, zero, suc, ◌+◌, ◌-◌, ◌/◌, ◌%◌, not, ◌&&◌, Option, none, some, List, [], ◌∷◌, ◌++◌, map, ltb,
  leb, ◌==◌, if◌then◌else◌, length, get_elem?, take, drop, Result, ok, err, ◌>>=◌, ◌>>◌, throw_if,
}
use trajex.Prelude.{fault, dof_mismatch, index_out_of_range, count_exceeds_size, store_empty}
use trajex.Waypoints.{Accumulator, from_waypoint, add_waypoint, pop_back}

abbrev pub k_chunk_rows : ℕ
k_chunk_rows = 1024

pub record Place : Type 0 where
  pub chunk : ℕ
  pub offset : ℕ
  pub width : ℕ

abbrev pub place_width : Place → ℕ
place_width p = p.width

abbrev pub views : Option (Accumulator Place) → List Place
views none = []
views (some a) = a.waypoints

module _ {D : Type 0} where
  abbrev pub write : (ℕ → ℕ → List D) → ℕ → ℕ → List D → ℕ → ℕ → List D
  write cell c o row i j = if (i == c) && (j == o) then row else cell i j

module _ (D : Type 0) where
  pub record Store : Type 0 where
    pub chunks : List ℕ
    pub cell : ℕ → ℕ → List D
    pub size : ℕ
    pub dof : ℕ
    pub accumulator : Option (Accumulator Place)

module _ {D : Type 0} where
  -- A default-constructed store, over memory that holds `junk`.
  abbrev pub empty_store : (ℕ → ℕ → List D) → Store D
  empty_store junk = record { chunks = []; cell = junk; size = 0; dof = 0; accumulator = none }

  -- What a client reads through the accumulator.
  unfoldable pub rows : Store D → List (List D)
  rows s = map (λ (p : Place). s.cell p.chunk p.offset) (views s.accumulator)

  -- The loop of chunk_for_write_, which allocates while the chunk is missing.
  allocate_chunks : ℕ → Store D → Store D
  allocate_chunks zero s = s
  allocate_chunks (suc n) s = allocate_chunks n (record s { chunks = s.chunks ++ s.dof ∷ [] })

  chunk_for_write : Store D → ℕ → Store D
  unfolding allocate_chunks
  chunk_for_write s index = allocate_chunks (suc index - length s.chunks) s

  -- (*chunk)(offset, joint) = row(joint) for every joint below dof_.
  pub write_row : Store D → ℕ → ℕ → List D → Result (Store D)
  write_row s c o row = elim (get_elem? s.chunks c) [
    | none ↦ err fault
    | some width ↦
        if ltb o k_chunk_rows && leb s.dof width
        then ok (record s { cell = write s.cell c o (take s.dof row) })
        else err fault
  ]

  pub extend_accumulator : Store D → ℕ → ℕ → Result (Store D)
  unfolding from_waypoint add_waypoint
  extend_accumulator s c o =
      let row : Place = record { chunk = c; offset = o; width = s.dof } in
      elim s.accumulator [
        | some a ↦ do a' ← add_waypoint place_width a row; ok (record s { accumulator = some a' })
        | none ↦ ok (record s { accumulator = some (from_waypoint place_width row) })
      ]

  -- One round of the loop of `append`: the next chunk if this one is full, the row, its view.
  append_row : Store D → ℕ → ℕ → List D → Result (Store D)
  unfolding write_row extend_accumulator
  append_row s c o row = do
    written ← write_row s c o row
    viewed ← extend_accumulator written c o
    ok (record viewed { size = viewed.size + 1 })

  append_rows : Store D → ℕ → ℕ → List (List D) → Result (Store D)
  unfolding append_row chunk_for_write
  append_rows s c o [] = ok s
  append_rows s c o (row ∷ rest) =
      let full = o == k_chunk_rows in
      let c' = if full then c + 1 else c in
      let o' = if full then 0 else o in
      let s' = if full then chunk_for_write s c' else s in
      append_row s' c' o' row >>= λ s''. append_rows s'' c' (o' + 1) rest

  -- `append` behind its early return.
  append_nonempty : Store D → Accumulator (List D) → ℕ → Result (Store D)
  unfolding append_rows chunk_for_write
  append_nonempty s batch from = do
    throw_if (not (s.dof == 0) && not (batch.dof == s.dof)) dof_mismatch
    let chunk_index = s.size / k_chunk_rows
    let s' = chunk_for_write (record s { dof = batch.dof }) chunk_index
    append_rows s' chunk_index (s.size % k_chunk_rows) (drop from batch.waypoints)

  unfoldable pub append : Store D → Accumulator (List D) → ℕ → Result (Store D)
  unfolding append_nonempty
  append s batch from = do
    throw_if (ltb (length batch.waypoints) from) index_out_of_range
    if from == length batch.waypoints then ok s else append_nonempty s batch from

  -- The loop of `truncate`, by the rounds that are left.
  pop_rows : ℕ → Store D → Store D
  unfolding pop_back
  pop_rows zero s = s
  pop_rows (suc n) s = pop_rows n (record s {
    accumulator = elim s.accumulator [ none ↦ none | some a ↦ some (pop_back a) ];
    size = s.size - 1;
  })

  unfoldable pub truncate : Store D → ℕ → Result (Store D)
  unfolding pop_rows
  truncate s count = do
    throw_if (ltb s.size count) count_exceeds_size
    let s' = pop_rows (s.size - count) s
    ok (if s'.size == 0 then record s' { accumulator = none; chunks = []; dof = 0 } else s')

  unfoldable pub waypoints : Store D → Result (Accumulator Place)
  waypoints s = elim s.accumulator [ none ↦ err store_empty | some a ↦ ok a ]

  unfoldable pub last : Store D → Result (List D)
  last s = do
    throw_if (s.size == 0) store_empty
    let index = s.size - 1
    ok (s.cell (index / k_chunk_rows) (index % k_chunk_rows))

  unfoldable pub reset_to_last : Store D → Result (Store D)
  unfolding last write_row extend_accumulator
  reset_to_last s = if leb s.size 1 then ok s else do
    surviving ← last s
    let s' = record s { accumulator = none; size = 0 }
    written ← write_row s' 0 0 surviving
    extend_accumulator (record written { size = 1 }) 0 0
