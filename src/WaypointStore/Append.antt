-- ===== src/WaypointStore/Append.antt =====
-- The invariant of a store, and what `append` does to one that has it.
use trajex.Prelude.{
  ℕ, zero, suc, ◌+◌, ◌-◌, ◌*◌, ◌/◌, ◌%◌, ◌≤◌, ◌<◌, ◌≡◌, refl, sym, ap, ◌∙◌, ◌≢◌, ◌⊎◌, inl, inr,
  false, not, ◌&&◌, some, List, [], ◌∷◌, ◌++◌, arith, ltb, ◌==◌, Bool-cases, length, get_elem?,
  drop, All, length-append, length-drop, take-length, All-append, All-drop, get_elem?-some,
  replicate, length-replicate, All-replicate, All-get_elem?, Result, ok, err, ◌>>=◌, dof_mismatch,
  index_out_of_range,
}
use mathlib.Core.List.{append-nil, append_assoc}
use trajex.Waypoints.{Accumulator}
use trajex.WaypointStore.{
  empty_store, Store, write, k_chunk_rows, rows, allocate_chunks, chunk_for_write, write_row,
  extend_accumulator, append_row, append_rows, append_nonempty, append,
}
use trajex.WaypointStore.Places.{
  place, places, accumulator_of, contents, views-accumulator_of, map-places, contents-write,
}

place_lem :
    (w c o n : ℕ)
    → n ≡ c * k_chunk_rows + o
    → o < k_chunk_rows
    → place w n ≡ record { chunk = c; offset = o; width = w }
unfolding place
place_lem w c o n e l = ground arith

accumulator_of-zero : (w w' n : ℕ) → n ≡ 0 → accumulator_of w n ≡ accumulator_of w' n
unfolding accumulator_of
accumulator_of-zero w w' n e = rw e

module _ {D : Type 0} where
  -- The accumulator views row i at its place in the chunks, in order, and every chunk is as wide
  -- as the rows.
  pub record IsViewed (s : Store D) : Type 0 where
    pub viewed : s.accumulator ≡ accumulator_of s.dof s.size
    pub widths : All (λ w. w ≡ s.dof) s.chunks
    pub room : s.size ≤ k_chunk_rows * length s.chunks

  pub record IsStored (s : Store D) : Type 0 where
    pub is_viewed : IsViewed s
    pub fresh : s.size ≡ 0 → (s.chunks ≡ []) × (s.dof ≡ 0)
    pub same_dof : All (λ r. length r ≡ s.dof) (rows s)

  pub empty_store-IsStored : (junk : ℕ → ℕ → List D) → IsStored (empty_store junk)
  unfolding accumulator_of rows
  empty_store-IsStored junk = record {
    is_viewed = record { viewed = refl; widths = tt; room = omega arith };
    fresh = λ _. (refl, refl);
    same_dof = tt;
  }

  pub rows-contents : (s : Store D) → IsViewed s → rows s ≡ contents s.cell s.size
  unfolding rows
  rows-contents s v =
      rw (v.viewed, views-accumulator_of s.dof s.size) (map-places s.cell s.dof s.size)

  allocate_chunks_lem :
      (n : ℕ) (s : Store D)
      → allocate_chunks n s ≡ record s { chunks = s.chunks ++ replicate n s.dof }
  unfolding allocate_chunks
  allocate_chunks_lem zero s = rw (append-nil s.chunks)
  allocate_chunks_lem (suc n) s = rw (
    allocate_chunks_lem n (record s { chunks = s.chunks ++ s.dof ∷ [] }),
    append_assoc s.chunks (s.dof ∷ []) (replicate n s.dof),
  )

  pub write_row_lem :
      (s : Store D) (c o : ℕ) (row : List D)
      → get_elem? s.chunks c ≡ some s.dof
      → o < k_chunk_rows
      → length row ≡ s.dof
      → write_row s c o row ≡ ok (record s { cell = write s.cell c o row })
  unfolding write_row
  write_row_lem s c o row chunk l w =
      rw (chunk, write_row) (rw (take-length s.dof row (omega arith)) (ground arith))

  pub extend_accumulator_lem :
      (s : Store D) (c o n : ℕ)
      → s.accumulator ≡ accumulator_of s.dof n
      → n ≡ c * k_chunk_rows + o
      → o < k_chunk_rows
      → extend_accumulator s c o ≡ ok (record s { accumulator = accumulator_of s.dof (suc n) })
  unfolding extend_accumulator accumulator_of places
  extend_accumulator_lem s c o zero v e l = ground (arith, place_lem s.dof c o 0 e l)
  extend_accumulator_lem s c o (suc n) v e l = ground (arith, place_lem s.dof c o (suc n) e l)

  append_row_lem :
      (s : Store D) (c o : ℕ) (row : List D)
      → get_elem? s.chunks c ≡ some s.dof
      → o < k_chunk_rows
      → s.size ≡ c * k_chunk_rows + o
      → s.accumulator ≡ accumulator_of s.dof s.size
      → length row ≡ s.dof
      → append_row s c o row
        ≡ ok (record s {
          cell = write s.cell c o row;
          accumulator = accumulator_of s.dof (suc s.size);
          size = suc s.size;
        })
  unfolding append_row
  append_row_lem s c o row chunk l e v w = rw (write_row_lem s c o row chunk l w) (
      rw (extend_accumulator_lem (record s { cell = write s.cell c o row }) c o s.size v e l)
        (ground arith))

  -- The state of the loop of `append` between two rounds.
  record IsReady (s : Store D) (c o : ℕ) : Type 0 where
    viewed : s.accumulator ≡ accumulator_of s.dof s.size
    widths : All (λ w. w ≡ s.dof) s.chunks
    allocated : c < length s.chunks
    next : s.size ≡ c * k_chunk_rows + o
    within : o ≤ k_chunk_rows

  abbrev Appended : Store D → List (List D) → Result (Store D) → Type 0
  Appended s batch r =
      (s' : Store D) × (r ≡ ok s')
      × IsViewed s'
      × (s'.dof ≡ s.dof)
      × (s'.size ≡ s.size + length batch)
      × (contents s'.cell s'.size ≡ contents s.cell s.size ++ batch)

  pub chunk_found :
      (s : Store D) (c : ℕ)
      → All (λ w. w ≡ s.dof) s.chunks
      → c < length s.chunks
      → get_elem? s.chunks c ≡ some s.dof
  chunk_found s c ws h =
      let (w, e) = get_elem?-some s.chunks c h in
      e ∙ ap some (All-get_elem? (λ w. w ≡ s.dof) s.chunks c ws e)

  append_rows_step :
      (s : Store D) (c o : ℕ) (row : List D) (rest : List (List D))
      → IsReady s c o
      → o < k_chunk_rows
      → length row ≡ s.dof
      → ((s' : Store D)
          → IsReady s' c (o + 1)
          → s'.dof ≡ s.dof
          → Appended s' rest (append_rows s' c (o + 1) rest))
      → Appended s (row ∷ rest) (append_row s c o row >>= λ s'. append_rows s' c (o + 1) rest)
  append_rows_step s c o row rest v l w ih =
      let s1 : Store D = record s {
        cell = write s.cell c o row;
        accumulator = accumulator_of s.dof (suc s.size);
        size = suc s.size;
      } in
      let ready : IsReady s1 c (o + 1) = record {
        viewed = refl;
        widths = v.widths;
        allocated = v.allocated;
        next = omega (arith, v.next);
        within = omega arith;
      } in
      let (s', e, vw, d, n, t) = ih s1 ready refl in
      let written : contents (write s.cell c o row) (suc s.size)
          ≡ contents s.cell s.size ++ row ∷ [] =
        contents-write s.cell c o row s.size v.next l in
      (
        s',
        rw (append_row_lem s c o row (chunk_found s c v.widths v.allocated) l v.next v.viewed w) e,
        vw,
        d,
        omega (arith, n),
        t ∙ rw (written, append_assoc (contents s.cell s.size) (row ∷ []) rest),
      )

  abbrev grown : Store D → ℕ → Store D
  grown s i = record s { chunks = s.chunks ++ replicate (suc i - length s.chunks) s.dof }

  chunk_for_write_lem : (s : Store D) (i : ℕ) → chunk_for_write s i ≡ grown s i
  unfolding chunk_for_write
  chunk_for_write_lem s i = allocate_chunks_lem (suc i - length s.chunks) s

  grown-IsReady :
      (s : Store D) (i o : ℕ)
      → s.accumulator ≡ accumulator_of s.dof s.size
      → All (λ w. w ≡ s.dof) s.chunks
      → s.size ≡ i * k_chunk_rows + o
      → o ≤ k_chunk_rows
      → IsReady (grown s i) i o
  grown-IsReady s i o v ws e l = record {
    viewed = v;
    widths =
        All-append (λ w. w ≡ s.dof) s.chunks _ ws
          (All-replicate (λ w. w ≡ s.dof) (suc i - length s.chunks) s.dof refl);
    allocated = omega (
      arith,
      length-append s.chunks (replicate (suc i - length s.chunks) s.dof),
      length-replicate (suc i - length s.chunks) s.dof,
    );
    next = e;
    within = l;
  }

  append_rows_lem :
      (batch : List (List D)) (s : Store D) (c o : ℕ)
      → IsReady s c o
      → All (λ r. length r ≡ s.dof) batch
      → Appended s batch (append_rows s c o batch)
  unfolding append_rows
  append_rows_lem [] s c o v ws = (
    s,
    refl,
    record { viewed = v.viewed; widths = v.widths; room = omega arith },
    refl,
    omega arith,
    sym (append-nil (contents s.cell s.size)),
  )
  append_rows_lem (row ∷ rest) s c o v ws = elim (Bool-cases (o == k_chunk_rows)) [
    | inl full ↦
        rw (full, append_rows)
          (rw (chunk_for_write_lem s (c + 1)) (
            append_rows_step (grown s (c + 1)) (c + 1) 0 row rest
              (grown-IsReady s (c + 1) 0 v.viewed v.widths (ground (arith, v.next)) (omega arith))
              (omega arith) ws.0 (λ s' r e. append_rows_lem rest s' (c + 1) 1 r (rw e ws.1))))
    | inr more ↦
        rw (more, append_rows)
          (append_rows_step s c o row rest v (ground (arith, v.within)) ws.0
            (λ s' r e. append_rows_lem rest s' c (o + 1) r (rw e ws.1)))
  ]

  -- `append` of a batch to a store that may take it.
  pub record IsBatch (batch : Accumulator (List D)) : Type 0 where
    pub same_dof : All (λ r. length r ≡ batch.dof) batch.waypoints

  abbrev pub Fits : Store D → Accumulator (List D) → Type 0
  Fits s batch = (s.size ≡ 0) ⊎ (batch.dof ≡ s.dof)

  start-IsReady :
      (s : Store D) (batch : Accumulator (List D))
      → IsStored s
      → Fits s batch
      → IsReady
          (grown (record s { dof = batch.dof }) (s.size / k_chunk_rows))
          (s.size / k_chunk_rows)
          (s.size % k_chunk_rows)
  start-IsReady s batch v (inl e) =
      grown-IsReady (record s { dof = batch.dof }) _ _
        (v.is_viewed.viewed ∙ accumulator_of-zero s.dof batch.dof s.size e) (rw ((v.fresh e).0) tt)
        (omega arith) (omega arith)
  start-IsReady s batch v (inr e) =
      grown-IsReady (record s { dof = batch.dof }) _ _ (rw e v.is_viewed.viewed)
        (rw e v.is_viewed.widths) (omega arith) (omega arith)

  no_mismatch :
      (s : Store D) (batch : Accumulator (List D))
      → IsStored s
      → Fits s batch
      → (not (s.dof == 0) && not (batch.dof == s.dof)) ≡ false
  no_mismatch s batch v (inl e) = ground (arith, v.fresh e)
  no_mismatch s batch v (inr e) = ground arith

  pub rows-empty : (s : Store D) → IsStored s → s.size ≡ 0 → rows s ≡ []
  unfolding contents
  rows-empty s v e = rows-contents s v.is_viewed ∙ rw e

  rows-same_dof :
      (s : Store D) (w : ℕ)
      → IsStored s
      → (s.size ≡ 0) ⊎ (w ≡ s.dof)
      → All (λ r. length r ≡ w) (rows s)
  rows-same_dof s w v (inl e) = rw (rows-empty s v e) tt
  rows-same_dof s w v (inr e) = rw e v.same_dof

  -- What a successful `append` of `batch` leaves: the rows before, then the batch.
  pub record Extended (s : Store D) (batch : List (List D)) (w : ℕ) (s' : Store D) : Type 0 where
    pub stored : IsStored s'
    pub rows_eq : rows s' ≡ rows s ++ batch
    pub size_eq : s'.size ≡ s.size + length batch
    pub dof_eq : s'.dof ≡ w

  append_nonempty_lem :
      (s : Store D) (batch : Accumulator (List D)) (from : ℕ)
      → IsStored s
      → IsBatch batch
      → Fits s batch
      → from < length batch.waypoints
      → (s' : Store D) × (append_nonempty s batch from ≡ ok s')
        × Extended s (drop from batch.waypoints) batch.dof s'
  unfolding append_nonempty
  append_nonempty_lem s batch from v b f h =
      let added = drop from batch.waypoints in
      let (s', e, vw, d, n, t) =
        append_rows_lem added _ _ _ (start-IsReady s batch v f)
          (All-drop _ from batch.waypoints b.same_dof) in
      let joined : rows s' ≡ rows s ++ added =
        rw (rows-contents s' vw, rows-contents s v.is_viewed) t in
      (
        s',
        rw (no_mismatch s batch v f)
            (rw (chunk_for_write_lem (record s { dof = batch.dof }) (s.size / k_chunk_rows)) e),
        record {
          stored = record {
            is_viewed = vw;
            fresh = λ z. absurd (omega (arith, n, length-drop from batch.waypoints));
            same_dof =
                rw (joined, d)
                  (All-append _ (rows s) added (rows-same_dof s batch.dof v f)
                    (All-drop _ from batch.waypoints b.same_dof));
          };
          rows_eq = joined;
          size_eq = n;
          dof_eq = d;
        },
      )

  -- A well-formed store that is empty, or is as wide as the batch, takes the rows of the batch from
  -- row `from` on, if there are such rows: `append` succeeds, and leaves a well-formed store as wide
  -- as the batch, from which its own rows are read back and then the appended ones.
  pub append-rows :
      (s : Store D) (batch : Accumulator (List D)) (from : ℕ)
      → IsStored s
      → IsBatch batch
      → Fits s batch
      → from < length batch.waypoints
      → (s' : Store D) × (append s batch from ≡ ok s')
        × Extended s (drop from batch.waypoints) batch.dof s'
  unfolding append
  append-rows s batch from v b f h =
      let (s', e, x) = append_nonempty_lem s batch from v b f h in
      (
        s',
        let in_range : ltb (length batch.waypoints) from ≡ false = ground arith in
            let some_left : (from == length batch.waypoints) ≡ false = ground arith in
            rw (in_range, some_left) e,
        x,
      )

  -- The refusals leave no new store: `from` past the batch, and a batch of another width.
  pub append-refused :
      (s : Store D) (batch : Accumulator (List D)) (from : ℕ)
      → (length batch.waypoints < from → append s batch from ≡ err index_out_of_range)
        × (from ≡ length batch.waypoints → append s batch from ≡ ok s)
        × (from < length batch.waypoints
            → s.dof ≢ 0
            → batch.dof ≢ s.dof
            → append s batch from ≡ err dof_mismatch)
  unfolding append append_nonempty
  append-refused s batch from = (λ h. ground arith, λ h. ground arith, λ h d m. ground arith)
