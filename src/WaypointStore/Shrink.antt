-- ===== src/WaypointStore/Shrink.antt =====
-- `truncate`, `last` and `reset_to_last` of a well-formed store.
use trajex.Prelude.{
  ℕ, zero, suc, ◌-◌, ◌/◌, ◌%◌, ◌≤◌, ◌<◌, ◌≡◌, refl, sym, ap, ◌∙◌, inl, inr, false, none, some, List,
  [], ◌∷◌, arith, ltb, leb, ◌==◌, if◌then◌else◌, Bool-cases, length, get_elem?, take, last?,
  drop_last-append_one, All-take, All-last?, zero_cases, ok,
}
use trajex.WaypointStore.{Store, write, k_chunk_rows, rows, pop_rows, truncate, last, reset_to_last}
use trajex.WaypointStore.Places.{
  place, places, accumulator_of, contents, take-contents, last?-contents,
}
use trajex.WaypointStore.Append.{
  write_row_lem, extend_accumulator_lem, chunk_found, IsViewed, IsStored, rows-contents,
  write_row_lem, extend_accumulator_lem, chunk_found,
}

pub accumulator_of-suc :
    (w n : ℕ) → 0 < n → accumulator_of w n ≡ some (record { dof = w; waypoints = places w n })
unfolding accumulator_of
accumulator_of-suc w zero h = elim h [ ]
accumulator_of-suc w (suc n) h = refl

module _ {D : Type 0} where
  pop_rows_lem :
      (n m w : ℕ) (s : Store D)
      → s.accumulator ≡ some (record { dof = w; waypoints = places w m })
      → s.size ≡ m
      → n ≤ m
      → pop_rows n s ≡ record s {
        accumulator = some (record { dof = w; waypoints = places w (m - n) });
        size = m - n;
      }
  unfolding pop_rows places
  pop_rows_lem zero m w s a e h = let z : m - 0 ≡ m = omega arith in rw z (ground arith)
  pop_rows_lem (suc n) zero w s a e h = absurd (omega arith)
  pop_rows_lem (suc n) (suc m) w s a e h =
      let step : suc m - suc n ≡ m - n = omega arith in
      rw (a, pop_rows)
        (rw step (
          pop_rows_lem n m w _
            (ap (λ l. some (record { dof = w; waypoints = l }))
              (drop_last-append_one (places w m) (place w m)))
            (omega arith) (omega arith)))

  abbrev truncated : Store D → ℕ → Store D
  truncated s zero = record s { accumulator = none; chunks = []; size = 0; dof = 0 }
  truncated s (suc count) = record s {
    accumulator = accumulator_of s.dof (suc count);
    size = suc count;
  }

  -- The last statement of `truncate`.
  settled :
      (s : Store D) (count : ℕ)
      → (if count == 0
          then record s { accumulator = none; chunks = []; size = count; dof = 0 }
          else record s {
            accumulator = some (record { dof = s.dof; waypoints = places s.dof count });
            size = count;
          })
        ≡ truncated s count
  unfolding accumulator_of
  settled s zero = refl
  settled s (suc count) = ground arith

  truncate_lem :
      (s : Store D) (count : ℕ)
      → IsStored s
      → count ≤ s.size
      → truncate s count ≡ ok (truncated s count)
  unfolding truncate pop_rows
  truncate_lem s count v h = elim (zero_cases s.size) [
    | inl z ↦
        let refused : ltb s.size count ≡ false = ground arith in
        let none_left : s.size - count ≡ 0 = omega arith in
        let count_zero : count ≡ 0 = omega arith in
        rw (refused, none_left, count_zero) (ground arith)
    | inr (m, e) ↦
        let full : s.accumulator ≡ some (record { dof = s.dof; waypoints = places s.dof s.size }) =
          v.is_viewed.viewed ∙ accumulator_of-suc s.dof s.size (omega arith) in
        let back : s.size - (s.size - count) ≡ count = omega arith in
        let refused : ltb s.size count ≡ false = ground arith in
        rw (refused, pop_rows_lem (s.size - count) s.size s.dof s full refl (omega arith), back)
          (ap ok (settled s count))
  ]

  pub truncate-rows :
      (s : Store D) (count : ℕ)
      → IsStored s
      → count ≤ s.size
      → (s' : Store D) × (truncate s count ≡ ok s')
        × IsStored s'
        × (rows s' ≡ take count (rows s))
        × (s'.size ≡ count)
        × (0 < count → s'.dof ≡ s.dof)
  unfolding accumulator_of rows
  truncate-rows s zero v h = (
    truncated s 0,
    truncate_lem s 0 v h,
    record {
      is_viewed = record { viewed = refl; widths = tt; room = omega arith };
      fresh = λ _. (refl, refl);
      same_dof = tt;
    },
    refl,
    refl,
    λ p. absurd (omega arith),
  )
  truncate-rows s (suc count) v h = (
    truncated s (suc count),
    truncate_lem s (suc count) v h,
    record {
      is_viewed = kept;
      fresh = λ z. absurd (omega arith);
      same_dof = rw taken (All-take (λ r. length r ≡ s.dof) (suc count) (rows s) v.same_dof);
    },
    taken,
    refl,
    λ p. refl,
  )
    where
      kept : IsViewed (truncated s (suc count))
      kept = record {
        viewed = refl;
        widths = v.is_viewed.widths;
        room = omega (arith, v.is_viewed.room);
      }

      taken : rows (truncated s (suc count)) ≡ take (suc count) (rows s)
      taken =
          rows-contents (truncated s (suc count)) kept
          ∙ sym (
              ap (take (suc count)) (rows-contents s v.is_viewed)
              ∙ take-contents s.cell s.size (suc count) h)

  -- `last` of a well-formed store that is not empty returns the last of its rows, which is as wide as
  -- the store says.
  pub last_lem :
      (s : Store D)
      → IsStored s
      → 0 < s.size
      → (r : List D) × (last s ≡ ok r) × (last? (rows s) ≡ some r) × (length r ≡ s.dof)
  unfolding last
  last_lem s v h =
      let row = s.cell ((s.size - 1) / k_chunk_rows) ((s.size - 1) % k_chunk_rows) in
      let found : last? (rows s) ≡ some row = rw (rows-contents s v.is_viewed) (
        let e : s.size ≡ suc (s.size - 1) = omega arith in
        ap (λ n. last? (contents s.cell n)) e ∙ last?-contents s.cell (s.size - 1)) in
      (
        row,
        (let z : (s.size == 0) ≡ false = ground arith in rw z),
        found,
        All-last? (λ r. length r ≡ s.dof) (rows s) v.same_dof found,
      )

  last_inv :
      (s : Store D) (r : List D)
      → last s ≡ ok r
      → (0 < s.size) × (r ≡ s.cell ((s.size - 1) / k_chunk_rows) ((s.size - 1) % k_chunk_rows))
  unfolding last
  last_inv s r e = (ground arith, ground arith)

  abbrev only_last : Store D → List D → Store D
  only_last s r = record s {
    accumulator = accumulator_of s.dof 1;
    size = 1;
    cell = write s.cell 0 0 r;
  }

  length-last : (s : Store D) (r : List D) → IsStored s → last s ≡ ok r → length r ≡ s.dof
  length-last s r v e = let (r', e', _, w) = last_lem s v (last_inv s r e).0 in ground arith

  only_last-IsStored :
      (s : Store D) (r : List D)
      → IsStored s
      → last s ≡ ok r
      → IsStored (only_last s r) × (rows (only_last s r) ≡ r ∷ [])
  unfolding contents accumulator_of
  only_last-IsStored s r v e = (
    record {
      is_viewed = viewed;
      fresh = λ z. absurd (omega arith);
      same_dof = rw alone (length-last s r v e, tt);
    },
    alone,
  )
    where
      viewed : IsViewed (only_last s r)
      viewed = record {
        viewed = refl;
        widths = v.is_viewed.widths;
        room = omega (arith, (last_inv s r e).0, v.is_viewed.room);
      }

      alone : rows (only_last s r) ≡ r ∷ []
      alone = rows-contents (only_last s r) viewed

  reset_to_last_lem :
      (s : Store D) (r : List D)
      → IsStored s
      → last s ≡ ok r
      → 1 < s.size
      → reset_to_last s ≡ ok (only_last s r)
  unfolding reset_to_last accumulator_of
  reset_to_last_lem s r v e h =
      let more : leb s.size 1 ≡ false = ground arith in
      let first : get_elem? s.chunks 0 ≡ some s.dof =
        chunk_found s 0 v.is_viewed.widths (omega (arith, v.is_viewed.room)) in
      rw
        (
          more,
          e,
          write_row_lem (record s { accumulator = none; size = 0 }) 0 0 r first (omega arith)
              (length-last s r v e),
        )
        (extend_accumulator_lem
          (record s { cell = write s.cell 0 0 r; accumulator = none; size = 1 }) 0 0 0 refl
          (omega arith) (omega arith))

  -- `reset_to_last` of a well-formed store, whose `last` is r, succeeds: it leaves a well-formed store
  -- of the same width whose only row is r.
  pub reset_to_last-rows :
      (s : Store D) (r : List D)
      → IsStored s
      → last s ≡ ok r
      → (s' : Store D) × (reset_to_last s ≡ ok s')
        × IsStored s'
        × (rows s' ≡ r ∷ [])
        × (s'.dof ≡ s.dof)
  unfolding reset_to_last contents
  reset_to_last-rows s r v e = elim (Bool-cases (leb s.size 1)) [
    | inl one ↦
        let (pos, row) = last_inv s r e in
        let e1 : s.size ≡ 1 = ground arith in
        let row1 : r ≡ s.cell 0 0 = rw e1 at row in
        (s, rw one, v, rows-contents s v.is_viewed ∙ (rw e1 (ap (λ x. x ∷ []) (sym row1))), refl)
    | inr more ↦ (
      only_last s r,
      reset_to_last_lem s r v e (ground arith),
      (only_last-IsStored s r v e).0,
      (only_last-IsStored s r v e).1,
      refl,
    )
  ]
