-- ===== src/WaypointUtils/Cutting.antt =====
-- Cutting a sequence at its cusps, on plain lists (waypoint_utils.cpp).
use mathlib.Core.List.{append_assoc, head?}
use mathlib.Core.Path.{ap₂}
use trajex.Prelude.{
  ℕ, suc, ◌+◌, ◌≤◌, ◌≡◌, refl, sym, ◌∙◌, subst, inl, inr, Bool, true, false, some, List, [], ◌∷◌,
  ◌++◌, arith, if◌then◌else◌, Bool-cases, length, drop_last, last?, All, length-append,
  last?-append_one, drop_last-append_one,
}

module _ {ℓ} {R : Type ℓ} (cusp : R → R → R → Bool) where
  -- The segments of the sequence `current ++ where_ ∷ rest`, where `current` ends in `before`.
  unfoldable pub segments : List R → R → R → List R → List (List R)
  segments current before where_ [] = (current ++ where_ ∷ []) ∷ []
  segments current before where_ (after ∷ rest) =
      let apart = (current ++ where_ ∷ []) ∷ segments (where_ ∷ []) where_ after rest in
      let joined = segments (current ++ where_ ∷ []) where_ after rest in
      if cusp before where_ after then apart else joined

  -- No waypoint inside the sequence is a cusp.
  abbrev pub IsSmooth : List R → Type 0
  IsSmooth [] = Unit
  IsSmooth (a ∷ []) = Unit
  IsSmooth (a ∷ b ∷ []) = Unit
  IsSmooth (a ∷ b ∷ c ∷ l) = (cusp a b c ≡ false) × IsSmooth (b ∷ c ∷ l)

  -- How many waypoints inside the sequence are cusps.
  abbrev pub cusps : List R → ℕ
  cusps [] = 0
  cusps (a ∷ []) = 0
  cusps (a ∷ b ∷ []) = 0
  cusps (a ∷ b ∷ c ∷ l) = (if cusp a b c then 1 else 0) + cusps (b ∷ c ∷ l)

  -- Each segment ends in the waypoint that the next one begins with.
  abbrev pub IsLinked : List (List R) → Type ℓ
  IsLinked [] = Unit
  IsLinked (s ∷ []) = Unit
  IsLinked (s ∷ t ∷ ls) = (last? s ≡ head? t) × IsLinked (t ∷ ls)

  -- The sequence that the segments are cut from: the shared waypoints are taken once.
  abbrev pub rejoin : List (List R) → List R
  rejoin [] = []
  rejoin (s ∷ []) = s
  rejoin (s ∷ t ∷ ls) = drop_last s ++ rejoin (t ∷ ls)

  pub record IsCut (l : List R) (ls : List (List R)) : Type ℓ where
    pub rejoined : rejoin ls ≡ l
    pub linked : IsLinked ls
    pub smooth : All IsSmooth ls
    pub long : All (λ s. 2 ≤ length s) ls
    pub counted : length ls ≡ suc (cusps l)

  segments_head :
      (current : List R) (before where_ : R) (rest : List R)
      → (l' : List R) × (ls : List (List R)) × (segments current before where_ rest
          ≡ (current ++ l') ∷ ls)
  unfolding segments
  segments_head current before where_ [] = (where_ ∷ [], [], refl)
  segments_head current before where_ (after ∷ rest) =
      elim (Bool-cases (cusp before where_ after)) [
        | inl t ↦ (where_ ∷ [], segments (where_ ∷ []) where_ after rest, rw t)
        | inr f ↦
            let (l', ls, e) = segments_head (current ++ where_ ∷ []) where_ after rest in
            (where_ ∷ l', ls, rw f (e ∙ rw (append_assoc current (where_ ∷ []) l')))
      ]

  IsSmooth-snoc :
      (xs : List R) (a b c : R)
      → IsSmooth (xs ++ a ∷ b ∷ [])
      → cusp a b c ≡ false
      → IsSmooth (xs ++ a ∷ b ∷ c ∷ [])
  IsSmooth-snoc [] a b c s e = (e, tt)
  IsSmooth-snoc (x ∷ []) a b c s e = (s.0, (e, tt))
  IsSmooth-snoc (x ∷ y ∷ []) a b c s e = (s.0, IsSmooth-snoc (y ∷ []) a b c s.1 e)
  IsSmooth-snoc (x ∷ y ∷ z ∷ xs) a b c s e = (s.0, IsSmooth-snoc (y ∷ z ∷ xs) a b c s.1 e)

  cusps_smooth :
      (xs : List R) (a b : R) (l : List R)
      → IsSmooth (xs ++ a ∷ b ∷ [])
      → cusps (xs ++ a ∷ b ∷ l) ≡ cusps (a ∷ b ∷ l)
  cusps_smooth [] a b l s = refl
  cusps_smooth (x ∷ []) a b l s = rw s.0 (omega arith)
  cusps_smooth (x ∷ y ∷ []) a b l s = rw s.0 (omega (arith, cusps_smooth (y ∷ []) a b l s.1))
  cusps_smooth (x ∷ y ∷ z ∷ xs) a b l s =
      rw s.0 (omega (arith, cusps_smooth (y ∷ z ∷ xs) a b l s.1))

  -- A cusp at `where_` puts one more segment in front.
  IsCut-cons :
      (xs : List R) (before where_ after : R) (rest : List R) (ls : List (List R)) (l' : List R)
      (ls' : List (List R))
      → IsSmooth (xs ++ before ∷ where_ ∷ [])
      → cusp before where_ after ≡ true
      → ls ≡ (where_ ∷ l') ∷ ls'
      → IsCut (where_ ∷ after ∷ rest) ls
      → IsCut (xs ++ before ∷ where_ ∷ after ∷ rest) ((xs ++ before ∷ where_ ∷ []) ∷ ls)
  IsCut-cons xs before where_ after rest ls l' ls' s t e c = record {
    rejoined = rw e (
        ap₂ ◌++◌ shorter (rw e at c.rejoined)
        ∙ append_assoc xs (before ∷ []) (where_ ∷ after ∷ rest));
    linked = rw e (ended, rw e at c.linked);
    smooth = (s, c.smooth);
    long = (omega (arith, length-append xs (before ∷ where_ ∷ [])), c.long);
    counted =
        omega (arith, c.counted, cusps_smooth xs before where_ (after ∷ rest) s, counted_here);
  }
    where
      regroup : xs ++ before ∷ where_ ∷ [] ≡ (xs ++ before ∷ []) ++ where_ ∷ []
      regroup = sym (append_assoc xs (before ∷ []) (where_ ∷ []))

      shorter : drop_last (xs ++ before ∷ where_ ∷ []) ≡ xs ++ before ∷ []
      shorter = rw regroup (drop_last-append_one (xs ++ before ∷ []) where_)

      ended : last? (xs ++ before ∷ where_ ∷ []) ≡ some where_
      ended = rw regroup (last?-append_one (xs ++ before ∷ []) where_)

      counted_here : cusps (before ∷ where_ ∷ after ∷ rest) ≡ 1 + cusps (where_ ∷ after ∷ rest)
      counted_here = rw t

  -- The segments of a sequence whose beginning, up to `where_`, is smooth.
  pub segments-IsCut :
      (rest xs : List R) (before where_ : R)
      → IsSmooth (xs ++ before ∷ where_ ∷ [])
      → IsCut (xs ++ before ∷ where_ ∷ rest) (segments (xs ++ before ∷ []) before where_ rest)
  unfolding segments
  segments-IsCut [] xs before where_ s = rw (append_assoc xs (before ∷ []) (where_ ∷ [])) (record {
    rejoined = refl;
    linked = tt;
    smooth = (s, tt);
    long = (omega (arith, length-append xs (before ∷ where_ ∷ [])), tt);
    counted = omega (arith, cusps_smooth xs before where_ [] s);
  })
  segments-IsCut (after ∷ rest) xs before where_ s = elim (Bool-cases (cusp before where_ after)) [
    | inl t ↦ rw t (
        let (l', ls, e) = segments_head (where_ ∷ []) where_ after rest in
        rw (append_assoc xs (before ∷ []) (where_ ∷ [])) (
          IsCut-cons xs before where_ after rest (segments (where_ ∷ []) where_ after rest) l' ls s
            t e (segments-IsCut rest [] where_ after tt)))
    | inr f ↦ rw f (
        subst (λ l. IsCut l (segments ((xs ++ before ∷ []) ++ where_ ∷ []) where_ after rest))
          (append_assoc xs (before ∷ []) (where_ ∷ after ∷ rest))
          (segments-IsCut rest (xs ++ before ∷ []) where_ after (
            rw (append_assoc xs (before ∷ []) (where_ ∷ after ∷ []))
              (IsSmooth-snoc xs before where_ after s f))))
  ]
