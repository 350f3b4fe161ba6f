-- ===== src/Observers/Delivery.antt =====
-- Whom the composite observer tells of an event (observers.cpp).
use mathlib.Core.List.{append-nil, append_assoc}
use trajex.Observers.{
  Notice, event, Handler, Composite, Left, guarded, tell_one, tell_each, tell, perform,
}
use trajex.Observers.Reentrancy.{result_of, run_lem, perform-Refuses}
use trajex.Prelude.{
  ℕ, suc, ◌≡◌, refl, sym, ap, ◌∙◌, subst, ◌⊎◌, inl, inr, true, false, List, [], ◌∷◌, ◌++◌, map,
  arith, ◌==◌, length, Error, Result, ok, err, Result-cases, fault,
}

module _ {O E : Type 0} (react : O → Notice E → List (O × Notice E) → Handler O E)
    (n : Notice E) where
  -- What an observer makes of the notice, after those that were told before it.
  abbrev pub answer : O → List (O × Notice E) → Result (Unit {0})
  answer o told = result_of (react o n (told ++ (o, n) ∷ []))

  abbrev pub notices : List O → List (O × Notice E)
  notices os = map (λ o. (o, n)) os

  -- Each of them returns, told one after the other.
  abbrev pub AllReturn : List (O × Notice E) → List O → Type 0
  AllReturn told [] = Unit
  AllReturn told (o ∷ os) = (answer o told ≡ ok tt) × AllReturn (told ++ (o, n) ∷ []) os

  -- Some of them returned, the next one threw, and was the last to be told.
  pub record IsStopped (c : Composite O E) (os : List O) (r : Left O E) : Type 0 where
    pub before : List O
    pub thrower : O
    pub after : List O
    pub thrown : Error
    pub order : os ≡ before ++ thrower ∷ after
    pub returned : AllReturn c.told before
    pub throws_it : answer thrower (c.told ++ notices before) ≡ err thrown
    pub left : r ≡ (record c { told = c.told ++ notices (before ++ thrower ∷ []) }, err thrown)

  -- All were told, and each returned; or one threw.
  abbrev pub IsDelivered : Composite O E → List O → Left O E → Type 0
  IsDelivered c os r =
      ((r ≡ (record c { told = c.told ++ notices os }, ok tt)) × AllReturn c.told os)
      ⊎ IsStopped c os r

module _ {O E : Type 0} (react : O → Notice E → List (O × Notice E) → Handler O E) where
  tell_one_lem :
      (m : ℕ) (n : Notice E) (o : O) (c : Composite O E)
      → c.dispatching ≡ true
      → tell_one react (perform react (suc m)) n o c
        ≡ (record c { told = c.told ++ (o, n) ∷ [] }, result_of (react o n (c.told ++ (o, n) ∷ [])))
  unfolding tell_one
  tell_one_lem m n o c b =
      run_lem (perform react (suc m)) (react o n (c.told ++ (o, n) ∷ []))
        (record c { told = c.told ++ (o, n) ∷ [] }) (perform-Refuses react m) b

  onward :
      (n : Notice E) (o : O) (os : List O) (c : Composite O E) (r : Left O E)
      → answer react n o c.told ≡ ok tt
      → IsDelivered react n (record c { told = c.told ++ (o, n) ∷ [] }) os r
      → IsDelivered react n c (o ∷ os) r
  onward n o os c r ok_o (inl (left, returned)) = inl (
    left
        ∙ ap (λ l. (record c { told = l }, ok tt))
            (append_assoc c.told ((o, n) ∷ []) (notices react n os)),
    (ok_o, returned),
  )
  onward n o os c r ok_o (inr h) =
      let regroup = append_assoc c.told ((o, n) ∷ []) in
      inr (record {
        before = o ∷ h.before;
        thrower = h.thrower;
        after = h.after;
        thrown = h.thrown;
        order = ap (λ l. o ∷ l) h.order;
        returned = (ok_o, h.returned);
        throws_it =
            subst (λ l. answer react n h.thrower l ≡ err h.thrown)
              (regroup (notices react n h.before)) h.throws_it;
        left =
            h.left
            ∙ ap (λ l. (record c { told = l }, err h.thrown))
                (regroup (notices react n (h.before ++ h.thrower ∷ [])));
      })

  tell_each-IsDelivered :
      (m : ℕ) (n : Notice E) (os : List O) (c : Composite O E)
      → c.dispatching ≡ true
      → IsDelivered react n c os (tell_each react (perform react (suc m)) n os c)
  unfolding tell_each
  tell_each-IsDelivered m n [] c b = inl (rw (append-nil c.told) refl, tt)
  tell_each-IsDelivered m n (o ∷ os) c b =
      let c' : Composite O E = record c { told = c.told ++ (o, n) ∷ [] } in
      let after : Left O E → Left O E = λ r. elim r.1 as (λ _. Left O E) [
        | err e ↦ (r.0, err e)
        | ok _ ↦ elim (length r.0.observers == length c.observers) as (λ _. Left O E) [
          | true ↦ tell_each react (perform react (suc m)) n os r.0
          | false ↦ (r.0, err fault)
        ]
      ] in
      let reaches =
        λ (x : Result (Unit {0})) (h : answer react n o c.told ≡ x)
            (k : IsDelivered react n c (o ∷ os) (after (c', x))).
          subst (λ r. IsDelivered react n c (o ∷ os) (after r))
            (sym (tell_one_lem m n o c b ∙ ap (λ y. (c', y)) h)) k in
      elim (Result-cases (answer react n o c.told)) [
        | inr (e, h) ↦ reaches (err e) h (
            inr (record {
              before = [];
              thrower = o;
              after = os;
              thrown = e;
              order = refl;
              returned = tt;
              throws_it = rw (append-nil c.told) h;
              left = refl;
            }))
        | inl (u, h) ↦
            let same : (length c.observers == length c.observers) ≡ true = ground arith in
            reaches (ok u) h (
              rw same (
                onward n o os c (tell_each react (perform react (suc m)) n os c') h
                  (tell_each-IsDelivered m n os c' b)))
      ]

  -- The flag is cleared behind it, whether it returned or threw.
  released :
      (c : Composite O E) (e : E) {r : Left O E}
      → IsDelivered react (event e) (record c { dispatching = true }) c.observers r
      → IsDelivered react
          (event e)
          (record c { dispatching = false })
          c.observers
          (record r.0 { dispatching = false }, r.1)
  released c e (inl (left, returned)) =
      inl (ap (λ (r : Left O E). (record r.0 { dispatching = false }, r.1)) left, returned)
  released c e (inr h) = inr (record {
    before = h.before;
    thrower = h.thrower;
    after = h.after;
    thrown = h.thrown;
    order = h.order;
    returned = h.returned;
    throws_it = h.throws_it;
    left = ap (λ (r : Left O E). (record r.0 { dispatching = false }, r.1)) h.left;
  })

  -- A composite that is not telling its observers of anything, and is handed an event, with room for
  -- two nested calls or more: it tells its observers in the order in which they were added, each once,
  -- whatever they call back. Either each of them returns, all are told and it returns; or it tells
  -- those up to the first that throws, which is the last one told, and throws what that one throws. It
  -- is then ready again and has the same observers, also if one threw.
  pub perform-IsDelivered :
      (m : ℕ) (c : Composite O E) (e : E)
      → c.dispatching ≡ false
      → IsDelivered react (event e) c c.observers (perform react (suc (suc m)) c (tell (event e)))
  unfolding perform guarded
  perform-IsDelivered m c e b =
      let on : Composite O E = record c { dispatching = true } in
      rw (b, perform, guarded)
        (released c e (tell_each-IsDelivered m (event e) c.observers on refl))
