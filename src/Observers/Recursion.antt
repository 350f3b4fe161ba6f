-- ===== src/Observers/Recursion.antt =====
-- on_failed of the composite observer (observers.cpp), called back from on_failed.
use trajex.Observers.{
  Call, Notice, failure, Handler, calls, Composite, Left, tell, is_fatal, fatal, run, tell_one,
  tell_each, terminate, perform,
}
use trajex.Prelude.{
  ℕ, zero, suc, ◌≡◌, refl, sym, subst, inl, inr, true, false, List, [], ◌∷◌, ◌++◌, if◌then◌else◌,
  Result, ok, err, Result-cases,
}

module _ {O E : Type 0} (react : O → Notice E → List (O × Notice E) → Handler O E) where
  -- A call that no handler can catch the end of.
  abbrev Ends : Left O E → Type 0
  Ends r = fatal r.1 ≡ true

  terminate-Ends : (r : Left O E) → Ends r → Ends (terminate react r)
  unfolding is_fatal
  terminate-Ends (c, ok u) h = absurd (cc h)
  terminate-Ends (c, err e) h = refl

  tell_each-Ends :
      (inner : Composite O E → Call O E → Left O E) (n : Notice E) (o : O) (os : List O)
      (c : Composite O E)
      → Ends (tell_one react inner n o c)
      → Ends (tell_each react inner n (o ∷ os) c)
  unfolding tell_each
  tell_each-Ends inner n o os c h = elim (Result-cases (tell_one react inner n o c).1) [
    | inl (u, f) ↦ absurd (let g : fatal (ok u) ≡ true = subst (λ r. fatal r ≡ true) f h in cc g)
    | inr (e, f) ↦ rw (f, tell_each) (subst (λ r. fatal r ≡ true) f h)
  ]

  -- Each observer calls on_failed of the composite whenever it is told of a failure. Then on_failed of
  -- the composite, if it has an observer and is not telling of an event, does not return, however many
  -- calls may nest: it ends the program.
  pub perform-Ends :
      (k : Result (Unit {0}) → Handler O E)
      → ((o : O) (told : List (O × Notice E)) → react o failure told ≡ calls (tell failure) k)
      → (n : ℕ) (c : Composite O E) (first : O) (rest : List O) → c.dispatching ≡ false
      → c.observers ≡ first ∷ rest
      → fatal (perform react n c (tell failure)).1 ≡ true
  unfolding perform run is_fatal tell_one
  perform-Ends k back zero c first rest b e = refl
  perform-Ends k back (suc n) c first rest b e =
      let c' : Composite O E = record c { told = c.told ++ (first, failure) ∷ [] } in
      let deeper : Ends (perform react n c' (tell failure)) =
        perform-Ends k back n c' first rest b e in
      let one : Ends (tell_one react (perform react n) failure first c) =
        rw (back first c'.told, tell_one, run) (rw deeper deeper) in
      let each : Ends (tell_each react (perform react n) failure c.observers c) =
        subst (λ l. Ends (tell_each react (perform react n) failure l c)) (sym e)
          (tell_each-Ends (perform react n) failure first rest c one) in
      subst
        (λ t. Ends (
          if t
          then (c, ok tt)
          else terminate react (tell_each react (perform react n) failure c.observers c)))
        (sym b) (terminate-Ends _ each)
