-- ===== src/Observers.antt =====
-- src/viam/trajex/totg/observers.{hpp,cpp}: the observer that hands each event of an integration on to
-- others. What an observer does when it is told of something is a
-- tree of its calls back into the composite, which may depend on what each call returned and on all
-- that the observers were told before; `react` is that tree. Calls nest to a depth, which stands for
-- the stack. A pointer to an observer is an `O`.
pub mod Reentrancy
pub mod Delivery
pub mod Recursion
use trajex.Prelude.{
  ℕ, zero, suc, ◌+◌, ◌-◌, ◌*◌, ◌/◌, ◌%◌, ◌≤◌, ◌<◌, ◌≡◌, refl, sym, ap, ◌∙◌, subst, ◌≢◌, ◌↔◌, ◌⊎◌,
  inl, inr, Bool, true, false, not, ◌&&◌, ◌||◌, Option, none, some, List, [], ◌∷◌, ◌++◌, map, arith,
  ltb, leb, ◌==◌, if◌then◌else◌, Bool-cases, Option-cases, length, get_elem?, take, drop, drop_last,
  last?, All, length-append, length-take, length-drop, take-length, last?-append_one,
  drop_last-append_one, length-drop_last, All-append, All-drop, All-take, All-last?, zero_cases,
  get_elem?-some, length-map, take-append_le, replicate, length-replicate, All-replicate,
  All-get_elem?, Error, Result, ok, err, ◌>>=◌, ◌>>◌, throw_if, Result-cases, Holds, Holds-bind,
  Holds-all, Holds-map, Holds-at, Holds-throw_if, Holds-then, null_observer, fault, terminated,
  stack_exhausted, reentrant,
}

-- What an observer is told of: an event, or on_failed.
pub data Notice (E : Type 0) : Type 0 where
  event : E → Notice E
  failure : Notice E

-- A call of the composite: add_observer, whose pointer may be null, or a handler.
pub data Call (O E : Type 0) : Type 0 where
  add : Option O → Call O E
  tell : Notice E → Call O E

-- What a handler does.
pub data Handler (O E : Type 0) : Type 0 where
  returns : Handler O E
  throws : Error → Handler O E
  calls : Call O E → (Result (Unit {0}) → Handler O E) → Handler O E

-- composite_integration_observer, with a record of whom it told of what.
pub record Composite (O E : Type 0) : Type 0 where
  pub observers : List O
  pub dispatching : Bool
  pub told : List (O × Notice E)

-- What a call leaves.
abbrev pub Left : Type 0 → Type 0 → Type 0
Left O E = Composite O E × Result (Unit {0})

-- What no handler can catch: undefined behaviour, std::terminate, and a stack that is used up.
unfoldable pub is_fatal : Error → Bool
is_fatal fault = true
is_fatal terminated = true
is_fatal stack_exhausted = true
is_fatal _ = false

abbrev pub fatal : Result (Unit {0}) → Bool
fatal (ok u) = false
fatal (err e) = is_fatal e

module _ {O E : Type 0} where
  -- A call behind a reentrancy_guard, which is destroyed on every way out.
  unfoldable pub guarded : Composite O E → (Composite O E → Left O E) → Left O E
  guarded c body =
      if c.dispatching
      then (c, err reentrant)
      else let r = body (record c { dispatching = true }) in
        (record r.0 { dispatching = false }, r.1)

  -- composite_integration_observer::add_observer
  unfoldable pub add_observer : Composite O E → Option O → Left O E
  unfolding guarded
  add_observer c none = (c, err null_observer)
  add_observer c (some o) =
      guarded c λ c'. (record c' { observers = c'.observers ++ o ∷ [] }, ok tt)

  -- A handler, whose calls of the composite are made by `inner`.
  unfoldable pub run :
      (Composite O E → Call O E → Left O E) → Handler O E → Composite O E → Left O E
  run inner returns c = (c, ok tt)
  run inner (throws e) c = (c, err e)
  run inner (calls x k) c =
      let r = inner c x in elim (fatal r.1) [ true ↦ r | false ↦ run inner (k r.1) r.0 ]

module _ {O E : Type 0} (react : O → Notice E → List (O × Notice E) → Handler O E) where
  -- One observer is told.
  unfoldable pub tell_one :
      (Composite O E → Call O E → Left O E) → Notice E → O → Composite O E → Left O E
  unfolding run
  tell_one inner n o c =
      let c' : Composite O E = record c { told = c.told ++ (o, n) ∷ [] } in
      run inner (react o n c'.told) c'

  -- The loop over the observers. One that is added meanwhile moves them in memory, and what the
  -- loop then reads is a fault.
  unfoldable pub tell_each :
      (Composite O E → Call O E → Left O E) → Notice E → List O → Composite O E → Left O E
  unfolding tell_one
  tell_each inner n [] c = (c, ok tt)
  tell_each inner n (o ∷ os) c =
      let r = tell_one inner n o c in
      elim r.1 [
        | err e ↦ (r.0, err e)
        | ok _ ↦ elim (length r.0.observers == length c.observers) [
          | true ↦ tell_each inner n os r.0
          | false ↦ (r.0, err fault)
        ]
      ]

  -- on_failed is noexcept: a handler that throws ends the program.
  abbrev pub terminate : Left O E → Left O E
  terminate (c, ok u) = (c, ok u)
  terminate (c, err e) = (c, err terminated)

  -- A call of the composite, where so many calls may still nest.
  unfoldable pub perform : ℕ → Composite O E → Call O E → Left O E
  unfolding add_observer guarded tell_each
  perform zero c x = (c, err stack_exhausted)
  perform (suc n) c (add o) = add_observer c o
  perform (suc n) c (tell (event e)) =
      guarded c λ c'. tell_each (perform n) (event e) c'.observers c'
  perform (suc n) c (tell failure) =
      if c.dispatching then (c, ok tt) else terminate (tell_each (perform n) failure c.observers c)
