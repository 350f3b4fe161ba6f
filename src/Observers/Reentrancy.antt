-- ===== src/Observers/Reentrancy.antt =====
-- What the composite observer answers while it tells its observers of an event (observers.cpp).
use trajex.Observers.{
  reentrant, null_observer, Notice, event, failure, Call, add, tell, Handler, returns, throws,
  calls, Composite, Left, is_fatal, fatal, guarded, add_observer, run, perform,
}
use trajex.Prelude.{ℕ, suc, ◌≡◌, refl, ap, ◌∙◌, true, false, none, some, List, Result, ok, err}

module _ {O E : Type 0} where
  -- The answer to a call, and whether it is one that a handler can catch.
  abbrev pub refusal : Call O E → Result (Unit {0})
  refusal (add none) = err null_observer
  refusal (add (some o)) = err reentrant
  refusal (tell (event e)) = err reentrant
  refusal (tell failure) = ok tt

  abbrev pub Refuses : (Composite O E → Call O E → Left O E) → Type 0
  Refuses inner =
      (c : Composite O E) → c.dispatching ≡ true → (x : Call O E) → inner c x ≡ (c, refusal x)

  refusal-fatal : (x : Call O E) → fatal (refusal x) ≡ false
  unfolding is_fatal
  refusal-fatal (add none) = refl
  refusal-fatal (add (some o)) = refl
  refusal-fatal (tell (event e)) = refl
  refusal-fatal (tell failure) = refl

  -- What a handler returns whose calls are refused.
  abbrev pub result_of : Handler O E → Result (Unit {0})
  result_of returns = ok tt
  result_of (throws e) = err e
  result_of (calls x k) = result_of (k (refusal x))

  pub run_lem :
      (inner : Composite O E → Call O E → Left O E) (h : Handler O E) (c : Composite O E)
      → Refuses inner
      → c.dispatching ≡ true
      → run inner h c ≡ (c, result_of h)
  unfolding run
  run_lem inner returns c r b = refl
  run_lem inner (throws e) c r b = refl
  run_lem inner (calls x k) c r b =
      let after : Left O E → Left O E =
        λ q. elim (fatal q.1) as (λ _. Left O E) [ true ↦ q | false ↦ run inner (k q.1) q.0 ] in
      ap after (r c b x) ∙ rw (refusal-fatal x) (run_lem inner (k (refusal x)) c r b)

module _ {O E : Type 0} (react : O → Notice E → List (O × Notice E) → Handler O E) where
  -- While a composite is dispatching, a call leaves it as it is: add_observer throws, as does each
  -- handler but on_failed, which returns.
  pub perform-Refuses :
      (n : ℕ) (c : Composite O E)
      → c.dispatching ≡ true
      → (x : Call O E) → perform react (suc n) c x ≡ (c, refusal x)
  unfolding perform guarded add_observer
  perform-Refuses n c b (add none) = refl
  perform-Refuses n c b (add (some o)) = rw (b, perform, add_observer, guarded) refl
  perform-Refuses n c b (tell (event e)) = rw (b, perform, guarded) refl
  perform-Refuses n c b (tell failure) = rw (b, perform) refl
