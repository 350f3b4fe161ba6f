-- ===== src/Tests/Observing.antt =====
-- A composite of two observers. The first calls back whatever it is told of.
use trajex.Observers.{
  fatal, Notice, event, failure, add, tell, Handler, returns, throws, calls, Composite, perform,
}
use trajex.Observers.Delivery.{IsDelivered, perform-IsDelivered}
use trajex.Observers.Recursion.{perform-Ends}
use trajex.Prelude.{
  ℕ, ◌≡◌, refl, true, false, some, List, [], ◌∷◌, ◌==◌, if◌then◌else◌, err, off_the_path,
}

-- On an event it adds an observer, and ignores what is thrown; on a failure it calls on_failed.
abbrev react : ℕ → Notice ℕ → List (ℕ × Notice ℕ) → Handler ℕ ℕ
react o (event e) _ = calls (add (some 7)) λ _. returns
react o failure _ = calls (tell failure) λ _. returns

abbrev both : Composite ℕ ℕ
both = record { observers = 1 ∷ 2 ∷ []; dispatching = false; told = [] }

perform-IsDelivered_example :
    IsDelivered react (event 5) both (1 ∷ 2 ∷ []) (perform react 3 both (tell (event 5)))
perform-IsDelivered_example = perform-IsDelivered react 1 both 5 refl

perform-Ends_example : fatal (perform react 9 both (tell failure)).1 ≡ true
perform-Ends_example =
    perform-Ends react (λ _. returns) (λ o told. refl) 9 both 1 (2 ∷ []) refl refl

-- Observers of which the first throws.
abbrev refuse : ℕ → Notice ℕ → List (ℕ × Notice ℕ) → Handler ℕ ℕ
refuse o n _ = if o == 1 then throws off_the_path else returns

-- Then the second is not told, and the composite is ready again.
told_first :
    perform refuse 3 both (tell (event 5))
    ≡ (record both { told = (1, event 5) ∷ [] }, err off_the_path)
unfolding perform
told_first = refl
