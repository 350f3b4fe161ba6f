-- ===== src/Prelude/Results.antt =====
-- Exceptions as values. One constructor of `Error` stands for one `throw` statement or for the
-- family of `throw` statements with one message.
use mathlib.Core.Path.{◌≡◌, refl, subst}
use mathlib.Core.Logic.{◌⊎◌, inl, inr}
use mathlib.Core.Bool.{Bool, true, false}
use mathlib.Core.Option.{Option, none, some}

pub data Error : Type 0 where
  -- std::invalid_argument
  empty_waypoints dof_mismatch seam_mismatch empty_batch bad_sample_rate : Error
  bad_duration_or_frequency non_finite_samples negative_start start_past_end : Error
  null_observer empty_path off_the_path times_not_increasing : Error
  velocity_dof acceleration_dof bad_velocity bad_acceleration bad_delta : Error
  bad_epsilon bad_tcp_speed no_tcp_evaluator : Error
  too_few_waypoints bad_blend_deviation bad_linear_deviation bad_min_curvature : Error
  bad_max_curvature curvatures_crossed coincident_ends length_not_positive : Error
  not_unit_vectors not_perpendicular no_path span_size : Error
  arc_lengths_decrease first_time_not_zero : Error
  -- std::out_of_range
  outside_segment cursor_at_sentinel : Error
  index_out_of_range count_exceeds_size store_empty arc_length_exceeds : Error
  -- std::bad_function_call
  bad_function_call : Error
  -- undefined behaviour; std::terminate; more calls nested than the stack has room for
  fault terminated stack_exhausted : Error
  -- std::runtime_error
  infeasible_acceleration bad_tcp_ratio singular_slope infinite_slope no_progress : Error
  reentrant no_segments before_path_start infeasible_bounds : Error
  forward_not_increasing forward_stalled no_switching_progress : Error
  no_forward_trajectory switching_at_start switching_behind backward_not_decreasing : Error
  backward_reached_start bracket_exceeded straddle_lost no_splice_velocity no_splice_time : Error
  limit_not_positive limit_exceeded : Error
  -- what a build of a trajectory throws
  build_failed : Error

pub data Result {ℓ} (A : Type ℓ) : Type ℓ where
  ok : A → Result A
  err : Error → Result A

-- What stands behind a throwing statement runs only if it did not throw.
infixl 5 ◌>>=◌ ◌>>◌
abbrev pub ◌>>=◌ {ℓ ℓ'} : {V : Type ℓ} {W : Type ℓ'} → Result V → (V → Result W) → Result W
err thrown >>= rest = err thrown
ok value >>= rest = rest value

abbrev pub ◌>>◌ {ℓ} : {W : Type ℓ} → Result (Unit {0}) → Result W → Result W
err thrown >> rest = err thrown
ok _ >> rest = rest

-- `if (refused) throw e;`
abbrev pub throw_if : Bool → Error → Result (Unit {0})
throw_if true e = err e
throw_if false e = ok tt

pub Result-cases {ℓ} :
    {A : Type ℓ} (r : Result A) → ((a : A) × (r ≡ ok a)) ⊎ ((e : Error) × (r ≡ err e))
Result-cases (ok a) = inl (a, refl)
Result-cases (err e) = inr (e, refl)

-- A property of what a result holds, if it holds something.
abbrev pub Holds {ℓ} : {A : Type ℓ} → (A → Type 0) → Result A → Type 0
Holds P (ok a) = P a
Holds P (err _) = Unit

pub Holds-bind {ℓ ℓ'} :
    {A : Type ℓ} {B : Type ℓ'} (P : A → Type 0) (Q : B → Type 0) (m : Result A) (f : A → Result B)
    → Holds P m
    → ((a : A) → P a → Holds Q (f a))
    → Holds Q (m >>= f)
Holds-bind P Q (ok a) f h g = g a h
Holds-bind P Q (err e) f h g = tt

pub Holds-all {ℓ} : {A : Type ℓ} (P : A → Type 0) (m : Result A) → ((a : A) → P a) → Holds P m
Holds-all P (ok a) h = h a
Holds-all P (err e) h = tt

pub Holds-map {ℓ} :
    {A : Type ℓ} (P Q : A → Type 0) (m : Result A) → Holds P m → ((a : A) → P a → Q a) → Holds Q m
Holds-map P Q (ok a) h g = g a h
Holds-map P Q (err e) h g = tt

pub Holds-at {ℓ} : {A : Type ℓ} (P : A → Type 0) (m : Result A) {a : A} → Holds P m → m ≡ ok a → P a
Holds-at P (ok b) h e = subst P (cc e) h
Holds-at P (err x) h e = cc

pub Holds-throw_if {ℓ} :
    {A : Type ℓ} (Q : A → Type 0) (test : Bool) (e : Error) (m : Result A)
    → (test ≡ false → Holds Q m)
    → Holds Q (throw_if test e >> m)
Holds-throw_if Q true e m h = tt
Holds-throw_if Q false e m h = h refl

pub Holds-then {ℓ} :
    {A : Type ℓ} (Q : A → Type 0) (m : Result (Unit {0})) (k : Result A)
    → Holds Q k
    → Holds Q (m >> k)
Holds-then Q (ok u) k h = h
Holds-then Q (err e) k h = tt

-- A property of what an option holds, if it holds something.
abbrev pub OrNone {ℓ} : {A : Type ℓ} → (A → Type 0) → Option A → Type 0
OrNone P none = Unit
OrNone P (some a) = P a

pub Holds-some {ℓ} :
    {A : Type ℓ} (P : A → Type 0) (m : Result A)
    → Holds P m
    → Holds (OrNone P) (m >>= λ a. ok (some a))
Holds-some P (ok a) h = h
Holds-some P (err e) h = tt

-- Of what the last of two computations returns, whatever the first one does.
pub Holds-any {ℓ ℓ'} :
    {A : Type ℓ} {B : Type ℓ'} (Q : B → Type 0) (m : Result A) (f : A → Result B)
    → ((a : A) → Holds Q (f a))
    → Holds Q (m >>= f)
Holds-any Q (ok a) f g = g a
Holds-any Q (err e) f g = tt

-- The same, where the second one knows what the first has returned.
pub Holds-known {ℓ} :
    {A : Type 0} {B : Type ℓ} (Q : B → Type 0) (m : Result A) (f : A → Result B)
    → ((a : A) → m ≡ ok a → Holds Q (f a))
    → Holds Q (m >>= f)
Holds-known Q (ok a) f g = g a refl
Holds-known Q (err e) f g = tt

pub OrNone-map :
    {A : Type 0} (P Q : A → Type 0) (o : Option A) → OrNone P o → ((a : A) → P a → Q a) → OrNone Q o
OrNone-map P Q none h g = tt
OrNone-map P Q (some a) h g = g a h

-- What an option chooses.
pub elim-option :
    {A B : Type 0} (P : A → Type 0) (Q : B → Type 0) (o : Option A) {n : B} {s : A → B}
    → OrNone P o
    → Q n
    → ((a : A) → P a → Q (s a))
    → Q (elim o [ none ↦ n | some a ↦ s a ])
elim-option P Q none h k g = k
elim-option P Q (some a) h k g = g a h

-- A result is what it holds.
pub Holds-self : {A : Type 0} (m : Result A) → Holds (λ a. m ≡ ok a) m
Holds-self (ok a) = refl
Holds-self (err e) = tt

pub Holds-both {ℓ} :
    {A : Type ℓ} (P Q : A → Type 0) (m : Result A)
    → Holds P m
    → Holds Q m
    → Holds (λ a. P a × Q a) m
Holds-both P Q (ok a) h k = (h, k)
Holds-both P Q (err e) h k = tt
