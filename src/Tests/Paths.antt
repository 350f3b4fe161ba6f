-- ===== src/Tests/Paths.antt =====
-- A path of two segments.
use mathlib.Core.Option.{some-injective}
use trajex.Prelude.{
  ℕ, zero, suc, ◌≤◌, ◌<◌, ◌≡◌, refl, subst, ◌⊎◌, none, some, [], ◌∷◌, arith, get_elem?,
}
use trajex.Double.Fixed.{Fixed, fixed, fixed_double}
use trajex.Path.{PositionedSegment, TotgPath, locate, update_hint}
use trajex.Path.Hint.{IsWellFormed, IsOnPath, update_hint-eq-locate, locate-between}

abbrev from_zero : PositionedSegment Unit Fixed
from_zero = record { seg = tt; start = fixed 0 }

abbrev from_five : PositionedSegment Unit Fixed
from_five = record { seg = tt; start = fixed 5 }

abbrev path : TotgPath Unit Fixed
path = record { segments = from_zero ∷ from_five ∷ []; dof = 1; total = fixed 9 }

path-bounded :
    (i : ℕ) (e : PositionedSegment Unit Fixed)
    → get_elem? path.segments i ≡ some e
    → fixed_double.rank e.start < 1009
path-bounded zero e h =
    subst (λ x. fixed_double.rank x.start < 1009) (some-injective from_zero e h) (omega arith)
path-bounded (suc zero) e h =
    subst (λ x. fixed_double.rank x.start < 1009) (some-injective from_five e h) (omega arith)
path-bounded (suc (suc i)) e h = cc

path-IsWellFormed : IsWellFormed path
path-IsWellFormed = record {
  increasing = (refl, omega arith, refl);
  total_number = refl;
  begins = λ e h.
      subst (λ x. fixed_double.rank x.start ≤ 1000) (some-injective from_zero e h) (omega arith);
  bounded = path-bounded;
}

three-IsOnPath : IsOnPath path (fixed 3)
three-IsOnPath = record { number = refl; from_zero = omega arith; to_total = omega arith }

update_hint-eq-locate_example : update_hint path (fixed 3) 1 ≡ locate path (fixed 3)
update_hint-eq-locate_example =
    update_hint-eq-locate path path-IsWellFormed (fixed 3) 1 three-IsOnPath (omega arith)

locate-between_example :
    (e : PositionedSegment Unit Fixed) × (get_elem? path.segments (locate path (fixed 3)) ≡ some e)
    × (fixed_double.rank e.start ≤ 1003)
    × ((get_elem? path.segments (suc (locate path (fixed 3))) ≡ none)
        ⊎ ((b : PositionedSegment Unit Fixed) × (get_elem? path.segments
                (suc (locate path (fixed 3)))
              ≡ some b)
            × (1003 < fixed_double.rank b.start)))
locate-between_example =
    locate-between path path-IsWellFormed (fixed 3) three-IsOnPath (omega arith)
