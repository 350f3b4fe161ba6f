-- ===== src/Trajectory/Switching/Walking.antt =====
-- The cursors that walk along the path in the searches for switching points (trajectory.cpp).
use trajex.Double.{Double, le}
use trajex.Double.Ieee.{IsIeee, IsRounded}
use trajex.Path.{TotgPath, View, Cursor, seek}
use trajex.Path.Hint.{IsWellFormed}
use trajex.Path.Rich.{hint_view}
use trajex.Path.Rich.Settled.{OnPath, IsSettled, seek-position, seek-IsSettled}
use trajex.Path.Segment.{Segment}
use trajex.Trajectory.Integration.Advancing.{on-finite, hint_view-EndsBeyond}
use trajex.Prelude.{◌≡◌, true, arith, Holds}

module _ {D : Type 0} ⦃d : Double D⦄ (p : TotgPath (Segment D) D) where
  -- A cursor on the path, at the segment of its position.
  pub record Walks (c : Cursor D) : Type 0 where
    pub settled : IsSettled p c
    pub on_path : OnPath p c.position

  module _ (w : IsWellFormed p) (ieee : IsIeee D) (rounded : IsRounded D)
      (finite : d.is_finite p.total ≡ true) where
    -- The segment under it ends on the path, not before it.
    pub hint_view-Ends :
        (c : Cursor D)
        → Walks c
        → Holds
            (λ (v : View (Segment D) D). (le c.position v.stop ≡ true) × (le v.stop p.total ≡ true))
            (hint_view p c)
    hint_view-Ends c k =
        hint_view-EndsBeyond p w ieee rounded finite c.position c k.on_path
          (k.settled.settled (on-finite p w ieee rounded finite c.position k.on_path))
          (omega (arith, k.settled.inside))

    pub seek-Walks : (c : Cursor D) (s : D) → IsSettled p c → OnPath p s → Walks (seek p c s)
    seek-Walks c s k (from_zero, to_total) =
        let at_s : (seek p c s).position ≡ s = seek-position p c s (ground arith) (ground arith) in
        record { settled = seek-IsSettled p w ieee c s k; on_path = rw at_s (from_zero, to_total) }
