-- ===== src/Directory/Moves/Views.antt =====
-- Apply on the two-bucket view of a move.
use shunt.Base.{◌≡◌, refl, Result, arith, false}
use shunt.Base.Float.{is_zero}
use shunt.Directory.Types.{Placement, Move, Err, spread}
use shunt.Directory.Guards.{Transition}
use shunt.Directory.Transition.{apply_plain}
use shunt.Directory.Moves.{
  move_view, bare, prepare, is_partial, apply_with, resolve_share, same_cluster, whole_bucket,
  plain_leg,
}

view-spread : (p : Placement) (m : Move) → spread (move_view p m) ≡ false
unfolding spread move_view
view-spread p m = refl

-- Apply, called on the view of a move by a later step of that move, is the step of a plain placement,
-- whatever it does for a placement that a move is for.
pub apply_with-apply_plain :
    (moves : Placement → Transition → Result Err Placement) (p : Placement) (m : Move)
    (t : Transition)
    → apply_with moves (move_view p m) (bare t) ≡ apply_plain (move_view p m) (bare t)
unfolding apply_with prepare is_partial is_zero resolve_share same_cluster whole_bucket plain_leg
apply_with-apply_plain moves p m t = ground (arith, view-spread p m)
