-- ===== src/Directory/Moves.antt =====
-- internal/directory/moves.go and the first part of Apply (transition.go): what a transition names,
-- and the later steps of a move of part of a bucket.
pub mod Views
use shunt.Base.{
  ℕ, lit, is_empty, str_eq, Bool, false, ◌&&◌, ◌||◌, not, Option, none, some, [], ◌∷◌,
  if◌then◌else◌, ◌==◌, leb, null, is_some, find, put, remove, Result, ok, err, ◌>>=◌,
}
use shunt.Base.Float.{Float64, pos, unit, is_zero, is_nan, flt}
use shunt.Directory.Types.{
  active, HashRange, full_range, Ramp, Placement, Owner, Move, Barrier, leg_of, name_of, cluster_of,
  spread, empty_placement, Err, illegal, Reason, share_outside, share_with_range, share_late,
  no_such_leg, other_range, other_leg, other_scope, other_share, prefix_in_scope, other_move_target,
  nested,
}
use shunt.Directory.Owners.{reassign, leading_share}
use shunt.Directory.Scopes.{scope_table, table_of, set_scope_table, owns_keys}
use shunt.Directory.Settle.{settle}
use shunt.Directory.Guards.{Transition, is_active}
use shunt.Directory.Transition.{apply_plain}

abbrev pub max_legs : ℕ
max_legs = 32

-- The legs, in the order of their ids, that settle records beside the owner: each on a cluster that
-- no bucket is named on yet, the first as the target.
pub limit_ramp : HashRange → Option Ramp → Option Ramp
limit_ramp rg none = none
limit_ramp rg (some r) = some (record r { range = some rg })

-- Placement.MoveView, for the move given.
unfoldable pub move_view : Placement → Move → Placement
unfolding limit_ramp
move_view p m =
    let from = leg_of p.legs m.from in
    let to = leg_of p.legs m.to in
    record (empty_placement p.state) {
      source = m.from;
      primary = m.to;
      names = put ((m.from, from.bucket) ∷ []) m.to to.bucket;
      leg_clusters = put ((m.from, from.cluster) ∷ []) m.to to.cluster;
      ramp = limit_ramp m.range m.ramp;
      cutover = m.cutover;
      created = p.created;
      read_only = p.read_only;
      reject_writes = p.reject_writes;
      barrier = p.barrier;
    }

abbrev pub range_eq : HashRange → HashRange → Bool
range_eq a b = a.from == b.from && a.to == b.to

abbrev pub holds_range : HashRange → Owner → Bool
holds_range rg o = leb o.from rg.from && leb rg.to o.to

same_share : Placement → Move → Float64 → Bool
same_share p m share =
    elim (find (λ o. str_eq o.leg m.from && holds_range m.range o)
      (table_of (scope_table p m.scope))) [
        | none ↦ false
        | some o ↦ range_eq (leading_share (record { from = o.from; to = o.to }) share) m.range
      ]

-- The first part of Apply: a share becomes a range, and the parts of a transition that name all of
-- a plain bucket are dropped.
resolve_share : Placement → Transition → Result Reason Transition
resolve_share p t =
    if is_zero t.share
    then ok t
    else if is_nan t.share || flt t.share (pos 0) || flt (pos unit) t.share
    then err share_outside
    else if is_some t.range
    then err share_with_range
    else if not (spread p) && not (is_active p.state)
    then err share_late
    else if not (spread p)
    then ok (record t { range = some (leading_share full_range t.share); share = pos 0 })
    else ok t

same_cluster : Placement → Transition → Transition
same_cluster p t =
    if not (spread p)
      && is_active p.state
      && not (is_empty t.target)
      && str_eq t.target p.primary
      && not (is_empty t.name)
      && not (str_eq t.name (name_of p.names p.primary))
    then record t { range = some full_range }
    else t

names_all : Option HashRange → Bool
names_all none = false
names_all (some rg) = range_eq rg full_range

whole_bucket : Placement → Transition → Transition
unfolding names_all
whole_bucket p t =
    if names_all t.range && not (spread p) && not (str_eq t.target p.primary)
    then record t { range = none }
    else t

plain_leg : Placement → Transition → Result Reason Transition
plain_leg p t =
    if not (is_empty t.leg) && not (spread p)
    then (if not (str_eq t.leg p.primary) then err no_such_leg else ok (record t { leg = lit "" }))
    else ok t

unfoldable pub prepare : Placement → Transition → Result Reason Transition
unfolding resolve_share same_cluster whole_bucket plain_leg
prepare p t = resolve_share p t >>= λ t'. plain_leg p (whole_bucket p (same_cluster p t'))

-- Whether a prepared transition is of part of a bucket.
unfoldable pub is_partial : Placement → Transition → Bool
is_partial p t = spread p || is_some t.range || not (is_empty t.scope)

-- Apply with the moves left to a given function.
unfoldable pub apply_with :
    (Placement → Transition → Result Err Placement) → Placement → Transition → Result Err Placement
unfolding prepare is_partial
apply_with moves p t = elim (prepare p t) [
  | err why ↦ err (illegal p.state t.to why)
  | ok t' ↦ if is_partial p t' then moves p t' else apply_plain p t'
]

-- The call of Apply that a move makes on its two-bucket view: a view is never partial.
unfoldable pub apply_view : Placement → Transition → Result Err Placement
unfolding apply_with
apply_view = apply_with (λ p t. err (illegal p.state t.to nested))

-- The guards of a later step of a move.
refused_move : Placement → Move → Transition → Option Reason
unfolding same_share
refused_move p m t =
    let v = move_view p m in
    if elim t.range [ none ↦ false | some rg ↦ not (range_eq rg m.range) ]
    then some other_range
    else if not (is_empty t.leg) && not (str_eq t.leg m.from)
    then some other_leg
    else if not (is_empty t.scope) && not (str_eq t.scope m.scope)
    then some other_scope
    else if not (is_zero t.share) && not (same_share p m t.share)
    then some other_share
    else if not (is_empty m.scope) && not (null t.prefixes)
    then some prefix_in_scope
    else if not (is_empty t.target) && not (str_eq t.target (cluster_of v v.primary))
    then some other_move_target
    else none

abbrev pub bare : Transition → Transition
bare t = record t {
  range = none;
  leg = lit "";
  scope = lit "";
  target = lit "";
  name = lit "";
  share = pos 0;
}

-- The end of a move: the destination owns the range, and a source left owning nothing goes.
unfoldable pub finish_move : Placement → Move → Option Barrier → Placement
finish_move p m b =
    let table = reassign (table_of (scope_table p m.scope)) m.range m.to in
    let np =
      set_scope_table (record p { state = active; move = none; barrier = b }) m.scope table in
    settle (if not (owns_keys np m.from) then record np { legs = remove np.legs m.from } else np)

-- The placement after a step of its move, from the view after the step.
unfoldable pub after_move : Placement → Move → Transition → Placement → Placement
unfolding finish_move limit_ramp
after_move p m t nv =
    if is_active nv.state
    then (if t.release
        then settle (record p { state = active; move = none; barrier = nv.barrier })
        else finish_move p m nv.barrier)
    else record p {
      barrier = nv.barrier;
      state = nv.state;
      move = some (record m { ramp = limit_ramp m.range nv.ramp; cutover = nv.cutover });
    }

unfoldable pub step_move : Placement → Move → Transition → Result Err Placement
unfolding refused_move after_move
step_move p m t = elim (refused_move p m t) [
  | some why ↦ err (illegal p.state t.to why)
  | none ↦ apply_view (move_view p m) (bare t) >>= λ nv. ok (after_move p m (bare t) nv)
]
