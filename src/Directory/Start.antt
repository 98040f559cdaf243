-- ===== src/Directory/Start.antt =====
-- startMove and newLegID of internal/directory/moves.go, and Apply of transition.go.
use shunt.Base.{
  ℕ, zero, suc, ◌+◌, ◌-◌, ◌/◌, ◌%◌, Str, lit, is_empty, str_eq, Bool, false, ◌&&◌, ◌||◌, not,
  Option, none, some, List, [], ◌∷◌, ◌++◌, if◌then◌else◌, ◌==◌, ltb, leb, length, take, null,
  is_some, all, any, find, Map, has, put, sorted_keys, Result, ok, err, ◌>>=◌, unless,
}
use shunt.Base.Float.{pos, unit, flt}
use shunt.Directory.Types.{
  active, HashRange, ramp_hash, Placement, Owner, Leg, leg_of, name_of, spread, empty_placement,
  Err, illegal, Reason, prefix_in_scope, move_not_active, no_rule, name_keys, range_backwards,
  tiered, other_target, target_required, scope_split, leg_missing, leg_idle, range_spans,
  range_of_other, name_bucket, same_place, name_new_bucket, too_many_legs,
}
use shunt.Directory.Owners.{leading_share}
use shunt.Directory.Scopes.{scope_table, table_of, one_leg}
use shunt.Directory.Guards.{Transition, is_active}
use shunt.Directory.Moves.{
  max_legs, holds_range, bare, limit_ramp, apply_view, apply_with, step_move,
}

-- The decimal digits of a number, before the digits already written.
decimal_from : ℕ → ℕ → Str → Str
decimal_from zero n done = done
decimal_from (suc fuel) n done =
    let rest = decimal_from fuel (n / 10) ((b'0' + n % 10) ∷ done) in
    if ltb n 10 then (b'0' + n) ∷ done else rest

-- fmt.Sprint of a number; a number has fewer digits than it counts, and at least one.
decimal : ℕ → Str
unfolding decimal_from
decimal n = decimal_from (n + 1) n []

leg_start : ℕ → Bool
leg_start c = leb b'a' c && leb c b'z' || leb b'0' c && leb c b'9'

leg_char : ℕ → Bool
unfolding leg_start
leg_char c = leg_start c || c == b'_' || c == b'-'

-- legID.MatchString: ^[a-z0-9][a-z0-9_-]{0,62}$
unfoldable pub is_leg_id : Str → Bool
unfolding leg_start leg_char
is_leg_id [] = false
is_leg_id (c ∷ cs) = leg_start c && leb (length cs) 62 && all leg_char cs

-- The candidate tried after n - 1 others.
leg_candidate : Str → ℕ → Str
unfolding decimal
leg_candidate cluster n =
    let id = cluster ++ lit "-" ++ decimal n in
    if ltb 63 (length id)
    then take (63 - length (decimal n) - 1) cluster ++ lit "-" ++ decimal n
    else id

-- The loop of newLegID. The source's loop has no bound; a placement has at most 32 legs, so it ends
-- within that many rounds for a cluster whose name is a leg id, and the fuel is one more.
new_leg_id_from : ℕ → Map Leg → Str → ℕ → Str → Str
new_leg_id_from zero legs cluster n id = id
new_leg_id_from (suc fuel) legs cluster n id =
    let rest = new_leg_id_from fuel legs cluster (n + 1) (leg_candidate cluster n) in
    if not (has legs id) && is_leg_id id then id else rest

unfoldable pub new_leg_id : Map Leg → Str → Str
unfolding new_leg_id_from leg_candidate
new_leg_id legs cluster = new_leg_id_from (length legs + 1) legs cluster 2 cluster

-- The guards of startMove before it looks at the placement's form.
start_refused : Placement → Transition → Option Reason
start_refused p t =
    if not (is_active p.state)
    then some move_not_active
    else if not (is_empty t.scope) && not (any (λ r. str_eq r.prefix t.scope) p.prefixes)
    then some no_rule
    else if not (is_empty t.scope) && not (null t.prefixes)
    then some prefix_in_scope
    else if not (is_some t.range) && is_empty t.leg && is_empty t.scope
    then some name_keys
    else if elim t.range [ none ↦ false | some rg ↦ ltb rg.to rg.from ]
    then some range_backwards
    else none

-- The target that expand recorded on a plain placement.
recorded_target : Placement → Transition → Result Reason Transition
recorded_target p t =
    if is_empty p.target
    then ok t
    else if not (is_empty t.target) && not (str_eq t.target p.target)
    then err other_target
    else ok (record t {
      target = p.target;
      name = (if is_empty t.name then name_of p.names p.target else t.name);
    })

-- A plain placement becomes one leg that owns every key; a spread one stays.
to_legs : Placement → Transition → Result Reason (Placement × Transition)
unfolding recorded_target
to_legs p t =
    if spread p
    then ok (p, t)
    else if not (is_empty p.cold) || not (is_empty p.tier)
    then err tiered
    else (recorded_target p t >>= λ t'.
        ok (record (one_leg p) { key_hash = ramp_hash; target = lit "" }, t'))

-- The leg whose keys move, where neither a range nor a leg is named: the scope's only one.
scope_leg : List Owner → Transition → Result Reason Transition
scope_leg table t = if is_some t.range || not (is_empty t.leg) then ok t else elim table [
  | [] ↦ err scope_split
  | o ∷ rest ↦ if null rest then ok (record t { leg = o.leg }) else err scope_split
]

-- The range that moves: the one named, or the first that the leg owns.
leg_range : Map Leg → List Owner → Transition → Result Reason HashRange
leg_range legs table t = elim t.range [
  | some rg ↦ ok rg
  | none ↦
      if not (has legs t.leg)
      then err leg_missing
      else elim (find (λ o. str_eq o.leg t.leg) table) [
        | none ↦ err leg_idle
        | some o ↦ ok (record { from = o.from; to = o.to })
      ]
]

share_of : Transition → HashRange → HashRange
share_of t rg =
    if flt (pos 0) t.share && flt t.share (pos unit) then leading_share rg t.share else rg

-- The leg that owns all of the range: the last of the table that does.
source_leg : HashRange → List Owner → Str → Str
source_leg rg [] src = src
source_leg rg (o ∷ os) src = source_leg rg os (if holds_range rg o then o.leg else src)

source_of : HashRange → List Owner → Transition → Result Reason Str
unfolding source_leg
source_of rg table t =
    let src = source_leg rg table (lit "") in
    if is_empty src
    then err range_spans
    else if not (is_empty t.leg) && not (str_eq src t.leg)
    then err range_of_other
    else ok src

-- The legs on the target cluster: the last that fits the named bucket, and how many there are.
target_legs : Map Leg → Transition → List Str → Str × ℕ → Str × ℕ
target_legs legs t [] found = found
target_legs legs t (id ∷ ids) found =
    let l = leg_of legs id in
    target_legs legs t ids (
      if not (str_eq l.cluster t.target)
      then found
      else ((if is_empty t.name || str_eq t.name l.bucket then id else found.0), found.1 + 1))

-- The destination and the legs with it: an old leg, or a new one for the named bucket.
destination : Map Leg → Transition → Str → Result Reason (Str × Map Leg)
unfolding target_legs new_leg_id
destination legs t src =
    let (dst, on_target) = target_legs legs t (sorted_keys legs) (lit "", 0) in
    let id = new_leg_id legs t.target in
    let new_legs = put legs id (record { cluster = t.target; bucket = t.name }) in
    if is_empty t.name && ltb 1 on_target
    then err name_bucket
    else if str_eq dst src
    then err same_place
    else if is_empty dst && is_empty t.name
    then err name_new_bucket
    else if is_empty dst
    then (if ltb max_legs (length new_legs) then err too_many_legs else ok (id, new_legs))
    else if ltb max_legs (length legs)
    then err too_many_legs
    else ok (dst, legs)

-- What a move takes, and where.
pub record Plan : Type 0 where
  pub base : Placement
  pub step : Transition
  pub range : HashRange
  pub src : Str
  pub dst : Str

unfoldable pub plan_move : Placement → Transition → Result Reason Plan
unfolding start_refused to_legs scope_leg leg_range share_of source_of destination
plan_move p t = unless (start_refused p t) (
    to_legs p t >>= λ pt.
    let table = table_of (scope_table pt.0 t.scope) in
    unless (if is_empty pt.1.target then some target_required else none) (
      scope_leg table pt.1 >>= λ t1. leg_range pt.0.legs table t1 >>= λ rg0.
      let rg = share_of t1 rg0 in
      source_of rg table t1 >>= λ src. destination pt.0.legs t1 src >>= λ d.
      ok (record {
        base = record pt.0 { legs = d.1 };
        step = t1;
        range = rg;
        src = src;
        dst = d.0;
      })))

unfoldable pub start_move : Placement → Transition → Result Err Placement
unfolding plan_move
start_move p t = elim (plan_move p t) [
  | err why ↦ err (illegal p.state t.to why)
  | ok plan ↦
      let bucket = (leg_of plan.base.legs plan.dst).bucket in
      let view = record (empty_placement active) {
        primary = plan.src;
        names = (plan.src, (leg_of plan.base.legs plan.src).bucket) ∷ [];
      } in
      apply_view view (record (bare plan.step) { target = plan.dst; name = bucket }) >>= λ nv.
      ok (record plan.base {
        state = nv.state;
        barrier = nv.barrier;
        move = some (record {
          scope = plan.step.scope;
          range = plan.range;
          from = plan.src;
          to = plan.dst;
          ramp = limit_ramp plan.range nv.ramp;
          cutover = nv.cutover;
        });
      })
]

-- applyMove
unfoldable pub apply_move : Placement → Transition → Result Err Placement
unfolding start_move step_move
apply_move p t = elim p.move [ none ↦ start_move p t | some m ↦ step_move p m t ]

-- Apply
unfoldable pub apply : Placement → Transition → Result Err Placement
unfolding apply_move apply_with
apply = apply_with apply_move
