-- ===== src/Directory/Schema.antt =====
-- internal/directory/legs.go: the two schemas of a placement: checkV2, checkSpread, fromV2 and ToV2. An
-- error keeps no text, so that a check is a test and fromV2 gives nothing where it fails. A map that is
-- nil reads as an empty one, and a loop over sorted keys as one in the order of the map.
pub mod Names
pub mod Roundtrip
use shunt.Base.{
  ℕ, Str, is_empty, str_eq, Bool, true, false, ◌&&◌, ◌||◌, not, Option, none, some, List, [], ◌∷◌,
  if◌then◌else◌, ltb, leb, ◌==◌, any, all, null, length, is_some, Map, get, put, has,
}
use shunt.Directory.Types.{full_range, Ramp, Leg, Owner, Move, Placement, spread, leg_of}
use shunt.Directory.Guards.{is_active, is_ramping, is_cutover}
use shunt.Directory.Owners.{check_owners}
use shunt.Directory.Scopes.{scope_table, table_of, check_prefixes}
use shunt.Directory.Moves.{max_legs, range_eq, holds_range}
use shunt.Directory.Start.{is_leg_id}

hash_char : ℕ → Bool
hash_char c = (leb b'a' c && leb c b'z') || (leb b'0' c && leb c b'9')

-- validRampHashName
unfoldable pub valid_ramp_hash_name : Str → Bool
unfolding hash_char
valid_ramp_hash_name [] = false
valid_ramp_hash_name (c ∷ cs) =
    leb (length cs) 63 && hash_char c && all (λ d. hash_char d || d == b'-') cs

-- isV2
unfoldable pub is_v2 : Placement → Bool
is_v2 p = not (null p.legs) || not (null p.owners) || is_some p.move || not (null p.prefixes)

unfoldable pub leg_ok : Str × Leg → Bool
leg_ok (id, l) = is_leg_id id && not (is_empty l.cluster) && not (is_empty l.bucket)

unfoldable pub move_legs_ok : Map Leg → Option Move → Bool
move_legs_ok legs none = true
move_legs_ok legs (some m) =
    leb m.range.from m.range.to && has legs m.from && has legs m.to && not (str_eq m.from m.to)

unfoldable pub check_v2 : Placement → Bool
check_v2 p =
    not (null p.legs)
    && leb (length p.legs) max_legs
    && all leg_ok p.legs
    && (is_empty p.key_hash || valid_ramp_hash_name p.key_hash)
    && not (ltb 1 (length p.owners) && is_empty p.key_hash)
    && not (is_some (check_owners p.owners p.legs))
    && check_prefixes p
    && move_legs_ok p.legs p.move
    && (is_empty p.target || has p.legs p.target)
    && (is_empty p.cold || has p.legs p.cold)

prefix_ramp : Option Ramp → Bool
prefix_ramp none = false
prefix_ramp (some r) =
    not (null r.prefixes) || (elim r.hold [ none ↦ false | some h ↦ not (null h.prefixes) ])

-- The checks of a spread placement's move.
spread_move_ok : Placement → Move → Bool
unfolding prefix_ramp
spread_move_ok p m =
    is_some (scope_table p m.scope)
    && any (λ o. str_eq o.leg m.from && holds_range m.range o) (table_of (scope_table p m.scope))
    && not (not (is_empty m.scope) && prefix_ramp m.ramp)
    && not (is_ramping p.state && not (is_some m.ramp))
    && not (not (is_ramping p.state) && is_some m.ramp)
    && not (not (is_cutover p.state) && is_some m.cutover)

unfoldable pub check_spread : Placement → Bool
unfolding spread_move_ok
check_spread p =
    is_empty p.target
    && is_empty p.cold
    && is_empty p.tier
    && is_empty p.lifecycle
    && not (is_active p.state && is_some p.move)
    && not (not (is_active p.state) && not (is_some p.move))
    && (elim p.move [ none ↦ true | some m ↦ spread_move_ok p m ])

same_cluster_legs : Option Leg → Option Leg → Bool
same_cluster_legs none b = false
same_cluster_legs (some a) none = false
same_cluster_legs (some a) (some b) = str_eq a.cluster b.cluster

-- sameClusterMove
unfoldable pub same_cluster_move : Placement → Move → Bool
unfolding same_cluster_legs
same_cluster_move p m = same_cluster_legs (get p.legs m.from) (get p.legs m.to)

-- A placement that keeps its v2 fields in memory.
unfoldable pub stays_v2 : Placement → Bool
unfolding same_cluster_move
stays_v2 p = ltb 1 (length p.owners) || not (null p.prefixes) || (elim p.move [
  | none ↦ false
  | some m ↦ not (range_eq m.range full_range) || same_cluster_move p m
])

-- The names of the legs' buckets by their clusters; nothing where two legs share a cluster.
unfoldable pub leg_names : Map Leg → Map Str → Option (Map Str)
leg_names [] names = some names
leg_names ((id, l) ∷ legs) names =
    let rest = leg_names legs (put names l.cluster l.bucket) in
    if has names l.cluster then none else rest

unfoldable pub first_leg : List Owner → Str
first_leg [] = []
first_leg (o ∷ os) = o.leg

-- A leg's cluster, for a role that names a leg.
unfoldable pub role_cluster : Placement → Str → Str
role_cluster p role = if is_empty role then role else (leg_of p.legs role).cluster

-- The v1 fields that do not depend on the state.
unfoldable pub v1_fields : Placement → Map Str → Placement
unfolding role_cluster
v1_fields p names = record p {
  legs = [];
  owners = [];
  move = none;
  key_hash = [];
  names = names;
  target = role_cluster p p.target;
  cold = role_cluster p p.cold;
}

unfoldable pub moving_v1 : Placement → Move → Str → Placement → Option Placement
moving_v1 p m owner v1 =
    if not (range_eq m.range full_range)
    then none
    else if not (str_eq m.from owner)
    then none
    else some (record v1 {
      source = (leg_of p.legs m.from).cluster;
      primary = (leg_of p.legs m.to).cluster;
      ramp = m.ramp;
      cutover = m.cutover;
    })

unfoldable pub v1_of : Placement → Map Str → Option Placement
unfolding v1_fields first_leg moving_v1
v1_of p names = elim p.move [
  | some m ↦
      if is_active p.state then none else moving_v1 p m (first_leg p.owners) (v1_fields p names)
  | none ↦
      if is_active p.state
      then some
          (record (v1_fields p names) { primary = (leg_of p.legs (first_leg p.owners)).cluster })
      else none
]

-- A placement that names its buckets in the fields of v1.
unfoldable pub names_v1 : Placement → Bool
names_v1 p =
    not (is_empty p.primary)
    || not (is_empty p.source)
    || not (null p.names)
    || is_some p.ramp
    || is_some p.cutover

unfoldable pub from_v2 : Placement → Option Placement
from_v2 p =
    if not (is_v2 p)
    then some p
    else if names_v1 p
    then none
    else if not (check_v2 p)
    then none
    else if stays_v2 p
    then (if check_spread p then some p else none)
    else elim (leg_names p.legs []) [ none ↦ none | some names ↦ v1_of p names ]

unfoldable pub legs_of_names : Map Str → Map Leg
legs_of_names [] = []
legs_of_names ((cl, bucket) ∷ names) =
    (cl, record { cluster = cl; bucket = bucket }) ∷ legs_of_names names

unfoldable pub full_owner : Str → List Owner
full_owner leg = record { from = full_range.from; to = full_range.to; leg = leg } ∷ []

-- The move of a placement that is not ACTIVE.
unfoldable pub whole_move : Placement → Move
whole_move p = record {
  scope = [];
  range = full_range;
  from = p.source;
  to = p.primary;
  ramp = p.ramp;
  cutover = p.cutover;
}

-- ToV2. The copies of a ramp and of evidence are values.
unfoldable pub to_v2 : Placement → Placement
unfolding legs_of_names full_owner whole_move
to_v2 p =
    let v2 : Placement = record p {
      primary = [];
      source = [];
      names = [];
      ramp = none;
      cutover = none;
      legs = legs_of_names p.names;
    } in
    if spread p
    then p
    else if is_active p.state
    then record v2 { owners = full_owner p.primary }
    else record v2 { owners = full_owner p.source; move = some (whole_move p) }
