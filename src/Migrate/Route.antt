-- ===== src/Migrate/Route.antt =====
-- internal/migrate/route.go: which of a placement's two clusters a request goes to.
pub mod Growth
pub mod Handover
pub mod Homes
use shunt.Base.{
  ℕ, ◌+◌, ◌-◌, ◌*◌, ◌/◌, ◌^◌, Str, is_empty, str_eq, has_prefix, Bool, true, false, ◌&&◌, ◌||◌, not,
  Option, none, some, any, List, [], ◌∷◌, if◌then◌else◌, leb, ltb, Result, ok, err, ◌>>=◌,
}
use shunt.Base.Float.{Float64, is_nan, le_zero, ge_one, magnitude, round53, unit}
use shunt.Directory.Types.{
  active, HashRange, Ramp, RampHold, ramp_hash, hash_space, Placement, Move, leg_of,
  empty_placement,
}
use shunt.Directory.Owners.{owner_in}
use shunt.Directory.Scopes.{scope}
use shunt.Directory.Moves.{move_view}
use shunt.Directory.Guards.{is_active, is_cutover, is_ramping}
use shunt.Migrate.Class
use shunt.Migrate.Class.{OpClass}
use shunt.Migrate.Hash.{key_hash}

pub data Side : Type 0 where
  primary source : Side

pub record Route : Type 0 where
  pub cluster : Side
  pub fallback : Bool
  pub both : Bool
  pub merge : Bool
  pub held : Bool

abbrev pub to_side : Side → Route
to_side s = record { cluster = s; fallback = false; both = false; merge = false; held = false }

pub data RouteError : Type 0 where
  unknown_ramp_hash not_covered : RouteError

-- uint64(r.Ratio * float64(math.MaxUint64)), for a ratio that is not at most 0 nor at least 1. The
-- constant converts to 2 ^ 64, so the product is exact; a NaN converts to 2 ^ 63 on amd64.
unfoldable pub threshold : Float64 → ℕ
threshold r = if is_nan r then 2 ^ 63 else magnitude r * hash_space / unit

-- float64(offset) < r.Ratio * (float64(last) + 1), each operation rounded.
unfoldable pub below_share : ℕ → ℕ → Float64 → Bool
below_share offset last r =
    ltb (round53 offset * unit) (round53 (magnitude r * round53 (round53 last + 1)))

unfoldable pub has_one_of : Str → List Str → Bool
has_one_of key prefixes = any (has_prefix key) prefixes

unfoldable pub in_range_of : Ramp → HashRange → Str → Result RouteError Bool
in_range_of r rg key =
    let h = key_hash key in
    if not (str_eq r.hash ramp_hash)
    then err unknown_ramp_hash
    else if ltb h rg.from || ltb rg.to h
    then ok false
    else if has_one_of key r.prefixes
    then ok true
    else if le_zero r.ratio
    then ok false
    else if ge_one r.ratio
    then ok true
    else ok (below_share (h - rg.from) (rg.to - rg.from) r.ratio)

-- InRange on a ramp with no range.
unfoldable pub in_ratio : Ramp → Str → Result RouteError Bool
in_ratio r key =
    if has_one_of key r.prefixes
    then ok true
    else if le_zero r.ratio
    then ok false
    else if ge_one r.ratio
    then ok true
    else if not (str_eq r.hash ramp_hash)
    then err unknown_ramp_hash
    else ok (ltb (key_hash key) (threshold r.ratio))

unfoldable pub in_range : Option Ramp → Str → Result RouteError Bool
unfolding in_range_of in_ratio
in_range none key = ok false
in_range (some r) key = elim r.range [ none ↦ in_ratio r key | some rg ↦ in_range_of r rg key ]

-- The ramp that a held step moves to, as InHold asks it.
abbrev pub held_ramp : Ramp → RampHold → Ramp
held_ramp r h = record {
  hash = r.hash;
  ratio = h.ratio;
  prefixes = h.prefixes;
  range = r.range;
  hold = none;
}

unfoldable pub in_hold : Option Ramp → Str → Result RouteError Bool
unfolding in_range
in_hold none key = ok false
in_hold (some r) key = elim r.hold [
  | none ↦ ok false
  | some h ↦ in_range (some (held_ramp r h)) key
]

abbrev pub fall_back : Route
fall_back = record (to_side Side.primary) { fallback = true }

-- A write or a read once a ramp has decided nothing, or where there is none.
unfoldable pub past_ramp : OpClass → Route
past_ramp OpClass.read = fall_back
past_ramp _ = to_side Side.primary

-- A write or a read of a key outside the ramp, inside or outside the held step.
unfoldable pub outside_ramp : OpClass → Bool → Route
outside_ramp OpClass.write true = record (to_side Side.primary) { held = true }
outside_ramp _ true = fall_back
outside_ramp _ false = to_side Side.source

unfoldable pub decide_ramp : Option Ramp → OpClass → Str → Result RouteError Route
unfolding past_ramp outside_ramp
decide_ramp r class key = in_range r key >>= λ inside.
    if inside
    then ok (past_ramp class)
    else (in_hold r key >>= λ held. ok (outside_ramp class held))

-- The switch of Decide, while a placement is neither ACTIVE nor in CUTOVER.
unfoldable pub decide_moving : Placement → OpClass → Str → Result RouteError Route
unfolding decide_ramp past_ramp
decide_moving p OpClass.write key =
    if is_ramping p.state
    then decide_ramp p.ramp OpClass.write key
    else ok (past_ramp OpClass.write)
decide_moving p OpClass.read key =
    if is_ramping p.state then decide_ramp p.ramp OpClass.read key else ok (past_ramp OpClass.read)
decide_moving p OpClass.delete key = ok (record (to_side Side.primary) { both = true })
decide_moving p OpClass.list key = ok (record (to_side Side.primary) { merge = true })
decide_moving p _ key = ok (to_side Side.primary)

abbrev pub is_delete : OpClass → Bool
is_delete OpClass.delete = true
is_delete _ = false

unfoldable pub decide : Placement → OpClass → Str → Result RouteError Route
unfolding decide_moving
decide p class key =
    if is_empty p.source || is_active p.state
    then ok (to_side Side.primary)
    else if is_cutover p.state
    then ok (record (to_side Side.primary) { both = is_delete class })
    else decide_moving p class key

unfoldable pub in_range_hash : HashRange → Str → Bool
in_range_hash rg key = leb rg.from (key_hash key) && leb (key_hash key) rg.to

unfoldable pub owner_of : Placement → Str → Result RouteError Str
owner_of p key =
    let leg = owner_in (scope p key).1 (key_hash key) in
    if not (str_eq p.key_hash ramp_hash)
    then err unknown_ramp_hash
    else if is_empty leg
    then err not_covered
    else ok leg

-- InMove, for the placement's move.
unfoldable pub in_move : Placement → Move → Str → Bool
in_move p m key = in_range_hash m.range key && str_eq (scope p key).0 m.scope

unfoldable pub on_leg : Placement → Str → Placement
on_leg p id =
    let l = leg_of p.legs id in
    record (empty_placement active) {
      primary = l.cluster;
      names = (l.cluster, l.bucket) ∷ [];
      created = p.created;
      read_only = p.read_only;
      reject_writes = p.reject_writes;
      barrier = p.barrier;
    }

narrow_to_leg : Placement → Str → Result RouteError Placement
unfolding owner_of on_leg
narrow_to_leg p key = owner_of p key >>= λ id. ok (on_leg p id)

unfoldable pub narrow : Placement → Str → Result RouteError Placement
unfolding narrow_to_leg in_move
narrow p key = elim p.move [
  | none ↦ narrow_to_leg p key
  | some m ↦
      if not (str_eq p.key_hash ramp_hash)
      then err unknown_ramp_hash
      else if in_move p m key
      then ok (move_view p m)
      else narrow_to_leg p key
]
