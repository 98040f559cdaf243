-- ===== src/Directory/Validate.antt =====
-- internal/directory/validate.go: what a directory file has to be: validate, validatePlacement,
-- validateSpread, validateRamp, validateTier and validateBarrier. The list of failures is empty or not,
-- so that each check is a test; the early returns come after a failure. ValidateClusters of
-- internal/config, and net.ParseIP of the standard library, are arguments.
pub mod Buckets
pub mod Placed
use shunt.Base.{
  Str, lit, is_empty, str_eq, Bool, true, ◌&&◌, ◌||◌, not, Option, none, some, List, [], ◌∷◌,
  if◌then◌else◌, leb, ◌==◌, any, all, null, is_some, Map, get, has, sorted_keys,
}
use shunt.Base.Float.{Float64, flt, pos, unit, is_zero}
use shunt.Directory.Types.{
  State, HashRange, RampHold, Ramp, barrier_source, Leg, Move, Placement, spread,
}
use shunt.Directory.Guards.{is_active, is_ramping, is_cutover, is_other}
use shunt.Directory.File.{Cluster, Tenant, File}
use shunt.Directory.Schema.{valid_ramp_hash_name, check_v2, check_spread}
use shunt.Directory.Stamp.{lineage_valid}
use shunt.Migrate.UploadId.{cut}
use shunt.Directory.Identifiers.{valid_tenant, valid_bucket_name, valid_barrier}

-- validateBarrier
unfoldable pub barrier_ok : Placement → Bool
unfolding valid_barrier
barrier_ok p = elim p.barrier [
  | none ↦ true
  | some b ↦ valid_barrier b && not (str_eq b.kind barrier_source && not (is_cutover p.state))
]

outside : Float64 → Bool
outside x = flt x (pos 0) || flt (pos unit) x

hold_ok : Option RampHold → Bool
unfolding outside
hold_ok none = true
hold_ok (some h) = not (outside h.ratio) && not (is_zero h.ratio && null h.prefixes)

range_ok : Option HashRange → Bool
range_ok none = true
range_ok (some rg) = leb rg.from rg.to

-- validateRamp
unfoldable pub ramp_ok : State → Option Ramp → Bool
unfolding outside hold_ok range_ok valid_ramp_hash_name
ramp_ok s none = not (is_ramping s)
ramp_ok s (some r) =
    is_ramping s
    && valid_ramp_hash_name r.hash
    && not (outside r.ratio)
    && not (is_zero r.ratio && null r.prefixes && not (is_some r.hold))
    && hold_ok r.hold
    && range_ok r.range

-- ref
unfoldable pub ref : Map Cluster → Str → Bool
ref clusters name = not (is_empty name) && has clusters name

class_of : Option Cluster → Str
class_of none = []
class_of (some c) = c.storage_class

native_classes : Option Cluster → Bool
native_classes none = true
native_classes (some c) = str_eq c.storage_classes (lit "native")

-- validateTier
unfoldable pub tier_ok : Map Cluster → Placement → Bool
unfolding ref class_of native_classes
tier_ok clusters p =
    if is_empty p.tier
    then is_empty p.cold && is_empty p.lifecycle
    else if str_eq p.tier (lit "native")
    then is_empty p.cold && native_classes (get clusters p.primary)
    else str_eq p.tier (lit "emulated")
      && not (is_empty p.cold)
      && ref clusters p.cold
      && not (is_empty (class_of (get clusters p.cold)))
      && not (str_eq p.cold p.primary)

-- The backend buckets that placements have taken: cluster, bucket and placement.
abbrev pub Used : Type 0
Used = List ((Str × Str) × Str)

unfoldable pub taken : Used → Str → Str → Option Str
taken [] cl name = none
taken (((c, b), pk) ∷ u) cl name = if str_eq c cl && str_eq b name then some pk else taken u cl name

-- Whether a placement's buckets are valid and free, and what is taken after them; the loop over
-- its names or legs.
unfoldable pub take_buckets :
    (Str → Bool) → Map Cluster → Str → List (Str × Str) → Used → Bool × Used
unfolding ref valid_bucket_name taken
take_buckets is_ip clusters pk [] u = (true, u)
take_buckets is_ip clusters pk ((cl, name) ∷ rest) u =
    let free = ref clusters cl && valid_bucket_name is_ip name && not (is_some (taken u cl name)) in
    let (good, after) =
      take_buckets is_ip clusters pk rest (if free then ((cl, name), pk) ∷ u else u) in
    (free && good, after)

leg_buckets : Map Leg → List (Str × Str)
leg_buckets [] = []
leg_buckets ((id, l) ∷ legs) = (l.cluster, l.bucket) ∷ leg_buckets legs

-- The backend buckets that a placement names.
unfoldable pub buckets : Placement → List (Str × Str)
unfolding leg_buckets
buckets p = if spread p then leg_buckets p.legs else p.names

unfoldable pub target_ok : Map Cluster → Placement → Bool
unfolding ref
target_ok clusters p =
    is_empty p.target
    || (is_active p.state
        && not (str_eq p.target p.primary)
        && ref clusters p.target
        && has p.names p.target)

unfoldable pub source_ok : Map Cluster → Placement → Bool
unfolding ref
source_ok clusters p =
    if is_empty p.source
    then is_active p.state
    else not (is_active p.state) && ref clusters p.source && not (str_eq p.source p.primary)

-- A role's cluster has a bucket's name, if it is configured.
unfoldable pub role_named : Map Cluster → Map Str → Str → Bool
role_named clusters names cl = is_empty cl || not (has clusters cl) || has names cl

-- The checks of a placement in the fields of v1, but for its buckets.
unfoldable pub plain_ok : Map Cluster → Placement → Bool
plain_ok clusters p =
    ref clusters p.primary
    && target_ok clusters p
    && not (is_some p.cutover && not (is_cutover p.state))
    && barrier_ok p
    && source_ok clusters p
    && ramp_ok p.state p.ramp
    && role_named clusters p.names p.primary
    && role_named clusters p.names p.source
    && role_named clusters p.names p.cold
    && tier_ok clusters p

unfoldable pub move_ramp_ok : Placement → Option Move → Bool
unfolding ramp_ok
move_ramp_ok p none = true
move_ramp_ok p (some m) = ramp_ok p.state m.ramp

-- validateSpread, but for the buckets.
unfoldable pub spread_ok : Placement → Bool
spread_ok p =
    check_v2 p
    && check_spread p
    && move_ramp_ok p p.move
    && barrier_ok p
    && is_empty p.primary
    && is_empty p.source
    && null p.names
    && not (is_some p.ramp)
    && not (is_some p.cutover)

unfoldable pub key_ok : (Str → Bool) → Map Tenant → Str → Bool
unfolding valid_bucket_name cut
key_ok is_ip tenants pk =
    let (tenant, bucket) = cut pk b'/' in
    any (λ c. c == b'/') pk
    && not (is_empty tenant)
    && not (is_empty bucket)
    && has tenants tenant
    && valid_bucket_name is_ip bucket

-- A placement's checks but for its buckets.
unfoldable pub shape_ok : Map Cluster → Placement → Bool
shape_ok clusters p =
    not (is_other p.state) && (if spread p then spread_ok p else plain_ok clusters p)

-- validatePlacement
unfoldable pub validate_placement : (Str → Bool) → File → Str → Placement → Used → Bool × Used
validate_placement is_ip f pk p u =
    let (good, after) = take_buckets is_ip f.clusters pk (buckets p) u in
    (key_ok is_ip f.tenants pk && shape_ok f.clusters p && good, after)

-- The loop over the placements' keys, in order.
unfoldable pub validate_placements : (Str → Bool) → File → List Str → Used → Bool × Used
validate_placements is_ip f [] u = (true, u)
validate_placements is_ip f (pk ∷ pks) u = elim (get f.placements pk) [
  | none ↦ validate_placements is_ip f pks u
  | some p ↦
      let (good, after) = validate_placement is_ip f pk p u in
      let (rest, last) = validate_placements is_ip f pks after in (good && rest, last)
]

unfoldable pub tenant_ok : Map Cluster → Str × Tenant → Bool
unfolding valid_tenant ref
tenant_ok clusters (name, t) = valid_tenant name && ref clusters t.default_cluster

-- validate. A version is a ℕ, so that none is negative.
unfoldable pub validate : (Map Cluster → Bool) → (Str → Bool) → File → Bool
validate clusters_ok is_ip f =
    lineage_valid f
    && clusters_ok f.clusters
    && all (tenant_ok f.clusters) f.tenants
    && (validate_placements is_ip f (sorted_keys f.placements) []).0
