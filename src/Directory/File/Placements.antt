-- ===== src/Directory/File/Placements.antt =====
-- internal/directory/mutations.go and scopes.go: the changes that make, move and retire placements.
use shunt.Base.{
  ℕ, Str, lit, is_empty, str_eq, Bool, true, false, ◌&&◌, ◌||◌, not, Option, none, some, List, [],
  ◌∷◌, if◌then◌else◌, map, ltb, length, null, Map, has, put, remove, Result, ok, err, ◌>>=◌,
}
use shunt.Directory.Types.{
  State, active, Leg, Placement, Err, exists, not_found, conflict, empty_placement, ramp_hash,
  spread,
}
use shunt.Directory.Owners.{even_owners}
use shunt.Directory.Scopes.{carve_placement}
use shunt.Directory.Settle.{settle, idle_legs, merge_placement}
use shunt.Directory.Moves.{max_legs}
use shunt.Directory.Start.{apply}
use shunt.Directory.Guards.{Transition, is_active}
use shunt.Directory.File.{File, placement_key, placement_at, set_placement}

-- The placement that Create and Adopt write.
abbrev pub fresh_placement : Str → Str → ℕ → Placement
fresh_placement cluster backend now = record (empty_placement active) {
  primary = cluster;
  names = (cluster, backend) ∷ [];
  created = now;
}

unfoldable pub create : File → Str → Str → Str → Str → ℕ → Result Err File
unfolding placement_key
create f tenant bucket cluster backend now =
    let k = placement_key tenant bucket in
    if has f.placements k
    then err exists
    else if not (has f.tenants tenant)
    then err not_found
    else ok (set_placement f k (fresh_placement cluster backend now))

unfoldable pub delete : File → Str → Str → Result Err File
unfolding placement_key placement_at
delete f tenant bucket =
    let k = placement_key tenant bucket in
    placement_at f k >>= λ p.
    if not (is_active p.state)
    then err conflict
    else ok (record f { placements = remove f.placements k })

-- The states as Go compares them, by their names.
same_state : State → State → Bool
same_state State.active State.active = true
same_state State.ramping State.ramping = true
same_state State.migrating State.migrating = true
same_state State.cutover State.cutover = true
same_state (State.other a) (State.other b) = str_eq a b
same_state _ _ = false

unfoldable pub set_state : File → Str → Str → State → Transition → Result Err File
unfolding placement_key placement_at same_state
set_state f tenant bucket from t =
    let k = placement_key tenant bucket in
    placement_at f k >>= λ p.
    if not (same_state p.state from)
    then err conflict
    else (apply p t >>= λ np. ok (set_placement f k np))

-- f.Tenants[tenant], made with a default cluster where it is not there.
abbrev pub with_tenant : File → Str → Str → File
with_tenant f tenant cluster =
    if has f.tenants tenant
    then f
    else record f { tenants = put f.tenants tenant (record { default_cluster = cluster }) }

unfoldable pub adopt : File → Str → Str → Str → Str → ℕ → Result Err File
unfolding placement_key
adopt f tenant bucket cluster backend now =
    let k = placement_key tenant bucket in
    if has f.placements k
    then err exists
    else ok (set_placement (with_tenant f tenant cluster) k (fresh_placement cluster backend now))

-- The legs by cluster, and none where a cluster is named twice.
pub legs_by_cluster : Map Leg → List Leg → Option (Map Leg)
legs_by_cluster by [] = some by
legs_by_cluster by (l ∷ ls) =
    if has by l.cluster then none else legs_by_cluster (put by l.cluster l) ls

pub first_cluster : List Leg → Str
first_cluster [] = lit ""
first_cluster (l ∷ ls) = l.cluster

unfoldable pub create_spread : File → Str → Str → List Leg → ℕ → Result Err File
unfolding placement_key legs_by_cluster first_cluster
create_spread f tenant bucket legs now =
    let k = placement_key tenant bucket in
    if has f.placements k
    then err exists
    else if ltb (length legs) 2 || ltb max_legs (length legs)
    then err conflict
    else elim (legs_by_cluster [] legs) [
      | none ↦ err conflict
      | some by ↦ ok (
          set_placement (with_tenant f tenant (first_cluster legs)) k
            (record (empty_placement active) {
              legs = by;
              owners = even_owners (map (λ l. l.cluster) legs);
              key_hash = ramp_hash;
              created = now;
            }))
    ]

unfoldable pub set_target : File → Str → Str → Str → Str → Result Err File
unfolding placement_key placement_at
set_target f tenant bucket cluster backend =
    let k = placement_key tenant bucket in
    placement_at f k >>= λ p.
    if not (is_active p.state)
    then err conflict
    else if spread p
    then err conflict
    else if not (is_empty p.target) && not (str_eq p.target cluster)
    then err conflict
    else ok (set_placement f k (record p { target = cluster; names = put p.names cluster backend }))

remove_all : Map Leg → List Str → Map Leg
remove_all legs [] = legs
remove_all legs (id ∷ ids) = remove_all (remove legs id) ids

-- ClearTarget on the placement.
pub cleared : Placement → Result Err Placement
unfolding remove_all
cleared p =
    if not (is_active p.state)
    then err conflict
    else if spread p
    then (if null (idle_legs p)
        then err conflict
        else ok (settle (record p { legs = remove_all p.legs (idle_legs p) })))
    else if is_empty p.target
    then err conflict
    else ok (record p {
      names = (if not (str_eq p.target p.cold) then remove p.names p.target else p.names);
      target = lit "";
    })

unfoldable pub clear_target : File → Str → Str → Result Err File
unfolding placement_key placement_at cleared
clear_target f tenant bucket =
    let k = placement_key tenant bucket in
    placement_at f k >>= λ p. cleared p >>= λ np. ok (set_placement f k np)

unfoldable pub carve : File → Str → Str → Str → Result Err File
unfolding placement_key placement_at
carve f tenant bucket prefix =
    let k = placement_key tenant bucket in
    placement_at f k >>= λ p. carve_placement p prefix >>= λ np. ok (set_placement f k np)

unfoldable pub merge : File → Str → Str → Str → Result Err File
unfolding placement_key placement_at
merge f tenant bucket prefix =
    let k = placement_key tenant bucket in
    placement_at f k >>= λ p. merge_placement p prefix >>= λ np. ok (set_placement f k np)
