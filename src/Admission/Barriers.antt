-- ===== src/Admission/Barriers.antt =====
-- What the barriers of a directory close (derive and PlacementClusters of
-- internal/admission/admission.go), and the gate keeper of internal/proxy/gates.go. A directory is the
-- list of its placements and of its clusters' barriers, in the order that a range over them takes.
pub mod Derived
pub mod Distinct
pub mod Kept
use shunt.Base.{
  ℕ, Str, is_empty, str_eq, contains, Bool, false, ◌||◌, Option, none, some, List, [], ◌∷◌, ◌++◌,
  if◌then◌else◌, ltb, Map, get, put, map,
}
use shunt.Directory.Types.{Placement, Barrier, Leg, barrier_mutations, barrier_source, cluster_of}
use shunt.Admission.Gates.{Kind, set_at, Closed, open_closed, Closures, Gates, apply}

-- KindOf
unfoldable pub kind_of : Str → Option Kind
kind_of kind =
    if str_eq kind barrier_mutations
    then some Kind.mutations
    else if str_eq kind barrier_source
    then some Kind.source
    else none

pub record Directory : Type 0 where
  pub version : ℕ
  pub placements : Map Placement
  pub cluster_barriers : Map Barrier

unfoldable pub closed_at : Closures → Str → Closed
closed_at cs key = elim (get cs key) [ none ↦ open_closed | some c ↦ c ]

-- A kind that names no gate closes none.
close_kind : Str → Str → Closures → Option Kind → Closures
unfolding closed_at
close_kind key id cs none = cs
close_kind key id cs (some k) = put cs key (set_at (closed_at cs key) k id)

-- A placement's own barrier.
own_barrier : Str → Option Barrier → Closures → Closures
unfolding kind_of close_kind
own_barrier key none cs = cs
own_barrier key (some b) cs = close_kind key b.id cs (kind_of b.kind)

add_name : List Str → Str → List Str
add_name out name = if is_empty name || contains out name then out else out ++ name ∷ []

add_names : List Str → List Str → List Str
unfolding add_name
add_names out [] = out
add_names out (n ∷ ns) = add_names (add_name out n) ns

role_names : Placement → Map Str → List Str
role_names p [] = []
role_names p ((role, bucket) ∷ rest) = cluster_of p role ∷ role_names p rest

leg_names : Map Leg → List Str
leg_names [] = []
leg_names ((id, l) ∷ rest) = l.cluster ∷ leg_names rest

unfoldable pub placement_clusters : Placement → List Str
unfolding add_names role_names leg_names
placement_clusters p =
    let roles = map (cluster_of p) (p.primary ∷ p.source ∷ p.target ∷ p.cold ∷ []) in
    add_names (add_names (add_names [] roles) (role_names p p.names)) (leg_names p.legs)

-- A cluster's barrier closes mutations, unless a barrier closed them before it.
close_mutations : Str → Closures → Option Barrier → Closures
unfolding closed_at
close_mutations key cs none = cs
close_mutations key cs (some b) =
    let c = closed_at cs key in
    put cs key (if is_empty c.mutations then record c { mutations = b.id } else c)

cluster_barrier : Map Barrier → Str → Str → Closures → Closures
unfolding close_mutations
cluster_barrier barriers key name cs = close_mutations key cs (get barriers name)

cluster_barriers_of : Map Barrier → Str → List Str → Closures → Closures
unfolding cluster_barrier
cluster_barriers_of barriers key [] cs = cs
cluster_barriers_of barriers key (n ∷ ns) cs =
    cluster_barriers_of barriers key ns (cluster_barrier barriers key n cs)

-- One round of derive over the placements.
close_placement : Map Barrier → Str → Placement → Closures → Closures
unfolding own_barrier cluster_barriers_of placement_clusters
close_placement barriers key p cs =
    cluster_barriers_of barriers key (placement_clusters p) (own_barrier key p.barrier cs)

derive_from : Map Barrier → Map Placement → Closures → Closures
unfolding close_placement
derive_from barriers [] cs = cs
derive_from barriers ((key, p) ∷ rest) cs =
    derive_from barriers rest (close_placement barriers key p cs)

-- The closures of derive.
unfoldable pub derive : Directory → Closures
unfolding derive_from
derive d = derive_from d.cluster_barriers d.placements []

pub record GateKeeper : Type 0 where
  pub gates : Gates
  pub installed : Option Directory
  pub served : Option Directory

-- What either of two closures closes; the first names the barrier where both do.
unfoldable pub join_closed : Closed → Closed → Closed
join_closed a b = record {
  mutations = (if is_empty a.mutations then b.mutations else a.mutations);
  source = (if is_empty a.source then b.source else a.source);
}

join_closures : Closures → Closures → Closures
unfolding join_closed closed_at
join_closures cs [] = cs
join_closures cs ((key, c) ∷ rest) =
    join_closures (put cs key (join_closed (closed_at cs key) c)) rest

closures_of : Option Directory → Closures → Closures
unfolding join_closures derive
closures_of none cs = cs
closures_of (some d) cs = join_closures cs (derive d)

newest : Option Directory → ℕ → ℕ
newest none v = v
newest (some d) v = if ltb v d.version then d.version else v

unfoldable pub older : Option Directory → Option Directory → Bool
older none b = false
older (some a) none = false
older (some a) (some b) = ltb a.version b.version

unfoldable pub apply_locked : GateKeeper → GateKeeper
unfolding closures_of newest older
apply_locked k = record k {
  gates =
      apply k.gates (closures_of k.served (closures_of k.installed []))
        (newest k.served (newest k.installed 0)) (older k.served k.installed);
}

unfoldable pub installed : GateKeeper → Directory → GateKeeper
unfolding apply_locked
installed k d = apply_locked (record k { installed = some d })

unfoldable pub served : GateKeeper → Directory → GateKeeper
unfolding apply_locked
served k d = apply_locked (record k { served = some d })
