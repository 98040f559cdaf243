-- ===== src/Admission/Barriers/Distinct.antt =====
-- internal/admission/admission.go: a gate stands once in what derive closes.
use shunt.Base.{Str, Option, none, some, List, [], ◌∷◌, Map, get, Unique, Unique-put}
use shunt.Directory.Types.{Placement, Barrier}
use shunt.Admission.Gates.{Kind, Closures}
use shunt.Admission.Barriers.{
  kind_of, Directory, close_kind, close_mutations, own_barrier, placement_clusters, cluster_barrier,
  cluster_barriers_of, close_placement, derive_from, derive,
}

close_kind-Unique :
    (key id : Str) (cs : Closures) (o : Option Kind) → Unique cs → Unique (close_kind key id cs o)
unfolding close_kind
close_kind-Unique key id cs none u = u
close_kind-Unique key id cs (some k) u = Unique-put cs key _ u

own_barrier-Unique :
    (key : Str) (o : Option Barrier) (cs : Closures) → Unique cs → Unique (own_barrier key o cs)
unfolding own_barrier
own_barrier-Unique key none cs u = u
own_barrier-Unique key (some b) cs u = close_kind-Unique key b.id cs (kind_of b.kind) u

close_mutations-Unique :
    (key : Str) (cs : Closures) (o : Option Barrier) → Unique cs → Unique (close_mutations key cs o)
unfolding close_mutations
close_mutations-Unique key cs none u = u
close_mutations-Unique key cs (some b) u = Unique-put cs key _ u

cluster_barriers_of-Unique :
    (barriers : Map Barrier) (key : Str) (ns : List Str) (cs : Closures)
    → Unique cs
    → Unique (cluster_barriers_of barriers key ns cs)
unfolding cluster_barriers_of cluster_barrier
cluster_barriers_of-Unique barriers key [] cs u = u
cluster_barriers_of-Unique barriers key (n ∷ ns) cs u =
    cluster_barriers_of-Unique barriers key ns _ (close_mutations-Unique key cs (get barriers n) u)

derive_from-Unique :
    (barriers : Map Barrier) (m : Map Placement) (cs : Closures)
    → Unique cs
    → Unique (derive_from barriers m cs)
unfolding derive_from close_placement
derive_from-Unique barriers [] cs u = u
derive_from-Unique barriers ((key, p) ∷ m) cs u = derive_from-Unique barriers m _ (
    cluster_barriers_of-Unique barriers key (placement_clusters p) _
      (own_barrier-Unique key p.barrier cs u))

pub derive-Unique : (d : Directory) → Unique (derive d)
unfolding derive
derive-Unique d = derive_from-Unique d.cluster_barriers d.placements [] tt
