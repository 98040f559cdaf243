-- ===== src/Admission/Barriers/Derived.antt =====
-- internal/admission/admission.go: which gates derive closes, read off the directory.
use shunt.Base.{
  ◌≡◌, inl, inr, refl, sym, ap, ◌∙◌, Str, is_empty, str_eq, str_eq_iff, str_eq_refl, Bool, true,
  false, ◌&&◌, ◌||◌, not, Option, none, some, List, [], ◌∷◌, if◌then◌else◌, any, Map, get, put, has,
  get-put, Unique, arith, Bool-cases,
}
use shunt.Directory.Types.{Placement, Barrier}
use shunt.Admission.Gates.{Kind, set_at, Closed, open_closed, Closures}
use shunt.Admission.Gates.Applying.{shut, shut_open}
use shunt.Admission.Barriers.{
  kind_of, Directory, closed_at, close_kind, close_mutations, own_barrier, placement_clusters,
  cluster_barrier, cluster_barriers_of, close_placement, derive_from, derive,
}

abbrev pub is_mutations : Kind → Bool
is_mutations Kind.mutations = true
is_mutations Kind.source = false

abbrev kind_eq : Kind → Kind → Bool
kind_eq Kind.mutations k = is_mutations k
kind_eq Kind.source k = not (is_mutations k)

kind_shuts : Str → Kind → Option Kind → Bool
kind_shuts id k none = false
kind_shuts id k (some l) = kind_eq l k && not (is_empty id)

-- A placement's own barrier shuts the kind that it names.
unfoldable pub own_shuts : Option Barrier → Kind → Bool
unfolding kind_shuts
own_shuts none k = false
own_shuts (some b) k = kind_shuts b.id k (kind_of b.kind)

carried_shuts : Option Barrier → Bool
carried_shuts none = false
carried_shuts (some b) = not (is_empty b.id)

-- A cluster's barrier shuts mutations.
unfoldable pub cluster_shuts : Map Barrier → Str → Bool
unfolding carried_shuts
cluster_shuts barriers n = carried_shuts (get barriers n)

unfoldable pub placement_shuts : Map Barrier → Placement → Kind → Bool
unfolding own_shuts cluster_shuts
placement_shuts barriers p k =
    own_shuts p.barrier k || (is_mutations k && any (cluster_shuts barriers) (placement_clusters p))

bars_in : Map Barrier → Option Placement → Kind → Bool
bars_in barriers none k = false
bars_in barriers (some p) k = placement_shuts barriers p k

-- Whether the barriers of a directory shut a placement's gate for a kind.
unfoldable pub bars : Directory → Str → Kind → Bool
unfolding bars_in
bars d key k = bars_in d.cluster_barriers (get d.placements key) k

pub closed_at-put :
    (cs : Closures) (key j : Str) (c : Closed)
    → closed_at (put cs key c) j ≡ (if str_eq key j then c else closed_at cs j)
unfolding closed_at
closed_at-put cs key j c = ground (arith, get-put cs key j c)

close_kind-other :
    (key j id : Str) (cs : Closures) (o : Option Kind)
    → str_eq key j ≡ false
    → closed_at (close_kind key id cs o) j ≡ closed_at cs j
unfolding close_kind
close_kind-other key j id cs none d = refl
close_kind-other key j id cs (some k) d = rw closed_at-put (ground (arith, d))

own_barrier-other :
    (key j : Str) (o : Option Barrier) (cs : Closures)
    → str_eq key j ≡ false
    → closed_at (own_barrier key o cs) j ≡ closed_at cs j
unfolding own_barrier
own_barrier-other key j none cs d = refl
own_barrier-other key j (some b) cs d = close_kind-other key j b.id cs (kind_of b.kind) d

shut-set_at : (l k : Kind) (id : Str) → shut (set_at open_closed l id) k ≡ kind_shuts id k (some l)
unfolding kind_shuts
shut-set_at Kind.mutations Kind.mutations id = refl
shut-set_at Kind.mutations Kind.source id = refl
shut-set_at Kind.source Kind.mutations id = refl
shut-set_at Kind.source Kind.source id = refl

close_kind-own :
    (key id : Str) (cs : Closures) (k : Kind) (o : Option Kind)
    → closed_at cs key ≡ open_closed
    → shut (closed_at (close_kind key id cs o) key) k ≡ kind_shuts id k o
unfolding close_kind kind_shuts
close_kind-own key id cs k none h = ap (λ c. shut c k) h ∙ shut_open k
close_kind-own key id cs k (some l) h =
    rw (closed_at-put, str_eq_refl key) (rw h (shut-set_at l k id))

own_barrier-own :
    (key : Str) (o : Option Barrier) (cs : Closures) (k : Kind)
    → closed_at cs key ≡ open_closed
    → shut (closed_at (own_barrier key o cs) key) k ≡ own_shuts o k
unfolding own_barrier own_shuts
own_barrier-own key none cs k h = ap (λ c. shut c k) h ∙ shut_open k
own_barrier-own key (some b) cs k h = close_kind-own key b.id cs k (kind_of b.kind) h

close_mutations-other :
    (key j : Str) (cs : Closures) (o : Option Barrier)
    → str_eq key j ≡ false
    → closed_at (close_mutations key cs o) j ≡ closed_at cs j
unfolding close_mutations
close_mutations-other key j cs none d = refl
close_mutations-other key j cs (some b) d = rw closed_at-put (ground (arith, d))

close_mutations-own :
    (key : Str) (cs : Closures) (o : Option Barrier) (k : Kind)
    → shut (closed_at (close_mutations key cs o) key) k
      ≡ (shut (closed_at cs key) k || (is_mutations k && carried_shuts o))
unfolding close_mutations carried_shuts
close_mutations-own key cs none k = ground arith
close_mutations-own key cs (some b) Kind.mutations =
    rw (closed_at-put, str_eq_refl key) (ground arith)
close_mutations-own key cs (some b) Kind.source = rw (closed_at-put, str_eq_refl key) (ground arith)

cluster_barriers_of-other :
    (barriers : Map Barrier) (key j : Str) (ns : List Str) (cs : Closures)
    → str_eq key j ≡ false
    → closed_at (cluster_barriers_of barriers key ns cs) j ≡ closed_at cs j
unfolding cluster_barriers_of cluster_barrier
cluster_barriers_of-other barriers key j [] cs d = refl
cluster_barriers_of-other barriers key j (n ∷ ns) cs d =
    cluster_barriers_of-other barriers key j ns _ d
    ∙ close_mutations-other key j cs (get barriers n) d

cluster_barriers_of-own :
    (barriers : Map Barrier) (key : Str) (ns : List Str) (cs : Closures) (k : Kind)
    → shut (closed_at (cluster_barriers_of barriers key ns cs) key) k
      ≡ (shut (closed_at cs key) k || (is_mutations k && any (cluster_shuts barriers) ns))
unfolding cluster_barriers_of cluster_barrier any cluster_shuts
cluster_barriers_of-own barriers key [] cs k = ground arith
cluster_barriers_of-own barriers key (n ∷ ns) cs k = ground (
  arith,
  cluster_barriers_of-own barriers key ns (close_mutations key cs (get barriers n)) k,
  close_mutations-own key cs (get barriers n) k,
)

close_placement-other :
    (barriers : Map Barrier) (key j : Str) (p : Placement) (cs : Closures)
    → str_eq key j ≡ false
    → closed_at (close_placement barriers key p cs) j ≡ closed_at cs j
unfolding close_placement
close_placement-other barriers key j p cs d =
    cluster_barriers_of-other barriers key j (placement_clusters p) _ d
    ∙ own_barrier-other key j p.barrier cs d

close_placement-own :
    (barriers : Map Barrier) (key : Str) (p : Placement) (cs : Closures) (k : Kind)
    → closed_at cs key ≡ open_closed
    → shut (closed_at (close_placement barriers key p cs) key) k ≡ placement_shuts barriers p k
unfolding close_placement placement_shuts
close_placement-own barriers key p cs k h =
    cluster_barriers_of-own barriers key (placement_clusters p) (own_barrier key p.barrier cs) k
    ∙ ap (λ b. b || (is_mutations k && any (cluster_shuts barriers) (placement_clusters p)))
        (own_barrier-own key p.barrier cs k h)

derive_from-other :
    (barriers : Map Barrier) (m : Map Placement) (cs : Closures) (j : Str)
    → has m j ≡ false
    → closed_at (derive_from barriers m cs) j ≡ closed_at cs j
unfolding derive_from get
derive_from-other barriers [] cs j h = refl
derive_from-other barriers ((key, p) ∷ m) cs j h =
    let apart : str_eq key j ≡ false = ground (arith, h) in
    derive_from-other barriers m (close_placement barriers key p cs) j (ground (arith, h))
    ∙ close_placement-other barriers key j p cs apart

nothing_closed : (j : Str) → closed_at [] j ≡ open_closed
unfolding closed_at get
nothing_closed j = refl

derive_from-bars :
    (barriers : Map Barrier) (m : Map Placement) (cs : Closures) (j : Str) (k : Kind)
    → Unique m
    → closed_at cs j ≡ open_closed
    → shut (closed_at (derive_from barriers m cs) j) k ≡ bars_in barriers (get m j) k
unfolding derive_from get bars_in
derive_from-bars barriers [] cs j k u h = ap (λ c. shut c k) h ∙ shut_open k
derive_from-bars barriers ((key, p) ∷ m) cs j k (single, u) h = elim (Bool-cases (str_eq key j)) [
  | inl e ↦
      let same : key ≡ j = (str_eq_iff key j).0 e in
      let gone : has m j ≡ false = ap (has m) (sym same) ∙ single in
      let own : shut (closed_at (close_placement barriers key p cs) j) k
          ≡ placement_shuts barriers p k =
        ap (λ x. shut (closed_at (close_placement barriers key p cs) x) k) (sym same)
        ∙ close_placement-own barriers key p cs k (ap (closed_at cs) same ∙ h) in
      rw (e, bars_in)
        (ap (λ c. shut c k)
            (derive_from-other barriers m (close_placement barriers key p cs) j gone)
          ∙ own)
  | inr e ↦
      rw (e, bars_in)
        (derive_from-bars barriers m (close_placement barriers key p cs) j k u
          (close_placement-other barriers key j p cs e ∙ h))
]

-- What derive closes is what the directory's barriers shut.
pub derive-bars :
    (d : Directory) (j : Str) (k : Kind)
    → Unique d.placements
    → shut (closed_at (derive d) j) k ≡ bars d j k
unfolding derive bars
derive-bars d j k u = derive_from-bars d.cluster_barriers d.placements [] j k u (nothing_closed j)
