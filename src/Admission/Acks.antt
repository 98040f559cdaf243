-- ===== src/Admission/Acks.antt =====
-- internal/admission/admission.go: what a proxy acknowledges of the barriers of a directory (Gates.Acks,
-- with the part of derive that it reads).
pub mod Proofs
use shunt.Base.{
  ℕ, Str, is_empty, str_eq, str_lt, Bool, true, ◌&&◌, not, Option, none, some, List, [], ◌∷◌, ◌++◌,
  if◌then◌else◌, Map, get,
}
use shunt.Base.Int.{ℤ, pos, ◌+ℤ◌}
use shunt.Directory.Types.{Placement, Barrier}
use shunt.Directory.Stamp.{placement_resource, cluster_resource}
use shunt.Admission.Gates.{Kind, at, Gates, gate}
use shunt.Admission.Barriers.{Directory, kind_of, placement_clusters}

pub record Ack : Type 0 where
  pub id : Str
  pub scope : Str
  pub generation : ℕ
  pub kind : Str
  pub closed : Bool
  pub inflight : ℤ
  pub uncertain : ℤ

-- A gate that was never made reads as State{}: open, with nothing out.
abbrev own_ack : Gates → (Str → ℕ) → Str → Barrier → Kind → Ack
own_ack g generation key b k = record {
  id = b.id;
  scope = placement_resource key;
  generation = generation (placement_resource key);
  kind = b.kind;
  closed = str_eq (at (gate g key).closed k) b.id;
  inflight = at (gate g key).inflight k;
  uncertain = at (gate g key).uncertain k;
}

-- The placements' own barriers.
unfoldable pub own_acks : Gates → (Str → ℕ) → Map Placement → List Ack
unfolding kind_of
own_acks g generation [] = []
own_acks g generation ((key, p) ∷ rest) =
    let others = own_acks g generation rest in
    elim p.barrier [
      | none ↦ others
      | some b ↦ elim (kind_of b.kind) [
        | none ↦ others
        | some k ↦ own_ack g generation key b k ∷ others
      ]
    ]

-- The placement, under its own barrier of this id.
closed_by_own : Str → Str → Option Barrier → List Str
unfolding kind_of
closed_by_own id key none = []
closed_by_own id key (some b) = elim (kind_of b.kind) [
  | none ↦ []
  | some k ↦ if str_eq b.id id then key ∷ [] else []
]

-- The placement, for each of its clusters that carries a barrier of this id.
closed_by_clusters : Map Barrier → Str → Str → List Str → List Str
closed_by_clusters barriers id key [] = []
closed_by_clusters barriers id key (n ∷ ns) =
    let rest = closed_by_clusters barriers id key ns in
    elim (get barriers n) [ none ↦ rest | some b ↦ if str_eq b.id id then key ∷ rest else rest ]

-- derive's placements[id]
unfoldable pub placements_of : Map Barrier → Str → Map Placement → List Str
unfolding closed_by_own closed_by_clusters placement_clusters
placements_of barriers id [] = []
placements_of barriers id ((key, p) ∷ rest) =
    closed_by_own id key p.barrier
    ++ closed_by_clusters barriers id key (placement_clusters p)
    ++ placements_of barriers id rest

add_state : Gates → Ack → Str → Ack
add_state g a key = record a {
  closed = a.closed && not (is_empty (gate g key).closed.mutations);
  inflight = a.inflight +ℤ (gate g key).inflight.mutations;
  uncertain = a.uncertain +ℤ (gate g key).uncertain.mutations;
}

unfoldable pub add_states : Gates → Ack → List Str → Ack
unfolding add_state
add_states g a [] = a
add_states g a (key ∷ keys) = add_states g (add_state g a key) keys

abbrev empty_ack : (Str → ℕ) → Str → Barrier → Ack
empty_ack generation name b = record {
  id = b.id;
  scope = cluster_resource name;
  generation = generation (cluster_resource name);
  kind = b.kind;
  closed = true;
  inflight = pos 0;
  uncertain = pos 0;
}

-- The clusters' barriers, over `all` the clusters of the directory.
unfoldable pub cluster_acks : Gates → (Str → ℕ) → Directory → Map Barrier → List Ack
unfolding placements_of add_states
cluster_acks g generation d [] = []
cluster_acks g generation d ((name, b) ∷ rest) =
    add_states g (empty_ack generation name b) (placements_of d.cluster_barriers b.id d.placements)
    ∷ cluster_acks g generation d rest

-- slices.SortFunc by scope.
insert_ack : Ack → List Ack → List Ack
insert_ack a [] = a ∷ []
insert_ack a (b ∷ bs) = if str_lt b.scope a.scope then b ∷ insert_ack a bs else a ∷ b ∷ bs

unfoldable pub sort_acks : List Ack → List Ack
unfolding insert_ack
sort_acks [] = []
sort_acks (a ∷ rest) = insert_ack a (sort_acks rest)

-- The generations are the directory's.
unfoldable pub acks : Gates → (Str → ℕ) → Directory → List Ack
unfolding own_acks cluster_acks sort_acks
acks g generation d =
    sort_acks (own_acks g generation d.placements ++ cluster_acks g generation d d.cluster_barriers)
