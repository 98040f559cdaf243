-- ===== src/Samples/Draining.antt =====
-- A barrier that the fleet's only proxy has drained.
use shunt.Base.{
  ℕ, ◌≤◌, ◌≡◌, ◌↔◌, refl, Str, lit, str_eq, is_empty, Bool, true, false, ◌&&◌, ◌||◌, Option, none,
  some, List, [], ◌∷◌, ◌++◌, find, All, Map, get, Result, ok, err, arith,
}
use shunt.Base.Int.{pos}
use shunt.Directory.Types.{Barrier, barrier_mutations, Placement}
use shunt.Directory.Stamp.{placement_resource, cluster_resource}
use shunt.Admission.Gates.{Kind, at, Gates, gate, no_gates, close}
use shunt.Admission.Gates.Accounting.{Run, start, closes, tokens_for}
use shunt.Admission.Barriers.{Directory, GateKeeper, apply_locked, older}
use shunt.Admission.Barriers.Kept.{barred_by, apply_locked-shut}
use shunt.Admission.Gates.Applying.{shut}
use shunt.Admission.Acks.{Ack, acks, placements_of}
use shunt.Admission.Acks.Proofs.{Idle}
use shunt.Control.{BarrierState}
use shunt.Control.Store.{identity_eq}
use shunt.Control.Drain.{IncarnationState, Member, is_retired, drain_blockers}
use shunt.Control.Drain.Drained.{drained_placement, drained_cluster}
use shunt.Samples.{resting}
use shunt.Samples.Operating.{nobody, held_barrier}

abbrev photos : Str
photos = lit "acme/photos"

abbrev barrier : Str → Barrier
barrier id = record { id = id; kind = barrier_mutations }

-- The placement and its cluster each carry a barrier.
abbrev directory : Directory
directory = record {
  version = 8;
  placements = (photos, record resting { barrier = some (barrier (lit "op-1")) }) ∷ [];
  cluster_barriers = (lit "old", barrier (lit "op-2")) ∷ [];
}

abbrev generation : Str → ℕ
generation res = 8

abbrev gates : Gates
gates = close no_gates photos Kind.mutations (lit "op-1")

run : Run gates []
run = closes photos Kind.mutations (lit "op-1") start

abbrev own : Ack
own = record {
  id = lit "op-1";
  scope = placement_resource photos;
  generation = 8;
  kind = barrier_mutations;
  closed = true;
  inflight = pos 0;
  uncertain = pos 0;
}

abbrev clusters : Ack
clusters = record own { id = lit "op-2"; scope = cluster_resource (lit "old") }

reports : clusters ∷ own ∷ [] ≡ acks gates generation directory
unfolding acks str_eq shunt.Base.str_lt shunt.Directory.Types.cluster_of get shunt.Base.contains
    gate close shunt.Base.put
reports = refl

abbrev pub member : Member
member = record {
  id = lit "p1";
  live = true;
  incarnation = some (record {
    id = lit "i1";
    started = 1;
    ended = 0;
    state = IncarnationState.active;
    uncertain = pos 0;
    attestation = lit "";
    resolved_by = lit "";
    resolved_at = 0;
  });
  unresolved = [];
  retire_requested = false;
  uncertain = pos 0;
  barriers = clusters ∷ own ∷ [];
  identity = nobody;
  applied = 8;
  durable = 8;
  installed = 8;
}

abbrev op2_barrier : BarrierState
op2_barrier = record held_barrier { id = lit "op-2"; scope = cluster_resource (lit "old") }

drained : drain_blockers nobody held_barrier ([] ++ member ∷ []) none none ≡ ok []
unfolding drain_blockers str_eq find
drained = refl

drained2 : drain_blockers nobody op2_barrier ([] ++ member ∷ []) none none ≡ ok []
unfolding drain_blockers str_eq find
drained2 = refl

finds : find (λ a. str_eq a.id (lit "op-1")) member.barriers ≡ some own
unfolding find str_eq
finds = refl

finds2 : find (λ a. str_eq a.id (lit "op-2")) member.barriers ≡ some clusters
unfolding find str_eq
finds2 = refl

active : is_retired member ≡ false
unfolding is_retired
active = refl

drained_placement_example :
    (member.live ≡ true)
    × (identity_eq member.identity nobody ≡ true)
    × (member.unresolved ≡ [])
    × (held_barrier.hold_version ≤ member.durable)
    × (tokens_for photos Kind.mutations [] ≡ 0)
    × (at (gate gates photos).closed Kind.mutations ≡ lit "op-1")
unfolding shunt.Admission.Barriers.kind_of str_eq
drained_placement_example =
    drained_placement nobody held_barrier [] [] member none none generation directory own photos
      Kind.mutations drained active run reports finds refl refl

drained_cluster_example :
    All (Idle gates []) (placements_of directory.cluster_barriers (lit "op-2") directory.placements)
drained_cluster_example =
    drained_cluster nobody op2_barrier [] [] member none none generation directory clusters
      (lit "old") drained2 active run reports finds2 refl

abbrev keeper : GateKeeper
keeper = record { gates = gates; installed = some directory; served = none }

apply_locked-shut_example : shut (gate (apply_locked keeper).gates photos).closed Kind.mutations ≡ (
    barred_by keeper.installed photos Kind.mutations
    || barred_by keeper.served photos Kind.mutations
    || (older keeper.served keeper.installed
        && shut (gate keeper.gates photos).closed Kind.mutations))
unfolding get
apply_locked-shut_example = apply_locked-shut keeper photos Kind.mutations (refl, tt) tt
