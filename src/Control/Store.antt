-- ===== src/Control/Store.antt =====
-- MemOperations: the operation records of a single node, and what reserves a scope
-- (internal/control/scope.go, and Get, Evidence and OwnerLive of operation.go). A call runs under the
-- lock, so it is one step. OnChange, which only reports the record, is not modelled.
pub mod Exclusive
pub mod Sequence
use shunt.Base.{
  ℕ, suc, ◌+◌, ◌*◌, Str, lit, is_empty, str_eq, contains, has_prefix, Bool, false, ◌&&◌, ◌||◌, not,
  Option, none, some, List, [], ◌∷◌, ◌++◌, if◌then◌else◌, ltb, leb, ◌==◌, drop, length, is_some,
  Map, get, put, remove, has, Result, ok, err, unless,
}
use shunt.Directory.File.{File, Identity}
use shunt.Directory.Stamp.{is_zero_identity, generation}
use shunt.Control.{Scope, Operation, Fail, terminal, is_uncertain}

pub record MemOperations : Type 0 where
  pub order : List Str
  pub by_id : Map Operation
  pub idem : Map Str

-- What the store is made with.
pub record Setup : Type 0 where
  pub limit : ℕ
  pub dir : Option File
  pub capacity : ℕ
  pub node : Str

abbrev cluster_scheme : Str
cluster_scheme = lit "cluster:"

-- Scope.cluster
unfoldable pub scope_cluster : Scope → Option Str
scope_cluster sc =
    if has_prefix sc.resource cluster_scheme
    then some (drop (length cluster_scheme) sc.resource)
    else none

unfoldable pub touches : Scope → Str → Bool
unfolding scope_cluster
touches sc cluster = not (is_some (scope_cluster sc)) && contains sc.clusters cluster

-- The error of conflict for one unfinished operation.
unfoldable pub conflict_with : Scope → Str → Scope → Option Fail
unfolding scope_cluster touches
conflict_with sc owner held =
    if str_eq held.resource sc.resource
    then some (Fail.scope_busy sc.resource owner (lit ""))
    else elim (scope_cluster sc) [
      | some cl ↦
          if touches held cl then some (Fail.scope_busy sc.resource owner held.resource) else none
      | none ↦ elim (scope_cluster held) [
        | some ocl ↦
            if contains sc.clusters ocl
            then some (Fail.scope_busy sc.resource owner held.resource)
            else none
        | none ↦ none
      ]
    ]

conflict_of : Scope → Operation → Option Fail
unfolding conflict_with
conflict_of sc o = elim o.scope [
  | none ↦ none
  | some held ↦ if terminal o then none else conflict_with sc o.id held
]

unfoldable pub conflict : Scope → Map Operation → Option Fail
unfolding conflict_of
conflict sc [] = none
conflict sc ((k, o) ∷ rest) = elim (conflict_of sc o) [ some e ↦ some e | none ↦ conflict sc rest ]

abbrev pub identity_eq : Identity → Identity → Bool
identity_eq a b = str_eq a.cluster_id b.cluster_id && str_eq a.epoch b.epoch

-- LineageMismatch
lineage_mismatch : Identity → Identity → Fail
lineage_mismatch cur have =
    if str_eq have.cluster_id cur.cluster_id then Fail.epoch_mismatch else Fail.cluster_mismatch

unfoldable pub check_lineage : File → Identity → ℕ → Option Fail
unfolding lineage_mismatch
check_lineage f have v =
    if is_zero_identity have
    then none
    else if not (identity_eq have f.identity)
    then some (lineage_mismatch f.identity have)
    else if ltb f.version v
    then some Fail.resync_required
    else none

check_generation : File → Scope → Option Fail
unfolding generation
check_generation f sc =
    if generation f sc.resource == sc.generation
    then none
    else some (Fail.generation_conflict sc.resource sc.generation (generation f sc.resource))

unfoldable pub check_scope : File → Operation → Option Fail
unfolding check_lineage check_generation
check_scope f op =
    if not (is_zero_identity op.identity) && not (identity_eq op.identity f.identity)
    then check_lineage f op.identity 0
    else elim op.scope [ none ↦ none | some sc ↦ check_generation f sc ]

-- Seven days.
abbrev pub idempotency_retention : ℕ
idempotency_retention = 7 * 24 * 3600 * 1000000000

unfoldable pub prunable : ℕ → Operation → Bool
prunable now op =
    if not (terminal op) || is_uncertain op.effect_state
    then false
    else is_empty op.request_id || leb (op.updated + idempotency_retention) now

unfoldable pub replay : Operation → Operation → Fail
replay op existing =
    if str_eq existing.intent_digest op.intent_digest
    then Fail.idempotent_replay existing
    else Fail.idempotency_conflict existing.id

unfinished : Map Operation → ℕ
unfinished [] = 0
unfinished ((k, o) ∷ rest) = let n = unfinished rest in if terminal o then n else suc n

default_limit : ℕ → ℕ → ℕ
default_limit given default = if given == 0 then default else given

-- The SHA-256 of the standard library, in hexadecimal.
module _ (sha256_hex : Str → Str) where
  -- IdempotencyIndex
  unfoldable pub idempotency_index : Operation → Str
  idempotency_index op =
      sha256_hex
        (lit "shunt-idempotency-v1" ++ 0 ∷ op.identity.epoch ++ 0 ∷ op.actor ++ 0 ∷ op.request_id)

  drop_record : MemOperations → Str → Operation → MemOperations
  unfolding idempotency_index
  drop_record m id op = record m {
    by_id = remove m.by_id id;
    idem = (if is_empty op.request_id then m.idem else remove m.idem (idempotency_index op));
  }

  trim_one : ℕ → MemOperations → Str → Option MemOperations
  unfolding prunable drop_record
  trim_one now m id = elim (get m.by_id id) [
    | none ↦ none
    | some op ↦ if prunable now op then some (drop_record m id op) else none
  ]

  -- The loop of trim, from one index of the order on. `kept` is what it has passed.
  trim_from : ℕ → ℕ → List Str → List Str → MemOperations → MemOperations
  unfolding trim_one
  trim_from now limit kept [] m = record m { order = kept }
  trim_from now limit kept (id ∷ ids) m =
      let dropped = trim_one now m id in
      let go_on = trim_from now limit (kept ++ id ∷ []) ids m in
      if ltb limit (length kept + length (id ∷ ids))
      then elim dropped [ some m' ↦ trim_from now limit kept ids m' | none ↦ go_on ]
      else record m { order = kept ++ id ∷ ids }

  unfoldable pub trim : Setup → ℕ → MemOperations → MemOperations
  unfolding trim_from default_limit
  trim setup now m = trim_from now (default_limit setup.limit 1000) [] m.order m

  -- The index names records of the store only: trim drops its entries with their records.
  already_used : MemOperations → Operation → Option Fail
  unfolding idempotency_index replay
  already_used m op =
      if is_empty op.request_id then none else elim (get m.idem (idempotency_index op)) [
        | none ↦ none
        | some id ↦ elim (get m.by_id id) [
          | none ↦ none
          | some existing ↦ some (replay op existing)
        ]
      ]

  -- The capacity, the directory and the other scopes, for an operation that has one.
  unfoldable pub reserve : Setup → MemOperations → Operation → Option Fail
  unfolding unfinished default_limit check_scope conflict
  reserve setup m op = elim op.scope [
    | none ↦ none
    | some sc ↦
        let limit = default_limit setup.capacity 256 in
        if leb limit (unfinished m.by_id) then some (Fail.capacity limit) else elim setup.dir [
          | none ↦ conflict sc m.by_id
          | some f ↦ elim (check_scope f op) [ some e ↦ some e | none ↦ conflict sc m.by_id ]
        ]
  ]

  unfoldable pub add_record : MemOperations → Operation → MemOperations
  unfolding idempotency_index
  add_record m op = record {
    order = m.order ++ op.id ∷ [];
    by_id = put m.by_id op.id op;
    idem = (if is_empty op.request_id then m.idem else put m.idem (idempotency_index op) op.id);
  }

  unfoldable pub create : Setup → ℕ → MemOperations → Operation → Result Fail MemOperations
  unfolding already_used reserve add_record trim
  create setup now m op =
      if has m.by_id op.id
      then err Fail.exists
      else unless (already_used m op)
          (unless (reserve setup m op) (ok (trim setup now (add_record m op))))

  -- Update: the stored sequence is one before the written one.
  unfoldable pub update : Setup → ℕ → MemOperations → Operation → Result Fail MemOperations
  unfolding trim
  update setup now m op = elim (get m.by_id op.id) [
    | none ↦ err Fail.unknown_operation
    | some cur ↦
        if suc cur.sequence == op.sequence
        then ok (trim setup now (record m { by_id = put m.by_id op.id op }))
        else err Fail.stale_sequence
  ]

-- Get
abbrev pub get_record : MemOperations → Str → Option Operation
get_record m id = get m.by_id id

evidence_of : MemOperations → List Str → List Operation
evidence_of m [] = []
evidence_of m (id ∷ ids) =
    let older = evidence_of m ids in
    elim (get m.by_id id) [
      | none ↦ older
      | some op ↦
          if not (terminal op) || is_uncertain op.effect_state then older ++ op ∷ [] else older
    ]

-- Newest first.
unfoldable pub evidence : MemOperations → List Operation
unfolding evidence_of
evidence m = evidence_of m m.order

unfoldable pub owner_live : Setup → Str → Bool
owner_live setup node = str_eq node (if is_empty setup.node then lit "lab" else setup.node)
