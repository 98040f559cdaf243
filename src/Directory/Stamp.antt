-- ===== src/Directory/Stamp.antt =====
-- internal/directory/identity.go: the resources of a directory, their generations, and what Stamp gives
-- a file that a write produced. NewIdentity draws random bytes, so the identity that it drew is an
-- argument; and so is sameJSON's comparison, which is reflect.DeepEqual's and encoding/json's.
pub mod Generations
use shunt.Base.{
  ℕ, Str, lit, is_empty, Bool, true, false, ◌&&◌, ◌||◌, not, none, some, List, [], ◌∷◌, ◌++◌,
  if◌then◌else◌, ltb, leb, ◌==◌, length, all, Map, get, put,
}
use shunt.Directory.Types.{Placement}
use shunt.Directory.File.{Cluster, Tenant, Identity, File}

abbrev pub schema_version : ℕ
schema_version = 2

abbrev pub placement_resource : Str → Str
placement_resource key = lit "placement:" ++ key

abbrev pub cluster_resource : Str → Str
cluster_resource name = lit "cluster:" ++ name

abbrev pub secret_resource : Str → Str
secret_resource name = lit "secret:" ++ name

abbrev pub tenant_resource : Str → Str
tenant_resource name = lit "tenant:" ++ name

-- IsZero
abbrev pub is_zero_identity : Identity → Bool
is_zero_identity i = is_empty i.cluster_id && is_empty i.epoch

-- One character of validID.
is_hex_digit : ℕ → Bool
is_hex_digit c = (leb 48 c && leb c 57) || (leb 97 c && leb c 102)

unfoldable pub valid_id : Str → Bool
unfolding is_hex_digit
valid_id s = length s == 32 && all is_hex_digit s

unfoldable pub valid_identity : Identity → Bool
unfolding valid_id
valid_identity i = valid_id i.cluster_id && valid_id i.epoch

-- File.Generation, on the generations.
unfoldable pub generation_of : Map ℕ → Str → ℕ
generation_of gens resource = elim (get gens resource) [ none ↦ 0 | some g ↦ g ]

unfoldable pub generation : File → Str → ℕ
unfolding generation_of
generation f resource = generation_of f.generations resource

-- had && same, for an entry of a map.
unfoldable pub unchanged {ℓ} : {V : Type ℓ} → (V → V → Bool) → Map V → Map V → Str → Bool
unchanged same prev next k = elim (get prev k) [
  | none ↦ false
  | some old ↦ elim (get next k) [ none ↦ false | some new ↦ same old new ]
]

-- The closure `stamp`.
stamp_one : Map ℕ → ℕ → Str → Bool → Map ℕ → Map ℕ
unfolding generation_of
stamp_one prev version res same gens =
    if not same
    then put gens res version
    else if ltb 0 (generation_of prev res)
    then put gens res (generation_of prev res)
    else gens

-- One range loop of Stamp: over the entries of `next`, named by `resource`.
stamp_all {ℓ} : {V : Type ℓ} → Map ℕ → ℕ → (Str → Str) → (Str → Bool) → Map V → Map ℕ → Map ℕ
unfolding stamp_one
stamp_all prev version resource same [] gens = gens
stamp_all prev version resource same ((k, v) ∷ rest) gens =
    stamp_all prev version resource same rest (stamp_one prev version (resource k) (same k) gens)

-- A secret's generation is carried.
stamp_secrets : Map ℕ → Map Cluster → Map ℕ → Map ℕ
unfolding generation_of
stamp_secrets prev [] gens = gens
stamp_secrets prev ((name, c) ∷ rest) gens =
    let g = generation_of prev (secret_resource name) in
    stamp_secrets prev rest (if ltb 0 g then put gens (secret_resource name) g else gens)

stamp_changed : ℕ → List Str → Map ℕ → Map ℕ
stamp_changed version [] gens = gens
stamp_changed version (res ∷ rest) gens = stamp_changed version rest (put gens res version)

-- What Stamp compares records with.
pub record Compare : Type 0 where
  pub placements : Placement → Placement → Bool
  pub clusters : Cluster → Cluster → Bool
  pub tenants : Tenant → Tenant → Bool

stamped_generations : Compare → File → File → List Str → Map ℕ
unfolding unchanged stamp_all stamp_secrets stamp_changed
stamped_generations same prev next changed =
    let old = prev.generations in
    let v = next.version in
    let ps = unchanged same.placements prev.placements next.placements in
    let cs = unchanged same.clusters prev.clusters next.clusters in
    let ts = unchanged same.tenants prev.tenants next.tenants in
    let placed = stamp_all old v placement_resource ps next.placements [] in
    let clustered = stamp_all old v cluster_resource cs next.clusters placed in
    let tenanted = stamp_all old v tenant_resource ts next.tenants clustered in
    stamp_changed v changed (stamp_secrets old next.clusters tenanted)

unfoldable pub stamp : Compare → Identity → File → File → List Str → File
unfolding stamped_generations
stamp same drawn prev next changed = record next {
  schema = schema_version;
  identity = (if is_zero_identity prev.identity then drawn else prev.identity);
  generations = stamped_generations same prev next changed;
}

-- The generations of validateLineage: each within 1..version.
unfoldable pub generations_in_range : ℕ → Map ℕ → Bool
generations_in_range version [] = true
generations_in_range version ((res, g) ∷ rest) =
    ltb 0 g && leb g version && generations_in_range version rest

-- validateLineage finds nothing.
unfoldable pub lineage_valid : File → Bool
unfolding valid_identity generations_in_range
lineage_valid f =
    leb f.schema schema_version
    && (is_zero_identity f.identity || valid_identity f.identity)
    && generations_in_range f.version f.generations
