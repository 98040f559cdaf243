-- ===== src/Samples/Filing.antt =====
-- Changes of a directory file.
use shunt.Base.{
  ℕ, ◌≡◌, refl, Str, lit, str_eq, is_empty, Bool, true, false, Option, none, some, List, [], ◌∷◌,
  ◌++◌, if◌then◌else◌, Map, get, Result, ok, err,
}
use shunt.Directory.Types.{Barrier, barrier_source, conflict}
use shunt.Directory.File.{
  File, Tenant, Cluster, ClusterTls, Credentials, Capabilities, uses_cluster,
}
use shunt.Directory.File.Switches.{set_barrier, clear_barrier}
use shunt.Directory.File.Clusters.{remove_cluster}
use shunt.Directory.File.Removal.{IsUnnamed, remove_cluster_placement}
use shunt.Directory.File.Switches.Holds.{clear_barrier-set_barrier}
use shunt.Samples.{resting}

abbrev pub some_cluster : Cluster
some_cluster = record {
  type_name = lit "minio";
  scheme = lit "https";
  region = lit "r1";
  endpoint_mode = lit "static";
  endpoints = lit "10.0.0.1:9000" ∷ [];
  endpoint = lit "";
  tls = record { ca = lit ""; insecure_skip_verify = false };
  credentials = record { access_key = lit "AK"; secret_ref = lit "env:SK" };
  storage_classes = lit "";
  storage_class = lit "";
  access = lit "";
  capabilities = record {
    enforces_sha256 = none;
    unsigned_trailer = none;
    conditional_write = none;
    conditional_delete = none;
  };
  read_only = false;
  reject_writes = false;
  barrier = none;
}

abbrev pub acme : Tenant
acme = record { default_cluster = lit "old" }

-- Two clusters, one of them in use.
abbrev pub file : File
file = record {
  version = 7;
  schema = 2;
  identity = record { cluster_id = lit ""; epoch = lit "" };
  generations = [];
  clusters = (lit "old", some_cluster) ∷ (lit "spare", some_cluster) ∷ [];
  tenants = (lit "acme", acme) ∷ [];
  placements = (lit "acme/photos", resting) ∷ [];
}

abbrev removed : File
removed = record file { clusters = (lit "old", some_cluster) ∷ [] }

removes : remove_cluster file (lit "spare") ≡ ok removed
unfolding remove_cluster get str_eq shunt.Directory.File.references shunt.Base.keep
    shunt.Base.sorted_keys shunt.Base.any shunt.Base.remove
removes = refl

photos_there : get file.placements (lit "acme/photos") ≡ some resting
unfolding get str_eq
photos_there = refl

remove_cluster_placement_example :
    IsUnnamed resting (lit "spare")
    × (get removed.placements (lit "acme/photos") ≡ some resting)
    × (get removed.clusters (lit "old")
        ≡ (if str_eq (lit "spare") (lit "old") then none else get file.clusters (lit "old")))
remove_cluster_placement_example =
    remove_cluster_placement file removed (lit "spare") (lit "acme/photos") (lit "old") resting
      removes photos_there

abbrev barrier : Barrier
barrier = record { id = lit "op-2"; kind = barrier_source }

abbrev barred : File
barred = record file {
  placements = (lit "acme/photos", record resting { barrier = some barrier }) ∷ [];
}

bars : set_barrier file (lit "acme") (lit "photos") barrier ≡ ok barred
unfolding set_barrier get str_eq shunt.Base.put
bars = refl

clear_barrier-set_barrier_example :
    (h : File) × ((id : Str)
      → clear_barrier barred (lit "acme") (lit "photos") id
        ≡ (if str_eq (lit "op-2") id then ok h else err conflict))
    × ((j : Str) → get h.placements j ≡ get file.placements j)
clear_barrier-set_barrier_example =
    clear_barrier-set_barrier file barred (lit "acme") (lit "photos") barrier bars

abbrev with_logs : File
with_logs = record file {
  placements =
      (lit "acme/photos", resting)
      ∷ (lit "acme/logs", record resting { names = (lit "old", lit "logs") ∷ []; created = 5 })
      ∷ [];
}
