-- ===== src/Directory/File/Clusters.antt =====
-- internal/directory/mutations.go: the changes of clusters and tenants. ApplyClusterDefaults is of
-- internal/config/config.go.
use shunt.Base.{
  Str, lit, is_empty, str_eq, not, none, some, [], ◌∷◌, if◌then◌else◌, null, Map, get, has, put,
  remove, Result, ok, err,
}
use shunt.Directory.Types.{Err, not_found, conflict, in_use}
use shunt.Directory.File.{File, Cluster, references}

with_default : Cluster → Cluster
with_default c = if is_empty c.endpoint_mode then record c { endpoint_mode = lit "static" } else c

unfoldable pub apply_cluster_defaults : Map Cluster → Map Cluster
unfolding with_default
apply_cluster_defaults [] = []
apply_cluster_defaults ((name, c) ∷ rest) = (name, with_default c) ∷ apply_cluster_defaults rest

unfoldable pub put_cluster : File → Str → Cluster → File
put_cluster f name c = record f { clusters = apply_cluster_defaults (put f.clusters name c) }

unfoldable pub remove_cluster : File → Str → Result Err File
remove_cluster f name =
    if not (has f.clusters name)
    then err not_found
    else if not (null (references f name))
    then err in_use
    else ok (record f { clusters = remove f.clusters name })

unfoldable pub set_tenant_default : File → Str → Str → Result Err File
set_tenant_default f tenant cluster = elim (get f.tenants tenant) [
  | none ↦ err not_found
  | some t ↦
      if not (has f.clusters cluster)
      then err not_found
      else if str_eq t.default_cluster cluster
      then err conflict
      else ok (record f { tenants = put f.tenants tenant (record { default_cluster = cluster }) })
]
