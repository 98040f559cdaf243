-- ===== src/Directory/File.antt =====
-- internal/directory: the directory file. Its types (directory.go, and internal/config/config.go for
-- a cluster), what refers to a cluster, and who uses a backend's bucket. Times are in milliseconds,
-- as the file truncates them. A nil map reads as an empty one.
pub mod Placements
pub mod Switches
pub mod Clusters
pub mod Frames
pub mod Removal
use shunt.Base.{
  ℕ, Str, lit, is_empty, str_eq, Bool, true, false, ◌&&◌, ◌||◌, not, Option, none, some, List, [],
  ◌∷◌, ◌++◌, if◌then◌else◌, any, keep, map, Map, get, has, put, sorted_keys, Result, ok, err,
}
use shunt.Directory.Types.{Barrier, Placement, Err, not_found, name_of}

pub record ClusterTls : Type 0 where
  pub ca : Str
  pub insecure_skip_verify : Bool

pub record Credentials : Type 0 where
  pub access_key : Str
  pub secret_ref : Str

pub record Capabilities : Type 0 where
  pub enforces_sha256 : Option Bool
  pub unsigned_trailer : Option Bool
  pub conditional_write : Option Bool
  pub conditional_delete : Option Bool

pub record Cluster : Type 0 where
  pub type_name : Str
  pub scheme : Str
  pub region : Str
  pub endpoint_mode : Str
  pub endpoints : List Str
  pub endpoint : Str
  pub tls : ClusterTls
  pub credentials : Credentials
  pub storage_classes : Str
  pub storage_class : Str
  pub access : Str
  pub capabilities : Capabilities
  pub read_only : Bool
  pub reject_writes : Bool
  pub barrier : Option Barrier

pub record Tenant : Type 0 where
  pub default_cluster : Str

pub record Identity : Type 0 where
  pub cluster_id : Str
  pub epoch : Str

pub record File : Type 0 where
  pub version : ℕ
  pub schema : ℕ
  pub identity : Identity
  pub generations : Map ℕ
  pub clusters : Map Cluster
  pub tenants : Map Tenant
  pub placements : Map Placement

-- Key
unfoldable pub placement_key : Str → Str → Str
placement_key tenant bucket = tenant ++ lit "/" ++ bucket

-- f.Placements[k], or ErrNotFound.
unfoldable pub placement_at : File → Str → Result Err Placement
placement_at f k = elim (get f.placements k) [ none ↦ err not_found | some p ↦ ok p ]

unfoldable pub cluster_at : File → Str → Result Err Cluster
cluster_at f name = elim (get f.clusters name) [ none ↦ err not_found | some c ↦ ok c ]

-- f.Placements[k] = p
abbrev pub set_placement : File → Str → Placement → File
set_placement f k p = record f { placements = put f.placements k p }

abbrev pub set_cluster : File → Str → Cluster → File
set_cluster f name c = record f { clusters = put f.clusters name c }

-- b == nil || b.ID != id
unfoldable pub lacks : Option Barrier → Str → Bool
lacks none id = true
lacks (some b) id = not (str_eq b.id id)

-- b != nil && b.ID != id
unfoldable pub has_other : Option Barrier → Str → Bool
has_other none id = false
has_other (some b) id = not (str_eq b.id id)

-- The default cluster of a tenant that is there.
default_of : Map Tenant → Str → Str
default_of m name = elim (get m name) [ none ↦ lit "" | some t ↦ t.default_cluster ]

-- A placement that names a cluster in any role.
unfoldable pub uses_cluster : Placement → Str → Bool
uses_cluster p cluster =
    str_eq p.primary cluster
    || str_eq p.source cluster
    || str_eq p.target cluster
    || str_eq p.cold cluster
    || has p.names cluster
    || any (λ e. str_eq e.1.cluster cluster) p.legs

placement_uses : Map Placement → Str → Str → Bool
unfolding uses_cluster
placement_uses m cluster k = elim (get m k) [ none ↦ false | some p ↦ uses_cluster p cluster ]

unfoldable pub references : File → Str → List Str
unfolding default_of placement_uses
references f cluster =
    map (λ name. lit "tenants." ++ name ++ lit ".default_cluster")
      (keep (λ name. str_eq (default_of f.tenants name) cluster) (sorted_keys f.tenants))
    ++ map (λ k. lit "placements." ++ k)
        (keep (placement_uses f.placements cluster) (sorted_keys f.placements))

uses_bucket : Placement → Str → Str → Bool
uses_bucket p cluster name =
    str_eq (name_of p.names cluster) name
    || any (λ e. str_eq e.1.cluster cluster && str_eq e.1.bucket name) p.legs

first_user : Map Placement → Str → Str → Str → Str
unfolding uses_bucket
first_user [] cluster name except = lit ""
first_user ((k, p) ∷ rest) cluster name except =
    let later = first_user rest cluster name except in
    if str_eq k except then later else if uses_bucket p cluster name then k else later

-- BucketUser. Go visits a map in any order; the model visits it in the order of its list.
unfoldable pub bucket_user : File → Str → Str → Str → Str
unfolding first_user
bucket_user f cluster name except =
    if is_empty name then lit "" else first_user f.placements cluster name except
