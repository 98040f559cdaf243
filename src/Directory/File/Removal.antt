-- ===== src/Directory/File/Removal.antt =====
-- internal/directory: what RemoveCluster takes away, and References.
use shunt.Base.{
  ◌≡◌, refl, sym, ap, ◌∙◌, Str, str_eq, str_eq_iff, Bool, true, false, none, some, List, [], ◌∷◌,
  ◌++◌, if◌then◌else◌, Map, get, any, All, ◌≢◌, Option, remove, get-remove, insert_key, sorted_keys,
  keep, null, map, ok, arith,
}
use shunt.Directory.Types.{Placement, Leg}
use shunt.Directory.File.{File, Tenant, references, uses_cluster, default_of, placement_uses}
use shunt.Directory.File.Clusters.{remove_cluster}

keep-insert_key :
    (f : Str → Bool) (k : Str) (ks : List Str)
    → null (keep f (insert_key k ks)) ≡ true
    → (f k ≡ false) × (null (keep f ks) ≡ true)
unfolding keep insert_key
keep-insert_key f k [] h = ground arith
keep-insert_key f k (x ∷ ks) h = ground (arith, keep-insert_key f k ks)

-- No key passes a test that keeps none of them.
none_kept {ℓ} :
    {V : Type ℓ} (f : Str → Bool) (m : Map V) (k : Str) (v : V)
    → null (keep f (sorted_keys m)) ≡ true
    → get m k ≡ some v
    → f k ≡ false
unfolding get sorted_keys
none_kept f [] k v h g = cc
none_kept f ((j, w) ∷ m) k v h g =
    let (now, later) = keep-insert_key f j (sorted_keys m) h in
    ground (arith, now, none_kept f m k v later, str_eq_iff j k)

null-map {ℓ} :
    {A : Type ℓ} (f : A → Str) (xs : List A) (ys : List Str)
    → null (map f xs ++ ys) ≡ true
    → (null xs ≡ true) × (null ys ≡ true)
null-map f [] ys h = (refl, h)
null-map f (x ∷ xs) ys h = cc

null-map_only {ℓ} :
    {A : Type ℓ} (f : A → Str) (xs : List A) → null (map f xs) ≡ true → null xs ≡ true
null-map_only f [] h = refl
null-map_only f (x ∷ xs) h = cc

default_of-some :
    (m : Map Tenant) (x : Str) (t : Tenant) → get m x ≡ some t → default_of m x ≡ t.default_cluster
unfolding default_of
default_of-some m x t e = ground arith

placement_uses-some :
    (m : Map Placement) (k : Str) (p : Placement) (name : Str)
    → get m k ≡ some p
    → placement_uses m name k ≡ uses_cluster p name
unfolding placement_uses
placement_uses-some m k p name e = ground arith

-- No placement and no tenant of a file names a cluster.
record IsUnused (f : File) (name : Str) : Type 0 where
  placements : (k : Str) (p : Placement) → get f.placements k ≡ some p → uses_cluster p name ≡ false
  tenants :
      (x : Str) (t : Tenant) → get f.tenants x ≡ some t → str_eq t.default_cluster name ≡ false

references-IsUnused : (f : File) (name : Str) → null (references f name) ≡ true → IsUnused f name
unfolding references
references-IsUnused f name h =
    let (no_tenant, no_rest) = null-map _ _ _ h in
    let no_placement = null-map_only _ _ no_rest in
    record {
      placements = λ k p e.
          sym (placement_uses-some f.placements k p name e)
          ∙ none_kept (placement_uses f.placements name) f.placements k p no_placement e;
      tenants = λ x t e.
          sym (ap (λ c. str_eq c name) (default_of-some f.tenants x t e))
          ∙ none_kept (λ n. str_eq (default_of f.tenants n) name) f.tenants x t no_tenant e;
    }

removed :
    (f g : File) (name : Str)
    → remove_cluster f name ≡ ok g
    → (null (references f name) ≡ true) × (g ≡ record f { clusters = remove f.clusters name })
unfolding remove_cluster
removed f g name e = ground arith

-- A placement that names a cluster in no role, by no name of a bucket, and on no leg.
pub record IsUnnamed (p : Placement) (name : Str) : Type 0 where
  pub not_primary : p.primary ≢ name
  pub not_source : p.source ≢ name
  pub not_target : p.target ≢ name
  pub not_cold : p.cold ≢ name
  pub no_bucket : get p.names name ≡ none
  pub no_leg : All (λ e. e.1.cluster ≢ name) p.legs

none_on :
    (legs : Map Leg) (name : Str)
    → any (λ e. str_eq e.1.cluster name) legs ≡ false
    → All (λ e. e.1.cluster ≢ name) legs
unfolding any
none_on [] name h = tt
none_on ((id, l) ∷ legs) name h =
    (λ e. ground (arith, h, str_eq_iff l.cluster name, e), none_on legs name (ground (arith, h)))

uses_cluster-IsUnnamed :
    (p : Placement) (name : Str) → uses_cluster p name ≡ false → IsUnnamed p name
unfolding uses_cluster
uses_cluster-IsUnnamed p name h = record {
  not_primary = λ e. ground (arith, h, str_eq_iff p.primary name, e);
  not_source = λ e. ground (arith, h, str_eq_iff p.source name, e);
  not_target = λ e. ground (arith, h, str_eq_iff p.target name, e);
  not_cold = λ e. ground (arith, h, str_eq_iff p.cold name, e);
  no_bucket = unnamed (get p.names name) refl;
  no_leg = none_on p.legs name (ground (arith, h));
}
  where
    unnamed : (o : Option Str) → get p.names name ≡ o → get p.names name ≡ none
    unnamed none e = e
    unnamed (some b) e = absurd (ground (arith, h, e))

-- A cluster that RemoveCluster takes away is named by no placement in any role, by no name of a bucket
-- and on no leg; every placement stays, and of the clusters that one alone goes.
pub remove_cluster_placement :
    (f g : File) (name k j : Str) (p : Placement)
    → remove_cluster f name ≡ ok g
    → get f.placements k ≡ some p
    → IsUnnamed p name
      × (get g.placements k ≡ some p)
      × (get g.clusters j ≡ (if str_eq name j then none else get f.clusters j))
remove_cluster_placement f g name k j p e had =
    let (unused, form) = removed f g name e in
    (
      uses_cluster-IsUnnamed p name ((references-IsUnused f name unused).placements k p had),
      rw form had,
      rw form (get-remove f.clusters name j),
    )

-- A cluster that RemoveCluster takes away is the default of no tenant, and every tenant stays.
pub remove_cluster_tenant :
    (f g : File) (name x : Str) (t : Tenant)
    → remove_cluster f name ≡ ok g
    → get f.tenants x ≡ some t
    → (str_eq t.default_cluster name ≡ false) × (get g.tenants x ≡ some t)
remove_cluster_tenant f g name x t e had =
    let (unused, form) = removed f g name e in
    ((references-IsUnused f name unused).tenants x t had, rw form had)
