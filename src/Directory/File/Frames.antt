-- ===== src/Directory/File/Frames.antt =====
-- internal/directory/mutations.go and scopes.go: the changes of one placement, and the rest of the file.
use shunt.Base.{ℕ, ◌≡◌, Str, str_eq, Bool, false, some, List, get, ok, ◌++◌}
use shunt.Directory.Types.{State, Leg, Barrier}
use shunt.Directory.Guards.{Transition}
use shunt.Directory.File.{File, Tenant, placement_key}
use shunt.Directory.File.Placements.{
  create, delete, set_state, adopt, create_spread, set_target, clear_target, carve, merge,
}
use shunt.Directory.File.Switches.{
  set_placement_read_only, set_barrier, clear_barrier, set_placement_watch, release_read_only,
  placement_scheme,
}

-- The resource of a placement, by which the hold of a read-only change is released.
abbrev pub resource_of : Str → Str → Str
resource_of tenant bucket = placement_scheme ++ placement_key tenant bucket

-- Every change that an operator makes to the placement of one key.
pub data Change (f : File) (tenant bucket : Str) (g : File) : Type 0 where
  creates :
      (cluster backend : Str) (now : ℕ)
      → create f tenant bucket cluster backend now ≡ ok g
      → Change f tenant bucket g
  adopts :
      (cluster backend : Str) (now : ℕ)
      → adopt f tenant bucket cluster backend now ≡ ok g
      → Change f tenant bucket g
  spreads :
      (legs : List Leg) (now : ℕ)
      → create_spread f tenant bucket legs now ≡ ok g
      → Change f tenant bucket g
  deletes : delete f tenant bucket ≡ ok g → Change f tenant bucket g
  steps :
      (from : State) (t : Transition)
      → set_state f tenant bucket from t ≡ ok g
      → Change f tenant bucket g
  targets :
      (cluster backend : Str)
      → set_target f tenant bucket cluster backend ≡ ok g
      → Change f tenant bucket g
  clears_target : clear_target f tenant bucket ≡ ok g → Change f tenant bucket g
  carves : (prefix : Str) → carve f tenant bucket prefix ≡ ok g → Change f tenant bucket g
  merges : (prefix : Str) → merge f tenant bucket prefix ≡ ok g → Change f tenant bucket g
  switches :
      (read_only reject : Bool) (barrier : Str)
      → set_placement_read_only f tenant bucket read_only reject barrier ≡ ok g
      → Change f tenant bucket g
  sets_barrier : (b : Barrier) → set_barrier f tenant bucket b ≡ ok g → Change f tenant bucket g
  clears_barrier : (id : Str) → clear_barrier f tenant bucket id ≡ ok g → Change f tenant bucket g
  releases :
      (id : Str) (read_only reject : Bool)
      → release_read_only f (resource_of tenant bucket) id read_only reject ≡ ok g
      → Change f tenant bucket g
  watches :
      (watch : Bool) → set_placement_watch f tenant bucket watch ≡ ok g → Change f tenant bucket g

-- The file with one placement put or taken away, and at most a tenant added.
record IsLocal (f : File) (k : Str) (g : File) : Type 0 where
  others : (j : Str) → str_eq k j ≡ false → get g.placements j ≡ get f.placements j
  clusters : g.clusters ≡ f.clusters
  tenants : (x : Str) (t : Tenant) → get f.tenants x ≡ some t → get g.tenants x ≡ some t
