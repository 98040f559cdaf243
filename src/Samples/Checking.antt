-- ===== src/Samples/Checking.antt =====
-- A directory file that is accepted, a placement written in schema v2, and a fleet on a version.
use shunt.Base.{
  ◌≤◌, ◌≡◌, ◌⊎◌, ◌↔◌, inl, inr, refl, Str, lit, Bool, true, false, Option, none, some, List, [],
  ◌∷◌, All, get, arith,
}
use shunt.Directory.Types.{spread}
use shunt.Directory.Schema.{from_v2, to_v2}
use shunt.Directory.Schema.Roundtrip.{IsPlain, IsMoving, from_v2-to_v2}
use shunt.Directory.Validate.{buckets, validate}
use shunt.Directory.Validate.Buckets.{among, validate-one_bucket}
use shunt.Directory.Validate.Placed.{HasRoles, validate-HasRoles}
use shunt.Directory.File.{File}
use shunt.Control.Fence.{version_blockers}
use shunt.Control.Fence.Reached.{IsReady, version_blockers_iff}
use shunt.Samples.{half_moved}
use shunt.Samples.Filing.{file, some_cluster}
use shunt.Samples.Operating.{nobody}
use shunt.Samples.Draining.{member}

version_blockers_iff_example :
    (version_blockers nobody 8 (member ∷ []) ≡ []) ↔ All (IsReady nobody 8) (member ∷ [])
version_blockers_iff_example = version_blockers_iff nobody 8 (member ∷ [])

plain : IsPlain half_moved
unfolding get shunt.Base.all shunt.Base.str_eq shunt.Directory.Start.is_leg_id
plain = record {
  no_legs = refl;
  no_owners = refl;
  no_hash = refl;
  no_move = refl;
  no_rules = refl;
  names_once = (refl, (refl, tt));
  names_few = omega arith;
  names_ok = refl;
  primary_named = refl;
  target_named = refl;
  cold_named = refl;
}

moving : IsMoving half_moved
unfolding get shunt.Base.str_eq
moving = record { not_active = refl; source_named = refl; apart = refl }

from_v2-to_v2_example : from_v2 (to_v2 half_moved) ≡ some half_moved
from_v2-to_v2_example = from_v2-to_v2 half_moved plain (inr moving)

-- Half of its keys moved, between two clusters of the file.
abbrev moved : File
moved = record file {
  clusters = (lit "old", some_cluster) ∷ (lit "new", some_cluster) ∷ [];
  placements = (lit "acme/photos", half_moved) ∷ [];
}

accepted : validate (λ cs. true) (λ s. false) moved ≡ true
unfolding validate shunt.Base.sorted_keys get shunt.Base.str_eq shunt.Directory.Stamp.lineage_valid
    shunt.Base.all spread shunt.Directory.Validate.tenant_ok
    shunt.Directory.Validate.validate_placements shunt.Directory.Validate.validate_placement
    shunt.Directory.Validate.key_ok shunt.Base.any shunt.Base.has_prefix
    shunt.Directory.Validate.shape_ok shunt.Directory.Validate.plain_ok
    shunt.Directory.Validate.target_ok shunt.Directory.Validate.barrier_ok
    shunt.Directory.Validate.source_ok shunt.Directory.Validate.ramp_ok shunt.Base.Float.flt
    shunt.Base.Float.is_zero shunt.Directory.Validate.role_named shunt.Directory.Validate.tier_ok
    shunt.Directory.Validate.take_buckets buckets
accepted = refl

there : get moved.placements (lit "acme/photos") ≡ some half_moved
unfolding get shunt.Base.str_eq
there = refl

its_own : among (buckets half_moved) (lit "old") (lit "photos") ≡ true
unfolding buckets spread shunt.Base.str_eq
its_own = refl

validate-one_bucket_example : ◌≡◌ {A = Str} (lit "acme/photos") (lit "acme/photos")
validate-one_bucket_example =
    validate-one_bucket (λ cs. true) (λ s. false) moved (lit "acme/photos") (lit "acme/photos")
      half_moved half_moved (lit "old") (lit "photos") accepted there there its_own its_own

validate-HasRoles_example : HasRoles moved.clusters half_moved
unfolding spread
validate-HasRoles_example =
    validate-HasRoles (λ cs. true) (λ s. false) moved (lit "acme/photos") half_moved accepted there
      refl
