-- ===== src/Samples/Stamping.antt =====
-- A file that a write produced, and its generations.
use shunt.Base.{
  ℕ, ◌<◌, ◌≡◌, refl, Str, lit, contains, Bool, true, false, ◌||◌, not, is_some, none, some, [], ◌∷◌,
  if◌then◌else◌, Map, get, arith,
}
use shunt.Directory.File.{Identity, File}
use shunt.Directory.Stamp.{
  Compare, placement_resource, generation, unchanged, stamp, valid_identity, lineage_valid,
}
use shunt.Directory.Stamp.Generations.{generation-stamp, stamp-lineage_valid}
use shunt.Samples.{resting}
use shunt.Samples.Filing.{file}

-- A comparison that takes records for different unless they are read-only alike.
abbrev bool_eq : Bool → Bool → Bool
bool_eq true b = b
bool_eq false b = not b

abbrev same : Compare
same = record {
  placements = λ a b. bool_eq a.read_only b.read_only;
  clusters = λ a b. bool_eq a.read_only b.read_only;
  tenants = λ a b. true;
}

abbrev drawn : Identity
drawn = record {
  cluster_id = lit "00112233445566778899aabbccddeeff";
  epoch = lit "ffeeddccbbaa99887766554433221100";
}

abbrev next : File
next = record file {
  version = 8;
  placements =
      (lit "acme/photos", record resting { read_only = true }) ∷ (lit "acme/logs", resting) ∷ [];
}

photos_there : is_some (get next.placements (lit "acme/photos")) ≡ true
unfolding get shunt.Base.str_eq
photos_there = refl

generation-stamp_example :
    generation (stamp same drawn file next []) (placement_resource (lit "acme/photos")) ≡ (
      if contains [] (placement_resource (lit "acme/photos"))
        || not (unchanged same.placements file.placements next.placements (lit "acme/photos"))
      then 8
      else generation file (placement_resource (lit "acme/photos")))
generation-stamp_example = generation-stamp same drawn file next [] (lit "acme/photos") photos_there

drawn_valid : valid_identity drawn ≡ true
unfolding valid_identity shunt.Base.all
drawn_valid = refl

file_valid : lineage_valid file ≡ true
unfolding lineage_valid
file_valid = refl

stamp-lineage_valid_example :
    lineage_valid (stamp same drawn file next (lit "secret:old" ∷ [])) ≡ true
stamp-lineage_valid_example =
    stamp-lineage_valid same drawn file next (lit "secret:old" ∷ []) (omega arith) drawn_valid
      file_valid
