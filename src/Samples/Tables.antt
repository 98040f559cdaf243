-- ===== src/Samples/Tables.antt =====
-- Ownership tables and upload ids.
use shunt.Base.{
  ℕ, ◌≡◌, ◌≤◌, ◌<◌, ◌↔◌, ◌⊎◌, ◌^◌, ◌+◌, ◌-◌, ◌++◌, refl, Str, lit, Bool, true, false, Option, none,
  some, List, [], ◌∷◌, if◌then◌else◌, ltb, leb, length, is_empty, All, Map, has, get, arith, ◌&&◌,
  ◌||◌,
}
use shunt.Directory.Types.{HashRange, full_range}
use shunt.Directory.Owners.{share_count, check_owners, owner_in, reassign, leading_share}
use shunt.Base.Float.{ge_one}
use shunt.Directory.Owners.Tiling.{Tiles, check_owners_iff}
use shunt.Directory.Owners.Reassign.{owner_in-reassign}
use shunt.Directory.Owners.Shares.{IsNearest, IsLeading, leading_share-IsLeading}
use shunt.Migrate.UploadId.{decode_upload_id, encode_upload_id, split_upload_prefix, is_lower_hex}
use shunt.Migrate.UploadId.Codec.{decode-encode, decode-encode_tagged}
use shunt.Samples.{two_legs, two_owners, half}

two_owners-check : check_owners two_owners two_legs ≡ none
unfolding check_owners get shunt.Base.str_eq
two_owners-check = refl

two_owners-Tiles : Tiles two_legs two_owners
two_owners-Tiles = (check_owners_iff two_owners two_legs).0 two_owners-check

has_b : has two_legs (lit "b") ≡ true
unfolding get shunt.Base.str_eq
has_b = refl

-- The middle half of the space.
abbrev middle : HashRange
middle = record { from = 2 ^ 62; to = 2 ^ 63 + 2 ^ 62 - 1 }

check_owners_iff_example : (check_owners two_owners two_legs ≡ none) ↔ Tiles two_legs two_owners
check_owners_iff_example = check_owners_iff two_owners two_legs

owner_in-reassign_example : owner_in (reassign two_owners middle (lit "b")) (2 ^ 62) ≡ (
    if leb (2 ^ 62) (2 ^ 62) && leb (2 ^ 62) (2 ^ 63 + 2 ^ 62 - 1)
    then lit "b"
    else owner_in two_owners (2 ^ 62))
owner_in-reassign_example =
    owner_in-reassign two_legs two_owners middle (lit "b") (2 ^ 62) two_owners-Tiles (omega arith)
      (omega arith) has_b (omega arith)

leading_share-IsLeading_example :
    IsNearest half (share_count half)
    × ((((ge_one half || leb 10000 (share_count half)) ≡ true)
          × (leading_share full_range half ≡ full_range))
        ⊎ (((ge_one half || leb 10000 (share_count half)) ≡ false)
            × IsLeading full_range (share_count half) (leading_share full_range half)))
leading_share-IsLeading_example =
    leading_share-IsLeading full_range half (omega arith) (omega arith)

hex : (is_lower_hex (lit "0a1b2c") ≡ true) × (is_lower_hex (lit "ffee00") ≡ true)
unfolding is_lower_hex shunt.Base.all
hex = (refl, refl)

decode-encode_example :
    decode_upload_id (encode_upload_id (lit "0a1b2c") (lit "upload~7"))
    ≡ (lit "0a1b2c", lit "upload~7", true)
decode-encode_example = decode-encode (lit "0a1b2c") (lit "upload~7") refl hex.0 refl

decode-encode_tagged_example :
    (decode_upload_id (encode_upload_id (lit "0a1b2c.ffee00") (lit "u"))
      ≡ (lit "0a1b2c.ffee00", lit "u", true))
    × (split_upload_prefix (lit "0a1b2c.ffee00") ≡ (lit "0a1b2c", lit "ffee00"))
decode-encode_tagged_example =
    decode-encode_tagged (lit "0a1b2c") (lit "ffee00") (lit "u") refl refl hex.0 hex.1 refl
