-- ===== src/Directory/Identifiers.antt =====
-- What names a directory file may use: validTenant of internal/directory/validate.go, ValidBucketName of
-- internal/s3/bucketname.go, and ValidBarrierID and Validate of internal/config/barrier.go. net.ParseIP of
-- the standard library is an argument.
use shunt.Base.{
  ℕ, Str, lit, is_empty, str_eq, Bool, true, false, ◌&&◌, ◌||◌, not, Option, none, some, [], ◌∷◌,
  ltb, leb, ◌==◌, any, all, null, length, is_some, has_prefix,
}
use mathlib.Core.List.{reverse}
use shunt.Directory.Types.{Barrier, barrier_mutations, barrier_source}

lower_or_digit : ℕ → Bool
lower_or_digit c = (leb b'a' c && leb c b'z') || (leb b'0' c && leb c b'9')

last_byte : Str → ℕ
last_byte [] = 0
last_byte (c ∷ []) = c
last_byte (c ∷ d ∷ s) = last_byte (d ∷ s)

-- validTenant
unfoldable pub valid_tenant : Str → Bool
unfolding lower_or_digit last_byte
valid_tenant [] = false
valid_tenant (c ∷ s) =
    leb (length s) 31
    && not (c == b'-')
    && not (last_byte (c ∷ s) == b'-')
    && all (λ d. lower_or_digit d || d == b'-') (c ∷ s)

-- The loop of ValidBucketName, from a byte on, with the byte before it.
name_bytes : Option ℕ → Str → Bool
unfolding lower_or_digit
name_bytes before [] = true
name_bytes before (c ∷ s) =
    let rest = name_bytes (some c) s in
    (lower_or_digit c
      || ((c == b'.' || c == b'-')
          && is_some before
          && not (null s)
          && not (c == b'.' && (elim before [ none ↦ false | some b ↦ b == b'.' ]))))
    && rest

has_suffix : Str → Str → Bool
has_suffix s suffix = has_prefix (reverse s) (reverse suffix)

-- ValidBucketName, where `is_ip` is net.ParseIP's answer.
unfoldable pub valid_bucket_name : (Str → Bool) → Str → Bool
unfolding name_bytes has_suffix
valid_bucket_name is_ip name =
    not (ltb (length name) 3)
    && not (ltb 63 (length name))
    && name_bytes none name
    && not (is_ip name)
    && not (any (has_prefix name) (lit "xn--" ∷ lit "sthree-" ∷ lit "amzn-s3-demo-" ∷ []))
    && not (
        any (has_suffix name)
          (lit "-s3alias" ∷ lit "--ol-s3" ∷ lit ".mrap" ∷ lit "--x-s3" ∷ lit "--table-s3" ∷ []))

barrier_id_byte : ℕ → Bool
unfolding lower_or_digit
barrier_id_byte c =
    lower_or_digit c
    || (leb b'A' c && leb c b'Z')
    || c == b'.'
    || c == b'_'
    || c == b':'
    || c == b'-'

-- ValidBarrierID
unfoldable pub valid_barrier_id : Str → Bool
unfolding barrier_id_byte
valid_barrier_id id = not (is_empty id) && leb (length id) 64 && all barrier_id_byte id

-- Barrier.Validate
unfoldable pub valid_barrier : Barrier → Bool
unfolding valid_barrier_id
valid_barrier b =
    valid_barrier_id b.id && (str_eq b.kind barrier_mutations || str_eq b.kind barrier_source)
