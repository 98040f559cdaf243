-- ===== src/Migrate/UploadId.antt =====
-- internal/migrate/uploadid.go: the cluster that issued an upload, carried in its id.
pub mod Codec
use shunt.Base.{
  ℕ, zero, suc, ◌+◌, ◌*◌, Str, lit, is_empty, Bool, true, false, ◌&&◌, ◌||◌, Option, none, some,
  all, [], ◌∷◌, ◌++◌, if◌then◌else◌, ◌==◌, leb, take, drop,
}

abbrev pub id_len : ℕ
id_len = 6

-- strings.Cut(s, sep) for a separator of one byte: before and after its first occurrence.
unfoldable pub cut : Str → ℕ → Str × Str
cut [] sep = ([], [])
cut (c ∷ s) sep = let (a, b) = cut s sep in if c == sep then ([], s) else (c ∷ a, b)

unfoldable pub split_upload_prefix : Str → Str × Str
split_upload_prefix prefix = cut prefix b'.'

unfoldable pub encode_upload_id : Str → Str → Str
encode_upload_id cluster_id backend_id =
    if is_empty backend_id then lit "" else cluster_id ++ b'~' ∷ backend_id

is_hex : ℕ → Bool
is_hex c = leb b'0' c && leb c b'9' || leb b'a' c && leb c b'f'

unfoldable pub is_lower_hex : Str → Bool
unfolding is_hex
is_lower_hex s = all is_hex s

-- strings.IndexByte(s, c), `none` for -1.
unfoldable pub index_byte : Str → ℕ → Option ℕ
index_byte [] c = none
index_byte (x ∷ s) c =
    if x == c then some 0 else elim (index_byte s c) [ none ↦ none | some i ↦ some (i + 1) ]

abbrev char_is : Str → ℕ → ℕ → Bool
char_is [] i c = false
char_is (x ∷ s) zero c = x == c
char_is (x ∷ s) (suc i) c = char_is s i c

-- Whether what precedes the separator, at i, is a cluster id, or one and a bucket tag.
unfoldable pub is_prefix_at : Str → ℕ → Bool
unfolding is_lower_hex
is_prefix_at v i =
    (i == id_len && is_lower_hex (take i v))
    || (i == 2 * id_len + 1
        && char_is v id_len b'.'
        && is_lower_hex (take id_len v)
        && is_lower_hex (drop (id_len + 1) (take i v)))

unfoldable pub decode_at : Str → Option ℕ → Str × Str × Bool
unfolding is_prefix_at
decode_at v none = (lit "", v, false)
decode_at v (some i) =
    if is_prefix_at v i then (take i v, drop (i + 1) v, true) else (lit "", v, false)

-- The prefix, the backend's id, and whether there was a prefix.
unfoldable pub decode_upload_id : Str → Str × Str × Bool
unfolding decode_at index_byte
decode_upload_id v = decode_at v (index_byte v b'~')
