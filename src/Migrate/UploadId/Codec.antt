-- ===== src/Migrate/UploadId/Codec.antt =====
-- internal/migrate/uploadid.go: encoding an upload id and decoding it again.
use mathlib.Core.List.{append_assoc}
use native.Mathlib.Numerals.{add-one}
use shunt.Base.{
  ℕ, zero, suc, ◌+◌, ◌≡◌, ◌⊎◌, inl, inr, refl, sym, ap, Str, is_empty, Bool, true, false, not, some,
  all, [], ◌∷◌, ◌++◌, ◌==◌, length, take, drop, arith, Bool-cases, Option-cases,
}
use shunt.Migrate.UploadId.{
  decode_at, id_len, cut, split_upload_prefix, encode_upload_id, is_hex, is_lower_hex, index_byte,
  char_is, is_prefix_at, decode_upload_id,
}

-- A byte that a text does not have.
lacks : ℕ → Str → Bool
lacks c s = all (λ x. not (x == c)) s

index_byte-append :
    (c : ℕ) (s r : Str) → lacks c s ≡ true → index_byte (s ++ c ∷ r) c ≡ some (length s)
unfolding index_byte lacks all
index_byte-append c [] r h = ground arith
index_byte-append c (x ∷ s) r h = ground (arith, index_byte-append c s r)

cut-append : (c : ℕ) (s r : Str) → lacks c s ≡ true → cut (s ++ c ∷ r) c ≡ (s, r)
unfolding cut lacks all
cut-append c [] r h = ground arith
cut-append c (x ∷ s) r h = ground (arith, cut-append c s r)

take-append : (s r : Str) → take (length s) (s ++ r) ≡ s
take-append [] r = refl
take-append (x ∷ s) r = ap (λ t. x ∷ t) (take-append s r)

drop-append : (c : ℕ) (s r : Str) → drop (suc (length s)) (s ++ c ∷ r) ≡ r
drop-append c [] r = refl
drop-append c (x ∷ s) r = drop-append c s r

drop_past : (c n : ℕ) (s r : Str) → n ≡ suc (length s) → drop n (s ++ c ∷ r) ≡ r
drop_past c n s r e = rw e (drop-append c s r)

take_to : (n : ℕ) (s r : Str) → n ≡ length s → take n (s ++ r) ≡ s
take_to n s r e = rw e (take-append s r)

char_is-append : (c : ℕ) (s r : Str) → char_is (s ++ c ∷ r) (length s) c ≡ true
char_is-append c [] r = ground arith
char_is-append c (x ∷ s) r = char_is-append c s r

char_is_at : (c n : ℕ) (s r : Str) → n ≡ length s → char_is (s ++ c ∷ r) n c ≡ true
char_is_at c n s r e = rw e (char_is-append c s r)

hex-lacks : (c : ℕ) (s : Str) → is_hex c ≡ false → is_lower_hex s ≡ true → lacks c s ≡ true
unfolding is_lower_hex lacks all
hex-lacks c [] n h = refl
hex-lacks c (x ∷ s) n h = ground (arith, hex-lacks c s n)

lacks-append :
    (c d : ℕ) (s r : Str)
    → lacks c s ≡ true
    → (d == c) ≡ false
    → lacks c r ≡ true
    → lacks c (s ++ d ∷ r) ≡ true
unfolding lacks all
lacks-append c d [] r h n k = ground arith
lacks-append c d (x ∷ s) r h n k = ground (arith, lacks-append c d s r)

-- A prefix that decoding recognises by its own shape.
decode-prefix :
    (prefix b : Str)
    → lacks b'~' prefix ≡ true
    → is_prefix_at (prefix ++ b'~' ∷ b) (length prefix) ≡ true
    → decode_upload_id (prefix ++ b'~' ∷ b) ≡ (prefix, b, true)
unfolding decode_upload_id decode_at
decode-prefix prefix b l h = rw (index_byte-append b'~' prefix b l) (
    rw h (
      cc
        (take-append prefix (b'~' ∷ b), drop_past b'~' (length prefix + 1) prefix b (omega arith))))

plain_prefix :
    (c b : Str)
    → length c ≡ id_len
    → is_lower_hex c ≡ true
    → is_prefix_at (c ++ b'~' ∷ b) (length c) ≡ true
unfolding is_prefix_at
plain_prefix c b l h = ground (arith, take-append c (b'~' ∷ b))

length_tagged : (c t : Str) → length (c ++ b'.' ∷ t) ≡ length c + length t + 1
length_tagged [] t = omega arith
length_tagged (x ∷ c) t = omega (arith, length_tagged c t)

tagged_prefix :
    (c t b : Str)
    → length c ≡ id_len
    → length t ≡ id_len
    → is_lower_hex c ≡ true
    → is_lower_hex t ≡ true
    → is_prefix_at ((c ++ b'.' ∷ t) ++ b'~' ∷ b) (length (c ++ b'.' ∷ t)) ≡ true
unfolding is_prefix_at
tagged_prefix c t b l k h g =
    let tail_ = t ++ b'~' ∷ b in
    let assoc : (c ++ b'.' ∷ t) ++ b'~' ∷ b ≡ c ++ b'.' ∷ tail_ =
      append_assoc c (b'.' ∷ t) (b'~' ∷ b) in
    let dot = rw (← assoc) at (char_is_at b'.' id_len c tail_ (sym l)) in
    let front = rw (← assoc) at (take_to id_len c (b'.' ∷ tail_) (sym l)) in
    let whole = take-append (c ++ b'.' ∷ t) (b'~' ∷ b) in
    let back = drop_past b'.' (id_len + 1) c t (omega arith) in
    ground (arith, dot, front, whole, back, length_tagged c t)

-- A cluster id of six lowercase hex characters and a backend's upload id that is not empty come
-- back from decoding as they were encoded.
pub decode-encode :
    (cluster_id b : Str)
    → length cluster_id ≡ id_len
    → is_lower_hex cluster_id ≡ true
    → is_empty b ≡ false
    → decode_upload_id (encode_upload_id cluster_id b) ≡ (cluster_id, b, true)
unfolding encode_upload_id is_hex
decode-encode c b l h e = rw e (decode-prefix c b (hex-lacks b'~' c refl h) (plain_prefix c b l h))

-- A cluster id and a bucket tag, each of six lowercase hex characters and joined by a dot, and a
-- backend's upload id that is not empty come back from decoding as they were encoded, and splitting
-- the prefix gives the cluster id and the tag.
pub decode-encode_tagged :
    (cluster_id tag b : Str)
    → length cluster_id ≡ id_len
    → length tag ≡ id_len
    → is_lower_hex cluster_id ≡ true
    → is_lower_hex tag ≡ true
    → is_empty b ≡ false
    → let prefix = cluster_id ++ b'.' ∷ tag in
      (decode_upload_id (encode_upload_id prefix b) ≡ (prefix, b, true))
      × (split_upload_prefix prefix ≡ (cluster_id, tag))
unfolding encode_upload_id split_upload_prefix is_hex
decode-encode_tagged c t b l k h g e = (
  rw e (
      decode-prefix (c ++ b'.' ∷ t) b
        (lacks-append b'~' b'.' c t (hex-lacks b'~' c refl h) refl (hex-lacks b'~' t refl g))
        (tagged_prefix c t b l k h g)),
  cut-append b'.' c t (hex-lacks b'.' c refl h),
)

index_byte-split :
    (v : Str) (c i : ℕ) → index_byte v c ≡ some i → v ≡ take i v ++ c ∷ drop (suc i) v
unfolding index_byte
index_byte-split [] c i h = absurd (cc)
index_byte-split (x ∷ v) c zero h = ground arith
index_byte-split (x ∷ v) c (suc i) h = ground (arith, index_byte-split v c i)

-- Decoding loses nothing: an id with a prefix is the prefix, a tilde and the backend's id; one
-- without is the backend's id.
pub decode_whole :
    (v : Str)
    → let r = decode_upload_id v in
      ((r.2 ≡ true) × (v ≡ r.0 ++ b'~' ∷ r.1)) ⊎ ((r.2 ≡ false) × (r.0 ≡ []) × (r.1 ≡ v))
unfolding decode_upload_id decode_at
decode_whole v = elim (Option-cases (index_byte v b'~')) [
  | inl n ↦ rw n (inr (refl, refl, refl))
  | inr (i, f) ↦ rw f (elim (Bool-cases (is_prefix_at v i)) [
    | inl p ↦ rw p (inl (refl, rw add-one (index_byte-split v b'~' i f)))
    | inr q ↦ rw q (inr (refl, refl, refl))
  ])
]
