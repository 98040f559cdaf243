-- ===== src/Migrate/Hash.antt =====
-- rampHash and mix64 of internal/migrate/route.go, with Go's hash/fnv New64a: 64-bit words that wrap.
use Prim.Native.Nat.{bit_xor}
use shunt.Base.{ℕ, ◌*◌, ◌/◌, ◌%◌, ◌^◌, ◌<◌, Str, [], ◌∷◌, arith}
use shunt.Directory.Types.{hash_space}

fnv_from : ℕ → Str → ℕ
fnv_from h [] = h
fnv_from h (b ∷ bs) = fnv_from ((bit_xor h b * 1099511628211) % hash_space) bs

-- x ^= x >> 33
shift_mix : ℕ → ℕ
shift_mix x = bit_xor x (x / 2 ^ 33)

mix64 : ℕ → ℕ
unfolding shift_mix
mix64 x = shift_mix (
    (shift_mix ((shift_mix x * 0xff51afd7ed558ccd) % hash_space) * 0xc4ceb9fe1a85ec53) % hash_space)

-- The outer reduction changes nothing: both operands of the last exclusive or are words.
unfoldable pub key_hash : Str → ℕ
unfolding mix64 fnv_from
key_hash key = mix64 (fnv_from 14695981039346656037 key) % hash_space

pub key_hash_lt : (key : Str) → key_hash key < hash_space
unfolding key_hash
key_hash_lt key = omega arith
