-- ===== src/Directory/Owners/Shares.antt =====
-- The ranges that EvenOwners and LeadingShare cut.
use shunt.Base.{
  ℕ, suc, ◌+◌, ◌-◌, ◌*◌, ◌/◌, ◌≤◌, ◌<◌, ◌≡◌, refl, Str, true, List, [], ◌∷◌, Map, has, arith,
  length, All, ◌⊎◌, inl, inr, Bool-cases, false, ◌==◌, ◌||◌, leb,
}
use shunt.Base.Float.{Float64, nan, neg, pos, unit, round53, ge_one}
use shunt.Directory.Types.{Leg, HashRange, hash_space, max_hash}
use shunt.Directory.Owners.{even_from, even_owners, share_count, leading_share}
use shunt.Directory.Owners.Tiling.{Spans, Tiles}

next_start : (i width : ℕ) → 0 < width → (i + 1) * width - 1 + 1 ≡ (i + 1) * width
next_start i width wide = grind arith

even_from-Spans :
    (legs : Map Leg) (start i width : ℕ) (leg : Str) (ids : List Str)
    → start ≡ i * width
    → 0 < width
    → (i + suc (length ids)) * width ≤ max_hash
    → All (λ id. has legs id ≡ true) (leg ∷ ids)
    → Spans legs start hash_space (even_from i width (leg ∷ ids))
unfolding even_from
even_from-Spans legs start i width leg [] e wide fits known =
    (omega arith, grind arith, known.0, refl)
even_from-Spans legs start i width leg (id ∷ ids) e wide fits known = (
  omega arith,
  grind arith,
  known.0,
  even_from-Spans legs ((i + 1) * width - 1 + 1) (i + 1) width id ids (next_start i width wide) wide
      (grind arith) known.1,
)

width_pos : (n m : ℕ) → 0 < n → n ≤ m → 0 < m / n
width_pos n m p l = grind arith

width_fits : (n m : ℕ) → 0 < n → n * (m / n) ≤ m
width_fits n m p = grind arith

-- EvenOwners gives legs that the placement has a table that covers the whole hash space, whatever
-- their number, from one up to the size of the space.
pub even_owners-Tiles :
    (legs : Map Leg) (leg : Str) (ids : List Str)
    → suc (length ids) ≤ max_hash
    → All (λ id. has legs id ≡ true) (leg ∷ ids)
    → Tiles legs (even_owners (leg ∷ ids))
unfolding even_owners
even_owners-Tiles legs leg ids fits known =
    even_from-Spans legs 0 0 _ leg ids (omega arith) (width_pos _ max_hash (omega arith) fits)
      (omega (arith, width_fits (suc (length ids)) max_hash)) known

-- The first hashes of a range: whole ten-thousandths of it, rounded down to a hash, and one at least.
pub record IsLeading (r : HashRange) (k : ℕ) (s : HashRange) : Type 0 where
  pub starts : s.from ≡ r.from
  pub has_one : s.from ≤ s.to
  pub inside : s.to ≤ r.to
  pub at_most : ((s.to + 1 - s.from) * 10000 ≤ (r.to + 1 - r.from) * k) ⊎ (s.to ≡ s.from)
  pub at_least : (r.to + 1 - r.from) * k < (s.to + 1 - s.from) * 10000 + 10000

-- The whole number nearest to a share's ten-thousandths, halves up, and 1 at least. The product is rounded
-- to a float64.
abbrev pub IsNearest : Float64 → ℕ → Type 0
IsNearest nan k = 10000 ≤ k
IsNearest (neg a) k = k ≡ 1
IsNearest (pos a) k =
    ((k * unit ≤ round53 (a * 10000) + unit / 2) ⊎ (k ≡ 1))
    × (round53 (a * 10000) + unit / 2 < k * unit + unit)

quotient : (m u : ℕ) → 0 < u → (m / u * u ≤ m) × (m < m / u * u + u)
quotient m u p = (grind arith, grind arith)

unit_pos : 0 < unit
unit_pos = omega arith

share_count-IsNearest : (share : Float64) → IsNearest share (share_count share)
unfolding share_count
share_count-IsNearest nan = omega arith
share_count-IsNearest (neg a) = refl
share_count-IsNearest (pos a) =
    let m = round53 (a * 10000) + unit / 2 in
    let (down, up) = quotient m unit unit_pos in
    elim (Bool-cases (m / unit == 0)) [
      | inl z ↦ (inr (ground (arith, z)), ground (arith, z, up))
      | inr z ↦ (inl (ground (arith, z, down)), ground (arith, z, up))
    ]

cut_down : (n : ℕ) → (n / 10000 * 10000 ≤ n) × (n < n / 10000 * 10000 + 10000)
cut_down n = (omega arith, omega arith)

share_end : (w k : ℕ) → k < 10000 → (w * k + k) / 10000 ≤ w
share_end w k l = grind arith

width_share : (a b k : ℕ) → a ≤ b → (b + 1 - a) * k ≡ (b - a) * k + k
width_share a b k l = let e : b + 1 - a ≡ suc (b - a) = omega (arith, l) in rw e (grind arith)

-- The leading share of a range of hashes that does not run backwards is the whole range, for a share
-- of 1 or more or one that rounds to all of its ten-thousandths, and otherwise starts where the range
-- starts, ends inside it, and has as many hashes as the share's ten-thousandths of the range's make,
-- rounded down, and one at least; the ten-thousandths are the nearest whole number, 1 at least.
pub leading_share-IsLeading :
    (r : HashRange) (share : Float64)
    → r.from ≤ r.to
    → r.to < hash_space
    → IsNearest share (share_count share)
      × ((((ge_one share || leb 10000 (share_count share)) ≡ true) × (leading_share r share ≡ r))
          ⊎ (((ge_one share || leb 10000 (share_count share)) ≡ false)
              × IsLeading r (share_count share) (leading_share r share)))
unfolding leading_share
leading_share-IsLeading r share f t =
    let k = share_count share in
    let n = (r.to - r.from) * k + k in
    let wide : (r.to + 1 - r.from) * k ≡ n = width_share r.from r.to k f in
    (
      share_count-IsNearest share,
      elim (Bool-cases (ge_one share || leb 10000 k)) [
        | inl e ↦ inl (e, ground (arith, e, f))
        | inr e ↦
            let small : k < 10000 = ground (arith, e) in
            let end = share_end (r.to - r.from) k small in
            let (down, up) = cut_down n in
            inr (
              e,
              record {
                starts = ground (arith, e, f);
                has_one = ground (arith, e, f, t, end);
                inside = ground (arith, e, f, t, end);
                at_most = rw wide (ground (arith, e, f, t, end, down));
                at_least = rw wide (ground (arith, e, f, t, end, up));
              },
            )
      ],
    )
