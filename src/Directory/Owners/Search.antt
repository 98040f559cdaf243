-- ===== src/Directory/Owners/Search.antt =====
-- internal/directory/scopes.go: the binary search of OwnerIn, and the first range that reaches a hash.
use shunt.Base.{
  ℕ, zero, suc, ◌+◌, ◌/◌, ◌≤◌, ◌<◌, ◌≡◌, inl, inr, refl, true, false, List, [], ◌∷◌, ltb, leb, Map,
  has, arith, length, Bool-cases,
}
use mathlib.Core.List.{Memᴰ}
use shunt.Directory.Types.{Owner, Leg, hash_space}
use shunt.Directory.Owners.{owner_at?, reaches, search_from, leg_at, owner_in}
use shunt.Directory.Owners.Tiling.{Spans, Tiles, lookup}

reaches_past : (os : List Owner) (h i : ℕ) → length os ≤ i → reaches os h i ≡ true
unfolding reaches
reaches_past [] h i l = refl
reaches_past (o ∷ os) h zero l = absurd (omega arith)
reaches_past (o ∷ os) h (suc i) l = reaches_past os h i (omega arith)

reaches_first :
    (legs : Map Leg) (a b : ℕ) (os : List Owner) (h i : ℕ)
    → Spans legs a b os
    → h < a
    → reaches os h i ≡ true
unfolding reaches
reaches_first legs a b [] h i s l = refl
reaches_first legs a b (o ∷ os) h zero s l = ground arith
reaches_first legs a b (o ∷ os) h (suc i) s l =
    reaches_first legs (o.to + 1) b os h i s.3 (omega arith)

reaches_mono :
    (legs : Map Leg) (a b : ℕ) (os : List Owner) (h i j : ℕ)
    → Spans legs a b os
    → i ≤ j
    → reaches os h i ≡ true
    → reaches os h j ≡ true
unfolding reaches
reaches_mono legs a b [] h i j s l r = refl
reaches_mono legs a b (o ∷ os) h zero zero s l r = r
reaches_mono legs a b (o ∷ os) h zero (suc j) s l r =
    reaches_first legs (o.to + 1) b os h j s.3 (ground arith)
reaches_mono legs a b (o ∷ os) h (suc i) zero s l r = absurd (omega arith)
reaches_mono legs a b (o ∷ os) h (suc i) (suc j) s l r =
    reaches_mono legs (o.to + 1) b os h i j s.3 (omega arith) r

-- r is the least index that reaches h.
record IsFirst (os : List Owner) (h r : ℕ) : Type 0 where
  before : (k : ℕ) → k < r → reaches os h k ≡ false
  there : reaches os h r ≡ true

IsFirst-lookup :
    (os : List Owner) (h r : ℕ) → IsFirst os h r → leg_at (owner_at? os r) ≡ lookup os h
unfolding lookup leg_at reaches
IsFirst-lookup [] h r f = refl
IsFirst-lookup (o ∷ os) h zero f = ground (arith, f.there)
IsFirst-lookup (o ∷ os) h (suc r) f =
    let rest : IsFirst os h r = record {
      before = λ k l. f.before (suc k) (omega arith);
      there = f.there;
    } in
    ground (arith, IsFirst-lookup os h r rest, f.before 0 (omega arith))

module _ (legs : Map Leg) (b : ℕ) (os : List Owner) (h : ℕ) (s : Spans legs 0 b os) where
  search_from-IsFirst :
      (fuel i j : ℕ)
      → i ≤ j
      → j < i + fuel
      → ((k : ℕ) → k < i → reaches os h k ≡ false)
      → reaches os h j ≡ true
      → IsFirst os h (search_from fuel os h i j)
  unfolding search_from
  search_from-IsFirst zero i j l m below r = absurd (omega arith)
  search_from-IsFirst (suc fuel) i j l m below r = elim (Bool-cases (ltb i j)) [
    | inr done ↦ rw done (record { before = below; there = let e : i ≡ j = ground arith in rw e r })
    | inl more ↦ rw more (elim (Bool-cases (reaches os h ((i + j) / 2))) [
      | inl yes_ ↦
          rw yes_
            (search_from-IsFirst fuel i ((i + j) / 2) (ground arith) (ground arith) below yes_)
      | inr no_ ↦ rw no_ (
          search_from-IsFirst fuel ((i + j) / 2 + 1) j (ground arith) (ground arith)
            (λ k lt. not_before ((i + j) / 2) no_ k (omega arith)) r)
    ])
  ]
    where
      not_before : (m : ℕ) → reaches os h m ≡ false → (k : ℕ) → k ≤ m → reaches os h k ≡ false
      not_before m no_ k le = elim (Bool-cases (reaches os h k)) [
        | inl p ↦ absurd (bad (reaches_mono legs 0 b os h k m s le p))
        | inr q ↦ q
      ]
        where
          bad : reaches os h m ≡ true → ⊥
          bad p = cc

  pub owner_in-lookup : owner_in os h ≡ lookup os h
  unfolding owner_in
  owner_in-lookup = IsFirst-lookup os h _ (
      search_from-IsFirst (length os + 1) 0 (length os) (omega arith) (omega arith)
        (λ k l. absurd (omega arith)) (reaches_past os h (length os) (omega arith)))

lookup-Memᴰ :
    (legs : Map Leg) (a b : ℕ) (os : List Owner) (h : ℕ) (o : Owner)
    → Spans legs a b os
    → Memᴰ o os
    → (a ≤ o.from) × (o.from ≤ h → h ≤ o.to → lookup os h ≡ o.leg)
unfolding lookup
lookup-Memᴰ legs a b [] h o s m = elim m [ ]
lookup-Memᴰ legs a b (p ∷ os) h o s (Memᴰ.head e) = ground arith
lookup-Memᴰ legs a b (p ∷ os) h o s (Memᴰ.tail m) =
    ground (arith, lookup-Memᴰ legs (p.to + 1) b os h o s.3 m)

-- In a table that checkOwners accepts, OwnerIn gives, for a hash inside a range of the table, the
-- leg of that range.
pub owner_in-Memᴰ :
    (legs : Map Leg) (os : List Owner) (h : ℕ) (o : Owner)
    → Tiles legs os
    → Memᴰ o os
    → o.from ≤ h
    → h ≤ o.to
    → owner_in os h ≡ o.leg
owner_in-Memᴰ legs os h o s m l r =
    rw (owner_in-lookup legs hash_space os h s) ((lookup-Memᴰ legs 0 hash_space os h o s m).1 l r)

pub lookup-has :
    (legs : Map Leg) (a b : ℕ) (os : List Owner) (h : ℕ)
    → Spans legs a b os
    → a ≤ h
    → h < b
    → has legs (lookup os h) ≡ true
unfolding lookup
lookup-has legs a b [] h s l r = absurd (omega arith)
lookup-has legs a b (o ∷ os) h s l r = elim (Bool-cases (leb h o.to)) [
  | inl p ↦ rw p s.2
  | inr q ↦ rw q (lookup-has legs (o.to + 1) b os h s.3 (ground arith) r)
]

-- In a table that checkOwners accepts, OwnerIn gives a leg of the placement for every hash.
pub owner_in-has :
    (legs : Map Leg) (os : List Owner) (h : ℕ)
    → Tiles legs os
    → h < hash_space
    → has legs (owner_in os h) ≡ true
owner_in-has legs os h s l =
    rw (owner_in-lookup legs hash_space os h s)
      (lookup-has legs 0 hash_space os h s (omega arith) l)
