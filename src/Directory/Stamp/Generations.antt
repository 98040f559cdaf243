-- ===== src/Directory/Stamp/Generations.antt =====
-- internal/directory/identity.go: the generation that Stamp gives a placement, and the range of all.
use shunt.Base.{
  first_byte, ℕ, ◌≤◌, ◌<◌, ◌≡◌, ◌≢◌, ◌⊎◌, inl, inr, refl, ap, ◌∙◌, Str, str_eq, str_eq_iff,
  str_eq_refl, contains, Bool, true, false, ◌&&◌, ◌||◌, not, List, [], ◌∷◌, if◌then◌else◌, ltb, leb,
  Map, get, put, is_some, get-put, arith, Bool-cases,
}
use shunt.Directory.File.{Cluster, Identity, File}
use shunt.Directory.Stamp.{
  placement_resource, cluster_resource, secret_resource, tenant_resource, generation_of, generation,
  unchanged, stamp_one, stamp_all, stamp_secrets, stamp_changed, Compare, stamped_generations,
  stamp, generations_in_range, valid_identity, lineage_valid,
}

generation_of-put :
    (gens : Map ℕ) (k j : Str) (v : ℕ)
    → generation_of (put gens k v) j ≡ (if str_eq k j then v else generation_of gens j)
unfolding generation_of
generation_of-put gens k j v = ground (arith, get-put gens k j v)

generation_of-stamp_one :
    (prev : Map ℕ) (version : ℕ) (res j : Str) (same : Bool) (gens : Map ℕ)
    → res ≢ j
    → generation_of (stamp_one prev version res same gens) j ≡ generation_of gens j
unfolding stamp_one
generation_of-stamp_one prev version res j same gens d = ground (
  arith,
  str_eq_iff res j,
  generation_of-put gens res j version,
  generation_of-put gens res j (generation_of prev res),
)

-- A range over another kind of resource leaves a generation alone.
generation_of-stamp_all {ℓ} :
    {V : Type ℓ} (prev : Map ℕ) (version : ℕ) (resource : Str → Str) (same : Str → Bool) (m : Map V)
    (gens : Map ℕ) (j : Str)
    → ((k : Str) → resource k ≢ j)
    → generation_of (stamp_all prev version resource same m gens) j ≡ generation_of gens j
unfolding stamp_all
generation_of-stamp_all prev version resource same [] gens j d = refl
generation_of-stamp_all prev version resource same ((k, v) ∷ m) gens j d =
    generation_of-stamp_all prev version resource same m _ j d
    ∙ generation_of-stamp_one prev version (resource k) j (same k) gens (d k)

generation_of-stamp_secrets :
    (prev : Map ℕ) (m : Map Cluster) (gens : Map ℕ) (j : Str)
    → ((k : Str) → secret_resource k ≢ j)
    → generation_of (stamp_secrets prev m gens) j ≡ generation_of gens j
unfolding stamp_secrets
generation_of-stamp_secrets prev [] gens j d = refl
generation_of-stamp_secrets prev ((name, c) ∷ m) gens j d =
    generation_of-stamp_secrets prev m _ j d
    ∙ ground (
      arith,
      d name,
      str_eq_iff (secret_resource name) j,
      generation_of-put gens (secret_resource name) j (generation_of prev (secret_resource name)),
    )

generation_of-stamp_changed :
    (version : ℕ) (changed : List Str) (gens : Map ℕ) (j : Str)
    → generation_of (stamp_changed version changed gens) j
      ≡ (if contains changed j then version else generation_of gens j)
unfolding stamp_changed contains
generation_of-stamp_changed version [] gens j = refl
generation_of-stamp_changed version (res ∷ rest) gens j = ground (
  arith,
  generation_of-stamp_changed version rest (put gens res version) j,
  generation_of-put gens res j version,
)

same_key : (k j : Str) → str_eq (placement_resource k) (placement_resource j) ≡ str_eq k j
unfolding str_eq
same_key k j = refl

-- The generation of a placement, by whether it is unchanged.
abbrev stamped_at : Map ℕ → ℕ → (Str → Bool) → Str → ℕ
stamped_at prev version same j =
    if same j then generation_of prev (placement_resource j) else version

abbrev Settled : Map ℕ → ℕ → (Str → Bool) → Map ℕ → Str → Type 0
Settled prev version same gens j =
    generation_of gens (placement_resource j) ≡ stamped_at prev version same j

abbrev Fresh : Map ℕ → Str → Type 0
Fresh gens j = generation_of gens (placement_resource j) ≡ 0

stamp_one-own :
    (prev : Map ℕ) (version : ℕ) (same : Str → Bool) (gens : Map ℕ) (j : Str)
    → Fresh gens j ⊎ Settled prev version same gens j
    → Settled prev version same (stamp_one prev version (placement_resource j) (same j) gens) j
unfolding stamp_one
stamp_one-own prev version same gens j h = ground (
  arith,
  h,
  str_eq_refl (placement_resource j),
  generation_of-put gens (placement_resource j) (placement_resource j) version,
  generation_of-put gens (placement_resource j) (placement_resource j)
      (generation_of prev (placement_resource j)),
)

other_key : (k j : Str) → str_eq k j ≡ false → placement_resource k ≢ placement_resource j
other_key k j d e = absurd (ground (arith, d, (str_eq_iff k j).1 (cc)))

-- The range over the placements themselves.
generation_of-placements {ℓ} :
    {V : Type ℓ} (prev : Map ℕ) (version : ℕ) (same : Str → Bool) (m : Map V) (gens : Map ℕ)
    (j : Str)
    → Fresh gens j ⊎ Settled prev version same gens j
    → (is_some (get m j) ≡ true) ⊎ Settled prev version same gens j
    → Settled prev version same (stamp_all prev version placement_resource same m gens) j
unfolding stamp_all get
generation_of-placements prev version same [] gens j before there = ground (arith, there)
generation_of-placements prev version same ((k, v) ∷ m) gens j before there =
    let next = stamp_one prev version (placement_resource k) (same k) gens in
    elim (Bool-cases (str_eq k j)) [
      | inl e ↦
          let at_j : Settled prev version same next j =
            rw ((str_eq_iff k j).0 e) (stamp_one-own prev version same gens j before) in
          generation_of-placements prev version same m next j (inr at_j) (inr at_j)
      | inr e ↦
          let kept =
            generation_of-stamp_one prev version (placement_resource k) (placement_resource j)
              (same k) gens (other_key k j e) in
          generation_of-placements prev version same m next j
            (elim before [ inl z ↦ inl (kept ∙ z) | inr f ↦ inr (kept ∙ f) ])
            (elim there [ inl t ↦ inl (ground (arith, t, e)) | inr f ↦ inr (kept ∙ f) ])
    ]

secret_apart : (k j : Str) → secret_resource k ≢ placement_resource j
secret_apart k j e = let h : 115 ≡ 112 = ap first_byte e in absurd (omega (arith, h))

tenant_apart : (k j : Str) → tenant_resource k ≢ placement_resource j
tenant_apart k j e = let h : 116 ≡ 112 = ap first_byte e in absurd (omega (arith, h))

cluster_apart : (k j : Str) → cluster_resource k ≢ placement_resource j
cluster_apart k j e = let h : 99 ≡ 112 = ap first_byte e in absurd (omega (arith, h))

nothing_yet : (j : Str) → Fresh [] j
unfolding generation_of get
nothing_yet j = refl

-- After Stamp, the generation of a placement says whether the write changed it: it is the new version
-- for a placement that the write made, changed or named, and the old generation for any other.
pub generation-stamp :
    (same : Compare) (drawn : Identity) (prev next : File) (changed : List Str) (j : Str)
    → is_some (get next.placements j) ≡ true
    → generation (stamp same drawn prev next changed) (placement_resource j) ≡ (
        if contains changed (placement_resource j)
          || not (unchanged same.placements prev.placements next.placements j)
        then next.version
        else generation prev (placement_resource j))
unfolding stamp stamped_generations generation
generation-stamp same drawn prev next changed j there =
    generation_of-stamp_changed v changed _ r
    ∙ ap (λ g. if contains changed r then v else g)
        (generation_of-stamp_secrets old next.clusters _ r (λ k. secret_apart k j)
          ∙ (generation_of-stamp_all old v tenant_resource _ next.tenants _ r
                (λ k. tenant_apart k j)
              ∙ (generation_of-stamp_all old v cluster_resource _ next.clusters _ r
                    (λ k. cluster_apart k j)
                  ∙ generation_of-placements old v ps next.placements [] j (inl (nothing_yet j))
                      (inl there))))
    ∙ ground arith
  where
    old : Map ℕ
    old = prev.generations

    v : ℕ
    v = next.version

    r : Str
    r = placement_resource j

    ps : Str → Bool
    ps = unchanged same.placements prev.placements next.placements

in_range-put :
    (version : ℕ) (gens : Map ℕ) (k : Str) (g : ℕ)
    → generations_in_range version gens ≡ true
    → (ltb 0 g && leb g version) ≡ true
    → generations_in_range version (put gens k g) ≡ true
unfolding generations_in_range put
in_range-put version [] k g h e = ground arith
in_range-put version ((j, f) ∷ gens) k g h e = ground (arith, in_range-put version gens k g)

in_range-old :
    (version : ℕ) (old : Map ℕ) (res : Str)
    → generations_in_range version old ≡ true
    → leb (generation_of old res) version ≡ true
unfolding generations_in_range generation_of get
in_range-old version [] res h = ground arith
in_range-old version ((j, f) ∷ old) res h = ground (arith, in_range-old version old res)

in_range-stamp_one :
    (old : Map ℕ) (version : ℕ) (res : Str) (same : Bool) (gens : Map ℕ)
    → ltb 0 version ≡ true
    → generations_in_range version old ≡ true
    → generations_in_range version gens ≡ true
    → generations_in_range version (stamp_one old version res same gens) ≡ true
unfolding stamp_one
in_range-stamp_one old version res same gens p o h = ground (
  arith,
  in_range-put version gens res version h,
  in_range-put version gens res (generation_of old res) h,
  in_range-old version old res o,
)

in_range-stamp_all {ℓ} :
    {V : Type ℓ} (old : Map ℕ) (version : ℕ) (resource : Str → Str) (same : Str → Bool) (m : Map V)
    (gens : Map ℕ)
    → ltb 0 version ≡ true
    → generations_in_range version old ≡ true
    → generations_in_range version gens ≡ true
    → generations_in_range version (stamp_all old version resource same m gens) ≡ true
unfolding stamp_all
in_range-stamp_all old version resource same [] gens p o h = h
in_range-stamp_all old version resource same ((k, v) ∷ m) gens p o h =
    in_range-stamp_all old version resource same m _ p o
      (in_range-stamp_one old version (resource k) (same k) gens p o h)

in_range-stamp_secrets :
    (old : Map ℕ) (version : ℕ) (m : Map Cluster) (gens : Map ℕ)
    → generations_in_range version old ≡ true
    → generations_in_range version gens ≡ true
    → generations_in_range version (stamp_secrets old m gens) ≡ true
unfolding stamp_secrets
in_range-stamp_secrets old version [] gens o h = h
in_range-stamp_secrets old version ((name, c) ∷ m) gens o h =
    in_range-stamp_secrets old version m _ o (
      ground (
        arith,
        in_range-put version gens (secret_resource name) (generation_of old (secret_resource name))
            h,
        in_range-old version old (secret_resource name) o,
      ))

in_range-stamp_changed :
    (version : ℕ) (changed : List Str) (gens : Map ℕ)
    → ltb 0 version ≡ true
    → generations_in_range version gens ≡ true
    → generations_in_range version (stamp_changed version changed gens) ≡ true
unfolding stamp_changed
in_range-stamp_changed version [] gens p h = h
in_range-stamp_changed version (r ∷ rs) gens p h =
    in_range-stamp_changed version rs _ p (in_range-put version gens r version h (ground arith))

in_range-later :
    (v w : ℕ) (gens : Map ℕ)
    → v ≤ w
    → generations_in_range v gens ≡ true
    → generations_in_range w gens ≡ true
unfolding generations_in_range
in_range-later v w [] le h = refl
in_range-later v w ((k, g) ∷ gens) le h = ground (arith, in_range-later v w gens le)

-- A file that Stamp prepares from a valid one, at a later version and with a drawn identity that is
-- valid, passes validateLineage.
pub stamp-lineage_valid :
    (same : Compare) (drawn : Identity) (prev next : File) (changed : List Str)
    → prev.version < next.version
    → valid_identity drawn ≡ true
    → lineage_valid prev ≡ true
    → lineage_valid (stamp same drawn prev next changed) ≡ true
unfolding stamp stamped_generations lineage_valid
stamp-lineage_valid same drawn prev next changed later d h = ground (arith, h, d, gens)
  where
    v : ℕ
    v = next.version

    positive : ltb 0 v ≡ true
    positive = ground (arith, later)

    old : generations_in_range v prev.generations ≡ true
    old = in_range-later prev.version v prev.generations (omega (arith, later)) (ground (arith, h))

    gens : generations_in_range v (stamped_generations same prev next changed) ≡ true
    gens = in_range-stamp_changed v changed _ positive (
        in_range-stamp_secrets prev.generations v next.clusters _ old (
          in_range-stamp_all prev.generations v tenant_resource _ next.tenants _ positive old (
            in_range-stamp_all prev.generations v cluster_resource _ next.clusters _ positive old (
              in_range-stamp_all prev.generations v placement_resource _ next.placements [] positive
                old refl))))
