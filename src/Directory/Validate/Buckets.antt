-- ===== src/Directory/Validate/Buckets.antt =====
-- internal/directory/validate.go: that no two placements of an accepted file share a backend bucket.
use shunt.Base.{
  ◌≡◌, inl, inr, refl, sym, ap, ◌∙◌, Str, str_eq, str_eq_iff, Bool, true, false, ◌&&◌, ◌||◌, not,
  none, some, is_some, List, [], ◌∷◌, contains, Map, get, sorted_keys, insert_key, arith,
  Bool-cases, Option-cases,
}
use shunt.Directory.Types.{Placement}
use shunt.Directory.File.{Cluster, File}
use shunt.Directory.Identifiers.{valid_bucket_name}
use shunt.Directory.Validate.{
  Used, taken, ref, take_buckets, buckets, validate_placement, validate_placements, validate,
}

-- Whether a bucket of a cluster is among a placement's.
abbrev pub among : List (Str × Str) → Str → Str → Bool
among [] cl b = false
among ((c, name) ∷ rest) cl b = (str_eq c cl && str_eq name b) || among rest cl b

module _ (is_ip : Str → Bool) (clusters : Map Cluster) (pk : Str) where
  kept_apart :
      (c name : Str) (u : Used) (cl b k : Str)
      → taken u c name ≡ none
      → taken u cl b ≡ some k
      → (str_eq c cl && str_eq name b) ≡ false
  kept_apart c name u cl b k free t = elim (Bool-cases (str_eq c cl && str_eq name b)) [
    | inr e ↦ e
    | inl e ↦
        let same : c ≡ cl = (str_eq_iff c cl).0 (ground (arith, e)) in
        let same2 : name ≡ b = (str_eq_iff name b).0 (ground (arith, e)) in
        absurd
          (ground (arith, free, t, ap (λ x. taken u x name) same, ap (λ x. taken u cl x) same2))
  ]

  -- A bucket that is taken was free.
  take-step :
      (c name : Str) (rest : List (Str × Str)) (u : Used)
      → (take_buckets is_ip clusters pk ((c, name) ∷ rest) u).0 ≡ true
      → (taken u c name ≡ none)
        × ((take_buckets is_ip clusters pk rest (((c, name), pk) ∷ u)).0 ≡ true)
        × ((take_buckets is_ip clusters pk ((c, name) ∷ rest) u).1
            ≡ (take_buckets is_ip clusters pk rest (((c, name), pk) ∷ u)).1)
  unfolding take_buckets
  take-step c name rest u good =
      elim (Bool-cases
        (ref clusters c && valid_bucket_name is_ip name && not (is_some (taken u c name)))) [
          | inl f ↦ elim (Option-cases (taken u c name)) [
            | inl e ↦ (e, ground (arith, f, good), ground (arith, f))
            | inr (k, e) ↦ absurd (ground (arith, f, e))
          ]
          | inr f ↦ absurd (ground (arith, f, good))
        ]

  take-keeps :
      (xs : List (Str × Str)) (u : Used) (cl b k : Str)
      → (take_buckets is_ip clusters pk xs u).0 ≡ true
      → taken u cl b ≡ some k
      → taken (take_buckets is_ip clusters pk xs u).1 cl b ≡ some k
  unfolding taken take_buckets
  take-keeps [] u cl b k good t = t
  take-keeps ((c, name) ∷ rest) u cl b k good t =
      let (free, ok, after) = take-step c name rest u good in
      ap (λ v. taken v cl b) after
      ∙ take-keeps rest (((c, name), pk) ∷ u) cl b k ok (
          ground
            (arith, t, free, str_eq_iff c cl, str_eq_iff name b, kept_apart c name u cl b k free t))

  take-owns :
      (xs : List (Str × Str)) (u : Used) (cl b : Str)
      → (take_buckets is_ip clusters pk xs u).0 ≡ true
      → among xs cl b ≡ true
      → taken (take_buckets is_ip clusters pk xs u).1 cl b ≡ some pk
  unfolding take_buckets taken
  take-owns [] u cl b good a = absurd (ground (arith, a))
  take-owns ((c, name) ∷ rest) u cl b good a =
      let (free, ok, after) = take-step c name rest u good in
      elim (Bool-cases (str_eq c cl && str_eq name b)) [
        | inl e ↦
            ap (λ v. taken v cl b) after
            ∙ take-keeps rest (((c, name), pk) ∷ u) cl b pk ok (ground (arith, e))
        | inr e ↦
            ap (λ v. taken v cl b) after
            ∙ take-owns rest (((c, name), pk) ∷ u) cl b ok (ground (arith, a, e))
      ]

contains-insert_key :
    (k j : Str) (ks : List Str) → contains (insert_key k ks) j ≡ (str_eq k j || contains ks j)
unfolding contains insert_key
contains-insert_key k j [] = refl
contains-insert_key k j (x ∷ ks) = ground (arith, contains-insert_key k j ks)

pub sorted_keys-has {ℓ} :
    {V : Type ℓ} (m : Map V) (k : Str) (v : V)
    → get m k ≡ some v
    → contains (sorted_keys m) k ≡ true
unfolding get sorted_keys
sorted_keys-has [] k v e = absurd (ground (arith, e))
sorted_keys-has ((j, w) ∷ m) k v e =
    ground (arith, e, contains-insert_key j k (sorted_keys m), sorted_keys-has m k v)

module _ (is_ip : Str → Bool) (f : File) where
  one-keeps :
      (pk : Str) (p : Placement) (u : Used) (cl b k : Str)
      → (validate_placement is_ip f pk p u).0 ≡ true
      → taken u cl b ≡ some k
      → taken (validate_placement is_ip f pk p u).1 cl b ≡ some k
  unfolding validate_placement
  one-keeps pk p u cl b k good t =
      take-keeps is_ip f.clusters pk (buckets p) u cl b k (ground (arith, good)) t

  one-owns :
      (pk : Str) (p : Placement) (u : Used) (cl b : Str)
      → (validate_placement is_ip f pk p u).0 ≡ true
      → among (buckets p) cl b ≡ true
      → taken (validate_placement is_ip f pk p u).1 cl b ≡ some pk
  unfolding validate_placement
  one-owns pk p u cl b good a =
      take-owns is_ip f.clusters pk (buckets p) u cl b (ground (arith, good)) a

  all-keeps :
      (pks : List Str) (u : Used) (cl b k : Str)
      → (validate_placements is_ip f pks u).0 ≡ true
      → taken u cl b ≡ some k
      → taken (validate_placements is_ip f pks u).1 cl b ≡ some k
  unfolding validate_placements
  all-keeps [] u cl b k good t = t
  all-keeps (pk ∷ pks) u cl b k good t = elim (Option-cases (get f.placements pk)) [
    | inl e ↦ let rest = all-keeps pks u cl b k in ground (arith, e, good, rest)
    | inr (p, e) ↦
        let after = (validate_placement is_ip f pk p u).1 in
        let ok : ((validate_placement is_ip f pk p u).0 ≡ true)
            × ((validate_placements is_ip f pks after).0 ≡ true) =
          ground (arith, e, good) in
        let now = one-keeps pk p u cl b k ok.0 t in
        let later = all-keeps pks after cl b k ok.1 now in ground (arith, e, later)
  ]

  all-owns :
      (pks : List Str) (u : Used) (pk cl b : Str) (p : Placement)
      → (validate_placements is_ip f pks u).0 ≡ true
      → contains pks pk ≡ true
      → get f.placements pk ≡ some p
      → among (buckets p) cl b ≡ true
      → taken (validate_placements is_ip f pks u).1 cl b ≡ some pk
  unfolding validate_placements contains
  all-owns [] u pk cl b p good c g a = absurd (ground (arith, c))
  all-owns (x ∷ pks) u pk cl b p good c g a = elim (Option-cases (get f.placements x)) [
    | inl e ↦ elim (Bool-cases (str_eq x pk)) [
      | inl s ↦
          let same : x ≡ pk = (str_eq_iff x pk).0 s in
          absurd (ground (arith, e, g, ap (get f.placements) same))
      | inr s ↦ let rest = all-owns pks u pk cl b p in ground (arith, e, good, c, s, g, a, rest)
    ]
    | inr (q, e) ↦
        let after = (validate_placement is_ip f x q u).1 in
        let ok : ((validate_placement is_ip f x q u).0 ≡ true)
            × ((validate_placements is_ip f pks after).0 ≡ true) =
          ground (arith, e, good) in
        elim (Bool-cases (str_eq x pk)) [
          | inl s ↦
              let same : x ≡ pk = (str_eq_iff x pk).0 s in
              let found : some q ≡ some p = sym e ∙ ap (get f.placements) same ∙ g in
              let one : q ≡ p = ground (arith, found) in
              let now : taken after cl b ≡ some pk =
                one-owns x q u cl b ok.0 (ap (λ r. among (buckets r) cl b) one ∙ a)
                ∙ ap some same in
              let later = all-keeps pks after cl b pk ok.1 now in ground (arith, e, later)
          | inr s ↦
              let later = all-owns pks after pk cl b p ok.1 (ground (arith, c, s)) g a in
              ground (arith, e, later)
        ]
  ]

-- In a file that validate accepts, a backend's bucket that two placements name is one placement's.
pub validate-one_bucket :
    (clusters_ok : Map Cluster → Bool) (is_ip : Str → Bool) (f : File) (j k : Str) (p q : Placement)
    (cl b : Str)
    → validate clusters_ok is_ip f ≡ true
    → get f.placements j ≡ some p
    → get f.placements k ≡ some q
    → among (buckets p) cl b ≡ true
    → among (buckets q) cl b ≡ true
    → j ≡ k
unfolding validate
validate-one_bucket clusters_ok is_ip f j k p q cl b v gj gk a c =
    let ok : (validate_placements is_ip f (sorted_keys f.placements) []).0 ≡ true =
      ground (arith, v) in
    let first =
      all-owns is_ip f (sorted_keys f.placements) [] j cl b p ok
        (sorted_keys-has f.placements j p gj) gj a in
    let second =
      all-owns is_ip f (sorted_keys f.placements) [] k cl b q ok
        (sorted_keys-has f.placements k q gk) gk c in
    ground (arith, sym first ∙ second)
