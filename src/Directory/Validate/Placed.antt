-- ===== src/Directory/Validate/Placed.antt =====
-- internal/directory/validate.go: what an accepted placement has, that routing and its steps rely on.
use shunt.Base.{
  ◌≡◌, ◌⊎◌, inl, inr, refl, sym, ap, ◌∙◌, Str, is_empty, str_eq, str_eq_iff, Bool, true, false,
  none, some, List, [], ◌∷◌, contains, Map, get, has, sorted_keys, arith, Bool-cases, Option-cases,
}
use shunt.Directory.Types.{active, Placement, spread}
use shunt.Directory.Guards.{is_active}
use shunt.Directory.File.{Cluster, File}
use shunt.Directory.Owners.{check_owners}
use shunt.Directory.Owners.Tiling.{Tiles, check_owners_iff}
use shunt.Directory.Schema.{check_v2}
use shunt.Directory.Validate.{
  Used, ref, source_ok, role_named, plain_ok, spread_ok, shape_ok, validate_placement,
  validate_placements, validate,
}
use shunt.Directory.Validate.Buckets.{sorted_keys-has}
use shunt.Migrate.Route.Handover.{IsPlaced}

module _ (is_ip : Str → Bool) (f : File) where
  one-shape :
      (pk : Str) (p : Placement) (u : Used)
      → (validate_placement is_ip f pk p u).0 ≡ true
      → shape_ok f.clusters p ≡ true
  unfolding validate_placement
  one-shape pk p u good = ground (arith, good)

  all-shape :
      (pks : List Str) (u : Used) (pk : Str) (p : Placement)
      → (validate_placements is_ip f pks u).0 ≡ true
      → contains pks pk ≡ true
      → get f.placements pk ≡ some p
      → shape_ok f.clusters p ≡ true
  unfolding validate_placements contains
  all-shape [] u pk p good c g = absurd (ground (arith, c))
  all-shape (x ∷ pks) u pk p good c g = elim (Option-cases (get f.placements x)) [
    | inl e ↦ elim (Bool-cases (str_eq x pk)) [
      | inl s ↦
          let same : x ≡ pk = (str_eq_iff x pk).0 s in
          absurd (ground (arith, e, g, ap (get f.placements) same))
      | inr s ↦ all-shape pks u pk p (ground (arith, e, good)) (ground (arith, c, s)) g
    ]
    | inr (q, e) ↦ elim (Bool-cases (str_eq x pk)) [
      | inl s ↦
          let same : x ≡ pk = (str_eq_iff x pk).0 s in
          let found : some q ≡ some p = sym e ∙ ap (get f.placements) same ∙ g in
          let one : q ≡ p = ground (arith, found) in
          ap (shape_ok f.clusters) (sym one) ∙ one-shape x q u (ground (arith, e, good))
      | inr s ↦
          all-shape pks (validate_placement is_ip f x q u).1 pk p (ground (arith, e, good))
            (ground (arith, c, s)) g
    ]
  ]

shape_of :
    (clusters_ok : Map Cluster → Bool) (is_ip : Str → Bool) (f : File) (k : Str) (p : Placement)
    → validate clusters_ok is_ip f ≡ true
    → get f.placements k ≡ some p
    → shape_ok f.clusters p ≡ true
unfolding validate
shape_of clusters_ok is_ip f k p v g =
    all-shape is_ip f (sorted_keys f.placements) [] k p (ground (arith, v))
      (sorted_keys-has f.placements k p g) g

-- The roles of a placement at rest or in a move, on configured clusters that it names a bucket on.
pub record HasRoles (clusters : Map Cluster) (p : Placement) : Type 0 where
  pub primary :
      (is_empty p.primary ≡ false)
      × (has clusters p.primary ≡ true)
      × (has p.names p.primary ≡ true)
  pub source :
      ((p.state ≡ active) × (p.source ≡ []))
      ⊎ ((is_active p.state ≡ false)
          × (is_empty p.source ≡ false)
          × (has clusters p.source ≡ true)
          × (has p.names p.source ≡ true)
          × (str_eq p.source p.primary ≡ false))

-- What routing asks of a placement.
pub HasRoles-IsPlaced : (clusters : Map Cluster) (p : Placement) → HasRoles clusters p → IsPlaced p
HasRoles-IsPlaced clusters p roles = record {
  primary = roles.primary.0;
  source = λ moving. elim roles.source [
    | inl (rest, _) ↦ absurd (moving rest)
    | inr (_, filled, _, _, _) ↦ filled
  ];
}

role-named :
    (clusters : Map Cluster) (names : Map Str) (cl : Str)
    → ref clusters cl ≡ true
    → role_named clusters names cl ≡ true
    → (is_empty cl ≡ false) × (has clusters cl ≡ true) × (has names cl ≡ true)
unfolding ref role_named
role-named clusters names cl r n = ground (arith, r, n)

none_left : (s : Str) → is_empty s ≡ true → s ≡ []
none_left [] e = refl
none_left (c ∷ s) e = absurd (ground (arith, e))

active_state : (p : Placement) → is_active p.state ≡ true → p.state ≡ active
active_state p e = ground (arith, e)

resting :
    (clusters : Map Cluster) (p : Placement)
    → source_ok clusters p ≡ true
    → is_empty p.source ≡ true
    → p.state ≡ active
unfolding source_ok
resting clusters p s e = active_state p (ground (arith, s, e))

leaves :
    (clusters : Map Cluster) (p : Placement)
    → source_ok clusters p ≡ true
    → is_empty p.source ≡ false
    → (is_active p.state ≡ false)
      × (ref clusters p.source ≡ true)
      × (str_eq p.source p.primary ≡ false)
unfolding source_ok
leaves clusters p s e = ground (arith, s, e)

plain-HasRoles :
    (clusters : Map Cluster) (p : Placement) → plain_ok clusters p ≡ true → HasRoles clusters p
unfolding plain_ok
plain-HasRoles clusters p h =
    let named : (ref clusters p.primary ≡ true) × (role_named clusters p.names p.primary ≡ true) =
      ground (arith, h) in
    let src : (source_ok clusters p ≡ true) × (role_named clusters p.names p.source ≡ true) =
      ground (arith, h) in
    record {
      primary = role-named clusters p.names p.primary named.0 named.1;
      source = elim (Bool-cases (is_empty p.source)) [
        | inl e ↦ inl (resting clusters p src.0 e, none_left p.source e)
        | inr e ↦
            let (moving, there, apart) = leaves clusters p src.0 e in
            let (filled, known, names) = role-named clusters p.names p.source there src.1 in
            inr (moving, filled, known, names, apart)
      ];
    }

v2-owners : (p : Placement) → check_v2 p ≡ true → check_owners p.owners p.legs ≡ none
unfolding check_v2
v2-owners p h = elim (Option-cases (check_owners p.owners p.legs)) [
  | inl e ↦ e
  | inr (x, e) ↦ absurd (ground (arith, h, e))
]

owners_checked : (p : Placement) → spread_ok p ≡ true → check_owners p.owners p.legs ≡ none
unfolding spread_ok
owners_checked p h = v2-owners p (ground (arith, h))

-- In a file that validate accepts, a placement that is not spread has a primary, a configured cluster on
-- which it names a bucket, and either is ACTIVE without a source, or is not and has a source, too, another
-- such cluster.
pub validate-HasRoles :
    (clusters_ok : Map Cluster → Bool) (is_ip : Str → Bool) (f : File) (k : Str) (p : Placement)
    → validate clusters_ok is_ip f ≡ true
    → get f.placements k ≡ some p
    → spread p ≡ false
    → HasRoles f.clusters p
unfolding shape_ok
validate-HasRoles clusters_ok is_ip f k p v g s =
    let shape = shape_of clusters_ok is_ip f k p v g in
    plain-HasRoles f.clusters p (ground (arith, shape, s))

-- In a file that validate accepts, the owners of a spread placement cover the hash space once and in order,
-- by legs that it has.
pub validate-Tiles :
    (clusters_ok : Map Cluster → Bool) (is_ip : Str → Bool) (f : File) (k : Str) (p : Placement)
    → validate clusters_ok is_ip f ≡ true
    → get f.placements k ≡ some p
    → spread p ≡ true
    → Tiles p.legs p.owners
unfolding shape_ok
validate-Tiles clusters_ok is_ip f k p v g s =
    let shape = shape_of clusters_ok is_ip f k p v g in
    (check_owners_iff p.owners p.legs).0 (owners_checked p (ground (arith, shape, s)))
