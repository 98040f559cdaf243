-- ===== src/Migrate/Route/Homes.antt =====
-- internal/migrate/route.go and internal/directory/scopes.go together: whose a key is, before and
-- after a prefix rule is carved.
use shunt.Base.{
  ℕ, ◌<◌, ◌≡◌, refl, Str, get, is_empty, str_eq, true, false, none, List, [], ◌∷◌, ◌++◌, ok, arith,
  any, str_eq_refl, if◌then◌else◌,
}
use shunt.Directory.Types.{
  hash_space, full_range, Leg, Placement, Owner, spread, name_of, ramp_hash, leg_of,
}
use shunt.Directory.Owners.{owner_in}
use shunt.Directory.Scopes.{
  best_rule, scope, parent_table, check_prefixes, carve_refused, carve_placement, sort_rules,
  one_leg,
}
use shunt.Directory.Scopes.Carving.{check_prefixes-IsUnique, add_rule_table}
use shunt.Migrate.Route.{owner_of, on_leg, narrow, narrow_to_leg}
use shunt.Migrate.Hash.{key_hash, key_hash_lt}
use shunt.Directory.Owners.Tiling.{Tiles, lookup}
use shunt.Directory.Owners.Search.{owner_in-lookup}

-- The placement that a carved one starts from.
abbrev start : Placement → Placement
start p = record (if spread p then p else one_leg p) { key_hash = ramp_hash }

-- The table of a key's scope.
abbrev table_at : Placement → Str → List Owner
table_at p key = (scope p key).1

carved :
    (p q : Placement) (prefix : Str)
    → carve_placement p prefix ≡ ok q
    → (any (λ r. str_eq r.prefix prefix) p.prefixes ≡ false)
      × (q ≡ record (start p) {
        prefixes = sort_rules (
            (start p).prefixes
            ++ record { prefix = prefix; owners = parent_table (start p) prefix } ∷ []);
      })
unfolding carve_placement carve_refused
carved p q prefix e = ground arith

carve_table :
    (p q : Placement) (prefix key : Str)
    → spread p ≡ true
    → check_prefixes p ≡ true
    → carve_placement p prefix ≡ ok q
    → table_at q key ≡ table_at p key
unfolding scope parent_table
carve_table p q prefix key s c e =
    let (fresh, form) = carved p q prefix e in
    let base : start p ≡ record p { key_hash = ramp_hash } = rw s in
    rw form (
      rw s
        (add_rule_table p.owners p.prefixes prefix key _ (check_prefixes-IsUnique p c) fresh refl))

-- Carving a prefix rule out of a spread placement, its rules as checkPrefixes accepts them, leaves
-- every key that a leg owned with that leg.
pub carve_keeps_owner :
    (p q : Placement) (prefix key id : Str)
    → spread p ≡ true
    → check_prefixes p ≡ true
    → carve_placement p prefix ≡ ok q
    → owner_of p key ≡ ok id
    → owner_of q key ≡ ok id
unfolding owner_of owner_in scope
carve_keeps_owner p q prefix key id s c e o =
    let same = carve_table p q prefix key s c e in
    let hash : q.key_hash ≡ ramp_hash = rw (carved p q prefix e).1 refl in
    rw hash (rw str_eq_refl (rw same (ground (arith, o))))

plain_rules : (p : Placement) → spread p ≡ false → (p.prefixes ≡ []) × (p.move ≡ none)
unfolding spread
plain_rules p s = ground arith

-- The table of a placement with one leg.
abbrev whole : Str → List Owner
whole leg = record { from = full_range.from; to = full_range.to; leg = leg } ∷ []

whole-Tiles : (leg : Str) (l : Leg) → Tiles ((leg, l) ∷ []) (whole leg)
unfolding get
whole-Tiles leg l = (refl, omega arith, rw str_eq_refl refl, refl)

owner_in-whole : (leg : Str) (h : ℕ) → h < hash_space → owner_in (whole leg) h ≡ leg
unfolding lookup
owner_in-whole leg h lt =
    rw
      (owner_in-lookup _ hash_space (whole leg) h
        (whole-Tiles leg (record { cluster = leg; bucket = leg })))
      (ground arith)

carve_plain_table :
    (p q : Placement) (prefix key : Str)
    → spread p ≡ false
    → carve_placement p prefix ≡ ok q
    → table_at q key ≡ whole p.primary
unfolding scope parent_table any best_rule
carve_plain_table p q prefix key s e =
    let (fresh, form) = carved p q prefix e in
    let none_yet = (plain_rules p s).0 in
    rw form (
      rw s (
        rw none_yet (
          add_rule_table (whole p.primary) [] prefix key _
            (record { same = λ r t m m' e'. absurd m }) refl refl)))

carve_plain_leg :
    (p q : Placement) (prefix : Str)
    → spread p ≡ false
    → carve_placement p prefix ≡ ok q
    → leg_of q.legs p.primary ≡ record { cluster = p.primary; bucket = name_of p.names p.primary }
unfolding leg_of get
carve_plain_leg p q prefix s e =
    rw (carved p q prefix e).1 (rw s (ground (arith, str_eq_refl p.primary)))

carve_plain_form :
    (p q : Placement) (prefix : Str)
    → spread p ≡ false
    → carve_placement p prefix ≡ ok q
    → (q.key_hash ≡ ramp_hash) × (q.move ≡ none)
carve_plain_form p q prefix s e =
    let form = (carved p q prefix e).1 in
    let still = (plain_rules p s).1 in (rw form refl, rw form (rw s still))

-- Carving a prefix rule out of a plain placement that names its primary leaves a placement that
-- routes every key to the leg of that primary, and that leg is the primary's cluster and bucket.
pub carve_plain :
    (p q : Placement) (prefix key : Str)
    → spread p ≡ false
    → is_empty p.primary ≡ false
    → carve_placement p prefix ≡ ok q
    → (narrow q key ≡ ok (on_leg q p.primary))
      × (leg_of q.legs p.primary
          ≡ record { cluster = p.primary; bucket = name_of p.names p.primary })
unfolding narrow narrow_to_leg owner_of
carve_plain p q prefix key s n e =
    let (hash, still) = carve_plain_form p q prefix s e in
    let own : owner_in (table_at q key) (key_hash key) ≡ p.primary =
      rw (carve_plain_table p q prefix key s e)
        (owner_in-whole p.primary (key_hash key) (key_hash_lt key)) in
    (ground (arith, hash, still, own, n, str_eq_refl ramp_hash), carve_plain_leg p q prefix s e)
