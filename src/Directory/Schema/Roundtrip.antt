-- ===== src/Directory/Schema/Roundtrip.antt =====
-- internal/directory/legs.go: a plain placement, written in schema v2 and read again.
use shunt.Base.{
  ◌≤◌, ◌≡◌, ◌⊎◌, inl, inr, refl, ap, ◌∙◌, Str, is_empty, str_eq, str_eq_refl, true, false, ◌||◌,
  Option, none, some, [], ◌∷◌, all, null, length, Map, get, has, Unique, arith, Bool-cases,
  Option-cases,
}
use shunt.Directory.Types.{Leg, Move, Placement, leg_of, spread}
use shunt.Directory.Guards.{is_active}
use shunt.Directory.Owners.{check_owners}
use shunt.Directory.Scopes.{check_prefixes}
use shunt.Directory.Schema.{
  is_v2, move_legs_ok, check_v2, stays_v2, same_cluster_move, names_v1, role_cluster, v1_fields,
  v1_of, from_v2, legs_of_names, full_owner, whole_move, to_v2,
}
use shunt.Directory.Schema.Names.{
  get-legs_of_names, length-legs_of_names, name_ok, all-legs_of_names, leg_names-legs_of_names,
}

-- A placement in the fields of v1, whose roles are clusters that it names a bucket on.
pub record IsPlain (p : Placement) : Type 0 where
  pub no_legs : p.legs ≡ []
  pub no_owners : p.owners ≡ []
  pub no_hash : p.key_hash ≡ []
  pub no_move : p.move ≡ none
  pub no_rules : p.prefixes ≡ []
  pub names_once : Unique p.names
  pub names_few : length p.names ≤ 32
  pub names_ok : all name_ok p.names ≡ true
  pub primary_named : has p.names p.primary ≡ true
  pub target_named : (is_empty p.target || has p.names p.target) ≡ true
  pub cold_named : (is_empty p.cold || has p.names p.cold) ≡ true

-- At rest, with nothing of a move.
pub record IsResting (p : Placement) : Type 0 where
  pub active : is_active p.state ≡ true
  pub no_source : p.source ≡ []
  pub no_ramp : p.ramp ≡ none
  pub no_cutover : p.cutover ≡ none

-- In a move between two clusters.
pub record IsMoving (p : Placement) : Type 0 where
  pub not_active : is_active p.state ≡ false
  pub source_named : has p.names p.source ≡ true
  pub apart : str_eq p.source p.primary ≡ false

leg_of_name :
    (ns : Map Str) (cl : Str) → has ns cl ≡ true → (leg_of (legs_of_names ns) cl).cluster ≡ cl
unfolding leg_of
leg_of_name ns cl h = elim (Option-cases (get ns cl)) [
  | inl e ↦ absurd (ground (arith, h, e))
  | inr (b, e) ↦ ground (arith, e, get-legs_of_names ns cl)
]

has_leg : (ns : Map Str) (cl : Str) → has ns cl ≡ true → has (legs_of_names ns) cl ≡ true
has_leg ns cl h = elim (Option-cases (get ns cl)) [
  | inl e ↦ absurd (ground (arith, h, e))
  | inr (b, e) ↦ ground (arith, e, get-legs_of_names ns cl)
]

named_not_null : (ns : Map Str) (cl : Str) → has ns cl ≡ true → null (legs_of_names ns) ≡ false
unfolding get legs_of_names
named_not_null [] cl h = absurd (ground (arith, h))
named_not_null ((k, b) ∷ ns) cl h = refl

one_owner_ok :
    (leg : Str) (legs : Map Leg) → has legs leg ≡ true → check_owners (full_owner leg) legs ≡ none
unfolding check_owners full_owner
one_owner_ok leg legs h = ground (arith, h)

module _ (p : Placement) (plain : IsPlain p) where
  plain_spread : spread p ≡ false
  unfolding spread
  plain_spread = ground (arith, plain.no_owners, plain.no_move, plain.no_rules)

  -- The placement in v2, with its one owner and its move.
  abbrev as_v2 : Str → Option Move → Placement
  as_v2 leg m = record p {
    primary = [];
    source = [];
    names = [];
    ramp = none;
    cutover = none;
    legs = legs_of_names p.names;
    owners = full_owner leg;
    move = m;
  }

  role_back :
      (role : Str) (q : Placement)
      → q.legs ≡ legs_of_names p.names
      → (is_empty role || has p.names role) ≡ true
      → role_cluster q role ≡ role
  unfolding role_cluster
  role_back role q e h = elim (Bool-cases (is_empty role)) [
    | inl f ↦ ground (arith, f)
    | inr f ↦ ground (
      arith,
      f,
      ap (λ ls. (leg_of ls role).cluster) e,
      leg_of_name p.names role (ground (arith, f, h)),
    )
  ]

  role_ok :
      (role : Str)
      → (is_empty role || has p.names role) ≡ true
      → (is_empty role || has (legs_of_names p.names) role) ≡ true
  role_ok role h = elim (Bool-cases (is_empty role)) [
    | inl f ↦ ground (arith, f)
    | inr f ↦ ground (arith, f, has_leg p.names role (ground (arith, f, h)))
  ]

  check_v2-as_v2 :
      (leg : Str) (m : Option Move)
      → has p.names leg ≡ true
      → move_legs_ok (legs_of_names p.names) m ≡ true
      → check_v2 (as_v2 leg m) ≡ true
  unfolding check_v2 check_prefixes full_owner
  check_v2-as_v2 leg m h mv = ground (
    arith,
    mv,
    named_not_null p.names leg h,
    length-legs_of_names p.names,
    plain.names_few,
    all-legs_of_names p.names plain.names_ok,
    plain.no_hash,
    one_owner_ok leg (legs_of_names p.names) (has_leg p.names leg h),
    plain.no_rules,
    role_ok p.target plain.target_named,
    role_ok p.cold plain.cold_named,
  )

  as_v2-is_v2 : (leg : Str) (m : Option Move) → is_v2 (as_v2 leg m) ≡ true
  unfolding is_v2 full_owner
  as_v2-is_v2 leg m = ground arith

  as_v2-names_v1 : (leg : Str) (m : Option Move) → names_v1 (as_v2 leg m) ≡ false
  unfolding names_v1
  as_v2-names_v1 leg m = refl

  -- What is left of reading the placement back.
  from_v2-as_v2 :
      (leg : Str) (m : Option Move)
      → has p.names leg ≡ true
      → move_legs_ok (legs_of_names p.names) m ≡ true
      → stays_v2 (as_v2 leg m) ≡ false
      → from_v2 (as_v2 leg m) ≡ v1_of (as_v2 leg m) p.names
  unfolding from_v2
  from_v2-as_v2 leg m h mv st = ground (
    arith,
    as_v2-is_v2 leg m,
    as_v2-names_v1 leg m,
    check_v2-as_v2 leg m h mv,
    st,
    leg_names-legs_of_names p.names [] plain.names_once,
  )

  module _ (rest : IsResting p) where
    to_v2-resting : to_v2 p ≡ as_v2 p.primary p.move
    unfolding to_v2
    to_v2-resting = ground (arith, plain_spread, rest.active)

    v1_of-resting : v1_of (as_v2 p.primary p.move) p.names ≡ some p
    unfolding v1_of full_owner v1_fields
    v1_of-resting = ground (
      arith,
      plain.no_move,
      rest.active,
      plain.no_legs,
      plain.no_owners,
      plain.no_hash,
      rest.no_source,
      rest.no_ramp,
      rest.no_cutover,
      leg_of_name p.names p.primary plain.primary_named,
      role_back p.target (as_v2 p.primary p.move) refl plain.target_named,
      role_back p.cold (as_v2 p.primary p.move) refl plain.cold_named,
    )

    resting_stays : stays_v2 (as_v2 p.primary p.move) ≡ false
    unfolding stays_v2 full_owner
    resting_stays = ground (arith, plain.no_rules, plain.no_move)

    resting_move : move_legs_ok (legs_of_names p.names) p.move ≡ true
    unfolding move_legs_ok
    resting_move = ground (arith, plain.no_move)

  module _ (moves : IsMoving p) where
    to_v2-moving : to_v2 p ≡ as_v2 p.source (some (whole_move p))
    unfolding to_v2
    to_v2-moving = ground (arith, plain_spread, moves.not_active)

    v1_of-moving : v1_of (as_v2 p.source (some (whole_move p))) p.names ≡ some p
    unfolding v1_of full_owner v1_fields whole_move
    v1_of-moving = ground (
      arith,
      plain.no_move,
      moves.not_active,
      plain.no_legs,
      plain.no_owners,
      plain.no_hash,
      str_eq_refl p.source,
      leg_of_name p.names p.primary plain.primary_named,
      leg_of_name p.names p.source moves.source_named,
      role_back p.target (as_v2 p.source (some (whole_move p))) refl plain.target_named,
      role_back p.cold (as_v2 p.source (some (whole_move p))) refl plain.cold_named,
    )

    moving_stays : stays_v2 (as_v2 p.source (some (whole_move p))) ≡ false
    unfolding stays_v2 full_owner whole_move same_cluster_move
    moving_stays = elim (Option-cases (get p.names p.source)) [
      | inl e ↦ absurd (ground (arith, e, moves.source_named))
      | inr (a, e) ↦ elim (Option-cases (get p.names p.primary)) [
        | inl f ↦ absurd (ground (arith, f, plain.primary_named))
        | inr (b, f) ↦ ground (
          arith,
          plain.no_rules,
          moves.apart,
          get-legs_of_names p.names p.source,
          get-legs_of_names p.names p.primary,
          e,
          f,
        )
      ]
    ]

    moving_move : move_legs_ok (legs_of_names p.names) (some (whole_move p)) ≡ true
    unfolding move_legs_ok whole_move
    moving_move = ground (
      arith,
      moves.apart,
      has_leg p.names p.source moves.source_named,
      has_leg p.names p.primary plain.primary_named,
    )

-- A plain placement that is written in schema v2 reads back as it was, at rest and in a move: its
-- clusters' buckets become legs and its roles the one owner and the move, and these become its names
-- and roles again.
pub from_v2-to_v2 :
    (p : Placement) → IsPlain p → IsResting p ⊎ IsMoving p → from_v2 (to_v2 p) ≡ some p
from_v2-to_v2 p plain (inl rest) =
    ap from_v2 (to_v2-resting p plain rest)
    ∙ from_v2-as_v2 p plain p.primary p.move plain.primary_named (resting_move p plain rest)
        (resting_stays p plain rest)
    ∙ v1_of-resting p plain rest
from_v2-to_v2 p plain (inr moves) =
    ap from_v2 (to_v2-moving p plain moves)
    ∙ from_v2-as_v2 p plain p.source (some (whole_move p)) moves.source_named
        (moving_move p plain moves) (moving_stays p plain moves)
    ∙ v1_of-moving p plain moves
