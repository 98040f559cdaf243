-- ===== src/Samples/Routing.antt =====
-- Steps of a migration, and where keys go meanwhile.
use shunt.Base.{
  ℕ, ◌≡◌, ◌≢◌, ◌⊎◌, ◌-◌, List, inl, inr, refl, Str, lit, Bool, true, false, none, some, [], ◌∷◌, ok,
  err, ◌^◌, ◌+◌,
}
use shunt.Base.Float.{Float64, pos, unit, is_nan, is_zero}
use shunt.Directory.Types.{
  Move, active, ramping, Ramp, ramp_hash, Placement, empty_placement, barrier_mutations, spread,
  Owner, name_of,
}
use shunt.Directory.Owners.{check_owners}
use shunt.Directory.Scopes.{carve_placement, check_prefixes}
use shunt.Directory.Guards.{Transition, legal}
use shunt.Directory.Transition.{apply_plain, grow_ramp}
use shunt.Directory.Transition.Releases.{release_undoes_start}
use shunt.Directory.Transition.States.{apply_plain_state}
use shunt.Migrate.Route.{in_range, in_hold, owner_of, on_leg, narrow}
use shunt.Migrate.Route.Handover.{write_place, IsPlaced, hold_keeps_place}
use shunt.Migrate.Route.Handover.Completion.{complete_keeps_place}
use shunt.Migrate.Route.Homes.{carve_keeps_owner}
use shunt.Samples.{
  half, three_quarters, resting, ramp_to, first_step, call_off, ramp_half, next_hold, half_moved,
  quarter_held, quarter_moved, two_owners, spread_out,
}

half_moved-IsPlaced : IsPlaced half_moved
half_moved-IsPlaced = record { primary = refl; source = λ n. refl }

quarter_held-IsPlaced : IsPlaced quarter_held
quarter_held-IsPlaced = record { primary = refl; source = λ n. refl }

spread_out-spread : spread spread_out ≡ true
unfolding spread
spread_out-spread = refl

spread_out-check_prefixes : check_prefixes spread_out ≡ true
unfolding check_prefixes
spread_out-check_prefixes = refl

resting-plain : spread resting ≡ false
unfolding spread
resting-plain = refl

abbrev whole : List Owner
whole = record { from = 0; to = 2 ^ 64 - 1; leg = lit "old" } ∷ []

holds_quarter : apply_plain half_moved (ramp_to three_quarters true) ≡ ok quarter_held
unfolding apply_plain shunt.Directory.Guards.refused_step shunt.Directory.Guards.resolve_target
    shunt.Directory.Guards.check_arguments shunt.Directory.Transition.take_step grow_ramp
    shunt.Base.str_eq is_zero shunt.Base.Float.flt shunt.Base.Float.feq
holds_quarter = refl

moves_quarter : apply_plain quarter_held (ramp_to three_quarters false) ≡ ok quarter_moved
unfolding apply_plain shunt.Directory.Guards.refused_step shunt.Directory.Guards.resolve_target
    shunt.Directory.Guards.check_arguments shunt.Directory.Transition.take_step grow_ramp
    shunt.Base.str_eq is_zero shunt.Base.Float.flt shunt.Base.Float.feq
    shunt.Directory.Transition.beyond_hold shunt.Base.any
moves_quarter = refl

-- Key "b" is in the first half, "a" in the third quarter and "logs/1" in the last.
places :
    (write_place quarter_held (lit "b") ≡ ok (some (lit "new")))
    × (write_place quarter_held (lit "a") ≡ ok none)
    × (write_place quarter_held (lit "logs/1") ≡ ok (some (lit "old")))
unfolding write_place in_range shunt.Migrate.Route.has_one_of shunt.Base.any
    shunt.Base.Float.le_zero shunt.Base.Float.ge_one shunt.Base.str_eq shunt.Migrate.Hash.key_hash
    shunt.Migrate.Route.threshold is_nan shunt.Base.Float.magnitude in_hold
places = (refl, refl, refl)

places_before : write_place half_moved (lit "logs/1") ≡ ok (some (lit "old"))
unfolding write_place in_range shunt.Migrate.Route.has_one_of shunt.Base.any
    shunt.Base.Float.le_zero shunt.Base.Float.ge_one shunt.Base.str_eq shunt.Migrate.Hash.key_hash
    shunt.Migrate.Route.threshold is_nan shunt.Base.Float.magnitude in_hold
places_before = refl

places_after : write_place quarter_moved (lit "b") ≡ ok (some (lit "new"))
unfolding write_place in_range shunt.Migrate.Route.has_one_of shunt.Base.any
    shunt.Base.Float.le_zero shunt.Base.Float.ge_one shunt.Base.str_eq shunt.Migrate.Hash.key_hash
    shunt.Migrate.Route.threshold is_nan shunt.Base.Float.magnitude
places_after = refl

hold_keeps_place_example : lit "old" ≡ lit "old"
hold_keeps_place_example =
    hold_keeps_place half_moved (ramp_to three_quarters true) quarter_held (lit "logs/1")
      (lit "old") (lit "old") half_moved-IsPlaced refl refl holds_quarter places_before places.2

complete_keeps_place_example : lit "new" ≡ lit "new"
unfolding is_nan
complete_keeps_place_example =
    complete_keeps_place quarter_held (ramp_to three_quarters false) quarter_moved
      (record ramp_half { hold = some next_hold }) next_hold (lit "b") (lit "new") (lit "new")
      quarter_held-IsPlaced refl refl refl refl refl refl refl refl refl refl moves_quarter places.0
      places_after

abbrev grown : Ramp
grown = record ramp_half { ratio = three_quarters }

abbrev half_held : Ramp
half_held = record ramp_half { hold = some next_hold }

grows_held : grow_ramp half_held (ramp_to three_quarters false) ≡ ok grown
unfolding grow_ramp shunt.Base.str_eq is_zero shunt.Base.Float.flt shunt.Base.Float.feq
    shunt.Directory.Transition.beyond_hold shunt.Base.any
grows_held = refl

last_stays :
    (in_range (some half_held) (lit "logs/1") ≡ ok false)
    × (in_hold (some half_held) (lit "logs/1") ≡ ok false)
unfolding in_range in_hold shunt.Migrate.Route.has_one_of shunt.Base.any shunt.Base.Float.le_zero
    shunt.Base.Float.ge_one shunt.Base.str_eq shunt.Migrate.Hash.key_hash
    shunt.Migrate.Route.threshold is_nan shunt.Base.Float.magnitude
last_stays = (refl, refl)

abbrev first_held : Placement
first_held = record resting {
  state = ramping;
  primary = lit "new";
  source = lit "old";
  ramp = some (record {
    hash = ramp_hash;
    ratio = pos 0;
    prefixes = [];
    range = none;
    hold = some (record { ratio = half; prefixes = [] });
  });
  names = (lit "old", lit "photos") ∷ (lit "new", lit "photos-2") ∷ [];
  barrier = some (record { id = lit "op-1"; kind = barrier_mutations });
}

holds_first : apply_plain resting first_step ≡ ok first_held
unfolding apply_plain shunt.Directory.Guards.refused_step shunt.Directory.Guards.resolve_target
    shunt.Directory.Guards.check_arguments shunt.Directory.Transition.take_step shunt.Base.str_eq
    is_zero shunt.Base.put
holds_first = refl

release_undoes_start_example :
    apply_plain first_held call_off
    ≡ ok (record resting {
      target = lit "new";
      names = (lit "old", lit "photos") ∷ (lit "new", lit "photos-2") ∷ [];
    })
unfolding shunt.Base.put shunt.Base.str_eq
release_undoes_start_example =
    release_undoes_start resting first_held first_step call_off refl refl refl refl refl refl
      holds_first refl (inr refl)

apply_plain_state_example :
    ((false ≡ true) × (ramping ≡ ramping) × ((ramping ≡ ramping) ⊎ (ramping ≡ active)))
    ⊎ ((false ≡ false) × (true ≡ true) × (legal ramping ramping ≡ true) × (ramping ≡ ramping))
    ⊎ ((false ≡ false) × (true ≡ false) × (legal ramping ramping ≡ true) × (ramping ≡ ramping))
apply_plain_state_example =
    apply_plain_state half_moved quarter_held (ramp_to three_quarters true) holds_quarter

abbrev carved : Placement
carved = record spread_out { prefixes = record { prefix = lit "logs/"; owners = two_owners } ∷ [] }

carves : carve_placement spread_out (lit "logs/") ≡ ok carved
unfolding carve_placement shunt.Base.any shunt.Directory.Scopes.best_rule
carves = refl

owned_before : owner_of spread_out (lit "logs/1") ≡ ok (lit "b")
unfolding owner_of shunt.Base.str_eq shunt.Directory.Owners.owner_in shunt.Directory.Scopes.scope
    shunt.Directory.Scopes.best_rule shunt.Migrate.Hash.key_hash
owned_before = refl

carve_keeps_owner_example : owner_of carved (lit "logs/1") ≡ ok (lit "b")
carve_keeps_owner_example =
    carve_keeps_owner spread_out carved (lit "logs/") (lit "logs/1") (lit "b") spread_out-spread
      spread_out-check_prefixes carves owned_before

abbrev carved_plain : Placement
carved_plain = record (empty_placement active) {
  legs = (lit "old", record { cluster = lit "old"; bucket = lit "photos" }) ∷ [];
  owners = whole;
  key_hash = ramp_hash;
  prefixes = record { prefix = lit "logs/"; owners = whole } ∷ [];
}

carves_plain : carve_placement resting (lit "logs/") ≡ ok carved_plain
unfolding carve_placement shunt.Base.any name_of shunt.Directory.Scopes.best_rule shunt.Base.get
    shunt.Base.str_eq
carves_plain = refl

abbrev moving : Move
moving = record {
  scope = lit "";
  range = record { from = 0; to = 2 ^ 62 - 1 };
  from = lit "a";
  to = lit "b";
  ramp = some ramp_half;
  cutover = none;
}
