-- ===== src/Samples.antt =====
-- Concrete placements and transitions, shared by the modules below, which try the theorems at them.
pub mod Routing
pub mod Tables
pub mod Admitting
pub mod Filing
pub mod Operating
pub mod Holding
pub mod Listing
pub mod Tracking
pub mod Moving
pub mod Checking
pub mod Switching
pub mod Draining
pub mod Stamping
use shunt.Base.{lit, Bool, true, false, none, some, [], ◌∷◌, List, Map, ◌^◌, ◌+◌, ◌-◌}
use shunt.Base.Float.{Float64, pos}
use shunt.Directory.Types.{
  active, ramping, Ramp, RampHold, ramp_hash, Placement, empty_placement, Leg, Owner,
}
use shunt.Directory.Guards.{Transition}

abbrev pub half : Float64
half = pos (2 ^ 1073)

abbrev pub three_quarters : Float64
three_quarters = pos (2 ^ 1073 + 2 ^ 1072)

-- A bucket at rest on one cluster.
abbrev pub resting : Placement
resting = record (empty_placement active) {
  primary = lit "old";
  names = (lit "old", lit "photos") ∷ [];
}

abbrev pub ramp_to : Float64 → Bool → Transition
ramp_to ratio hold = record {
  to = ramping;
  target = lit "";
  name = lit "";
  ratio = ratio;
  prefixes = [];
  cutover = none;
  hold = hold;
  release = false;
  complete = false;
  barrier = lit "";
  range = none;
  leg = lit "";
  scope = lit "";
  share = pos 0;
}

-- The first step, held under a barrier.
abbrev pub first_step : Transition
first_step = record (ramp_to half true) {
  target = lit "new";
  name = lit "photos-2";
  barrier = lit "op-1";
}

abbrev pub call_off : Transition
call_off = record (ramp_to (pos 0) false) { release = true; barrier = lit "op-1" }

abbrev pub ramp_half : Ramp
ramp_half = record { hash = ramp_hash; ratio = half; prefixes = []; range = none; hold = none }

abbrev pub next_hold : RampHold
next_hold = record { ratio = three_quarters; prefixes = [] }

-- Half of its keys moved.
abbrev pub half_moved : Placement
half_moved = record resting {
  state = ramping;
  primary = lit "new";
  source = lit "old";
  ramp = some ramp_half;
  names = (lit "old", lit "photos") ∷ (lit "new", lit "photos-2") ∷ [];
}

-- The next quarter held.
abbrev pub quarter_held : Placement
quarter_held = record half_moved { ramp = some (record ramp_half { hold = some next_hold }) }

abbrev pub quarter_moved : Placement
quarter_moved = record half_moved { ramp = some (record ramp_half { ratio = three_quarters }) }

abbrev pub two_legs : Map Leg
two_legs =
    (lit "a", record { cluster = lit "old"; bucket = lit "photos" })
    ∷ (lit "b", record { cluster = lit "new"; bucket = lit "photos-2" })
    ∷ []

abbrev pub two_owners : List Owner
two_owners =
    record { from = 0; to = 2 ^ 63 - 1; leg = lit "a" }
    ∷ record { from = 2 ^ 63; to = 2 ^ 64 - 1; leg = lit "b" }
    ∷ []

-- A bucket spread over two legs.
abbrev pub spread_out : Placement
spread_out = record (empty_placement active) {
  legs = two_legs;
  owners = two_owners;
  key_hash = ramp_hash;
}
