-- ===== src/Directory/Types.antt =====
-- The directory's data: internal/directory/directory.go, legs.go, scopes.go and transition.go. A
-- struct is a record, a pointer that may be nil an Option, and a copy of a value the value itself:
-- the records are immutable, so `clone` and `slices.Clone` need no counterpart. Errors keep the
-- sentinel or the reason of a TransitionError, not the text.
use shunt.Base.{
  ℕ, ◌-◌, ◌^◌, Str, lit, Bool, false, Option, none, some, List, ◌||◌, is_some, Map, length, ltb,
  get,
}
use shunt.Base.Float.{Float64}

pub data State : Type 0 where
  active ramping migrating cutover : State
  other : Str → State

-- A point of the 64-bit key hash space is a number below `hash_space`.
abbrev pub hash_space : ℕ
hash_space = 2 ^ 64

abbrev pub max_hash : ℕ
max_hash = 2 ^ 64 - 1

pub record HashRange : Type 0 where
  pub from : ℕ
  pub to : ℕ

abbrev pub full_range : HashRange
full_range = record { from = 0; to = max_hash }

pub record RampHold : Type 0 where
  pub ratio : Float64
  pub prefixes : List Str

pub record Ramp : Type 0 where
  pub hash : Str
  pub ratio : Float64
  pub prefixes : List Str
  pub range : Option HashRange
  pub hold : Option RampHold

abbrev pub ramp_hash : Str
ramp_hash = lit "fnv1a-fmix64-v1"

pub record CutoverEvidence : Type 0 where
  pub at : ℕ
  pub window : ℕ
  pub fallback_reads : Float64

pub record Barrier : Type 0 where
  pub id : Str
  pub kind : Str

abbrev pub barrier_mutations : Str
barrier_mutations = lit "mutations"

abbrev pub barrier_source : Str
barrier_source = lit "source"

pub record Leg : Type 0 where
  pub cluster : Str
  pub bucket : Str

pub record Owner : Type 0 where
  pub from : ℕ
  pub to : ℕ
  pub leg : Str

pub record PrefixRule : Type 0 where
  pub prefix : Str
  pub owners : List Owner

pub record Move : Type 0 where
  pub scope : Str
  pub range : HashRange
  pub from : Str
  pub to : Str
  pub ramp : Option Ramp
  pub cutover : Option CutoverEvidence

pub record Placement : Type 0 where
  pub state : State
  pub primary : Str
  pub source : Str
  pub target : Str
  pub cutover : Option CutoverEvidence
  pub ramp : Option Ramp
  pub names : Map Str
  pub cold : Str
  pub tier : Str
  pub lifecycle : Str
  pub created : ℕ
  pub read_only : Bool
  pub reject_writes : Bool
  pub watch : Bool
  pub barrier : Option Barrier
  pub legs : Map Leg
  pub owners : List Owner
  pub key_hash : Str
  pub move : Option Move
  pub prefixes : List PrefixRule
  pub leg_clusters : Map Str

abbrev pub empty_placement : State → Placement
empty_placement s = record {
  state = s;
  primary = lit "";
  source = lit "";
  target = lit "";
  cutover = none;
  ramp = none;
  names = List.[];
  cold = lit "";
  tier = lit "";
  lifecycle = lit "";
  created = 0;
  read_only = false;
  reject_writes = false;
  watch = false;
  barrier = none;
  legs = List.[];
  owners = List.[];
  key_hash = lit "";
  move = none;
  prefixes = List.[];
  leg_clusters = List.[];
}

-- Placement.Spread
unfoldable pub spread : Placement → Bool
spread p = ltb 1 (length p.owners) || is_some p.move || ltb 0 (length p.prefixes)

-- Placement.Held: the move's ramp decides where there is a move.
unfoldable pub ramp_held : Option Ramp → Bool
ramp_held none = false
ramp_held (some r) = is_some r.hold

unfoldable pub held : Placement → Bool
unfolding ramp_held
held p = elim p.move [ none ↦ ramp_held p.ramp | some m ↦ ramp_held m.ramp ]

-- A missing key of a map of strings reads as "".
unfoldable pub name_of : Map Str → Str → Str
name_of m k = elim (get m k) [ none ↦ lit "" | some v ↦ v ]

-- Placement.ClusterOf
unfoldable pub cluster_of : Placement → Str → Str
cluster_of p role = elim (get p.leg_clusters role) [ none ↦ role | some c ↦ c ]

-- A missing leg reads as the zero Leg.
unfoldable pub leg_of : Map Leg → Str → Leg
leg_of m k = elim (get m k) [ none ↦ record { cluster = lit ""; bucket = lit "" } | some l ↦ l ]

-- Why a transition is refused: one constructor for each message.
pub data Reason : Type 0 where
  share_outside share_with_range share_late no_such_leg nothing_to_release other_barrier : Reason
  unknown_state hold_not_a_step hold_in_progress nothing_held not_allowed target_late : Reason
  other_target other_name evidence_late ratio_late target_required target_is_primary : Reason
  ramp_empty hash_unknown ramp_shrinks ramp_unchanged prefix_not_held ratio_not_held : Reason
  held_step_open other_range other_leg other_scope other_share prefix_in_scope : Reason
  other_move_target move_not_active no_rule name_keys range_backwards tiered scope_split : Reason
  leg_missing leg_idle range_spans range_of_other name_bucket same_place name_new_bucket : Reason
  too_many_legs nested : Reason

pub data Err : Type 0 where
  exists in_use not_found conflict refused : Err
  illegal : State → State → Reason → Err
