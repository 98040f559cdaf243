-- ===== src/Directory/Transition.antt =====
-- internal/directory/transition.go: one step of a placement's migration, for a placement that is not
-- spread over legs. `Apply` itself, which sends the rest to a move, is in Moves and Start.
pub mod Steps
pub mod Releases
pub mod States
use shunt.Directory.Guards.{
  Transition, is_active, is_ramping, is_migrating, is_cutover, carries, hold_of, refused_step,
  resolve_target, check_arguments,
}
use shunt.Base.{
  Str, lit, is_empty, str_eq, contains, Bool, false, ◌&&◌, ◌||◌, not, Option, none, some, List, [],
  ◌∷◌, ◌++◌, if◌then◌else◌, ◌==◌, length, null, is_some, any, put, remove, Result, ok, err, ◌>>=◌,
  unless,
}
use shunt.Base.Float.{pos, unit, is_zero, flt, feq}
use shunt.Directory.Types.{
  State, active, ramping, cutover, Ramp, RampHold, ramp_hash, barrier_mutations, Placement, held,
  Reason, nothing_to_release, other_barrier, target_required, target_is_primary, ramp_empty,
  hash_unknown, ramp_shrinks, ramp_unchanged, prefix_not_held, ratio_not_held, held_step_open, Err,
  illegal,
}

-- Leaving ACTIVE.
unfoldable pub leave_active : Placement → Transition → Result Reason Placement
leave_active p t =
    let np = record p {
      state = t.to;
      source = p.primary;
      primary = t.target;
      target = lit "";
      names = put p.names t.target t.name;
    } in
    if is_empty t.target || is_empty t.name
    then err target_required
    else if str_eq t.target p.primary
    then err target_is_primary
    else if is_ramping t.to
    then (if is_zero t.ratio && null t.prefixes
        then err ramp_empty
        else ok (record np {
          ramp = some (record {
            hash = ramp_hash;
            ratio = t.ratio;
            prefixes = t.prefixes;
            range = none;
            hold = none;
          });
        }))
    else ok np

-- Each new prefix once, behind the ones that are there.
unfoldable pub add_prefixes : List Str → List Str → List Str
add_prefixes have [] = have
add_prefixes have (p ∷ ps) = add_prefixes (if contains have p then have else have ++ p ∷ []) ps

abbrev pub zero_ramp : Ramp
zero_ramp = record { hash = lit ""; ratio = pos 0; prefixes = []; range = none; hold = none }

unfoldable pub ramp_or_zero : Option Ramp → Ramp
ramp_or_zero none = zero_ramp
ramp_or_zero (some r) = r

-- What completing a held step refuses: a prefix or a ratio that was not held.
unfoldable pub beyond_hold : Ramp → Ramp → Option RampHold → Option Reason
beyond_hold old r none = none
beyond_hold old r (some h) =
    if any (λ pre. not (contains old.prefixes pre) && not (contains h.prefixes pre)) r.prefixes
    then some prefix_not_held
    else if flt h.ratio r.ratio && flt old.ratio r.ratio
    then some ratio_not_held
    else none

-- The ramp of a step RAMPING → RAMPING.
unfoldable pub grow_ramp : Ramp → Transition → Result Reason Ramp
unfolding add_prefixes
grow_ramp old t =
    let r : Ramp = record {
      hash = old.hash;
      ratio = (if is_zero t.ratio then old.ratio else t.ratio);
      prefixes = add_prefixes old.prefixes t.prefixes;
      range = none;
      hold = none;
    } in
    if not (str_eq old.hash ramp_hash)
    then err hash_unknown
    else if not (is_zero t.ratio) && flt t.ratio old.ratio
    then err ramp_shrinks
    else if feq r.ratio old.ratio && length r.prefixes == length old.prefixes
    then err ramp_unchanged
    else if t.hold
    then ok r
    else unless (beyond_hold old r old.hold) (ok r)

-- p.Ramp.Hold.Ratio < 1
unfoldable pub hold_below_one : Option RampHold → Bool
hold_below_one none = false
hold_below_one (some h) = flt h.ratio (pos unit)

-- The switch of Apply: the placement after the step, before its barrier and hold.
unfoldable pub take_step : Placement → Transition → Result Reason Placement
unfolding leave_active ramp_or_zero hold_below_one hold_of
take_step p t =
    if is_active p.state
    then leave_active p t
    else if is_ramping p.state && is_ramping t.to
    then (grow_ramp (ramp_or_zero p.ramp) t >>= λ r. ok (record p { state = t.to; ramp = some r }))
    else if is_migrating t.to
    then (if held p && hold_below_one (hold_of p.ramp) && not t.hold
        then err held_step_open
        else ok (record p { state = t.to; ramp = none }))
    else if is_cutover t.to
    then ok (record p { state = t.to; cutover = t.cutover })
    else if is_cutover p.state && is_active t.to
    then ok (record p {
      state = t.to;
      names =
          (if not (str_eq p.source p.primary) && not (str_eq p.source p.cold)
            then remove p.names p.source
            else p.names);
      source = lit "";
      cutover = none;
      barrier = none;
    })
    else ok (record p { state = t.to })

-- The hold of a step: the ramp that it would put in force, or every key.
unfoldable pub hold_for : Option Ramp → RampHold
hold_for none = record { ratio = pos unit; prefixes = [] }
hold_for (some r) = record { ratio = r.ratio; prefixes = r.prefixes }

-- The ramp in force that a hold is written on: none yet, leaving ACTIVE.
unfoldable pub base_ramp : Placement → Ramp
base_ramp p =
    let fresh : Ramp = record zero_ramp { hash = ramp_hash } in
    elim p.ramp [ none ↦ fresh | some r ↦ if is_ramping p.state then r else fresh ]

-- The end of Apply: the barrier, and the step recorded as a hold where it is one.
unfoldable pub settle_barrier : Placement → Transition → Placement → Placement
unfolding hold_for base_ramp
settle_barrier p t np =
    if t.hold
    then record np {
      barrier =
          (if is_empty t.barrier
            then none
            else some (record { id = t.barrier; kind = barrier_mutations }));
      state = ramping;
      ramp = some (record (base_ramp p) { hold = some (hold_for np.ramp) });
    }
    else if t.complete || not (is_empty t.barrier)
    then record np { barrier = none }
    else np

-- A held step is undone; from ACTIVE, back to ACTIVE with the target recorded.
unfoldable pub release : Placement → Str → Result Reason Placement
unfolding carries hold_of ramp_or_zero
release p barrier =
    let r = ramp_or_zero p.ramp in
    if not (is_ramping p.state) || not (is_some (hold_of p.ramp))
    then err nothing_to_release
    else if not (is_empty barrier) && not (carries p.barrier barrier)
    then err other_barrier
    else if is_zero r.ratio && null r.prefixes
    then ok (record p {
      state = active;
      primary = p.source;
      source = lit "";
      target = p.primary;
      ramp = none;
      barrier = none;
    })
    else ok (record p { ramp = some (record r { hold = none }); barrier = none })

-- Apply from its release on, for a placement that no move is for.
unfoldable pub step_plain : Placement → Transition → Result Reason Placement
unfolding settle_barrier
step_plain p t = unless (refused_step p t) (
    resolve_target p t >>= λ t'.
    unless (check_arguments t') (take_step p t' >>= λ np. ok (settle_barrier p t' np)))

abbrev pub with_states : State → State → Result Reason Placement → Result Err Placement
with_states from to (ok p) = ok p
with_states from to (err why) = err (illegal from to why)

-- A refused release names the state it stays in.
unfoldable pub apply_plain : Placement → Transition → Result Err Placement
unfolding release step_plain
apply_plain p t =
    if t.release
    then with_states p.state p.state (release p t.barrier)
    else with_states p.state t.to (step_plain p t)
