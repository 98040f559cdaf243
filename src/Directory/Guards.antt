-- ===== src/Directory/Guards.antt =====
-- internal/directory/transition.go: a transition, the table of the states, and what Apply checks before
-- it takes the step of a placement that no move is for.
use shunt.Base.{
  Str, is_empty, str_eq, Bool, true, false, ◌&&◌, ◌||◌, not, Option, none, some, List,
  if◌then◌else◌, null, is_some, Result, ok, err,
}
use shunt.Base.Float.{Float64, is_zero}
use shunt.Directory.Types.{
  State, active, ramping, migrating, cutover, other, HashRange, Ramp, RampHold, CutoverEvidence,
  Barrier, Placement, held, name_of, Reason, other_barrier, unknown_state, hold_not_a_step,
  hold_in_progress, nothing_held, not_allowed, target_late, other_target, other_name, evidence_late,
  ratio_late,
}

pub record Transition : Type 0 where
  pub to : State
  pub target : Str
  pub name : Str
  pub ratio : Float64
  pub prefixes : List Str
  pub cutover : Option CutoverEvidence
  pub hold : Bool
  pub release : Bool
  pub complete : Bool
  pub barrier : Str
  pub range : Option HashRange
  pub leg : Str
  pub scope : Str
  pub share : Float64

-- The table `legal`.
unfoldable pub legal : State → State → Bool
legal active ramping = true
legal active migrating = true
legal ramping ramping = true
legal ramping migrating = true
legal migrating cutover = true
legal cutover active = true
legal _ _ = false

abbrev pub is_active : State → Bool
is_active active = true
is_active _ = false

abbrev pub is_ramping : State → Bool
is_ramping ramping = true
is_ramping _ = false

abbrev pub is_migrating : State → Bool
is_migrating migrating = true
is_migrating _ = false

abbrev pub is_cutover : State → Bool
is_cutover cutover = true
is_cutover _ = false

abbrev pub is_other : State → Bool
is_other (other s) = true
is_other _ = false

-- p.Barrier != nil && p.Barrier.ID == id
unfoldable pub carries : Option Barrier → Str → Bool
carries none id = false
carries (some b) id = str_eq b.id id

-- p.Ramp != nil && p.Ramp.Hold != nil
unfoldable pub hold_of : Option Ramp → Option RampHold
hold_of none = none
hold_of (some r) = r.hold

-- The guards of Apply up to the transition table; `none` lets the step through.
unfoldable pub refused_step : Placement → Transition → Option Reason
unfolding carries hold_of legal
refused_step p t =
    if not (is_empty t.barrier) && not t.hold && not (carries p.barrier t.barrier)
    then some other_barrier
    else if is_other t.to
    then some unknown_state
    else if t.hold && not (is_ramping t.to) && not (is_migrating t.to)
    then some hold_not_a_step
    else if is_some (hold_of p.ramp) && t.hold
    then some hold_in_progress
    else if t.complete && not (held p)
    then some nothing_held
    else if not (legal p.state t.to)
    then some not_allowed
    else none

-- The target and bucket that the step names, or that expand recorded.
unfoldable pub resolve_target : Placement → Transition → Result Reason Transition
resolve_target p t =
    if not (is_active p.state) && (not (is_empty t.target) || not (is_empty t.name))
    then err target_late
    else if is_active p.state && not (is_empty p.target)
    then (if not (is_empty t.target) && not (str_eq t.target p.target)
        then err other_target
        else if is_empty t.name
        then ok (record t { target = p.target; name = name_of p.names p.target })
        else if not (str_eq t.name (name_of p.names p.target))
        then err other_name
        else ok (record t { target = p.target }))
    else ok t

unfoldable pub check_arguments : Transition → Option Reason
check_arguments t =
    if is_some t.cutover && not (is_cutover t.to)
    then some evidence_late
    else if not (is_ramping t.to) && (not (is_zero t.ratio) || not (null t.prefixes))
    then some ratio_late
    else none
