-- ===== src/Control/Drain.antt =====
-- internal/control/barrier.go: what stands in the way of a drain barrier (drainBlockers,
-- memberBlockers, blockUntil's rounds), over the members of the fleet (Member and Incarnation of
-- fleet.go).
pub mod Drained
use shunt.Base.{
  ℕ, Str, str_eq, Bool, true, false, ◌||◌, not, Option, none, some, List, [], ◌∷◌, ◌++◌,
  if◌then◌else◌, ltb, find, Result, ok,
}
use shunt.Base.Int.{ℤ, pos, positive}
use shunt.Directory.File.{Identity}
use shunt.Admission.Acks.{Ack}
use shunt.Control.{BlockerCode, Blocker, BarrierState, Fail}
use shunt.Control.Store.{identity_eq}

pub data IncarnationState : Type 0 where
  active retired unclean resolved : IncarnationState

pub record Incarnation : Type 0 where
  pub id : Str
  pub started : ℕ
  pub ended : ℕ
  pub state : IncarnationState
  pub uncertain : ℤ
  pub attestation : Str
  pub resolved_by : Str
  pub resolved_at : ℕ

-- What the barriers read of a member. Its host, build, secrets and telemetry are left out.
pub record Member : Type 0 where
  pub id : Str
  pub live : Bool
  pub incarnation : Option Incarnation
  pub unresolved : List Incarnation
  pub retire_requested : Bool
  pub uncertain : ℤ
  pub barriers : List Ack
  pub identity : Identity
  pub applied : ℕ
  pub durable : ℕ
  pub installed : ℕ

retired_state : IncarnationState → Bool
retired_state IncarnationState.retired = true
retired_state _ = false

-- Member.Retired
unfoldable pub is_retired : Member → Bool
unfolding retired_state
is_retired m = elim m.incarnation [ none ↦ false | some inc ↦ retired_state inc.state ]

abbrev pub blocker : BlockerCode → Str → ℤ → Blocker
blocker code id count = record { code = code; proxy_id = id; incarnation = []; count = count }

when : Bool → Blocker → List Blocker
when true b = b ∷ []
when false b = []

-- memberBlockers once the acknowledgement is found.
ack_blockers : Str → Ack → ℕ → BarrierState → List Blocker
unfolding when
ack_blockers id ack durable st =
    if ltb ack.generation st.generation || not ack.closed
    then blocker BlockerCode.install_pending id (pos 0) ∷ []
    else when (ltb durable st.hold_version) (blocker BlockerCode.cache_not_durable id (pos 0))
      ++ when (positive ack.uncertain)
          (blocker BlockerCode.backend_outcome_unknown id ack.uncertain)
      ++ when (positive ack.inflight) (blocker BlockerCode.old_requests id ack.inflight)

unfoldable pub member_blockers : Str → List Ack → ℕ → BarrierState → List Blocker
unfolding ack_blockers
member_blockers id acks durable st = elim (find (λ a. str_eq a.id st.id) acks) [
  | none ↦ blocker BlockerCode.install_pending id (pos 0) ∷ []
  | some ack ↦ ack_blockers id ack durable st
]

unfoldable pub unresolved_blockers : Str → List Incarnation → List Blocker
unresolved_blockers id [] = []
unresolved_blockers id (inc ∷ incs) =
    record {
      code = BlockerCode.incarnation_unresolved;
      proxy_id = id;
      incarnation = inc.id;
      count = inc.uncertain;
    }
    ∷ unresolved_blockers id incs

-- One round of drainBlockers' loop over the members.
blockers_of : Identity → BarrierState → Member → List Blocker
unfolding unresolved_blockers is_retired member_blockers
blockers_of cur st m =
    unresolved_blockers m.id m.unresolved
    ++ (if is_retired m
        then []
        else if not m.live
        then blocker BlockerCode.proxy_missing m.id (pos 0) ∷ []
        else if not (identity_eq m.identity cur)
        then blocker BlockerCode.proxy_missing m.id (pos 0) ∷ []
        else member_blockers m.id m.barriers m.durable st)

fleet_blockers : Identity → BarrierState → List Member → List Blocker
unfolding blockers_of
fleet_blockers cur st [] = []
fleet_blockers cur st (m ∷ ms) = blockers_of cur st m ++ fleet_blockers cur st ms

-- A lab's own proxy: its node, its acknowledgements and its directory's version.
pub record LocalGates : Type 0 where
  pub node : Str
  pub acks : List Ack
  pub version : ℕ

local_blockers : Option LocalGates → BarrierState → List Blocker
unfolding member_blockers
local_blockers none st = []
local_blockers (some l) st = member_blockers l.node l.acks l.version st

-- The barrier's own checks, asked only when nothing else stands in the way.
with_extra : List Blocker → Option (Result Fail (List Blocker)) → Result Fail (List Blocker)
with_extra out none = ok out
with_extra [] (some more) = more
with_extra (b ∷ out) (some more) = ok (b ∷ out)

unfoldable pub drain_blockers :
    Identity
    → BarrierState
    → List Member
    → Option LocalGates
    → Option (Result Fail (List Blocker))
    → Result Fail (List Blocker)
unfolding fleet_blockers local_blockers with_extra
drain_blockers cur st ms local extra =
    with_extra (fleet_blockers cur st ms ++ local_blockers local st) extra
