-- ===== src/Directory/Transition/States.antt =====
-- The states that Apply goes through.
use shunt.Base.{◌≡◌, true, false, ok, arith, ◌⊎◌, inl, inr, Result-cases, Bool-cases}
use shunt.Directory.Types.{active, ramping, Placement}
use shunt.Directory.Guards.{Transition, legal}
use shunt.Directory.Transition.{
  apply_plain, release, ramp_or_zero, settle_barrier, take_step, grow_ramp, leave_active,
}
use shunt.Directory.Transition.Steps.{
  IsStep, apply_plain-IsStep, resolve_target-SameStep, legal_step,
}

released_state :
    (p q : Placement) (t : Transition)
    → t.release ≡ true
    → apply_plain p t ≡ ok q
    → (p.state ≡ ramping) × ((q.state ≡ ramping) ⊎ (q.state ≡ active))
unfolding apply_plain release
released_state p q t r e = ground arith

taken_state : (p np : Placement) (u : Transition) → take_step p u ≡ ok np → np.state ≡ u.to
unfolding take_step leave_active
taken_state p np u e = ground (arith, Result-cases (grow_ramp (ramp_or_zero p.ramp) u))

stepped_state :
    (p q : Placement) (t : Transition)
    → t.release ≡ false
    → IsStep p t q
    → ((t.release ≡ false) × (t.hold ≡ true) × (legal p.state t.to ≡ true) × (q.state ≡ ramping))
      ⊎ ((t.release ≡ false) × (t.hold ≡ false) × (legal p.state t.to ≡ true) × (q.state ≡ t.to))
unfolding settle_barrier
stepped_state p q t f s =
    let same = resolve_target-SameStep p t s.resolved s.resolves in
    ground (
      arith,
      legal_step p t s.allowed,
      taken_state p s.taken s.resolved s.takes,
      s.settles,
      same.hold,
      same.to,
    )

-- The states of a transition that is accepted, of a placement that no move is for: a release goes from RAMPING to RAMPING or ACTIVE, a held
-- step to RAMPING, and any other step by the table to the state it names.
pub apply_plain_state :
    (p q : Placement) (t : Transition)
    → apply_plain p t ≡ ok q
    → ((t.release ≡ true) × (p.state ≡ ramping) × ((q.state ≡ ramping) ⊎ (q.state ≡ active)))
      ⊎ ((t.release ≡ false) × (t.hold ≡ true) × (legal p.state t.to ≡ true) × (q.state ≡ ramping))
      ⊎ ((t.release ≡ false) × (t.hold ≡ false) × (legal p.state t.to ≡ true) × (q.state ≡ t.to))
apply_plain_state p q t e = elim (Bool-cases t.release) [
  | inl r ↦ let (was, is) = released_state p q t r e in inl (r, was, is)
  | inr f ↦ inr (stepped_state p q t f (apply_plain-IsStep p t q f e))
]
