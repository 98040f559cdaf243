-- ===== src/Migrate/Route/Handover/Completion.antt =====
-- The completion of a held step: Decide by the held placement and by the completed one.
use shunt.Base.{
  ◌≡◌, ◌⊎◌, inl, inr, sym, ap, ◌∙◌, Str, is_empty, Bool, true, false, ◌&&◌, none, some, Result, ok,
  arith,
}
use shunt.Base.Float.{is_nan, pos, unit, flt, ge_one, le_zero}
use shunt.Directory.Types.{ramping, migrating, Ramp, RampHold, Placement, held}
use shunt.Directory.Guards.{Transition, hold_of}
use shunt.Directory.Transition.{apply_plain, ramp_or_zero, grow_ramp, hold_below_one}
use shunt.Directory.Transition.Steps.{
  SameStep, resolve_target-SameStep, IsStep, apply_plain-IsStep, step_roles, free_step, Grows,
}
use shunt.Migrate.Route.{RouteError, in_range, in_ratio, in_hold}
use shunt.Migrate.Route.Growth.{grow_ramp_keeps, grow_ramp_stays}
use shunt.Migrate.Route.Handover.{write_place, IsPlaced, write_place-ramping}

-- A hold of every key: its ratio is not below 1.
every_key_held :
    (r : Ramp) (h : RampHold) (key : Str)
    → r.range ≡ none
    → r.hold ≡ some h
    → is_nan h.ratio ≡ false
    → flt h.ratio (pos unit) ≡ false
    → in_hold (some r) key ≡ ok true
unfolding in_hold in_range in_ratio is_nan flt ge_one le_zero
every_key_held r h key e f n l = ground arith

write_place-migrating :
    (p : Placement) (key c : Str)
    → p.state ≡ migrating
    → write_place p key ≡ ok (some c)
    → c ≡ p.primary
unfolding write_place
write_place-migrating p key c e h = ground arith

full_hold :
    (p : Placement) (r : Ramp) (h : RampHold)
    → p.move ≡ none
    → p.ramp ≡ some r
    → r.hold ≡ some h
    → (held p && hold_below_one (hold_of p.ramp)) ≡ false
    → flt h.ratio (pos unit) ≡ false
unfolding held hold_below_one hold_of
full_hold p r h e f g l = ground arith

-- Ending the held step of a RAMPING placement that names its clusters and has no move, by a step
-- that is neither held nor a release, at the moment that proxies route by the held placement and by
-- the one after it: a write that neither refuses goes to the same cluster by both. The ramp is of
-- every key, and no ratio is a NaN.
pub complete_keeps_place :
    (p : Placement) (t : Transition) (q : Placement) (r : Ramp) (h : RampHold) (key c d : Str)
    → IsPlaced p
    → p.state ≡ ramping
    → p.move ≡ none
    → p.ramp ≡ some r
    → r.range ≡ none
    → r.hold ≡ some h
    → is_nan r.ratio ≡ false
    → is_nan h.ratio ≡ false
    → is_nan t.ratio ≡ false
    → t.hold ≡ false
    → t.release ≡ false
    → apply_plain p t ≡ ok q
    → write_place p key ≡ ok (some c)
    → write_place q key ≡ ok (some d)
    → c ≡ d
unfolding ramp_or_zero
complete_keeps_place p t q r h key c d placed st nm er eg eh nr nh nt free rel e wp wq =
    elim (free_step p t q st free s) [
      | inl g ↦ grows g
      | inr ends ↦ elim before [
        | inl a ↦ a.1 ∙ sym roles.1 ∙ sym (write_place-migrating q key d ends.state wq)
        | inr b ↦ absurd (
            true_false (
              sym (every_key_held r h key eg eh nh (full_hold p r h nm er eh ends.every))
              ∙ sym (ap (λ x. in_hold x key) er)
              ∙ b.1))
      ]
    ]
  where
    s : IsStep p t q
    s = apply_plain-IsStep p t q rel e

    nonempty : is_empty p.source ≡ false
    nonempty = placed.source (ground (arith, st))

    roles : (q.source ≡ p.source) × (q.primary ≡ p.primary)
    roles = ground (arith, step_roles p t q s, st)

    before :
        ((in_range p.ramp key ≡ ok true) × (c ≡ p.primary))
        ⊎ ((in_range p.ramp key ≡ ok false) × (in_hold p.ramp key ≡ ok false) × (c ≡ p.source))
    before = write_place-ramping p key c st nonempty wp

    true_false : ◌≡◌ {A = Result RouteError Bool} (ok true) (ok false) → ⊥
    true_false x = cc

    same : SameStep t s.resolved
    same = resolve_target-SameStep p t s.resolved s.resolves

    grows : Grows p s.resolved q → c ≡ d
    grows g =
        let e' : grow_ramp r s.resolved ≡ ok g.ramp = rw er at g.grown in
        let keeps = grow_ramp_keeps r s.resolved g.ramp key e' eg nr (rw same.ratio nt) in
        let stays =
          grow_ramp_stays r h s.resolved g.ramp key e' eg eh (same.hold ∙ free) nr
            (rw same.ratio nt) nh in
        let after = write_place-ramping q key d g.state (rw roles.0 nonempty) wq in
        ground (arith, er, g.now, roles, before, keeps, stays, after)
