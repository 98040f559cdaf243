-- ===== src/Directory/Transition/Releases.antt =====
-- A held step that is released: Apply with Hold, then Apply with Release.
use shunt.Base.{
  ◌≡◌, ap, ◌∙◌, Str, lit, is_empty, str_eq_refl, str_eq_iff, true, false, ◌&&◌, Option, none, some,
  null, ok, arith, if◌then◌else◌, ◌⊎◌, Result-cases, Map, put,
}
use shunt.Base.Float.{is_zero}
use shunt.Directory.Types.{
  active, ramping, migrating, Ramp, RampHold, Barrier, barrier_mutations, Placement, ramp_hash,
  name_of,
}
use shunt.Directory.Guards.{Transition, carries, hold_of, refused_step, resolve_target}
use shunt.Directory.Transition.{
  apply_plain, release, base_ramp, ramp_or_zero, zero_ramp, settle_barrier, take_step, grow_ramp,
  hold_for, leave_active,
}
use shunt.Directory.Transition.Steps.{IsStep, apply_plain-IsStep, resolve_target-SameStep}

-- The barrier that a held step writes.
abbrev pub barrier_of : Transition → Option Barrier
barrier_of t =
    if is_empty t.barrier then none else some (record { id = t.barrier; kind = barrier_mutations })

ramping_form :
    (p np : Placement) (u : Transition)
    → p.state ≡ ramping
    → (u.to ≡ ramping) ⊎ (u.to ≡ migrating)
    → take_step p u ≡ ok np
    → np ≡ record p { state = np.state; ramp = np.ramp }
unfolding take_step
ramping_form p np u e f h = ground (arith, Result-cases (grow_ramp (ramp_or_zero p.ramp) u))

hold_target :
    (p : Placement) (t : Transition)
    → refused_step p t ≡ none
    → t.hold ≡ true
    → (t.to ≡ ramping) ⊎ (t.to ≡ migrating)
unfolding refused_step
hold_target p t r h = ground arith

-- A placement with a hold on its ramp.
abbrev with_hold : Placement → Ramp → RampHold → Option Barrier → Placement
with_hold p r h b = record p { ramp = some (record r { hold = some h }); barrier = b }

held_form :
    (p q : Placement) (t : Transition) (r : Ramp)
    → p.state ≡ ramping
    → p.ramp ≡ some r
    → t.hold ≡ true
    → IsStep p t q
    → (h : RampHold) × (q ≡ with_hold p r h (barrier_of t))
unfolding settle_barrier base_ramp
held_form p q t r e f held_ s =
    let same = resolve_target-SameStep p t s.resolved s.resolves in
    let to = hold_target p t s.allowed held_ in
    let form = ramping_form p s.taken s.resolved e (ground (arith, same.to)) s.takes in
    (hold_for s.taken.ramp, ground (arith, s.settles, form, same.hold, same.barrier))

release_hold :
    (p : Placement) (r : Ramp) (h : RampHold) (b : Option Barrier) (u : Transition)
    → p.state ≡ ramping
    → (is_zero r.ratio && null r.prefixes) ≡ false
    → (is_empty u.barrier ≡ true) ⊎ (carries b u.barrier ≡ true)
    → u.release ≡ true
    → apply_plain (with_hold p r h b) u
      ≡ ok (record p { ramp = some (record r { hold = none }); barrier = none })
unfolding apply_plain release hold_of ramp_or_zero
release_hold p r h b u e k c f = ground arith

named :
    (t u : Transition)
    → (u.barrier ≡ lit "") ⊎ (u.barrier ≡ t.barrier)
    → (is_empty u.barrier ≡ true) ⊎ (carries (barrier_of t) u.barrier ≡ true)
unfolding carries
named t u same = ground (arith, str_eq_refl t.barrier)

-- A held step of a RAMPING placement with no barrier, whose ramp has no hold and has a ratio other
-- than 0 or a prefix, is undone by a release that names the step's barrier or none: the placement
-- is exactly what it was.
pub release_undoes_growth :
    (p q : Placement) (t u : Transition) (r : Ramp)
    → p.state ≡ ramping
    → p.barrier ≡ none
    → p.ramp ≡ some r
    → r.hold ≡ none
    → (is_zero r.ratio && null r.prefixes) ≡ false
    → t.hold ≡ true
    → t.release ≡ false
    → apply_plain p t ≡ ok q
    → u.release ≡ true
    → (u.barrier ≡ lit "") ⊎ (u.barrier ≡ t.barrier)
    → apply_plain q u ≡ ok p
release_undoes_growth p q t u r st nb er nh some_keys held_ free e rel same =
    let (h, form) = held_form p q t r st er held_ (apply_plain-IsStep p t q free e) in
    let back = release_hold p r h (barrier_of t) u st some_keys (named t u same) rel in
    rw form (back ∙ ap ok (ground arith))

-- A placement at rest, held on its way to a new target: nothing moves yet.
abbrev held_start : Placement → Str → Map Str → RampHold → Option Barrier → Placement
held_start p target names h b = record p {
  state = ramping;
  source = p.primary;
  primary = target;
  target = lit "";
  names = names;
  ramp = some (record zero_ramp { hash = ramp_hash; hold = some h });
  barrier = b;
}

active_form :
    (p np : Placement) (u : Transition)
    → p.state ≡ active
    → take_step p u ≡ ok np
    → (np ≡ record p {
      state = np.state;
      ramp = np.ramp;
      source = p.primary;
      primary = u.target;
      target = lit "";
      names = put p.names u.target u.name;
    })
unfolding take_step leave_active
active_form p np u e h = ground arith

-- The target and the bucket's name that a step out of ACTIVE takes: those recorded on the placement,
-- where it has a target, and otherwise the step's own.
abbrev pub target_of : Placement → Transition → Str
target_of p t = if is_empty p.target then t.target else p.target

abbrev pub name_for : Placement → Transition → Str
name_for p t = if is_empty p.target then t.name else name_of p.names p.target

resolved_names :
    (p : Placement) (t u : Transition)
    → p.state ≡ active
    → resolve_target p t ≡ ok u
    → (u.target ≡ target_of p t) × (u.name ≡ name_for p t)
unfolding resolve_target
resolved_names p t u e h = ground (arith, e, h, str_eq_iff t.name (name_of p.names p.target))

held_from_active :
    (p q : Placement) (t : Transition)
    → p.state ≡ active
    → t.hold ≡ true
    → IsStep p t q
    → (h : RampHold) × (q
        ≡ held_start p
            (target_of p t)
            (put p.names (target_of p t) (name_for p t))
            h
            (barrier_of t))
unfolding settle_barrier base_ramp
held_from_active p q t e held_ s =
    let same = resolve_target-SameStep p t s.resolved s.resolves in
    let form = active_form p s.taken s.resolved e s.takes in
    let (target, name) = resolved_names p t s.resolved e s.resolves in
    let made : q
        ≡ held_start p s.resolved.target (put p.names s.resolved.target s.resolved.name)
            (hold_for s.taken.ramp) (barrier_of t) =
      ground (arith, s.settles, form, same.hold, same.barrier) in
    (
      hold_for s.taken.ramp,
      made
          ∙ ap
              (λ x.
                held_start p x (put p.names x s.resolved.name) (hold_for s.taken.ramp)
                  (barrier_of t))
              target
          ∙ ap
              (λ x.
                held_start p (target_of p t) (put p.names (target_of p t) x) (hold_for s.taken.ramp)
                  (barrier_of t))
              name,
    )

release_start :
    (p : Placement) (target : Str) (names : Map Str) (h : RampHold) (b : Option Barrier)
    (u : Transition)
    → (is_empty u.barrier ≡ true) ⊎ (carries b u.barrier ≡ true)
    → u.release ≡ true
    → apply_plain (held_start p target names h b) u
      ≡ ok (record p {
        state = active;
        source = lit "";
        target = target;
        names = names;
        ramp = none;
        barrier = none;
      })
unfolding apply_plain release hold_of ramp_or_zero is_zero
release_start p target names h b u c f = ground arith

-- A held step out of ACTIVE, of a placement with no source, ramp or barrier, is undone by a release
-- that names the step's barrier or none: the placement is ACTIVE on its own cluster again, as it
-- was but for the target and its bucket's name, which stay recorded: those that it had recorded,
-- where it had a target, and otherwise the step's.
pub release_undoes_start :
    (p q : Placement) (t u : Transition)
    → p.state ≡ active
    → p.source ≡ lit ""
    → p.ramp ≡ none
    → p.barrier ≡ none
    → t.hold ≡ true
    → t.release ≡ false
    → apply_plain p t ≡ ok q
    → u.release ≡ true
    → (u.barrier ≡ lit "") ⊎ (u.barrier ≡ t.barrier)
    → apply_plain q u
      ≡ ok (record p { target = target_of p t; names = put p.names (target_of p t) (name_for p t) })
release_undoes_start p q t u st ns nr nb held_ free e rel same =
    let (h, form) = held_from_active p q t st held_ (apply_plain-IsStep p t q free e) in
    rw form (release_start p _ _ h (barrier_of t) u (named t u same) rel ∙ ap ok (ground arith))
