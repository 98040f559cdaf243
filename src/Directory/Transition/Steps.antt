-- ===== src/Directory/Transition/Steps.antt =====
-- What a step that Apply accepts does to the state, the roles and the ramp of a plain placement.
use shunt.Base.{
  ◌≡◌, ◌≢◌, ◌⊎◌, inl, inr, refl, sym, ◌∙◌, true, false, ◌&&◌, none, some, ok, ◌>>=◌, >>=-ok,
  unless-ok, arith,
}
use shunt.Directory.Types.{
  State, active, ramping, migrating, cutover, other, Ramp, RampHold, Placement, held,
}
use shunt.Directory.Guards.{
  Transition, legal, refused_step, resolve_target, check_arguments, hold_of,
}
use shunt.Directory.Transition.{
  take_step, settle_barrier, step_plain, apply_plain, grow_ramp, ramp_or_zero, hold_for, base_ramp,
  hold_below_one,
}

-- The stages of an accepted step: the transition with its target resolved, and the placement before
-- the barrier and hold are written.
pub record IsStep (p : Placement) (t : Transition) (q : Placement) : Type 0 where
  pub resolved : Transition
  pub taken : Placement
  pub allowed : refused_step p t ≡ none
  pub resolves : resolve_target p t ≡ ok resolved
  pub fits : check_arguments resolved ≡ none
  pub takes : take_step p resolved ≡ ok taken
  pub settles : q ≡ settle_barrier p resolved taken

-- Resolving the target changes the target and the bucket's name alone.
pub record SameStep (t u : Transition) : Type 0 where
  pub to : u.to ≡ t.to
  pub ratio : u.ratio ≡ t.ratio
  pub prefixes : u.prefixes ≡ t.prefixes
  pub cutover : u.cutover ≡ t.cutover
  pub hold : u.hold ≡ t.hold
  pub complete : u.complete ≡ t.complete
  pub barrier : u.barrier ≡ t.barrier

pub resolve_target-SameStep :
    (p : Placement) (t u : Transition) → resolve_target p t ≡ ok u → SameStep t u
unfolding resolve_target
resolve_target-SameStep p t u h = ground arith

step_plain-IsStep :
    (p : Placement) (t : Transition) (q : Placement) → step_plain p t ≡ ok q → IsStep p t q
unfolding step_plain
step_plain-IsStep p t q h =
    let (a, h1) = unless-ok (refused_step p t) _ h in
    let (u, r, h2) = >>=-ok (resolve_target p t) _ h1 in
    let (c, h3) = unless-ok (check_arguments u) _ h2 in
    let (np, k, h4) = >>=-ok (take_step p u) _ h3 in
    record {
      resolved = u;
      taken = np;
      allowed = a;
      resolves = r;
      fits = c;
      takes = k;
      settles = cc;
    }

pub apply_plain-IsStep :
    (p : Placement) (t : Transition) (q : Placement)
    → t.release ≡ false
    → apply_plain p t ≡ ok q
    → IsStep p t q
unfolding apply_plain
apply_plain-IsStep p t q r h = step_plain-IsStep p t q (ground arith)

-- An accepted step is one of the table's.
pub legal_step :
    (p : Placement) (t : Transition) → refused_step p t ≡ none → legal p.state t.to ≡ true
unfolding refused_step
legal_step p t h = ground arith

-- A step that is held: the placement is RAMPING, its ramp is the one in force with the hold on it,
-- and its roles are those of the step that is held.
pub held_step :
    (p : Placement) (t : Transition) (q : Placement)
    → t.hold ≡ true
    → IsStep p t q
    → (h : RampHold) × (q.state ≡ ramping)
      × (q.ramp ≡ some (record (base_ramp p) { hold = some h }))
unfolding settle_barrier
held_step p t q e s =
    let same = resolve_target-SameStep p t s.resolved s.resolves in
    (
      hold_for s.taken.ramp,
      ground (arith, same.hold, s.settles),
      ground (arith, same.hold, s.settles),
    )

-- The roles after a step: from ACTIVE the old primary is the source; from RAMPING both stay.
pub step_roles :
    (p : Placement) (t : Transition) (q : Placement)
    → IsStep p t q
    → ((p.state ≡ active) × (q.source ≡ p.primary))
      ⊎ ((p.state ≢ active) × (q.primary ≡ p.primary) × ((p.state ≢ cutover) → q.source ≡ p.source))
unfolding take_step settle_barrier
step_roles p t q s = ground (arith, s.takes, s.settles)

-- A step from RAMPING that is not held grows the ramp, or ends it.
pub record Grows (p : Placement) (t : Transition) (q : Placement) : Type 0 where
  pub ramp : Ramp
  pub state : q.state ≡ ramping
  pub grown : grow_ramp (ramp_or_zero p.ramp) t ≡ ok ramp
  pub now : q.ramp ≡ some ramp

pub record Ends (p : Placement) (q : Placement) : Type 0 where
  pub state : q.state ≡ migrating
  pub every : (held p && hold_below_one (hold_of p.ramp)) ≡ false

take_step-grow :
    (p : Placement) (u : Transition)
    → p.state ≡ ramping
    → u.to ≡ ramping
    → take_step p u
      ≡ (grow_ramp (ramp_or_zero p.ramp) u >>= λ r. ok (record p { state = u.to; ramp = some r }))
unfolding take_step
take_step-grow p u e f = ground arith

take_step-end :
    (p : Placement) (u : Transition) (np : Placement)
    → p.state ≡ ramping
    → u.to ≡ migrating
    → u.hold ≡ false
    → take_step p u ≡ ok np
    → (np ≡ record p { state = migrating; ramp = none })
      × ((held p && hold_below_one (hold_of p.ramp)) ≡ false)
unfolding take_step
take_step-end p u np e f g h = ground arith

pub free_step :
    (p : Placement) (t : Transition) (q : Placement)
    → p.state ≡ ramping
    → t.hold ≡ false
    → (s : IsStep p t q) → Grows p s.resolved q ⊎ Ends p q
unfolding settle_barrier legal
free_step p t q e f s = by_state t.to refl
  where
    same : SameStep t s.resolved
    same = resolve_target-SameStep p t s.resolved s.resolves

    legal_ : legal ramping t.to ≡ true
    legal_ = rw e at (legal_step p t s.allowed)

    by_state : (to : State) → to ≡ t.to → Grows p s.resolved q ⊎ Ends p q
    by_state active i = absurd (cc (legal_, i))
    by_state ramping i =
        let (r, g, k) =
          >>=-ok (grow_ramp (ramp_or_zero p.ramp) s.resolved) _
            (sym (take_step-grow p s.resolved e (same.to ∙ sym i)) ∙ s.takes) in
        inl (record {
          ramp = r;
          state = ground (arith, s.settles, same.hold, same.to);
          grown = g;
          now = ground (arith, s.settles, same.hold);
        })
    by_state migrating i =
        let (np, every) =
          take_step-end p s.resolved s.taken e (same.to ∙ sym i) (same.hold ∙ f) s.takes in
        inr (record { state = ground (arith, s.settles, same.hold); every = every })
    by_state cutover i = absurd (cc (legal_, i))
    by_state (other x) i = absurd (cc (legal_, i))
