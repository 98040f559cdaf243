-- ===== src/Migrate/Route/Handover.antt =====
-- A ramp step by way of a hold (Apply of internal/directory/transition.go, Decide of
-- internal/migrate/route.go): where proxies that route by the placements before and after it write.
pub mod Completion
use shunt.Base.{
  ◌≡◌, ◌≢◌, ◌⊎◌, inl, inr, refl, sym, ap, ◌∙◌, Str, is_empty, true, false, Option, none, some,
  if◌then◌else◌, Result, ok, ◌>>=◌, arith, Option-cases, any,
}
use shunt.Base.Float.{le_zero}
use shunt.Directory.Types.{active, ramping, cutover, Ramp, RampHold, ramp_hash, Placement}
use shunt.Directory.Guards.{Transition, refused_step}
use shunt.Directory.Transition.{apply_plain, zero_ramp, base_ramp}
use shunt.Directory.Transition.Steps.{apply_plain-IsStep, held_step, step_roles}
use shunt.Migrate.Class.{OpClass}
use shunt.Migrate.Route.{Side, Route, RouteError, in_range, in_ratio, in_hold, decide, has_one_of}

-- The cluster that a route's first attempt goes to.
abbrev pub place : Placement → Route → Str
place p r = elim r.cluster [ Side.primary ↦ p.primary | Side.source ↦ p.source ]

-- Where a write of a key goes; `none` is a write that is held, and refused.
unfoldable pub write_place : Placement → Str → Result RouteError (Option Str)
unfolding decide
write_place p key =
    decide p OpClass.write key >>= λ r. ok (if r.held then none else some (place p r))

-- The ramp of a placement with no ramp or with a hold written on it moves the same keys.
in_range-hold :
    (r : Ramp) (h : Option RampHold) (key : Str)
    → in_range (some (record r { hold = h })) key ≡ in_range (some r) key
unfolding in_range
in_range-hold r h key = refl

in_range-zero :
    (hash : Str) (h : Option RampHold) (key : Str)
    → in_range (some (record zero_ramp { hash = hash; hold = h })) key ≡ ok false
unfolding in_range in_ratio has_one_of le_zero any
in_range-zero hash h key = refl

-- A write of a RAMPING placement, by what its ramp says of the key.
pub write_place-ramping :
    (p : Placement) (key : Str) (c : Str)
    → p.state ≡ ramping
    → is_empty p.source ≡ false
    → write_place p key ≡ ok (some c)
    → ((in_range p.ramp key ≡ ok true) × (c ≡ p.primary))
      ⊎ ((in_range p.ramp key ≡ ok false) × (in_hold p.ramp key ≡ ok false) × (c ≡ p.source))
unfolding write_place
write_place-ramping p key c e n h = ground arith

write_place-active :
    (p : Placement) (key : Str) (c : Str)
    → p.state ≡ active
    → write_place p key ≡ ok (some c)
    → c ≡ p.primary
unfolding write_place
write_place-active p key c e h = ground arith

-- A placement names the clusters that its state needs.
pub record IsPlaced (p : Placement) : Type 0 where
  pub primary : is_empty p.primary ≡ false
  pub source : p.state ≢ active → is_empty p.source ≡ false

hold_from :
    (p : Placement) (t : Transition)
    → refused_step p t ≡ none
    → t.hold ≡ true
    → (p.state ≡ active) ⊎ (p.state ≡ ramping)
unfolding refused_step
hold_from p t r h = ground arith

base_ramp-fresh :
    (p : Placement)
    → (p.state ≡ active) ⊎ (p.ramp ≡ none)
    → base_ramp p ≡ record zero_ramp { hash = ramp_hash }
unfolding base_ramp
base_ramp-fresh p h = ground arith

base_ramp-old : (p : Placement) (r : Ramp) → p.state ≡ ramping → p.ramp ≡ some r → base_ramp p ≡ r
unfolding base_ramp
base_ramp-old p r e f = ground arith

-- A hold written on a fresh ramp leaves every write that is not held at the source.
fresh_place :
    (q : Placement) (h : RampHold) (key d : Str)
    → q.state ≡ ramping
    → is_empty q.source ≡ false
    → q.ramp ≡ some (record zero_ramp { hash = ramp_hash; hold = some h })
    → write_place q key ≡ ok (some d)
    → d ≡ q.source
fresh_place q h key d e n f w = elim (write_place-ramping q key d e n w) [
  | inl a ↦ absurd (cc (sym (rw f at a.0) ∙ in_range-zero ramp_hash (some h) key))
  | inr b ↦ b.2
]

no_ramp : (key : Str) → in_range none key ≡ ok true → ⊥
unfolding in_range
no_ramp key h = cc

abbrev on_base : RampHold → Ramp → Option Ramp
on_base h b = some (record b { hold = some h })

-- A placement p, and q with the hold h written on p's ramp: a write that neither refuses.
module _ (p q : Placement) (h : RampHold) (key c d : Str) (state_q : q.state ≡ ramping)
    (ramp_q : q.ramp ≡ on_base h (base_ramp p)) (wp : write_place p key ≡ ok (some c))
    (wq : write_place q key ≡ ok (some d)) where
  fresh_q :
      (p.state ≡ active) ⊎ (p.ramp ≡ none)
      → q.ramp ≡ some (record zero_ramp { hash = ramp_hash; hold = some h })
  fresh_q f = ramp_q ∙ ap (on_base h) (base_ramp-fresh p f)

  held_from_active : p.state ≡ active → q.source ≡ p.primary → is_empty p.primary ≡ false → c ≡ d
  held_from_active a src nonempty =
      write_place-active p key c a wp
      ∙ sym src
      ∙ sym (fresh_place q h key d state_q (rw src nonempty) (fresh_q (inl a)) wq)

  held_with_no_ramp :
      p.state ≡ ramping → p.ramp ≡ none → q.source ≡ p.source → is_empty p.source ≡ false → c ≡ d
  held_with_no_ramp r n src nonempty =
      let was : c ≡ p.source = elim (write_place-ramping p key c r nonempty wp) [
        | inl a ↦ absurd (no_ramp key (rw n at a.0))
        | inr b ↦ b.2
      ] in
      was ∙ sym src ∙ sym (fresh_place q h key d state_q (rw src nonempty) (fresh_q (inr n)) wq)

  held_from_ramp :
      (old : Ramp)
      → p.state ≡ ramping
      → p.ramp ≡ some old
      → q.source ≡ p.source
      → q.primary ≡ p.primary
      → is_empty p.source ≡ false
      → c ≡ d
  held_from_ramp old r m src prim nonempty =
      let now : q.ramp ≡ on_base h old = ramp_q ∙ ap (on_base h) (base_ramp-old p old r m) in
      let same : in_range q.ramp key ≡ in_range p.ramp key =
        ap (λ x. in_range x key) now
        ∙ in_range-hold old (some h) key
        ∙ ap (λ x. in_range x key) (sym m) in
      ground (
        arith,
        same,
        src,
        prim,
        write_place-ramping p key c r nonempty wp,
        write_place-ramping q key d state_q (rw src nonempty) wq,
      )

ramping_roles :
    (p q : Placement)
    → p.state ≡ ramping
    → ((p.state ≡ active) × (q.source ≡ p.primary))
      ⊎ ((p.state ≢ active) × (q.primary ≡ p.primary) × ((p.state ≢ cutover) → q.source ≡ p.source))
    → IsPlaced p
    → (q.source ≡ p.source) × (q.primary ≡ p.primary) × (is_empty p.source ≡ false)
ramping_roles p q r roles placed = ground (arith, roles, placed.source)

-- Writing a held step on a placement that names its clusters, at the moment that proxies route by
-- the placement before it and after it: a write that neither refuses goes to the same cluster by
-- both.
pub hold_keeps_place :
    (p : Placement) (t : Transition) (q : Placement) (key c d : Str)
    → IsPlaced p
    → t.hold ≡ true
    → t.release ≡ false
    → apply_plain p t ≡ ok q
    → write_place p key ≡ ok (some c)
    → write_place q key ≡ ok (some d)
    → c ≡ d
hold_keeps_place p t q key c d placed held_ free e wp wq =
    let s = apply_plain-IsStep p t q free e in
    let (h, state_q, ramp_q) = held_step p t q held_ s in
    let roles = step_roles p t q s in
    elim (hold_from p t s.allowed held_) [
      | inl a ↦
          held_from_active p q h key c d state_q ramp_q wp wq a (ground (arith, roles, a))
            placed.primary
      | inr r ↦
          let (src, prim, nonempty) = ramping_roles p q r roles placed in
          elim (Option-cases p.ramp) [
            | inl n ↦ held_with_no_ramp p q h key c d state_q ramp_q wp wq r n src nonempty
            | inr (old, m) ↦
                held_from_ramp p q h key c d state_q ramp_q wp wq old r m src prim nonempty
          ]
    ]
