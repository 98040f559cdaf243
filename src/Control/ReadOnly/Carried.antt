-- ===== src/Control/ReadOnly/Carried.antt =====
-- internal/control/readonly.go: that a placement carries the barrier of a read-only change once its hold is
-- written, and how a run that finds it without the barrier began.
use shunt.Base.{
  ℕ, ◌≡◌, ◌⊎◌, inl, inr, sym, ap, ◌∙◌, subst, Str, is_empty, str_eq_refl, Bool, true, false, ◌&&◌,
  not, some, [], ◌∷◌, Result, ok, ◌==◌, arith, Bool-cases, Result-cases, Option-cases,
}
use shunt.Directory.Types.{Err}
use shunt.Directory.File.{File, lacks, placement_key, placement_at, set_placement}
use shunt.Directory.File.Switches.{set_placement_read_only, switch_barrier}
use shunt.Control.{BarrierState}
use shunt.Control.Store.{Setup}
use shunt.Control.Tracker.{check, barrier_edit}
use shunt.Control.Holds.{read_only_switch, read_only_hold}
use shunt.Control.Holds.Race.{scope_of, switch_at, switch-set_placement}
use shunt.Control.Runs.{fresh, intent, hold_step}
use shunt.Control.Node.{Node, Around, directory, phase, saved}
use shunt.Control.Node.Later.{saved-Kept}
use shunt.Control.ReadOnly.{hold_switch, calls}

-- The run goes on an earlier attempt's, whose record has the hold, and begins with the barrier off the
-- placement.
pub record Earlier (scope id : Str) (start : Node) : Type 0 where
  pub barrier : BarrierState
  pub stored : start.tracker.op.barrier ≡ some barrier
  pub held : (barrier.hold_version == 0) ≡ false
  pub off : lacks (read_only_switch start.file scope).barrier id ≡ true

module _ (tenant bucket id : Str) (named : is_empty id ≡ false) (reject : Bool) where
  abbrev pub switching : File → Result Err File
  switching f = set_placement_read_only f tenant bucket true reject id

  abbrev scope : Str
  scope = scope_of tenant bucket

  abbrev Carries : File → Type 0
  Carries f = lacks (read_only_switch f scope).barrier id ≡ false

  switching-Carries : (f g : File) → switching f ≡ ok g → Carries g
  unfolding set_placement_read_only switch_barrier switch_at lacks
  switching-Carries f g e = elim (Result-cases (placement_at f (placement_key tenant bucket))) [
    | inr (x, a) ↦ absurd (ground (arith, e, a))
    | inl (p, a) ↦
        let made : g
            ≡ set_placement f (placement_key tenant bucket) (record p {
              read_only = true;
              reject_writes = true && reject;
              barrier = switch_barrier true id;
            }) =
          ground (arith, e, a) in
        ap (λ x. lacks (read_only_switch x scope).barrier id) made
        ∙ ap (λ s. lacks s.barrier id)
            (switch-set_placement tenant bucket f (record p {
              read_only = true;
              reject_writes = true && reject;
              barrier = switch_barrier true id;
            }))
        ∙ ground (arith, named, str_eq_refl id)
  ]

  hold-Carries : (f g : File) → read_only_hold switching f scope id ≡ ok g → Carries g
  unfolding read_only_hold
  hold-Carries f g e =
      let s = read_only_switch f scope in
      elim (Bool-cases (s.read_only && not (lacks s.barrier id))) [
        | inl there ↦
            let same : f ≡ g = ground (arith, e, there) in
            subst Carries same (ground (arith, there))
        | inr free ↦ switching-Carries f g (ground (arith, e, free))
      ]

  module _ (sha256_hex : Str → Str) (setup : Setup) (around : Around)
      (landed : (i : ℕ) (f g : File)
        → read_only_switch (around.lands i f g) scope ≡ read_only_switch g scope) where
    hold_switch-Carries :
        (v : ℕ) (w w' : Node)
        → hold_switch around switching scope id w ≡ (ok v, w')
        → Carries w'.file
    unfolding hold_switch
    hold_switch-Carries v w w' e = elim (Bool-cases (around.sync w.at)) [
      | inr y ↦ absurd (ground (arith, e, y))
      | inl y ↦ elim (Result-cases (read_only_hold switching (directory around w) scope id)) [
        | inr (x, h) ↦ absurd (ground (arith, e, y, h))
        | inl (g, h) ↦
            let at : around.lands w.at (directory around w) g ≡ w'.file = ground (arith, e, y, h) in
            subst Carries at (
              ap (λ s. lacks s.barrier id) (landed w.at (directory around w) g)
              ∙ hold-Carries (directory around w) g h)
      ]
    ]

    -- The hold of a run leaves the barrier on the placement, or goes on an earlier attempt's.
    pub hold_step-Carries :
        (kind : Str) (start : Node) (st st' : BarrierState) (w h : Node)
        → intent (calls sha256_hex setup around switching scope id) id scope kind start ≡ (ok st, w)
        → hold_step (calls sha256_hex setup around switching scope id) scope st w ≡ (ok st', h)
        → Carries h.file ⊎ Earlier scope id start
    unfolding intent fresh hold_step
    hold_step-Carries kind start st st' w h i e = elim (Bool-cases (st.hold_version == 0)) [
      | inr z ↦
          let kept : w ≡ h = ground (arith, e, z) in
          elim (Option-cases start.tracker.op.barrier) [
            | inl o ↦ absurd (ground (arith, i, z, o))
            | inr (was, o) ↦
                let same : was ≡ st = ground (arith, i, o) in
                let at : start ≡ w = ground (arith, i, o) in
                elim (Bool-cases (lacks (read_only_switch start.file scope).barrier id)) [
                  | inr l ↦ inl (subst (λ u. Carries u.file) (at ∙ kept) l)
                  | inl l ↦ inr (record {
                    barrier = was;
                    stored = o;
                    held = ap (λ s. s.hold_version == 0) same ∙ z;
                    off = l;
                  })
                ]
          ]
      | inl z ↦
          let w1 = phase sha256_hex setup around shunt.Control.Phase.hold w in
          let ran = hold_switch around switching scope id w1 in
          elim (Option-cases (check w1.tracker w1.store)) [
            | inr (x, own) ↦ absurd (ground (arith, e, z, own))
            | inl own ↦ elim (Result-cases ran.0) [
              | inr (x, r) ↦ absurd (ground (arith, e, z, own, r))
              | inl (v, r) ↦
                  let edit = barrier_edit st' (shunt.Control.Action.cancel ∷ []) in
                  let at : h ≡ saved sha256_hex setup around edit ran.1 =
                    ground (arith, e, z, own, r) in
                  let file : h.file ≡ ran.1.file =
                    ap (λ u. u.file) at ∙ (saved-Kept sha256_hex setup around edit ran.1).0 in
                  inl (
                    subst Carries (sym file)
                      (hold_switch-Carries v w1 ran.1 (ap (λ a. (a, ran.1)) r)))
            ]
          ]
    ]
