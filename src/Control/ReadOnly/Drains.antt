-- ===== src/Control/ReadOnly/Drains.antt =====
-- internal/control/readonly.go: that a read-only change commits after its barrier has drained.
use shunt.Base.{
  ℕ, suc, ◌≤◌, ◌<◌, ◌≡◌, ◌≢◌, ◌⊎◌, inl, inr, refl, sym, ap, ◌∙◌, subst, Str, is_empty, Bool, true,
  false, not, none, some, [], Result, ok, arith, Bool-cases, Result-cases,
}
use shunt.Directory.Types.{Err, barrier_mutations}
use shunt.Directory.File.{File, lacks}
use shunt.Control.{BarrierState}
use shunt.Control.Store.{Setup}
use shunt.Control.Tracker.{RunEnd, barrier_edit}
use shunt.Control.Drain.{drain_blockers}
use shunt.Control.Fence.{Poll}
use shunt.Control.Holds
use shunt.Control.Holds.{carries_barrier, read_only_switch, read_only_commit}
use shunt.Control.Holds.Race.{scope_of, slashless, carries_barrier-switch}
use shunt.Control.Runs.{wrote, fails}
use shunt.Control.Runs.Commits.{SameHold, run_barrier_commits_from}
use shunt.Control.Node.{Node, Around, phase, blocked, saved, directory}
use shunt.Control.Node.Later.{Kept, phase-Kept, blocked-Kept}
use shunt.Control.ReadOnly.Carried.{Earlier, switching, hold_step-Carries}
use shunt.Control.ReadOnly.{drain_round, commit_switch, carries, calls, switch_on}

-- A poll before a call, at which nothing of the fleet stood in the way of a barrier.
pub record Drained (around : Around) (st : BarrierState) (now : ℕ) : Type 0 where
  pub call : ℕ
  pub before : call < now
  pub poll : Poll
  pub found : around.fleet call ≡ ok poll
  pub clear : drain_blockers poll.identity st poll.members (around.local call) none ≡ ok []

Drained-later :
    (around : Around) (st : BarrierState) (m n : ℕ)
    → m ≤ n
    → Drained around st m
    → Drained around st n
Drained-later around st m n le d = record {
  call = d.call;
  before = omega (arith, le, d.before);
  poll = d.poll;
  found = d.found;
  clear = d.clear;
}

flipped : (b : Bool) → not b ≡ false → b ≡ true
flipped true e = refl
flipped false e = sym e

Commit-cases :
    (a : Holds.Commit)
    → (a ≡ Holds.Commit.already)
      ⊎ (a ≡ Holds.Commit.gone)
      ⊎ ((f : File) × (a ≡ Holds.Commit.committed f))
      ⊎ ((e : Err) × (a ≡ Holds.Commit.failed e))
Commit-cases Holds.Commit.already = inl refl
Commit-cases Holds.Commit.gone = inr (inl refl)
Commit-cases (Holds.Commit.committed f) = inr (inr (inl (f, refl)))
Commit-cases (Holds.Commit.failed e) = inr (inr (inr (e, refl)))

-- How the commit found the directory: after the drain of the barrier, or where the run went on an earlier
-- attempt's and began with the barrier off the placement, on and without the barrier.
abbrev pub Switched : Around → Str → Str → Node → BarrierState → Node → Type 0
Switched around scope id start st u =
    (Drained around st u.at
      × ((read_only_commit (directory around u) scope id ≡ Holds.Commit.already)
          ⊎ ((f : File) × (read_only_commit (directory around u) scope id
                ≡ Holds.Commit.committed f))))
    ⊎ (Earlier scope id start
        × (read_only_commit (directory around u) scope id ≡ Holds.Commit.already))

module _ (sha256_hex : Str → Str) (setup : Setup) (around : Around) where
  drain_round-Drained :
      (st : BarrierState) (w : Node)
      → drain_round around st w ≡ ok []
      → Drained around st (suc w.at)
  unfolding drain_round
  drain_round-Drained st w e = elim (Result-cases (around.fleet w.at)) [
    | inl (p, f) ↦ record {
      call = w.at;
      before = omega arith;
      poll = p;
      found = f;
      clear = ground (arith, e, f);
    }
    | inr (x, f) ↦ absurd (ground (arith, e, f))
  ]

  module _ (tenant bucket id : Str) (t : slashless tenant ≡ true) (named : is_empty id ≡ false)
      (reject : Bool)
      (steady : (i : ℕ) (f : File)
        → lacks (read_only_switch (around.meanwhile i f) (scope_of tenant bucket)).barrier id
          ≡ lacks (read_only_switch f (scope_of tenant bucket)).barrier id)
      (landed : (i : ℕ) (f g : File)
        → read_only_switch (around.lands i f g) (scope_of tenant bucket)
          ≡ read_only_switch g (scope_of tenant bucket))
      (start : Node) where
    abbrev scope : Str
    scope = scope_of tenant bucket

    abbrev set : File → Result Err File
    set = switching tenant bucket id named reject

    abbrev Before : Node → Type 0
    Before w = (lacks (read_only_switch w.file scope).barrier id ≡ false) ⊎ Earlier scope id start

    -- Drained before, or the hold was off the directory from the start, and is.
    abbrev Safe : BarrierState → Node → Type 0
    Safe st w =
        Drained around st w.at
        ⊎ (Earlier scope id start × (lacks (read_only_switch w.file scope).barrier id ≡ true))

    Kept-Safe : (st : BarrierState) (w w' : Node) → Kept w w' → Safe st w → Safe st w'
    Kept-Safe st w w' (f, le) (inl d) = inl (Drained-later around st w.at w'.at le d)
    Kept-Safe st w w' (f, le) (inr (o, l)) =
        inr (o, ap (λ x. lacks (read_only_switch x scope).barrier id) f ∙ l)

    drain-Safe :
        (st : BarrierState) (w w' : Node)
        → st.id ≡ id
        → (calls sha256_hex setup around set scope id).drain st w ≡ (ok [], w')
        → Safe st w'
    drain-Safe st w w' own e =
        let at : record w { at = suc w.at } ≡ w' = ap (λ r. r.1) e in
        subst (Safe st) at (inl (drain_round-Drained st w (ap (λ r. r.0) e)))

    carries-Safe :
        (st : BarrierState) (w w' : Node)
        → Before w
        → carries around scope id w ≡ (ok false, w')
        → Safe st w'
    unfolding carries
    carries-Safe st w w' before e = elim (Bool-cases (around.sync w.at)) [
      | inr y ↦ absurd (ground (arith, e, y))
      | inl y ↦
          let at : record w { file = directory around w; at = suc w.at } ≡ w' =
            ground (arith, e, y) in
          let found : carries_barrier (directory around w) scope id ≡ false =
            ground (arith, e, y) in
          let off : lacks (read_only_switch (directory around w) scope).barrier id ≡ true =
            flipped _
              (sym (carries_barrier-switch tenant bucket (directory around w) id t) ∙ found) in
          elim before [
            | inl l ↦ absurd (ground (arith, off, steady w.at w.file, l))
            | inr o ↦ subst (Safe st) at (inr (o, off))
          ]
    ]

    commit-Safe :
        (st : BarrierState) (x : RunEnd) (w w' : Node)
        → Safe st w
        → commit_switch around scope id w ≡ (fails x, w')
        → Safe st w'
    unfolding commit_switch
    commit-Safe st x w w' s e = elim (Bool-cases (around.sync w.at)) [
      | inr y ↦
          let at : record w { at = suc w.at } ≡ w' = ground (arith, e, y) in
          subst (Safe st) at (Kept-Safe st w (record w { at = suc w.at }) (refl, omega arith) s)
      | inl y ↦ elim (Commit-cases (read_only_commit (directory around w) scope id)) [
        | inl a ↦ absurd (ground (arith, e, y, a))
        | inr (inl a) ↦ absurd (ground (arith, e, y, a))
        | inr (inr (inl (f, a))) ↦ absurd (ground (arith, e, y, a))
        | inr (inr (inr (r, a))) ↦
            let at : record w { file = directory around w; at = suc w.at } ≡ w' =
              ground (arith, e, y, a) in
            subst (Safe st) at (elim s [
              | inl d ↦ inl (Drained-later around st w.at (suc w.at) (omega arith) d)
              | inr (o, l) ↦ inr (o, steady w.at w.file ∙ l)
            ])
      ]
    ]

    lacking_gone :
        (f g : File)
        → lacks (read_only_switch f scope).barrier id ≡ true
        → read_only_commit f scope id ≢ Holds.Commit.committed g
    unfolding read_only_commit
    lacking_gone f g l e = ground (arith, l, e)

    commit-Switched :
        (st : BarrierState) (v : ℕ) (u u' : Node)
        → Safe st u
        → commit_switch around scope id u ≡ (wrote v, u')
        → Switched around scope id start st u
    unfolding commit_switch
    commit-Switched st v u u' s e = elim (Bool-cases (around.sync u.at)) [
      | inr y ↦ absurd (ground (arith, e, y))
      | inl y ↦ elim (Commit-cases (read_only_commit (directory around u) scope id)) [
        | inl a ↦ elim s [ inl d ↦ inl (d, inl a) | inr (o, l) ↦ inr (o, a) ]
        | inr (inl a) ↦ absurd (ground (arith, e, y, a))
        | inr (inr (inl (f, a))) ↦ elim s [
          | inl d ↦ inl (d, inr (f, a))
          | inr (o, l) ↦ absurd (lacking_gone (directory around u) f (steady u.at u.file ∙ l) a)
        ]
        | inr (inr (inr (r, a))) ↦ absurd (ground (arith, e, y, a))
      ]
    ]

    -- SetPlacementReadOnly of a placement, under a tenant without a slash in its name, that the owner of an
    -- operation with an id switches on to the end, its barrier not committed before, and put on and
    -- taken off the placement by nobody else during the run, over a store that keeps the switch it is
    -- given: the run ends with the record of its commit, which comes after a poll that found the fleet
    -- drained of the barrier, with the hold that the record has, or finds the switch on without the
    -- barrier where the run goes on an earlier attempt's, whose record had the hold, and began with the
    -- barrier off the placement.
    pub switch_on-Switched :
        (n : ℕ) (st' : BarrierState) (w' : Node)
        → ((st : BarrierState)
            → start.tracker.op.barrier ≡ some st
            → (st.committed ≡ false) × (st.id ≡ id))
        → switch_on sha256_hex setup around n set scope id start ≡ (ok st', w')
        → (st'.committed ≡ true)
          × ((st : BarrierState) × (u : Node) × (st.id ≡ id)
              × SameHold st st'
              × Switched around scope id start st u
              × (commit_switch around scope id u
                  ≡ (wrote st'.commit_version, (commit_switch around scope id u).1))
              × (w'
                  ≡ saved sha256_hex setup around
                      (barrier_edit st' [])
                      (blocked sha256_hex setup around [] (commit_switch around scope id u).1)))
    unfolding switch_on
    switch_on-Switched n st' w' m e =
        let (c, (st, own, same, (u, u', s, written, at))) =
          run_barrier_commits_from (calls sha256_hex setup around set scope id) scope id Safe Before
            drain-Safe carries-Safe
            (λ st bs w.
              Kept-Safe st w (blocked sha256_hex setup around bs w)
                (blocked-Kept sha256_hex setup around bs w))
            (λ st p w.
              Kept-Safe st w (phase sha256_hex setup around p w)
                (phase-Kept sha256_hex setup around p w))
            (λ st w. Kept-Safe st w (record w { at = suc w.at }) (refl, omega arith)) commit-Safe n
            barrier_mutations st' start w' m
            (λ st held w h i k.
              hold_step-Carries tenant bucket id named reject sha256_hex setup around landed
                barrier_mutations start st held w h i k)
            e in
        let left : u' ≡ (commit_switch around scope id u).1 = sym (ap (λ r. r.1) written) in
        (
          c,
          (
            st,
            u,
            own,
            same,
            commit-Switched st st'.commit_version u u' s written,
            written ∙ ap (λ x. (wrote st'.commit_version, x)) left,
            at
                ∙ ap
                    (λ x.
                      saved sha256_hex setup around (barrier_edit st' [])
                        (blocked sha256_hex setup around [] x))
                    left,
          ),
        )
