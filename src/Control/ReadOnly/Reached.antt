-- ===== src/Control/ReadOnly/Reached.antt =====
-- internal/control/readonly.go: that a read-only change is switched off once the fleet has the directory.
use shunt.Base.{
  ℕ, suc, ◌≤◌, ◌<◌, ◌≡◌, inl, inr, refl, sym, ap, ◌∙◌, subst, Str, true, List, [], ◌∷◌, ◌++◌, All,
  null, Result, ok, arith, Bool-cases, Result-cases, Option-cases,
}
use shunt.Directory.Types.{Err}
use shunt.Directory.File.{File}
use shunt.Control.{Phase, Action, Blocker}
use shunt.Control.Store.{Setup}
use shunt.Control.Tracker.{check}
use shunt.Control.Fence.{Poll}
use shunt.Control.Fence.Reached.{IsReady, version_blockers_iff}
use shunt.Control.Node.{Node, Around, phase, allow, directory, reads, writes}
use shunt.Control.Runs.{Calls, blockers_read, evaluate, block_until}
use shunt.Control.Runs.Rounds.{Clears, block_until-Clears}
use shunt.Control.ReadOnly.{
  version_round, cancel_offered, calls, version_wait, wait_start, precondition, switch_off,
}
use shunt.Control.Node.Later.{phase-Kept, blocked-Kept, allow-Kept}

-- A poll between two calls at which every member had retired, or was live and routed by a version.
pub record Ready (around : Around) (v first last : ℕ) : Type 0 where
  pub call : ℕ
  pub after : first ≤ call
  pub before : call < last
  pub poll : Poll
  pub found : around.fleet call ≡ ok poll
  pub ready : All (IsReady poll.identity v) poll.members

Ready-within :
    (around : Around) (v a b c d : ℕ) → a ≤ b → c ≤ d → Ready around v b c → Ready around v a d
Ready-within around v a b c d le le' r = record {
  call = r.call;
  after = omega (arith, le, r.after);
  before = omega (arith, le', r.before);
  poll = r.poll;
  found = r.found;
  ready = r.ready;
}

module _ (sha256_hex : Str → Str) (setup : Setup) (around : Around) where
  round-Ready :
      (v : ℕ) (w : Node)
      → null (blockers_read (version_round around v w).0) ≡ true
      → Ready around v w.at (suc w.at)
  unfolding version_round blockers_read
  round-Ready v w e = elim (Result-cases (around.fleet w.at)) [
    | inl (p, f) ↦ record {
      call = w.at;
      after = omega arith;
      before = omega arith;
      poll = p;
      found = f;
      ready = (version_blockers_iff p.identity v p.members).0 (null_nil _ (ground (arith, e, f)));
    }
    | inr (x, f) ↦ absurd (ground (arith, e, f))
  ]
    where
      null_nil : (bs : List Blocker) → null bs ≡ true → bs ≡ []
      null_nil [] e = refl
      null_nil (b ∷ bs) e = absurd (ground (arith, e))

  module _ (set : File → Result Err File) (scope id : Str) where
    abbrev c : Calls Node
    c = calls sha256_hex setup around set scope id

    round_later : (v : ℕ) (w : Node) (n : ℕ) → (version_round around v w).1.at ≤ n → w.at ≤ suc n
    unfolding version_round
    round_later v w n le = omega (arith, le)

    Clears-Ready :
        (v : ℕ) {k : ℕ} {w w' : Node}
        → Clears c (version_round around v) k w w'
        → Ready around v w.at w'.at
    unfolding evaluate version_round
    Clears-Ready v (Clears.clear {w} {w'} own left at) =
        let (bs, w1) = version_round around v w in
        let later = (blocked-Kept sha256_hex setup around (blockers_read bs) w1).1 in
        subst (λ u. Ready around v w.at u.at) (sym at)
          (Ready-within around v w.at w.at (suc w.at) _ (omega arith) later (round-Ready v w left))
    Clears-Ready v (Clears.later {k} {w} {w'} own left awake rest) =
        let (bs, w1) = version_round around v w in
        let later = (blocked-Kept sha256_hex setup around (blockers_read bs) w1).1 in
        Ready-within around v w.at _ w'.at w'.at (round_later v w _ later) (omega arith)
          (Clears-Ready v rest)

    version_wait-Ready :
        (n : ℕ) (w w' : Node)
        → version_wait sha256_hex setup around n c w ≡ (ok tt, w')
        → Ready around (directory around w).version w.at w'.at
    unfolding version_wait
    version_wait-Ready n w w' e = elim (Bool-cases (around.sync w.at)) [
      | inr y ↦ absurd (ground (arith, e, y))
      | inl y ↦
          let v = (directory around w).version in
          let waits : block_until c n (version_round around v) (reads around w) ≡ (ok tt, w') =
            ground (arith, e, y) in
          let (k, lt, cl) =
            block_until-Clears c (version_round around v) n (reads around w) w' waits in
          Ready-within around v w.at (suc w.at) w'.at w'.at (omega arith) (omega arith)
            (Clears-Ready v cl)
    ]

    wait_start-later : (w : Node) → w.at ≤ (wait_start sha256_hex setup around w).at
    unfolding wait_start
    wait_start-later w =
        let w1 = phase sha256_hex setup around Phase.precondition w in
        let more = w1.tracker.op.allowed_actions ++ Action.cancel ∷ [] in
        ground (
          arith,
          (phase-Kept sha256_hex setup around Phase.precondition w).1,
          (allow-Kept sha256_hex setup around more w1).1,
        )

    precondition-Ready :
        (n : ℕ) (w w' : Node)
        → precondition sha256_hex setup around n c w ≡ (ok tt, w')
        → Ready around
            (directory around (wait_start sha256_hex setup around w)).version
            (wait_start sha256_hex setup around w).at
            w'.at
    unfolding precondition
    precondition-Ready n w w' e =
        let w1 = phase sha256_hex setup around Phase.precondition w in
        let start = wait_start sha256_hex setup around w in
        let ran = version_wait sha256_hex setup around n c start in
        elim (Bool-cases (cancel_offered w1.tracker.op)) [
          | inr o ↦ version_wait-Ready n start w' (ground (arith, e, o))
          | inl o ↦
              let won : ran.0 ≡ ok tt = ground (arith, e, o) in
              let before = w1.tracker.op.allowed_actions in
              let at : allow sha256_hex setup around before ran.1 ≡ w' = ground (arith, e, o) in
              let back = (allow-Kept sha256_hex setup around before ran.1).1 in
              subst (λ u. Ready around (directory around start).version start.at u.at) at
                (Ready-within around (directory around start).version start.at start.at ran.1.at _
                  (omega arith) back (version_wait-Ready n start ran.1 (ap (λ r. (r, ran.1)) won)))
        ]

    -- Where the switch is written: the wait is over, and the phase of the step written.
    abbrev pub step_of : ℕ → Node → Node
    step_of n w =
        phase sha256_hex setup around Phase.step (precondition sha256_hex setup around n c w).1

    -- A read-only change that is switched off ends with the write of the switch, over the directory as it
    -- is then, after a poll that found every member retired, or live and routing by the version that the
    -- directory had when the wait began; the version that it answers is the one written.
    pub switch_off-Ready :
        (n v : ℕ) (w w' : Node)
        → switch_off sha256_hex setup around n set scope id w ≡ (ok v, w')
        → (f : File) × Ready around
            (directory around (wait_start sha256_hex setup around w)).version
            w.at
            (step_of n w).at
          × (set (directory around (step_of n w)) ≡ ok f)
          × (w' ≡ writes around f (step_of n w))
          × (v ≡ w'.file.version)
    unfolding switch_off
    switch_off-Ready n v w w' e =
        let start = wait_start sha256_hex setup around w in
        let ran = precondition sha256_hex setup around n c w in
        let w2 = phase sha256_hex setup around Phase.step ran.1 in
        let later = (phase-Kept sha256_hex setup around Phase.step ran.1).1 in
        elim (Result-cases ran.0) [
          | inr (x, r) ↦ absurd (ground (arith, e, r))
          | inl (u, r) ↦ elim (Option-cases (check w2.tracker w2.store)) [
            | inr (x, own) ↦ absurd (ground (arith, e, r, own))
            | inl own ↦ elim (Bool-cases (around.sync w2.at)) [
              | inr y ↦ absurd (ground (arith, e, r, own, y))
              | inl y ↦ elim (Result-cases (set (directory around w2))) [
                | inr (x, s) ↦ absurd (ground (arith, e, r, own, y, s))
                | inl (f, s) ↦
                    let at : writes around f w2 ≡ w' = ground (arith, e, r, own, y, s) in
                    let written : (around.lands w2.at (directory around w2) f).version ≡ v =
                      ground (arith, e, r, own, y, s) in
                    (
                      f,
                      Ready-within around (directory around start).version w.at start.at ran.1.at
                          w2.at (wait_start-later w) later
                          (precondition-Ready n w ran.1 (ap (λ a. (a, ran.1)) r)),
                      s,
                      sym at,
                      sym written ∙ ap (λ u. u.file.version) at,
                    )
              ]
            ]
          ]
        ]
