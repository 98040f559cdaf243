-- ===== src/Control/Runs/Commits.antt =====
-- internal/control/barrier.go: when a barrier's run reaches its commit, and what is true there.
use shunt.Base.{
  ℕ, zero, suc, ◌≡◌, ◌⊎◌, inl, inr, refl, sym, ap, ◌∙◌, subst, Str, true, false, some, List, [],
  ◌∷◌, null, Result, ok, err, arith, Bool-cases, Option-cases, Result-cases,
}
use shunt.Control.{Phase, BlockerCode, Blocker, BarrierState, Fail}
use shunt.Control.Tracker.{RunEnd}
use shunt.Control.Runs.{
  Calls, Commit, wrote, gone, fails, blockers_read, plain_blocker, dispatched, fresh, evaluate,
  block_until, intent, hold_step, drain_step, commit_loop, committed_state, commit_step,
  run_barrier,
}
use shunt.Control.Runs.Rounds.{Clears, block_until-Clears}

Commit-cases :
    (a : Commit) → ((v : ℕ) × (a ≡ wrote v)) ⊎ (a ≡ gone) ⊎ ((e : RunEnd) × (a ≡ fails e))
Commit-cases (wrote v) = inl (v, refl)
Commit-cases gone = inr (inl refl)
Commit-cases (fails e) = inr (inr (e, refl))

-- Two states of one barrier, with one hold.
abbrev pub SameHold : BarrierState → BarrierState → Type 0
SameHold st st' =
    (st'.id ≡ st.id) × (st'.hold_version ≡ st.hold_version) × (st'.generation ≡ st.generation)

module _ {W : Type 0} (c : Calls W) where
  module _ (Safe : BarrierState → W → Type 0) where
    -- A commit that wrote, in a world where the predicate holds, and what the record has of it.
    abbrev Landed : BarrierState → ℕ → W → Type 0
    Landed st v w' =
        (u : W) × (u' : W) × Safe st u × (c.commit u ≡ (wrote v, u')) × (w' ≡ c.write_blocked [] u')

    abbrev pub Committed : BarrierState → BarrierState → W → Type 0
    Committed st st' w' =
        (u : W) × (u' : W) × Safe st u
        × (c.commit u ≡ (wrote st'.commit_version, u'))
        × (w' ≡ c.write_barrier st' [] (c.write_blocked [] u'))

  -- What holds once nothing blocks the barrier, or once its scope does not carry it, where the drain
  -- begins, and stays
  -- while the run writes its record, sleeps, and makes a commit that fails.
  module _ (scope id : Str) (Safe : BarrierState → W → Type 0) (Before : W → Type 0)
      (drained : (st : BarrierState) (w w' : W)
        → st.id ≡ id
        → c.drain st w ≡ (ok [], w')
        → Safe st w')
      (released : (st : BarrierState) (w w' : W)
        → Before w
        → c.carries scope id w ≡ (ok false, w')
        → Safe st w')
      (blocked : (st : BarrierState) (bs : List Blocker) (w : W)
        → Safe st w
        → Safe st (c.write_blocked bs w))
      (phase : (st : BarrierState) (p : Phase) (w : W) → Safe st w → Safe st (c.write_phase p w))
      (slept : (st : BarrierState) (w : W) → Safe st w → Safe st (c.sleep w).1)
      (failed : (st : BarrierState) (e : RunEnd) (w w' : W)
        → Safe st w
        → c.commit w ≡ (fails e, w')
        → Safe st w') where
    empty_read : (r : Result Fail (List Blocker)) → null (blockers_read r) ≡ true → r ≡ ok []
    unfolding blockers_read
    empty_read (ok []) e = refl
    empty_read (ok (b ∷ bs)) e = absurd (ground (arith, e))
    empty_read (err x) e = absurd (ground (arith, e))

    Clears-Safe :
        (st : BarrierState) {k : ℕ} {w w' : W}
        → st.id ≡ id
        → Clears c (c.drain st) k w w'
        → Safe st w'
    unfolding evaluate
    Clears-Safe st own_id (Clears.clear {w} own left at) =
        let found : (c.drain st w).0 ≡ ok [] = empty_read (c.drain st w).0 left in
        subst (Safe st) (sym at) (
          blocked st _ _
            (drained st w (c.drain st w).1 own_id (ap (λ r. (r, (c.drain st w).1)) found)))
    Clears-Safe st own_id (Clears.later own left awake rest) = Clears-Safe st own_id rest

    loop-Landed :
        (st : BarrierState) (n v : ℕ) (w w' : W)
        → Safe st w
        → commit_loop c n w ≡ (ok v, w')
        → Landed Safe st v w'
    unfolding commit_loop
    loop-Landed st zero v w w' s e = absurd (ground (arith, e))
    loop-Landed st (suc n) v w w' s e = elim (Commit-cases (c.commit w).0) [
      | inl (x, a) ↦
          let same : x ≡ v = ground (arith, e, a) in
          (
            w,
            (c.commit w).1,
            s,
            ap (λ r. (r, (c.commit w).1)) (a ∙ ap wrote same),
            ground (arith, e, a),
          )
      | inr (inl a) ↦ absurd (ground (arith, e, a))
      | inr (inr (x, a)) ↦
          let w1 = (c.commit w).1 in
          let s1 : Safe st w1 = failed st x w w1 s (ap (λ r. (r, w1)) a) in
          let s2 =
            slept st _
              (blocked st (plain_blocker BlockerCode.backend_outcome_unknown ∷ []) w1 s1) in
          elim (Bool-cases (dispatched (c.stored w1))) [
            | inr d ↦ absurd (ground (arith, e, a, d))
            | inl d ↦ loop-Landed st n v _ w' s2 (ground (arith, e, a, d))
          ]
    ]

    commit_step-Committed :
        (n : ℕ) (st0 st st' : BarrierState) (w w' : W)
        → Safe st0 w
        → commit_step c n st w ≡ (ok st', w')
        → (st'.committed ≡ true) × SameHold st st' × Committed Safe st0 st' w'
    unfolding commit_step
    commit_step-Committed n st0 st st' w w' s e =
        let w1 = c.write_phase Phase.commit w in
        elim (Option-cases (c.check w1)) [
          | inr (x, own) ↦ absurd (ground (arith, e, own))
          | inl own ↦ elim (Result-cases (commit_loop c n w1).0) [
            | inr (x, r) ↦ absurd (ground (arith, e, own, r))
            | inl (v, r) ↦
                let ran : st' ≡ committed_state st v (c.now (commit_loop c n w1).1) =
                  ground (arith, e, own, r) in
                let written : w' ≡ c.write_barrier st' [] (commit_loop c n w1).1 =
                  ground (arith, e, own, r) in
                let (u, u', su, cu, at) =
                  loop-Landed st0 n v w1 (commit_loop c n w1).1 (phase st0 Phase.commit w s)
                    (ap (λ a. (a, (commit_loop c n w1).1)) r) in
                (
                  ap (λ x. x.committed) ran,
                  (ap (λ x. x.id) ran, ap (λ x. x.hold_version) ran, ap (λ x. x.generation) ran),
                  (
                    u,
                    u',
                    su,
                    cu ∙ ap (λ x. (wrote x.commit_version, u')) (sym ran),
                    written ∙ ap (c.write_barrier st' []) at,
                  ),
                )
          ]
        ]

    drain_step-Safe :
        (n : ℕ) (st st' : BarrierState) (w w' : W)
        → st.id ≡ id
        → Before w
        → drain_step c n scope st w ≡ (ok st', w')
        → SameHold st st' × Safe st w'
    unfolding drain_step
    drain_step-Safe n st st' w w' own_id before e =
        let w1 = (c.carries scope st.id w).1 in
        elim (Result-cases (c.carries scope st.id w).0) [
          | inr (x, r) ↦ absurd (ground (arith, e, r))
          | inl (there, r) ↦ elim (Bool-cases there) [
            | inr b ↦
                let at : w1 ≡ w' = ground (arith, e, r, b) in
                let same : st ≡ st' = ground (arith, e, r, b) in
                (
                  (
                    ap (λ x. x.id) (sym same),
                    ap (λ x. x.hold_version) (sym same),
                    ap (λ x. x.generation) (sym same),
                  ),
                  subst (Safe st) at (
                      released st w w1 before (
                        ap (λ i. c.carries scope i w) (sym own_id)
                        ∙ ap (λ a. (a, w1)) (r ∙ ap ok b))),
                )
            | inl b ↦
                let ran = block_until c n (c.drain st) (c.write_phase Phase.drain w1) in
                elim (Result-cases ran.0) [
                  | inr (x, d) ↦ absurd (ground (arith, e, r, b, d))
                  | inl (x, d) ↦
                      let (k, lt, cl) =
                        block_until-Clears c (c.drain st) n (c.write_phase Phase.drain w1) ran.1
                          (ap (λ a. (a, ran.1)) d) in
                      let at : ran.1 ≡ w' = ground (arith, e, r, b, d) in
                      let same : record st { drained_at = c.now ran.1 } ≡ st' =
                        ground (arith, e, r, b, d) in
                      (
                        (
                          ap (λ x. x.id) (sym same),
                          ap (λ x. x.hold_version) (sym same),
                          ap (λ x. x.generation) (sym same),
                        ),
                        subst (Safe st) at (Clears-Safe st own_id cl),
                      )
                ]
          ]
        ]

    hold_step-uncommitted :
        (st st' : BarrierState) (w w' : W)
        → (st.committed ≡ false) × (st.id ≡ id)
        → hold_step c scope st w ≡ (ok st', w')
        → (st'.committed ≡ false) × (st'.id ≡ id)
    unfolding hold_step
    hold_step-uncommitted st st' w w' (m, i) e = (ground (arith, m, e), ground (arith, i, e))

    intent-uncommitted :
        (kind : Str) (w : W)
        → ((st : BarrierState) → c.stored w ≡ some st → (st.committed ≡ false) × (st.id ≡ id))
        → (st : BarrierState) × (w' : W) × (intent c id scope kind w ≡ (ok st, w'))
          × (st.committed ≡ false)
          × (st.id ≡ id)
    unfolding intent fresh
    intent-uncommitted kind w m = elim (Option-cases (c.stored w)) [
      | inl e ↦
          let st = fresh id scope kind (c.prior w) in
          (st, c.write_barrier st [] w, ground (arith, e), refl, refl)
      | inr (st, e) ↦ (st, w, ground (arith, e), (m st e).0, (m st e).1)
    ]

    -- The rule for a run whose drain begins where a predicate of its own holds.
    pub run_barrier_commits_from :
        (n : ℕ) (kind : Str) (st' : BarrierState) (w w' : W)
        → ((st : BarrierState) → c.stored w ≡ some st → (st.committed ≡ false) × (st.id ≡ id))
        → ((st held : BarrierState) (w1 h : W)
            → intent c id scope kind w ≡ (ok st, w1)
            → hold_step c scope st w1 ≡ (ok held, h)
            → Before h)
        → run_barrier c n id scope kind w ≡ (ok st', w')
        → (st'.committed ≡ true)
          × ((st : BarrierState) × (st.id ≡ id) × SameHold st st' × Committed Safe st st' w')
    unfolding run_barrier
    run_barrier_commits_from n kind st' w w' m begins e =
        let (st, w1, i, u, own_id) = intent-uncommitted kind w m in
        let h = hold_step c scope st w1 in
        elim (Result-cases h.0) [
          | inr (x, r) ↦ absurd (ground (arith, e, i, r))
          | inl (held, r) ↦
              let (un, kept) =
                hold_step-uncommitted st held w1 h.1 (u, own_id) (ap (λ a. (a, h.1)) r) in
              let d = drain_step c n scope held h.1 in
              elim (Result-cases d.0) [
                | inr (x, q) ↦ absurd (ground (arith, e, i, r, un, q))
                | inl (drained, q) ↦
                    let (same, safe) =
                      drain_step-Safe n held drained h.1 d.1 kept
                        (begins st held w1 h.1 i (ap (λ a. (a, h.1)) r)) (ap (λ a. (a, d.1)) q) in
                    let (done, since, commit) =
                      commit_step-Committed n held drained st' d.1 w' safe
                        (ground (arith, e, i, r, un, q)) in
                    (
                      done,
                      (held, kept, (since.0 ∙ same.0, since.1 ∙ same.1, since.2 ∙ same.2), commit),
                    )
              ]
        ]

  -- The predicate, whatever the world where the drain begins.
  module _ (scope id : Str) (Safe : BarrierState → W → Type 0)
      (drained : (st : BarrierState) (w w' : W)
        → st.id ≡ id
        → c.drain st w ≡ (ok [], w')
        → Safe st w')
      (released : (st : BarrierState) (w w' : W)
        → c.carries scope id w ≡ (ok false, w')
        → Safe st w')
      (blocked : (st : BarrierState) (bs : List Blocker) (w : W)
        → Safe st w
        → Safe st (c.write_blocked bs w))
      (phase : (st : BarrierState) (p : Phase) (w : W) → Safe st w → Safe st (c.write_phase p w))
      (slept : (st : BarrierState) (w : W) → Safe st w → Safe st (c.sleep w).1)
      (failed : (st : BarrierState) (e : RunEnd) (w w' : W)
        → Safe st w
        → c.commit w ≡ (fails e, w')
        → Safe st w') where
    -- A run that ends well, of the operation's barrier with its change not committed yet, ends with the
    -- record of a commit that wrote, in a world where the predicate holds of the barrier, with the hold
    -- that the record has: it held once nothing blocked the barrier, or once its scope had lost it, and
    -- whatever was done since keeps it.
    pub run_barrier_commits :
        (n : ℕ) (kind : Str) (st' : BarrierState) (w w' : W)
        → ((st : BarrierState) → c.stored w ≡ some st → (st.committed ≡ false) × (st.id ≡ id))
        → run_barrier c n id scope kind w ≡ (ok st', w')
        → (st'.committed ≡ true)
          × ((st : BarrierState) × (st.id ≡ id) × SameHold st st' × Committed Safe st st' w')
    run_barrier_commits n kind st' w w' m e =
        run_barrier_commits_from scope id Safe (λ w. Unit {0}) drained
          (λ st w w' any. released st w w') blocked phase slept failed n kind st' w w' m
          (λ st held w1 h a b. tt) e
