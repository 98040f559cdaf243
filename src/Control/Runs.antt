-- ===== src/Control/Runs.antt =====
-- internal/control/barrier.go: runBarrier and blockUntil, over the calls that they make of the rest of the
-- server. A call takes the world, which is the records, the directory and the fleet as they stand then,
-- and gives the world after it: what others do meanwhile is part of it. The loops have no bound in the
-- source, and here the number of rounds that they may take. Log and metrics are left out.
pub mod Rounds
pub mod Commits
use shunt.Base.{
  ℕ, zero, suc, Str, lit, Bool, true, false, not, Option, none, some, List, [], ◌∷◌, if◌then◌else◌,
  ◌==◌, null, Result, ok, err,
}
use shunt.Base.Int.{pos}
use shunt.Control.{Phase, Action, BlockerCode, Blocker, ReadOnlyPrior, BarrierState, Fail}
use shunt.Control.Tracker.{RunEnd}

-- Why a run ends without its change; `out_of_rounds` is the model's own.
pub data Stop : Type 0 where
  ends : RunEnd → Stop
  out_of_rounds : Stop

-- What a commit answers: the version, written now or by an earlier attempt, errBarrierGone, or another
-- error.
pub data Commit : Type 0 where
  wrote : ℕ → Commit
  gone : Commit
  fails : RunEnd → Commit

-- The calls of one barrier's run. `drain` is drainBlockers with the barrier's own checks, `sleep`
-- tells whether the wait was not interrupted, and `stored` is the tracker's barrierState.
pub record Calls (W : Type 0) : Type 0 where
  pub check : W → Option RunEnd
  pub write_phase : Phase → W → W
  pub write_blocked : List Blocker → W → W
  pub write_barrier : BarrierState → List Action → W → W
  pub stored : W → Option BarrierState
  pub carries : Str → Str → W → Result RunEnd Bool × W
  pub drain : BarrierState → W → Result Fail (List Blocker) × W
  pub sleep : W → Bool × W
  pub generation : Str → W → ℕ
  pub now : W → ℕ
  pub prior : W → Option ReadOnlyPrior
  pub hold : W → Result RunEnd ℕ × W
  pub commit : W → Commit × W

abbrev pub plain_blocker : BlockerCode → Blocker
plain_blocker code = record { code = code; proxy_id = []; incarnation = []; count = pos 0 }

-- An evaluation that fails blocks, too.
unfoldable pub blockers_read : Result Fail (List Blocker) → List Blocker
blockers_read (ok bs) = bs
blockers_read (err e) = plain_blocker BlockerCode.quorum_unavailable ∷ []

abbrev unavailable : Stop
unavailable = ends (RunEnd.failed (lit "unavailable"))

unfoldable pub dispatched : Option BarrierState → Bool
dispatched none = false
dispatched (some st) = st.dispatch_started

unfoldable pub fresh : Str → Str → Str → Option ReadOnlyPrior → BarrierState
fresh id scope kind prior = record {
  id = id;
  scope = scope;
  kind = kind;
  hold_version = 0;
  generation = 0;
  committed = false;
  commit_version = 0;
  dispatch_started = false;
  held_at = 0;
  drained_at = 0;
  committed_at = 0;
  prior = prior;
}

-- What the record says of a barrier whose change is committed.
abbrev pub committed_state : BarrierState → ℕ → ℕ → BarrierState
committed_state st v now = record st { committed = true; commit_version = v; committed_at = now }

module _ {W : Type 0} (c : Calls W) where
  abbrev pub M : Type 0 → Type 0
  M A = W → Result Stop A × W

  infixl 5 ◌>>=◌
  abbrev pub ◌>>=◌ : {A B : Type 0} → M A → (A → M B) → M B
  ◌>>=◌ m f w = elim (m w).0 [ ok a ↦ f a (m w).1 | err e ↦ (err e, (m w).1) ]

  abbrev pub still_owner : M (Unit {0})
  still_owner w = elim (c.check w) [ none ↦ (ok tt, w) | some e ↦ (err (ends e), w) ]

  abbrev pub effect : (W → W) → M (Unit {0})
  effect f w = (ok tt, f w)

  abbrev lifted : {A : Type 0} → Result RunEnd A → Result Stop A
  lifted (ok a) = ok a
  lifted (err e) = err (ends e)

  -- One evaluation, and its blockers on the record.
  unfoldable pub evaluate : (W → Result Fail (List Blocker) × W) → W → List Blocker × W
  unfolding blockers_read
  evaluate eval w = let bs = blockers_read (eval w).0 in (bs, c.write_blocked bs (eval w).1)

  unfoldable pub block_until : ℕ → (W → Result Fail (List Blocker) × W) → M (Unit {0})
  unfolding evaluate
  block_until zero eval w = (err out_of_rounds, w)
  block_until (suc n) eval w = elim (c.check w) [
    | some e ↦ (err (ends e), w)
    | none ↦
        let (bs, w1) = evaluate eval w in
        let (awake, w2) = c.sleep w1 in
        let rest = block_until n eval w2 in
        if null bs then (ok tt, w1) else if awake then rest else (err unavailable, w2)
  ]

  -- The barrier's state, written before the directory is where the record has none.
  unfoldable pub intent : Str → Str → Str → M BarrierState
  unfolding fresh
  intent id scope kind w = elim (c.stored w) [
    | some st ↦ (ok st, w)
    | none ↦ let st = fresh id scope kind (c.prior w) in (ok st, c.write_barrier st [] w)
  ]

  held : BarrierState → Str → ℕ → W → Result Stop BarrierState × W
  held st scope v w =
      let st' : BarrierState = record st {
        hold_version = v;
        generation = c.generation scope w;
        held_at = c.now w;
      } in
      (ok st', c.write_barrier st' (Action.cancel ∷ []) w)

  unfoldable pub hold_step : Str → BarrierState → M BarrierState
  unfolding held
  hold_step scope st w =
      let w1 = c.write_phase Phase.hold w in
      let (r, w2) = c.hold w1 in
      if not (st.hold_version == 0) then (ok st, w) else elim (c.check w1) [
        | some e ↦ (err (ends e), w1)
        | none ↦ elim r [ ok v ↦ held st scope v w2 | err e ↦ (err (ends e), w2) ]
      ]

  -- A scope that still carries the barrier is drained; otherwise the commit reconciles.
  unfoldable pub drain_step : ℕ → Str → BarrierState → M BarrierState
  unfolding block_until
  drain_step n scope st w =
      let (r, w1) = c.carries scope st.id w in
      let (d, w2) = block_until n (c.drain st) (c.write_phase Phase.drain w1) in
      elim r [
        | err e ↦ (err (ends e), w1)
        | ok false ↦ (ok st, w1)
        | ok true ↦ elim d [
          | err e ↦ (err e, w2)
          | ok _ ↦ (ok (record st { drained_at = c.now w2 }), w2)
        ]
      ]

  -- A commit that fails once destructive work may have begun is tried again, under its blocker.
  unfoldable pub commit_loop : ℕ → M ℕ
  unfolding dispatched
  commit_loop zero w = (err out_of_rounds, w)
  commit_loop (suc n) w =
      let (a, w1) = c.commit w in
      let blocked = plain_blocker BlockerCode.backend_outcome_unknown ∷ [] in
      let (awake, w2) = c.sleep (c.write_blocked blocked w1) in
      let rest = commit_loop n w2 in
      elim a [
        | gone ↦ (err (ends RunEnd.canceled), w1)
        | wrote v ↦ (ok v, c.write_blocked [] w1)
        | fails e ↦
            if not (dispatched (c.stored w1))
            then (err (ends e), w1)
            else if not awake
            then (err unavailable, w2)
            else elim (c.check w2) [ some e ↦ (err (ends e), w2) | none ↦ rest ]
      ]

  unfoldable pub commit_step : ℕ → BarrierState → M BarrierState
  unfolding commit_loop
  commit_step n st w =
      let w1 = c.write_phase Phase.commit w in
      let (r, w2) = commit_loop n w1 in
      elim (c.check w1) [
        | some e ↦ (err (ends e), w1)
        | none ↦ elim r [
          | err e ↦ (err e, w2)
          | ok v ↦ let st' = committed_state st v (c.now w2) in (ok st', c.write_barrier st' [] w2)
        ]
      ]

  -- runBarrier, from a barrier's id, scope and kind.
  unfoldable pub run_barrier : ℕ → Str → Str → Str → M BarrierState
  unfolding intent hold_step drain_step commit_step
  run_barrier n id scope kind = intent id scope kind >>= λ st. hold_step scope st >>= λ held.
      (if held.committed
        then (λ w. (ok held, w))
        else drain_step n scope held >>= λ drained. commit_step n drained)
