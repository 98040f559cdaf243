-- ===== src/Control/ReadOnly.antt =====
-- internal/control/readonly.go: runReadOnly, as the owner of the operation runs it. Switching on, the calls of
-- its barrier (barrier.go) are the tracker's writes, the reads of the fleet and the directory, and the hold
-- and commit of the switch; switching off waits by precondition of ops.go. The settling after the commit is
-- left out.
pub mod Carried
pub mod Drains
pub mod Reached
use shunt.Base.{
  ℕ, suc, Str, Bool, true, false, Option, none, some, List, [], ◌∷◌, ◌++◌, ◌&&◌, not, if◌then◌else◌,
  Result, ok, err,
}
use shunt.Directory.Types.{Err, barrier_mutations}
use shunt.Directory.File.{File}
use shunt.Control.{Phase, Action, Blocker, ReadOnlyPrior, BarrierState, Operation, Fail, resumable}
use shunt.Control.Store.{Setup}
use shunt.Control.Tracker.{check, RunEnd, barrier_edit}
use shunt.Control.Node.{
  Node, Around, unreadable, directory, reads, writes, saved, phase, blocked, allow,
}
use shunt.Control.Drain.{drain_blockers}
use shunt.Control.Holds.{carries_barrier, read_only_switch, read_only_hold, read_only_commit}
use shunt.Control.Fence.{version_blockers}
use shunt.Control.Runs.{Calls, block_until, Commit, wrote, gone, fails, Stop, run_barrier}
use shunt.Directory.Stamp.{generation}

module _ (around : Around) where
  -- One round of the drain.
  unfoldable pub drain_round : BarrierState → Node → Result Fail (List Blocker)
  drain_round st w = elim (around.fleet w.at) [
    | err e ↦ err e
    | ok p ↦ drain_blockers p.identity st p.members (around.local w.at) none
  ]

  unfoldable pub read_prior : Str → Node → ReadOnlyPrior
  read_prior scope w =
      let s = read_only_switch w.file scope in record { read_only = s.read_only; reject = s.reject }

  -- The barrier's hold, over the write of its switch.
  unfoldable pub hold_switch : (File → Result Err File) → Str → Str → Node → Result RunEnd ℕ × Node
  hold_switch set scope id w =
      let f = directory around w in
      if not (around.sync w.at)
      then (err unreadable, record w { at = suc w.at })
      else elim (read_only_hold set f scope id) [
        | ok f' ↦ (ok (around.lands w.at f f').version, writes around f' w)
        | err e ↦ (err unreadable, reads around w)
      ]

  unfoldable pub commit_switch : Str → Str → Node → Commit × Node
  commit_switch scope id w =
      let f = directory around w in
      if not (around.sync w.at)
      then (fails unreadable, record w { at = suc w.at })
      else elim (read_only_commit f scope id) [
        | shunt.Control.Holds.Commit.already ↦ (wrote f.version, reads around w)
        | shunt.Control.Holds.Commit.gone ↦ (gone, reads around w)
        | shunt.Control.Holds.Commit.committed f' ↦
            (wrote (around.lands w.at f f').version, writes around f' w)
        | shunt.Control.Holds.Commit.failed e ↦ (fails unreadable, reads around w)
      ]

  unfoldable pub carries : Str → Str → Node → Result RunEnd Bool × Node
  carries scope id w =
      if around.sync w.at
      then (ok (carries_barrier (directory around w) scope id), reads around w)
      else (err unreadable, record w { at = suc w.at })

  -- One round of precondition's wait: what keeps a version from being on the fleet.
  unfoldable pub version_round : ℕ → Node → Result Fail (List Blocker) × Node
  version_round v w =
      let r : Result Fail (List Blocker) = elim (around.fleet w.at) [
        | err e ↦ err e
        | ok p ↦ ok (version_blockers p.identity v p.members)
      ] in
      (r, record w { at = suc w.at })

offers_cancel : List Action → Bool
offers_cancel [] = false
offers_cancel (Action.cancel ∷ actions) = true
offers_cancel (_ ∷ actions) = offers_cancel actions

-- Whether an operation is offered to be canceled only while precondition waits.
unfoldable pub cancel_offered : Operation → Bool
unfolding offers_cancel
cancel_offered op = resumable op.kind && not (offers_cancel op.allowed_actions)

module _ (sha256_hex : Str → Str) (setup : Setup) (around : Around) where
  -- The barrier of a read-only change.
  abbrev pub calls : (File → Result Err File) → Str → Str → Calls Node
  calls set scope id = record {
    check = λ w. check w.tracker w.store;
    write_phase = phase sha256_hex setup around;
    write_blocked = blocked sha256_hex setup around;
    write_barrier = λ st actions. saved sha256_hex setup around (barrier_edit st actions);
    stored = λ w. w.tracker.op.barrier;
    carries = carries around;
    drain = λ st w. (drain_round around st w, record w { at = suc w.at });
    sleep = λ w. (around.awake w.at, record w { at = suc w.at });
    generation = λ res w. generation w.file res;
    now = λ w. around.clock w.at;
    prior = λ w. some (read_prior around scope w);
    hold = hold_switch around set scope id;
    commit = commit_switch around scope id;
  }

  -- runReadOnly to its commit, with `n` rounds for each of its waits.
  unfoldable pub switch_on :
      ℕ → (File → Result Err File) → Str → Str → Node → Result Stop BarrierState × Node
  switch_on n set scope id = run_barrier (calls set scope id) n id scope barrier_mutations

  -- precondition's wait, for the version of the directory that it reads.
  unfoldable pub version_wait : ℕ → Calls Node → Node → Result Stop (Unit {0}) × Node
  version_wait n c w =
      if not (around.sync w.at)
      then (err (Stop.ends unreadable), record w { at = suc w.at })
      else block_until c n (version_round around (directory around w).version) (reads around w)

  -- Where precondition's wait begins: its phase is written, and the offer to cancel, where it is made.
  unfoldable pub wait_start : Node → Node
  wait_start w =
      let w1 = phase sha256_hex setup around Phase.precondition w in
      if cancel_offered w1.tracker.op
      then allow sha256_hex setup around (w1.tracker.op.allowed_actions ++ Action.cancel ∷ []) w1
      else w1

  unfoldable pub precondition : ℕ → Calls Node → Node → Result Stop (Unit {0}) × Node
  precondition n c w =
      let w1 = phase sha256_hex setup around Phase.precondition w in
      let (r, w2) = version_wait n c (wait_start w) in
      if cancel_offered w1.tracker.op
      then (r, allow sha256_hex setup around w1.tracker.op.allowed_actions w2)
      else (r, w2)

  -- runReadOnly where it switches off, up to its settling: the version that it wrote.
  unfoldable pub switch_off : ℕ → (File → Result Err File) → Str → Str → Node → Result Stop ℕ × Node
  switch_off n set scope id w =
      let (r, w1) = precondition n (calls set scope id) w in
      let w2 = phase sha256_hex setup around Phase.step w1 in
      elim r [
        | err e ↦ (err e, w1)
        | ok _ ↦ elim (check w2.tracker w2.store) [
          | some e ↦ (err (Stop.ends e), w2)
          | none ↦
              if not (around.sync w2.at)
              then (err (Stop.ends unreadable), record w2 { at = suc w2.at })
              else elim (set (directory around w2)) [
                | err e ↦ (err (Stop.ends unreadable), reads around w2)
                | ok f ↦
                    (ok (around.lands w2.at (directory around w2) f).version, writes around f w2)
              ]
        ]
      ]
