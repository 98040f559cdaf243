-- ===== src/Control/Tracker.antt =====
-- internal/control/operation.go: tracker, one operation in flight and its copy of the record: put, check,
-- refresh, and what setBarrier, blocked and finish (with settleEffect) write. What other nodes do to the
-- records between two calls is an argument, `others`. The log, the events and the fields that only they
-- read are left out.
pub mod Writes
pub mod Given
use shunt.Base.{
  ℕ, zero, suc, ◌+◌, ◌*◌, ◌-◌, Str, is_empty, lit, Bool, true, false, ◌&&◌, ◌||◌, not, Option, none,
  some, List, [], if◌then◌else◌, ltb, length, null, ok, err,
}
use shunt.Control.{Status, Effect, Phase, Action, Blocker, BarrierState, Operation, terminal}
use shunt.Control.Store.{MemOperations, Setup, update, get_record}
use shunt.Control.Records.{taken_over, written, is_stale, World}

pub record Tracker : Type 0 where
  pub op : Operation
  pub lost : Bool
  pub start_version : ℕ

-- How a put ended, by the cases at its end; the model's own.
pub data PutEnd : Type 0 where
  landed unwritten given_up idle : PutEnd

pub record Put : Type 0 where
  pub store : MemOperations
  pub tracker : Tracker
  pub how : PutEnd

-- The owner's fields over the record as it is stored now: the worker session and the request of a
-- cancellation are their writers'.
unfoldable pub over_stored : Operation → Operation → Operation
over_stored op stored = record op {
  worker = stored.worker;
  cancel_request = elim stored.cancel_request [ none ↦ op.cancel_request | some r ↦ some r ];
  allowed_actions = elim stored.cancel_request [ none ↦ op.allowed_actions | some r ↦ [] ];
  sequence = suc stored.sequence;
}

abbrev lost_with : Tracker → Operation → MemOperations → Put
lost_with tr op m = record {
  store = m;
  tracker = record tr { op = op; lost = true };
  how = PutEnd.given_up;
}

-- An error that is not ErrStaleSequence: the sequence is taken back.
abbrev failed_with : Tracker → Operation → MemOperations → Put
failed_with tr op m = record {
  store = m;
  tracker = record tr { op = record op { sequence = op.sequence - 1 } };
  how = PutEnd.unwritten;
}

abbrev landed_with : Tracker → Operation → MemOperations → Put
landed_with tr op m = record { store = m; tracker = record tr { op = op }; how = PutEnd.landed }

abbrev pub attempts : ℕ
attempts = 16

module _ (sha256_hex : Str → Str) (setup : Setup) (now : ℕ) (others : World) where
  -- The loop over stale writes, with the attempts that are left. `op` was refused last.
  unfoldable pub put_again : ℕ → Tracker → Operation → MemOperations → Put
  unfolding over_stored
  put_again zero tr op m = lost_with tr op m
  put_again (suc n) tr op m =
      let m1 = others (2 * n + 1) m in
      elim (get_record m1 op.id) [
        | none ↦ lost_with tr op m1
        | some stored ↦
            if taken_over op.node op.owner_term stored || terminal stored
            then lost_with tr op m1
            else (let op' = over_stored op stored in
                let m2 = others (2 * n) m1 in
                elim (update sha256_hex setup now m2 op') [
                  | ok m3 ↦ landed_with tr op' m3
                  | err e ↦ if is_stale e then put_again n tr op' m2 else failed_with tr op' m2
                ])
      ]

  unfoldable pub put : Tracker → MemOperations → Put
  unfolding put_again
  put tr m =
      if tr.lost
      then record { store = m; tracker = tr; how = PutEnd.idle }
      else (let op = written now tr.op in
          let m1 = others (2 * attempts) m in
          elim (update sha256_hex setup now m1 op) [
            | ok m2 ↦ landed_with tr op m2
            | err e ↦ if is_stale e then put_again attempts tr op m1 else failed_with tr op m1
          ])

-- Why a run ends: errCanceled, errLost, or an error of its own.
pub data RunEnd : Type 0 where
  canceled lost : RunEnd
  failed : Str → RunEnd

is_cancelled : Status → Bool
is_cancelled Status.cancelled = true
is_cancelled _ = false

-- check. A lost tracker's run ends, whoever has the record now.
unfoldable pub check : Tracker → MemOperations → Option RunEnd
unfolding is_cancelled
check tr m = if not tr.lost then none else elim (get_record m tr.op.id) [
  | none ↦ some RunEnd.lost
  | some op ↦ some (if is_cancelled op.status then RunEnd.canceled else RunEnd.lost)
]

unfoldable pub refresh : Tracker → MemOperations → Tracker
refresh tr m = if tr.lost || is_empty tr.op.id then tr else elim (get_record m tr.op.id) [
  | none ↦ tr
  | some op ↦
      if terminal op || taken_over tr.op.node tr.op.owner_term op
      then record tr { lost = true }
      else tr
]

-- What an operation ended with: the result's text, and its version, or why it ended.
pub data Outcome : Type 0 where
  done : Str → ℕ → Outcome
  ends : RunEnd → Outcome

-- settleEffect, at a version of the directory.
unfoldable pub settle_effect : ℕ → ℕ → Operation → Operation
unfolding is_cancelled
settle_effect version start op =
    let uncommitted : Bool = elim op.barrier [ none ↦ true | some b ↦ not b.committed ] in
    let moved = ltb 0 op.version || ltb start version in
    if is_cancelled op.status && uncommitted
    then record op { effect_state = Effect.nothing }
    else elim op.effect_state [
      | Effect.nothing ↦ if moved then record op { effect_state = Effect.committed } else op
      | _ ↦ op
    ]

closed_record : Operation → Operation
closed_record op = record op {
  phase = Phase.done;
  blockers = [];
  blocker_count = 0;
  allowed_actions = [];
}

-- finish, before its put. A lost run writes nothing.
unfoldable pub finish_edit : ℕ → ℕ → Outcome → Operation → Option Operation
unfolding settle_effect closed_record
finish_edit version start (done result v) op = some (
    settle_effect version start
      (record (closed_record op) { status = Status.succeeded; result = result; version = v }))
finish_edit version start (ends RunEnd.lost) op = none
finish_edit version start (ends RunEnd.canceled) op = some (
    settle_effect version start
      (record (closed_record op) { status = Status.cancelled; error = some (lit "cancelled") }))
finish_edit version start (ends (RunEnd.failed code)) op = some (
    settle_effect version start
      (record (closed_record op) { status = Status.failed; error = some code }))

-- setBarrier, before its put.
unfoldable pub barrier_edit : BarrierState → List Action → Operation → Operation
barrier_edit st actions op = record op { barrier = some st; allowed_actions = actions }

-- blocked, where it writes.
unfoldable pub blocked_edit : List Blocker → Operation → Operation
blocked_edit bs op = record op {
  status = (if null bs then Status.running else Status.blocked);
  blockers = bs;
  blocker_count = length bs;
}
