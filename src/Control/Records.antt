-- ===== src/Control/Records.antt =====
-- internal/control: what changes an operation's record besides its run. barrier.go: notCancellable, the
-- changes of a cancellation, a resume and correctCommitted, and the loops that write them
-- (updateRecord, correctCommitted). operation.go: orphan and beforeFirstWrite.
pub mod Landing
pub mod Endings
use shunt.Base.{
  ℕ, zero, suc, ◌+◌, ◌*◌, Str, str_eq, Bool, true, false, ◌&&◌, ◌||◌, not, Option, none, some, [],
  ◌∷◌, if◌then◌else◌, ltb, ◌==◌, is_some, Result, ok, err, unless, lit,
}
use shunt.Base.Int.{pos}
use shunt.Control.{
  OpKind, Status, Effect, Phase, Action, BlockerCode, BarrierState, Operation, Fail, terminal,
  resumable, carries_on,
}
use shunt.Control.Store.{MemOperations, Setup, update, get_record}

-- cancelPhases
in_cancel_phases : Phase → Bool
in_cancel_phases Phase.unset = true
in_cancel_phases Phase.queued = true
in_cancel_phases Phase.precondition = true
in_cancel_phases Phase.diff = true
in_cancel_phases _ = false

is_commit : Phase → Bool
is_commit Phase.commit = true
is_commit _ = false

-- The cases of notCancellable for an operation that runs a drain barrier.
barrier_not_cancellable : Operation → Bool → Option Fail
unfolding in_cancel_phases is_commit
barrier_not_cancellable op owner_gone = elim op.barrier [
  | none ↦ if in_cancel_phases op.phase then none else some Fail.not_cancellable
  | some b ↦
      if b.committed
      then some Fail.not_cancellable
      else if b.dispatch_started
      then some Fail.not_cancellable
      else if b.hold_version == 0 && not owner_gone
      then some Fail.refused
      else if is_commit op.phase && not owner_gone
      then some Fail.not_cancellable
      else none
]

unfoldable pub not_cancellable : Operation → Bool → Option Fail
unfolding barrier_not_cancellable
not_cancellable op owner_gone = elim op.kind [
  | OpKind.control_join ↦ none
  | OpKind.control_remove ↦ some Fail.not_cancellable
  | OpKind.mover ↦ some Fail.not_cancellable
  | _ ↦
      if not (resumable op.kind)
      then some Fail.not_cancellable
      else barrier_not_cancellable op owner_gone
]

-- Another owner, or another term of it, than the request saw.
unfoldable pub taken_over : Str → ℕ → Operation → Bool
taken_over node term cur = not (str_eq cur.node node && cur.owner_term == term)

unfoldable pub canceled_record : Operation → Operation
canceled_record cur = record cur {
  status = Status.cancelled;
  phase = Phase.done;
  blockers = [];
  blocker_count = 0;
  allowed_actions = [];
  effect_state = Effect.nothing;
  error = some (lit "cancelled");
}

-- The change that cancelOperation writes, checked again on the record that it replaces.
unfoldable pub cancel_edit : Str → ℕ → Bool → Operation → Result Fail Operation
unfolding taken_over canceled_record
cancel_edit node term owner_gone cur =
    if taken_over node term cur
    then err Fail.refused
    else unless (not_cancellable cur owner_gone) (ok (canceled_record cur))

-- A hold that is written, and not yet its change.
abbrev holds : Option BarrierState → Bool
holds none = false
holds (some b) = ltb 0 b.hold_version && not b.committed

-- The change that resumeOperation writes.
unfoldable pub resume_edit : Str → Str → ℕ → Operation → Result Fail Operation
unfolding taken_over
resume_edit own node term op =
    if taken_over node term op
    then err Fail.refused
    else ok (record op {
      node = own;
      owner_term = op.owner_term + 1;
      status = Status.running;
      blockers = [];
      blocker_count = 0;
      allowed_actions = (if holds op.barrier then Action.cancel ∷ [] else []);
    })

-- The change that ResumeOwn writes.
unfoldable pub resume_own_edit : Str → ℕ → Operation → Result Fail Operation
unfolding taken_over
resume_own_edit node term op =
    if taken_over node term op
    then err Fail.refused
    else ok (record op {
      owner_term = op.owner_term + 1;
      status = Status.running;
      blockers = [];
      blocker_count = 0;
    })

-- The change of correctCommitted.
unfoldable pub corrected_record : Operation → Operation
corrected_record op = record op {
  barrier = elim op.barrier [ none ↦ none | some b ↦ some (record b { committed = true }) ];
  status = Status.failed;
  effect_state = Effect.committed;
  error = some (lit "not_cancellable");
}

abbrev pub written : ℕ → Operation → Operation
written now op = record op { sequence = suc op.sequence; updated = now }

before_first_write : Operation → Bool
before_first_write op = if is_some op.barrier then false else elim op.phase [
  | Phase.queued ↦ true
  | Phase.precondition ↦ true
  | Phase.window ↦ true
  | Phase.diff ↦ true
  | _ ↦ false
]

is_pending : Status → Bool
is_pending Status.pending = true
is_pending _ = false

orphan_effect : Operation → Effect
unfolding before_first_write is_pending
orphan_effect op =
    let unknown =
      if is_pending op.status || before_first_write op then Effect.nothing else Effect.uncertain in
    elim op.effect_state [
      | Effect.unset ↦ unknown
      | Effect.nothing ↦ unknown
      | Effect.committed ↦ Effect.committed
      | Effect.uncertain ↦ Effect.uncertain
    ]

-- Orphan
unfoldable pub orphan : ℕ → Operation → Operation
unfolding carries_on orphan_effect
orphan now op =
    if carries_on op
    then record (written now op) {
      status = Status.blocked;
      blockers =
          record { code = BlockerCode.owner_lost; proxy_id = []; incarnation = []; count = pos 0 }
          ∷ [];
      blocker_count = 1;
      allowed_actions =
          (if is_some (not_cancellable op true)
            then Action.resume ∷ []
            else Action.resume ∷ Action.cancel ∷ []);
    }
    else record (written now op) {
      effect_state = orphan_effect op;
      status = Status.failed;
      phase = Phase.done;
      blockers = [];
      blocker_count = 0;
      allowed_actions = [];
      error = some (lit "unavailable");
    }

-- What a loop of reads and writes answers: the record, and whether its write landed.
pub record Written : Type 0 where
  pub op : Operation
  pub wrote : Bool

abbrev pub is_stale : Fail → Bool
is_stale Fail.stale_sequence = true
is_stale _ = false

-- The other writers of the store, at each point between two calls of one request.
abbrev pub World : Type 0
World = ℕ → MemOperations → MemOperations

module _ (sha256_hex : Str → Str) (setup : Setup) (now : ℕ) (others : World) where
  -- updateRecord, with the attempts that are left: 16 in the source.
  unfoldable pub update_record :
      ℕ
      → Str
      → (Operation → Result Fail Operation)
      → MemOperations
      → MemOperations × Result Fail Written
  update_record zero id edit m = (m, err Fail.unavailable)
  update_record (suc n) id edit m =
      let m1 = others (2 * n + 1) m in
      elim (get_record m1 id) [
        | none ↦ (m1, err Fail.not_found)
        | some op ↦
            if terminal op then (m1, ok (record { op = op; wrote = false })) else elim (edit op) [
              | err e ↦ (m1, err e)
              | ok op' ↦
                  let m2 = others (2 * n) m1 in
                  elim (update sha256_hex setup now m2 (written now op')) [
                    | ok m3 ↦ (m3, ok (record { op = written now op'; wrote = true }))
                    | err e ↦ if is_stale e then update_record n id edit m2 else (m2, err e)
                  ]
            ]
      ]

  -- correctCommitted, which writes over an ended record.
  unfoldable pub correct_committed : ℕ → Str → MemOperations → MemOperations × Result Fail Operation
  unfolding corrected_record
  correct_committed zero id m = (m, err Fail.unavailable)
  correct_committed (suc n) id m =
      let m1 = others (2 * n + 1) m in
      elim (get_record m1 id) [
        | none ↦ (m1, err Fail.not_found)
        | some op ↦
            let m2 = others (2 * n) m1 in
            elim (update sha256_hex setup now m2 (written now (corrected_record op))) [
              | ok m3 ↦ (m3, ok (written now (corrected_record op)))
              | err e ↦ if is_stale e then correct_committed n id m2 else (m2, err e)
            ]
      ]
