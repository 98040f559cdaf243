-- ===== src/Control/Workers/External.antt =====
-- internal/control/worker.go: runExternalMover, the owner's wait for the session of an external mover. The
-- loop has no bound in the source, and here the number of rounds that it may take; the totals of the copy,
-- which are its result, are left out.
pub mod Finished
use shunt.Base.{
  ℕ, zero, suc, ◌+◌, Str, lit, is_empty, str_eq, Bool, true, false, ◌||◌, Option, none, some, List,
  [], ◌∷◌, ◌++◌, if◌then◌else◌, ltb, Result, ok, err,
}
use shunt.Base.Int.{pos}
use shunt.Control.{Action, BlockerCode, Blocker, WorkerSession, Operation, terminal}
use shunt.Control.Store.{Setup, get_record}
use shunt.Control.Records.{taken_over}
use shunt.Control.Tracker.{Tracker, RunEnd, check}
use shunt.Control.Node.{Node, Around, blocked, allow}
use shunt.Control.Runs.{Stop, plain_blocker}
use shunt.Control.Workers.{MoverRequest, worker_unresolved, completed}
use shunt.Control.Workers.Writes.{worker_resolvable}

-- What a poll of the record finds: that the owner has lost it, what the operation waits for, or that its
-- session is completed, with its error.
pub data Polled : Type 0 where
  lost : Polled
  waits : List Action → Blocker → Polled
  ends : List Action → Str → Polled

abbrev counted : BlockerCode → ℕ → Blocker
counted code n = record (plain_blocker code) { count = pos n }

-- The blocker of a session that is not completed.
unfoldable pub session_blocker : ℕ → ℕ → WorkerSession → Blocker
session_blocker ttl now s =
    if str_eq s.state worker_unresolved || ltb (s.last_seen + ttl) now
    then counted BlockerCode.worker_unresolved (s.inflight + s.uncertain)
    else if ltb 0 s.uncertain
    then counted BlockerCode.backend_outcome_unknown s.uncertain
    else counted BlockerCode.old_requests s.inflight

-- The owner stops writing a record that it has lost.
abbrev pub losing : Node → Node
losing w = record w { tracker = record w.tracker { lost = true } }

module _ (args_of : Str → Option MoverRequest) (ttl : ℕ) where
  unfoldable pub polled : ℕ → Str → ℕ → Operation → Polled
  polled now node term op =
      let actions =
        if worker_resolvable args_of ttl now op then Action.resolve_worker ∷ [] else [] in
      if terminal op || taken_over node term op then lost else elim op.worker [
        | none ↦ waits actions (plain_blocker BlockerCode.worker_unresolved)
        | some s ↦
            if completed s then ends actions s.error else waits actions (session_blocker ttl now s)
      ]

  module _ (sha256_hex : Str → Str) (setup : Setup) (around : Around) where
    abbrev pub shown : List Action → List Blocker → Node → Node
    shown actions bs w =
        blocked sha256_hex setup around bs (allow sha256_hex setup around actions w)

    unfoldable pub run_external : ℕ → Node → Result Stop (Unit {0}) × Node
    run_external zero w = (err Stop.out_of_rounds, w)
    run_external (suc n) w = elim (check w.tracker w.store) [
      | some e ↦ (err (Stop.ends e), w)
      | none ↦ elim (get_record w.store w.tracker.op.id) [
        | none ↦ (err (Stop.ends (RunEnd.failed (lit "unknown_operation"))), w)
        | some op ↦ elim (polled (around.clock w.at) setup.node w.tracker.op.owner_term op) [
          | lost ↦ elim (check (losing w).tracker w.store) [
            | some e ↦ (err (Stop.ends e), losing w)
            | none ↦ (ok tt, losing w)
          ]
          | ends actions error ↦
              let w1 = shown actions [] w in
              if is_empty error
              then (ok tt, w1)
              else (err (Stop.ends (RunEnd.failed (lit "external mover: " ++ error))), w1)
          | waits actions b ↦
              let w1 = shown actions (b ∷ []) w in
              let rest = run_external n (record w1 { at = suc w1.at }) in
              if around.awake w1.at then rest else (
                err (Stop.ends (RunEnd.failed (lit "interrupted"))),
                record w1 { at = suc w1.at },
              )
        ]
      ]
    ]
