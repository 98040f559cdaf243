-- ===== src/Control/Workers/Writes.antt =====
-- internal/control/worker.go: applyWorker, which writes a session by compare-and-swap, and the resolution of
-- a session by an operator: workerResolvable, and the heartbeat of resolveWorker. And workerHeld.
use shunt.Base.{
  ℕ, zero, suc, ◌+◌, ◌*◌, Str, lit, str_eq, Bool, true, false, ◌&&◌, not, Option, none, some, ◌++◌,
  if◌then◌else◌, ltb, leb, is_some, get, Result, ok, err,
}
use shunt.Directory.File.{File}
use shunt.Control.{WorkerSession, Operation, Scope, Fail, terminal}
use shunt.Control.Store.{MemOperations, Setup, update, get_record}
use shunt.Control.Records.{written, is_stale, World}
use shunt.Control.Workers.{
  MoverRequest, WorkerHeartbeat, worker_active, completed, refused, same, writes, is_mover,
  next_worker,
}

-- What applyWorker answers: the session, and whether it was written.
pub record Applied : Type 0 where
  pub worker : WorkerSession
  pub wrote : Bool

module _ (args_of : Str → Option MoverRequest) (ttl : ℕ) where
  -- workerResolvable: whether an operator may resolve the session now.
  unfoldable pub worker_resolvable : ℕ → Operation → Bool
  unfolding is_mover completed
  worker_resolvable now op =
      is_mover op.kind
      && (elim (args_of op.args) [ none ↦ false | some a ↦ a.external ])
      && not (terminal op)
      && (elim op.worker [
        | none ↦ ltb (op.created + ttl) now
        | some w ↦
            not (completed w) && not (str_eq w.state worker_active && leb now (w.last_seen + ttl))
      ])

  unfoldable pub resolved_already : Operation → Str → Str → Str → Option WorkerSession
  unfolding completed
  resolved_already op session who attestation = elim op.worker [
    | none ↦ none
    | some w ↦
        if completed w
          && str_eq w.id session
          && str_eq w.resolved_by who
          && str_eq w.attestation attestation
        then some w
        else none
  ]

  abbrev pub sequence_of : Option WorkerSession → ℕ
  sequence_of none = 0
  sequence_of (some w) = w.sequence

  abbrev generation_in : Option Scope → ℕ
  generation_in none = 0
  generation_in (some sc) = sc.generation

  unfoldable pub resolving : Str → Str → Str → Operation → WorkerHeartbeat
  resolving session who attestation op = record {
    session = session;
    identity = op.identity;
    generation = generation_in op.scope;
    sequence = suc (sequence_of op.worker);
    inflight = 0;
    uncertain = 0;
    complete = true;
    error =
        lit "worker session "
        ++ session
        ++ lit " expired with its copy unfinished; resolved by "
        ++ who;
    resolve = true;
    attestation = attestation;
  }

  -- The heartbeat that resolveWorker applies for an operator.
  unfoldable pub resolution : ℕ → Str → Str → Str → Operation → Option WorkerHeartbeat
  unfolding resolved_already worker_resolvable resolving
  resolution now session who attestation op = elim (resolved_already op session who attestation) [
    | some w ↦ some (record {
      session = w.id;
      identity = w.identity;
      generation = w.generation;
      sequence = w.sequence;
      inflight = 0;
      uncertain = 0;
      complete = true;
      error = w.error;
      resolve = true;
      attestation = w.attestation;
    })
    | none ↦
        if not (worker_resolvable now op) then none else some (resolving session who attestation op)
  ]

  module _ (sha256_hex : Str → Str) (setup : Setup) (now : ℕ) (others : World) where
    -- applyWorker, with the attempts that are left: 16 in the source.
    unfoldable pub apply_worker :
        ℕ
        → Str
        → (Operation → Result Fail WorkerHeartbeat)
        → Str
        → MemOperations
        → MemOperations × Result Fail Applied
    unfolding next_worker
    apply_worker zero id build actor m = (m, err Fail.unavailable)
    apply_worker (suc n) id build actor m =
        let m1 = others (2 * n + 1) m in
        elim (get_record m1 id) [
          | none ↦ (m1, err Fail.unknown_operation)
          | some op ↦ elim (build op) [
            | err e ↦ (m1, err e)
            | ok req ↦ elim (next_worker args_of ttl now op req actor) [
              | refused ↦ (m1, err Fail.refused)
              | same w ↦ (m1, ok (record { worker = w; wrote = false }))
              | writes w ↦
                  let m2 = others (2 * n) m1 in
                  let op' = written now (record op { worker = some w }) in
                  elim (update sha256_hex setup now m2 op') [
                    | ok m3 ↦ (m3, ok (record { worker = w; wrote = true }))
                    | err e ↦ if is_stale e then apply_worker n id build actor m2 else (m2, err e)
                  ]
            ]
          ]
        ]

-- workerHeld: the placement is gone, or a barrier is on it.
unfoldable pub worker_held : File → Str → Bool
worker_held f key = elim (get f.placements key) [ none ↦ true | some p ↦ is_some p.barrier ]
