-- ===== src/Samples/Moving.antt =====
-- A mover's session: a heartbeat, the next one, and an operator's resolution.
use shunt.Base.{
  ℕ, ◌+◌, ◌≤◌, ◌<◌, ◌≡◌, ◌⊎◌, refl, ap, Str, lit, Bool, true, false, Option, none, some, List, [],
  ◌∷◌, ◌++◌, get, Result, ok, err, arith,
}
use shunt.Control.{OpKind, Action, WorkerSession, Operation, terminal}
use shunt.Control.Store.{MemOperations, update}
use shunt.Control.Store.Sequence.{Keyed, AllOthers, After, quiet}
use shunt.Control.Records.{written, taken_over}
use shunt.Control.Workers.{
  MoverRequest, WorkerHeartbeat, completed, same, writes, session_of, enrolled, next_worker,
}
use shunt.Control.Workers.Writes.{worker_resolvable, resolution, resolving, Applied, apply_worker}
use shunt.Control.Workers.Sessions.{Advances, apply_worker-Advances}
use shunt.Control.Node.{Node}
use shunt.Control.Runs.{Stop}
use shunt.Control.Tracker.{RunEnd, check}
use shunt.Control.Workers.External.{shown, run_external}
use shunt.Control.Workers.External.Finished.{
  IsCompleted, Waited, poll, run_external-IsCompleted, run_external-resolved,
}
use shunt.Samples.Switching.{around}
use shunt.Samples.Holding.{held}
use shunt.Control.Workers.Resolving.{resolution_closes}
use shunt.Samples.Operating.{plain_digest, setup, nobody, photos_scope, draining, alone}

abbrev mover_args : Str → Option MoverRequest
mover_args s = some (record { external = true; session = lit "s1" })

abbrev beat : WorkerHeartbeat
beat = record {
  session = lit "s1";
  identity = nobody;
  generation = 0;
  sequence = 1;
  inflight = 3;
  uncertain = 0;
  complete = false;
  error = lit "";
  resolve = false;
  attestation = lit "";
}

abbrev second : WorkerHeartbeat
second = record beat { sequence = 2 }

abbrev copying : Operation
copying = record draining {
  kind = OpKind.mover;
  barrier = none;
  worker = some (session_of 100 beat (lit ""));
}

next :
    next_worker mover_args 60 130 copying second (lit "") ≡ writes (session_of 130 second (lit ""))
unfolding next_worker shunt.Base.str_eq
next = refl

abbrev store : MemOperations
store = record { order = lit "op-1" ∷ []; by_id = (lit "op-1", copying) ∷ []; idem = [] }

abbrev after : MemOperations
after = record store {
  by_id =
      (lit "op-1", written 130 (record copying { worker = some (session_of 130 second (lit "")) }))
      ∷ [];
}

abbrev applied : Applied
applied = record { worker = session_of 130 second (lit ""); wrote = true }

applies :
    apply_worker mover_args 60 plain_digest setup 130 alone 16
      (lit "op-1")
      (λ op. ok second)
      (lit "")
      store
    ≡ (after, ok applied)
unfolding apply_worker update get shunt.Base.str_eq shunt.Base.put
applies = refl

keyed : Keyed plain_digest setup store
unfolding get
keyed k o g = ground (arith, g, shunt.Base.str_eq_iff (lit "op-1") k)

others : AllOthers plain_digest setup (lit "op-1") alone
others i m = quiet

apply_worker-Advances_example :
    (held : MemOperations) × (was : Operation) × After alone store held
    × (get held.by_id (lit "op-1") ≡ some was)
    × (terminal was ≡ false)
    × Advances 60 130 (lit "") was.worker (session_of 130 second (lit ""))
    × (update plain_digest setup 130 held
          (written 130 (record was { worker = some (session_of 130 second (lit "")) }))
        ≡ ok after)
apply_worker-Advances_example =
    apply_worker-Advances mover_args 60 plain_digest setup 130 alone 16 (lit "op-1")
      (λ op. ok second) (lit "") others store after applied keyed applies refl

resolvable : worker_resolvable mover_args 60 200 copying ≡ true
unfolding worker_resolvable shunt.Base.str_eq session_of
resolvable = refl

own : enrolled mover_args 60 copying (lit "s1") ≡ true
unfolding enrolled shunt.Base.str_eq
own = refl

resolution_closes_example :
    (req : WorkerHeartbeat) × (w : WorkerSession) × (resolution mover_args 60 200
        (lit "s1")
        (lit "ann")
        (lit "the host is gone")
        copying
      ≡ some req)
    × (next_worker mover_args 60 200 copying req (lit "ann") ≡ writes w)
    × ((completed w ≡ true)
        × (w.id ≡ lit "s1")
        × (w.resolved_by ≡ lit "ann")
        × (w.attestation ≡ lit "the host is gone"))
resolution_closes_example =
    resolution_closes mover_args 60 200 copying photos_scope (lit "s1") (lit "ann")
      (lit "the host is gone") refl own resolvable

-- The mover has said that its copy is complete.
abbrev copied : Operation
copied = record copying {
  worker = some (session_of 130 (record second { complete = true; inflight = 0 }) (lit ""));
}

abbrev given_up : Operation
given_up = record copying {
  worker = some (
      session_of 200
        (resolving mover_args 60 (lit "s1") (lit "ann") (lit "the host is gone") copying)
        (lit "ann"));
}

abbrev owner : Operation → Node
owner op = record {
  tracker = record { op = copying; lost = false; start_version = 0 };
  store = record store { by_id = (lit "op-1", op) ∷ [] };
  file = held;
  at = 0;
}

abbrev outcome : Operation → Result Stop (Unit {0}) × Node
outcome op = run_external mover_args 60 plain_digest setup around 1 (owner op)

succeeds : (outcome copied).0 ≡ ok tt
unfolding run_external shunt.Control.Tracker.check get shunt.Base.str_eq
    shunt.Control.Workers.External.polled session_of worker_resolvable completed
    shunt.Control.Records.taken_over
succeeds = refl

run_external-IsCompleted_example :
    (u : Node) × (a : List Action) × Waited
      (poll mover_args 60 plain_digest setup around)
      (shown mover_args 60 plain_digest setup around)
      (owner copied)
      u
    × IsCompleted u.store u.tracker.op.id setup.node u.tracker.op.owner_term []
    × ((outcome copied).1 ≡ shown mover_args 60 plain_digest setup around a [] u)
run_external-IsCompleted_example =
    run_external-IsCompleted mover_args 60 plain_digest setup around 1 (owner copied)
      (outcome copied).1 (ap (λ r. (r, (outcome copied).1)) succeeds)

owned : check (owner given_up).tracker (owner given_up).store ≡ none
unfolding check get shunt.Base.str_eq
owned = refl

stored : get (owner given_up).store.by_id (lit "op-1") ≡ some given_up
unfolding get shunt.Base.str_eq
stored = refl

mine : taken_over setup.node copying.owner_term given_up ≡ false
unfolding taken_over shunt.Base.str_eq
mine = refl

run_external-resolved_example :
    (outcome given_up).0
    ≡ err (
        Stop.ends (
          RunEnd.failed (
            lit "external mover: worker session "
            ++ lit "s1"
            ++ lit " expired with its copy unfinished; resolved by "
            ++ lit "ann")))
run_external-resolved_example =
    run_external-resolved mover_args 60 plain_digest setup around 0 200 (owner given_up) given_up
      copying (lit "s1") (lit "ann") (lit "the host is gone") owned stored refl mine refl
