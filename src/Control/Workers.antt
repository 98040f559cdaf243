-- ===== src/Control/Workers.antt =====
-- internal/control/worker.go: the session of an out-of-process mover, and what a heartbeat makes of it
-- (nextWorker). The arguments of an operation are JSON, and what they say is an argument, `args_of`; the
-- handlers' answers over HTTP are left out.
pub mod Sessions
pub mod Resolving
pub mod Writes
pub mod External
use shunt.Base.{
  ℕ, ◌+◌, ◌^◌, Str, lit, is_empty, str_eq, Bool, true, false, ◌&&◌, ◌||◌, not, Option, none, some,
  [], if◌then◌else◌, ltb, leb, ◌==◌, length, all,
}
use shunt.Directory.File.{Identity}
use shunt.Control.{OpKind, WorkerSession, Operation, Scope, terminal}
use shunt.Control.Store.{identity_eq}

-- What the checks read of a MoverRequest.
pub record MoverRequest : Type 0 where
  pub external : Bool
  pub session : Str

pub record WorkerHeartbeat : Type 0 where
  pub session : Str
  pub identity : Identity
  pub generation : ℕ
  pub sequence : ℕ
  pub inflight : ℕ
  pub uncertain : ℕ
  pub complete : Bool
  pub error : Str
  pub resolve : Bool
  pub attestation : Str

abbrev pub worker_active : Str
worker_active = lit "active"

abbrev pub worker_completed : Str
worker_completed = lit "completed"

abbrev pub worker_unresolved : Str
worker_unresolved = lit "unresolved"

is_hex : ℕ → Bool
is_hex c = (leb b'0' c && leb c b'9') || (leb b'a' c && leb c b'f')

-- ValidIncarnation, and ValidWorkerSessionID.
unfoldable pub valid_incarnation : Str → Bool
unfolding is_hex
valid_incarnation id = length id == 32 && all is_hex id

max_worker_count : ℕ
max_worker_count = 2 ^ 30

-- What workerHeartbeat asks of a request; a count is a ℕ, so that none is below zero.
unfoldable pub valid_heartbeat : WorkerHeartbeat → Bool
unfolding max_worker_count
valid_heartbeat req =
    valid_incarnation req.session
    && ltb 0 req.sequence
    && ltb 0 req.generation
    && leb req.inflight max_worker_count
    && leb req.uncertain max_worker_count
    && leb (length req.error) 4096
    && leb (length req.attestation) 4096
    && not (req.complete && not (req.inflight == 0 && req.uncertain == 0))
    && not (req.resolve && is_empty req.attestation)

abbrev pub state_of : WorkerHeartbeat → Str
state_of req = if req.complete then worker_completed else worker_active

unfoldable pub same_worker : WorkerSession → WorkerHeartbeat → Str → Bool
same_worker cur req actor =
    str_eq cur.id req.session
    && identity_eq cur.identity req.identity
    && cur.generation == req.generation
    && str_eq cur.state (state_of req)
    && cur.inflight == req.inflight
    && cur.uncertain == req.uncertain
    && str_eq cur.error req.error
    && ((not req.resolve && is_empty cur.resolved_by && is_empty cur.attestation)
        || (req.resolve && str_eq cur.resolved_by actor && str_eq cur.attestation req.attestation))

unfoldable pub completed : WorkerSession → Bool
completed w = str_eq w.state worker_completed

-- Active, and not heard of for longer than the TTL.
unfoldable pub expired : ℕ → ℕ → WorkerSession → Bool
expired ttl now w = str_eq w.state worker_active && ltb (w.last_seen + ttl) now

-- The session that a heartbeat makes of the stored one: the stored one again, or one to be written.
pub data Next : Type 0 where
  refused : Next
  same : WorkerSession → Next
  writes : WorkerSession → Next

-- The session that a heartbeat writes.
unfoldable pub session_of : ℕ → WorkerHeartbeat → Str → WorkerSession
session_of now req actor = record {
  id = req.session;
  identity = req.identity;
  generation = req.generation;
  sequence = req.sequence;
  state = state_of req;
  inflight = req.inflight;
  uncertain = req.uncertain;
  last_seen = now;
  completed_at = (if req.complete then now else 0);
  error = req.error;
  resolved_by = (if req.resolve then actor else []);
  attestation = (if req.resolve then req.attestation else []);
}

-- nextWorker over a stored session, after what it asks of the operation.
unfoldable pub over_session : ℕ → ℕ → Bool → WorkerSession → WorkerHeartbeat → Str → Next
unfolding same_worker completed expired session_of
over_session ttl now ended cur req actor =
    let repeat = req.sequence == cur.sequence && same_worker cur req actor in
    let lapsed = str_eq cur.state worker_unresolved || expired ttl now cur in
    if repeat && completed cur
    then same cur
    else if ended
    then refused
    else if completed cur
    then refused
    else if lapsed && not req.resolve
    then refused
    else if ltb req.sequence cur.sequence
    then refused
    else if req.sequence == cur.sequence
    then (if repeat then same cur else refused)
    else writes (session_of now req actor)

unfoldable pub is_mover : OpKind → Bool
is_mover OpKind.mover = true
is_mover _ = false

module _ (args_of : Str → Option MoverRequest) (ttl : ℕ) where
  -- The operation runs a mover that is enrolled for the session.
  unfoldable pub enrolled : Operation → Str → Bool
  unfolding is_mover
  enrolled op session =
      is_mover op.kind
      && (elim (args_of op.args) [ none ↦ false | some a ↦ a.external && str_eq a.session session ])

  unfoldable pub same_generation : Option Scope → ℕ → Bool
  same_generation none g = false
  same_generation (some sc) g = g == sc.generation

  unfoldable pub next_worker : ℕ → Operation → WorkerHeartbeat → Str → Next
  unfolding enrolled same_generation over_session
  next_worker now op req actor =
      if not (enrolled op req.session)
      then refused
      else if not (identity_eq req.identity op.identity && same_generation op.scope req.generation)
      then refused
      else elim op.worker [
        | none ↦ if terminal op then refused else writes (session_of now req actor)
        | some cur ↦ over_session ttl now (terminal op) cur req actor
      ]
