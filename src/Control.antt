-- ===== src/Control.antt =====
-- The records of internal/control: operation.go, the BarrierState of barrier.go, and the Scope and the
-- refusals of scope.go. A string of a fixed set is a constructor; times are in nanoseconds; a raw JSON
-- value is its text; an error keeps its code and what it names, and not its message. The records are
-- values, so that `clone` needs no counterpart.
pub mod Store
pub mod Records
pub mod Drain
pub mod Holds
pub mod Tracker
pub mod Runs
pub mod Workers
pub mod Fence
pub mod Node
pub mod ReadOnly
use shunt.Base.{ℕ, Str, Bool, true, false, ◌&&◌, ◌||◌, Option, List, is_some}
use shunt.Base.Int.{ℤ}
use shunt.Directory.File.{Identity}

pub data OpKind : Type 0 where
  ramp migrate mover cutover purge finish cluster_remove cluster_read_only : OpKind
  placement_read_only cluster_add cluster_rotate adopt create expand delete : OpKind
  clear_target carve merge watch control_join control_remove : OpKind

pub data Status : Type 0 where
  pending running blocked succeeded failed cancelled : Status

-- `unset` is "", and `nothing` EffectNone.
pub data Effect : Type 0 where
  unset nothing committed uncertain : Effect

pub data Phase : Type 0 where
  unset queued precondition hold drain commit step settle window diff purge mover : Phase
  learner_add learner_added catching_up learner_remove member_remove done : Phase

pub data Action : Type 0 where
  resume cancel resolve_worker : Action

pub data BlockerCode : Type 0 where
  old_requests backend_outcome_unknown proxy_missing install_pending : BlockerCode
  incarnation_unresolved cache_not_durable install_backpressure multipart_open : BlockerCode
  worker_unresolved source_diff owner_lost quorum_unavailable : BlockerCode

pub record Blocker : Type 0 where
  pub code : BlockerCode
  pub proxy_id : Str
  pub incarnation : Str
  pub count : ℤ

pub record ReadOnlyPrior : Type 0 where
  pub read_only : Bool
  pub reject : Bool

pub record BarrierState : Type 0 where
  pub id : Str
  pub scope : Str
  pub kind : Str
  pub hold_version : ℕ
  pub generation : ℕ
  pub committed : Bool
  pub commit_version : ℕ
  pub dispatch_started : Bool
  pub held_at : ℕ
  pub drained_at : ℕ
  pub committed_at : ℕ
  pub prior : Option ReadOnlyPrior

pub record Scope : Type 0 where
  pub resource : Str
  pub generation : ℕ
  pub clusters : List Str

pub record OpProgress : Type 0 where
  pub done : ℕ
  pub total : ℕ
  pub unit : Str

pub record WorkerSession : Type 0 where
  pub id : Str
  pub identity : Identity
  pub generation : ℕ
  pub sequence : ℕ
  pub state : Str
  pub inflight : ℕ
  pub uncertain : ℕ
  pub last_seen : ℕ
  pub completed_at : ℕ
  pub error : Str
  pub resolved_by : Str
  pub attestation : Str

pub record JoinMember : Type 0 where
  pub id : Str
  pub peer_url : Str

pub record CancelRequest : Type 0 where
  pub actor : Str
  pub at : ℕ

pub record Operation : Type 0 where
  pub id : Str
  pub kind : OpKind
  pub placement : Str
  pub cluster : Str
  pub actor : Str
  pub node : Str
  pub identity : Identity
  pub scope : Option Scope
  pub request_id : Str
  pub intent_digest : Str
  pub sequence : ℕ
  pub owner_term : ℕ
  pub created : ℕ
  pub updated : ℕ
  pub status : Status
  pub effect_state : Effect
  pub allowed_actions : List Action
  pub blockers : List Blocker
  pub blocker_count : ℕ
  pub barrier : Option BarrierState
  pub worker : Option WorkerSession
  pub member : Option JoinMember
  pub cancel_request : Option CancelRequest
  pub phase : Phase
  pub waiting_on : List Str
  pub silent : List Str
  pub progress : Option OpProgress
  pub version : ℕ
  pub args : Str
  pub result : Str
  pub error : Option Str

-- What a call of the records or of an operation's routes fails with.
pub data Fail : Type 0 where
  exists unknown_operation stale_sequence not_found unavailable refused : Fail
  not_cancellable cluster_mismatch epoch_mismatch resync_required : Fail
  capacity : ℕ → Fail
  scope_busy : Str → Str → Str → Fail
  generation_conflict : Str → ℕ → ℕ → Fail
  idempotent_replay : Operation → Fail
  idempotency_conflict : Str → Fail

-- Terminal
abbrev pub ended : Status → Bool
ended Status.succeeded = true
ended Status.failed = true
ended Status.cancelled = true
ended Status.pending = false
ended Status.running = false
ended Status.blocked = false

abbrev pub terminal : Operation → Bool
terminal op = ended op.status

abbrev pub is_uncertain : Effect → Bool
is_uncertain Effect.uncertain = true
is_uncertain Effect.nothing = false
is_uncertain Effect.committed = false
is_uncertain Effect.unset = false

-- resumable
abbrev pub resumable : OpKind → Bool
resumable OpKind.ramp = true
resumable OpKind.migrate = true
resumable OpKind.placement_read_only = true
resumable OpKind.cluster_read_only = true
resumable OpKind.cutover = true
resumable OpKind.purge = true
resumable _ = false

abbrev pub is_membership : OpKind → Bool
is_membership OpKind.control_join = true
is_membership OpKind.control_remove = true
is_membership _ = false

-- carriesOn
unfoldable pub carries_on : Operation → Bool
carries_on op = (resumable op.kind && is_some op.barrier) || is_membership op.kind
