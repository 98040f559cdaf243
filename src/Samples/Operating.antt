-- ===== src/Samples/Operating.antt =====
-- Operation records and what is written over them.
use shunt.Base.{
  ℕ, suc, ◌+◌, ◌<◌, ◌≡◌, ◌≢◌, refl, Str, lit, str_eq_iff, Bool, true, false, ◌&&◌, Option, none,
  some, List, [], ◌∷◌, Map, get, Result, ok, err, arith,
}
use shunt.Directory.File.{Identity}
use shunt.Control.{
  OpKind, Status, Effect, Phase, BarrierState, Scope, Operation, Fail, terminal, resumable,
}
use shunt.Control.Store.{MemOperations, Setup, conflict_with, create, update}
use shunt.Control.Store.Exclusive.{starts, creates, one_owner}
use shunt.Control.Store.Sequence.{quiet, Keyed, AllOthers, After}
use shunt.Control.Records.{
  taken_over, canceled_record, cancel_edit, written, Written, update_record,
}
use shunt.Control.Records.Endings.{
  in_force, cancel_edit-kept, Answered, update_record_answers, cancel_uncommitted,
}

abbrev pub nobody : Identity
nobody = record { cluster_id = lit ""; epoch = lit "" }

abbrev pub photos_scope : Scope
photos_scope = record {
  resource = lit "placement:acme/photos";
  generation = 0;
  clusters = lit "new" ∷ lit "old" ∷ [];
}

abbrev pub held_barrier : BarrierState
held_barrier = record {
  id = lit "op-1";
  scope = lit "placement:acme/photos";
  kind = lit "mutations";
  hold_version = 8;
  generation = 8;
  committed = false;
  commit_version = 0;
  dispatch_started = false;
  held_at = 100;
  drained_at = 0;
  committed_at = 0;
  prior = none;
}

-- A read-only change that drains.
abbrev pub draining : Operation
draining = record {
  id = lit "op-1";
  kind = OpKind.placement_read_only;
  placement = lit "acme/photos";
  cluster = lit "";
  actor = lit "ann";
  node = lit "n1";
  identity = nobody;
  scope = some photos_scope;
  request_id = lit "";
  intent_digest = lit "";
  sequence = 4;
  owner_term = 0;
  created = 90;
  updated = 100;
  status = Status.blocked;
  effect_state = Effect.nothing;
  allowed_actions = [];
  blockers = [];
  blocker_count = 0;
  barrier = some held_barrier;
  worker = none;
  member = none;
  cancel_request = none;
  phase = Phase.drain;
  waiting_on = [];
  silent = [];
  progress = none;
  version = 0;
  args = lit "";
  result = lit "";
  error = none;
}

abbrev pub plain_digest : Str → Str
plain_digest s = s

abbrev pub setup : Setup
setup = record { limit = 0; dir = none; capacity = 0; node = lit "n1" }

abbrev empty_store : MemOperations
empty_store = record { order = []; by_id = []; idem = [] }

abbrev pub store : MemOperations
store = record { order = lit "op-1" ∷ []; by_id = (lit "op-1", draining) ∷ []; idem = [] }

store_made : create plain_digest setup 90 empty_store draining ≡ ok store
unfolding create get shunt.Base.put
store_made = refl

pub there : get store.by_id (lit "op-1") ≡ some draining
unfolding get shunt.Base.str_eq
there = refl

itself :
    conflict_with photos_scope (lit "op-1") photos_scope
    ≡ some (Fail.scope_busy (lit "placement:acme/photos") (lit "op-1") (lit ""))
unfolding conflict_with shunt.Base.str_eq
itself = refl

one_owner_example : ◌≡◌ {A = Str} (lit "op-1") (lit "op-1")
one_owner_example =
    one_owner plain_digest (lit "op-1") (lit "op-1") draining draining photos_scope photos_scope
      (Fail.scope_busy (lit "placement:acme/photos") (lit "op-1") (lit ""))
      (creates 90 draining starts store_made) there there refl refl refl refl itself

abbrev pub alone : ℕ → MemOperations → MemOperations
alone i m = m

pub all_alone : AllOthers plain_digest setup (lit "op-1") alone
all_alone i m = quiet

pub store-Keyed : Keyed plain_digest setup store
unfolding get
store-Keyed k o g = ground (arith, g, str_eq_iff (lit "op-1") k)

abbrev pub canceled : Written
canceled = record { op = written 120 (canceled_record draining); wrote = true }

abbrev pub canceled_store : MemOperations
canceled_store = record store { by_id = (lit "op-1", canceled.op) ∷ [] }

cancels :
    update_record plain_digest setup 120 alone 16
      (lit "op-1")
      (cancel_edit (lit "n1") 0 false)
      store
    ≡ (canceled_store, ok canceled)
unfolding update_record get shunt.Base.str_eq cancel_edit shunt.Control.Records.not_cancellable
    update shunt.Base.put
cancels = refl

cancel_uncommitted_example :
    (held : MemOperations) × (was : Operation) × After alone store held
    × (get held.by_id (lit "op-1") ≡ some was)
    × (terminal was ≡ false)
    × (taken_over (lit "n1") 0 was ≡ false)
    × ((resumable was.kind && in_force was.barrier) ≡ false)
    × (canceled.op ≡ written 120 (canceled_record was))
    × (update plain_digest setup 120 held canceled.op ≡ ok canceled_store)
cancel_uncommitted_example =
    cancel_uncommitted plain_digest setup 120 alone 16 (lit "op-1") (lit "n1") 0 false all_alone
      store canceled_store canceled store-Keyed cancels refl

canceled_there : get canceled_store.by_id (lit "op-1") ≡ some canceled.op
unfolding get shunt.Base.str_eq
canceled_there = refl

sooner : canceled.op.sequence < draining.sequence + 16
unfolding canceled_record
sooner = omega arith

update_record_answers_example :
    Answered plain_digest setup 120 alone
      (lit "op-1")
      (cancel_edit (lit "n1") 0 false)
      store
      canceled_store
      (ok canceled)
update_record_answers_example =
    update_record_answers plain_digest setup 120 alone 16 (lit "op-1")
      (cancel_edit (lit "n1") 0 false)
      (cancel_edit-kept plain_digest setup 120 alone (lit "n1") 0 false) all_alone store
      canceled_store draining canceled.op (ok canceled) store-Keyed there canceled_there sooner
      cancels
