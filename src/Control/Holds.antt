-- ===== src/Control/Holds.antt =====
-- internal/control: the hold of a drain barrier in the directory. barrier.go: carriesBarrier, releaseHold
-- and the end of cancelOperation; readonly.go: the hold and the commit of a read-only change, for a
-- placement or a cluster; internal/cp/store.go: ClearBarrier by resource. A failed read of the
-- directory, which only ends the request, is not modelled.
pub mod Race
pub mod Cancel
use shunt.Base.{
  zero, Str, is_empty, Bool, true, false, ◌&&◌, not, Option, none, some, [], if◌then◌else◌, ltb,
  has_prefix, get, Result, ok, err,
}
use shunt.Base.Float.{pos}
use shunt.Directory.Types.{State, Barrier, Placement, Err}
use shunt.Directory.Guards.{Transition}
use shunt.Directory.File.{File, placement_key, lacks}
use shunt.Directory.File.Placements.{set_state}
use shunt.Directory.File.Switches.{
  cluster_scheme, placement_scheme, trim_prefix, clear_barrier, clear_cluster_barrier,
  release_read_only,
}
use shunt.Migrate.UploadId.{cut}
use shunt.Control.{OpKind, ReadOnlyPrior, BarrierState, Operation}

-- SplitKey: a key without a slash has an empty bucket.
unfoldable pub split_key : Str → Str × Str
unfolding cut
split_key k = cut k 47

barrier_of_cluster : File → Str → Option Barrier
barrier_of_cluster f name = elim (get f.clusters name) [ none ↦ none | some c ↦ c.barrier ]

abbrev carried_by : Option Placement → Option Barrier
carried_by none = none
carried_by (some p) = p.barrier

-- Lookup, and the barrier there.
barrier_of_placement : File → Str × Str → Option Barrier
barrier_of_placement f (tenant, bucket) =
    carried_by (get f.placements (placement_key tenant bucket))

unfoldable pub carries_barrier : File → Str → Str → Bool
unfolding barrier_of_cluster barrier_of_placement split_key trim_prefix placement_key lacks
carries_barrier f scope id =
    if has_prefix scope cluster_scheme
    then not (lacks (barrier_of_cluster f (trim_prefix scope cluster_scheme)) id)
    else not (lacks (barrier_of_placement f (split_key (trim_prefix scope placement_scheme))) id)

-- ClearBarrier of the store: a placement's key must name a tenant and a bucket.
unfoldable pub clear_scope_barrier : File → Str → Str → Result Err File
unfolding split_key trim_prefix clear_barrier clear_cluster_barrier
clear_scope_barrier f resource id =
    let (tenant, bucket) = split_key (trim_prefix resource placement_scheme) in
    if has_prefix resource cluster_scheme
    then clear_cluster_barrier f (trim_prefix resource cluster_scheme) id
    else if is_empty tenant
    then err Err.not_found
    else if is_empty bucket
    then err Err.not_found
    else clear_barrier f tenant bucket id

-- The transition that releases a held step.
abbrev release_step : Str → Transition
release_step id = record {
  to = State.other [];
  target = [];
  name = [];
  ratio = pos zero;
  prefixes = [];
  cutover = none;
  hold = false;
  release = true;
  complete = false;
  barrier = id;
  range = none;
  leg = [];
  scope = [];
  share = pos zero;
}

abbrev prior_of : Option ReadOnlyPrior → ReadOnlyPrior
prior_of none = record { read_only = false; reject = false }
prior_of (some p) = p

release_by_kind : File → Operation → BarrierState → Result Err File
unfolding split_key set_state release_read_only clear_scope_barrier
release_by_kind f op b =
    let (tenant, bucket) = split_key op.placement in
    let prior = prior_of b.prior in
    elim op.kind [
      | OpKind.ramp ↦ set_state f tenant bucket State.ramping (release_step b.id)
      | OpKind.migrate ↦ set_state f tenant bucket State.ramping (release_step b.id)
      | OpKind.placement_read_only ↦ release_read_only f b.scope b.id prior.read_only prior.reject
      | OpKind.cluster_read_only ↦ release_read_only f b.scope b.id prior.read_only prior.reject
      | OpKind.cutover ↦ clear_scope_barrier f b.scope b.id
      | OpKind.purge ↦ clear_scope_barrier f b.scope b.id
      | _ ↦ ok f
    ]

unfoldable pub release_hold : File → Operation → Result Err File
unfolding release_by_kind
release_hold f op = elim op.barrier [ none ↦ ok f | some b ↦ release_by_kind f op b ]

-- ErrConflict, or a TransitionError.
unfoldable pub cleared_meanwhile : Err → Bool
cleared_meanwhile Err.conflict = true
cleared_meanwhile (Err.illegal from to why) = true
cleared_meanwhile _ = false

-- How a cancellation that ended the record goes on: the hold is released and the operation canceled, the
-- record has to be corrected since its commit was first, or the release failed and is to be retried.
pub data CancelEnd : Type 0 where
  canceled committed_first release_failed : CancelEnd

without_hold : BarrierState → CancelEnd
without_hold b = if ltb 0 b.hold_version then CancelEnd.committed_first else CancelEnd.canceled

-- The release, after the directory was read to carry the barrier; `f` is the directory that it writes.
end_release : File → Operation → BarrierState → CancelEnd × File
unfolding release_hold cleared_meanwhile without_hold
end_release f op b = elim (release_hold f op) [
  | ok f' ↦ (CancelEnd.canceled, f')
  | err e ↦ if cleared_meanwhile e then (without_hold b, f) else (CancelEnd.release_failed, f)
]

-- cancelOperation after the record is ended. It reads the directory `seen`, and writes the directory
-- `now`, which may differ by then.
unfoldable pub end_cancel : File → File → Operation → CancelEnd × File
unfolding carries_barrier end_release
end_cancel seen now op = elim op.barrier [
  | none ↦ (CancelEnd.canceled, now)
  | some b ↦
      if carries_barrier seen b.scope b.id then end_release now op b else (without_hold b, now)
]

-- readOnlySwitch
pub record Switch : Type 0 where
  pub read_only : Bool
  pub reject : Bool
  pub barrier : Option Barrier

abbrev no_switch : Switch
no_switch = record { read_only = false; reject = false; barrier = none }

unfoldable pub read_only_switch : File → Str → Switch
unfolding trim_prefix
read_only_switch f scope =
    if has_prefix scope cluster_scheme
    then elim (get f.clusters (trim_prefix scope cluster_scheme)) [
      | none ↦ no_switch
      | some c ↦ record { read_only = c.read_only; reject = c.reject_writes; barrier = c.barrier }
    ]
    else elim (get f.placements (trim_prefix scope placement_scheme)) [
      | none ↦ no_switch
      | some p ↦ record { read_only = p.read_only; reject = p.reject_writes; barrier = p.barrier }
    ]

-- The hold of a read-only change: `set` is its write, and the hold may be there already.
unfoldable pub read_only_hold : (File → Result Err File) → File → Str → Str → Result Err File
unfolding read_only_switch lacks
read_only_hold set f scope id =
    let s = read_only_switch f scope in
    if s.read_only && not (lacks s.barrier id) then ok f else set f

pub data Commit : Type 0 where
  already gone : Commit
  committed : File → Commit
  failed : Err → Commit

-- The commit of a read-only change.
unfoldable pub read_only_commit : File → Str → Str → Commit
unfolding read_only_switch lacks clear_scope_barrier
read_only_commit f scope id =
    let s = read_only_switch f scope in
    if lacks s.barrier id
    then (if s.read_only then Commit.already else Commit.gone)
    else elim (clear_scope_barrier f scope id) [
      | ok f' ↦ Commit.committed f'
      | err e ↦ Commit.failed e
    ]
