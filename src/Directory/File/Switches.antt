-- ===== src/Directory/File/Switches.antt =====
-- internal/directory/mutations.go: the read-only switches, the drain barriers that go with them, and
-- the watch switch.
pub mod Holds
use shunt.Base.{
  Str, lit, is_empty, Bool, true, false, ◌&&◌, ◌||◌, not, Option, none, some, if◌then◌else◌,
  is_some, has_prefix, drop, length, Result, ok, err, ◌>>=◌,
}
use shunt.Directory.Types.{Barrier, barrier_mutations, Err, conflict}
use shunt.Directory.File.{
  File, placement_key, placement_at, cluster_at, set_placement, set_cluster, lacks, has_other,
}

-- a == b
bool_eq : Bool → Bool → Bool
bool_eq true b = b
bool_eq false b = not b

-- The guards that SetPlacementReadOnly and SetClusterReadOnly share, on the switch as it is.
refuses_switch : Bool → Bool → Option Barrier → Bool → Bool → Str → Bool
unfolding bool_eq
refuses_switch was_read_only was_reject carried read_only reject barrier =
    (not read_only && not (is_empty barrier) && lacks carried barrier)
    || (bool_eq was_read_only read_only
        && bool_eq was_reject (read_only && reject)
        && (is_empty barrier || is_some carried))
    || (read_only && not (is_empty barrier) && has_other carried barrier)

-- The barrier that a switch leaves.
unfoldable pub switch_barrier : Bool → Str → Option Barrier
switch_barrier read_only barrier =
    if read_only && not (is_empty barrier)
    then some (record { id = barrier; kind = barrier_mutations })
    else none

unfoldable pub set_placement_read_only : File → Str → Str → Bool → Bool → Str → Result Err File
unfolding placement_key placement_at refuses_switch switch_barrier
set_placement_read_only f tenant bucket read_only reject barrier =
    let k = placement_key tenant bucket in
    placement_at f k >>= λ p.
    if refuses_switch p.read_only p.reject_writes p.barrier read_only reject barrier
    then err conflict
    else ok (
        set_placement f k (record p {
          read_only = read_only;
          reject_writes = read_only && reject;
          barrier = switch_barrier read_only barrier;
        }))

unfoldable pub set_cluster_read_only : File → Str → Bool → Bool → Str → Result Err File
unfolding cluster_at refuses_switch switch_barrier
set_cluster_read_only f name read_only reject barrier = cluster_at f name >>= λ c.
    if refuses_switch c.read_only c.reject_writes c.barrier read_only reject barrier
    then err conflict
    else ok (
        set_cluster f name (record c {
          read_only = read_only;
          reject_writes = read_only && reject;
          barrier = switch_barrier read_only barrier;
        }))

-- Either message of a placement that carries a barrier is ErrConflict.
unfoldable pub set_barrier : File → Str → Str → Barrier → Result Err File
unfolding placement_key placement_at
set_barrier f tenant bucket b =
    let k = placement_key tenant bucket in
    placement_at f k >>= λ p.
    if is_some p.barrier
    then err conflict
    else ok (set_placement f k (record p { barrier = some b }))

unfoldable pub clear_barrier : File → Str → Str → Str → Result Err File
unfolding placement_key placement_at lacks
clear_barrier f tenant bucket id =
    let k = placement_key tenant bucket in
    placement_at f k >>= λ p.
    if lacks p.barrier id
    then err conflict
    else ok (set_placement f k (record p { barrier = none }))

unfoldable pub clear_cluster_barrier : File → Str → Str → Result Err File
unfolding cluster_at lacks
clear_cluster_barrier f name id = cluster_at f name >>= λ c.
    if lacks c.barrier id
    then err conflict
    else ok (set_cluster f name (record c { barrier = none }))

unfoldable pub set_placement_watch : File → Str → Str → Bool → Result Err File
unfolding placement_key placement_at bool_eq
set_placement_watch f tenant bucket watch =
    let k = placement_key tenant bucket in
    placement_at f k >>= λ p.
    if bool_eq p.watch watch
    then err conflict
    else ok (set_placement f k (record p { watch = watch }))

abbrev pub cluster_scheme : Str
cluster_scheme = lit "cluster:"

abbrev pub placement_scheme : Str
placement_scheme = lit "placement:"

-- strings.TrimPrefix
unfoldable pub trim_prefix : Str → Str → Str
trim_prefix s prefix = if has_prefix s prefix then drop (length prefix) s else s

release_cluster : File → Str → Str → Bool → Bool → Result Err File
unfolding cluster_at lacks
release_cluster f name id read_only reject = cluster_at f name >>= λ c.
    if lacks c.barrier id
    then err conflict
    else ok (
        set_cluster f name
          (record c { read_only = read_only; reject_writes = read_only && reject; barrier = none }))

unfoldable pub release_placement : File → Str → Str → Bool → Bool → Result Err File
unfolding placement_at lacks
release_placement f k id read_only reject = placement_at f k >>= λ p.
    if lacks p.barrier id
    then err conflict
    else ok (
        set_placement f k
          (record p { read_only = read_only; reject_writes = read_only && reject; barrier = none }))

unfoldable pub release_read_only : File → Str → Str → Bool → Bool → Result Err File
unfolding trim_prefix release_cluster release_placement
release_read_only f resource id read_only reject =
    if has_prefix resource cluster_scheme
    then release_cluster f (trim_prefix resource cluster_scheme) id read_only reject
    else release_placement f (trim_prefix resource placement_scheme) id read_only reject
