-- ===== src/Lib.antt =====
-- Shunt is an S3 proxy: it routes the requests of each client bucket to backend clusters by a directory
-- of placements, and moves a bucket, or part of one, from one cluster to another while clients use it.
-- These modules model the parts of it that decide where a key's requests go and when that may change.
--
-- The parts, and the code that each follows:
--   Directory     internal/directory. Types holds the structs of directory.go, legs.go, scopes.go and
--                 transition.go. Owners: checkOwners, OwnerIn, reassign, EvenOwners, LeadingShare.
--                 Scopes: prefix rules, Carve. Settle: settle, IdleLegs, Merge. Guards and
--                 Transition: Apply for a placement that no move is for, and release. Moves and
--                 Start: MoveView, applyMove, startMove, newLegID, and Apply as a whole. File: the
--                 directory file, and the mutations of mutations.go, as functions from a file to a
--                 file or an error. Stamp: identity.go. Schema: the two schemas of a placement,
--                 checkV2, checkSpread, fromV2 and ToV2 (legs.go). Identifiers: validTenant, with
--                 internal/s3/bucketname.go and internal/config/barrier.go. Validate: validate.go.
--   S3            internal/s3: the operations (op.go), the table (Rules) and its reading (classify.go).
--   Migrate       internal/migrate: Class and Mutates, the ramp hash, InRange, InHold, Decide, OwnerOf,
--                 InMove and Narrow (route.go), and the upload id codec (uploadid.go).
--   Admission     internal/admission/admission.go: the gates of a proxy and what a directory's barriers
--                 close; Barriers has the gate keeper of internal/proxy/gates.go, and Acks what a
--                 proxy acknowledges.
--   Control       internal/control. The operation record (operation.go) and BarrierState (barrier.go).
--                 Store: MemOperations and scopes (scope.go). Records: what ends, resumes or orphans a
--                 record. Tracker: an owner's writes of its record, put, check, refresh and finish
--                 (operation.go). Drain: drainBlockers and memberBlockers. Holds: the hold of a barrier
--                 in the directory, its release, and the commit of a read-only change (readonly.go).
--                 Runs: runBarrier and blockUntil. Node: what a run on a node works on. ReadOnly:
--                 runReadOnly (readonly.go), switching on by the run of a barrier over the tracker, the
--                 directory and the fleet, switching off by precondition (ops.go). Workers: the session of
--                 an external mover, and External the wait of its owner, runExternalMover (worker.go).
--                 Fence: versionBlockers and the count of settle (ops.go), fenceRound (fleet.go).
--   Proxy         internal/proxy/merge.go. Listing: mergeListing and fetchListPage over what two backends
--                 answer, a token as the record that it encodes. Its fuel is the pages that a side reads;
--                 one more than a backend has is enough.
--   Base          tests, lists, byte strings, maps, results, float64 and integers that the parts share.
--   Samples       concrete placements, tables and gates, and the theorems at them.
--
-- How the parts meet: an operator's transition changes a placement (Directory.Transition, or a move
-- around it); a proxy classifies a request (S3), takes the class of its operation, narrows a spread
-- placement to the leg or the move of the request's key and decides the cluster (Migrate); a request
-- that may change the bucket first passes its gate (Admission), which a barrier in the directory closes
-- while a change drains. The operation that makes the change (Control) holds its scope in the store of
-- records, runs its barrier through the hold, the drain and the commit, where the drain waits until the
-- acknowledgements of every proxy show the barrier drained; a cancellation ends the record and releases the
-- hold. The owner, an external mover and an operator write one record by compare-and-swap.
--
-- How the code is read:
--   * A string is the list of its bytes. A map is an association list: reading takes the first entry of
--     a key and writing replaces it in place, so no order of a Go map is relied on, but for BucketUser,
--     which returns the first user in the list's order.
--   * A struct is a record and a pointer that may be nil an option. Records are values, so the copies
--     that the code takes before it writes need no counterpart.
--   * An error is a value: its sentinel, or the reason of a TransitionError, without the text.
--   * A float64 is a NaN or a sign and a whole number of units of 2 ^ -1074, with every rounding of the
--     code written out (Base.Float). Infinities are left out: validateRamp refuses them as ratios, and
--     Apply as shares. A NaN converts to an integer as it does on amd64.
--   * Hashes are below 2 ^ 64, with the wrap-around of uint64 written out. Version and count fields are
--     natural numbers and integers: none of them comes near 2 ^ 63.
--   * A method under a lock is one step.
--
-- Bounds: OwnerIn's binary search has the table's length plus one as its fuel, and each round at least
-- halves what is left of the table; a decimal has one round more than its number; newLegID tries one
-- candidate more than there are legs, where the source goes on until one is free and fits legID, which
-- is without end for a cluster whose name does not fit it; a float's exponent has 4096 rounds, more
-- than there are exponents; a record is written in at most 16 attempts, as in the source, and a tracker's
-- write is tried again at most 16 times. The waits of a barrier, of precondition and of the owner of an
-- external mover have no bound in the source: the model's run takes the number of rounds and ends with
-- `out_of_rounds` where they run out.
--
-- A move calls Apply on its two-bucket view, and Apply calls the move: the recursion is one deep, as a
-- view has no owners, move or prefix rules. The model gives that inner call the same body with the branch
-- to a move replaced by an error of its own, `nested`.
--
-- Concurrency: a request that reads a record and then writes it is a function of what the other writers do
-- to the store between its calls, an argument, which the theorems bound by a relation of steps, and a
-- write is related to the store that the others' turns had made by then (Store.Sequence.After); so are
-- the writes of the directory between two reads of it. The run of a barrier goes over an interface of
-- calls (Runs.Calls), each of which takes the world to the world after it, with whatever others did;
-- ReadOnly gives those calls over the parts of one node.
--
-- Parameters: the digest of SHA-256, the comparison of two stored records (reflect.DeepEqual and
-- encoding/json), an identity drawn at random, what a backend answers to the request for a page of its
-- listing, what the JSON of a mover's arguments says, net.ParseIP, and ValidateClusters of
-- internal/config. For the runs on a node: what others write and the fleet reports at each
-- call, the comparison of blockers, and what the store makes of a directory file that it writes.
--
-- Not modelled: HTTP, TLS, streaming and signing, and an S3 request's host, path and escapes; etcd, where a
-- fleet's records are kept; what operations do besides their barriers, but for a read-only change and an
-- external mover (ramps, migrations, cutovers and purges also probe and list backends); the mover's copying;
-- parsing and rendering of YAML, JSON and XML; BucketTag and BackendName, with SHA-256; the configuration,
-- and the directory file on disk.
pub mod Base
pub mod Directory
pub mod S3
pub mod Migrate
pub mod Admission
pub mod Proxy
pub mod Control
pub mod Samples
