-- ===== src/Control/Node.antt =====
-- internal/control: what an operation's run on its node works on: its tracker (operation.go), and the records,
-- the directory and the fleet that it reads. What others do between two calls is an argument for each call:
-- their writes of the records and of the directory, the fleet as it reports itself, and the clock. So are
-- the comparison of blockers, whose texts are left out, and what the directory's store makes of a file that
-- it writes, with its new version.
pub mod Later
use shunt.Base.{
  ℕ, suc, ◌+◌, ◌*◌, Str, lit, Bool, true, false, Option, List, [], ◌∷◌, ◌&&◌, not, null,
  if◌then◌else◌, ◌==◌, Result,
}
use shunt.Directory.File.{File}
use shunt.Control.{Status, Phase, Action, Blocker, Operation, Fail}
use shunt.Control.Store.{MemOperations, Setup}
use shunt.Control.Records.{World}
use shunt.Control.Tracker.{Tracker, put, attempts, RunEnd, blocked_edit}
use shunt.Control.Drain.{LocalGates}
use shunt.Control.Fence.{Poll}

-- A phase's place in their order.
phase_number : Phase → ℕ
phase_number Phase.unset = 0
phase_number Phase.queued = 1
phase_number Phase.precondition = 2
phase_number Phase.hold = 3
phase_number Phase.drain = 4
phase_number Phase.commit = 5
phase_number Phase.step = 6
phase_number Phase.settle = 7
phase_number Phase.window = 8
phase_number Phase.diff = 9
phase_number Phase.purge = 10
phase_number Phase.mover = 11
phase_number Phase.learner_add = 12
phase_number Phase.learner_added = 13
phase_number Phase.catching_up = 14
phase_number Phase.learner_remove = 15
phase_number Phase.member_remove = 16
phase_number Phase.done = 17

-- What the run works on: its tracker, the records and the directory as last read or written, and the
-- number of calls so far.
pub record Node : Type 0 where
  pub tracker : Tracker
  pub store : MemOperations
  pub file : File
  pub at : ℕ

-- What is around the node at each call. `sync` says whether the directory could be read.
pub record Around : Type 0 where
  pub clock : ℕ → ℕ
  pub others : ℕ → World
  pub sync : ℕ → Bool
  pub meanwhile : ℕ → File → File
  pub fleet : ℕ → Result Fail Poll
  pub local : ℕ → Option LocalGates
  pub awake : ℕ → Bool
  pub same_blockers : List Blocker → List Blocker → Bool
  pub lands : ℕ → File → File → File

abbrev pub unreadable : RunEnd
unreadable = RunEnd.failed (lit "directory")

-- The status that blocked writes with blockers, or without any.
has_status : Bool → Status → Bool
has_status none_left Status.running = none_left
has_status none_left Status.blocked = not none_left
has_status none_left _ = false

action_number : Action → ℕ
action_number Action.resume = 0
action_number Action.cancel = 1
action_number Action.resolve_worker = 2

same_actions : List Action → List Action → Bool
unfolding action_number
same_actions [] [] = true
same_actions [] (b ∷ bs) = false
same_actions (a ∷ more) [] = false
same_actions (a ∷ more) (b ∷ bs) = action_number a == action_number b && same_actions more bs

module _ (around : Around) where
  -- What the directory holds when it is read next.
  abbrev pub directory : Node → File
  directory w = around.meanwhile w.at w.file

  abbrev pub reads : Node → Node
  reads w = record w { file = directory w; at = suc w.at }

  abbrev pub writes : File → Node → Node
  writes f w = record w { file = around.lands w.at (directory w) f; at = suc w.at }

module _ (sha256_hex : Str → Str) (setup : Setup) (around : Around) where
  -- A put, and what others write to the records after it.
  unfoldable pub saved : (Operation → Operation) → Node → Node
  saved edit w =
      let p =
        put sha256_hex setup (around.clock w.at) (around.others w.at)
          (record w.tracker { op = edit w.tracker.op }) w.store in
      record w {
        tracker = p.tracker;
        store = around.others w.at (2 * attempts + 1) p.store;
        at = suc w.at;
      }

  -- The phase, written on a change.
  unfoldable pub phase : Phase → Node → Node
  unfolding phase_number
  phase p w =
      if phase_number w.tracker.op.phase == phase_number p
      then w
      else saved (λ op. record op { phase = p }) w

  -- blocked: the blockers and the status that they make, written on a change.
  unfoldable pub blocked : List Blocker → Node → Node
  unfolding has_status
  blocked bs w =
      if has_status (null bs) w.tracker.op.status && around.same_blockers w.tracker.op.blockers bs
      then w
      else saved (blocked_edit bs) w

  -- allow: the actions that the record accepts, written on a change.
  unfoldable pub allow : List Action → Node → Node
  unfolding same_actions
  allow actions w =
      if same_actions w.tracker.op.allowed_actions actions
      then w
      else saved (λ op. record op { allowed_actions = actions }) w
