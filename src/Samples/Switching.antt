-- ===== src/Samples/Switching.antt =====
-- A placement's read-only change, switched on by its owner to the end, and switched off.
use shunt.Base.{
  ℕ, ◌≤◌, ◌≡◌, refl, ap, Bool, sym, Str, lit, true, false, none, some, [], ◌∷◌, Result, ok, arith,
}
use shunt.Control.{Status, Phase, BarrierState, Operation}
use shunt.Control.Tracker.{Tracker, barrier_edit}
use shunt.Control.Holds.{read_only_switch}
use shunt.Control.Runs.{committed_state, wrote}
use shunt.Control.Runs.Commits.{SameHold}
use shunt.Control.Node.{Node, Around, directory, writes, saved, blocked}
use shunt.Directory.File.{File}
use shunt.Directory.Types.{Err}
use shunt.Control.ReadOnly.{commit_switch, switch_on, switch_off, wait_start, precondition}
use shunt.Control.ReadOnly.Carried.{switching}
use shunt.Control.Holds.Race.{scope_of}
use shunt.Control.ReadOnly.Reached.{Ready, step_of, switch_off-Ready}
use shunt.Control.ReadOnly.Drains.{Switched, switch_on-Switched}
use shunt.Samples.Operating.{plain_digest, setup, store, alone, draining, held_barrier, nobody}
use shunt.Samples.Draining.{member}
use shunt.Samples.Holding.{held, scope}

-- Nobody else writes, and the one proxy has drained.
abbrev pub around : Around
around = record {
  clock = λ i. i;
  others = λ i. alone;
  sync = λ i. true;
  meanwhile = λ i f. f;
  fleet = λ i. ok (record { identity = nobody; members = member ∷ [] });
  local = λ i. none;
  awake = λ i. true;
  same_blockers = λ a b. true;
  lands = λ i f g. record g { version = 9 };
}

abbrev running : Operation
running = record draining { status = Status.running; phase = Phase.drain }

abbrev node : Node
node = record {
  tracker = record { op = running; lost = false; start_version = 0 };
  store = record store { by_id = (lit "op-1", running) ∷ [] };
  file = held;
  at = 0;
}

abbrev switched : BarrierState
switched = committed_state (record held_barrier { drained_at = 2 }) 9 4

abbrev set : File → Result Err File
set = switching (lit "acme") (lit "photos") (lit "op-1") refl false

ran : (switch_on plain_digest setup around 1 set scope (lit "op-1") node).0 ≡ ok switched
unfolding switch_on shunt.Control.Runs.run_barrier shunt.Control.ReadOnly.carries
    shunt.Control.Holds.carries_barrier shunt.Base.has_prefix shunt.Base.get shunt.Base.str_eq
    shunt.Control.Tracker.check shunt.Control.Node.phase shunt.Control.ReadOnly.drain_round
    shunt.Control.Drain.drain_blockers shunt.Base.find shunt.Control.Node.blocked
    shunt.Control.Node.saved shunt.Control.Tracker.put shunt.Control.Store.update shunt.Base.put
    shunt.Control.ReadOnly.commit_switch read_only_switch shunt.Control.Holds.read_only_commit
    shunt.Control.Tracker.blocked_edit shunt.Control.Tracker.barrier_edit
ran = refl

own :
    (st : BarrierState) → running.barrier ≡ some st → (st.committed ≡ false) × (st.id ≡ lit "op-1")
own st e =
    let same : held_barrier ≡ st = ground (arith, e) in
    (ap (λ s. s.committed) (sym same), ap (λ s. s.id) (sym same))

landed :
    (i : ℕ) (f g : File)
    → read_only_switch (around.lands i f g) (scope_of (lit "acme") (lit "photos"))
      ≡ read_only_switch g (scope_of (lit "acme") (lit "photos"))
unfolding read_only_switch
landed i f g = refl

switch_on-Switched_example :
    (true ≡ true)
    × ((st : BarrierState) × (u : Node) × (st.id ≡ lit "op-1")
        × SameHold st switched
        × Switched around scope (lit "op-1") node st u
        × (commit_switch around scope (lit "op-1") u
            ≡ (wrote 9, (commit_switch around scope (lit "op-1") u).1))
        × ((switch_on plain_digest setup around 1 set scope (lit "op-1") node).1
            ≡ saved plain_digest setup around (barrier_edit switched []) (
                blocked plain_digest setup around []
                  (commit_switch around scope (lit "op-1") u).1)))
switch_on-Switched_example =
    switch_on-Switched plain_digest setup around (lit "acme") (lit "photos") (lit "op-1") refl refl
      false (λ i f. refl) landed node 1 switched
      (switch_on plain_digest setup around 1 set scope (lit "op-1") node).1 own
      (ap (λ r. (r, (switch_on plain_digest setup around 1 set scope (lit "op-1") node).1)) ran)

turned_off : (switch_off plain_digest setup around 1 (λ f. ok f) scope (lit "op-1") node).0 ≡ ok 9
unfolding switch_off wait_start precondition shunt.Control.ReadOnly.version_wait
    shunt.Control.ReadOnly.version_round shunt.Control.ReadOnly.cancel_offered
    shunt.Control.Runs.block_until shunt.Control.Runs.evaluate shunt.Control.Runs.blockers_read
    shunt.Base.get shunt.Base.str_eq shunt.Control.Tracker.check shunt.Control.Node.phase
    shunt.Control.Fence.version_blockers shunt.Control.Node.blocked shunt.Control.Node.allow
    shunt.Control.Node.saved shunt.Control.Tracker.put shunt.Control.Store.update shunt.Base.put
    shunt.Control.Tracker.blocked_edit
turned_off = refl

abbrev off : Node
off = (switch_off plain_digest setup around 1 (λ f. ok f) scope (lit "op-1") node).1

abbrev stepping : Node
stepping = step_of plain_digest setup around (λ f. ok f) scope (lit "op-1") 1 node

switch_off-Ready_example :
    (f : File) × Ready around
      (directory around (wait_start plain_digest setup around node)).version
      0
      stepping.at
    × ◌≡◌ {A = Result Err File} (ok (directory around stepping)) (ok f)
    × (off ≡ writes around f stepping)
    × (9 ≡ off.file.version)
switch_off-Ready_example =
    switch_off-Ready plain_digest setup around (λ f. ok f) scope (lit "op-1") 1 9 node
      (switch_off plain_digest setup around 1 (λ f. ok f) scope (lit "op-1") node).1
      (ap (λ r. (r, (switch_off plain_digest setup around 1 (λ f. ok f) scope (lit "op-1") node).1))
        turned_off)
