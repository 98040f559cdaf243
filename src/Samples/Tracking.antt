-- ===== src/Samples/Tracking.antt =====
-- An owner that writes its record, alone and against a cancellation, and a barrier that drains.
use shunt.Base.{
  ℕ, zero, suc, ◌+◌, ◌≤◌, ◌<◌, ◌≡◌, ◌⊎◌, ◌↔◌, inl, inr, refl, sym, ap, Str, lit, Bool, true, false,
  Option, none, some, List, [], ◌∷◌, get, Result, ok, err, Result-cases, arith,
}
use shunt.Control.{BlockerCode, Blocker, BarrierState, Fail, terminal}
use shunt.Control.Store.{MemOperations, update}
use shunt.Control.Store.Sequence.{quiet, updates, Others, AllOthers}
use shunt.Control.Records.{taken_over, canceled_record, World}
use shunt.Control.Tracker.{Tracker, PutEnd, put}
use shunt.Control.Tracker.Writes.{Replaces, put-Replaces}
use shunt.Control.Tracker.Given.{put_given_up}
use shunt.Control.Runs.{Calls, wrote, plain_blocker, committed_state, run_barrier}
use shunt.Control.Runs.Commits.{SameHold, run_barrier_commits}
use shunt.Samples.Operating.{
  plain_digest, setup, store, there, alone, all_alone, store-Keyed, draining, held_barrier,
  canceled,
}

abbrev owner : Tracker
owner = record { op = draining; lost = false; start_version = 0 }

lands : (put plain_digest setup 130 alone owner store).how ≡ PutEnd.landed
unfolding put update get shunt.Base.str_eq
lands = refl

own : taken_over draining.node draining.owner_term draining ≡ false
unfolding taken_over shunt.Base.str_eq
own = refl

put-Replaces_example :
    Replaces plain_digest setup 130 alone
      (lit "op-1")
      draining
      store
      (put plain_digest setup 130 alone owner store)
put-Replaces_example =
    put-Replaces plain_digest setup 130 alone (lit "op-1") draining owner store all_alone
      store-Keyed there refl refl refl own refl refl lands

-- A cancellation that is written whenever it can be.
abbrev updated : MemOperations → Result Fail MemOperations → MemOperations
updated m (ok k) = k
updated m (err e) = m

abbrev canceling : World
canceling i m = updated m (update plain_digest setup 120 m canceled.op)

all_canceling : AllOthers plain_digest setup (lit "op-1") canceling
all_canceling i m = at (update plain_digest setup 120 m canceled.op) refl
  where
    at :
        (r : Result Fail MemOperations)
        → update plain_digest setup 120 m canceled.op ≡ r
        → Others plain_digest setup (lit "op-1") m (updated m r)
    at (ok k) e = updates 120 canceled.op quiet e
    at (err x) e = quiet

gives_up : (put plain_digest setup 130 canceling owner store).how ≡ PutEnd.given_up
unfolding put update get shunt.Base.str_eq shunt.Base.put canceled_record taken_over
gives_up = refl

left :
    get (put plain_digest setup 130 canceling owner store).store.by_id (lit "op-1")
    ≡ some canceled.op
unfolding put update get shunt.Base.str_eq shunt.Base.put canceled_record taken_over
left = refl

put_given_up_example :
    (taken_over draining.node draining.owner_term canceled.op ≡ true)
    ⊎ (terminal canceled.op ≡ true)
    ⊎ (draining.sequence + 17 ≤ canceled.op.sequence)
put_given_up_example =
    put_given_up plain_digest setup 130 canceling (lit "op-1") draining canceled.op owner store
      all_canceling there refl refl gives_up left

-- A world that only counts the sleeps: old requests are out until two have passed.
abbrev requests_out : ℕ → List Blocker
requests_out zero = plain_blocker BlockerCode.old_requests ∷ []
requests_out (suc zero) = plain_blocker BlockerCode.old_requests ∷ []
requests_out (suc (suc w)) = []

abbrev calls : Calls ℕ
calls = record {
  check = λ w. none;
  write_phase = λ p w. w;
  write_blocked = λ bs w. w;
  write_barrier = λ st actions w. w;
  stored = λ w. some held_barrier;
  carries = λ scope id w. (ok true, w);
  drain = λ st w. (ok (requests_out w), w);
  sleep = λ w. (true, suc w);
  generation = λ scope w. 8;
  now = λ w. w;
  prior = λ w. none;
  hold = λ w. (ok 8, w);
  commit = λ w. (wrote 9, w);
}

-- The stored barrier is the operation's, and is not committed.
its_own :
    (st : BarrierState) → calls.stored 0 ≡ some st → (st.committed ≡ false) × (st.id ≡ lit "op-1")
its_own st e =
    let same : held_barrier ≡ st = ground (arith, e) in
    (ap (λ s. s.committed) (sym same), ap (λ s. s.id) (sym same))

drained :
    (st : BarrierState) (w w' : ℕ) → st.id ≡ lit "op-1" → calls.drain st w ≡ (ok [], w') → 2 ≤ w'
drained st zero w' i e = absurd (ground (arith, e))
drained st (suc zero) w' i e = absurd (ground (arith, e))
drained st (suc (suc w)) w' i e = ground (arith, e)

ran :
    run_barrier calls 5 (lit "op-1") held_barrier.scope held_barrier.kind 0
    ≡ (ok (committed_state (record held_barrier { drained_at = 2 }) 9 2), 2)
unfolding run_barrier
ran = refl

run_barrier_commits_example :
    (true ≡ true)
    × ((st : BarrierState) × (st.id ≡ lit "op-1")
        × SameHold st (committed_state (record held_barrier { drained_at = 2 }) 9 2)
        × ((u : ℕ) × (u' : ℕ) × (2 ≤ u)
            × (calls.commit u ≡ (wrote 9, u'))
            × (2
                ≡ calls.write_barrier
                    (committed_state (record held_barrier { drained_at = 2 }) 9 2)
                    []
                    (calls.write_blocked [] u'))))
run_barrier_commits_example =
    run_barrier_commits calls held_barrier.scope (lit "op-1") (λ st w. 2 ≤ w) drained
      (λ st w w' e. absurd (ground (arith, e))) (λ st bs w s. s) (λ st p w s. s)
      (λ st w s. omega (arith, s)) (λ st e w w' s f. absurd (ground (arith, f))) 5 held_barrier.kind
      (committed_state (record held_barrier { drained_at = 2 }) 9 2) 0 2 (λ st e. its_own st e) ran
