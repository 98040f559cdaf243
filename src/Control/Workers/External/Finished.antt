-- ===== src/Control/Workers/External/Finished.antt =====
-- internal/control/worker.go: what the record says where the owner of an external mover stops waiting.
use shunt.Base.{
  ℕ, zero, suc, ◌≡◌, ◌≢◌, ◌⊎◌, inl, inr, refl, ap, ◌∙◌, Str, lit, str_eq, is_empty, true, false,
  ◌||◌, Option, none, some, List, [], ◌∷◌, ◌++◌, get, if◌then◌else◌, ok, err, arith, Bool-cases,
  Option-cases,
}
use shunt.Control.{Action, Blocker, WorkerSession, Operation, terminal}
use shunt.Control.Store.{MemOperations, Setup}
use shunt.Control.Records.{taken_over}
use shunt.Control.Tracker.{Tracker, RunEnd, check}
use shunt.Control.Node.{Node, Around}
use shunt.Control.Runs.{Stop}
use shunt.Control.Workers.{MoverRequest, completed, session_of}
use shunt.Control.Workers.Writes.{worker_resolvable, resolving}
use shunt.Control.Workers.External.{Polled, lost, waits, ends, polled, losing, shown, run_external}

-- A record that is unfinished and its owner's, with a session that is completed with an error.
pub record IsCompleted (m : MemOperations) (id node : Str) (term : ℕ) (error : Str) : Type 0 where
  pub op : Operation
  pub stored : get m.by_id id ≡ some op
  pub unfinished : terminal op ≡ false
  pub own : taken_over node term op ≡ false
  pub session : WorkerSession
  pub worker : op.worker ≡ some session
  pub closed : completed session ≡ true
  pub said : session.error ≡ error

check_lost : (tr : Tracker) (m : MemOperations) → check (record tr { lost = true }) m ≢ none
unfolding check
check_lost tr m e = elim (Option-cases (get m.by_id tr.op.id)) [
  | inl g ↦ ground (arith, e, g)
  | inr (op, g) ↦ ground (arith, e, g)
]

Polled-cases :
    (p : Polled)
    → (p ≡ lost)
      ⊎ ((a : List Action) × (b : Blocker) × (p ≡ waits a b))
      ⊎ ((a : List Action) × (e : Str) × (p ≡ ends a e))
Polled-cases lost = inl refl
Polled-cases (waits a b) = inr (inl (a, b, refl))
Polled-cases (ends a e) = inr (inr (a, e, refl))

none_left : (s : Str) → is_empty s ≡ true → s ≡ []
none_left [] e = refl
none_left (c ∷ s) e = absurd (ground (arith, e))

-- The polls that an owner makes while its record waits: each shows what it waits for, and sleeps.
pub data Waited (poll : Node → Polled) (shows : List Action → List Blocker → Node → Node)
    : Node → Node → Type 0 where
  at_first : {w : Node} → Waited poll shows w w
  again :
      {w u : Node} (a : List Action) (b : Blocker)
      → poll w ≡ waits a b
      → Waited poll shows (record (shows a (b ∷ []) w) { at = suc (shows a (b ∷ []) w).at }) u
      → Waited poll shows w u

module _ (args_of : Str → Option MoverRequest) (ttl : ℕ) where
  polled-IsCompleted :
      (now : ℕ) (node : Str) (term : ℕ) (m : MemOperations) (id : Str) (op : Operation)
      (actions : List Action) (error : Str)
      → get m.by_id id ≡ some op
      → polled args_of ttl now node term op ≡ ends actions error
      → IsCompleted m id node term error
  unfolding polled
  polled-IsCompleted now node term m id op actions error g e =
      elim (Bool-cases (terminal op || taken_over node term op)) [
        | inl l ↦ absurd (ground (arith, e, l))
        | inr l ↦ elim (Option-cases op.worker) [
          | inl o ↦ absurd (ground (arith, e, l, o))
          | inr (s, o) ↦ elim (Bool-cases (completed s)) [
            | inr d ↦ absurd (ground (arith, e, l, o, d))
            | inl d ↦ record {
              op = op;
              stored = g;
              unfinished = ground (arith, l);
              own = ground (arith, l);
              session = s;
              worker = o;
              closed = d;
              said = ground (arith, e, l, o, d);
            }
          ]
        ]
      ]

  module _ (sha256_hex : Str → Str) (setup : Setup) (around : Around) where
    -- What a poll finds, of the record as it is stored then.
    abbrev pub poll : Node → Polled
    poll w = elim (get w.store.by_id w.tracker.op.id) [
      | none ↦ lost
      | some op ↦ polled args_of ttl (around.clock w.at) setup.node w.tracker.op.owner_term op
    ]

    poll-some :
        (w : Node) (op : Operation) (x : Polled)
        → get w.store.by_id w.tracker.op.id ≡ some op
        → polled args_of ttl (around.clock w.at) setup.node w.tracker.op.owner_term op ≡ x
        → poll w ≡ x
    poll-some w op x g p = ground (arith, g, p)

    -- An external mover's operation succeeds only at a poll, after others that each found what it waits
    -- for, that finds its record unfinished and still its owner's, with the session completed and
    -- without an error; its blockers are taken off there, and nothing else is done.
    pub run_external-IsCompleted :
        (n : ℕ) (w w' : Node)
        → run_external args_of ttl sha256_hex setup around n w ≡ (ok tt, w')
        → (u : Node) × (a : List Action) × Waited poll
            (shown args_of ttl sha256_hex setup around)
            w
            u
          × IsCompleted u.store u.tracker.op.id setup.node u.tracker.op.owner_term []
          × (w' ≡ shown args_of ttl sha256_hex setup around a [] u)
    unfolding run_external
    run_external-IsCompleted zero w w' e = absurd (ground (arith, e))
    run_external-IsCompleted (suc n) w w' e = elim (Option-cases (check w.tracker w.store)) [
      | inr (x, own) ↦ absurd (ground (arith, e, own))
      | inl own ↦ elim (Option-cases (get w.store.by_id w.tracker.op.id)) [
        | inl g ↦ absurd (ground (arith, e, own, g))
        | inr (op, g) ↦
            elim (Polled-cases
              (polled args_of ttl (around.clock w.at) setup.node w.tracker.op.owner_term op)) [
                | inl p ↦ elim (Option-cases (check (losing w).tracker w.store)) [
                  | inl q ↦ absurd (check_lost w.tracker w.store q)
                  | inr (x, q) ↦ absurd (ground (arith, e, own, g, p, q))
                ]
                | inr (inl (a, b, p)) ↦
                    let w1 = shown args_of ttl sha256_hex setup around a (b ∷ []) w in
                    elim (Bool-cases (around.awake w1.at)) [
                      | inr y ↦ absurd (ground (arith, e, own, g, p, y))
                      | inl y ↦
                          let (u, c, waited, done, at) =
                            run_external-IsCompleted n (record w1 { at = suc w1.at }) w'
                              (ground (arith, e, own, g, p, y)) in
                          (u, c, again a b (poll-some w op (waits a b) g p) waited, done, at)
                    ]
                | inr (inr (a, error, p)) ↦ elim (Bool-cases (is_empty error)) [
                  | inr z ↦ absurd (ground (arith, e, own, g, p, z))
                  | inl z ↦ (
                    w,
                    a,
                    at_first,
                    polled-IsCompleted (around.clock w.at) setup.node w.tracker.op.owner_term
                        w.store w.tracker.op.id op a [] g (p ∙ ap (ends a) (none_left error z)),
                    ground (arith, e, own, g, p, z),
                  )
                ]
              ]
      ]
    ]

    resolved_ends :
        (now at : ℕ) (node : Str) (term : ℕ) (op was : Operation) (session who attestation : Str)
        → terminal op ≡ false
        → taken_over node term op ≡ false
        → op.worker ≡ some (session_of at (resolving args_of ttl session who attestation was) who)
        → (actions : List Action) × (polled args_of ttl now node term op
            ≡ ends actions (resolving args_of ttl session who attestation was).error)
    unfolding polled session_of resolving completed str_eq
    resolved_ends now at node term op was session who attestation t o k = (
      if worker_resolvable args_of ttl now op then Action.resolve_worker ∷ [] else [],
      ground (arith, t, o, k),
    )

    -- Once the session of an external mover is the one that an operator's resolution writes, its owner, which
    -- still has the unfinished record, ends the operation as failed at the next poll, with that resolution.
    pub run_external-resolved :
        (n at : ℕ) (w : Node) (op was : Operation) (session who attestation : Str)
        → check w.tracker w.store ≡ none
        → get w.store.by_id w.tracker.op.id ≡ some op
        → terminal op ≡ false
        → taken_over setup.node w.tracker.op.owner_term op ≡ false
        → op.worker ≡ some (session_of at (resolving args_of ttl session who attestation was) who)
        → (run_external args_of ttl sha256_hex setup around (suc n) w).0
          ≡ err (
              Stop.ends (
                RunEnd.failed (
                  lit "external mover: worker session "
                  ++ session
                  ++ lit " expired with its copy unfinished; resolved by "
                  ++ who)))
    unfolding run_external resolving
    run_external-resolved n at w op was session who attestation own g t o k =
        let (actions, p) =
          resolved_ends (around.clock w.at) at setup.node w.tracker.op.owner_term op was session who
            attestation t o k in
        ground (arith, own, g, p)
