-- ===== src/Control/Workers/Sessions.antt =====
-- internal/control/worker.go: which session a heartbeat may write over.
use shunt.Base.{
  ℕ, zero, suc, ◌+◌, ◌*◌, ◌≤◌, ◌<◌, ◌≡◌, ◌⊎◌, inl, inr, refl, sym, ap, ◌∙◌, subst, Str, str_eq,
  str_eq_refl, Bool, true, false, ◌&&◌, ◌||◌, Option, none, some, get, Result, ok, Result-cases,
  arith, Bool-cases, Option-cases,
}
use shunt.Control.{WorkerSession, Operation, Fail, terminal}
use shunt.Control.Store.{MemOperations, Setup, update, identity_eq}
use shunt.Control.Store.Sequence.{
  update_exact, Keyed, Others-Keyed, AllOthers, After, as_read, turn,
}
use shunt.Control.Records.{written, is_stale, World}
use shunt.Control.Workers.{
  MoverRequest, WorkerHeartbeat, worker_unresolved, completed, expired, same_worker, Next, refused,
  same, writes, session_of, state_of, over_session, enrolled, same_generation, next_worker,
}
use shunt.Control.Workers.Writes.{Applied, apply_worker}

-- Its last interval is not closed: it expired, or is marked unresolved.
unfoldable pub lapsed : ℕ → ℕ → WorkerSession → Bool
lapsed ttl now cur = str_eq cur.state worker_unresolved || expired ttl now cur

-- What a session that is written has of the one before it.
abbrev pub Advances : ℕ → ℕ → Str → Option WorkerSession → WorkerSession → Type 0
Advances ttl now actor none w = Unit
Advances ttl now actor (some cur) w =
    (completed cur ≡ false)
    × (cur.sequence < w.sequence)
    × ((lapsed ttl now cur ≡ false) ⊎ (w.resolved_by ≡ actor))

over_session-writes :
    (ttl now : ℕ) (ended : Bool) (cur w : WorkerSession) (req : WorkerHeartbeat) (actor : Str)
    → over_session ttl now ended cur req actor ≡ writes w
    → (w ≡ session_of now req actor)
      × (ended ≡ false)
      × (completed cur ≡ false)
      × (cur.sequence < w.sequence)
      × ((lapsed ttl now cur ≡ false) ⊎ (w.resolved_by ≡ actor))
unfolding over_session lapsed
over_session-writes ttl now ended cur w req actor e = ground (arith, e)

Next-cases :
    (x : Next)
    → (x ≡ refused) ⊎ ((w : WorkerSession) × (x ≡ same w)) ⊎ ((w : WorkerSession) × (x ≡ writes w))
Next-cases refused = inl refl
Next-cases (same w) = inr (inl (w, refl))
Next-cases (writes w) = inr (inr (w, refl))

pub identity_eq_refl : (i : shunt.Directory.File.Identity) → identity_eq i i ≡ true
identity_eq_refl i = ground (arith, str_eq_refl i.cluster_id, str_eq_refl i.epoch)

module _ (args_of : Str → Option MoverRequest) (ttl : ℕ) where
  next_worker-writes :
      (now : ℕ) (op : Operation) (req : WorkerHeartbeat) (actor : Str) (w : WorkerSession)
      → next_worker args_of ttl now op req actor ≡ writes w
      → (enrolled args_of ttl op req.session ≡ true)
        × ((identity_eq req.identity op.identity
              && same_generation args_of ttl op.scope req.generation)
            ≡ true)
        × (w ≡ session_of now req actor)
        × (terminal op ≡ false)
        × Advances ttl now actor op.worker w
  unfolding next_worker
  next_worker-writes now op req actor w e =
      elim (Bool-cases (enrolled args_of ttl op req.session)) [
        | inr n ↦ absurd (ground (arith, e, n))
        | inl n ↦
            elim (Bool-cases (
              identity_eq req.identity op.identity
              && same_generation args_of ttl op.scope req.generation)) [
                | inr i ↦ absurd (ground (arith, e, n, i))
                | inl i ↦ elim (Option-cases op.worker) [
                  | inl o ↦ (
                    n,
                    i,
                    ground (arith, e, n, i, o),
                    ground (arith, e, n, i, o),
                    subst (λ o. Advances ttl now actor o w) (sym o) tt,
                  )
                  | inr (cur, o) ↦
                      let step : over_session ttl now (terminal op) cur req actor ≡ writes w =
                        ground (arith, e, n, i, o) in
                      let (made, t, c, s, r) =
                        over_session-writes ttl now (terminal op) cur w req actor step in
                      (n, i, made, t, subst (λ o. Advances ttl now actor o w) (sym o) (c, s, r))
                ]
              ]
      ]

  same_worker-session_of :
      (now : ℕ) (req : WorkerHeartbeat) (actor : Str)
      → same_worker (session_of now req actor) req actor ≡ true
  unfolding same_worker session_of
  same_worker-session_of now req actor = elim (Bool-cases req.resolve) [
    | inl r ↦ ground (
      arith,
      r,
      str_eq_refl req.session,
      identity_eq_refl req.identity,
      str_eq_refl (state_of req),
      str_eq_refl req.error,
      str_eq_refl actor,
      str_eq_refl req.attestation,
    )
    | inr r ↦ ground (
      arith,
      r,
      str_eq_refl req.session,
      identity_eq_refl req.identity,
      str_eq_refl (state_of req),
      str_eq_refl req.error,
    )
  ]

  over_session-again :
      (now later : ℕ) (req : WorkerHeartbeat) (actor : Str)
      → later ≤ now + ttl
      → over_session ttl later false (session_of now req actor) req actor
        ≡ same (session_of now req actor)
  unfolding over_session session_of str_eq
  over_session-again now later req actor le =
      let repeats = same_worker-session_of now req actor in
      elim (Bool-cases req.complete) [
        | inl c ↦ ground (arith, c, repeats)
        | inr c ↦ ground (arith, c, repeats, le)
      ]

  -- A heartbeat that wrote its session is answered with it again, and writes nothing, when it is
  -- repeated within the TTL.
  pub next_worker_again :
      (now later : ℕ) (op : Operation) (req : WorkerHeartbeat) (actor : Str) (w : WorkerSession)
      → later ≤ now + ttl
      → next_worker args_of ttl now op req actor ≡ writes w
      → next_worker args_of ttl later (record op { worker = some w }) req actor ≡ same w
  unfolding next_worker
  next_worker_again now later op req actor w le e =
      let (n, i, made, t, adv) = next_worker-writes now op req actor w e in
      subst (λ v. next_worker args_of ttl later (record op { worker = some v }) req actor ≡ same v)
        (sym made) (ground (arith, n, i, t, over_session-again now later req actor le))

  module _ (sha256_hex : Str → Str) (setup : Setup) (now : ℕ) (others : World) where
    -- A session that applyWorker writes goes over the session that the record has at that very write,
    -- in the store that the turns of the others have made since: the record is unfinished, and a session there is
    -- not completed and has a lower sequence, and where it lapsed the new one names who resolved it.
    pub apply_worker-Advances :
        (n : ℕ) (id : Str) (build : Operation → Result Fail WorkerHeartbeat) (actor : Str)
        → AllOthers sha256_hex setup id others
        → (m m' : MemOperations) (a : Applied) → Keyed sha256_hex setup m
        → apply_worker args_of ttl sha256_hex setup now others n id build actor m ≡ (m', ok a)
        → a.wrote ≡ true
        → (held : MemOperations) × (was : Operation) × After others m held
          × (get held.by_id id ≡ some was)
          × (terminal was ≡ false)
          × Advances ttl now actor was.worker a.worker
          × (update sha256_hex setup now held (written now (record was { worker = some a.worker }))
              ≡ ok m')
    unfolding apply_worker
    apply_worker-Advances zero id build actor all m m' a keyed e h = absurd (ground (arith, e))
    apply_worker-Advances (suc n) id build actor all m m' a keyed e h =
        let m1 = others (2 * n + 1) m in
        let keyed1 = Others-Keyed sha256_hex setup (all (2 * n + 1) m) keyed in
        elim (Option-cases (get m1.by_id id)) [
          | inl d ↦ absurd (ground (arith, e, d))
          | inr (op, d) ↦ elim (Result-cases (build op)) [
            | inr (x, b) ↦ absurd (ground (arith, e, d, b))
            | inl (req, b) ↦ elim (Next-cases (next_worker args_of ttl now op req actor)) [
              | inl x ↦ absurd (ground (arith, e, d, b, x))
              | inr (inl (w, x)) ↦ absurd (ground (arith, e, d, b, x, h))
              | inr (inr (w, x)) ↦
                  let m2 = others (2 * n) m1 in
                  let op' = written now (record op { worker = some w }) in
                  elim (Result-cases (update sha256_hex setup now m2 op')) [
                    | inl (m3, u) ↦
                        let at : m3 ≡ m' = ground (arith, e, d, b, x, u) in
                        let made : w ≡ a.worker = ground (arith, e, d, b, x, u) in
                        let (en, i, made', t, adv) = next_worker-writes now op req actor w x in
                        (
                          m2,
                          op,
                          turn (2 * n + 1) (turn (2 * n) as_read),
                          update_exact sha256_hex setup now id op op' (keyed1 id op d) d
                              (all (2 * n) m1) refl u,
                          t,
                          subst (Advances ttl now actor op.worker) made adv,
                          subst
                              (λ v.
                                update sha256_hex setup now m2
                                  (written now (record op { worker = some v }))
                                ≡ ok m')
                              made (u ∙ ap ok at),
                        )
                    | inr (x2, u) ↦ elim (Bool-cases (is_stale x2)) [
                      | inr f ↦ absurd (ground (arith, e, d, b, x, u, f))
                      | inl f ↦
                          let (held, was, later, found, left, adv, stored) =
                            apply_worker-Advances n id build actor all m2 m' a
                              (Others-Keyed sha256_hex setup (all (2 * n) m1) keyed1)
                              (ground (arith, e, d, b, x, u, f)) h in
                          (
                            held,
                            was,
                            turn (2 * n + 1) (turn (2 * n) later),
                            found,
                            left,
                            adv,
                            stored,
                          )
                    ]
                  ]
            ]
          ]
        ]
