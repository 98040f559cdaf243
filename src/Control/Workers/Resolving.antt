-- ===== src/Control/Workers/Resolving.antt =====
-- internal/control/worker.go: that an operator can always close a session that has lapsed.
use shunt.Base.{
  ℕ, suc, ◌≡◌, inl, inr, refl, Str, str_eq, true, false, Option, some, arith, Option-cases,
}
use shunt.Control.{WorkerSession, Scope, Operation, terminal}
use shunt.Control.Workers.Sessions.{identity_eq_refl}
use shunt.Control.Workers.{
  MoverRequest, WorkerHeartbeat, completed, writes, session_of, over_session, enrolled, next_worker,
}
use shunt.Control.Workers.Writes.{worker_resolvable, resolving, resolution}

module _ (args_of : Str → Option MoverRequest) (ttl : ℕ) where
  over_session-resolves :
      (now : ℕ) (cur : WorkerSession) (req : WorkerHeartbeat) (actor : Str)
      → completed cur ≡ false
      → req.resolve ≡ true
      → req.sequence ≡ suc cur.sequence
      → over_session ttl now false cur req actor ≡ writes (session_of now req actor)
  unfolding over_session
  over_session-resolves now cur req actor c r s = ground (arith, c, r, s)

  resolvable-open :
      (now : ℕ) (op : Operation) (cur : WorkerSession)
      → worker_resolvable args_of ttl now op ≡ true
      → op.worker ≡ some cur
      → completed cur ≡ false
  unfolding worker_resolvable
  resolvable-open now op cur h o = ground (arith, h, o)

  resolvable-unfinished :
      (now : ℕ) (op : Operation) → worker_resolvable args_of ttl now op ≡ true → terminal op ≡ false
  unfolding worker_resolvable
  resolvable-unfinished now op h = ground (arith, h)

  resolution-resolving :
      (now : ℕ) (op : Operation) (session who attestation : Str)
      → worker_resolvable args_of ttl now op ≡ true
      → resolution args_of ttl now session who attestation op
        ≡ some (resolving args_of ttl session who attestation op)
  unfolding resolution
  resolution-resolving now op session who attestation h = elim (Option-cases op.worker) [
    | inl o ↦ ground (arith, h, o)
    | inr (cur, o) ↦ ground (arith, h, o, resolvable-open now op cur h o)
  ]

  accepted :
      (now : ℕ) (op : Operation) (sc : Scope) (session who attestation : Str)
      → op.scope ≡ some sc
      → enrolled args_of ttl op session ≡ true
      → worker_resolvable args_of ttl now op ≡ true
      → next_worker args_of ttl now op (resolving args_of ttl session who attestation op) who
        ≡ writes (session_of now (resolving args_of ttl session who attestation op) who)
  unfolding next_worker resolving
  accepted now op sc session who attestation s en h =
      let t = resolvable-unfinished now op h in
      let i = identity_eq_refl op.identity in
      elim (Option-cases op.worker) [
        | inl o ↦ ground (arith, s, en, t, i, o)
        | inr (cur, o) ↦
            let req = resolving args_of ttl session who attestation op in
            let q : req.sequence ≡ suc cur.sequence = ground (arith, o) in
            ground (
              arith,
              s,
              en,
              t,
              i,
              o,
              over_session-resolves now cur req who (resolvable-open now op cur h o) refl q,
            )
      ]

  closed :
      (now : ℕ) (session who attestation : Str) (op : Operation)
      → let w = session_of now (resolving args_of ttl session who attestation op) who in
        (completed w ≡ true)
        × (w.id ≡ session)
        × (w.resolved_by ≡ who)
        × (w.attestation ≡ attestation)
  unfolding session_of resolving completed str_eq
  closed now session who attestation op = (refl, refl, refl, refl)

  -- An operator whose resolution is of the session that the operation is enrolled for, and whom
  -- workerResolvable does not refuse, closes the session: the heartbeat that resolveWorker builds is
  -- accepted, and writes a completed session with the operator's name and attestation.
  pub resolution_closes :
      (now : ℕ) (op : Operation) (sc : Scope) (session who attestation : Str)
      → op.scope ≡ some sc
      → enrolled args_of ttl op session ≡ true
      → worker_resolvable args_of ttl now op ≡ true
      → (req : WorkerHeartbeat) × (w : WorkerSession) × (resolution args_of ttl now session who
            attestation op
          ≡ some req)
        × (next_worker args_of ttl now op req who ≡ writes w)
        × ((completed w ≡ true)
            × (w.id ≡ session)
            × (w.resolved_by ≡ who)
            × (w.attestation ≡ attestation))
  unfolding resolving
  resolution_closes now op sc session who attestation s en h =
      let req = resolving args_of ttl session who attestation op in
      let w = session_of now req who in
      (
        req,
        w,
        resolution-resolving now op session who attestation h,
        accepted now op sc session who attestation s en h,
        closed now session who attestation op,
      )
