-- ===== src/Control/Tracker/Writes.antt =====
-- internal/control/operation.go: what a write of an operation's owner replaces, and when it is given up.
use shunt.Base.{
  ℕ, zero, suc, ◌+◌, ◌*◌, ◌≡◌, subst, ◌⊎◌, inl, inr, refl, sym, ap, ◌∙◌, Str, false, ◌||◌, none,
  some, get, ok, Result-cases, arith, Bool-cases, Option-cases,
}
use shunt.Control.{Operation, terminal}
use shunt.Control.Store.{MemOperations, Setup, update}
use shunt.Control.Store.Sequence.{
  Others, update_exact, Keyed, Others-Keyed, AllOthers, After, as_read, turn,
}
use shunt.Control.Records.{taken_over, written, is_stale, World}
use shunt.Control.Tracker.{Tracker, PutEnd, Put, over_stored, put_again, put}

module _ (sha256_hex : Str → Str) (setup : Setup) (now : ℕ) (others : World) where
  -- A write of the owner's record over the one that was stored.
  pub record Replaces (id : Str) (owner : Operation) (m : MemOperations) (p : Put) : Type 0 where
    pub held : MemOperations
    pub after : After others m held
    pub was : Operation
    pub found : get held.by_id id ≡ some was
    pub unfinished : terminal was ≡ false
    pub same_owner : taken_over owner.node owner.owner_term was ≡ false
    pub worker_kept : p.tracker.op.worker ≡ was.worker
    pub request_kept :
        (was.cancel_request ≡ none) ⊎ (p.tracker.op.cancel_request ≡ was.cancel_request)
    pub stored : update sha256_hex setup now held p.tracker.op ≡ ok p.store

  request_over :
      (op stored : Operation)
      → (stored.cancel_request ≡ none)
        ⊎ ((over_stored op stored).cancel_request ≡ stored.cancel_request)
  unfolding over_stored
  request_over op stored = elim (Option-cases stored.cancel_request) [
    | inl e ↦ inl e
    | inr (r, e) ↦ inr (ground (arith, e))
  ]

  pub taken_same :
      (op owner stored : Operation)
      → op.node ≡ owner.node
      → op.owner_term ≡ owner.owner_term
      → taken_over op.node op.owner_term stored ≡ taken_over owner.node owner.owner_term stored
  taken_same op owner stored e f =
      ap (λ node. taken_over node op.owner_term stored) e
      ∙ ap (λ term. taken_over owner.node term stored) f

  -- What a landed retry replaced.
  again_landing :
      (id : Str) (owner : Operation) (tr : Tracker) (op stored : Operation)
      (m1 m2 m3 : MemOperations)
      → op.id ≡ id
      → Keyed sha256_hex setup m1
      → Others sha256_hex setup id m1 m2
      → get m1.by_id id ≡ some stored
      → terminal stored ≡ false
      → taken_over owner.node owner.owner_term stored ≡ false
      → update sha256_hex setup now m2 (over_stored op stored) ≡ ok m3
      → Replaces id owner m2 (record {
        store = m3;
        tracker = record tr { op = over_stored op stored };
        how = PutEnd.landed;
      })
  unfolding over_stored
  again_landing id owner tr op stored m1 m2 m3 i keyed o g t own u = record {
    held = m2;
    after = as_read;
    was = stored;
    found = update_exact sha256_hex setup now id stored (over_stored op stored) i g o refl u;
    unfinished = t;
    same_owner = own;
    worker_kept = refl;
    request_kept = request_over op stored;
    stored = u;
  }

  -- A turn of the others earlier.
  a_turn :
      (i : ℕ) (id : Str) (owner : Operation) (m : MemOperations) (p : Put)
      → Replaces id owner (others i m) p
      → Replaces id owner m p
  a_turn i id owner m p r = record {
    held = r.held;
    after = turn i r.after;
    was = r.was;
    found = r.found;
    unfinished = r.unfinished;
    same_owner = r.same_owner;
    worker_kept = r.worker_kept;
    request_kept = r.request_kept;
    stored = r.stored;
  }

  put_again-Replaces :
      (id : Str) (owner : Operation) (tr : Tracker)
      → AllOthers sha256_hex setup id others
      → (n : ℕ) (op : Operation) (m : MemOperations) → op.id ≡ id
      → op.node ≡ owner.node
      → op.owner_term ≡ owner.owner_term
      → Keyed sha256_hex setup m
      → (put_again sha256_hex setup now others n tr op m).how ≡ PutEnd.landed
      → Replaces id owner m (put_again sha256_hex setup now others n tr op m)
  unfolding put_again over_stored
  put_again-Replaces id owner tr all zero op m i en et keyed h = absurd (ground (arith, h))
  put_again-Replaces id owner tr all (suc n) op m i en et keyed h =
      let m1 = others (2 * n + 1) m in
      let keyed1 = Others-Keyed sha256_hex setup (all (2 * n + 1) m) keyed in
      elim (Option-cases (get m1.by_id op.id)) [
        | inl d ↦ absurd (ground (arith, h, d))
        | inr (stored, d) ↦
            elim (Bool-cases (taken_over op.node op.owner_term stored || terminal stored)) [
              | inl t ↦ absurd (ground (arith, h, d, t))
              | inr t ↦
                  let m2 = others (2 * n) m1 in
                  let free : (taken_over op.node op.owner_term stored ≡ false)
                      × (terminal stored ≡ false) =
                    ground (arith, t) in
                  elim (Result-cases (update sha256_hex setup now m2 (over_stored op stored))) [
                    | inl (m3, u) ↦
                        let e : put_again sha256_hex setup now others (suc n) tr op m ≡ record {
                          store = m3;
                          tracker = record tr { op = over_stored op stored };
                          how = PutEnd.landed;
                        } =
                          ground (arith, d, t, u) in
                        subst (Replaces id owner m) (sym e) (
                          a_turn (2 * n + 1) id owner m _ (
                            a_turn (2 * n) id owner m1 _ (
                              again_landing id owner tr op stored m1 m2 m3 i keyed1 (all (2 * n) m1)
                                (ap (get m1.by_id) (sym i) ∙ d) free.1
                                (sym (taken_same op owner stored en et) ∙ free.0) u)))
                    | inr (x, u) ↦ elim (Bool-cases (is_stale x)) [
                      | inr f ↦ absurd (ground (arith, h, d, t, u, f))
                      | inl f ↦
                          let e : put_again sha256_hex setup now others (suc n) tr op m
                              ≡ put_again sha256_hex setup now others n tr (over_stored op stored)
                                  m2 =
                            ground (arith, d, t, u, f) in
                          subst (Replaces id owner m) (sym e) (
                            a_turn (2 * n + 1) id owner m _ (
                              a_turn (2 * n) id owner m1 _ (
                                put_again-Replaces id owner tr all n (over_stored op stored) m2 i en
                                  et (Others-Keyed sha256_hex setup (all (2 * n) m1) keyed1)
                                  (ap (λ p. p.how) (sym e) ∙ h))))
                    ]
                  ]
            ]
      ]

  -- A write of an operation's owner that lands replaces, in the store that the turns of the others have
  -- made since the owner read the record `r`, an unfinished record of the same owner and term, and keeps the worker session
  -- that stands there and the request of a cancellation, where there is one.
  pub put-Replaces :
      (id : Str) (r : Operation) (tr : Tracker) (m : MemOperations)
      → AllOthers sha256_hex setup id others
      → Keyed sha256_hex setup m
      → get m.by_id id ≡ some r
      → terminal r ≡ false
      → tr.op.id ≡ id
      → tr.op.sequence ≡ r.sequence
      → taken_over tr.op.node tr.op.owner_term r ≡ false
      → tr.op.worker ≡ r.worker
      → tr.op.cancel_request ≡ r.cancel_request
      → (put sha256_hex setup now others tr m).how ≡ PutEnd.landed
      → Replaces id tr.op m (put sha256_hex setup now others tr m)
  unfolding put
  put-Replaces id r tr m all keyed g t i s own w c h =
      let m1 = others (2 * 16) m in
      elim (Bool-cases tr.lost) [
        | inl l ↦ absurd (ground (arith, h, l))
        | inr l ↦ elim (Result-cases (update sha256_hex setup now m1 (written now tr.op))) [
          | inl (m2, u) ↦
              let e : put sha256_hex setup now others tr m ≡ record {
                store = m2;
                tracker = record tr { op = written now tr.op };
                how = PutEnd.landed;
              } =
                ground (arith, l, u) in
              subst (Replaces id tr.op m) (sym e) (record {
                held = m1;
                after = turn (2 * 16) as_read;
                was = r;
                found =
                    update_exact sha256_hex setup now id r (written now tr.op) i g (all (2 * 16) m)
                      (ap suc s) u;
                unfinished = t;
                same_owner = own;
                worker_kept = w;
                request_kept = inr c;
                stored = u;
              })
          | inr (x, u) ↦ elim (Bool-cases (is_stale x)) [
            | inr f ↦ absurd (ground (arith, h, l, u, f))
            | inl f ↦
                let e : put sha256_hex setup now others tr m
                    ≡ put_again sha256_hex setup now others 16 tr (written now tr.op) m1 =
                  ground (arith, l, u, f) in
                subst (Replaces id tr.op m) (sym e) (
                  a_turn (2 * 16) id tr.op m _ (
                    put_again-Replaces id tr.op tr all 16 (written now tr.op) m1 i refl refl
                      (Others-Keyed sha256_hex setup (all (2 * 16) m) keyed)
                      (ap (λ p. p.how) (sym e) ∙ h)))
          ]
        ]
      ]
