-- ===== src/Control/Tracker/Given.antt =====
-- internal/control/operation.go: when an operation's owner takes its record for lost.
use shunt.Base.{
  ℕ, zero, suc, ◌+◌, ◌*◌, ◌≤◌, ◌≡◌, ◌≢◌, ◌⊎◌, inl, inr, refl, sym, ap, ◌∙◌, Str, Bool, true, ◌||◌,
  some, get, err, Result-cases, arith, Bool-cases, Option-cases,
}
use shunt.Control.{Operation, Fail, terminal}
use shunt.Control.Store.{MemOperations, Setup, update}
use shunt.Control.Store.Sequence.{Others-get, AllOthers}
use shunt.Control.Records.{taken_over, written, is_stale, World}
use shunt.Control.Tracker.{Tracker, PutEnd, over_stored, put_again, put}
use shunt.Control.Tracker.Writes.{taken_same}

module _ (sha256_hex : Str → Str) (setup : Setup) (now : ℕ) (others : World) where
  refused :
      (m : MemOperations) (op : Operation) (x : Fail)
      → update sha256_hex setup now m op ≡ err x
      → is_stale x ≡ true
      → (cur : Operation) × (get m.by_id op.id ≡ some cur) × (suc cur.sequence ≢ op.sequence)
  unfolding update
  refused m op x u f = elim (Option-cases (get m.by_id op.id)) [
    | inl d ↦ absurd (ground (arith, u, d, f))
    | inr (cur, d) ↦ (cur, d, ground (arith, u, d, f))
  ]

  abbrev gone : Operation → Operation → Bool
  gone owner c = taken_over owner.node owner.owner_term c || terminal c

  again_given_up :
      (id : Str) (owner : Operation) (tr : Tracker)
      → AllOthers sha256_hex setup id others
      → (n : ℕ) (op : Operation) (m : MemOperations) (cur c : Operation) → op.id ≡ id
      → op.node ≡ owner.node
      → op.owner_term ≡ owner.owner_term
      → get m.by_id id ≡ some cur
      → (put_again sha256_hex setup now others n tr op m).how ≡ PutEnd.given_up
      → get (put_again sha256_hex setup now others n tr op m).store.by_id id ≡ some c
      → (gone owner c ≡ true) ⊎ (cur.sequence + n ≤ c.sequence)
  unfolding put_again over_stored
  again_given_up id owner tr all zero op m cur c i en et g h e = inr (ground (arith, g, e))
  again_given_up id owner tr all (suc n) op m cur c i en et g h e =
      let m1 = others (2 * n + 1) m in
      elim (Option-cases (get m1.by_id op.id)) [
        | inl d ↦
            let there : get m1.by_id id ≡ some c = ground (arith, d, e) in
            absurd (ground (arith, d, there, ap (get m1.by_id) i))
        | inr (stored, d) ↦
            let at_id : get m1.by_id id ≡ some stored = ap (get m1.by_id) (sym i) ∙ d in
            elim (Bool-cases (gone op stored)) [
              | inl t ↦
                  let there : get m1.by_id id ≡ some c = ground (arith, d, t, e) in
                  inl (
                    ground (
                      arith,
                      t,
                      at_id,
                      there,
                      taken_same sha256_hex setup now others op owner stored en et,
                    ))
              | inr t ↦
                  let m2 = others (2 * n) m1 in
                  elim (Result-cases (update sha256_hex setup now m2 (over_stored op stored))) [
                    | inl (m3, u) ↦ absurd (ground (arith, h, d, t, u))
                    | inr (x, u) ↦ elim (Bool-cases (is_stale x)) [
                      | inr f ↦ absurd (ground (arith, h, d, t, u, f))
                      | inl f ↦
                          let (next, held, ahead) = refused m2 (over_stored op stored) x u f in
                          let next_at : get m2.by_id id ≡ some next =
                            ap (get m2.by_id) (sym i) ∙ held in
                          let q : put_again sha256_hex setup now others (suc n) tr op m
                              ≡ put_again sha256_hex setup now others n tr (over_stored op stored)
                                  m2 =
                            ground (arith, d, t, u, f) in
                          let rest : (gone owner c ≡ true) ⊎ (next.sequence + n ≤ c.sequence) =
                            again_given_up id owner tr all n (over_stored op stored) m2 next c i en
                              et next_at (ap (λ p. p.how) (sym q) ∙ h)
                              (ap (λ p. get p.store.by_id id) (sym q) ∙ e) in
                          elim rest [
                            | inl r ↦ inl r
                            | inr r ↦ inr (
                                ground (
                                  arith,
                                  r,
                                  ahead,
                                  Others-get sha256_hex setup id cur stored g (all (2 * n + 1) m)
                                      at_id,
                                  Others-get sha256_hex setup id stored next at_id (all (2 * n) m1)
                                      next_at,
                                ))
                          ]
                    ]
                  ]
            ]
      ]

  -- An owner that read the record `r` takes it for lost only if the record that the store is left
  -- with is ended or another owner's, or if it was written by others 17 times in between.
  pub put_given_up :
      (id : Str) (r c : Operation) (tr : Tracker) (m : MemOperations)
      → AllOthers sha256_hex setup id others
      → get m.by_id id ≡ some r
      → tr.op.id ≡ id
      → tr.op.sequence ≡ r.sequence
      → (put sha256_hex setup now others tr m).how ≡ PutEnd.given_up
      → get (put sha256_hex setup now others tr m).store.by_id id ≡ some c
      → (taken_over tr.op.node tr.op.owner_term c ≡ true)
        ⊎ (terminal c ≡ true)
        ⊎ (r.sequence + 17 ≤ c.sequence)
  unfolding put
  put_given_up id r c tr m all g i s h e =
      let m1 = others (2 * 16) m in
      elim (Bool-cases tr.lost) [
        | inl l ↦ absurd (ground (arith, h, l))
        | inr l ↦ elim (Result-cases (update sha256_hex setup now m1 (written now tr.op))) [
          | inl (m2, u) ↦ absurd (ground (arith, h, l, u))
          | inr (x, u) ↦ elim (Bool-cases (is_stale x)) [
            | inr f ↦ absurd (ground (arith, h, l, u, f))
            | inl f ↦
                let (next, held, ahead) = refused m1 (written now tr.op) x u f in
                let next_at : get m1.by_id id ≡ some next = ap (get m1.by_id) (sym i) ∙ held in
                let q : put sha256_hex setup now others tr m
                    ≡ put_again sha256_hex setup now others 16 tr (written now tr.op) m1 =
                  ground (arith, l, u, f) in
                let rest : (gone tr.op c ≡ true) ⊎ (next.sequence + 16 ≤ c.sequence) =
                  again_given_up id tr.op tr all 16 (written now tr.op) m1 next c i refl refl
                    next_at (ap (λ p. p.how) (sym q) ∙ h)
                    (ap (λ p. get p.store.by_id id) (sym q) ∙ e) in
                ground (
                  arith,
                  rest,
                  ahead,
                  s,
                  Others-get sha256_hex setup id r next g (all (2 * 16) m) next_at,
                )
          ]
        ]
      ]
