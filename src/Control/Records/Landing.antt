-- ===== src/Control/Records/Landing.antt =====
-- internal/control/barrier.go: what a write of updateRecord lands on, whatever the record's other writers do.
use shunt.Base.{
  ℕ, zero, suc, ◌+◌, ◌*◌, ◌≡◌, inl, inr, refl, ap, ◌∙◌, Str, true, false, some, get, Result, ok,
  Result-cases, arith, Bool-cases, Option-cases,
}
use shunt.Control.{Operation, Fail, terminal}
use shunt.Control.Store.{MemOperations, Setup, update}
use shunt.Control.Store.Sequence.{
  Others, update_exact, Keyed, Others-Keyed, AllOthers, After, as_read, turn,
}
use shunt.Control.Records.{written, Written, is_stale, World, update_record}

module _ (sha256_hex : Str → Str) (setup : Setup) (now : ℕ) (others : World) where
  -- What a write of updateRecord replaced.
  pub record Landing (id : Str) (edit : Operation → Result Fail Operation) (m m' : MemOperations)
      (op : Operation) : Type 0 where
    pub held : MemOperations
    pub after : After others m held
    pub was : Operation
    pub became : Operation
    pub found : get held.by_id id ≡ some was
    pub unfinished : terminal was ≡ false
    pub made : edit was ≡ ok became
    pub as_written : op ≡ written now became
    pub stored : update sha256_hex setup now held op ≡ ok m'

  pub one_attempt :
      (id : Str) (edit : Operation → Result Fail Operation) (m1 m2 m3 : MemOperations)
      (op op' : Operation)
      → (op'.id ≡ op.id)
      → (op'.sequence ≡ op.sequence)
      → Keyed sha256_hex setup m1
      → Others sha256_hex setup id m1 m2
      → get m1.by_id id ≡ some op
      → terminal op ≡ false
      → edit op ≡ ok op'
      → update sha256_hex setup now m2 (written now op') ≡ ok m3
      → Landing id edit m2 m3 (written now op')
  one_attempt id edit m1 m2 m3 op op' ki ks keyed o g t e u = record {
    held = m2;
    after = as_read;
    was = op;
    became = op';
    found =
        update_exact sha256_hex setup now id op (written now op') (ki ∙ keyed id op g) g o
          (ap suc ks) u;
    unfinished = t;
    made = e;
    as_written = refl;
    stored = u;
  }

  -- Two turns of the others earlier.
  pub turns :
      (i j : ℕ) (id : Str) (edit : Operation → Result Fail Operation) (m m' : MemOperations)
      (op : Operation)
      → Landing id edit (others j (others i m)) m' op
      → Landing id edit m m' op
  turns i j id edit m m' op l = record {
    held = l.held;
    after = turn i (turn j l.after);
    was = l.was;
    became = l.became;
    found = l.found;
    unfinished = l.unfinished;
    made = l.made;
    as_written = l.as_written;
    stored = l.stored;
  }

  pub update_record-Landing :
      (n : ℕ) (id : Str) (edit : Operation → Result Fail Operation)
      → ((o p : Operation) → edit o ≡ ok p → (p.id ≡ o.id) × (p.sequence ≡ o.sequence))
      → AllOthers sha256_hex setup id others
      → (m m' : MemOperations) (w : Written) → Keyed sha256_hex setup m
      → update_record sha256_hex setup now others n id edit m ≡ (m', ok w)
      → w.wrote ≡ true
      → Landing id edit m m' w.op
  unfolding update_record
  update_record-Landing zero id edit kept all m m' w keyed e h = absurd (ground (arith, e))
  update_record-Landing (suc n) id edit kept all m m' w keyed e h =
      let m1 = others (2 * n + 1) m in
      let keyed1 = Others-Keyed sha256_hex setup (all (2 * n + 1) m) keyed in
      elim (Option-cases (get m1.by_id id)) [
        | inl d ↦ absurd (ground (arith, e, d))
        | inr (op, d) ↦ elim (Bool-cases (terminal op)) [
          | inl t ↦ absurd (ground (arith, e, d, t, h))
          | inr t ↦ elim (Result-cases (edit op)) [
            | inr (x, b) ↦ absurd (ground (arith, e, d, t, b))
            | inl (op', b) ↦
                let m2 = others (2 * n) m1 in
                elim (Result-cases (update sha256_hex setup now m2 (written now op'))) [
                  | inl (m3, u) ↦
                      let a : m' ≡ m3 = ground (arith, e, d, t, b, u) in
                      let c : w.op ≡ written now op' = ground (arith, e, d, t, b, u) in
                      rw (a, c)
                        (turns (2 * n + 1) (2 * n) id edit m m3 (written now op') (
                          one_attempt id edit m1 m2 m3 op op' (kept op op' b).0 (kept op op' b).1
                            keyed1 (all (2 * n) m1) d t b u))
                  | inr (x, u) ↦ elim (Bool-cases (is_stale x)) [
                    | inr f ↦ absurd (ground (arith, e, d, t, b, u, f))
                    | inl f ↦ turns (2 * n + 1) (2 * n) id edit m m' w.op (
                        update_record-Landing n id edit kept all m2 m' w
                          (Others-Keyed sha256_hex setup (all (2 * n) m1) keyed1)
                          (ground (arith, e, d, t, b, u, f)) h)
                  ]
                ]
          ]
        ]
      ]
