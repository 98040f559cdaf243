-- ===== src/Control/Records/Endings.antt =====
-- internal/control/barrier.go: what updateRecord, a cancellation and a correction write over, whatever
-- the record's other writers do meanwhile.
use shunt.Base.{
  ℕ, zero, suc, ◌+◌, ◌*◌, ◌<◌, ◌≡◌, ◌≢◌, ◌⊎◌, subst, inl, inr, refl, sym, ap, ◌∙◌, Str, Bool, true,
  false, ◌&&◌, ◌||◌, Option, none, some, get, Result, ok, err, Result-cases, arith, Bool-cases,
  Option-cases,
}
use shunt.Control.{BarrierState, Operation, Fail, terminal, resumable}
use shunt.Control.Store.{MemOperations, Setup, update}
use shunt.Control.Store.Sequence.{Others-get, Keyed, Others-Keyed, AllOthers, After, as_read, turn}
use shunt.Control.Records.Landing.{Landing, one_attempt, turns, update_record-Landing}
use shunt.Control.Records.{
  not_cancellable, barrier_not_cancellable, taken_over, canceled_record, cancel_edit, written,
  Written, is_stale, World, update_record,
}

-- A barrier whose change is committed, or whose deletes have begun.
unfoldable pub in_force : Option BarrierState → Bool
in_force none = false
in_force (some b) = b.committed || b.dispatch_started

module _ (sha256_hex : Str → Str) (setup : Setup) (now : ℕ) (others : World) where
  -- What updateRecord answers from a store `m`, which it leaves as `m'`.
  pub data Answered (id : Str) (edit : Operation → Result Fail Operation) (m m' : MemOperations)
      : Result Fail Written → Type 0 where
    lands :
        (w : Written)
        → w.wrote ≡ true
        → Landing sha256_hex setup now others id edit m m' w.op
        → Answered id edit m m' (ok w)
    ended :
        (o : Operation)
        → After others m m'
        → get m'.by_id id ≡ some o
        → terminal o ≡ true
        → Answered id edit m m' (ok (record { op = o; wrote = false }))
    refuses :
        (o : Operation) (x : Fail)
        → After others m m'
        → get m'.by_id id ≡ some o
        → terminal o ≡ false
        → edit o ≡ err x
        → Answered id edit m m' (err x)

  Answered-turns :
      (i j : ℕ) (id : Str) (edit : Operation → Result Fail Operation) (m m' : MemOperations)
      (answer : Result Fail Written)
      → Answered id edit (others j (others i m)) m' answer
      → Answered id edit m m' answer
  Answered-turns i j id edit m m' _ (lands w h l) =
      lands w h (turns sha256_hex setup now others i j id edit m m' w.op l)
  Answered-turns i j id edit m m' _ (ended o a g t) = ended o (turn i (turn j a)) g t
  Answered-turns i j id edit m m' _ (refuses o x a g t e) = refuses o x (turn i (turn j a)) g t e

  update-err :
      (m : MemOperations) (op : Operation) (x : Fail)
      → update sha256_hex setup now m op ≡ err x
      → (is_stale x ≡ true) ⊎ (get m.by_id op.id ≡ none)
  unfolding update
  update-err m op x u = ground (arith, u)

  stale-behind :
      (m2 : MemOperations) (op' : Operation) (x : Fail) (seq : ℕ)
      → op'.sequence ≡ seq
      → update sha256_hex setup now m2 (written now op') ≡ err x
      → is_stale x ≡ true
      → (cur : Operation) × (get m2.by_id op'.id ≡ some cur) × (cur.sequence ≢ seq)
  unfolding update
  stale-behind m2 op' x seq s u f = elim (Option-cases (get m2.by_id op'.id)) [
    | inl d ↦ absurd (ground (arith, u, d, f))
    | inr (cur, d) ↦ (cur, d, ground (arith, u, d, f, s))
  ]

  -- updateRecord, with a change that leaves the record's id and sequence, on a record that is still there
  -- at its end, and that fewer writes of others than its attempts overtake, never ends for want of
  -- attempts or because another write came first: its change lands over the unfinished record that is
  -- stored at that moment, or it finds the record ended and writes nothing, or it answers the error of
  -- its change of the unfinished record that it read last.
  pub update_record_answers :
      (n : ℕ) (id : Str) (edit : Operation → Result Fail Operation)
      → ((o p : Operation) → edit o ≡ ok p → (p.id ≡ o.id) × (p.sequence ≡ o.sequence))
      → AllOthers sha256_hex setup id others
      → (m m' : MemOperations) (r c : Operation) (answer : Result Fail Written)
      → Keyed sha256_hex setup m
      → get m.by_id id ≡ some r
      → get m'.by_id id ≡ some c
      → c.sequence < r.sequence + n
      → update_record sha256_hex setup now others n id edit m ≡ (m', answer)
      → Answered id edit m m' answer
  unfolding update_record
  update_record_answers zero id edit kept all m m' r c answer keyed g g' few e =
      absurd (ground (arith, g, g', few, e))
  update_record_answers (suc n) id edit kept all m m' r c answer keyed g g' few e =
      let m1 = others (2 * n + 1) m in
      let keyed1 = Others-Keyed sha256_hex setup (all (2 * n + 1) m) keyed in
      elim (Option-cases (get m1.by_id id)) [
        | inl d ↦ absurd (ground (arith, e, d, g'))
        | inr (op, d) ↦ elim (Bool-cases (terminal op)) [
          | inl t ↦
              let at : m1 ≡ m' = ground (arith, e, d, t) in
              let said : ok (record { op = op; wrote = false }) ≡ answer =
                ground (arith, e, d, t) in
              subst (Answered id edit m m') said (
                ended op (subst (After others m) at (turn (2 * n + 1) as_read))
                  (ap (λ x. get x.by_id id) (sym at) ∙ d) t)
          | inr t ↦ elim (Result-cases (edit op)) [
            | inr (x, b) ↦
                let at : m1 ≡ m' = ground (arith, e, d, t, b) in
                let said : err x ≡ answer = ground (arith, e, d, t, b) in
                subst (Answered id edit m m') said (
                  refuses op x (subst (After others m) at (turn (2 * n + 1) as_read))
                    (ap (λ x. get x.by_id id) (sym at) ∙ d) t b)
            | inl (op', b) ↦
                let m2 = others (2 * n) m1 in
                let (ki, ks) = kept op op' b in
                elim (Result-cases (update sha256_hex setup now m2 (written now op'))) [
                  | inl (m3, u) ↦
                      let at : m3 ≡ m' = ground (arith, e, d, t, b, u) in
                      let said : ok (record { op = written now op'; wrote = true }) ≡ answer =
                        ground (arith, e, d, t, b, u) in
                      let l =
                        one_attempt sha256_hex setup now others id edit m1 m2 m3 op op' ki ks keyed1
                          (all (2 * n) m1) d t b u in
                      subst (Answered id edit m m') said (
                        lands (record { op = written now op'; wrote = true }) refl
                          (subst
                            (λ x. Landing sha256_hex setup now others id edit m x (written now op'))
                            at
                            (turns sha256_hex setup now others (2 * n + 1) (2 * n) id edit m m3
                              (written now op') l)))
                  | inr (x, u) ↦ elim (Bool-cases (is_stale x)) [
                    | inr f ↦ elim (update-err m2 (written now op') x u) [
                      | inl s ↦ absurd (ground (arith, f, s))
                      | inr none_there ↦
                          let gone : get m2.by_id id ≡ none =
                            ap (get m2.by_id) (sym (ki ∙ keyed1 id op d)) ∙ none_there in
                          absurd (ground (arith, e, d, t, b, u, f, g', gone))
                    ]
                    | inl f ↦
                        let (cur, held, ahead) = stale-behind m2 op' x op.sequence ks u f in
                        let at_id : get m2.by_id id ≡ some cur =
                          ap (get m2.by_id) (sym (ki ∙ keyed1 id op d)) ∙ held in
                        let fewer : c.sequence < cur.sequence + n = ground (
                          arith,
                          few,
                          ahead,
                          Others-get sha256_hex setup id r op g (all (2 * n + 1) m) d,
                          Others-get sha256_hex setup id op cur d (all (2 * n) m1) at_id,
                        ) in
                        Answered-turns (2 * n + 1) (2 * n) id edit m m' answer (
                          update_record_answers n id edit kept all m2 m' cur c answer
                            (Others-Keyed sha256_hex setup (all (2 * n) m1) keyed1) at_id g' fewer
                            (ground (arith, e, d, t, b, u, f)))
                  ]
                ]
          ]
        ]
      ]

  not_in_force :
      (op : Operation) (gone : Bool)
      → not_cancellable op gone ≡ none
      → (resumable op.kind && in_force op.barrier) ≡ false
  unfolding not_cancellable barrier_not_cancellable in_force
  not_in_force op gone h = ground (arith, h)

  cancel_edit-ok :
      (node : Str) (term : ℕ) (gone : Bool) (o p : Operation)
      → cancel_edit node term gone o ≡ ok p
      → (taken_over node term o ≡ false) × (not_cancellable o gone ≡ none) × (p ≡ canceled_record o)
  unfolding cancel_edit
  cancel_edit-ok node term gone o p e = ground arith

  pub cancel_edit-kept :
      (node : Str) (term : ℕ) (gone : Bool) (o p : Operation)
      → cancel_edit node term gone o ≡ ok p
      → (p.id ≡ o.id) × (p.sequence ≡ o.sequence)
  unfolding canceled_record
  cancel_edit-kept node term gone o p e =
      let (a, b, c) = cancel_edit-ok node term gone o p e in rw c (refl, refl)

  -- A cancellation that lands replaces, in the store that the turns of the others have made since, the
  -- record as it stood then: unfinished, of the owner and term that the request saw, and, where it
  -- has a drain barrier, with its change neither committed nor dispatched.
  pub cancel_uncommitted :
      (n : ℕ) (id node : Str) (term : ℕ) (gone : Bool)
      → AllOthers sha256_hex setup id others
      → (m m' : MemOperations) (w : Written) → Keyed sha256_hex setup m
      → update_record sha256_hex setup now others n id (cancel_edit node term gone) m ≡ (m', ok w)
      → w.wrote ≡ true
      → (held : MemOperations) × (was : Operation) × After others m held
        × (get held.by_id id ≡ some was)
        × (terminal was ≡ false)
        × (taken_over node term was ≡ false)
        × ((resumable was.kind && in_force was.barrier) ≡ false)
        × (w.op ≡ written now (canceled_record was))
        × (update sha256_hex setup now held w.op ≡ ok m')
  cancel_uncommitted n id node term gone all m m' w keyed e h =
      let l =
        update_record-Landing sha256_hex setup now others n id _ (cancel_edit-kept node term gone)
          all m m' w keyed e h in
      let (a, b, c) = cancel_edit-ok node term gone l.was l.became l.made in
      (
        l.held,
        l.was,
        l.after,
        l.found,
        l.unfinished,
        a,
        not_in_force l.was gone b,
        l.as_written ∙ ap (written now) c,
        l.stored,
      )
