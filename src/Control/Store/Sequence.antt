-- ===== src/Control/Store/Sequence.antt =====
-- internal/control/scope.go: Update's comparison of sequences, between one writer's read of a record
-- and its write.
use shunt.Base.{
  ℕ, suc, ◌<◌, ◌≡◌, ◌≢◌, ◌⊎◌, inl, inr, refl, sym, ap, ◌∙◌, Str, str_eq_iff, some, get, put,
  get-put, ok, arith, Option-cases,
}
use shunt.Control.{Operation}
use shunt.Control.Store.{MemOperations, Setup, trim, create, update, add_record}
use shunt.Control.Store.Exclusive.{trim-Within, create-ok}

-- What a store is after some turns of the other writers.
pub data After (others : ℕ → MemOperations → MemOperations)
    : MemOperations → MemOperations → Type 0 where
  as_read : {m : MemOperations} → After others m m
  turn : {m n : MemOperations} (i : ℕ) → After others (others i m) n → After others m n

module _ (sha256_hex : Str → Str) (setup : Setup) where
  -- What other writers do to a store while one writer holds its copy of the record `id`: any writes,
  -- but no new operation that draws the same id.
  pub data Others (id : Str) (m : MemOperations) : MemOperations → Type 0 where
    quiet : Others id m m
    creates :
        {n k : MemOperations} (now : ℕ) (op : Operation)
        → Others id m n
        → op.id ≢ id
        → create sha256_hex setup now n op ≡ ok k
        → Others id m k
    updates :
        {n k : MemOperations} (now : ℕ) (op : Operation)
        → Others id m n
        → update sha256_hex setup now n op ≡ ok k
        → Others id m k

  pub update-ok :
      (now : ℕ) (m n : MemOperations) (op : Operation)
      → update sha256_hex setup now m op ≡ ok n
      → (cur : Operation) × (get m.by_id op.id ≡ some cur)
        × (op.sequence ≡ suc cur.sequence)
        × (n ≡ trim sha256_hex setup now (record m { by_id = put m.by_id op.id op }))
  unfolding update
  update-ok now m n op e = elim (Option-cases (get m.by_id op.id)) [
    | inl d ↦ absurd (ground (arith, e, d))
    | inr (cur, d) ↦ (cur, d, ground (arith, e, d), ground (arith, e, d))
  ]

  create-get :
      (now : ℕ) (m n : MemOperations) (op : Operation) (id : Str) (c : Operation)
      → op.id ≢ id
      → create sha256_hex setup now m op ≡ ok n
      → get n.by_id id ≡ some c
      → get m.by_id id ≡ some c
  unfolding add_record
  create-get now m n op id c d e g =
      let (free, made) = create-ok sha256_hex setup now m n op e in
      ground (
        arith,
        trim-Within sha256_hex setup now (add_record sha256_hex m op) id c,
        ap (λ x. get x.by_id id) made,
        get-put m.by_id op.id id op,
        str_eq_iff op.id id,
      )

  -- A record that was read is found again as it was, or at a higher sequence.
  pub Others-get :
      (id : Str) (r : Operation) {m n : MemOperations} (c : Operation)
      → get m.by_id id ≡ some r
      → Others id m n
      → get n.by_id id ≡ some c
      → (c ≡ r) ⊎ (r.sequence < c.sequence)
  Others-get id r c g quiet h = inl (ground (arith, g, h))
  Others-get id r c g (creates {n} {k} now op o d e) h =
      Others-get id r c g o (create-get now n k op id c d e h)
  Others-get id r c g (updates {n} {k} now op o e) h =
      let (cur, held, next, made) = update-ok now n k op e in
      ground (
        arith,
        trim-Within sha256_hex setup now (record n { by_id = put n.by_id op.id op }) id c,
        ap (λ x. get x.by_id id) made,
        get-put n.by_id op.id id op,
        str_eq_iff op.id id,
        Others-get id r cur g o,
        Others-get id r c g o,
      )

  -- An update over the sequence that its writer read succeeds only while the store still holds the
  -- record as it was read: no write of another writer is lost.
  pub update_exact :
      {m n k : MemOperations} (now : ℕ) (id : Str) (r op : Operation)
      → op.id ≡ id
      → get m.by_id id ≡ some r
      → Others id m n
      → op.sequence ≡ suc r.sequence
      → update sha256_hex setup now n op ≡ ok k
      → get n.by_id id ≡ some r
  update_exact {m} {n} {k} now id r op i g o s e =
      let (cur, held, next, made) = update-ok now n k op e in
      let at_id : get n.by_id id ≡ some cur = ap (get n.by_id) (sym i) ∙ held in
      elim (Others-get id r cur g o at_id) [
        | inl same ↦ at_id ∙ ap some same
        | inr later ↦ absurd (omega (arith, later, next, s))
      ]

  -- Every record stands under its own id.
  abbrev pub Keyed : MemOperations → Type 0
  Keyed m = (k : Str) (o : Operation) → get m.by_id k ≡ some o → o.id ≡ k

  Keyed-put :
      (now : ℕ) (m : MemOperations) (op : Operation) (n : MemOperations)
      → n ≡ trim sha256_hex setup now m
      → (base : MemOperations) → m.by_id ≡ put base.by_id op.id op
      → Keyed base
      → Keyed n
  Keyed-put now m op n e base p h k o g = ground (
    arith,
    trim-Within sha256_hex setup now m k o,
    ap (λ x. get x.by_id k) e,
    ap (λ x. get x k) p,
    get-put base.by_id op.id k op,
    str_eq_iff op.id k,
    h k o,
  )

  pub update-Keyed :
      (now : ℕ) (m n : MemOperations) (op : Operation)
      → update sha256_hex setup now m op ≡ ok n
      → Keyed m
      → Keyed n
  update-Keyed now m n op e h =
      let (cur, held, next, made) = update-ok now m n op e in
      Keyed-put now (record m { by_id = put m.by_id op.id op }) op n made m refl h

  pub Others-Keyed : {id : Str} {m n : MemOperations} → Others id m n → Keyed m → Keyed n
  unfolding add_record
  Others-Keyed quiet h = h
  Others-Keyed (creates {n} {k} now op o d e) h =
      let (free, made) = create-ok sha256_hex setup now n k op e in
      Keyed-put now (add_record sha256_hex n op) op k made n refl (Others-Keyed o h)
  Others-Keyed (updates {n} {k} now op o e) h = update-Keyed now n k op e (Others-Keyed o h)

  -- The other writers, at each point of a loop of reads and writes.
  abbrev pub AllOthers : Str → (ℕ → MemOperations → MemOperations) → Type 0
  AllOthers id others = (i : ℕ) (m : MemOperations) → Others id m (others i m)
