-- ===== src/Control/Store/Exclusive.antt =====
-- internal/control/scope.go: which unfinished operations the store holds at one time.
use shunt.Base.{
  ℕ, ◌+◌, ◌≡◌, inl, inr, refl, Str, str_eq_iff, str_eq_sym, Bool, true, false, ◌&&◌, not, none,
  some, List, [], ◌∷◌, ◌++◌, ltb, length, is_some, Map, get, put, remove, get-put, get-remove, ok,
  arith, Bool-cases, Option-cases,
}
use shunt.Control.{Scope, Operation, Fail, terminal}
use shunt.Control.Store.{
  MemOperations, Setup, touches, conflict_with, conflict_of, conflict, drop_record, trim_one,
  trim_from, trim, reserve, add_record, create, update,
}

-- Two operations that are both unfinished and whose scopes conflict.
unfoldable pub clash : Operation → Operation → Bool
unfolding conflict_with
clash a b = elim a.scope [
  | none ↦ false
  | some s ↦ elim b.scope [
    | none ↦ false
    | some t ↦ not (terminal a) && not (terminal b) && is_some (conflict_with s b.id t)
  ]
]

conflict_with_sym :
    (s t : Scope) (x y : Str) → is_some (conflict_with s x t) ≡ is_some (conflict_with t y s)
unfolding conflict_with touches
conflict_with_sym s t x y = ground (arith, str_eq_sym s.resource t.resource)

clash_sym : (a b : Operation) → clash a b ≡ clash b a
unfolding clash
clash_sym a b = elim (Option-cases a.scope) [
  | inl e ↦ elim (Option-cases b.scope) [ inl d ↦ rw (e, d) refl | inr (t, d) ↦ rw (e, d) refl ]
  | inr (s, e) ↦ elim (Option-cases b.scope) [
    | inl d ↦ rw (e, d) refl
    | inr (t, d) ↦ rw (e, d) (ground (arith, conflict_with_sym s t b.id a.id))
  ]
]

conflict-none :
    (sc : Scope) (m : Map Operation) (k : Str) (o : Operation)
    → conflict sc m ≡ none
    → get m k ≡ some o
    → conflict_of sc o ≡ none
unfolding conflict get
conflict-none sc [] k o h g = absurd (cc)
conflict-none sc ((j, p) ∷ m) k o h g = ground (arith, conflict-none sc m k o)

-- A clash of two records of a map is of one record with itself.
abbrev Apart : Map Operation → Type 0
Apart m =
    (i j : Str) (a b : Operation) → get m i ≡ some a → get m j ≡ some b → clash a b ≡ true → i ≡ j

abbrev Within : Map Operation → Map Operation → Type 0
Within m n = (k : Str) (o : Operation) → get m k ≡ some o → get n k ≡ some o

Apart-Within : (m n : Map Operation) → Within m n → Apart n → Apart m
Apart-Within m n w h i j a b gi gj c = h i j a b (w i a gi) (w j b gj) c

remove-Within : (m : Map Operation) (k : Str) → Within (remove m k) m
remove-Within m k j o g = ground (arith, get-remove m k j)

Apart-put :
    (m : Map Operation) (k : Str) (v : Operation)
    → ((j : Str) (o : Operation) → get m j ≡ some o → clash v o ≡ true → k ≡ j)
    → Apart m
    → Apart (put m k v)
Apart-put m k v new h i j a b gi gj c = ground (
  arith,
  get-put m k i v,
  get-put m k j v,
  str_eq_iff k i,
  str_eq_iff k j,
  clash_sym a b,
  new i a,
  new j b,
  h i j a b,
)

clash-conflict_of :
    (a b : Operation) (s : Scope) → a.scope ≡ some s → conflict_of s b ≡ none → clash a b ≡ false
unfolding clash conflict_of
clash-conflict_of a b s e h = elim (Option-cases b.scope) [
  | inl d ↦ rw (e, d) refl
  | inr (t, d) ↦ rw (e, d) (ground (arith, h, d))
]

clash-unscoped : (a b : Operation) → a.scope ≡ none → clash a b ≡ false
unfolding clash
clash-unscoped a b e = rw e refl

-- A record that is ended, or is written over one of its own scope, clashes with no more than that one.
clash_mono :
    (a c b : Operation)
    → c.scope ≡ a.scope
    → (terminal a ≡ true → terminal c ≡ true)
    → clash c b ≡ true
    → clash a b ≡ true
unfolding clash
clash_mono a c b e t h = elim (Option-cases a.scope) [
  | inl d ↦ absurd (ground (arith, e, d, h))
  | inr (s, d) ↦ elim (Option-cases b.scope) [
    | inl f ↦ absurd (ground (arith, e, d, f, h))
    | inr (u, f) ↦ rw (d, f) (ground (arith, e, d, f, h, t))
  ]
]

module _ (sha256_hex : Str → Str) where
  trim_one-Within :
      (now : ℕ) (m n : MemOperations) (id : Str)
      → trim_one sha256_hex now m id ≡ some n
      → Within n.by_id m.by_id
  unfolding trim_one drop_record
  trim_one-Within now m n id e = elim (Option-cases (get m.by_id id)) [
    | inl d ↦ absurd (ground (arith, e, d))
    | inr (op, d) ↦ λ k o g. ground (arith, e, d, remove-Within m.by_id id k o)
  ]

  trim_from-Within :
      (now limit : ℕ) (kept ids : List Str) (m : MemOperations)
      → Within (trim_from sha256_hex now limit kept ids m).by_id m.by_id
  unfolding trim_from
  trim_from-Within now limit kept [] m = λ k o g. g
  trim_from-Within now limit kept (id ∷ ids) m =
      elim (Bool-cases (ltb limit (length kept + length (id ∷ ids)))) [
        | inr e ↦ rw e (λ k o g. g)
        | inl e ↦ rw e (elim (Option-cases (trim_one sha256_hex now m id)) [
          | inl d ↦ rw d (trim_from-Within now limit (kept ++ id ∷ []) ids m)
          | inr (n, d) ↦ rw d (λ k o g.
              trim_one-Within now m n id d k o (trim_from-Within now limit kept ids n k o g))
        ])
      ]

  pub trim-Within :
      (setup : Setup) (now : ℕ) (m : MemOperations)
      → Within (trim sha256_hex setup now m).by_id m.by_id
  unfolding trim
  trim-Within setup now m = trim_from-Within now _ [] m.order m

  reserve-clash :
      (setup : Setup) (m : MemOperations) (op : Operation)
      → reserve sha256_hex setup m op ≡ none
      → (k : Str) (o : Operation) → get m.by_id k ≡ some o
      → clash op o ≡ false
  unfolding reserve
  reserve-clash setup m op h k o g = elim (Option-cases op.scope) [
    | inl e ↦ clash-unscoped op o e
    | inr (sc, e) ↦
        clash-conflict_of op o sc e (conflict-none sc m.by_id k o (ground (arith, h, e)) g)
  ]

  pub create-ok :
      (setup : Setup) (now : ℕ) (m n : MemOperations) (op : Operation)
      → create sha256_hex setup now m op ≡ ok n
      → (reserve sha256_hex setup m op ≡ none)
        × (n ≡ trim sha256_hex setup now (add_record sha256_hex m op))
  unfolding create
  create-ok setup now m n op e = ground arith

  create-Apart :
      (setup : Setup) (now : ℕ) (m n : MemOperations) (op : Operation)
      → create sha256_hex setup now m op ≡ ok n
      → Apart m.by_id
      → Apart n.by_id
  unfolding add_record
  create-Apart setup now m n op e h =
      let (free, made) = create-ok setup now m n op e in
      rw made (
        Apart-Within _ _ (trim-Within setup now (add_record sha256_hex m op)) (
          Apart-put m.by_id op.id op
            (λ j o g c. absurd (ground (arith, c, reserve-clash setup m op free j o g))) h))

  update-Apart :
      (setup : Setup) (now : ℕ) (m n : MemOperations) (cur op : Operation)
      → get m.by_id op.id ≡ some cur
      → op.scope ≡ cur.scope
      → (terminal cur ≡ true → terminal op ≡ true)
      → update sha256_hex setup now m op ≡ ok n
      → Apart m.by_id
      → Apart n.by_id
  unfolding update
  update-Apart setup now m n cur op g s t e h =
      Apart-Within n.by_id _
        (ground (arith, e, g, trim-Within setup now (record m { by_id = put m.by_id op.id op })))
        (Apart-put m.by_id op.id op (λ j o gj c. h op.id j cur o g gj (clash_mono cur op o s t c))
          h)

  -- The writes of the store since the process began: an update keeps the scope of the record that it
  -- replaces, and does not reopen an ended one.
  pub data History (setup : Setup) : MemOperations → Type 0 where
    starts : History setup (record { order = []; by_id = []; idem = [] })
    creates :
        {m n : MemOperations} (now : ℕ) (op : Operation)
        → History setup m
        → create sha256_hex setup now m op ≡ ok n
        → History setup n
    updates :
        {m n : MemOperations} (now : ℕ) (cur op : Operation)
        → History setup m
        → get m.by_id op.id ≡ some cur
        → op.scope ≡ cur.scope
        → (terminal cur ≡ true → terminal op ≡ true)
        → update sha256_hex setup now m op ≡ ok n
        → History setup n

  History-Apart : {setup : Setup} {m : MemOperations} → History setup m → Apart m.by_id
  unfolding get
  History-Apart starts = λ i j a b gi gj c. absurd (cc)
  History-Apart (creates {m} {n} now op r e) = create-Apart _ now m n op e (History-Apart r)
  History-Apart (updates {m} {n} now cur op r g s t e) =
      update-Apart _ now m n cur op g s t e (History-Apart r)

  -- Whatever was created and updated, two unfinished operations of the store whose scopes conflict are
  -- one operation: no scope, and no cluster that a placement's scope touches, has two owners.
  pub one_owner :
      {setup : Setup} {m : MemOperations} (i j : Str) (a b : Operation) (s t : Scope) (e : Fail)
      → History setup m
      → get m.by_id i ≡ some a
      → get m.by_id j ≡ some b
      → a.scope ≡ some s
      → b.scope ≡ some t
      → terminal a ≡ false
      → terminal b ≡ false
      → conflict_with s b.id t ≡ some e
      → i ≡ j
  unfolding clash
  one_owner i j a b s t e r gi gj sa sb la lb c =
      History-Apart r i j a b gi gj (rw (sa, sb) (ground (arith, la, lb, c)))
