-- ===== src/Directory/Scopes/Longest.antt =====
-- internal/directory/scopes.go: the longest rule of a set of rules, which the search of Placement.Scope
-- looks for, before and after a rule is added.
use shunt.Base.{
  ◌≤◌, ◌≡◌, ◌≢◌, ◌⊎◌, inl, inr, refl, sym, ap, ◌∙◌, Str, str_eq, str_eq_iff, has_prefix,
  has_prefix_chain, has_prefix_eq, has_prefix_trans, Bool, true, false, ◌&&◌, not, Option, none,
  some, List, [], ◌∷◌, length, arith, Bool-cases, Option-cases,
}
use shunt.Directory.Types.{Owner, PrefixRule}
use shunt.Directory.Scopes.{longer, best_rule, rule_table}

abbrev pub In : PrefixRule → List PrefixRule → Type 0
In r [] = ⊥
In r (x ∷ xs) = (r ≡ x) ⊎ In r xs

-- The answer of a search: no rule passes, or this one does and none that passes is longer.
abbrev pub IsLongest : (PrefixRule → Bool) → List PrefixRule → Option PrefixRule → Type 0
IsLongest p rs none = (r : PrefixRule) → In r rs → p r ≡ false
IsLongest p rs (some b) =
    In b rs
    × (p b ≡ true)
    × ((r : PrefixRule) → In r rs → p r ≡ true → length r.prefix ≤ length b.prefix)

-- No two rules of a set have the same prefix.
pub record IsUnique (rs : List PrefixRule) : Type 0 where
  pub same : (r s : PrefixRule) → In r rs → In s rs → r.prefix ≡ s.prefix → r ≡ s

-- The search from a best rule so far: the answer is that one or a rule of the list.
record IsBest (p : PrefixRule → Bool) (best : Option PrefixRule) (rs : List PrefixRule)
    (o : Option PrefixRule) : Type 0 where
  nothing : o ≡ none → (best ≡ none) × ((r : PrefixRule) → In r rs → p r ≡ false)
  found : (b : PrefixRule) → o ≡ some b → (best ≡ some b) ⊎ (In b rs × (p b ≡ true))
  over : (b c : PrefixRule) → o ≡ some b → best ≡ some c → length c.prefix ≤ length b.prefix
  longest :
      (b r : PrefixRule) → o ≡ some b → In r rs → p r ≡ true → length r.prefix ≤ length b.prefix

module _ (p : PrefixRule → Bool) (x : PrefixRule) (rs : List PrefixRule)
    (o : Option PrefixRule) where
  -- The rule is passed over: it fails, or the best one is as long.
  IsBest-skip :
      (best : Option PrefixRule)
      → ((best ≡ none) → p x ≡ false)
      → ((c : PrefixRule) → best ≡ some c → p x ≡ true → length x.prefix ≤ length c.prefix)
      → IsBest p best rs o
      → IsBest p best (x ∷ rs) o
  IsBest-skip best fails short i = record {
    nothing = λ e. (
      (i.nothing e).0,
      λ r m. elim m [ inl f ↦ rw f (fails (i.nothing e).0) | inr t ↦ (i.nothing e).1 r t ],
    );
    found = λ b e. elim (i.found b e) [ inl f ↦ inl f | inr m ↦ inr (inr m.0, m.1) ];
    over = i.over;
    longest = λ b r e m t. elim m [ inl f ↦ at_head b r e f t | inr n ↦ i.longest b r e n t ];
  }
    where
      at_head :
          (b r : PrefixRule) → o ≡ some b → r ≡ x → p r ≡ true → length r.prefix ≤ length b.prefix
      at_head b r e f t = elim (Option-cases best) [
        | inl none_ ↦ absurd (false_true (sym (fails none_) ∙ ap p (sym f) ∙ t))
        | inr (c, some_) ↦
            rw f (omega (arith, short c some_ (sym (ap p f) ∙ t), i.over b c e some_))
      ]
        where
          false_true : false ≡ true → ⊥
          false_true q = cc

  -- The rule becomes the best one.
  IsBest-take :
      (best : Option PrefixRule)
      → p x ≡ true
      → ((c : PrefixRule) → best ≡ some c → length c.prefix ≤ length x.prefix)
      → IsBest p (some x) rs o
      → IsBest p best (x ∷ rs) o
  IsBest-take best t longer_ i = record {
    nothing = λ e. absurd (some_none (i.nothing e).0);
    found = λ b e. elim (i.found b e) [
      | inl f ↦ inr (inl (head f), rw (head f) t)
      | inr m ↦ inr (inr m.0, m.1)
    ];
    over = λ b c e f. omega (arith, i.over b x e refl, longer_ c f);
    longest =
        λ b r e m q. elim m [ inl f ↦ rw f (i.over b x e refl) | inr n ↦ i.longest b r e n q ];
  }
    where
      some_none : some x ≡ none → ⊥
      some_none q = cc

      head : {b : PrefixRule} → some x ≡ some b → b ≡ x
      head q = cc

best_rule-IsBest :
    (p : PrefixRule → Bool) (best : Option PrefixRule) (rs : List PrefixRule)
    → IsBest p best rs (best_rule p best rs)
unfolding best_rule
best_rule-IsBest p best [] = record {
  nothing = λ e. (e, λ r m. absurd m);
  found = λ b e. inl e;
  over = λ b c e f. ground arith;
  longest = λ b r e m. absurd m;
}
best_rule-IsBest p none (x ∷ rs) = elim (Bool-cases (p x)) [
  | inl t ↦ rw t (IsBest-take p x rs _ none t (λ c e. absurd (cc)) (best_rule-IsBest p (some x) rs))
  | inr f ↦
      rw f (IsBest-skip p x rs _ none (λ _. f) (λ c e. absurd (cc)) (best_rule-IsBest p none rs))
]
best_rule-IsBest p (some c) (x ∷ rs) = elim (Bool-cases (longer (some c) x && p x)) [
  | inl t ↦ rw t (
      IsBest-take p x rs _ (some c) (ground arith) (λ d e. ground arith)
        (best_rule-IsBest p (some x) rs))
  | inr f ↦ rw f (
      IsBest-skip p x rs _ (some c) (λ e. absurd (cc)) (λ d e q. ground arith)
        (best_rule-IsBest p (some c) rs))
]

pub best_rule-IsLongest :
    (p : PrefixRule → Bool) (rs : List PrefixRule) → IsLongest p rs (best_rule p none rs)
best_rule-IsLongest p rs = go (best_rule p none rs) (best_rule-IsBest p none rs)
  where
    go : (o : Option PrefixRule) → IsBest p none rs o → IsLongest p rs o
    go none i = (i.nothing refl).1
    go (some b) i = elim (i.found b refl) [
      | inl e ↦ absurd (cc)
      | inr m ↦ (m.0, m.1, λ r. i.longest b r refl)
    ]

abbrev pub under : Str → PrefixRule → Bool
under key r = has_prefix key r.prefix

abbrev pub above : Str → PrefixRule → Bool
above q r = not (str_eq r.prefix q) && has_prefix q r.prefix

-- Two rules that a key starts with, the second no shorter and the first the longest, are one.
longest_same :
    (key : Str) (rs : List PrefixRule) (b c : PrefixRule)
    → IsUnique rs
    → In b rs
    → In c rs
    → under key b ≡ true
    → under key c ≡ true
    → length b.prefix ≤ length c.prefix
    → length c.prefix ≤ length b.prefix
    → b ≡ c
longest_same key rs b c u mb mc pb pc l k =
    u.same b c mb mc (has_prefix_eq _ _ (has_prefix_chain key b.prefix c.prefix pb pc k) l)

module _ (own : List Owner) (key : Str) (n : PrefixRule) (rs rs' : List PrefixRule)
    (unique : IsUnique rs) (fresh : (r : PrefixRule) → In r rs → r.prefix ≢ n.prefix)
    (added : (r : PrefixRule) → In r rs' → (r ≡ n) ⊎ In r rs)
    (old : (r : PrefixRule) → In r rs → In r rs') (new : In n rs') where
  above_of :
      (r : PrefixRule)
      → r.prefix ≢ n.prefix
      → under key r ≡ true
      → length r.prefix ≤ length n.prefix
      → under key n ≡ true
      → above n.prefix r ≡ true
  above_of r ne un l t =
      ground (arith, str_eq_iff r.prefix n.prefix, has_prefix_chain key n.prefix r.prefix)

  under_of : (r : PrefixRule) → above n.prefix r ≡ true → under key n ≡ true → under key r ≡ true
  under_of r ab t = has_prefix_trans key n.prefix r.prefix t (ground arith)

  -- The longest rule above the new one, and the longest that a key under the new one starts with.
  parent_is_best :
      (o b : Option PrefixRule)
      → IsLongest (above n.prefix) rs o
      → IsLongest (under key) rs b
      → under key n ≡ true
      → ((r : PrefixRule) → In r rs → under key r ≡ true → length r.prefix ≤ length n.prefix)
      → o ≡ b
  parent_is_best none none io ib un top = refl
  parent_is_best none (some b) io ib un top =
      absurd (cc (io b ib.0, above_of b (fresh b ib.0) ib.1 (top b ib.0 ib.1) un))
  parent_is_best (some o) none io ib un top = absurd (cc (ib o io.0, under_of o io.1 un))
  parent_is_best (some o) (some b) io ib un top =
      let t = under_of o io.1 un in
      ap some (
        longest_same key rs o b unique io.0 ib.0 t ib.1 (ib.2 o io.0 t)
          (io.2 b ib.0 (above_of b (fresh b ib.0) ib.1 (top b ib.0 ib.1) un)))

  pub same_table :
      (o b b' : Option PrefixRule)
      → IsLongest (above n.prefix) rs o
      → IsLongest (under key) rs b
      → IsLongest (under key) rs' b'
      → n.owners ≡ rule_table own o
      → rule_table own b' ≡ rule_table own b
  unfolding rule_table
  same_table o none none io ib ib' e = refl
  same_table o (some b) none io ib ib' e = absurd (cc (ib' b (old b ib.0), ib.1))
  same_table o b (some b') io ib ib' e = elim (added b' ib'.0) [
    | inl is_new ↦
        let un : under key n ≡ true = rw (← is_new) ib'.1 in
        ap (λ r. r.owners) is_new
        ∙ e
        ∙ ap (rule_table own) (
            parent_is_best o b io ib un
              (λ r m t. rw (ap (λ s. s.prefix) is_new) at (ib'.2 r (old r m) t)))
    | inr was ↦ ap (rule_table own) (kept b ib was)
  ]
    where
      kept : (b : Option PrefixRule) → IsLongest (under key) rs b → In b' rs → some b' ≡ b
      kept none ib was = absurd (cc (ib b' was, ib'.1))
      kept (some b) ib was = ap some (
          longest_same key rs b' b unique was ib.0 ib'.1 ib.1 (ib.2 b' was ib'.1)
            (ib'.2 b (old b ib.0) ib.1))
