-- ===== src/Directory/Scopes/Carving.antt =====
-- internal/directory/scopes.go: the rules before and after Carve, and the table of a key.
use shunt.Base.{
  ◌≡◌, ◌≢◌, ◌⊎◌, ◌↔◌, ◌++◌, inl, inr, refl, sym, ap, ◌∙◌, Str, str_eq, str_eq_iff, str_lt,
  str_lt_irrefl, str_lt_trans, Bool, true, false, ◌&&◌, ◌||◌, not, any, Option, none, some, leb,
  is_empty, List, [], ◌∷◌, length, arith, Bool-cases, Map, null,
}
use shunt.Directory.Types.{Owner, PrefixRule, Placement, Leg}
use shunt.Directory.Scopes.{
  max_prefix_rules, best_rule, rule_table, check_rules, check_prefixes, insert_rule, sort_rules,
}
use shunt.Directory.Scopes.Longest.{In, IsUnique, best_rule-IsLongest, under, above, same_table}

check_rules_above :
    (q : Str) (rs : List PrefixRule) (legs : Map Leg) (r : PrefixRule)
    → check_rules (some q) rs legs ≡ true
    → In r rs
    → str_lt q r.prefix ≡ true
unfolding check_rules
check_rules_above q [] legs r h m = absurd m
check_rules_above q (x ∷ rs) legs r h (inl e) = rw e (ground arith)
check_rules_above q (x ∷ rs) legs r h (inr m) =
    str_lt_trans q x.prefix r.prefix (ground arith)
      (check_rules_above x.prefix rs legs r (ground arith) m)

check_rules_tail :
    (last : Option Str) (x : PrefixRule) (rs : List PrefixRule) (legs : Map Leg)
    → check_rules last (x ∷ rs) legs ≡ true
    → check_rules (some x.prefix) rs legs ≡ true
unfolding check_rules
check_rules_tail last x rs legs h = ground arith

check_rules_same :
    (last : Option Str) (rs : List PrefixRule) (legs : Map Leg) (r s : PrefixRule)
    → check_rules last rs legs ≡ true
    → In r rs
    → In s rs
    → r.prefix ≡ s.prefix
    → r ≡ s
check_rules_same last [] legs r s h m n e = absurd m
check_rules_same last (x ∷ rs) legs r s h (inl a) (inl b) e = a ∙ sym b
check_rules_same last (x ∷ rs) legs r s h (inl a) (inr n) e = absurd (
    cc (
      str_lt_irrefl s.prefix,
      ap (λ t. t.prefix) a,
      check_rules_above x.prefix rs legs s (check_rules_tail last x rs legs h) n,
    ))
check_rules_same last (x ∷ rs) legs r s h (inr m) (inl b) e = absurd (
    cc (
      str_lt_irrefl r.prefix,
      ap (λ t. t.prefix) b,
      check_rules_above x.prefix rs legs r (check_rules_tail last x rs legs h) m,
    ))
check_rules_same last (x ∷ rs) legs r s h (inr m) (inr n) e =
    check_rules_same (some x.prefix) rs legs r s (check_rules_tail last x rs legs h) m n e

rules_checked :
    (rs : List PrefixRule) (r : PrefixRule) (a b c : Bool)
    → (null rs || (a && b && c)) ≡ true
    → In r rs
    → c ≡ true
rules_checked [] r a b c h m = absurd m
rules_checked (x ∷ rs) r a b c h m = ground arith

-- The rules that checkPrefixes accepts have different prefixes.
pub check_prefixes-IsUnique : (p : Placement) → check_prefixes p ≡ true → IsUnique p.prefixes
unfolding check_prefixes
check_prefixes-IsUnique p h = record {
  same = λ r s m n e.
      check_rules_same none p.prefixes p.legs r s
        (rules_checked p.prefixes r (leb (length p.prefixes) max_prefix_rules)
          (not (is_empty p.key_hash)) _ h m)
        m n e;
}

-- A member of a list with one more element in some place.
abbrev OneMore : PrefixRule → PrefixRule → List PrefixRule → List PrefixRule → Type 0
OneMore r x xs ys = In r ys ↔ ((r ≡ x) ⊎ In r xs)

OneMore-behind :
    (r x y : PrefixRule) (xs ys : List PrefixRule)
    → OneMore r x xs ys
    → OneMore r x (y ∷ xs) (y ∷ ys)
OneMore-behind r x y xs ys h = (
  λ m. elim m [
    | inl e ↦ inr (inl e)
    | inr n ↦ elim (h.0 n) [ inl e ↦ inl e | inr k ↦ inr (inr k) ]
  ],
  λ m. elim m [
    | inl e ↦ inr (h.1 (inl e))
    | inr n ↦ elim n [ inl e ↦ inl e | inr k ↦ inr (h.1 (inr k)) ]
  ],
)

In-insert_rule : (r x : PrefixRule) (xs : List PrefixRule) → OneMore r x xs (insert_rule x xs)
unfolding insert_rule
In-insert_rule r x [] = (λ m. m, λ m. m)
In-insert_rule r x (y ∷ xs) = elim (Bool-cases (str_lt y.prefix x.prefix)) [
  | inl t ↦ rw t (OneMore-behind r x y xs (insert_rule x xs) (In-insert_rule r x xs))
  | inr f ↦ rw f (λ m. m, λ m. m)
]

In-sort_rules : (r : PrefixRule) (xs : List PrefixRule) → In r (sort_rules xs) ↔ In r xs
unfolding sort_rules
In-sort_rules r [] = (λ m. m, λ m. m)
In-sort_rules r (x ∷ xs) =
    let i = In-insert_rule r x (sort_rules xs) in
    (
      λ m. elim (i.0 m) [ inl e ↦ inl e | inr n ↦ inr ((In-sort_rules r xs).0 n) ],
      λ m. i.1 (elim m [ inl e ↦ inl e | inr n ↦ inr ((In-sort_rules r xs).1 n) ]),
    )

In-append : (r x : PrefixRule) (xs : List PrefixRule) → OneMore r x xs (xs ++ x ∷ [])
In-append r x [] = (λ m. m, λ m. m)
In-append r x (y ∷ xs) = OneMore-behind r x y xs (xs ++ x ∷ []) (In-append r x xs)

none_has :
    (q : Str) (rs : List PrefixRule) (r : PrefixRule)
    → any (λ s. str_eq s.prefix q) rs ≡ false
    → In r rs
    → r.prefix ≢ q
unfolding any
none_has q [] r h m e = absurd m
none_has q (x ∷ rs) r h (inl f) e = ground (arith, str_eq_iff x.prefix q, ap (λ t. t.prefix) f)
none_has q (x ∷ rs) r h (inr m) e = none_has q rs r (ground arith) m e

-- A new rule for a prefix that no rule has, owned as its parent scope is, leaves the table of every
-- key as it was.
pub add_rule_table :
    (own : List Owner) (rs : List PrefixRule) (q key : Str) (t : List Owner)
    → IsUnique rs
    → any (λ s. str_eq s.prefix q) rs ≡ false
    → t ≡ rule_table own (best_rule (above q) none rs)
    → rule_table own
        (best_rule (under key) none (sort_rules (rs ++ record { prefix = q; owners = t } ∷ [])))
      ≡ rule_table own (best_rule (under key) none rs)
add_rule_table own rs q key t u fresh e =
    let n : PrefixRule = record { prefix = q; owners = t } in
    let rs' = sort_rules (rs ++ n ∷ []) in
    let more : (r : PrefixRule) → OneMore r n rs rs' = λ r. (
      λ m. (In-append r n rs).0 ((In-sort_rules r _).0 m),
      λ m. (In-sort_rules r _).1 ((In-append r n rs).1 m),
    ) in
    same_table own key n rs rs' u (λ r m. none_has q rs r fresh m) (λ r. (more r).0)
      (λ r m. (more r).1 (inr m)) ((more n).1 (inl refl)) _ _ _ (best_rule-IsLongest (above q) rs)
      (best_rule-IsLongest (under key) rs) (best_rule-IsLongest (under key) rs') e
