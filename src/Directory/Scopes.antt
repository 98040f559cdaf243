-- ===== src/Directory/Scopes.antt =====
-- Prefix rules: internal/directory/scopes.go. Carve and Merge are given here as changes of one
-- placement; the file's part, the lookup of the placement, is in the File module.
pub mod Longest
pub mod Carving
use shunt.Base.{
  ℕ, ◌+◌, Str, lit, is_empty, str_eq, str_lt, has_prefix, Bool, true, false, ◌&&◌, ◌||◌, not,
  Option, none, some, List, [], ◌∷◌, ◌++◌, ltb, leb, if◌then◌else◌, length, null, Map, any, find,
  is_some, map, Result, ok, err, insert_key,
}
use shunt.Directory.Types.{
  Owner, Leg, HashRange, PrefixRule, Placement, State, spread, name_of, ramp_hash, full_range, Err,
  refused,
}
use shunt.Directory.Owners.{check_owners}

abbrev pub max_prefix_rules : ℕ
max_prefix_rules = 64

abbrev pub max_prefix_len : ℕ
max_prefix_len = 1024

-- Whether a rule is longer than the best one so far; any is longer than none.
pub longer : Option PrefixRule → PrefixRule → Bool
longer none r = true
longer (some b) r = ltb (length b.prefix) (length r.prefix)

-- The loop that both searches share: the longest rule that passes a test, the first of equals.
unfoldable pub best_rule :
    (PrefixRule → Bool) → Option PrefixRule → List PrefixRule → Option PrefixRule
unfolding longer
best_rule p best [] = best
best_rule p best (r ∷ rs) = best_rule p (if longer best r && p r then some r else best) rs

pub rule_table : List Owner → Option PrefixRule → List Owner
rule_table own none = own
rule_table own (some r) = r.owners

rule_prefix : Option PrefixRule → Str
rule_prefix none = lit ""
rule_prefix (some r) = r.prefix

-- Placement.Scope
unfoldable pub scope : Placement → Str → Str × List Owner
unfolding rule_table rule_prefix
scope p key =
    let best = best_rule (λ r. has_prefix key r.prefix) none p.prefixes in
    (rule_prefix best, rule_table p.owners best)

unfoldable pub parent_table : Placement → Str → List Owner
unfolding rule_table
parent_table p prefix =
    rule_table p.owners
      (best_rule (λ r. not (str_eq r.prefix prefix) && has_prefix prefix r.prefix) none p.prefixes)

unfoldable pub scope_table : Placement → Str → Option (List Owner)
scope_table p s =
    if is_empty s
    then some p.owners
    else elim (find (λ r. str_eq r.prefix s) p.prefixes) [ none ↦ none | some r ↦ some r.owners ]

-- A missing table reads as nil.
unfoldable pub table_of : Option (List Owner) → List Owner
table_of none = []
table_of (some t) = t

unfoldable pub set_scope_table : Placement → Str → List Owner → Placement
set_scope_table p s owners = if is_empty s then record p { owners = owners } else record p {
  prefixes =
      map (λ r. if str_eq r.prefix s then record { prefix = r.prefix; owners = owners } else r)
        p.prefixes;
}

owned_by : Str → Owner → Bool
owned_by leg o = str_eq o.leg leg

unfoldable pub prefixes_of : Placement → List Str
prefixes_of p = map (λ r. r.prefix) p.prefixes

-- OwnsBeyond: another scope of the placement, or the scope's own table outside the range.
unfoldable pub owns_beyond : Placement → Str → Str → HashRange → Bool
unfolding owned_by table_of scope_table prefixes_of
owns_beyond p leg s rg =
    ((not (is_empty s) || ltb 0 (length p.prefixes))
      && any (λ t. not (str_eq t s) && any (owned_by leg) (table_of (scope_table p t)))
          (lit "" ∷ prefixes_of p))
    || any (λ o. owned_by leg o && (ltb o.from rg.from || ltb rg.to o.to))
        (table_of (scope_table p s))

unfoldable pub owns_keys : Placement → Str → Bool
unfolding owned_by
owns_keys p leg = any (owned_by leg) p.owners || any (λ r. any (owned_by leg) r.owners) p.prefixes

-- A set of strings is its sorted list; adding a member twice changes nothing.
add_leg : Str → List Str → List Str
add_leg leg set = if any (str_eq leg) set then set else insert_key leg set

add_legs : List Owner → List Str → List Str
unfolding add_leg
add_legs [] set = set
add_legs (o ∷ os) set = add_legs os (add_leg o.leg set)

add_nested : Str → List PrefixRule → List Str → List Str
unfolding add_legs
add_nested prefix [] set = set
add_nested prefix (r ∷ rs) set =
    add_nested prefix rs (if has_prefix r.prefix prefix then add_legs r.owners set else set)

unfoldable pub listing_legs : Placement → Str → List Str
unfolding add_nested scope
listing_legs p prefix =
    let set = add_nested prefix p.prefixes (add_legs (scope p prefix).1 []) in
    elim p.move [ none ↦ set | some m ↦ add_leg m.to (add_leg m.from set) ]

-- The loop of checkPrefixes from a rule on, with the prefix before it; true is the nil error.
check_rules : Option Str → List PrefixRule → Map Leg → Bool
check_rules last [] legs = true
check_rules last (r ∷ rs) legs =
    not (is_empty r.prefix)
    && leb (length r.prefix) max_prefix_len
    && elim last [ none ↦ true | some q ↦ str_lt q r.prefix ]
    && not (is_some (check_owners r.owners legs))
    && check_rules (some r.prefix) rs legs

-- checkPrefixes; true is the nil error.
unfoldable pub check_prefixes : Placement → Bool
unfolding check_rules
check_prefixes p =
    null p.prefixes
    || (leb (length p.prefixes) max_prefix_rules
        && not (is_empty p.key_hash)
        && check_rules none p.prefixes p.legs)

-- slices.SortFunc by prefix, by insertion.
insert_rule : PrefixRule → List PrefixRule → List PrefixRule
insert_rule r [] = r ∷ []
insert_rule r (x ∷ xs) = if str_lt x.prefix r.prefix then x ∷ insert_rule r xs else r ∷ x ∷ xs

pub sort_rules : List PrefixRule → List PrefixRule
unfolding insert_rule
sort_rules [] = []
sort_rules (r ∷ rs) = insert_rule r (sort_rules rs)

abbrev pub is_active : State → Bool
is_active State.active = true
is_active _ = false

-- A plain placement in schema v2: its one bucket a leg that owns every key.
abbrev pub one_leg : Placement → Placement
one_leg p = record p {
  legs = (p.primary, record { cluster = p.primary; bucket = name_of p.names p.primary }) ∷ [];
  owners = record { from = full_range.from; to = full_range.to; leg = p.primary } ∷ [];
  primary = lit "";
  names = [];
}

-- The guards of Carve, in the order of its switch; each refuses with ErrRefused.
unfoldable pub carve_refused : Placement → Str → Bool
unfolding spread
carve_refused p prefix =
    (not (is_active p.state) || is_some p.move)
    || is_empty prefix
    || ltb max_prefix_len (length prefix)
    || leb max_prefix_rules (length p.prefixes)
    || any (λ r. str_eq r.prefix prefix) p.prefixes
    || (not (spread p)
        && (not (is_empty p.target)
            || not (is_empty p.cold)
            || not (is_empty p.tier)
            || not (is_empty p.lifecycle)))

-- Carve on the placement: np, then np with the new rule.
unfoldable pub carve_placement : Placement → Str → Result Err Placement
unfolding carve_refused sort_rules parent_table
carve_placement p prefix =
    let np = record (if spread p then p else one_leg p) { key_hash = ramp_hash } in
    if carve_refused p prefix
    then err refused
    else ok (record np {
      prefixes =
          sort_rules
            (np.prefixes ++ record { prefix = prefix; owners = parent_table np prefix } ∷ []);
    })
