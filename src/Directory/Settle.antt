-- ===== src/Directory/Settle.antt =====
-- settle and IdleLegs of internal/directory/moves.go, and Merge of scopes.go on its placement.
use shunt.Base.{
  Str, lit, is_empty, str_eq, Bool, true, false, ◌&&◌, ◌||◌, not, Option, none, some, List, [], ◌∷◌,
  if◌then◌else◌, ◌==◌, ltb, length, null, is_some, find, keep, Map, has, put, sorted_keys, Result,
  ok, err, ◌>>=◌,
}
use shunt.Directory.Types.{Placement, PrefixRule, Owner, Leg, Move, leg_of, Err, refused}
use shunt.Directory.Scopes.{owns_keys, parent_table, is_active}

settle_legs : Map Leg → List Str → Placement → Placement
settle_legs legs [] v = v
settle_legs legs (id ∷ ids) v =
    let l = leg_of legs id in
    settle_legs legs ids (
      if has v.names l.cluster then v else record v {
        names = put v.names l.cluster l.bucket;
        target = (if is_empty v.target then l.cluster else v.target);
      })

settle_on : Placement → Str → Placement
unfolding settle_legs
settle_on p owner =
    let l = leg_of p.legs owner in
    settle_legs p.legs (sorted_keys p.legs) (record p {
      legs = [];
      owners = [];
      key_hash = lit "";
      primary = l.cluster;
      names = (l.cluster, l.bucket) ∷ [];
    })

unfoldable pub settle : Placement → Placement
unfolding settle_on
settle p = elim p.owners [
  | [] ↦ p
  | o ∷ rest ↦
      if is_some p.move || not (null rest) || ltb 0 (length p.prefixes)
      then p
      else settle_on p o.leg
]

in_move : Option Move → Str → Bool
in_move none id = false
in_move (some m) id = str_eq id m.from || str_eq id m.to

unfoldable pub idle_legs : Placement → List Str
unfolding in_move
idle_legs p = keep (λ id. not (in_move p.move id) && not (owns_keys p id)) (sorted_keys p.legs)

owner_eq : Owner → Owner → Bool
owner_eq a b = a.from == b.from && a.to == b.to && str_eq a.leg b.leg

-- slices.Equal
owners_eq : List Owner → List Owner → Bool
unfolding owner_eq
owners_eq [] [] = true
owners_eq [] (b ∷ bs) = false
owners_eq (a ∷ as_) [] = false
owners_eq (a ∷ as_) (b ∷ bs) = owner_eq a b && owners_eq as_ bs

-- slices.Delete at the first rule of the prefix.
delete_rule : Str → List PrefixRule → List PrefixRule
delete_rule prefix [] = []
delete_rule prefix (r ∷ rs) = if str_eq r.prefix prefix then rs else r ∷ delete_rule prefix rs

-- Merge without its settle: the rule goes, its keys fall back to the parent scope.
unfoldable pub drop_rule : Placement → Str → Result Err Placement
unfolding owners_eq delete_rule parent_table
drop_rule p prefix = elim (find (λ r. str_eq r.prefix prefix) p.prefixes) [
  | none ↦ err refused
  | some r ↦
      if not (is_active p.state) || is_some p.move
      then err refused
      else if not (owners_eq r.owners (parent_table p prefix))
      then err refused
      else ok (record p { prefixes = delete_rule prefix p.prefixes })
]

unfoldable pub merge_placement : Placement → Str → Result Err Placement
unfolding drop_rule settle
merge_placement p prefix = drop_rule p prefix >>= λ np. ok (settle np)
