-- ===== src/Directory/Schema/Names.antt =====
-- internal/directory/legs.go: legs that are named after their clusters.
use mathlib.Core.List.{append-nil, append_assoc}
use shunt.Base.{
  suc, ◌≡◌, inl, inr, refl, sym, ap, subst, Str, is_empty, str_eq, str_eq_iff, str_eq_refl, Bool,
  true, false, ◌&&◌, not, Option, none, some, [], ◌∷◌, ◌++◌, all, length, Map, get, put, has,
  Unique, arith, Bool-cases,
}
use shunt.Directory.Types.{Leg}
use shunt.Directory.Start.{is_leg_id}
use shunt.Directory.Schema.{leg_ok, leg_names, legs_of_names}

-- The leg of a cluster's bucket.
abbrev pub named : Str → Option Str → Option Leg
named cl none = none
named cl (some bucket) = some (record { cluster = cl; bucket = bucket })

pub get-legs_of_names : (ns : Map Str) (cl : Str) → get (legs_of_names ns) cl ≡ named cl (get ns cl)
unfolding get legs_of_names
get-legs_of_names [] cl = refl
get-legs_of_names ((k, b) ∷ ns) cl = elim (Bool-cases (str_eq k cl)) [
  | inl e ↦ let same : k ≡ cl = (str_eq_iff k cl).0 e in ground (arith, e, same)
  | inr e ↦ ground (arith, e, get-legs_of_names ns cl)
]

pub length-legs_of_names : (ns : Map Str) → length (legs_of_names ns) ≡ length ns
unfolding legs_of_names
length-legs_of_names [] = refl
length-legs_of_names ((k, b) ∷ ns) = ap suc (length-legs_of_names ns)

-- A cluster that a leg may be named after, with a bucket.
abbrev pub name_ok : Str × Str → Bool
name_ok (cl, bucket) = is_leg_id cl && not (is_empty bucket)

id_filled : (cl : Str) → is_leg_id cl ≡ true → is_empty cl ≡ false
unfolding is_leg_id
id_filled [] e = absurd (ground (arith, e))
id_filled (c ∷ cs) e = refl

pub all-legs_of_names :
    (ns : Map Str) → all name_ok ns ≡ true → all leg_ok (legs_of_names ns) ≡ true
unfolding all legs_of_names leg_ok
all-legs_of_names [] e = refl
all-legs_of_names ((k, b) ∷ ns) e = ground (arith, e, id_filled k, all-legs_of_names ns)

put-absent : (m : Map Str) (k v : Str) → has m k ≡ false → put m k v ≡ m ++ (k, v) ∷ []
unfolding get put
put-absent [] k v e = refl
put-absent ((j, w) ∷ m) k v e = ground (arith, e, put-absent m k v)

absent_before : (m ns : Map Str) (k v : Str) → Unique (m ++ (k, v) ∷ ns) → has m k ≡ false
unfolding get
absent_before [] ns k v u = refl
absent_before ((j, w) ∷ m) ns k v (h, u) =
    ground (arith, absent_before m ns k v u, str_eq_iff j k, str_eq_refl k, present m ns k v j h)
  where
    present : (m ns : Map Str) (k v j : Str) → has (m ++ (k, v) ∷ ns) j ≡ false → str_eq k j ≡ false
    present [] ns k v j h = ground (arith, h)
    present ((i, w) ∷ m) ns k v j h = present m ns k v j (ground (arith, h))

pub leg_names-legs_of_names :
    (ns acc : Map Str) → Unique (acc ++ ns) → leg_names (legs_of_names ns) acc ≡ some (acc ++ ns)
unfolding leg_names legs_of_names
leg_names-legs_of_names [] acc u = ap some (sym (append-nil acc))
leg_names-legs_of_names ((k, b) ∷ ns) acc u =
    let absent = absent_before acc ns k b u in
    let step : (acc ++ (k, b) ∷ []) ++ ns ≡ acc ++ (k, b) ∷ ns =
      append_assoc acc ((k, b) ∷ []) ns in
    let rest : leg_names (legs_of_names ns) (acc ++ (k, b) ∷ [])
        ≡ some ((acc ++ (k, b) ∷ []) ++ ns) =
      leg_names-legs_of_names ns (acc ++ (k, b) ∷ []) (subst Unique (sym step) u) in
    ground (arith, absent, put-absent acc k b absent, step, rest)
