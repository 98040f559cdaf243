-- ===== src/S3/Safe.antt =====
-- internal/s3/classify.go and Mutates of internal/migrate/route.go: requests by their method.
use shunt.Base.{
  ◌≡◌, refl, Str, str_eq, Bool, true, false, ◌||◌, not, all, List, [], ◌∷◌, if◌then◌else◌, Map,
  arith,
}
use shunt.S3.Op.{Op}
use shunt.S3.Classify.{classify_from, classify}
use shunt.S3.Rules.{
  Level, Rule, rules, method_get, method_head, method_put, method_delete, method_options,
}
use shunt.Migrate.Class.{mutates}

-- Whether a row for a method names an operation that the method may carry out.
row_fits : Str → Bool → Rule → Bool
row_fits method writes r =
    not (str_eq r.method method)
    || (if writes then mutates r.op method else not (mutates r.op method))

classify_from-fits :
    (rs : List Rule) (method : Str) (writes : Bool) (level : Level) (q : Map (List Str)) (h : Str)
    → all (row_fits method writes) rs ≡ true
    → mutates Op.unknown method ≡ writes
    → mutates (classify_from rs method level q h) method ≡ writes
unfolding classify_from row_fits all
classify_from-fits [] method writes level q h a u = u
classify_from-fits (r ∷ rs) method writes level q h a u =
    ground (arith, classify_from-fits rs method writes level q h)

get_rows : all (row_fits method_get false) rules ≡ true
unfolding all row_fits rules mutates str_eq
get_rows = refl

head_rows : all (row_fits method_head false) rules ≡ true
unfolding all row_fits rules mutates str_eq
head_rows = refl

put_rows : all (row_fits method_put true) rules ≡ true
unfolding all row_fits rules mutates str_eq
put_rows = refl

delete_rows : all (row_fits method_delete true) rules ≡ true
unfolding all row_fits rules mutates str_eq
delete_rows = refl

-- Whatever a GET, HEAD or OPTIONS request asks for, it is classified as an operation that changes
-- no bucket; whatever a PUT or DELETE request asks for, as one that does.
pub classify-mutates :
    (level : Level) (q : Map (List Str)) (h : Str)
    → (mutates (classify method_get level q h) method_get ≡ false)
      × (mutates (classify method_head level q h) method_head ≡ false)
      × (mutates (classify method_options level q h) method_options ≡ false)
      × (mutates (classify method_put level q h) method_put ≡ true)
      × (mutates (classify method_delete level q h) method_delete ≡ true)
unfolding classify mutates str_eq
classify-mutates level q h = (
  classify_from-fits rules method_get false level q h get_rows refl,
  classify_from-fits rules method_head false level q h head_rows refl,
  refl,
  classify_from-fits rules method_put true level q h put_rows refl,
  classify_from-fits rules method_delete true level q h delete_rows refl,
)
