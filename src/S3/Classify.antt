-- ===== src/S3/Classify.antt =====
-- internal/s3/classify.go: which operation a request is. A query is the map of its parameters and a
-- header the function h.Get; only the X-Amz-Copy-Source header is asked for.
use shunt.Base.{
  Str, lit, is_empty, str_eq, Bool, true, ◌&&◌, ◌||◌, not, Option, none, some, List, [], ◌∷◌,
  if◌then◌else◌, Map, get, has, all,
}
use shunt.S3.Op.{Op}
use shunt.S3.Rules.{Level, level_eq, Rule, rules, method_options}

first_value : Option (List Str) → Str
first_value none = lit ""
first_value (some []) = lit ""
first_value (some (v ∷ vs)) = v

unfoldable pub matches : Rule → Map (List Str) → Str → Bool
unfolding first_value
matches r q copy_source =
    all (has q) r.query
    && elim r.value [ none ↦ true | some kv ↦ str_eq (first_value (get q kv.0)) kv.1 ]
    && (not r.copy_source || not (is_empty copy_source))

unfoldable pub classify_from : List Rule → Str → Level → Map (List Str) → Str → Op
unfolding matches
classify_from [] method level q h = Op.unknown
classify_from (r ∷ rs) method level q h =
    if str_eq r.method method && level_eq r.level level && matches r q h
    then r.op
    else classify_from rs method level q h

unfoldable pub classify : Str → Level → Map (List Str) → Str → Op
unfolding classify_from level_eq
classify method level q h =
    if str_eq method method_options then Op.preflight else classify_from rules method level q h
