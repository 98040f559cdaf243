-- ===== src/Samples/Admitting.antt =====
-- A proxy's gates, and the classes of requests.
use shunt.Base.{
  ℕ, ◌≡◌, ◌≢◌, ◌<◌, refl, Str, lit, Bool, true, false, is_empty, List, [], ◌∷◌, Map, arith,
}
use shunt.Base.Int.{pos}
use shunt.Admission.Gates.{
  Kind, at, Outcome, Gates, gate, no_gates, Token, admitted, enter, release, close, apply,
}
use shunt.Admission.Gates.Entering.{here, next, enters, applied, reopened_supersedes}
use shunt.Admission.Gates.Accounting.{start, takes, gives_back, tokens_for, inflight_exact}
use shunt.S3.Classify.{classify}
use shunt.S3.Rules.{Level, method_get, method_head, method_options, method_put, method_delete}
use shunt.Migrate.Class.{mutates}
use shunt.S3.Safe.{classify-mutates}

abbrev photos : Str
photos = lit "acme/photos"

abbrev barred : Gates
barred = close no_gates photos Kind.mutations (lit "op-1")

barred-closed : is_empty (at (gate barred photos).closed Kind.mutations) ≡ false
unfolding gate close shunt.Base.get shunt.Base.put shunt.Base.str_eq
barred-closed = refl

-- The gate opens again at version 5, and a request of version 5 comes through.
abbrev reopened : Gates
reopened = apply barred [] 5 false

reopened-open : is_empty (at (gate reopened photos).closed Kind.mutations) ≡ true
unfolding gate close apply shunt.Base.get shunt.Base.put shunt.Base.str_eq shunt.Base.has
reopened-open = refl

reopened_supersedes_example :
    (enter (enter reopened photos Kind.source 5).0 photos Kind.source 4).1
    ≢ admitted (record { key = photos; kind = Kind.source })
reopened_supersedes_example =
    reopened_supersedes photos Kind.mutations Kind.source 5 4
      (record { key = photos; kind = Kind.source }) barred-closed (applied barred [] false)
      reopened-open (omega arith) (next here (enters reopened photos Kind.source 5))

abbrev token : Token
token = record { key = photos; kind = Kind.mutations }

first_in : (enter no_gates photos Kind.mutations 1).1 ≡ admitted token
unfolding enter gate shunt.Base.get
first_in = refl

abbrev one_in : Gates
one_in = (enter no_gates photos Kind.mutations 1).0

second_in : (enter one_in photos Kind.mutations 1).1 ≡ admitted token
unfolding enter gate shunt.Base.get shunt.Base.put shunt.Base.str_eq
second_in = refl

inflight_exact_example :
    at
      (gate
        (release (enter one_in photos Kind.mutations 1).0 token Outcome.definitive)
        photos).inflight
      Kind.mutations
    ≡ pos (tokens_for photos Kind.mutations (token ∷ []))
inflight_exact_example = inflight_exact photos Kind.mutations (
    gives_back [] (token ∷ []) token Outcome.definitive refl (
      takes photos Kind.mutations 1 token (takes photos Kind.mutations 1 token start first_in)
        second_in))

classify-mutates_example :
    (mutates (classify method_get Level.bucket [] (lit "")) method_get ≡ false)
    × (mutates (classify method_head Level.bucket [] (lit "")) method_head ≡ false)
    × (mutates (classify method_options Level.bucket [] (lit "")) method_options ≡ false)
    × (mutates (classify method_put Level.bucket [] (lit "")) method_put ≡ true)
    × (mutates (classify method_delete Level.bucket [] (lit "")) method_delete ≡ true)
classify-mutates_example = classify-mutates Level.bucket [] (lit "")
