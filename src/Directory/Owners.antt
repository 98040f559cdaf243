-- ===== src/Directory/Owners.antt =====
-- Tables of hash ranges: checkOwners, EvenOwners, LeadingShare (internal/directory/legs.go), OwnerIn
-- (scopes.go) and reassign (moves.go).
pub mod Tiling
pub mod Search
pub mod Reassign
pub mod Shares
use shunt.Base.{
  ℕ, zero, suc, ◌+◌, ◌-◌, ◌*◌, ◌/◌, ◌%◌, ◌^◌, Str, lit, str_eq, Bool, true, ◌&&◌, ◌||◌, not, Option,
  none, some, List, [], ◌∷◌, ◌++◌, ltb, leb, ◌==◌, if◌then◌else◌, length, null, Map, has,
}
use shunt.Base.Float.{Float64, nan, neg, pos, unit, ge_one, round53}
use shunt.Directory.Types.{Owner, Leg, HashRange, hash_space, max_hash}

pub data OwnersError : Type 0 where
  no_range unknown_leg not_at_zero gap backwards more_follow stops_short : OwnersError

-- The loop of checkOwners from index i on, with the start that the next range must have.
check_from : ℕ → ℕ → List Owner → Map Leg → Option OwnersError
check_from i next [] legs = some stops_short
check_from i next (o ∷ rest) legs =
    let more = check_from (i + 1) (o.to + 1) rest legs in
    if not (has legs o.leg)
    then some unknown_leg
    else if i == 0 && not (o.from == 0)
    then some not_at_zero
    else if not (o.from == next)
    then some gap
    else if ltb o.to o.from
    then some backwards
    else if o.to == max_hash
    then (if null rest then none else some more_follow)
    else more

-- `none` is the nil error.
unfoldable pub check_owners : List Owner → Map Leg → Option OwnersError
unfolding check_from
check_owners [] legs = some no_range
check_owners (o ∷ rest) legs = check_from 0 0 (o ∷ rest) legs

abbrev pub owner_at? : List Owner → ℕ → Option Owner
owner_at? [] i = none
owner_at? (o ∷ rest) zero = some o
owner_at? (o ∷ rest) (suc i) = owner_at? rest i

-- owners[i].To >= h; the search asks only for indices in range.
reaches : List Owner → ℕ → ℕ → Bool
reaches owners h i = elim (owner_at? owners i) [ none ↦ true | some o ↦ leb h o.to ]

-- sort.Search, a binary search of [i, j).
search_from : ℕ → List Owner → ℕ → ℕ → ℕ → ℕ
search_from zero owners h i j = i
search_from (suc fuel) owners h i j =
    let m = (i + j) / 2 in
    let left = search_from fuel owners h i m in
    let right = search_from fuel owners h (m + 1) j in
    if ltb i j then (if reaches owners h m then left else right) else i

leg_at : Option Owner → Str
leg_at none = lit ""
leg_at (some o) = o.leg

unfoldable pub owner_in : List Owner → ℕ → Str
unfolding search_from reaches leg_at
owner_in owners h =
    let n = length owners in leg_at (owner_at? owners (search_from (n + 1) owners h 0 n))

-- `add` of reassign: the last range is extended if the new one continues it for the same leg. The
-- output is kept in order, and built from its end.
add_owner : List Owner → Owner → List Owner
add_owner [] o = o ∷ []
add_owner (l ∷ []) o =
    if str_eq l.leg o.leg && (l.to + 1) % hash_space == o.from
    then record l { to = o.to } ∷ []
    else l ∷ o ∷ []
add_owner (l ∷ k ∷ out) o = l ∷ add_owner (k ∷ out) o

-- The pieces that one owner contributes, in order.
pieces : HashRange → Str → Owner → List Owner
pieces rg leg o =
    if ltb o.to rg.from || ltb rg.to o.from
    then o ∷ []
    else (if ltb o.from rg.from
        then record { from = o.from; to = rg.from - 1; leg = o.leg } ∷ []
        else [])
      ++ ((if leb o.from rg.from then record { from = rg.from; to = rg.to; leg = leg } ∷ [] else [])
          ++ (if ltb rg.to o.to
              then record { from = rg.to + 1; to = o.to; leg = o.leg } ∷ []
              else []))

add_all : List Owner → List Owner → List Owner
unfolding add_owner
add_all out [] = out
add_all out (o ∷ os) = add_all (add_owner out o) os

reassign_from : List Owner → List Owner → HashRange → Str → List Owner
unfolding add_all pieces
reassign_from out [] rg leg = out
reassign_from out (o ∷ os) rg leg = reassign_from (add_all out (pieces rg leg o)) os rg leg

unfoldable pub reassign : List Owner → HashRange → Str → List Owner
unfolding reassign_from
reassign owners rg leg = reassign_from [] owners rg leg

-- The loop of EvenOwners from index i on: n legs in all, ranges of the given width.
even_from : ℕ → ℕ → List Str → List Owner
even_from i width [] = []
even_from i width (leg ∷ rest) =
    record {
      from = i * width;
      to = (if null rest then max_hash else (i + 1) * width - 1);
      leg = leg;
    }
    ∷ even_from (i + 1) width rest

-- An empty list divides by zero in the source, which panics; its callers give 2 to 32 legs.
unfoldable pub even_owners : List Str → List Owner
unfolding even_from
even_owners legs = even_from 0 (max_hash / length legs) legs

-- uint64(max(1, math.Round(share * 10000))). A NaN converts to 2 ^ 63 on amd64.
pub share_count : Float64 → ℕ
share_count nan = 2 ^ 63
share_count (neg a) = 1
share_count (pos a) = let n = (round53 (a * 10000) + unit / 2) / unit in if n == 0 then 1 else n

unfoldable pub leading_share : HashRange → Float64 → HashRange
unfolding share_count
leading_share r share =
    let k = share_count share in
    let q = ((r.to - r.from) * k + k) / 10000 in
    if ge_one share || ltb r.to r.from
    then r
    else if leb 10000 k
    then r
    else if q == 0
    then record { from = r.from; to = r.from }
    else record { from = r.from; to = (r.from + (q - 1)) % hash_space }
