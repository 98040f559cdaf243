-- ===== src/Directory/Owners/Tiling.antt =====
-- internal/directory/legs.go: what checkOwners asks of a table.
use shunt.Base.{
  ℕ, ◌+◌, ◌≤◌, ◌≡◌, ◌↔◌, Str, true, none, List, [], ◌∷◌, leb, if◌then◌else◌, Map, has, arith, lit,
}
use shunt.Directory.Types.{Owner, Leg, hash_space}
use shunt.Directory.Owners.{check_from, check_owners}

-- The ranges of a list cover [a, b), each once and in order, and name legs.
abbrev pub Spans : Map Leg → ℕ → ℕ → List Owner → Type 0
Spans legs a b [] = a ≡ b
Spans legs a b (o ∷ os) =
    (o.from ≡ a) × (a ≤ o.to) × (has legs o.leg ≡ true) × Spans legs (o.to + 1) b os

-- The whole hash space.
abbrev pub Tiles : Map Leg → List Owner → Type 0
Tiles legs owners = Spans legs 0 hash_space owners

pub Spans-le : (legs : Map Leg) (a b : ℕ) (os : List Owner) → Spans legs a b os → a ≤ b
Spans-le legs a b [] s = omega arith
Spans-le legs a b (o ∷ os) s = omega (arith, Spans-le legs (o.to + 1) b os s.3)

-- The first range, in order, that reaches h.
unfoldable pub lookup : List Owner → ℕ → Str
lookup [] h = lit ""
lookup (o ∷ os) h = if leb h o.to then o.leg else lookup os h

check_from-Spans :
    (legs : Map Leg) (i next : ℕ) (os : List Owner)
    → check_from i next os legs ≡ none
    → Spans legs next hash_space os
unfolding check_from
check_from-Spans legs i next [] h = cc
check_from-Spans legs i next (o ∷ []) h = ground arith
check_from-Spans legs i next (o ∷ p ∷ os) h =
    ground (arith, check_from-Spans legs (i + 1) (o.to + 1) (p ∷ os))

Spans-check_from :
    (legs : Map Leg) (i next : ℕ) (o : Owner) (os : List Owner)
    → (i ≡ 0 → next ≡ 0)
    → Spans legs next hash_space (o ∷ os)
    → check_from i next (o ∷ os) legs ≡ none
unfolding check_from
Spans-check_from legs i next o [] z s = ground arith
Spans-check_from legs i next o (p ∷ os) z s =
    ground
      (arith, Spans-check_from legs (i + 1) (o.to + 1) p os, Spans-le legs (p.to + 1) hash_space os)

-- checkOwners accepts exactly the tables whose ranges cover the whole hash space, each point once
-- and in order, every range naming one of the placement's legs.
pub check_owners_iff :
    (owners : List Owner) (legs : Map Leg) → (check_owners owners legs ≡ none) ↔ Tiles legs owners
unfolding check_owners
check_owners_iff [] legs = (λ h. cc, λ h. absurd (omega arith))
check_owners_iff (o ∷ os) legs =
    (check_from-Spans legs 0 0 (o ∷ os), Spans-check_from legs 0 0 o os (λ e. e))
