-- ===== src/Directory/Owners/Reassign.antt =====
-- internal/directory/moves.go: the table that reassign builds, range by range.
use shunt.Base.{
  ℕ, ◌+◌, ◌≤◌, ◌<◌, ◌≡◌, inl, inr, refl, ◌++◌, ◌||◌, Str, str_eq_iff, Bool, true, false, ◌&&◌, List,
  [], ◌∷◌, ltb, leb, if◌then◌else◌, Map, has, arith, Bool-cases,
}
use shunt.Directory.Types.{Owner, Leg, HashRange, hash_space}
use shunt.Directory.Owners.{add_owner, pieces, add_all, reassign_from, reassign, owner_in}
use shunt.Directory.Owners.Tiling.{Spans, Spans-le, Tiles, lookup}
use shunt.Directory.Owners.Search.{owner_in-lookup}

-- The table being built covers [a, b), and gives h to w if it lies there.
record IsBuilt (legs : Map Leg) (h : ℕ) (w : Str) (a b : ℕ) (out : List Owner) : Type 0 where
  spans : Spans legs a b out
  owns : a ≤ h → h < b → lookup out h ≡ w

add_owner-IsBuilt :
    (legs : Map Leg) (h : ℕ) (w : Str) (a b : ℕ) (out : List Owner) (o : Owner)
    → IsBuilt legs h w a b out
    → o.from ≡ b
    → b ≤ o.to
    → has legs o.leg ≡ true
    → (b ≤ h → h ≤ o.to → o.leg ≡ w)
    → IsBuilt legs h w a (o.to + 1) (add_owner out o)
unfolding add_owner lookup
add_owner-IsBuilt legs h w a b [] o g e l k own = record {
  spans = ground (arith, g.spans);
  owns = ground (arith, g.spans);
}
add_owner-IsBuilt legs h w a b (x ∷ []) o g e l k own = record {
  spans = ground (arith, g.spans);
  owns = ground (arith, g.spans, g.owns, str_eq_iff x.leg o.leg);
}
add_owner-IsBuilt legs h w a b (x ∷ y ∷ out) o g e l k own =
    let inner : IsBuilt legs h w (x.to + 1) b (y ∷ out) = record {
      spans = g.spans.3;
      owns = λ p q. ground (arith, g.spans, g.owns);
    } in
    let rest = add_owner-IsBuilt legs h w (x.to + 1) b (y ∷ out) o inner e l k own in
    record {
      spans = (g.spans.0, g.spans.1, g.spans.2, rest.spans);
      owns =
          ground
            (arith, g.spans, g.owns, rest.owns, Spans-le legs (x.to + 1) b (y ∷ out) g.spans.3);
    }

add_all-append : (out xs ys : List Owner) → add_all out (xs ++ ys) ≡ add_all (add_all out xs) ys
unfolding add_all
add_all-append out [] ys = refl
add_all-append out (x ∷ xs) ys = add_all-append (add_owner out x) xs ys

-- One piece that a test adds or leaves out.
add_if-IsBuilt :
    (legs : Map Leg) (h : ℕ) (w : Str) (c : Bool) (b b' : ℕ) (out : List Owner) (x : Owner)
    → IsBuilt legs h w 0 b out
    → (c ≡ true → (x.from ≡ b) × (b ≤ x.to) × (b' ≡ x.to + 1))
    → (c ≡ true → has legs x.leg ≡ true)
    → (c ≡ true → b ≤ h → h ≤ x.to → x.leg ≡ w)
    → (c ≡ false → b' ≡ b)
    → IsBuilt legs h w 0 b' (add_all out (if c then x ∷ [] else []))
unfolding add_all
add_if-IsBuilt legs h w true b b' out x g e k own skip =
    rw (e refl).2 (add_owner-IsBuilt legs h w 0 b out x g (e refl).0 (e refl).1 (k refl) (own refl))
add_if-IsBuilt legs h w false b b' out x g e k own skip = rw (skip refl) g

abbrev inside : HashRange → ℕ → Bool
inside rg h = leb rg.from h && leb h rg.to

-- How far the new table reaches once the old ranges before `next` are done: past the moved range as
-- soon as one of them held its start.
abbrev reached : HashRange → ℕ → ℕ
reached rg next = if ltb rg.from next && leb next rg.to then rg.to + 1 else next

module _ (legs : Map Leg) (rg : HashRange) (leg : Str) (h : ℕ) (w : Str) (forward : rg.from ≤ rg.to)
    (known : has legs leg ≡ true) (given : inside rg h ≡ true → w ≡ leg) where
  step-IsBuilt :
      (out : List Owner) (o : Owner)
      → IsBuilt legs h w 0 (reached rg o.from) out
      → o.from ≤ o.to
      → has legs o.leg ≡ true
      → (inside rg h ≡ false → o.from ≤ h → h ≤ o.to → w ≡ o.leg)
      → IsBuilt legs h w 0 (reached rg (o.to + 1)) (add_all out (pieces rg leg o))
  unfolding pieces
  step-IsBuilt out o g l k own = elim (Bool-cases (ltb o.to rg.from || ltb rg.to o.from)) [
    | inl apart ↦ rw apart (
        add_if-IsBuilt legs h w true _ _ out o g (λ _. ground arith) (λ _. k) (λ _. ground arith)
          (λ e. cc))
    | inr meets ↦ rw meets (
        rw (add_all-append, add_all-append)
          (add_if-IsBuilt legs h w (ltb rg.to o.to) (rg.to + 1) _ _ _
            (add_if-IsBuilt legs h w (leb o.from rg.from)
              (if ltb o.from rg.from then rg.from else reached rg o.from) (rg.to + 1) _ _
              (add_if-IsBuilt legs h w (ltb o.from rg.from) _ _ out _ g (ground arith) (λ _. k)
                (ground arith) (ground arith))
              (ground arith) (λ _. known) (ground arith) (ground arith))
            (ground arith) (λ _. k) (ground arith) (ground arith)))
  ]

  reassign_from-IsBuilt :
      (out os : List Owner) (next : ℕ)
      → IsBuilt legs h w 0 (reached rg next) out
      → Spans legs next hash_space os
      → (inside rg h ≡ false → next ≤ h → w ≡ lookup os h)
      → IsBuilt legs h w 0 (reached rg hash_space) (reassign_from out os rg leg)
  unfolding reassign_from lookup
  reassign_from-IsBuilt out [] next g s own = rw s at g
  reassign_from-IsBuilt out (o ∷ os) next g s own =
      reassign_from-IsBuilt (add_all out (pieces rg leg o)) os (o.to + 1)
        (step-IsBuilt out o (rw s.0 g) (omega arith) s.2 (ground arith)) s.3 (ground (arith, s))

abbrev want : HashRange → Str → List Owner → ℕ → Str
want rg leg os h = if inside rg h then leg else lookup os h

reassign-IsBuilt :
    (legs : Map Leg) (os : List Owner) (rg : HashRange) (leg : Str) (h : ℕ)
    → Tiles legs os
    → rg.from ≤ rg.to
    → rg.to < hash_space
    → has legs leg ≡ true
    → IsBuilt legs h (want rg leg os h) 0 hash_space (reassign os rg leg)
unfolding reassign
reassign-IsBuilt legs os rg leg h s f t k =
    let g =
      reassign_from-IsBuilt legs rg leg h (want rg leg os h) f k (ground arith) [] os 0
        (record { spans = ground arith; owns = ground arith }) s (ground arith) in
    let e : reached rg hash_space ≡ hash_space = ground arith in rw e at g

-- In a table that covers the whole hash space, giving a range of the space to a leg of the
-- placement leaves a table that covers it.
pub reassign-Tiles :
    (legs : Map Leg) (os : List Owner) (rg : HashRange) (leg : Str)
    → Tiles legs os
    → rg.from ≤ rg.to
    → rg.to < hash_space
    → has legs leg ≡ true
    → Tiles legs (reassign os rg leg)
reassign-Tiles legs os rg leg s f t k = (reassign-IsBuilt legs os rg leg 0 s f t k).spans

-- In a table that covers the whole hash space, after a range of the space is given to a leg of the
-- placement, a hash in the range is that leg's, and every other hash of the space is the leg's that
-- had it.
pub owner_in-reassign :
    (legs : Map Leg) (os : List Owner) (rg : HashRange) (leg : Str) (h : ℕ)
    → Tiles legs os
    → rg.from ≤ rg.to
    → rg.to < hash_space
    → has legs leg ≡ true
    → h < hash_space
    → owner_in (reassign os rg leg) h
      ≡ (if leb rg.from h && leb h rg.to then leg else owner_in os h)
owner_in-reassign legs os rg leg h s f t k l =
    let g = reassign-IsBuilt legs os rg leg h s f t k in
    rw
      (
        owner_in-lookup legs hash_space (reassign os rg leg) h g.spans,
        owner_in-lookup legs hash_space os h s,
      )
      (g.owns (omega arith) l)
