-- ===== src/Proxy/Listing/Answered.antt =====
-- internal/proxy/merge.go: the page that mergeListing answers.
use shunt.Base.{
  ℕ, ◌<◌, ◌≡◌, inl, inr, refl, ap, ◌∙◌, str_lt, false, ◌||◌, not, Option, none, some, is_some, null,
  length, List, [], ◌∷◌, take, ok, if◌then◌else◌, arith, Bool-cases,
}
use shunt.Proxy.Listing.{
  Item, ListSide, MergeToken, Backend, first, head, opened, Taken, merge_loop, Listed, next_token,
  answer_listing, merge_listing,
}
use shunt.Proxy.Listing.Streams.{Left, Holds}
use shunt.Proxy.Listing.Heads.{head-Left}
use shunt.Proxy.Listing.Union.{union, drop}
use shunt.Proxy.Listing.Merged.{merge_loop-union}

-- The page that holds the first `k` names of a listing, and says whether there are more.
abbrev pub IsPageOf : ℕ → List Item → Listed → Type 0
IsPageOf k zs l = (l.emitted ≡ take k zs) × (l.truncated ≡ not (null (drop k zs)))

more-union :
    (xs ys : List Item) → (is_some (first xs) || is_some (first ys)) ≡ not (null (union xs ys))
unfolding first union
more-union [] [] = refl
more-union [] (y ∷ ys) = refl
more-union (x ∷ xs) [] = refl
more-union (x ∷ xs) (y ∷ ys) = elim (Bool-cases (str_lt x.name y.name)) [
  | inl p ↦ ground (arith, p)
  | inr p ↦ elim (Bool-cases (str_lt y.name x.name)) [
    | inl q ↦ ground (arith, p, q)
    | inr q ↦ ground (arith, p, q)
  ]
]

module _ (pages : ℕ) (primary source : Backend) where
  answers :
      (max_keys : ℕ) (t : Taken) (xs ys zs : List Item) (ps ss : ListSide)
      → ps.missing ≡ false
      → t.emitted ≡ take max_keys zs
      → union xs ys ≡ drop max_keys zs
      → (l : Listed) × (answer_listing pages primary source max_keys t (first xs) ps (first ys) ss
          ≡ some l)
        × IsPageOf max_keys zs l
  unfolding answer_listing
  answers max_keys t xs ys zs ps ss m e r = (
    record {
      emitted = t.emitted;
      truncated = (is_some (first xs) || is_some (first ys));
      next =
          (if is_some (first xs) || is_some (first ys) then next_token ps ss t.emitted else none);
      max_keys = (if t.ended then length t.emitted else max_keys);
    },
    ground (arith, m),
    (e, more-union xs ys ∙ ap (λ us. not (null us)) r),
  )

  listing_runs :
      (max_keys : ℕ) (tok : MergeToken) (t : Taken) (p q : Option Item) (ps ss : ListSide)
      → merge_loop pages primary source tok.last max_keys
          (opened tok.p tok.pd)
          (opened tok.s tok.sd)
        ≡ ok t
      → head pages primary tok.last t.primary ≡ ok (p, ps)
      → head pages source tok.last t.source ≡ ok (q, ss)
      → merge_listing pages primary source max_keys tok
        ≡ ok (answer_listing pages primary source max_keys t p ps q ss)
  unfolding merge_listing
  listing_runs max_keys tok t p q ps ss e h i = ground (arith, e, h, i)

-- Of two backends whose pages from the token on end, fewer of them than the bound, and of which the
-- primary holds the bucket, mergeListing answers the first entries of the union of the two listings, as
-- many as the client asks for, and the page is truncated exactly where the union has more. Of two
-- entries of one name the union has the primary's.
pub merge_listing-union :
    (pages max_keys n m : ℕ) (primary source : Backend) (tok : MergeToken) (xs ys : List Item)
    → n < pages
    → m < pages
    → Holds primary tok.last
    → Left primary tok.last (opened tok.p tok.pd) n xs
    → Left source tok.last (opened tok.s tok.sd) m ys
    → (l : Listed) × (merge_listing pages primary source max_keys tok ≡ ok (some l))
      × IsPageOf max_keys (union xs ys) l
merge_listing-union pages max_keys n m primary source tok xs ys f g hh l r =
    let u =
      merge_loop-union primary source tok.last pages max_keys (opened tok.p tok.pd)
        (opened tok.s tok.sd) n m xs ys f g l r in
    let h =
      head-Left primary tok.last pages u.taken.primary u.primary_pages u.primary_rest
        u.primary_fewer u.primary_left in
    let i =
      head-Left source tok.last pages u.taken.source u.source_pages u.source_rest u.source_fewer
        u.source_left in
    let a =
      answers pages primary source max_keys u.taken u.primary_rest u.source_rest (union xs ys)
        h.side i.side (h.present hh ∙ u.present hh) u.emits u.rest in
    (
      a.0,
      listing_runs pages primary source max_keys tok u.taken _ _ h.side i.side u.runs h.shows
            i.shows
          ∙ ap ok a.1,
      a.2,
    )
