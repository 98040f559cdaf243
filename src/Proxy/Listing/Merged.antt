-- ===== src/Proxy/Listing/Merged.antt =====
-- internal/proxy/merge.go: the merge of two listings against their union.
use shunt.Base.{
  ℕ, zero, suc, ◌<◌, ◌≡◌, inl, inr, refl, sym, ap, ◌∙◌, Str, str_lt, true, false, Option, none,
  some, List, [], ◌∷◌, take, ok, arith, Bool-cases,
}
use shunt.Proxy.Listing.{
  Item, ListSide, Backend, first, head, tail_items, pop, take_least, Taken, add_taken, merge_loop,
}
use shunt.Proxy.Listing.Streams.{Left, Holds}
use shunt.Proxy.Listing.Heads.{head-Left, Left-pop}
use shunt.Proxy.Listing.Union.{union, drop}

first-some : (is : List Item) (a : Item) → first is ≡ some a → is ≡ a ∷ tail_items is
unfolding first tail_items
first-some [] a e = ground (arith, e)
first-some (b ∷ bs) a e = ground (arith, e)

union_none : (xs : List Item) → union xs [] ≡ xs
unfolding union
union_none [] = refl
union_none (x ∷ xs) = refl

module _ (primary source : Backend) (after : Str) where
  -- One turn of the loop, of two sides that show their first entries.
  data Turn (ps ss : ListSide) (n m : ℕ) (xs ys : List Item) : Type 0 where
    over : take_least (first xs) ps (first ys) ss ≡ none → xs ≡ [] → ys ≡ [] → Turn ps ss n m xs ys
    takes :
        (a : Item) (ps' ss' : ListSide) (xs' ys' : List Item)
        → take_least (first xs) ps (first ys) ss ≡ some (a, ps', ss')
        → union xs ys ≡ a ∷ union xs' ys'
        → ps'.missing ≡ ps.missing
        → Left primary after ps' n xs'
        → Left source after ss' m ys'
        → Turn ps ss n m xs ys

  popped :
      (fetch : Backend) (s : ListSide) (n : ℕ) (a : Item) (xs : List Item)
      → first s.items ≡ first (a ∷ xs)
      → Left fetch after s n (a ∷ xs)
      → Left fetch after (pop s) n xs
  unfolding first
  popped fetch s n a xs e l =
      Left-pop fetch after s n a (tail_items s.items) (a ∷ xs) xs (first-some s.items a e) refl l

  turn :
      (ps ss : ListSide) (n m : ℕ) (xs ys : List Item)
      → first ps.items ≡ first xs
      → first ss.items ≡ first ys
      → Left primary after ps n xs
      → Left source after ss m ys
      → Turn ps ss n m xs ys
  unfolding first take_least union pop
  turn ps ss n m [] [] e f l r = over refl refl refl
  turn ps ss n m [] (y ∷ ys) e f l r =
      takes y ps (pop ss) [] ys refl refl refl l (popped source ss m y ys f r)
  turn ps ss n m (x ∷ xs) [] e f l r =
      takes x (pop ps) ss xs [] refl (sym (ap (λ zs. x ∷ zs) (union_none xs))) refl
        (popped primary ps n x xs e l) r
  turn ps ss n m (x ∷ xs) (y ∷ ys) e f l r = elim (Bool-cases (str_lt x.name y.name)) [
    | inl p ↦
        takes x (pop ps) ss xs (y ∷ ys) (ground (arith, p)) (ground (arith, p)) refl
          (popped primary ps n x xs e l) r
    | inr p ↦ elim (Bool-cases (str_lt y.name x.name)) [
      | inl q ↦
          takes y ps (pop ss) (x ∷ xs) ys (ground (arith, p, q)) (ground (arith, p, q)) refl l
            (popped source ss m y ys f r)
      | inr q ↦
          takes x (pop ps) (pop ss) xs ys (ground (arith, p, q)) (ground (arith, p, q)) refl
            (popped primary ps n x xs e l) (popped source ss m y ys f r)
    ]
  ]

  -- A run of the loop: it emits the first `k` entries of the union, and the sides have the others left.
  pub record MergedOf (pages k : ℕ) (ps ss : ListSide) (xs ys : List Item) : Type 0 where
    pub taken : Taken
    pub runs : merge_loop pages primary source after k ps ss ≡ ok taken
    pub emits : taken.emitted ≡ take k (union xs ys)
    pub primary_pages : ℕ
    pub source_pages : ℕ
    pub primary_rest : List Item
    pub source_rest : List Item
    pub primary_left : Left primary after taken.primary primary_pages primary_rest
    pub source_left : Left source after taken.source source_pages source_rest
    pub primary_fewer : primary_pages < pages
    pub source_fewer : source_pages < pages
    pub present : Holds primary after → taken.primary.missing ≡ ps.missing
    pub rest : union primary_rest source_rest ≡ drop k (union xs ys)

  loop-over :
      (pages k : ℕ) (ps ps' ss ss' : ListSide) (p q : Option Item)
      → head pages primary after ps ≡ ok (p, ps')
      → head pages source after ss ≡ ok (q, ss')
      → take_least p ps' q ss' ≡ none
      → merge_loop pages primary source after (suc k) ps ss
        ≡ ok (record { emitted = []; primary = ps'; source = ss'; ended = true })
  unfolding merge_loop
  loop-over pages k ps ps' ss ss' p q h i e = ground (arith, h, i, e)

  loop-takes :
      (pages k : ℕ) (ps ps' ss ss' ps2 ss2 : ListSide) (p q : Option Item) (a : Item) (t : Taken)
      → head pages primary after ps ≡ ok (p, ps')
      → head pages source after ss ≡ ok (q, ss')
      → take_least p ps' q ss' ≡ some (a, ps2, ss2)
      → merge_loop pages primary source after k ps2 ss2 ≡ ok t
      → merge_loop pages primary source after (suc k) ps ss ≡ ok (add_taken a t)
  unfolding merge_loop
  loop-takes pages k ps ps' ss ss' ps2 ss2 p q a t h i e r = ground (arith, h, i, e, r)

  pub merge_loop-union :
      (pages k : ℕ) (ps ss : ListSide) (n m : ℕ) (xs ys : List Item)
      → n < pages
      → m < pages
      → Left primary after ps n xs
      → Left source after ss m ys
      → MergedOf pages k ps ss xs ys
  unfolding merge_loop drop union add_taken
  merge_loop-union pages zero ps ss n m xs ys f g l r = record {
    taken = record { emitted = []; primary = ps; source = ss; ended = false };
    runs = refl;
    emits = refl;
    primary_pages = n;
    source_pages = m;
    primary_rest = xs;
    source_rest = ys;
    primary_left = l;
    source_left = r;
    primary_fewer = f;
    source_fewer = g;
    present = λ hh. refl;
    rest = refl;
  }
  merge_loop-union pages (suc k) ps ss n m xs ys f g l r =
      let h = head-Left primary after pages ps n xs f l in
      let i = head-Left source after pages ss m ys g r in
      elim (turn h.side i.side h.pages i.pages xs ys h.shown i.shown h.left i.left) [
        | over e p q ↦
            let empty : union xs ys ≡ [] = ap (λ v. union v ys) p ∙ q in
            record {
              taken = record { emitted = []; primary = h.side; source = i.side; ended = true };
              runs = loop-over pages k ps h.side ss i.side _ _ h.shows i.shows e;
              emits = sym (ap (take (suc k)) empty);
              primary_pages = h.pages;
              source_pages = i.pages;
              primary_rest = xs;
              source_rest = ys;
              primary_left = h.left;
              source_left = i.left;
              primary_fewer = omega (arith, f, h.fewer);
              source_fewer = omega (arith, g, i.fewer);
              present = h.present;
              rest = empty ∙ sym (ap (drop (suc k)) empty);
            }
        | takes a ps' ss' xs' ys' e u same lp ls ↦
            let rec =
              merge_loop-union pages k ps' ss' h.pages i.pages xs' ys' (omega (arith, f, h.fewer))
                (omega (arith, g, i.fewer)) lp ls in
            record {
              taken = add_taken a rec.taken;
              runs =
                  loop-takes pages k ps h.side ss i.side ps' ss' _ _ a rec.taken h.shows i.shows e
                    rec.runs;
              emits = ap (λ zs. a ∷ zs) rec.emits ∙ sym (ap (take (suc k)) u);
              primary_pages = rec.primary_pages;
              source_pages = rec.source_pages;
              primary_rest = rec.primary_rest;
              source_rest = rec.source_rest;
              primary_left = rec.primary_left;
              source_left = rec.source_left;
              primary_fewer = rec.primary_fewer;
              source_fewer = rec.source_fewer;
              present = λ hh. rec.present hh ∙ same ∙ h.present hh;
              rest = rec.rest ∙ sym (ap (drop (suc k)) u);
            }
      ]
