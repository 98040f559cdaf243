-- ===== src/Proxy/Listing/Heads.antt =====
-- internal/proxy/merge.go: the entries of a side, one after the other.
use shunt.Base.{
  ℕ, subst, zero, suc, ◌≤◌, ◌<◌, ◌≡◌, refl, sym, ap, ◌∙◌, Str, is_empty, true, false, ◌&&◌, none,
  some, List, [], ◌∷◌, ◌++◌, ok, arith,
}
use shunt.Proxy.Listing.{Item, ListSide, Backend, first, head, tail_items, pop}
use shunt.Proxy.Listing.Streams.{
  Left, finished, unread, on_last, within, Read, given, gone, reads, turned, turned_missing, Holds,
  head-shown, head-done, head-ended, head-given, head-gone,
}

first-none : (xs : List Item) → first xs ≡ none → xs ≡ []
unfolding first
first-none [] e = refl
first-none (a ∷ bs) e = ground (arith, e)

differ : ¬ (true ≡ false)
differ e = ground (arith, e)

module _ (fetch : Backend) (after : Str) where
  -- A side after `head`, which showed the first of what it has left.
  pub record Headed (fuel : ℕ) (s : ListSide) (n : ℕ) (xs : List Item) : Type 0 where
    pub side : ListSide
    pub pages : ℕ
    pub shows : head fuel fetch after s ≡ ok (first xs, side)
    pub left : Left fetch after side pages xs
    pub fewer : pages ≤ n
    pub shown : first side.items ≡ first xs
    pub present : Holds fetch after → side.missing ≡ s.missing

  -- What a side with no entry at hand has left, and how it goes on.
  data Empty (s : ListSide) (n : ℕ) (xs : List Item) : Type 0 where
    is_done : s.done ≡ true → xs ≡ [] → Empty s n xs
    has_ended : s.done ≡ false → s.started ≡ true → is_empty s.next ≡ true → xs ≡ [] → Empty s n xs
    turns :
        s.done ≡ false
        → (s.started && is_empty s.next) ≡ false
        → Read fetch after (turned fetch after s) n xs
        → Empty s n xs

  Left-Empty :
      (s : ListSide) (n : ℕ) (xs : List Item)
      → s.items ≡ []
      → Left fetch after s n xs
      → Empty s n xs
  Left-Empty s n xs e (finished d) = is_done d e
  Left-Empty s n xs e (unread {xs = ys} d t ps) =
      let stays : turned fetch after s ≡ s = ground (arith, t) in
      subst (λ is. Empty s n (is ++ ys)) (sym e)
        (turns d (ground (arith, t))
          (subst (λ r. Read fetch after r n ys) (sym stays) (reads fetch after s n ys d ps)))
  Left-Empty s n xs e (on_last d t l) = has_ended d t l e
  Left-Empty s n xs e (within {xs = ys} d t l ps) =
      let moves : turned fetch after s ≡ record s { used = s.next } = ground (arith, t) in
      subst (λ is. Empty s n (is ++ ys)) (sym e)
        (turns d (ground (arith, t, l)) (
          subst (λ r. Read fetch after r n ys) (sym moves)
            (reads fetch after (record s { used = s.next }) n ys d ps)))

  Left-shown :
      (s : ListSide) (n : ℕ) (a : Item) (bs xs : List Item)
      → s.items ≡ a ∷ bs
      → Left fetch after s n xs
      → first xs ≡ some a
  unfolding first
  Left-shown s n a bs xs e (finished d) = ap first e
  Left-shown s n a bs xs e (unread {xs = ys} d t p) = ap (λ is. first (is ++ ys)) e
  Left-shown s n a bs xs e (on_last d t p) = ap first e
  Left-shown s n a bs xs e (within {xs = ys} d t m p) = ap (λ is. first (is ++ ys)) e

  head-item :
      (fuel : ℕ) (s : ListSide) (n : ℕ) (a : Item) (bs xs : List Item)
      → s.items ≡ a ∷ bs
      → Left fetch after s n xs
      → Headed (suc fuel) s n xs
  unfolding first
  head-item fuel s n a bs xs e l =
      let there = Left-shown s n a bs xs e l in
      record {
        side = s;
        pages = n;
        shows = head-shown fetch after fuel s a (ap first e) ∙ ap (λ o. ok (o, s)) (sym there);
        left = l;
        fewer = omega arith;
        shown = ap first e ∙ sym there;
        present = λ hh. refl;
      }

  -- A side that has nothing left.
  head-none :
      (fuel : ℕ) (s t : ListSide) (n : ℕ) (xs : List Item)
      → first xs ≡ none
      → t.items ≡ []
      → head fuel fetch after s ≡ ok (none, t)
      → Left fetch after t 0 xs
      → (Holds fetch after → t.missing ≡ s.missing)
      → Headed fuel s n xs
  unfolding first
  head-none fuel s t n xs e i h l pr = record {
    side = t;
    pages = 0;
    shows = h ∙ ap (λ o. ok (o, t)) (sym e);
    left = l;
    fewer = omega arith;
    shown = ap first i ∙ sym e;
    present = pr;
  }

  finished_none :
      (s : ListSide) (xs : List Item)
      → s.done ≡ true
      → s.items ≡ []
      → xs ≡ []
      → Left fetch after s 0 xs
  finished_none s xs d i e = subst (Left fetch after s 0) (i ∙ sym e) (finished d)

  head-Empty :
      (fuel : ℕ) (s : ListSide) (n : ℕ) (xs : List Item)
      → n < suc fuel
      → s.items ≡ []
      → ((t : ListSide) (k : ℕ) → k < fuel → Left fetch after t k xs → Headed fuel t k xs)
      → Empty s n xs
      → Headed (suc fuel) s n xs
  unfolding first
  head-Empty fuel s n xs f i ih (is_done d e) =
      head-none (suc fuel) s s n xs (ap first e) i (head-done fetch after fuel s (ap first i) d)
        (finished_none s xs d i e) (λ hh. refl)
  head-Empty fuel s n xs f i ih (has_ended d t l e) =
      head-none (suc fuel) s (record s { done = true }) n xs (ap first e) i
        (head-ended fetch after fuel s (ap first i) d t l)
        (finished_none (record s { done = true }) xs refl i e) (λ hh. refl)
  head-Empty fuel s n xs f i ih (turns d m (gone t r ti nb e l)) =
      head-none (suc fuel) s t n xs e ti (head-gone fetch after fuel s t (ap first i) d m r) l
        (λ hh. absurd (differ (sym nb ∙ hh (turned fetch after s).used)))
  head-Empty fuel s n xs f i ih (turns d m (given t k r le same l)) =
      let h = ih t k (omega (arith, f, le)) l in
      record {
        side = h.side;
        pages = h.pages;
        shows = head-given fetch after fuel s t (ap first i) d m r ∙ h.shows;
        left = h.left;
        fewer = omega (arith, h.fewer, le);
        shown = h.shown;
        present = λ hh. h.present hh ∙ same ∙ turned_missing fetch after s;
      }

  head-split :
      (fuel : ℕ) (s : ListSide) (n : ℕ) (xs is : List Item)
      → n < suc fuel
      → s.items ≡ is
      → ((t : ListSide) (k : ℕ) (ys : List Item)
          → k < fuel
          → Left fetch after t k ys
          → Headed fuel t k ys)
      → Left fetch after s n xs
      → Headed (suc fuel) s n xs
  head-split fuel s n xs [] f e ih l =
      head-Empty fuel s n xs f e (λ t k. ih t k xs) (Left-Empty s n xs e l)
  head-split fuel s n xs (a ∷ bs) f e ih l = head-item fuel s n a bs xs e l

  pub head-Left :
      (fuel : ℕ) (s : ListSide) (n : ℕ) (xs : List Item)
      → n < fuel
      → Left fetch after s n xs
      → Headed fuel s n xs
  head-Left zero s n xs f l = absurd (omega (arith, f))
  head-Left (suc fuel) s n xs f l = head-split fuel s n xs s.items f refl (head-Left fuel) l

  drops :
      (s : ListSide) (a : Item) (bs zs ys : List Item)
      → s.items ≡ a ∷ bs
      → s.items ++ zs ≡ a ∷ ys
      → tail_items s.items ++ zs ≡ ys
  unfolding tail_items
  drops s a bs zs ys e q =
      ap (λ is. tail_items is ++ zs) e ∙ sym (ap (λ is. tail_items (is ++ zs)) e) ∙ ap tail_items q

  -- What is left after the first entry is taken.
  pub Left-pop :
      (s : ListSide) (n : ℕ) (a : Item) (bs xs ys : List Item)
      → s.items ≡ a ∷ bs
      → xs ≡ a ∷ ys
      → Left fetch after s n xs
      → Left fetch after (pop s) n ys
  unfolding pop tail_items
  Left-pop s n a bs xs ys e q (finished d) =
      subst (Left fetch after (pop s) 0) (ap tail_items q) (finished d)
  Left-pop s n a bs xs ys e q (unread {xs = zs} d t p) =
      subst (Left fetch after (pop s) n) (drops s a bs zs ys e q) (unread d t p)
  Left-pop s n a bs xs ys e q (on_last d t p) =
      subst (Left fetch after (pop s) 0) (ap tail_items q) (on_last d t p)
  Left-pop s n a bs xs ys e q (within {xs = zs} d t m p) =
      subst (Left fetch after (pop s) n) (drops s a bs zs ys e q) (within d t m p)
