-- ===== src/Proxy/Listing/Streams.antt =====
-- internal/proxy/merge.go: what one side of a listing still has to give, and that `head` shows its first
-- entry.
use shunt.Base.{
  ℕ, suc, ◌≤◌, ◌≡◌, inl, inr, refl, ap, Str, is_empty, Bool, true, false, ◌&&◌, none, some, List,
  [], ◌++◌, if◌then◌else◌, null, ok, arith, Bool-cases,
}
use shunt.Proxy.Listing.{
  Item, Page, Answer, page, no_bucket, failed, ListSide, Backend, kept, got, side_missing,
  fetch_failed, got_page, fetch_list_page, first, head,
}

abbrev pub is_gone : Answer → Bool
is_gone (page p) = false
is_gone no_bucket = true
is_gone failed = false

-- The cluster holds the bucket, at whatever point the listing is read.
abbrev pub Holds : Backend → Str → Type 0
Holds fetch after = (token : Str) → is_gone (fetch token after) ≡ false

-- The pages of a backend from a token on: how many there are, and what is kept of them in order. A
-- bucket that is not there has one, which is empty.
pub data Pages (fetch : Backend) (after : Str) : Str → ℕ → List Item → Type 0 where
  last :
      {token : Str} (p : Page)
      → fetch token after ≡ page p
      → is_empty p.next ≡ true
      → Pages fetch after token 1 (kept after p)
  more :
      {token : Str} {n : ℕ} {xs : List Item} (p : Page)
      → fetch token after ≡ page p
      → is_empty p.next ≡ false
      → Pages fetch after p.next n xs
      → Pages fetch after token (suc n) (kept after p ++ xs)
  absent : {token : Str} → fetch token after ≡ no_bucket → Pages fetch after token 1 []

-- What a side has left: `n` pages to read, and in all the entries `xs`.
pub data Left (fetch : Backend) (after : Str) (s : ListSide) : ℕ → List Item → Type 0 where
  finished : s.done ≡ true → Left fetch after s 0 s.items
  unread :
      {n : ℕ} {xs : List Item}
      → s.done ≡ false
      → s.started ≡ false
      → Pages fetch after s.used n xs
      → Left fetch after s n (s.items ++ xs)
  on_last :
      s.done ≡ false → s.started ≡ true → is_empty s.next ≡ true → Left fetch after s 0 s.items
  within :
      {n : ℕ} {xs : List Item}
      → s.done ≡ false
      → s.started ≡ true
      → is_empty s.next ≡ false
      → Pages fetch after s.next n xs
      → Left fetch after s n (s.items ++ xs)

module _ (fetch : Backend) (after : Str) where
  -- What reading a page gives.
  pub data Read (s : ListSide) (n : ℕ) (xs : List Item) : Type 0 where
    given :
        (t : ListSide) (m : ℕ)
        → fetch_list_page fetch after s ≡ got t
        → suc m ≤ n
        → t.missing ≡ s.missing
        → Left fetch after t m xs
        → Read s n xs
    gone :
        (t : ListSide)
        → fetch_list_page fetch after s ≡ side_missing t
        → t.items ≡ []
        → is_gone (fetch s.used after) ≡ true
        → first xs ≡ none
        → Left fetch after t 0 xs
        → Read s n xs

  reads-last :
      (s : ListSide) (p : Page)
      → s.done ≡ false
      → fetch s.used after ≡ page p
      → is_empty p.next ≡ true
      → Read s 1 (kept after p)
  unfolding fetch_list_page got_page
  reads-last s p d e l =
      given (got_page after s p) 0
        (ap
          (λ r. elim r [
            | page p ↦ got (got_page after s p)
            | no_bucket ↦ side_missing (record s { done = true; missing = true; items = [] })
            | failed ↦ fetch_failed
          ])
          e)
        (omega arith) refl
        (elim (Bool-cases (null (kept after p))) [
          | inl y ↦ finished (ground (arith, d, l, y))
          | inr n ↦ on_last (ground (arith, d, l, n)) refl l
        ])

  pub reads :
      (s : ListSide) (n : ℕ) (xs : List Item)
      → s.done ≡ false
      → Pages fetch after s.used n xs
      → Read s n xs
  unfolding fetch_list_page got_page first
  reads s n xs d (last p e l) = reads-last s p d e l
  reads s n xs d (more {n = m} p e l ps) =
      given (got_page after s p) m
        (ap
          (λ r. elim r [
            | page p ↦ got (got_page after s p)
            | no_bucket ↦ side_missing (record s { done = true; missing = true; items = [] })
            | failed ↦ fetch_failed
          ])
          e)
        (omega arith) refl (within (ground (arith, d, l)) refl l ps)
  reads s n xs d (absent e) =
      gone (record s { done = true; missing = true; items = [] })
        (ap
          (λ r. elim r [
            | page p ↦ got (got_page after s p)
            | no_bucket ↦ side_missing (record s { done = true; missing = true; items = [] })
            | failed ↦ fetch_failed
          ])
          e)
        refl (ap is_gone e) refl (finished refl)

  abbrev pub turned : ListSide → ListSide
  turned s = if s.started then record s { used = s.next } else s

  pub turned_missing : (s : ListSide) → (turned s).missing ≡ s.missing
  turned_missing s = elim (Bool-cases s.started) [
    | inl t ↦ ground (arith, t)
    | inr t ↦ ground (arith, t)
  ]

  pub head-shown :
      (fuel : ℕ) (s : ListSide) (a : Item)
      → first s.items ≡ some a
      → head (suc fuel) fetch after s ≡ ok (some a, s)
  unfolding head
  head-shown fuel s a e = ground (arith, e)

  pub head-done :
      (fuel : ℕ) (s : ListSide)
      → first s.items ≡ none
      → s.done ≡ true
      → head (suc fuel) fetch after s ≡ ok (none, s)
  unfolding head
  head-done fuel s e d = ground (arith, e, d)

  pub head-ended :
      (fuel : ℕ) (s : ListSide)
      → first s.items ≡ none
      → s.done ≡ false
      → s.started ≡ true
      → is_empty s.next ≡ true
      → head (suc fuel) fetch after s ≡ ok (none, record s { done = true })
  unfolding head
  head-ended fuel s e d t l = ground (arith, e, d, t, l)

  pub head-given :
      (fuel : ℕ) (s t : ListSide)
      → first s.items ≡ none
      → s.done ≡ false
      → (s.started && is_empty s.next) ≡ false
      → fetch_list_page fetch after (turned s) ≡ got t
      → head (suc fuel) fetch after s ≡ head fuel fetch after t
  unfolding head
  head-given fuel s t e d m f = ground (arith, e, d, m, f)

  pub head-gone :
      (fuel : ℕ) (s t : ListSide)
      → first s.items ≡ none
      → s.done ≡ false
      → (s.started && is_empty s.next) ≡ false
      → fetch_list_page fetch after (turned s) ≡ side_missing t
      → head (suc fuel) fetch after s ≡ ok (none, t)
  unfolding head
  head-gone fuel s t e d m f = ground (arith, e, d, m, f)
