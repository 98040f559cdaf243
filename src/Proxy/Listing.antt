-- ===== src/Proxy/Listing.antt =====
-- internal/proxy/merge.go: the listing of a bucket that spans two clusters. What a backend answers to one
-- page's request is an argument, `fetch`, by its continuation token and the name to start after: the
-- names are decoded, and the next token is "" unless the answer is truncated. A token is kept as the record that the source encodes.
pub mod Streams
pub mod Heads
pub mod Union
pub mod Merged
pub mod Answered
use shunt.Base.{
  ℕ, zero, suc, Str, is_empty, str_lt, Bool, true, false, ◌&&◌, ◌||◌, not, Option, none, some, List,
  [], ◌∷◌, if◌then◌else◌, length, null, is_some, Result, ok, err, ◌>>=◌,
}

-- An object or a common prefix. Of an object, what the answer renders.
pub record Item : Type 0 where
  pub name : Str
  pub prefix : Bool
  pub obj : Str

-- A page: its items in the order of the answer, and its next token, "" where it is the last.
pub record Page : Type 0 where
  pub items : List Item
  pub next : Str

pub data Answer : Type 0 where
  page : Page → Answer
  no_bucket failed : Answer

pub record ListSide : Type 0 where
  pub used : Str
  pub next : Str
  pub done : Bool
  pub started : Bool
  pub missing : Bool
  pub items : List Item

pub record MergeToken : Type 0 where
  pub p : Str
  pub pd : Bool
  pub s : Str
  pub sd : Bool
  pub last : Str

-- `out_of_pages` is the model's own: the fuel has run out.
pub data ListFail : Type 0 where
  upstream out_of_pages : ListFail

-- A backend: what it answers to a token and a name to start after.
abbrev pub Backend : Type 0
Backend = Str → Str → Answer

insert_item : Item → List Item → List Item
insert_item a [] = a ∷ []
insert_item a (b ∷ bs) =
    let rest = insert_item a bs in if str_lt b.name a.name then b ∷ rest else a ∷ b ∷ bs

-- sort.Slice by name.
sort_items : List Item → List Item
unfolding insert_item
sort_items [] = []
sort_items (a ∷ bs) = insert_item a (sort_items bs)

-- What was sent before: the names up to `after`.
skip_sent : Str → List Item → List Item
skip_sent after [] = []
skip_sent after (a ∷ bs) =
    let rest = skip_sent after bs in
    if not (is_empty after) && not (str_lt after a.name) then rest else a ∷ bs

-- A page as fetchListPage keeps it.
unfoldable pub kept : Str → Page → List Item
unfolding sort_items skip_sent
kept after p = skip_sent after (sort_items p.items)

pub data Fetched : Type 0 where
  got side_missing : ListSide → Fetched
  fetch_failed : Fetched

unfoldable pub got_page : Str → ListSide → Page → ListSide
unfolding kept
got_page after s p = record s {
  items = kept after p;
  started = true;
  next = p.next;
  done = (s.done || (null (kept after p) && is_empty p.next));
}

unfoldable pub fetch_list_page : Backend → Str → ListSide → Fetched
unfolding got_page
fetch_list_page fetch after s = elim (fetch s.used after) [
  | page p ↦ got (got_page after s p)
  | no_bucket ↦ side_missing (record s { done = true; missing = true; items = [] })
  | failed ↦ fetch_failed
]

unfoldable pub first : List Item → Option Item
first [] = none
first (a ∷ bs) = some a

-- The closure `head`, with a bound on the pages that it reads.
unfoldable pub head : ℕ → Backend → Str → ListSide → Result ListFail (Option Item × ListSide)
unfolding fetch_list_page first
head zero fetch after s = err ListFail.out_of_pages
head (suc n) fetch after s = elim (first s.items) [
  | some a ↦ ok (some a, s)
  | none ↦
      if s.done
      then ok (none, s)
      else if s.started && is_empty s.next
      then ok (none, record s { done = true })
      else elim (fetch_list_page fetch after
          (if s.started then record s { used = s.next } else s)) [
            | got t ↦ head n fetch after t
            | side_missing t ↦ ok (none, t)
            | fetch_failed ↦ err ListFail.upstream
          ]
]

unfoldable pub tail_items : List Item → List Item
tail_items [] = []
tail_items (a ∷ bs) = bs

-- items = items[1:]
unfoldable pub pop : ListSide → ListSide
unfolding tail_items
pop s = record s { items = tail_items s.items }

-- The entry taken, and the two sides after it; nothing when both streams are finished.
unfoldable pub take_least :
    Option Item → ListSide → Option Item → ListSide → Option (Item × ListSide × ListSide)
unfolding pop
take_least none ps none ss = none
take_least (some p) ps none ss = some (p, pop ps, ss)
take_least none ps (some s) ss = some (s, ps, pop ss)
take_least (some p) ps (some s) ss =
    if str_lt p.name s.name
    then some (p, pop ps, ss)
    else if str_lt s.name p.name
    then some (s, ps, pop ss)
    else some (p, pop ps, pop ss)

pub record Taken : Type 0 where
  pub emitted : List Item
  pub primary : ListSide
  pub source : ListSide
  pub ended : Bool

unfoldable pub add_taken : Item → Taken → Taken
add_taken a t = record t { emitted = a ∷ t.emitted }

module _ (pages : ℕ) (primary source : Backend) (after : Str) where
  -- The loop, with the number of entries that are still to be emitted.
  unfoldable pub merge_loop : ℕ → ListSide → ListSide → Result ListFail Taken
  unfolding head take_least add_taken
  merge_loop zero ps ss = ok (record { emitted = []; primary = ps; source = ss; ended = false })
  merge_loop (suc n) ps ss = head pages primary after ps >>= λ (ph, ps').
      head pages source after ss >>= λ (sh, ss'). elim (take_least ph ps' sh ss') [
        | none ↦ ok (record { emitted = []; primary = ps'; source = ss'; ended = true })
        | some (a, ps2, ss2) ↦ merge_loop n ps2 ss2 >>= λ t. ok (add_taken a t)
      ]

-- The token of the next page: where both sides stand, and the last name that was sent.
unfoldable pub next_token : ListSide → ListSide → List Item → Option MergeToken
next_token ps ss [] = none
next_token ps ss (a ∷ []) =
    some (record { p = ps.used; pd = ps.done; s = ss.used; sd = ss.done; last = a.name })
next_token ps ss (a ∷ b ∷ bs) = next_token ps ss (b ∷ bs)

-- What the client is answered: MaxKeys falls to the number of entries where both streams ended first.
pub record Listed : Type 0 where
  pub emitted : List Item
  pub truncated : Bool
  pub next : Option MergeToken
  pub max_keys : ℕ

abbrev opened : Str → Bool → ListSide
opened used done = record {
  used = used;
  next = [];
  done = done;
  started = false;
  missing = false;
  items = [];
}

module _ (pages : ℕ) (primary source : Backend) where
  unfoldable pub answer_listing :
      ℕ → Taken → Option Item → ListSide → Option Item → ListSide → Option Listed
  unfolding next_token
  answer_listing max_keys t ph ps sh ss =
      let truncated = is_some ph || is_some sh in
      if ps.missing && ss.missing
      then none
      else some (record {
        emitted = t.emitted;
        truncated = truncated;
        next = (if truncated then next_token ps ss t.emitted else none);
        max_keys = (if t.ended then length t.emitted else max_keys);
      })

  -- mergeListing, from the page size and the token that the request names; nothing where the bucket is
  -- on neither cluster, NoSuchBucket.
  unfoldable pub merge_listing : ℕ → MergeToken → Result ListFail (Option Listed)
  unfolding merge_loop head answer_listing
  merge_listing max_keys tok =
      merge_loop pages primary source tok.last max_keys (opened tok.p tok.pd) (opened tok.s tok.sd)
      >>= λ t. head pages primary tok.last t.primary >>= λ (ph, ps).
          head pages source tok.last t.source >>= λ (sh, ss).
          ok (answer_listing max_keys t ph ps sh ss)
