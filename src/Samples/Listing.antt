-- ===== src/Samples/Listing.antt =====
-- A bucket that is listed from two clusters.
use shunt.Base.{
  ℕ, ◌≡◌, ◌<◌, refl, Str, lit, Bool, true, false, Option, none, some, List, [], ◌∷◌, ◌++◌, Result,
  ok, arith,
}
use shunt.Proxy.Listing.{Item, Page, page, Backend, MergeToken, kept, merge_listing, Listed}
use shunt.Proxy.Listing.Streams.{last, more, unread, Holds}
use shunt.Proxy.Listing.Union.{union}
use shunt.Proxy.Listing.Answered.{IsPageOf, merge_listing-union}

abbrev object : Str → Str → Item
object name obj = record { name = name; prefix = false; obj = obj }

abbrev page1 : Page
page1 = record {
  items = object (lit "a") (lit "new") ∷ object (lit "c") (lit "new") ∷ [];
  next = lit "t";
}

abbrev page2 : Page
page2 = record { items = object (lit "d") (lit "new") ∷ []; next = lit "" }

abbrev old_page : Page
old_page = record {
  items = object (lit "b") (lit "old") ∷ object (lit "c") (lit "old") ∷ [];
  next = lit "";
}

-- The primary has two pages, the source one.
abbrev primary : Backend
primary [] name = page page1
primary (c ∷ cs) name = page page2

abbrev source : Backend
source token name = page old_page

abbrev from_start : MergeToken
from_start = record { p = []; pd = false; s = []; sd = false; last = [] }

holds : Holds primary []
holds [] = refl
holds (c ∷ cs) = refl

abbrev first_names : List Item
first_names = kept [] page1 ++ kept [] page2

merge_listing-union_example :
    (l : Listed) × (merge_listing 3 primary source 2 from_start ≡ ok (some l))
    × IsPageOf 2 (union first_names (kept [] old_page)) l
merge_listing-union_example =
    merge_listing-union 3 2 2 1 primary source from_start first_names (kept [] old_page)
      (omega arith) (omega arith) holds
      (unread refl refl (more page1 refl refl (last page2 refl refl)))
      (unread refl refl (last old_page refl refl))

-- The first page has the entries a of the primary and b of the source.
first_page : (union first_names (kept [] old_page)) ≡ (
    object (lit "a") (lit "new")
    ∷ object (lit "b") (lit "old")
    ∷ object (lit "c") (lit "new")
    ∷ object (lit "d") (lit "new")
    ∷ [])
unfolding union kept shunt.Base.str_lt
first_page = refl
