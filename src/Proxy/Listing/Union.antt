-- ===== src/Proxy/Listing/Union.antt =====
-- internal/proxy/merge.go: what the merge of two listings is to give.
use shunt.Base.{ℕ, zero, suc, str_lt, List, [], ◌∷◌, if◌then◌else◌}
use shunt.Proxy.Listing.{Item}

-- The entries of both, in order; of two with one name, the primary's.
unfoldable pub union : List Item → List Item → List Item
union [] ys = ys
union (x ∷ xs) [] = x ∷ xs
union (x ∷ xs) (y ∷ ys) =
    let before = union xs (y ∷ ys) in
    let behind = union (x ∷ xs) ys in
    let both = union xs ys in
    if str_lt x.name y.name
    then x ∷ before
    else if str_lt y.name x.name
    then y ∷ behind
    else x ∷ both

unfoldable pub drop : ℕ → List Item → List Item
drop zero xs = xs
drop (suc n) [] = []
drop (suc n) (x ∷ xs) = drop n xs
