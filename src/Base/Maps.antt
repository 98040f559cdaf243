-- ===== src/Base/Maps.antt =====
-- Go's maps with string keys, as association lists.
use mathlib.Core.Path.{◌≡◌, refl, sym}
use mathlib.Core.Logic.{inl, inr}
use mathlib.Core.Bool.{Bool, false}
use mathlib.Core.List.{List, [], ◌∷◌}
use mathlib.Core.Option.{Option, none, some}
use native.Mathlib.Omega.{arith}
use shunt.Base.Tests.{if◌then◌else◌, is_some, Bool-cases}
use shunt.Base.Text.{Str, str_eq, str_eq_iff, str_lt}

abbrev pub Map {ℓ} : Type ℓ → Type ℓ
Map V = List (Str × V)

-- slices.Sorted(maps.Keys(m)), by insertion.
unfoldable pub insert_key : Str → List Str → List Str
insert_key k [] = k ∷ []
insert_key k (x ∷ xs) = if str_lt k x then k ∷ x ∷ xs else x ∷ insert_key k xs

module _ {ℓ} {V : Type ℓ} where
  unfoldable pub get : Map V → Str → Option V
  get [] k = none
  get ((j, v) ∷ m) k = if str_eq j k then some v else get m k

  -- m[k] = v
  unfoldable pub put : Map V → Str → V → Map V
  put [] k v = (k, v) ∷ []
  put ((j, w) ∷ m) k v = if str_eq j k then (k, v) ∷ m else (j, w) ∷ put m k v

  -- delete(m, k)
  unfoldable pub remove : Map V → Str → Map V
  remove [] k = []
  remove ((j, w) ∷ m) k = let rest = remove m k in if str_eq j k then rest else (j, w) ∷ rest

  abbrev pub has : Map V → Str → Bool
  has m k = is_some (get m k)

  pub get-put :
      (m : Map V) (k j : Str) (v : V) → get (put m k v) j ≡ (if str_eq k j then some v else get m j)
  unfolding get put
  get-put [] k j v = refl
  get-put ((i, w) ∷ m) k j v =
      ground (arith, str_eq_iff k j, str_eq_iff i k, str_eq_iff i j, get-put m k j v)

  pub get-remove :
      (m : Map V) (k j : Str) → get (remove m k) j ≡ (if str_eq k j then none else get m j)
  unfolding get remove
  get-remove [] k j = ground arith
  get-remove ((i, w) ∷ m) k j =
      ground (arith, str_eq_iff k j, str_eq_iff i k, str_eq_iff i j, get-remove m k j)

  unfoldable pub sorted_keys : Map V → List Str
  unfolding insert_key
  sorted_keys [] = []
  sorted_keys ((k, v) ∷ m) = insert_key k (sorted_keys m)

  -- No key stands twice, as in every Go map.
  abbrev pub Unique : Map V → Type 0
  Unique [] = Unit
  Unique ((k, v) ∷ m) = (has m k ≡ false) × Unique m

  pub Unique-put : (m : Map V) (k : Str) (v : V) → Unique m → Unique (put m k v)
  unfolding put get
  Unique-put [] k v u = (refl, tt)
  Unique-put ((j, w) ∷ m) k v (h, u) = elim (Bool-cases (str_eq j k)) [
    | inl e ↦ rw e (let same : j ≡ k = (str_eq_iff j k).0 e in rw (sym same) (h, u))
    | inr e ↦
        rw e (
          ground (arith, h, e, get-put m k j v, str_eq_iff k j, str_eq_iff j k),
          Unique-put m k v u,
        )
  ]
