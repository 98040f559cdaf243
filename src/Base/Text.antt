-- ===== src/Base/Text.antt =====
-- Go's strings: sequences of bytes. Literals are written `lit "…"`.
use Prim.Native.Nat.{ℕ, ◌≤◌}
use Prim.Native.Char.{code}
use Prim.Native.String.{String}
use mathlib.Core.Path.{◌≡◌, refl}
use mathlib.Core.Logic.{◌↔◌}
use mathlib.Core.Bool.{Bool, true, false, ◌&&◌, ◌||◌}
use mathlib.Core.List.{List, [], ◌∷◌}
use native.Mathlib.Omega.{arith}
use shunt.Base.Tests.{ltb, ◌==◌}
use shunt.Base.Lists.{length}

abbrev pub Str : Type 0
Str = List ℕ

abbrev pub lit : String → Str
lit String.[] = []
lit (String.◌∷◌ c s) = code c ∷ lit s

unfoldable pub str_eq : Str → Str → Bool
str_eq [] [] = true
str_eq [] (y ∷ ys) = false
str_eq (x ∷ xs) [] = false
str_eq (x ∷ xs) (y ∷ ys) = x == y && str_eq xs ys

pub str_eq_iff : (a b : Str) → (str_eq a b ≡ true) ↔ (a ≡ b)
unfolding str_eq
str_eq_iff [] [] = (λ _. refl, λ _. refl)
str_eq_iff [] (y ∷ ys) = (λ h. cc, λ h. cc)
str_eq_iff (x ∷ xs) [] = (λ h. cc, λ h. cc)
str_eq_iff (x ∷ xs) (y ∷ ys) = ground (arith, str_eq_iff xs ys)

pub str_eq_refl : (a : Str) → str_eq a a ≡ true
str_eq_refl a = (str_eq_iff a a).1 refl

pub str_eq_sym : (a b : Str) → str_eq a b ≡ str_eq b a
str_eq_sym a b = ground (arith, str_eq_iff a b, str_eq_iff b a)

abbrev pub is_empty : Str → Bool
is_empty [] = true
is_empty (_ ∷ _) = false

-- 0 for the empty string.
abbrev pub first_byte : Str → ℕ
first_byte [] = 0
first_byte (c ∷ s) = c

-- strings.HasPrefix(s, prefix)
unfoldable pub has_prefix : Str → Str → Bool
has_prefix s [] = true
has_prefix [] (p ∷ ps) = false
has_prefix (c ∷ s) (p ∷ ps) = c == p && has_prefix s ps

-- slices.Contains on strings
unfoldable pub contains : List Str → Str → Bool
contains [] s = false
contains (x ∷ xs) s = str_eq x s || contains xs s

-- strings.Compare(a, b) < 0, bytewise.
unfoldable pub str_lt : Str → Str → Bool
str_lt [] [] = false
str_lt [] (y ∷ ys) = true
str_lt (x ∷ xs) [] = false
str_lt (x ∷ xs) (y ∷ ys) = ltb x y || (x == y && str_lt xs ys)

-- Prefixes of one string are comparable, and the longer of two has the shorter for a prefix.
pub has_prefix_trans :
    (a b c : Str) → has_prefix a b ≡ true → has_prefix b c ≡ true → has_prefix a c ≡ true
unfolding has_prefix
has_prefix_trans a b [] p q = refl
has_prefix_trans a [] (z ∷ zs) p q = cc
has_prefix_trans [] (y ∷ ys) (z ∷ zs) p q = cc
has_prefix_trans (x ∷ xs) (y ∷ ys) (z ∷ zs) p q = ground (arith, has_prefix_trans xs ys zs)

pub has_prefix-le : (a b : Str) → has_prefix a b ≡ true → length b ≤ length a
unfolding has_prefix
has_prefix-le a [] p = omega arith
has_prefix-le [] (y ∷ ys) p = cc
has_prefix-le (x ∷ xs) (y ∷ ys) p = ground (arith, has_prefix-le xs ys)

pub has_prefix_chain :
    (a b c : Str)
    → has_prefix a b ≡ true
    → has_prefix a c ≡ true
    → length c ≤ length b
    → has_prefix b c ≡ true
unfolding has_prefix
has_prefix_chain a b [] p q l = refl
has_prefix_chain a [] (z ∷ zs) p q l = absurd (omega arith)
has_prefix_chain [] (y ∷ ys) (z ∷ zs) p q l = cc
has_prefix_chain (x ∷ xs) (y ∷ ys) (z ∷ zs) p q l = ground (arith, has_prefix_chain xs ys zs)

pub has_prefix_eq : (a b : Str) → has_prefix a b ≡ true → length a ≤ length b → a ≡ b
unfolding has_prefix
has_prefix_eq [] [] p l = refl
has_prefix_eq (x ∷ xs) [] p l = absurd (omega arith)
has_prefix_eq [] (y ∷ ys) p l = cc
has_prefix_eq (x ∷ xs) (y ∷ ys) p l = ground (arith, has_prefix_eq xs ys)

pub has_prefix_refl : (a : Str) → has_prefix a a ≡ true
unfolding has_prefix
has_prefix_refl [] = refl
has_prefix_refl (x ∷ xs) = ground (arith, has_prefix_refl xs)

pub str_lt_irrefl : (a : Str) → str_lt a a ≡ false
unfolding str_lt
str_lt_irrefl [] = refl
str_lt_irrefl (x ∷ xs) = ground (arith, str_lt_irrefl xs)

pub str_lt_trans : (a b c : Str) → str_lt a b ≡ true → str_lt b c ≡ true → str_lt a c ≡ true
unfolding str_lt
str_lt_trans [] [] c p q = cc
str_lt_trans [] (y ∷ ys) [] p q = cc
str_lt_trans [] (y ∷ ys) (z ∷ zs) p q = refl
str_lt_trans (x ∷ xs) [] c p q = cc
str_lt_trans (x ∷ xs) (y ∷ ys) [] p q = cc
str_lt_trans (x ∷ xs) (y ∷ ys) (z ∷ zs) p q = ground (arith, str_lt_trans xs ys zs)

-- Of two different texts one is before the other.
pub str_lt_total : (a b : Str) → str_lt a b ≡ false → str_eq a b ≡ false → str_lt b a ≡ true
unfolding str_lt str_eq
str_lt_total [] [] p q = cc
str_lt_total [] (y ∷ ys) p q = cc
str_lt_total (x ∷ xs) [] p q = refl
str_lt_total (x ∷ xs) (y ∷ ys) p q = ground (arith, str_lt_total xs ys)
