-- ===== src/Migrate/Route/Growth.antt =====
-- The keys that a ramp step moves (grow_ramp, of Apply in internal/directory/transition.go), and those
-- of the ramp and the hold before it (InRange and InHold of internal/migrate/route.go).
use shunt.Base.{
  ℕ, ◌*◌, ◌/◌, ◌≤◌, ◌≡◌, ◌⊎◌, ◌++◌, inl, inr, refl, ◌∙◌, Str, str_eq, str_eq_iff, contains,
  has_prefix, Bool, true, false, ◌&&◌, ◌||◌, not, none, some, any, List, [], ◌∷◌, if◌then◌else◌,
  ltb, ok, arith, Bool-cases,
}
use shunt.Base.Float.{Float64, nan, neg, pos, is_nan, le_zero, ge_one, flt, magnitude, unit}
use shunt.Directory.Types.{Ramp, RampHold, ramp_hash, hash_space}
use shunt.Directory.Guards.{Transition}
use shunt.Directory.Transition.{add_prefixes, grow_ramp, beyond_hold}
use shunt.Migrate.Hash.{key_hash}
use shunt.Migrate.Route.{in_hold, held_ramp, threshold, has_one_of, in_ratio, in_range}

-- The part of a ramp's ratio in InRange, for a hash that this build implements.
ratio_has : Float64 → ℕ → Bool
ratio_has r h = if le_zero r then false else if ge_one r then true else ltb h (threshold r)

-- A ramp with no range, by the named hash, as one test.
pub ramp_has : Ramp → Str → Bool
ramp_has r key = has_one_of key r.prefixes || ratio_has r.ratio (key_hash key)

pub in_ratio-ramp_has :
    (r : Ramp) (key : Str) → str_eq r.hash ramp_hash ≡ true → in_ratio r key ≡ ok (ramp_has r key)
unfolding in_ratio ramp_has ratio_has
in_ratio-ramp_has r key h = ground arith

threshold_mono : (a b : ℕ) → a ≤ b → a * hash_space / unit ≤ b * hash_space / unit
threshold_mono a b h = omega arith

-- A greater ratio has every hash that a smaller one has.
ratio_has_mono :
    (a b : Float64) (h : ℕ)
    → is_nan a ≡ false
    → is_nan b ≡ false
    → flt b a ≡ false
    → ratio_has a h ≡ true
    → ratio_has b h ≡ true
unfolding ratio_has is_nan flt le_zero ge_one threshold magnitude
ratio_has_mono nan b h na nb le t = cc
ratio_has_mono (neg a) b h na nb le t = cc
ratio_has_mono (pos a) nan h na nb le t = cc
ratio_has_mono (pos a) (neg b) h na nb le t = ground arith
ratio_has_mono (pos a) (pos b) h na nb le t = ground (arith, threshold_mono a b)

any-append {ℓ} :
    {A : Type ℓ} (f : A → Bool) (xs ys : List A) → any f (xs ++ ys) ≡ (any f xs || any f ys)
unfolding any
any-append f [] ys = refl
any-append f (x ∷ xs) ys = ground (arith, any-append f xs ys)

any-add_prefixes :
    (f : Str → Bool) (have ps : List Str) → any f have ≡ true → any f (add_prefixes have ps) ≡ true
unfolding add_prefixes
any-add_prefixes f have [] h = h
any-add_prefixes f have (p ∷ ps) h = elim (Bool-cases (contains have p)) [
  | inl old ↦ rw old (any-add_prefixes f have ps h)
  | inr new ↦
      rw new (any-add_prefixes f (have ++ p ∷ []) ps (rw (any-append f have (p ∷ [])) (rw h)))
]

any-contains :
    (f : Str → Bool) (xs : List Str) (x : Str) → contains xs x ≡ true → f x ≡ true → any f xs ≡ true
unfolding any contains
any-contains f [] x c t = c
any-contains f (y ∷ ys) x c t = ground (arith, str_eq_iff y x, any-contains f ys x)

-- A list none of whose members is outside two others.
any_covered :
    (f : Str → Bool) (xs a b : List Str)
    → any (λ x. not (contains a x) && not (contains b x)) xs ≡ false
    → any f xs ≡ true
    → (any f a ≡ true) ⊎ (any f b ≡ true)
unfolding any
any_covered f [] a b c t = cc
any_covered f (x ∷ xs) a b c t =
    ground (arith, any-contains f a x, any-contains f b x, any_covered f xs a b)

-- What grow_ramp accepts: the same hash, a ratio no smaller, the old prefixes and the new.
record IsGrown (old : Ramp) (t : Transition) (r : Ramp) : Type 0 where
  hash : str_eq old.hash ramp_hash ≡ true
  same_hash : r.hash ≡ old.hash
  range : r.range ≡ none
  ratio : (r.ratio ≡ old.ratio) ⊎ ((r.ratio ≡ t.ratio) × (flt t.ratio old.ratio ≡ false))
  prefixes : r.prefixes ≡ add_prefixes old.prefixes t.prefixes
  within : t.hold ≡ false → beyond_hold old r old.hold ≡ none

grow_ramp-IsGrown :
    (old : Ramp) (t : Transition) (r : Ramp) → grow_ramp old t ≡ ok r → IsGrown old t r
unfolding grow_ramp
grow_ramp-IsGrown old t r h = ground arith

-- InRange on a ramp of every key, by the hash that the grown ramp keeps.
pub in_range-ramp_has :
    (r : Ramp) (key : Str)
    → r.range ≡ none
    → str_eq r.hash ramp_hash ≡ true
    → in_range (some r) key ≡ ok (ramp_has r key)
unfolding in_range
in_range-ramp_has r key e h = rw (← in_ratio-ramp_has r key h) (ground (arith, e))

pub grown_form :
    (old : Ramp) (t : Transition) (r : Ramp)
    → grow_ramp old t ≡ ok r
    → (str_eq old.hash ramp_hash ≡ true) × (str_eq r.hash ramp_hash ≡ true) × (r.range ≡ none)
grown_form old t r e =
    let g = grow_ramp-IsGrown old t r e in (g.hash, rw g.same_hash g.hash, g.range)

-- Every key that the old ramp moved is moved by the grown one.
pub grown_keeps :
    (old : Ramp) (t : Transition) (r : Ramp) (key : Str)
    → grow_ramp old t ≡ ok r
    → is_nan old.ratio ≡ false
    → is_nan t.ratio ≡ false
    → ramp_has old key ≡ true
    → ramp_has r key ≡ true
unfolding ramp_has has_one_of
grown_keeps old t r key e na nt h =
    let g = grow_ramp-IsGrown old t r e in
    elim (Bool-cases (any (has_prefix key) old.prefixes)) [
      | inl p ↦ rw g.prefixes (rw (any-add_prefixes (has_prefix key) old.prefixes t.prefixes p))
      | inr q ↦
          let had : ratio_has old.ratio (key_hash key) ≡ true = rw q at h in
          elim g.ratio [
            | inl same ↦ ground (arith, had, same)
            | inr more ↦
                ground
                  (arith, more, ratio_has_mono old.ratio t.ratio (key_hash key) na nt more.1 had)
          ]
    ]

-- Every key that a completed step moves was moved before or lies in the step's hold.
pub grown_within :
    (old : Ramp) (h : RampHold) (t : Transition) (r : Ramp) (key : Str)
    → grow_ramp old t ≡ ok r
    → old.hold ≡ some h
    → t.hold ≡ false
    → is_nan old.ratio ≡ false
    → is_nan t.ratio ≡ false
    → is_nan h.ratio ≡ false
    → ramp_has r key ≡ true
    → (ramp_has old key ≡ true) ⊎ (ramp_has (held_ramp old h) key ≡ true)
unfolding ramp_has has_one_of beyond_hold
grown_within old h t r key e eh eo na nt nh m =
    elim (Bool-cases (any (has_prefix key) r.prefixes)) [
      | inl p ↦
          elim (any_covered (has_prefix key) r.prefixes old.prefixes h.prefixes (ground (arith, w))
            p) [ inl a ↦ inl (rw a) | inr b ↦ inr (rw b) ]
      | inr q ↦
          let has : ratio_has r.ratio (key_hash key) ≡ true = rw q at m in
          let nr : is_nan r.ratio ≡ false = ground (arith, g.ratio) in
          elim (Bool-cases (flt h.ratio r.ratio)) [
            | inr le ↦
                inr (or_right _ _ (ratio_has_mono r.ratio h.ratio (key_hash key) nr nh le has))
            | inl lt ↦ inl (
                or_right _ _
                  (ratio_has_mono r.ratio old.ratio (key_hash key) nr na (ground (arith, w)) has))
          ]
    ]
  where
    g : IsGrown old t r
    g = grow_ramp-IsGrown old t r e

    w : beyond_hold old r (some h) ≡ none
    w = rw eh at (g.within eo)

    or_right : (a b : Bool) → b ≡ true → (a || b) ≡ true
    or_right a b k = ground arith

pub in_hold-held_ramp :
    (r : Ramp) (h : RampHold) (key : Str)
    → r.hold ≡ some h
    → in_hold (some r) key ≡ in_range (some (held_ramp r h)) key
unfolding in_hold
in_hold-held_ramp r h key e = ground (arith, e)

-- A step of a ramp of every key, from RAMPING to RAMPING, keeps each key that the ramp had moved.
-- No ratio is a NaN.
pub grow_ramp_keeps :
    (old : Ramp) (t : Transition) (r : Ramp) (key : Str)
    → grow_ramp old t ≡ ok r
    → old.range ≡ none
    → is_nan old.ratio ≡ false
    → is_nan t.ratio ≡ false
    → in_range (some old) key ≡ ok true
    → in_range (some r) key ≡ ok true
grow_ramp_keeps old t r key e eg no_ nt a =
    let (form, form', all_) = grown_form old t r e in
    ground (
      arith,
      in_range-ramp_has old key eg form,
      in_range-ramp_has r key all_ form',
      grown_keeps old t r key e no_ nt,
      a,
    )

-- Completing a held step of a ramp of every key, from RAMPING to RAMPING, moves no key but those
-- that the ramp had moved and those that its hold had closed. No ratio is a NaN.
pub grow_ramp_stays :
    (old : Ramp) (h : RampHold) (t : Transition) (r : Ramp) (key : Str)
    → grow_ramp old t ≡ ok r
    → old.range ≡ none
    → old.hold ≡ some h
    → t.hold ≡ false
    → is_nan old.ratio ≡ false
    → is_nan t.ratio ≡ false
    → is_nan h.ratio ≡ false
    → in_range (some old) key ≡ ok false
    → in_hold (some old) key ≡ ok false
    → in_range (some r) key ≡ ok false
grow_ramp_stays old h t r key e eg eh eo no_ nt nh a b =
    let (form, form', all_) = grown_form old t r e in
    let before = in_range-ramp_has old key eg form in
    let after = in_range-ramp_has r key all_ form' in
    let hold = in_hold-held_ramp old h key eh ∙ in_range-ramp_has (held_ramp old h) key eg form in
    let within = grown_within old h t r key e eh eo no_ nt nh in
    elim (Bool-cases (ramp_has r key)) [
      | inl m ↦ ground (arith, before, hold, within m, a, b)
      | inr m ↦ rw after (rw m)
    ]
