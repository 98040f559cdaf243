-- ===== src/Admission/Gates/Applying.antt =====
-- internal/admission/admission.go: which gates Apply leaves closed.
use shunt.Base.{
  ℕ, ◌≡◌, inl, inr, refl, sym, ap, ◌∙◌, Str, is_empty, str_eq, str_eq_iff, Bool, true, false, ◌&&◌,
  ◌||◌, not, Option, none, some, [], ◌∷◌, Map, get, has, is_some, Unique, arith, Bool-cases,
}
use shunt.Admission.Gates.{
  Kind, at, Closed, open_closed, Closures, Gate, new_gate, gate_or_new, Gates, gate, store,
  set_gate, apply_kind, apply_gate, apply_listed, open_others, apply,
}
use shunt.Admission.Gates.Steps.{gate-store, get-open_others, unlisted}

abbrev pub shut : Closed → Kind → Bool
shut c k = not (is_empty (at c k))

pub shut_open : (k : Kind) → shut open_closed k ≡ false
shut_open Kind.mutations = refl
shut_open Kind.source = refl

shut-apply_gate :
    (c : Closed) (version : ℕ) (sticky : Bool) (gt : Gate) (k : Kind)
    → shut (apply_gate c version sticky gt).closed k ≡ (shut c k || (sticky && shut gt.closed k))
unfolding apply_gate apply_kind set_gate
shut-apply_gate c version sticky gt Kind.mutations = ground arith
shut-apply_gate c version sticky gt Kind.source = ground arith

-- The closure of a key in a list of closures.
abbrev pub listed : Option Closed → Closed
listed none = open_closed
listed (some c) = c

apply_one : Option Closed → ℕ → Bool → Gate → Gate
apply_one none version sticky gt = gt
apply_one (some c) version sticky gt = apply_gate c version sticky gt

-- With each key once, a listed gate is applied once, and no other.
gate-apply_listed-Unique :
    (cs : Closures) (version : ℕ) (sticky : Bool) (g : Gates) (j : Str)
    → Unique cs
    → gate (apply_listed cs version sticky g) j ≡ apply_one (get cs j) version sticky (gate g j)
unfolding apply_listed get apply_one
gate-apply_listed-Unique [] version sticky g j u = refl
gate-apply_listed-Unique ((key, c) ∷ cs) version sticky g j (single, u) =
    let next = store g key (apply_gate c version sticky (gate g key)) in
    gate-apply_listed-Unique cs version sticky next j u ∙ elim (Bool-cases (str_eq key j)) [
      | inl e ↦
          let same : key ≡ j = (str_eq_iff key j).0 e in
          let gone : get cs j ≡ none = ground (arith, ap (has cs) (sym same) ∙ single) in
          rw (gone, apply_one)
            (rw (e, apply_one)
              (gate-store g key j (apply_gate c version sticky (gate g key))
                ∙ rw e (ap (λ x. apply_gate c version sticky (gate g x)) same)))
      | inr e ↦ rw e (
          ap (apply_one (get cs j) version sticky)
            (gate-store g key j (apply_gate c version sticky (gate g key)) ∙ ground (arith, e)))
    ]

shut-apply_one :
    (o : Option Closed) (version : ℕ) (gt : Gate) (k : Kind)
    → shut (apply_one o version true gt).closed k ≡ (shut (listed o) k || shut gt.closed k)
unfolding apply_one
shut-apply_one none version gt k = ground (arith, shut_open k)
shut-apply_one (some c) version gt k = shut-apply_gate c version true gt k

shut_new : (k : Kind) → shut new_gate.closed k ≡ false
shut_new Kind.mutations = refl
shut_new Kind.source = refl

-- Unless the closures list it, a gate is open afterwards.
shut-unlisted :
    (cs : Closures) (version : ℕ) (j : Str) (o : Option Gate) (k : Kind)
    → shut (gate_or_new (unlisted cs version j o)).closed k
      ≡ (has cs j && shut (gate_or_new o).closed k)
unfolding unlisted
shut-unlisted cs version j none k = ground (arith, shut_new k)
shut-unlisted cs version j (some gt) k =
    ground (arith, shut-apply_gate open_closed version false gt k, shut_open k)

shut-listed :
    (o : Option Closed) (version : ℕ) (gt : Gate) (k : Kind)
    → (is_some o && shut (apply_one o version false gt).closed k) ≡ shut (listed o) k
unfolding apply_one
shut-listed none version gt k = ground (arith, shut_open k)
shut-listed (some c) version gt k = ground (arith, shut-apply_gate c version false gt k)

-- After Apply a gate is closed for a kind exactly where the closures close it, or where it was closed
-- before and Apply is sticky.
pub shut-apply :
    (g : Gates) (cs : Closures) (version : ℕ) (sticky : Bool) (j : Str) (k : Kind)
    → Unique cs
    → shut (gate (apply g cs version sticky) j).closed k
      ≡ (shut (listed (get cs j)) k || (sticky && shut (gate g j).closed k))
unfolding apply
shut-apply g cs version true j k u =
    ap (λ gt. shut gt.closed k) (gate-apply_listed-Unique cs version true g j u)
    ∙ shut-apply_one (get cs j) version (gate g j) k
shut-apply g cs version false j k u =
    let l = apply_listed cs version false g in
    opened l.gates
    ∙ ap (λ gt. has cs j && shut gt.closed k) (gate-apply_listed-Unique cs version false g j u)
    ∙ shut-listed (get cs j) version (gate g j) k
    ∙ ground arith
  where
    opened :
        (m : Map Gate)
        → shut (gate_or_new (get (open_others cs version m) j)).closed k
          ≡ (has cs j && shut (gate_or_new (get m j)).closed k)
    opened m =
        ap (λ o. shut (gate_or_new o).closed k) (get-open_others cs version m j)
        ∙ shut-unlisted cs version j (get m j) k
