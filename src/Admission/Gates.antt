-- ===== src/Admission/Gates.antt =====
-- internal/admission/admission.go: one gate for each placement. A method runs under the gate's lock, so
-- it is one step from one state of the gates to the next. A nil *Gates, which admits everything and
-- counts nothing, is not modelled.
pub mod Steps
pub mod Entering
pub mod Accounting
pub mod Applying
use shunt.Base.{
  ℕ, Str, lit, is_empty, Bool, true, false, ◌&&◌, ◌||◌, not, Option, none, some, [], ◌∷◌,
  if◌then◌else◌, ltb, Map, get, put, has,
}
use shunt.Base.Int.{ℤ, pos, inc, dec}

pub data Kind : Type 0 where
  mutations source : Kind

-- An array indexed by Kind.
pub record PerKind {ℓ} (A : Type ℓ) : Type ℓ where
  pub mutations : A
  pub source : A

abbrev pub at {ℓ} : {A : Type ℓ} → PerKind A → Kind → A
at a Kind.mutations = a.mutations
at a Kind.source = a.source

abbrev pub set_at {ℓ} : {A : Type ℓ} → PerKind A → Kind → A → PerKind A
set_at a Kind.mutations v = record a { mutations = v }
set_at a Kind.source v = record a { source = v }

pub data Outcome : Type 0 where
  definitive uncertain : Outcome

-- What closes each gate, "" for open.
abbrev pub Closed : Type 0
Closed = PerKind Str

pub record Gate : Type 0 where
  pub closed : Closed
  pub from : ℕ
  pub inflight : PerKind ℤ
  pub uncertain : PerKind ℤ

abbrev pub open_closed : Closed
open_closed = record { mutations = lit ""; source = lit "" }

abbrev pub new_gate : Gate
new_gate = record {
  closed = open_closed;
  from = 0;
  inflight = record { mutations = pos 0; source = pos 0 };
  uncertain = record { mutations = pos 0; source = pos 0 };
}

pub record Gates : Type 0 where
  pub gates : Map Gate
  pub uncertain : ℤ

-- New
abbrev pub no_gates : Gates
no_gates = record { gates = []; uncertain = pos 0 }

abbrev pub gate_or_new : Option Gate → Gate
gate_or_new none = new_gate
gate_or_new (some gt) = gt

-- LoadOrStore: a gate is made on first use.
unfoldable pub gate : Gates → Str → Gate
gate g key = gate_or_new (get g.gates key)

abbrev pub store : Gates → Str → Gate → Gates
store g key gt = record g { gates = put g.gates key gt }

pub record Token : Type 0 where
  pub key : Str
  pub kind : Kind

pub data Entry : Type 0 where
  admitted : Token → Entry
  refused : Str → Entry

abbrev pub superseded : Str
superseded = lit "(superseded)"

unfoldable pub enter : Gates → Str → Kind → ℕ → Gates × Entry
enter g key kind version =
    let gt = gate g key in
    if not (is_empty (at gt.closed kind))
    then (store g key gt, refused (at gt.closed kind))
    else if ltb version gt.from
    then (store g key gt, refused superseded)
    else (
      store g key (record gt { inflight = set_at gt.inflight kind (inc (at gt.inflight kind)) }),
      admitted (record { key = key; kind = kind }),
    )

abbrev pub is_uncertain : Outcome → Bool
is_uncertain Outcome.uncertain = true
is_uncertain Outcome.definitive = false

-- Release of a token that Enter gave: its gate is there.
unfoldable pub release : Gates → Token → Outcome → Gates
release g t o =
    let gt = gate g t.key in
    let down = record gt { inflight = set_at gt.inflight t.kind (dec (at gt.inflight t.kind)) } in
    if is_uncertain o
    then record {
      gates =
          put g.gates t.key
            (record down { uncertain = set_at gt.uncertain t.kind (inc (at gt.uncertain t.kind)) });
      uncertain = inc g.uncertain;
    }
    else store g t.key down

-- gate.set
unfoldable pub set_gate : Gate → Kind → Str → ℕ → Gate
set_gate gt kind barrier version =
    let reopened =
      if not (is_empty (at gt.closed kind)) && is_empty barrier && ltb gt.from version
      then version
      else gt.from in
    record gt { from = reopened; closed = set_at gt.closed kind barrier }

unfoldable pub close : Gates → Str → Kind → Str → Gates
close g key kind barrier =
    let gt = gate g key in store g key (record gt { closed = set_at gt.closed kind barrier })

unfoldable pub open_gate : Gates → Str → Kind → ℕ → Gates
unfolding set_gate
open_gate g key kind version = elim (get g.gates key) [
  | none ↦ g
  | some gt ↦ store g key (set_gate gt kind (lit "") version)
]

abbrev pub Closures : Type 0
Closures = Map Closed

-- One kind of a gate that the closures list.
apply_kind : Closed → ℕ → Bool → Kind → Gate → Gate
unfolding set_gate
apply_kind c version sticky kind gt =
    if not (is_empty (at c kind)) || not sticky then set_gate gt kind (at c kind) version else gt

unfoldable pub apply_gate : Closed → ℕ → Bool → Gate → Gate
unfolding apply_kind
apply_gate c version sticky gt =
    apply_kind c version sticky Kind.source (apply_kind c version sticky Kind.mutations gt)

pub apply_listed : Closures → ℕ → Bool → Gates → Gates
unfolding apply_gate gate
apply_listed [] version sticky g = g
apply_listed ((key, c) ∷ rest) version sticky g =
    apply_listed rest version sticky (store g key (apply_gate c version sticky (gate g key)))

-- Every gate that the closures do not list is opened.
pub open_others : Closures → ℕ → Map Gate → Map Gate
unfolding apply_gate
open_others closures version [] = []
open_others closures version ((key, gt) ∷ rest) =
    (key, (if has closures key then gt else apply_gate open_closed version false gt))
    ∷ open_others closures version rest

unfoldable pub apply : Gates → Closures → ℕ → Bool → Gates
unfolding apply_listed open_others
apply g closures version sticky =
    let listed = apply_listed closures version sticky g in
    if sticky then listed else record listed { gates = open_others closures version listed.gates }
