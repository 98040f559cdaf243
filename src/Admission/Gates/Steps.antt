-- ===== src/Admission/Gates/Steps.antt =====
-- What each operation does to the gate of each placement.
use shunt.Base.{
  ℕ, ◌≤◌, ◌≡◌, inl, inr, refl, Str, lit, is_empty, str_eq, str_eq_iff, Bool, true, false, Option,
  none, some, [], ◌∷◌, if◌then◌else◌, Map, get, has, get-put, arith, Bool-cases,
}
use shunt.Base.Int.{inc, dec}
use shunt.Admission.Gates.{
  Kind, at, set_at, Outcome, Closed, open_closed, Gate, gate_or_new, Gates, gate, store, Token,
  admitted, refused, enter, is_uncertain, release, set_gate, close, open_gate, Closures, apply_gate,
  apply_listed, open_others, apply,
}

pub gate-store :
    (g : Gates) (key j : Str) (gt : Gate)
    → gate (store g key gt) j ≡ (if str_eq key j then gt else gate g j)
unfolding gate
gate-store g key j gt = ground (arith, get-put g.gates key j gt)

-- A gate with more or fewer tokens out, and no other change.
abbrev pub count_in : Gate → Kind → Gate
count_in gt k = record gt { inflight = set_at gt.inflight k (inc (at gt.inflight k)) }

-- What Enter admits: the gate is open, the request's version is not older than the last reopening,
-- and the token counts.
pub record IsAdmitted (g : Gates) (key : Str) (kind : Kind) (version : ℕ) (t : Token) (g' : Gates)
    : Type 0 where
  pub token_key : t.key ≡ key
  pub token_kind : t.kind ≡ kind
  pub is_open : is_empty (at (gate g key).closed kind) ≡ true
  pub not_older : (gate g key).from ≤ version
  pub counted :
      (j : Str) → gate g' j ≡ (if str_eq key j then count_in (gate g key) kind else gate g j)

pub enter-IsAdmitted :
    (g : Gates) (key : Str) (kind : Kind) (version : ℕ) (t : Token)
    → (enter g key kind version).1 ≡ admitted t
    → IsAdmitted g key kind version t (enter g key kind version).0
unfolding enter
enter-IsAdmitted g key kind version t h = record {
  token_key = ground arith;
  token_kind = ground arith;
  is_open = ground arith;
  not_older = ground arith;
  counted = λ j. ground (arith, gate-store g key j (count_in (gate g key) kind));
}

-- A refused request changes no gate.
pub enter-refused :
    (g : Gates) (key : Str) (kind : Kind) (version : ℕ) (b : Str) (j : Str)
    → (enter g key kind version).1 ≡ refused b
    → gate (enter g key kind version).0 j ≡ gate g j
unfolding enter
enter-refused g key kind version b j h =
    ground (arith, str_eq_iff key j, gate-store g key j (gate g key))

-- The gate after a release.
abbrev pub count_out : Gate → Kind → Outcome → Gate
count_out gt k o =
    let down = record gt { inflight = set_at gt.inflight k (dec (at gt.inflight k)) } in
    if is_uncertain o
    then record down { uncertain = set_at gt.uncertain k (inc (at gt.uncertain k)) }
    else down

pub gate-release :
    (g : Gates) (t : Token) (o : Outcome) (j : Str)
    → gate (release g t o) j
      ≡ (if str_eq t.key j then count_out (gate g t.key) t.kind o else gate g j)
unfolding release gate
gate-release g t o j = ground (arith, get-put g.gates t.key j (count_out (gate g t.key) t.kind o))

pub gate-close :
    (g : Gates) (key : Str) (kind : Kind) (b : Str) (j : Str)
    → gate (close g key kind b) j ≡ (
        if str_eq key j
        then record (gate g key) { closed = set_at (gate g key).closed kind b }
        else gate g j)
unfolding close
gate-close g key kind b j = gate-store g key j _

-- A gate that is not there is as good as open, and opening it changes nothing.
pub gate-open_gate :
    (g : Gates) (key : Str) (kind : Kind) (version : ℕ) (j : Str)
    → gate (open_gate g key kind version) j
      ≡ (if str_eq key j then set_gate (gate g key) kind (lit "") version else gate g j)
unfolding open_gate gate set_gate
gate-open_gate g key kind version j =
    ground
      (arith, str_eq_iff key j, get-put g.gates key j (set_gate (gate g key) kind (lit "") version))

-- A gate that the closures do not list is opened; one that was never made stays so.
unfoldable pub unlisted : Closures → ℕ → Str → Option Gate → Option Gate
unlisted cs version j none = none
unlisted cs version j (some gt) =
    some (if has cs j then gt else apply_gate open_closed version false gt)

pub get-open_others :
    (cs : Closures) (version : ℕ) (m : Map Gate) (j : Str)
    → get (open_others cs version m) j ≡ unlisted cs version j (get m j)
unfolding open_others get unlisted
get-open_others cs version [] j = refl
get-open_others cs version ((key, gt) ∷ rest) j =
    ground (arith, str_eq_iff key j, get-open_others cs version rest j)

unlisted-keeps :
    (P : Gate → Type 0) (cs : Closures) (version : ℕ) (j : Str) (o : Option Gate)
    → ((gt : Gate) → P gt → P (apply_gate open_closed version false gt))
    → P (gate_or_new o)
    → P (gate_or_new (unlisted cs version j o))
unfolding unlisted
unlisted-keeps P cs version j none opened h = h
unlisted-keeps P cs version j (some gt) opened h = elim (Bool-cases (has cs j)) [
  | inl e ↦ rw e h
  | inr e ↦ rw e (opened gt h)
]

-- What a listed gate becomes, and what any other does.
gate-apply_listed :
    (P : Gate → Type 0) (cs : Closures) (version : ℕ) (sticky : Bool) (g : Gates) (j : Str)
    → ((c : Closed) (gt : Gate) → P gt → P (apply_gate c version sticky gt))
    → P (gate g j)
    → P (gate (apply_listed cs version sticky g) j)
unfolding apply_listed
gate-apply_listed P [] version sticky g j keep h = h
gate-apply_listed P ((key, c) ∷ rest) version sticky g j keep h =
    gate-apply_listed P rest version sticky _ j keep (
      rw gate-store (elim (Bool-cases (str_eq key j)) [
        | inl e ↦ rw e (keep c (gate g key) (rw ((str_eq_iff key j).0 e) h))
        | inr e ↦ rw e h
      ]))

-- A property of gates that each gate's part of Apply keeps is kept by Apply.
pub gate-apply :
    (P : Gate → Type 0) (g : Gates) (cs : Closures) (version : ℕ) (sticky : Bool) (j : Str)
    → ((c : Closed) (gt : Gate) → P gt → P (apply_gate c version sticky gt))
    → ((gt : Gate) → P gt → P (apply_gate open_closed version false gt))
    → P (gate g j)
    → P (gate (apply g cs version sticky) j)
unfolding apply
gate-apply P g cs version true j keep opened h = gate-apply_listed P cs version true g j keep h
gate-apply P g cs version false j keep opened h =
    let l = apply_listed cs version false g in
    let h' : P (gate_or_new (get l.gates j)) =
      unfold gate in gate-apply_listed P cs version false g j keep h in
    unfold gate in
    rw (get-open_others cs version l.gates j)
      (unlisted-keeps P cs version j (get l.gates j) opened h')
