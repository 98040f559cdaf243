-- ===== src/Admission/Gates/Entering.antt =====
-- internal/admission/admission.go: what a gate admits while it is closed and after it reopens.
use shunt.Base.{
  ℕ, ◌≤◌, ◌<◌, ◌≡◌, ◌≢◌, ◌⊎◌, inl, inr, refl, sym, ap, subst, Str, lit, is_empty, str_eq_iff, Bool,
  true, false, ◌||◌, not, arith, Bool-cases,
}
use shunt.Admission.Gates.{
  Kind, at, Outcome, Closed, open_closed, Gate, Gates, gate, Token, Entry, admitted, refused, enter,
  release, set_gate, close, open_gate, Closures, apply_kind, apply_gate, apply,
}
use shunt.Admission.Gates.Steps.{
  enter-IsAdmitted, enter-refused, gate-release, gate-close, gate-open_gate, gate-apply,
}

-- One use of a proxy's gates, by a request or by the gate keeper.
pub data Use : Gates → Gates → Type 0 where
  enters : (g : Gates) (key : Str) (kind : Kind) (version : ℕ) → Use g (enter g key kind version).0
  releases : (g : Gates) (t : Token) (o : Outcome) → Use g (release g t o)
  closes : (g : Gates) (key : Str) (kind : Kind) (b : Str) → Use g (close g key kind b)
  opens : (g : Gates) (key : Str) (kind : Kind) (version : ℕ) → Use g (open_gate g key kind version)
  applies :
      (g : Gates) (cs : Closures) (version : ℕ) (sticky : Bool) → Use g (apply g cs version sticky)

pub data Uses (g : Gates) : Gates → Type 0 where
  here : Uses g g
  next : {h k : Gates} → Uses g h → Use h k → Uses g k

set_gate-from :
    (gt : Gate) (kind : Kind) (b : Str) (version n : ℕ)
    → n ≤ gt.from
    → n ≤ (set_gate gt kind b version).from
unfolding set_gate
set_gate-from gt kind b version n h = ground arith

apply_kind-from :
    (c : Closed) (version : ℕ) (sticky : Bool) (kind : Kind) (gt : Gate) (n : ℕ)
    → n ≤ gt.from
    → n ≤ (apply_kind c version sticky kind gt).from
unfolding apply_kind
apply_kind-from c version sticky kind gt n h =
    elim (Bool-cases (not (is_empty (at c kind)) || not sticky)) [
      | inl e ↦ rw e (set_gate-from gt kind (at c kind) version n h)
      | inr e ↦ rw e h
    ]

apply_gate-from :
    (c : Closed) (version : ℕ) (sticky : Bool) (gt : Gate) (n : ℕ)
    → n ≤ gt.from
    → n ≤ (apply_gate c version sticky gt).from
unfolding apply_gate
apply_gate-from c version sticky gt n h =
    apply_kind-from c version sticky Kind.source _ n
      (apply_kind-from c version sticky Kind.mutations gt n h)

enter-from :
    (g : Gates) (key : Str) (kind : Kind) (version : ℕ) (j : Str)
    → (gate (enter g key kind version).0 j).from ≡ (gate g j).from
enter-from g key kind version j = by_entry (enter g key kind version).1 refl
  where
    by_entry :
        (e : Entry)
        → e ≡ (enter g key kind version).1
        → (gate (enter g key kind version).0 j).from ≡ (gate g j).from
    by_entry (admitted t) e =
        let a = enter-IsAdmitted g key kind version t (sym e) in
        ground (arith, a.counted j, str_eq_iff key j)
    by_entry (refused b) e = ap (λ x. x.from) (enter-refused g key kind version b j (sym e))

-- The version that a gate last reopened at never falls.
Use-from : {g h : Gates} (j : Str) (n : ℕ) → Use g h → n ≤ (gate g j).from → n ≤ (gate h j).from
Use-from j n (enters g key kind version) le = rw enter-from le
Use-from j n (releases g t o) le = rw gate-release (ground (arith, str_eq_iff t.key j))
Use-from j n (closes g key kind b) le = rw gate-close (ground (arith, str_eq_iff key j))
Use-from j n (opens g key kind version) le =
    rw gate-open_gate
      (ground (arith, str_eq_iff key j, set_gate-from (gate g key) kind (lit "") version n))
Use-from j n (applies g cs version sticky) le =
    gate-apply (λ gt. n ≤ gt.from) g cs version sticky j
      (λ c gt h. apply_gate-from c version sticky gt n h)
      (λ gt h. apply_gate-from open_closed version false gt n h) le

Uses-from : {g h : Gates} (j : Str) (n : ℕ) → n ≤ (gate g j).from → Uses g h → n ≤ (gate h j).from
Uses-from j n le here = le
Uses-from j n le (next us u) = Use-from j n u (Uses-from j n le us)

-- A gate is closed for a kind, or last reopened at a version or later.
abbrev ClosedOrSince : Kind → ℕ → Gate → Type 0
ClosedOrSince kind version gt = (is_empty (at gt.closed kind) ≡ false) ⊎ (version ≤ gt.from)

set_gate-ClosedOrSince :
    (kind other : Kind) (b : Str) (version : ℕ) (gt : Gate)
    → ClosedOrSince kind version gt
    → ClosedOrSince kind version (set_gate gt other b version)
unfolding set_gate
set_gate-ClosedOrSince Kind.mutations Kind.mutations b version gt h = ground (arith, h)
set_gate-ClosedOrSince Kind.mutations Kind.source b version gt h = ground (arith, h)
set_gate-ClosedOrSince Kind.source Kind.mutations b version gt h = ground (arith, h)
set_gate-ClosedOrSince Kind.source Kind.source b version gt h = ground (arith, h)

apply_kind-ClosedOrSince :
    (kind other : Kind) (c : Closed) (version : ℕ) (sticky : Bool) (gt : Gate)
    → ClosedOrSince kind version gt
    → ClosedOrSince kind version (apply_kind c version sticky other gt)
unfolding apply_kind
apply_kind-ClosedOrSince kind other c version sticky gt h =
    elim (Bool-cases (not (is_empty (at c other)) || not sticky)) [
      | inl e ↦ rw e (set_gate-ClosedOrSince kind other (at c other) version gt h)
      | inr e ↦ rw e h
    ]

apply_gate-ClosedOrSince :
    (kind : Kind) (c : Closed) (version : ℕ) (sticky : Bool) (gt : Gate)
    → ClosedOrSince kind version gt
    → ClosedOrSince kind version (apply_gate c version sticky gt)
unfolding apply_gate
apply_gate-ClosedOrSince kind c version sticky gt h =
    apply_kind-ClosedOrSince kind Kind.source c version sticky _
      (apply_kind-ClosedOrSince kind Kind.mutations c version sticky gt h)

-- What sets gates at a directory version: Apply, by the barriers of a directory, or Open of one gate.
pub data SetAt (version : ℕ) : Gates → Gates → Type 0 where
  applied :
      (g : Gates) (cs : Closures) (sticky : Bool) → SetAt version g (apply g cs version sticky)
  opened : (g : Gates) (key : Str) (kind : Kind) → SetAt version g (open_gate g key kind version)

SetAt-ClosedOrSince :
    (version : ℕ) (kind : Kind) (j : Str) {g h : Gates}
    → SetAt version g h
    → ClosedOrSince kind version (gate g j)
    → ClosedOrSince kind version (gate h j)
SetAt-ClosedOrSince version kind j (applied g cs sticky) c =
    gate-apply (ClosedOrSince kind version) g cs version sticky j
      (λ c gt h. apply_gate-ClosedOrSince kind c version sticky gt h)
      (λ gt h. apply_gate-ClosedOrSince kind open_closed version false gt h) c
SetAt-ClosedOrSince version kind j (opened g key other) c =
    subst (ClosedOrSince kind version) (sym (gate-open_gate g key other version j)) (
      ground (
        arith,
        c,
        str_eq_iff key j,
        set_gate-ClosedOrSince kind other (lit "") version (gate g key),
      ))

-- A gate that a barrier had closed, and that is open once the gates are set at a directory version,
-- by the barriers of that version's directory or alone, admits from then on and whatever uses the
-- gates in between no request that routes by an older version, through either of the placement's
-- gates.
pub reopened_supersedes :
    {g now h : Gates} (key : Str) (kind any_kind : Kind) (version older : ℕ) (t : Token)
    → is_empty (at (gate g key).closed kind) ≡ false
    → SetAt version g now
    → is_empty (at (gate now key).closed kind) ≡ true
    → older < version
    → Uses now h
    → (enter h key any_kind older).1 ≢ admitted t
reopened_supersedes {g} {now} {h} key kind any_kind version older t closed set free lt us e =
    let a = enter-IsAdmitted h key any_kind older t e in
    elim (SetAt-ClosedOrSince version kind key set (inl closed)) [
      | inl c ↦ absurd (ground (arith, c, free))
      | inr since ↦ absurd (omega (arith, a.not_older, Uses-from key version since us))
    ]

enter-closed :
    (g : Gates) (key : Str) (kind : Kind) (version : ℕ)
    → is_empty (at (gate g key).closed kind) ≡ false
    → (enter g key kind version).1 ≡ refused (at (gate g key).closed kind)
unfolding enter
enter-closed g key kind version c = ground arith

-- A request at a gate that a barrier closes is refused with the barrier's name, at any version, and
-- leaves every gate as it was.
pub closed_admits_none :
    (g : Gates) (key : Str) (kind : Kind) (version : ℕ)
    → is_empty (at (gate g key).closed kind) ≡ false
    → ((enter g key kind version).1 ≡ refused (at (gate g key).closed kind))
      × ((j : Str) → gate (enter g key kind version).0 j ≡ gate g j)
closed_admits_none g key kind version c =
    let r = enter-closed g key kind version c in (r, λ j. enter-refused g key kind version _ j r)
