-- ===== src/Admission/Acks/Proofs.antt =====
-- internal/admission/admission.go: what an acknowledgement says of the tokens that are out.
use shunt.Base.{
  first_byte, ℕ, ◌+◌, ◌≡◌, ◌⊎◌, inl, inr, refl, sym, ap, ◌∙◌, Str, is_empty, str_eq, str_eq_iff,
  str_lt, Bool, true, false, some, List, [], ◌∷◌, ◌++◌, drop, find, All, Map, arith, Bool-cases,
  Option-cases,
}
use shunt.Base.Int.{pos, positive}
use shunt.Directory.Types.{Placement, Barrier}
use shunt.Directory.Stamp.{placement_resource, cluster_resource}
use shunt.Admission.Gates.{Kind, at, Gates, gate, Token}
use shunt.Admission.Gates.Accounting.{Run, tokens_for, inflight_exact}
use shunt.Admission.Barriers.{Directory, kind_of}
use shunt.Admission.Acks.{
  Ack, own_acks, placements_of, add_state, add_states, empty_ack, cluster_acks, insert_ack,
  sort_acks, acks,
}

-- An acknowledgement is of a placement's own barrier or of a cluster's.
abbrev IsOwn : Gates → Ack → Type 0
IsOwn g a =
    (key : Str) × (k : Kind) × (a.scope ≡ placement_resource key)
    × (kind_of a.kind ≡ some k)
    × (a.closed ≡ str_eq (at (gate g key).closed k) a.id)
    × (a.inflight ≡ at (gate g key).inflight k)

abbrev IsClusters : Gates → Directory → Ack → Type 0
IsClusters g d a =
    (name : Str) × (start : Ack) × (a.scope ≡ cluster_resource name)
    × (start.inflight ≡ pos 0)
    × (a ≡ add_states g start (placements_of d.cluster_barriers a.id d.placements))

abbrev IsAck : Gates → Directory → Ack → Type 0
IsAck g d a = IsOwn g a ⊎ IsClusters g d a

module _ {ℓ} (P : Ack → Type ℓ) where
  All-append : (xs ys : List Ack) → All P xs → All P ys → All P (xs ++ ys)
  All-append [] ys h k = k
  All-append (x ∷ xs) ys (p, h) k = (p, All-append xs ys h k)

  All-insert_ack : (a : Ack) (xs : List Ack) → P a → All P xs → All P (insert_ack a xs)
  unfolding insert_ack
  All-insert_ack a [] p h = (p, h)
  All-insert_ack a (b ∷ bs) p (q, h) = elim (Bool-cases (str_lt b.scope a.scope)) [
    | inl e ↦ rw e (q, All-insert_ack a bs p h)
    | inr e ↦ rw e (p, (q, h))
  ]

  All-sort_acks : (xs : List Ack) → All P xs → All P (sort_acks xs)
  unfolding sort_acks
  All-sort_acks [] h = h
  All-sort_acks (x ∷ xs) (p, h) = All-insert_ack x (sort_acks xs) p (All-sort_acks xs h)

  All-find : (t : Ack → Bool) (xs : List Ack) (a : Ack) → All P xs → find t xs ≡ some a → P a
  unfolding find
  All-find t [] a h e = absurd (cc)
  All-find t (x ∷ xs) a (p, h) e = elim (Bool-cases (t x)) [
    | inl d ↦ let same : x ≡ a = ground (arith, e, d) in rw (sym same) p
    | inr d ↦ All-find t xs a h (ground (arith, e, d))
  ]

own_acks-IsAck :
    (g : Gates) (generation : Str → ℕ) (d : Directory) (m : Map Placement)
    → All (IsAck g d) (own_acks g generation m)
unfolding own_acks
own_acks-IsAck g generation d [] = tt
own_acks-IsAck g generation d ((key, p) ∷ rest) =
    let others = own_acks-IsAck g generation d rest in
    elim (Option-cases p.barrier) [
      | inl e ↦ rw e others
      | inr (b, e) ↦ elim (Option-cases (kind_of b.kind)) [
        | inl f ↦ rw (e, f) others
        | inr (k, f) ↦ rw (e, f) (inl (key, k, refl, f, refl, refl), others)
      ]
    ]

add_states-scope :
    (g : Gates) (a : Ack) (keys : List Str)
    → ((add_states g a keys).scope ≡ a.scope) × ((add_states g a keys).id ≡ a.id)
unfolding add_states add_state
add_states-scope g a [] = (refl, refl)
add_states-scope g a (key ∷ keys) = add_states-scope g (add_state g a key) keys

cluster_acks-IsAck :
    (g : Gates) (generation : Str → ℕ) (d : Directory) (m : Map Barrier)
    → All (IsAck g d) (cluster_acks g generation d m)
unfolding cluster_acks
cluster_acks-IsAck g generation d [] = tt
cluster_acks-IsAck g generation d ((name, b) ∷ rest) =
    let keys = placements_of d.cluster_barriers b.id d.placements in
    let (s, i) = add_states-scope g (empty_ack generation name b) keys in
    (
      inr (
        name,
        empty_ack generation name b,
        s,
        refl,
        ap
            (λ x.
              add_states g (empty_ack generation name b)
                (placements_of d.cluster_barriers x d.placements))
            (sym i),
      ),
      cluster_acks-IsAck g generation d rest,
    )

pub acks-IsAck :
    (g : Gates) (generation : Str → ℕ) (d : Directory) (t : Ack → Bool) (a : Ack)
    → find t (acks g generation d) ≡ some a
    → IsAck g d a
unfolding acks
acks-IsAck g generation d t a e =
    All-find (IsAck g d) t _ a
      (All-sort_acks (IsAck g d) _ (
        All-append (IsAck g d) _ _ (own_acks-IsAck g generation d d.placements)
          (cluster_acks-IsAck g generation d d.cluster_barriers)))
      e

-- No mutation is out through a placement's gate, and it is closed.
abbrev pub Idle : Gates → List Token → Str → Type 0
Idle g ts key =
    (tokens_for key Kind.mutations ts ≡ 0) × (is_empty (gate g key).closed.mutations ≡ false)

add_states-Idle :
    {g : Gates} {ts : List Token} (a : Ack) (keys : List Str) (n : ℕ)
    → Run g ts
    → a.inflight ≡ pos n
    → (add_states g a keys).closed ≡ true
    → positive (add_states g a keys).inflight ≡ false
    → (n ≡ 0) × (a.closed ≡ true) × All (Idle g ts) keys
unfolding add_states add_state
add_states-Idle a [] n r i c h = (ground (arith, i, h), c, tt)
add_states-Idle {g} {ts} a (key ∷ keys) n r i c h =
    let out = tokens_for key Kind.mutations ts in
    let here = inflight_exact key Kind.mutations r in
    let (none_out, closed, rest) =
      add_states-Idle (add_state g a key) keys (n + out) r (ground (arith, i, here)) c h in
    (
      omega (arith, none_out),
      ground (arith, closed),
      ((omega (arith, none_out), ground (arith, closed)), rest),
    )

-- What a closed acknowledgement with nothing in flight shows of a placement's gate.
pub own-Idle :
    {g : Gates} {ts : List Token} (d : Directory) (a : Ack) (key : Str) (k : Kind)
    → Run g ts
    → IsAck g d a
    → a.scope ≡ placement_resource key
    → kind_of a.kind ≡ some k
    → a.closed ≡ true
    → positive a.inflight ≡ false
    → (tokens_for key k ts ≡ 0) × (at (gate g key).closed k ≡ a.id)
own-Idle {g} {ts} d a key k r (inl (j, l, s, e, c, i)) scope kind closed h =
    let same : j ≡ key = ap (drop 10) (sym s ∙ scope) in
    let kinds : l ≡ k = ground (arith, e, kind) in
    let out : a.inflight ≡ pos (tokens_for key k ts) =
      i
      ∙ ap (λ x. at (gate g x).inflight l) same
      ∙ ap (at (gate g key).inflight) kinds
      ∙ inflight_exact key k r in
    let shut : str_eq (at (gate g key).closed k) a.id ≡ true =
      ap (λ x. str_eq (at (gate g key).closed x) a.id) (sym kinds)
      ∙ ap (λ x. str_eq (at (gate g x).closed l) a.id) (sym same)
      ∙ sym c
      ∙ closed in
    (ground (arith, h, out), (str_eq_iff (at (gate g key).closed k) a.id).0 shut)
own-Idle d a key k r (inr (name, start, s, i, e)) scope kind closed h =
    let apart : 99 ≡ 112 = ap first_byte (sym s ∙ scope) in absurd (omega (arith, apart))

-- And of the placements that a cluster's barrier closes.
pub clusters-Idle :
    {g : Gates} {ts : List Token} (d : Directory) (a : Ack) (name : Str)
    → Run g ts
    → IsAck g d a
    → a.scope ≡ cluster_resource name
    → a.closed ≡ true
    → positive a.inflight ≡ false
    → All (Idle g ts) (placements_of d.cluster_barriers a.id d.placements)
clusters-Idle d a name r (inl (j, l, s, e, c, i)) scope closed h =
    let apart : 112 ≡ 99 = ap first_byte (sym s ∙ scope) in absurd (omega (arith, apart))
clusters-Idle {g} d a name r (inr (n, start, s, i, e)) scope closed h =
    let keys = placements_of d.cluster_barriers a.id d.placements in
    (add_states-Idle start keys 0 r i (ap (λ x. x.closed) (sym e) ∙ closed)
      (ap (λ x. positive x.inflight) (sym e) ∙ h)).2
