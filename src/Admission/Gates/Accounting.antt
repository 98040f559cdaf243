-- ===== src/Admission/Gates/Accounting.antt =====
-- internal/admission/admission.go: the counts of a gate, and the tokens that are out.
use shunt.Base.{
  ℕ, suc, ◌+◌, ◌≡◌, ◌++◌, inl, inr, refl, sym, ap, ◌∙◌, Str, lit, str_eq, str_eq_iff, Bool, true,
  false, ◌&&◌, List, [], ◌∷◌, if◌then◌else◌, get, arith, Bool-cases,
}
use shunt.Base.Int.{pos, inc, dec}
use shunt.Admission.Gates.{
  Kind, at, Outcome, Closed, Gate, Gates, gate, Token, admitted, refused, enter, release, set_gate,
  close, open_gate, Closures, apply_kind, apply_gate, apply, no_gates,
}
use shunt.Admission.Gates.Steps.{
  enter-IsAdmitted, enter-refused, gate-release, gate-close, gate-open_gate, gate-apply, count_in,
  count_out,
}

abbrev kind_eq : Kind → Kind → Bool
kind_eq Kind.mutations Kind.mutations = true
kind_eq Kind.source Kind.source = true
kind_eq _ _ = false

abbrev is_for : Str → Kind → Token → Bool
is_for key kind t = str_eq t.key key && kind_eq t.kind kind

-- The tokens of a list for one placement and kind.
unfoldable pub tokens_for : Str → Kind → List Token → ℕ
tokens_for key kind [] = 0
tokens_for key kind (t ∷ ts) =
    let rest = tokens_for key kind ts in if is_for key kind t then suc rest else rest

-- A proxy's gates with the tokens that are out: taken by an admitted request, and given back once, in
-- any order.
pub data Run : Gates → List Token → Type 0 where
  start : Run no_gates []
  takes :
      {g : Gates} {ts : List Token} (key : Str) (kind : Kind) (version : ℕ) (t : Token)
      → Run g ts
      → (enter g key kind version).1 ≡ admitted t
      → Run (enter g key kind version).0 (t ∷ ts)
  turned_away :
      {g : Gates} {ts : List Token} (key : Str) (kind : Kind) (version : ℕ) (b : Str)
      → Run g ts
      → (enter g key kind version).1 ≡ refused b
      → Run (enter g key kind version).0 ts
  gives_back :
      {g : Gates} (before after : List Token) (t : Token) (o : Outcome) {ts : List Token}
      → ts ≡ before ++ t ∷ after
      → Run g ts
      → Run (release g t o) (before ++ after)
  closes :
      {g : Gates} {ts : List Token} (key : Str) (kind : Kind) (b : Str)
      → Run g ts
      → Run (close g key kind b) ts
  opens :
      {g : Gates} {ts : List Token} (key : Str) (kind : Kind) (version : ℕ)
      → Run g ts
      → Run (open_gate g key kind version) ts
  applies :
      {g : Gates} {ts : List Token} (cs : Closures) (version : ℕ) (sticky : Bool)
      → Run g ts
      → Run (apply g cs version sticky) ts

tokens_for-append :
    (key : Str) (kind : Kind) (xs ys : List Token)
    → tokens_for key kind (xs ++ ys) ≡ tokens_for key kind xs + tokens_for key kind ys
unfolding tokens_for
tokens_for-append key kind [] ys = omega arith
tokens_for-append key kind (x ∷ xs) ys = ground (arith, tokens_for-append key kind xs ys)

set_gate-inflight :
    (gt : Gate) (k : Kind) (b : Str) (version : ℕ)
    → (set_gate gt k b version).inflight ≡ gt.inflight
unfolding set_gate
set_gate-inflight gt k b version = refl

apply_gate-inflight :
    (c : Closed) (version : ℕ) (sticky : Bool) (gt : Gate)
    → (apply_gate c version sticky gt).inflight ≡ gt.inflight
unfolding apply_gate apply_kind set_gate
apply_gate-inflight c version sticky gt = ground arith

no_gates-inflight : (key : Str) (kind : Kind) → at (gate no_gates key).inflight kind ≡ pos 0
unfolding gate get
no_gates-inflight key Kind.mutations = refl
no_gates-inflight key Kind.source = refl

at-count_in :
    (gt : Gate) (k kind : Kind)
    → at (count_in gt k).inflight kind
      ≡ (if kind_eq k kind then inc (at gt.inflight kind) else at gt.inflight kind)
at-count_in gt Kind.mutations Kind.mutations = refl
at-count_in gt Kind.mutations Kind.source = refl
at-count_in gt Kind.source Kind.mutations = refl
at-count_in gt Kind.source Kind.source = refl

at-count_out :
    (gt : Gate) (k kind : Kind) (o : Outcome)
    → at (count_out gt k o).inflight kind
      ≡ (if kind_eq k kind then dec (at gt.inflight kind) else at gt.inflight kind)
at-count_out gt Kind.mutations Kind.mutations o = ground arith
at-count_out gt Kind.mutations Kind.source o = ground arith
at-count_out gt Kind.source Kind.mutations o = ground arith
at-count_out gt Kind.source Kind.source o = ground arith

-- The count after the tokens of `key` change at the gate `own`.
one_more :
    (gt : Str → Gate) (t : Token) (key : Str) (kind : Kind) (n : ℕ)
    → at (gt key).inflight kind ≡ pos n
    → at (if str_eq t.key key then count_in (gt t.key) t.kind else gt key).inflight kind
      ≡ pos (if is_for key kind t then suc n else n)
one_more gt t key kind n h = elim (Bool-cases (str_eq t.key key)) [
  | inl e ↦ rw e (rw at-count_in (rw ((str_eq_iff t.key key).0 e) (ground (arith, h))))
  | inr e ↦ rw e h
]

one_less :
    (gt : Str → Gate) (t : Token) (o : Outcome) (key : Str) (kind : Kind) (n : ℕ)
    → at (gt key).inflight kind ≡ pos (if is_for key kind t then suc n else n)
    → at (if str_eq t.key key then count_out (gt t.key) t.kind o else gt key).inflight kind ≡ pos n
one_less gt t o key kind n h = elim (Bool-cases (str_eq t.key key)) [
  | inl e ↦ rw e (rw at-count_out (rw ((str_eq_iff t.key key).0 e) (ground (arith, h, e))))
  | inr e ↦ rw e (ground (arith, h, e))
]

tokens_for-remove :
    (key : Str) (kind : Kind) (before after : List Token) (t : Token)
    → tokens_for key kind (before ++ t ∷ after) ≡ (
        if is_for key kind t
        then suc (tokens_for key kind (before ++ after))
        else tokens_for key kind (before ++ after))
unfolding tokens_for
tokens_for-remove key kind before after t =
    ground (
      arith,
      tokens_for-append key kind before (t ∷ after),
      tokens_for-append key kind before after,
    )

-- After any run, the count of each gate is the number of tokens out through it.
pub inflight_exact :
    {g : Gates} {ts : List Token} (key : Str) (kind : Kind)
    → Run g ts
    → at (gate g key).inflight kind ≡ pos (tokens_for key kind ts)
unfolding tokens_for
inflight_exact key kind start = no_gates-inflight key kind
inflight_exact key kind (takes {g} k d v t r e) =
    let a = enter-IsAdmitted g k d v t e in
    rw (a.counted key) (
      rw (sym a.token_key)
        (rw (sym a.token_kind) (one_more (gate g) t key kind _ (inflight_exact key kind r))))
inflight_exact key kind (turned_away k d v b r e) =
    rw (enter-refused _ k d v b key e) (inflight_exact key kind r)
inflight_exact key kind (gives_back {g} before after t o e r) = rw gate-release (
    one_less (gate g) t o key kind _ (
      inflight_exact key kind r
      ∙ ap pos (ap (tokens_for key kind) e ∙ tokens_for-remove key kind before after t)))
inflight_exact key kind (closes k d b r) =
    rw gate-close (ground (arith, str_eq_iff k key, inflight_exact key kind r))
inflight_exact key kind (opens {g} k d v r) = rw gate-open_gate (
    ground (
      arith,
      str_eq_iff k key,
      inflight_exact key kind r,
      set_gate-inflight (gate g k) d (lit "") v,
    ))
inflight_exact key kind (applies {g} {ts} cs v sticky r) =
    gate-apply (λ gt. at gt.inflight kind ≡ pos (tokens_for key kind ts)) g cs v sticky key
      (λ c gt h. rw apply_gate-inflight h) (λ gt h. rw apply_gate-inflight h)
      (inflight_exact key kind r)
