-- ===== src/Admission/Barriers/Kept.antt =====
-- internal/proxy/gates.go: which gates the gate keeper keeps closed.
use shunt.Base.{
  ◌≡◌, inl, inr, refl, sym, ap, ◌∙◌, Str, str_eq, str_eq_iff, Bool, false, ◌&&◌, ◌||◌, Option, none,
  some, [], ◌∷◌, if◌then◌else◌, get, put, has, Unique, Unique-put, arith, Bool-cases,
}
use shunt.Admission.Gates.{Kind, Closed, open_closed, Closures, gate}
use shunt.Admission.Gates.Applying.{shut, shut_open, listed, shut-apply}
use shunt.Admission.Barriers.{
  Directory, closed_at, derive, GateKeeper, join_closed, join_closures, closures_of, older,
  apply_locked,
}
use shunt.Admission.Barriers.Derived.{closed_at-put, bars, derive-bars}
use shunt.Admission.Barriers.Distinct.{derive-Unique}

shut-join_closed : (a b : Closed) (k : Kind) → shut (join_closed a b) k ≡ (shut a k || shut b k)
unfolding join_closed
shut-join_closed a b Kind.mutations = ground arith
shut-join_closed a b Kind.source = ground arith

closed_at-none : (m : Closures) (j : Str) → has m j ≡ false → closed_at m j ≡ open_closed
unfolding closed_at
closed_at-none m j h = ground (arith, h)

join_closures-other :
    (cs m : Closures) (j : Str)
    → has m j ≡ false
    → closed_at (join_closures cs m) j ≡ closed_at cs j
unfolding join_closures get
join_closures-other cs [] j h = refl
join_closures-other cs ((key, c) ∷ m) j h =
    join_closures-other (put cs key (join_closed (closed_at cs key) c)) m j (ground (arith, h))
    ∙ rw closed_at-put (ground (arith, h))

closed_at-cons :
    (key : Str) (c : Closed) (m : Closures) (j : Str)
    → closed_at ((key, c) ∷ m) j ≡ (if str_eq key j then c else closed_at m j)
unfolding closed_at get
closed_at-cons key c m j = ground arith

none_listed : (j : Str) → has {V = Closed} [] j ≡ false
unfolding get
none_listed j = refl

closed_at-listed : (m : Closures) (j : Str) → closed_at m j ≡ listed (get m j)
unfolding closed_at
closed_at-listed m j = ground arith

shut-join_closures :
    (cs m : Closures) (j : Str) (k : Kind)
    → Unique m
    → shut (closed_at (join_closures cs m) j) k
      ≡ (shut (closed_at cs j) k || shut (closed_at m j) k)
unfolding join_closures
shut-join_closures cs [] j k u =
    ground (arith, shut_open k, ap (λ x. shut x k) (closed_at-none [] j (none_listed j)))
shut-join_closures cs ((key, c) ∷ m) j k (single, u) =
    let next = put cs key (join_closed (closed_at cs key) c) in
    elim (Bool-cases (str_eq key j)) [
      | inl e ↦
          let same : key ≡ j = (str_eq_iff key j).0 e in
          let gone : has m j ≡ false = ap (has m) (sym same) ∙ single in
          let here : closed_at next j ≡ join_closed (closed_at cs j) c =
            closed_at-put cs key j (join_closed (closed_at cs key) c)
            ∙ ground (arith, e)
            ∙ ap (λ x. join_closed (closed_at cs x) c) same in
          ap (λ x. shut x k) (join_closures-other next m j gone ∙ here)
          ∙ shut-join_closed (closed_at cs j) c k
          ∙ ap (λ x. shut (closed_at cs j) k || shut x k)
              (sym (closed_at-cons key c m j ∙ ground (arith, e)))
      | inr e ↦
          let there : closed_at next j ≡ closed_at cs j =
            closed_at-put cs key j (join_closed (closed_at cs key) c) ∙ ground (arith, e) in
          shut-join_closures next m j k u
          ∙ ap (λ x. shut x k || shut (closed_at m j) k) there
          ∙ ap (λ x. shut (closed_at cs j) k || shut x k)
              (sym (closed_at-cons key c m j ∙ ground (arith, e)))
    ]

join_closures-Unique : (cs m : Closures) → Unique cs → Unique (join_closures cs m)
unfolding join_closures
join_closures-Unique cs [] u = u
join_closures-Unique cs ((key, c) ∷ m) u =
    join_closures-Unique (put cs key (join_closed (closed_at cs key) c)) m (Unique-put cs key _ u)

-- A version that is not there bars nothing.
unfoldable pub barred_by : Option Directory → Str → Kind → Bool
barred_by none key k = false
barred_by (some d) key k = bars d key k

-- No placement stands twice in a version.
abbrev pub OneEach : Option Directory → Type 0
OneEach none = Unit
OneEach (some d) = Unique d.placements

shut-closures_of :
    (o : Option Directory) (cs : Closures) (j : Str) (k : Kind)
    → OneEach o
    → shut (closed_at (closures_of o cs) j) k ≡ (shut (closed_at cs j) k || barred_by o j k)
unfolding closures_of barred_by
shut-closures_of none cs j k u = ground arith
shut-closures_of (some d) cs j k u =
    shut-join_closures cs (derive d) j k (derive-Unique d)
    ∙ ap (λ b. shut (closed_at cs j) k || b) (derive-bars d j k u)

closures_of-Unique : (o : Option Directory) (cs : Closures) → Unique cs → Unique (closures_of o cs)
unfolding closures_of
closures_of-Unique none cs u = u
closures_of-Unique (some d) cs u = join_closures-Unique cs (derive d) u

-- The gate keeper keeps a gate closed for a kind exactly while a barrier of the installed version or of
-- the served one shuts it, or, as long as the served version is the older, while it was closed before.
pub apply_locked-shut :
    (keeper : GateKeeper) (key : Str) (k : Kind)
    → OneEach keeper.installed
    → OneEach keeper.served
    → shut (gate (apply_locked keeper).gates key).closed k ≡ (
        barred_by keeper.installed key k
        || barred_by keeper.served key k
        || (older keeper.served keeper.installed && shut (gate keeper.gates key).closed k))
unfolding apply_locked
apply_locked-shut keeper key k ui us =
    shut-apply keeper.gates cs _ behind key k
      (closures_of-Unique keeper.served _ (closures_of-Unique keeper.installed [] tt))
    ∙ ap (λ b. b || (behind && shut (gate keeper.gates key).closed k)) closes
    ∙ ground arith
  where
    cs : Closures
    cs = closures_of keeper.served (closures_of keeper.installed [])

    behind : Bool
    behind = older keeper.served keeper.installed

    closes :
        shut (listed (get cs key)) k
        ≡ (barred_by keeper.installed key k || barred_by keeper.served key k)
    closes = ground (
      arith,
      ap (λ c. shut c k) (closed_at-listed cs key),
      shut-closures_of keeper.served (closures_of keeper.installed []) key k us,
      shut-closures_of keeper.installed [] key k ui,
      ap (λ c. shut c k) (closed_at-none [] key (none_listed key)),
      shut_open k,
    )
