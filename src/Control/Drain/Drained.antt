-- ===== src/Control/Drain/Drained.antt =====
-- internal/control/barrier.go: what it shows of the fleet's gates that nothing stands in a barrier's way.
use shunt.Base.{
  ℕ, ◌≤◌, ◌≡◌, ◌↔◌, inl, inr, refl, sym, ap, ◌∙◌, Str, str_eq, true, false, Option, none, some,
  List, [], ◌∷◌, ◌++◌, find, All, Result, ok, arith, Option-cases,
}
use mathlib.Core.Path.{subst}
use shunt.Base.Int.{positive}
use shunt.Directory.File.{Identity}
use shunt.Directory.Stamp.{placement_resource, cluster_resource}
use shunt.Admission.Gates.{Kind, at, Gates, gate, Token}
use shunt.Admission.Gates.Accounting.{Run, tokens_for}
use shunt.Admission.Barriers.{Directory, kind_of}
use shunt.Admission.Acks.{Ack, acks, placements_of}
use shunt.Admission.Acks.Proofs.{Idle, acks-IsAck, own-Idle, clusters-Idle}
use shunt.Control.{Blocker, BarrierState, Fail}
use shunt.Control.Store.{identity_eq}
use shunt.Control.Drain.{
  Incarnation, Member, is_retired, when, ack_blockers, member_blockers, unresolved_blockers,
  blockers_of, fleet_blockers, LocalGates, local_blockers, with_extra, drain_blockers,
}

-- An acknowledgement that drains a barrier.
pub record IsDrained (ack : Ack) (durable : ℕ) (st : BarrierState) : Type 0 where
  pub installed : st.generation ≤ ack.generation
  pub closed : ack.closed ≡ true
  pub durable_hold : st.hold_version ≤ durable
  pub certain : positive ack.uncertain ≡ false
  pub nothing_out : positive ack.inflight ≡ false

ack_blockers-IsDrained :
    (id : Str) (ack : Ack) (durable : ℕ) (st : BarrierState)
    → ack_blockers id ack durable st ≡ []
    → IsDrained ack durable st
unfolding ack_blockers when
ack_blockers-IsDrained id ack durable st h = record {
  installed = ground (arith, h);
  closed = ground (arith, h);
  durable_hold = ground (arith, h);
  certain = ground (arith, h);
  nothing_out = ground (arith, h);
}

IsDrained-ack_blockers :
    (id : Str) (ack : Ack) (durable : ℕ) (st : BarrierState)
    → IsDrained ack durable st
    → ack_blockers id ack durable st ≡ []
unfolding ack_blockers when
IsDrained-ack_blockers id ack durable st d =
    ground (arith, d.installed, d.closed, d.durable_hold, d.certain, d.nothing_out)

-- Nothing of a proxy stands in the way of a barrier exactly when its acknowledgement of the barrier says
-- that it drained: the gate closed at the hold's generation or later, no request out, no outcome unknown,
-- and the hold in the restart cache.
pub member_blockers_iff :
    (id : Str) (reported : List Ack) (durable : ℕ) (st : BarrierState)
    → (member_blockers id reported durable st ≡ []) ↔ (
        (ack : Ack) × (find (λ a. str_eq a.id st.id) reported ≡ some ack)
        × IsDrained ack durable st)
unfolding member_blockers
member_blockers_iff id reported durable st =
    elim (Option-cases (find (λ a. str_eq a.id st.id) reported)) [
      | inl e ↦ (λ h. absurd (ground (arith, h, e)), λ (a, f, d). absurd (ground (arith, e, f)))
      | inr (ack, e) ↦ (
        λ h. (ack, e, ack_blockers-IsDrained id ack durable st (ground (arith, h, e))),
        λ (a, f, d).
            let same : ack ≡ a = ground (arith, e, f) in
            rw (e, member_blockers) (rw same (IsDrained-ack_blockers id a durable st d)),
      )
    ]

-- What is left of a member that no blocker names, and that has not retired.
record IsClear (cur : Identity) (st : BarrierState) (m : Member) : Type 0 where
  resolved : m.unresolved ≡ []
  live : m.live ≡ true
  lineage : identity_eq m.identity cur ≡ true
  drained : member_blockers m.id m.barriers m.durable st ≡ []

pub append_nil : (xs ys : List Blocker) → xs ++ ys ≡ [] → (xs ≡ []) × (ys ≡ [])
append_nil [] ys h = (refl, h)
append_nil (x ∷ xs) ys h = absurd (cc)

pub unresolved_none :
    (id : Str) (incs : List Incarnation) → unresolved_blockers id incs ≡ [] → incs ≡ []
unfolding unresolved_blockers
unresolved_none id [] h = refl
unresolved_none id (inc ∷ incs) h = absurd (cc)

blockers_of-IsClear :
    (cur : Identity) (st : BarrierState) (m : Member)
    → blockers_of cur st m ≡ []
    → is_retired m ≡ false
    → IsClear cur st m
unfolding blockers_of
blockers_of-IsClear cur st m h r =
    let (a, b) = append_nil (unresolved_blockers m.id m.unresolved) _ h in
    record {
      resolved = unresolved_none m.id m.unresolved a;
      live = ground (arith, b, r);
      lineage = ground (arith, b, r);
      drained = ground (arith, b, r);
    }

fleet_blockers-of :
    (cur : Identity) (st : BarrierState) (before after : List Member) (m : Member)
    → fleet_blockers cur st (before ++ m ∷ after) ≡ []
    → blockers_of cur st m ≡ []
unfolding fleet_blockers
fleet_blockers-of cur st [] after m h = (append_nil (blockers_of cur st m) _ h).0
fleet_blockers-of cur st (b ∷ before) after m h =
    fleet_blockers-of cur st before after m (append_nil (blockers_of cur st b) _ h).1

with_extra-none :
    (out : List Blocker) (extra : Option (Result Fail (List Blocker)))
    → with_extra out extra ≡ ok []
    → out ≡ []
unfolding with_extra
with_extra-none out none h = cc
with_extra-none [] (some more) h = refl
with_extra-none (b ∷ out) (some more) h = absurd (ground (arith, h))

drain_blockers-fleet :
    (cur : Identity) (st : BarrierState) (ms : List Member) (local : Option LocalGates)
    (extra : Option (Result Fail (List Blocker)))
    → drain_blockers cur st ms local extra ≡ ok []
    → fleet_blockers cur st ms ≡ []
unfolding drain_blockers
drain_blockers-fleet cur st ms local extra h =
    (append_nil (fleet_blockers cur st ms) (local_blockers local st) (with_extra-none _ extra h)).0

member-IsClear :
    (cur : Identity) (st : BarrierState) (before after : List Member) (m : Member)
    (local : Option LocalGates) (extra : Option (Result Fail (List Blocker)))
    → drain_blockers cur st (before ++ m ∷ after) local extra ≡ ok []
    → is_retired m ≡ false
    → IsClear cur st m
member-IsClear cur st before after m local extra h =
    blockers_of-IsClear cur st m
      (fleet_blockers-of cur st before after m (drain_blockers-fleet cur st _ local extra h))

member-IsDrained :
    (cur : Identity) (st : BarrierState) (before after : List Member) (m : Member)
    (local : Option LocalGates) (extra : Option (Result Fail (List Blocker))) (a : Ack)
    → drain_blockers cur st (before ++ m ∷ after) local extra ≡ ok []
    → is_retired m ≡ false
    → find (λ a. str_eq a.id st.id) m.barriers ≡ some a
    → IsDrained a m.durable st
member-IsDrained cur st before after m local extra a h r found =
    let c = member-IsClear cur st before after m local extra h r in
    let (b, f, w) = (member_blockers_iff m.id m.barriers m.durable st).0 c.drained in
    let same : b ≡ a = ground (arith, f, found) in subst (λ x. IsDrained x m.durable st) same w

-- When nothing stands in the way of a placement's barrier, a member of the fleet that has not retired is
-- live, on the directory's lineage and without unresolved processes; its gate for the placement is
-- closed by the barrier, with no request out through it; and the hold is in its restart cache. Its
-- acknowledgements are those of its gates after any run of them.
pub drained_placement :
    {g : Gates} {ts : List Token} (cur : Identity) (st : BarrierState) (before after : List Member)
    (m : Member) (local : Option LocalGates) (extra : Option (Result Fail (List Blocker)))
    (generation : Str → ℕ) (d : Directory) (a : Ack) (key : Str) (k : Kind)
    → drain_blockers cur st (before ++ m ∷ after) local extra ≡ ok []
    → is_retired m ≡ false
    → Run g ts
    → m.barriers ≡ acks g generation d
    → find (λ a. str_eq a.id st.id) m.barriers ≡ some a
    → a.scope ≡ placement_resource key
    → kind_of a.kind ≡ some k
    → (m.live ≡ true)
      × (identity_eq m.identity cur ≡ true)
      × (m.unresolved ≡ [])
      × (st.hold_version ≤ m.durable)
      × (tokens_for key k ts ≡ 0)
      × (at (gate g key).closed k ≡ a.id)
drained_placement cur st before after m local extra generation d a key k h r run from found scope
      kind =
    let c = member-IsClear cur st before after m local extra h r in
    let w = member-IsDrained cur st before after m local extra a h r found in
    let own =
      own-Idle d a key k run (acks-IsAck _ generation d _ a (ap (find _) (sym from) ∙ found)) scope
        kind w.closed w.nothing_out in
    (c.live, c.lineage, c.resolved, w.durable_hold, own.0, own.1)

-- The same of a cluster's barrier: no request is out through the gate of any placement that it closes.
pub drained_cluster :
    {g : Gates} {ts : List Token} (cur : Identity) (st : BarrierState) (before after : List Member)
    (m : Member) (local : Option LocalGates) (extra : Option (Result Fail (List Blocker)))
    (generation : Str → ℕ) (d : Directory) (a : Ack) (name : Str)
    → drain_blockers cur st (before ++ m ∷ after) local extra ≡ ok []
    → is_retired m ≡ false
    → Run g ts
    → m.barriers ≡ acks g generation d
    → find (λ a. str_eq a.id st.id) m.barriers ≡ some a
    → a.scope ≡ cluster_resource name
    → All (Idle g ts) (placements_of d.cluster_barriers a.id d.placements)
drained_cluster cur st before after m local extra generation d a name h r run from found scope =
    let w = member-IsDrained cur st before after m local extra a h r found in
    clusters-Idle d a name run (acks-IsAck _ generation d _ a (ap (find _) (sym from) ∙ found))
      scope w.closed w.nothing_out
