-- ===== src/Control/Fence/Reached.antt =====
-- internal/control: what the end of a wait for a version says of the fleet.
use shunt.Base.{
  ℕ, ◌≤◌, ◌≡◌, ◌⊎◌, ◌↔◌, inl, inr, refl, ap, Str, Bool, true, false, ◌||◌, List, [], ◌∷◌, ◌++◌,
  null, All, arith, Bool-cases,
}
use shunt.Directory.File.{Identity}
use shunt.Control.{Blocker}
use shunt.Control.Store.{identity_eq}
use shunt.Control.Drain.{Member, is_retired, unresolved_blockers}
use shunt.Control.Drain.Drained.{append_nil, unresolved_none}
use shunt.Control.Fence.{
  has_version, version_blockers_of, version_blockers, waiting, Poll, fence_round,
}

-- A member that routes by the version or a later one, or has retired.
abbrev pub HasReached : Identity → ℕ → Member → Type 0
HasReached cur v m = (is_retired m ≡ true) ⊎ ((identity_eq m.identity cur ≡ true) × (v ≤ m.applied))

-- A member that stands in no step's way: no process of it ended unresolved, and it has retired or is live
-- and routes by the version.
abbrev pub IsReady : Identity → ℕ → Member → Type 0
IsReady cur v m =
    (m.unresolved ≡ [])
    × ((is_retired m ≡ true)
        ⊎ ((m.live ≡ true) × (identity_eq m.identity cur ≡ true) × (v ≤ m.applied)))

IsReady-clear :
    (cur : Identity) (v : ℕ) (m : Member) → IsReady cur v m → version_blockers_of cur v m ≡ []
unfolding version_blockers_of unresolved_blockers
IsReady-clear cur v m (u, r) = rw (u) (ground (arith, r))

IsReady-of :
    (cur : Identity) (v : ℕ) (m : Member) → version_blockers_of cur v m ≡ [] → IsReady cur v m
unfolding version_blockers_of
IsReady-of cur v m h =
    let (a, b) = append_nil (unresolved_blockers m.id m.unresolved) _ h in
    (
      unresolved_none m.id m.unresolved a,
      elim (Bool-cases (is_retired m)) [
        | inl r ↦ inl r
        | inr r ↦ inr (ground (arith, b, r), ground (arith, b, r), ground (arith, b, r))
      ],
    )

append_both : (xs ys : List Blocker) → xs ≡ [] → ys ≡ [] → xs ++ ys ≡ []
append_both [] ys e f = f
append_both (x ∷ xs) ys e f = absurd (ground (arith, e))

-- Nothing keeps a version from being on the fleet exactly when every member has retired, or is live on
-- the directory's lineage with its requests routed by that version or a later one, and no process of
-- any member ended unresolved.
pub version_blockers_iff :
    (cur : Identity) (v : ℕ) (ms : List Member)
    → (version_blockers cur v ms ≡ []) ↔ All (IsReady cur v) ms
unfolding version_blockers
version_blockers_iff cur v [] = (λ _. tt, λ _. refl)
version_blockers_iff cur v (m ∷ ms) =
    let rest = version_blockers_iff cur v ms in
    (
      λ h.
          let (a, b) = append_nil (version_blockers_of cur v m) (version_blockers cur v ms) h in
          (IsReady-of cur v m a, rest.0 b),
      λ (r, rs). append_both _ _ (IsReady-clear cur v m r) (rest.1 rs),
    )

null_nil : (xs : List Str) → null xs ≡ true → xs ≡ []
null_nil [] e = refl
null_nil (x ∷ xs) e = absurd (ground (arith, e))

waiting_none :
    (strict : Bool) (cur : Identity) (v : ℕ) (ms : List Member)
    → waiting strict cur v ms ≡ []
    → All (λ m. ((strict ≡ false) × (m.live ≡ false)) ⊎ HasReached cur v m) ms
unfolding waiting has_version
waiting_none strict cur v [] h = tt
waiting_none strict cur v (m ∷ ms) h = elim (Bool-cases (is_retired m)) [
  | inl r ↦ (inr (inl r), waiting_none strict cur v ms (ground (arith, h, r)))
  | inr r ↦ elim (Bool-cases (has_version cur v m)) [
    | inl g ↦ (
      inr (inr (ground (arith, g), ground (arith, g))),
      waiting_none strict cur v ms (ground (arith, h, r, g)),
    )
    | inr g ↦ elim (Bool-cases (strict || m.live)) [
      | inl l ↦ absurd (ground (arith, h, r, g, l))
      | inr l ↦ (
        inl (ground (arith, l), ground (arith, l)),
        waiting_none strict cur v ms (ground (arith, h, r, g, l)),
      )
    ]
  ]
]

-- A fence round that ends with nobody to wait for read, in one of its polls, a fleet whose members all
-- have retired or have the version; a round that is not strict may pass over those that are not live.
pub fence_round-reached :
    (strict : Bool) (v : ℕ) (p : Poll) (polls : List Poll)
    → fence_round strict v p polls ≡ []
    → (before : List Poll) × (q : Poll) × (after : List Poll) × (p ∷ polls ≡ before ++ q ∷ after)
      × All (λ m. ((strict ≡ false) × (m.live ≡ false)) ⊎ HasReached q.identity v m) q.members
unfolding fence_round
fence_round-reached strict v p [] h =
    ([], p, [], refl, waiting_none strict p.identity v p.members h)
fence_round-reached strict v p (q ∷ polls) h =
    elim (Bool-cases (null (waiting strict p.identity v p.members))) [
      | inl e ↦ ([], p, q ∷ polls, refl, waiting_none strict p.identity v p.members (null_nil _ e))
      | inr e ↦
          let (before, r, after, split, reached) =
            fence_round-reached strict v q polls (ground (arith, h, e)) in
          (p ∷ before, r, after, ap (λ l. p ∷ l) split, reached)
    ]
