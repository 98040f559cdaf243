-- ===== src/Control/Fence.antt =====
-- internal/control: waiting for a version of the directory to be on the fleet. ops.go: versionBlockers, the
-- rounds of precondition, and settle's count; fleet.go: fenceRound and Member.Has. What is read of the
-- fleet at each poll is an argument.
pub mod Reached
use shunt.Base.{
  ℕ, suc, Str, Bool, ◌&&◌, ◌||◌, not, List, [], ◌∷◌, ◌++◌, if◌then◌else◌, ltb, leb, null,
}
use shunt.Base.Int.{pos}
use shunt.Directory.File.{Identity}
use shunt.Control.{BlockerCode, Blocker}
use shunt.Control.Store.{identity_eq}
use shunt.Control.Drain.{Member, is_retired, blocker, unresolved_blockers}

-- Member.Has
unfoldable pub has_version : Identity → ℕ → Member → Bool
has_version cur v m = identity_eq m.identity cur && leb v m.applied

-- One round of versionBlockers' loop over the members.
version_blockers_of : Identity → ℕ → Member → List Blocker
unfolding is_retired has_version unresolved_blockers
version_blockers_of cur v m =
    unresolved_blockers m.id m.unresolved
    ++ (if is_retired m
        then []
        else if not m.live
        then blocker BlockerCode.proxy_missing m.id (pos 0) ∷ []
        else if not (identity_eq m.identity cur)
        then blocker BlockerCode.proxy_missing m.id (pos 0) ∷ []
        else if leb v m.installed && ltb m.applied v
        then blocker BlockerCode.install_backpressure m.id (pos 0) ∷ []
        else if not (has_version cur v m)
        then blocker BlockerCode.install_pending m.id (pos 0) ∷ []
        else [])

unfoldable pub version_blockers : Identity → ℕ → List Member → List Blocker
unfolding version_blockers_of
version_blockers cur v [] = []
version_blockers cur v (m ∷ ms) = version_blockers_of cur v m ++ version_blockers cur v ms

-- The members that a fence round waits for.
unfoldable pub waiting : Bool → Identity → ℕ → List Member → List Str
unfolding is_retired has_version
waiting strict cur v [] = []
waiting strict cur v (m ∷ ms) =
    let rest = waiting strict cur v ms in
    if (strict || m.live) && not (is_retired m) && not (has_version cur v m)
    then m.id ∷ rest
    else rest

-- What a poll reads: the directory's lineage and the members.
pub record Poll : Type 0 where
  pub identity : Identity
  pub members : List Member

-- fenceRound, from the first poll and those that follow before the wait runs out: the ids that it is
-- still waiting on.
unfoldable pub fence_round : Bool → ℕ → Poll → List Poll → List Str
unfolding waiting
fence_round strict v p [] = waiting strict p.identity v p.members
fence_round strict v p (q ∷ polls) =
    let rest = fence_round strict v q polls in
    if null (waiting strict p.identity v p.members) then [] else rest

pub record Settled : Type 0 where
  pub proxies : ℕ
  pub silent : List Str

-- settle's count of the members that are not retired.
unfoldable pub count_members : List Member → Settled
unfolding is_retired
count_members [] = record { proxies = 0; silent = [] }
count_members (m ∷ ms) =
    let rest = count_members ms in
    if is_retired m
    then rest
    else if m.live
    then record rest { proxies = suc rest.proxies }
    else record rest { silent = m.id ∷ rest.silent }
