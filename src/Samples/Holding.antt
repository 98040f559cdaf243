-- ===== src/Samples/Holding.antt =====
-- The hold of a read-only change, released and committed.
use shunt.Base.{
  ℕ, zero, suc, ◌+◌, ◌<◌, ◌≡◌, refl, Str, lit, is_empty, Bool, true, false, ◌&&◌, Option, none,
  some, [], ◌∷◌, arith,
}
use shunt.Directory.Types.{Barrier, barrier_mutations, Placement}
use shunt.Directory.File.{File, lacks}
use shunt.Control.Holds.{CancelEnd, end_cancel, read_only_switch}
use shunt.Control.Holds.Race.{scope_of, still}
use shunt.Control.Holds.Cancel.{prior_switch, canceled_never_committed}
use shunt.Samples.{resting}
use shunt.Samples.Filing.{file}
use shunt.Samples.Operating.{held_barrier, draining}

abbrev barrier : Barrier
barrier = record { id = lit "op-1"; kind = barrier_mutations }

abbrev photos : Placement → File
photos p = record file { placements = (lit "acme/photos", p) ∷ [] }

-- The hold is written; then it is committed, or released.
abbrev pub held : File
held = photos (record resting { read_only = true; barrier = some barrier })

abbrev committed : File
committed = photos (record resting { read_only = true })

abbrev released : File
released = photos resting

abbrev pub scope : Str
scope = scope_of (lit "acme") (lit "photos")

releases : end_cancel held held draining ≡ (CancelEnd.canceled, released)
unfolding end_cancel shunt.Base.has_prefix shunt.Base.get shunt.Base.str_eq shunt.Base.put
releases = refl

canceled_never_committed_example :
    (0 + 0 + 0 ≡ 0) × (read_only_switch released scope ≡ prior_switch held_barrier)
unfolding shunt.Directory.File.placement_key
canceled_never_committed_example =
    canceled_never_committed (lit "acme") (lit "photos") refl refl refl draining held_barrier refl
      refl refl (omega arith) {f = held} {seen = held} {now = held} {done = released}
      {after = released} still still releases still
