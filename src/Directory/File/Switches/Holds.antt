-- ===== src/Directory/File/Switches/Holds.antt =====
-- A read-only change that is called off, and a drain barrier that is cleared.
use shunt.Base.{
  ◌≡◌, inl, inr, refl, ap, ◌∙◌, Str, is_empty, str_eq, str_eq_iff, str_eq_refl, has_prefix, Bool,
  true, false, ◌&&◌, none, some, ◌++◌, if◌then◌else◌, Map, get, put, get-put, ok, err, arith,
  Result-cases,
}
use shunt.Directory.Types.{Barrier, Placement, conflict, barrier_mutations}
use shunt.Directory.File.{File, placement_key, placement_at, set_placement, lacks}
use shunt.Directory.File.Switches.{
  set_placement_read_only, switch_barrier, set_barrier, clear_barrier, release_read_only,
  release_placement, trim_prefix, placement_scheme, cluster_scheme,
}

put_back :
    (m : Map Placement) (k : Str) (p q : Placement) (j : Str)
    → get m k ≡ some p
    → get (put (put m k q) k p) j ≡ get m j
put_back m k p q j e = ground (arith, get-put (put m k q) k j p, get-put m k j q, str_eq_iff k j, e)

placement_at-put :
    (f : File) (k : Str) (q : Placement) → placement_at (set_placement f k q) k ≡ ok q
unfolding placement_at
placement_at-put f k q = ground (arith, get-put f.placements k k q, str_eq_refl k)

placement_at-get :
    (f : File) (k : Str) (p : Placement) → get f.placements k ≡ some p → placement_at f k ≡ ok p
unfolding placement_at
placement_at-get f k p e = ground arith

cleared_at :
    (f : File) (tenant bucket : Str) (b : Barrier) (p : Placement) (id : Str)
    → placement_at f (placement_key tenant bucket) ≡ ok (record p { barrier = some b })
    → clear_barrier f tenant bucket id ≡ (
        if str_eq b.id id
        then ok (set_placement f (placement_key tenant bucket) (record p { barrier = none }))
        else err conflict)
unfolding clear_barrier lacks
cleared_at f tenant bucket b p id e = ground arith

get-placement_at :
    (f : File) (k : Str) (p : Placement) → placement_at f k ≡ ok p → get f.placements k ≡ some p
unfolding placement_at
get-placement_at f k p e = ground arith

set_barrier-ok :
    (f g : File) (tenant bucket : Str) (b : Barrier)
    → set_barrier f tenant bucket b ≡ ok g
    → (p : Placement) × (get f.placements (placement_key tenant bucket) ≡ some p)
      × (g ≡ set_placement f (placement_key tenant bucket) (record p { barrier = some b }))
      × (p.barrier ≡ none)
unfolding set_barrier
set_barrier-ok f g tenant bucket b e =
    elim (Result-cases (placement_at f (placement_key tenant bucket))) [
      | inl (p, a) ↦ (p, get-placement_at f _ p a, ground (arith, a, e), ground (arith, a, e))
      | inr (x, a) ↦ absurd (ground (arith, a, e))
    ]

-- A drain barrier that SetBarrier wrote on a placement is cleared under its own id, and under no
-- other; clearing it gives every placement back as it was.
pub clear_barrier-set_barrier :
    (f g : File) (tenant bucket : Str) (b : Barrier)
    → set_barrier f tenant bucket b ≡ ok g
    → (h : File) × ((id : Str)
        → clear_barrier g tenant bucket id ≡ (if str_eq b.id id then ok h else err conflict))
      × ((j : Str) → get h.placements j ≡ get f.placements j)
clear_barrier-set_barrier f g tenant bucket b e =
    let k = placement_key tenant bucket in
    let (p, had, form, bare) = set_barrier-ok f g tenant bucket b e in
    let there = placement_at-put f k (record p { barrier = some b }) in
    (
      set_placement g k (record p { barrier = none }),
      λ id. cleared_at g tenant bucket b p id (rw form there),
      λ j. rw form (
          put_back f.placements k (record p { barrier = none }) _ j (had ∙ ap some (ground arith))),
    )

-- The file after a read-only switch.
switched :
    (f g : File) (tenant bucket : Str) (reject : Bool) (id : Str)
    → set_placement_read_only f tenant bucket true reject id ≡ ok g
    → is_empty id ≡ false
    → (p : Placement) × (get f.placements (placement_key tenant bucket) ≡ some p)
      × (g
          ≡ set_placement f (placement_key tenant bucket) (record p {
            read_only = true;
            reject_writes = reject;
            barrier = some (record { id = id; kind = barrier_mutations });
          }))
unfolding set_placement_read_only switch_barrier
switched f g tenant bucket reject id e n =
    elim (Result-cases (placement_at f (placement_key tenant bucket))) [
      | inl (p, a) ↦ (p, get-placement_at f _ p a, ground (arith, a, e))
      | inr (x, a) ↦ absurd (ground (arith, a, e))
    ]

trim_placement :
    (k : Str)
    → (has_prefix (placement_scheme ++ k) cluster_scheme ≡ false)
      × (trim_prefix (placement_scheme ++ k) placement_scheme ≡ k)
unfolding trim_prefix has_prefix str_eq
trim_placement k = (refl, refl)

-- What a hold's release does, by the placement's resource key.
released_at :
    (f : File) (k : Str) (p : Placement) (b : Barrier) (read_only reject : Bool)
    → placement_at f k ≡ ok p
    → p.barrier ≡ some b
    → release_read_only f (placement_scheme ++ k) b.id read_only reject
      ≡ ok (
          set_placement f k (record p {
            read_only = read_only;
            reject_writes = read_only && reject;
            barrier = none;
          }))
unfolding release_read_only release_placement lacks
released_at f k p b read_only reject e h =
    let (other, trimmed) = trim_placement k in
    ground (arith, other, trimmed, e, h, str_eq_refl b.id)

-- A placement with no barrier, which rejects writes only where it is read-only, is made read-only
-- with a hold whose id is not empty, and the hold is then released with the switch that it
-- replaced: every placement is as it was.
pub release_read_only-set_placement_read_only :
    (f g : File) (tenant bucket : Str) (reject : Bool) (id : Str) (p : Placement)
    → get f.placements (placement_key tenant bucket) ≡ some p
    → p.barrier ≡ none
    → (p.read_only ≡ false → p.reject_writes ≡ false)
    → is_empty id ≡ false
    → set_placement_read_only f tenant bucket true reject id ≡ ok g
    → (h : File) × (release_read_only g
          (placement_scheme ++ placement_key tenant bucket)
          id
          p.read_only
          p.reject_writes
        ≡ ok h)
      × ((j : Str) → get h.placements j ≡ get f.placements j)
release_read_only-set_placement_read_only f g tenant bucket reject id p had bare off n e =
    let k = placement_key tenant bucket in
    let (q, had', form) = switched f g tenant bucket reject id e n in
    let same : q ≡ p = cc in
    let b : Barrier = record { id = id; kind = barrier_mutations } in
    let held = record q { read_only = true; reject_writes = reject; barrier = some b } in
    let back =
      released_at g k held b p.read_only p.reject_writes (rw form (placement_at-put f k held))
        refl in
    (
      _,
      back,
      λ j.
          rw form (put_back f.placements k _ _ j (had ∙ ap some (ground (arith, same, bare, off)))),
    )
