-- ===== src/Control/Holds/Race.antt =====
-- internal/control: a cancellation of a placement's read-only change (barrier.go) against the owners that
-- may still commit it (readonly.go), in any order of their writes of the directory.
use shunt.Base.{
  ℕ, suc, ◌≡◌, inl, inr, refl, sym, ap, ◌∙◌, Str, is_empty, str_eq_refl, Bool, true, false, ◌&&◌,
  not, Option, none, some, [], ◌∷◌, ◌++◌, if◌then◌else◌, ◌==◌, has_prefix, get, get-put, ok, err,
  Result-cases, arith, Bool-cases, Option-cases,
}
use shunt.Directory.Types.{Placement, Err}
use shunt.Directory.File.{File, placement_key, placement_at, set_placement, lacks}
use shunt.Directory.File.Switches.{placement_scheme, trim_prefix, clear_barrier, release_read_only}
use shunt.Migrate.UploadId.{cut}
use shunt.Control.Holds.{
  split_key, carried_by, barrier_of_placement, carries_barrier, clear_scope_barrier,
  cleared_meanwhile, Switch, no_switch, read_only_switch, Commit, read_only_commit,
}

-- A placement's resource key.
abbrev pub scope_of : Str → Str → Str
scope_of tenant bucket = placement_scheme ++ placement_key tenant bucket

-- No slash in a tenant's name.
abbrev pub slashless : Str → Bool
slashless [] = true
slashless (c ∷ s) = not (c == 47) && slashless s

split_key-placement_key :
    (tenant bucket : Str)
    → slashless tenant ≡ true
    → split_key (placement_key tenant bucket) ≡ (tenant, bucket)
unfolding split_key placement_key cut
split_key-placement_key [] bucket h = refl
split_key-placement_key (c ∷ s) bucket h = ground (arith, h, split_key-placement_key s bucket)

-- The directory's other writers, while an operation runs: commits of its own change, counted, and writes
-- that leave the switch of its scope as it is, which the operation reserved.
pub data Meanwhile (scope id : Str) (f : File) : ℕ → File → Type 0 where
  still : Meanwhile scope id f 0 f
  commits :
      {n : ℕ} {g h : File}
      → Meanwhile scope id f n g
      → read_only_commit g scope id ≡ Commit.committed h
      → Meanwhile scope id f (suc n) h
  elsewhere :
      {n : ℕ} {g h : File}
      → Meanwhile scope id f n g
      → read_only_switch h scope ≡ read_only_switch g scope
      → Meanwhile scope id f n h

unfoldable pub switch_at : Option Placement → Switch
switch_at none = no_switch
switch_at (some p) = record {
  read_only = p.read_only;
  reject = p.reject_writes;
  barrier = p.barrier;
}

switch_at-barrier : (o : Option Placement) → carried_by o ≡ (switch_at o).barrier
unfolding switch_at
switch_at-barrier none = refl
switch_at-barrier (some p) = refl

abbrev pub without_barrier : Switch → Switch
without_barrier s = record s { barrier = none }

module _ (tenant bucket : Str) where
  read_only_switch-placement :
      (f : File)
      → read_only_switch f (scope_of tenant bucket)
        ≡ switch_at (get f.placements (placement_key tenant bucket))
  unfolding read_only_switch trim_prefix has_prefix switch_at
  read_only_switch-placement f = refl

  barrier_of_placement-switch :
      (f : File)
      → barrier_of_placement f (tenant, bucket)
        ≡ (switch_at (get f.placements (placement_key tenant bucket))).barrier
  unfolding barrier_of_placement
  barrier_of_placement-switch f = switch_at-barrier (get f.placements (placement_key tenant bucket))

  pub carries_barrier-switch :
      (f : File) (id : Str)
      → slashless tenant ≡ true
      → carries_barrier f (scope_of tenant bucket) id
        ≡ not (lacks (read_only_switch f (scope_of tenant bucket)).barrier id)
  unfolding carries_barrier trim_prefix has_prefix
  carries_barrier-switch f id h =
      ap (λ k. not (lacks (barrier_of_placement f k) id)) (split_key-placement_key tenant bucket h)
      ∙ ap (λ b. not (lacks b id))
          (barrier_of_placement-switch f ∙ sym (ap (λ s. s.barrier) (read_only_switch-placement f)))

  pub switch-set_placement :
      (f : File) (p : Placement)
      → read_only_switch (set_placement f (placement_key tenant bucket) p) (scope_of tenant bucket)
        ≡ switch_at (some p)
  switch-set_placement f p =
      read_only_switch-placement (set_placement f (placement_key tenant bucket) p)
      ∙ ap switch_at (
          get-put f.placements (placement_key tenant bucket) (placement_key tenant bucket) p
          ∙ ground (arith, str_eq_refl (placement_key tenant bucket)))

  clear_barrier-switch :
      (f g : File) (id : Str)
      → clear_barrier f tenant bucket id ≡ ok g
      → (p : Placement) × (read_only_switch f (scope_of tenant bucket) ≡ switch_at (some p))
        × (lacks p.barrier id ≡ false)
        × (read_only_switch g (scope_of tenant bucket)
            ≡ switch_at (some (record p { barrier = none })))
  unfolding clear_barrier placement_at
  clear_barrier-switch f g id e =
      elim (Option-cases (get f.placements (placement_key tenant bucket))) [
        | inl d ↦ absurd (ground (arith, e, d))
        | inr (p, d) ↦
            let made : g
                ≡ set_placement f (placement_key tenant bucket) (record p { barrier = none }) =
              ground (arith, e, d) in
            (
              p,
              read_only_switch-placement f ∙ ap switch_at d,
              ground (arith, e, d),
              ap (λ x. read_only_switch x (scope_of tenant bucket)) made
                  ∙ switch-set_placement f (record p { barrier = none }),
            )
      ]

  module _ (t : slashless tenant ≡ true) (nt : is_empty tenant ≡ false)
      (nb : is_empty bucket ≡ false) where
    clear_scope_barrier-placement :
        (f : File) (id : Str)
        → clear_scope_barrier f (scope_of tenant bucket) id ≡ clear_barrier f tenant bucket id
    unfolding clear_scope_barrier trim_prefix has_prefix
    clear_scope_barrier-placement f id =
        ap
          (λ (k : Str × Str).
            if is_empty k.0
            then err Err.not_found
            else if is_empty k.1
            then err Err.not_found
            else clear_barrier f k.0 k.1 id)
          (split_key-placement_key tenant bucket t)
        ∙ ground (arith, nt, nb)

    -- A commit that is written found the barrier, and takes it off.
    pub read_only_commit-switch :
        (f g : File) (id : Str)
        → read_only_commit f (scope_of tenant bucket) id ≡ Commit.committed g
        → (lacks (read_only_switch f (scope_of tenant bucket)).barrier id ≡ false)
          × (read_only_switch g (scope_of tenant bucket)
              ≡ record (read_only_switch f (scope_of tenant bucket)) { barrier = none })
    unfolding read_only_commit switch_at
    read_only_commit-switch f g id e =
        elim (Bool-cases (lacks (read_only_switch f (scope_of tenant bucket)).barrier id)) [
          | inl l ↦ absurd (ground (arith, e, l))
          | inr l ↦ elim (Result-cases (clear_scope_barrier f (scope_of tenant bucket) id)) [
            | inr (x, c) ↦ absurd (ground (arith, e, l, c))
            | inl (h, c) ↦
                let same : h ≡ g = ground (arith, e, l, c) in
                let (p, before, carried, after) =
                  clear_barrier-switch f h id (sym (clear_scope_barrier-placement f id) ∙ c) in
                (
                  l,
                  ap (λ x. read_only_switch x (scope_of tenant bucket)) (sym same)
                      ∙ after
                      ∙ ap without_barrier (sym before),
                )
          ]
        ]

    pub release-switch :
        (f g : File) (id : Str) (read_only reject : Bool)
        → release_read_only f (scope_of tenant bucket) id read_only reject ≡ ok g
        → (lacks (read_only_switch f (scope_of tenant bucket)).barrier id ≡ false)
          × (read_only_switch g (scope_of tenant bucket)
              ≡ record { read_only = read_only; reject = read_only && reject; barrier = none })
    unfolding release_read_only trim_prefix has_prefix placement_at switch_at
    release-switch f g id read_only reject e =
        elim (Option-cases (get f.placements (placement_key tenant bucket))) [
          | inl d ↦ absurd (ground (arith, e, d))
          | inr (p, d) ↦
              let np : Placement = record p {
                read_only = read_only;
                reject_writes = read_only && reject;
                barrier = none;
              } in
              let made : g ≡ set_placement f (placement_key tenant bucket) np =
                ground (arith, e, d) in
              (
                ap (λ s. lacks s.barrier id) (read_only_switch-placement f ∙ ap switch_at d)
                    ∙ ground (arith, e, d),
                ap (λ x. read_only_switch x (scope_of tenant bucket)) made
                    ∙ switch-set_placement f np,
              )
        ]

    -- A release that finds the hold cleared meanwhile.
    pub release-lacks :
        (f : File) (id : Str) (read_only reject : Bool) (x : Err)
        → release_read_only f (scope_of tenant bucket) id read_only reject ≡ err x
        → cleared_meanwhile x ≡ true
        → lacks (read_only_switch f (scope_of tenant bucket)).barrier id ≡ true
    unfolding release_read_only trim_prefix has_prefix placement_at cleared_meanwhile switch_at
    release-lacks f id read_only reject x e c =
        elim (Option-cases (get f.placements (placement_key tenant bucket))) [
          | inl d ↦ absurd (ground (arith, e, d, c))
          | inr (p, d) ↦
              ap (λ s. lacks s.barrier id) (read_only_switch-placement f ∙ ap switch_at d)
              ∙ ground (arith, e, d)
        ]
