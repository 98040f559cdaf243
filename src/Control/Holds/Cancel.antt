-- ===== src/Control/Holds/Cancel.antt =====
-- internal/control/barrier.go: how a cancellation that ended its record and the commits of the same change
-- come out, for a placement's read-only change.
use shunt.Base.{
  ℕ, suc, ◌+◌, ◌<◌, ◌≡◌, ◌⊎◌, inl, inr, refl, sym, ap, ◌∙◌, Str, is_empty, true, false, ◌&&◌, none,
  some, ok, Result-cases, arith, Bool-cases,
}
use shunt.Directory.File.{File, lacks}
use shunt.Directory.File.Switches.{release_read_only}
use shunt.Control.{OpKind, BarrierState, Operation}
use shunt.Control.Holds.{
  carries_barrier, prior_of, release_by_kind, release_hold, cleared_meanwhile, CancelEnd,
  without_hold, end_release, end_cancel, Switch, read_only_switch,
}
use shunt.Control.Holds.Race.{
  scope_of, slashless, Meanwhile, still, commits, elsewhere, without_barrier,
  carries_barrier-switch, read_only_commit-switch, release-switch, release-lacks,
}

-- The switch that a cancellation puts back.
abbrev pub prior_switch : BarrierState → Switch
prior_switch b = record {
  read_only = (prior_of b.prior).read_only;
  reject = (prior_of b.prior).read_only && (prior_of b.prior).reject;
  barrier = none;
}

module _ (tenant bucket : Str) (t : slashless tenant ≡ true) (nt : is_empty tenant ≡ false)
    (nb : is_empty bucket ≡ false) where
  abbrev scope : Str
  scope = scope_of tenant bucket

  -- The barrier stays until it is committed, and is committed once.
  Meanwhile-once :
      (id : Str) (f : File) {n : ℕ} {g : File}
      → Meanwhile scope id f n g
      → ((n ≡ 0) × (read_only_switch g scope ≡ read_only_switch f scope))
        ⊎ ((n ≡ 1)
            × (lacks (read_only_switch f scope).barrier id ≡ false)
            × (read_only_switch g scope ≡ without_barrier (read_only_switch f scope)))
  unfolding lacks
  Meanwhile-once id f still = inl (refl, refl)
  Meanwhile-once id f (elsewhere m e) = elim (Meanwhile-once id f m) [
    | inl (n, s) ↦ inl (n, e ∙ s)
    | inr (n, l, s) ↦ inr (n, l, e ∙ s)
  ]
  Meanwhile-once id f (commits {n} {g} {h} m e) =
      let (held, after) = read_only_commit-switch tenant bucket t nt nb g h id e in
      elim (Meanwhile-once id f m) [
        | inl (z, s) ↦
            inr
              (ap suc z, sym (ap (λ x. lacks x.barrier id) s) ∙ held, after ∙ ap without_barrier s)
        | inr (z, l, s) ↦
            let gone : lacks (read_only_switch g scope).barrier id ≡ true =
              ap (λ x. lacks x.barrier id) s in
            absurd (ground (arith, gone, held))
      ]

  -- A hold that is found at the end was there all along.
  Meanwhile-held :
      (id : Str) (f : File) {n : ℕ} {g : File}
      → Meanwhile scope id f n g
      → lacks (read_only_switch g scope).barrier id ≡ false
      → (n ≡ 0) × (read_only_switch g scope ≡ read_only_switch f scope)
  unfolding lacks
  Meanwhile-held id f {n} {g} m h = elim (Meanwhile-once id f m) [
    | inl same ↦ same
    | inr (z, l, s) ↦
        let gone : lacks (read_only_switch g scope).barrier id ≡ true =
          ap (λ x. lacks x.barrier id) s in
        absurd (ground (arith, gone, h))
  ]

  Meanwhile-join :
      (id : Str) {f g : File} {n m : ℕ} {h : File}
      → Meanwhile scope id f n g
      → Meanwhile scope id g m h
      → (k : ℕ) × (k ≡ n + m) × Meanwhile scope id f k h
  Meanwhile-join id {n = n} before still = (n, omega arith, before)
  Meanwhile-join id before (commits m e) =
      let (k, sum, all) = Meanwhile-join id before m in (suc k, omega (arith, sum), commits all e)
  Meanwhile-join id before (elsewhere m e) =
      let (k, sum, all) = Meanwhile-join id before m in (k, sum, elsewhere all e)

  module _ (op : Operation) (b : BarrierState) (kind : op.kind ≡ OpKind.placement_read_only)
      (has : op.barrier ≡ some b) (at_scope : b.scope ≡ scope) (held : 0 < b.hold_version) where
    release_hold-release :
        (f : File)
        → release_hold f op
          ≡ release_read_only f scope b.id (prior_of b.prior).read_only (prior_of b.prior).reject
    unfolding release_hold release_by_kind
    release_hold-release f =
        rw (has, release_hold)
          (rw (kind, release_by_kind)
            (ap
              (λ s.
                release_read_only f s b.id (prior_of b.prior).read_only (prior_of b.prior).reject)
              at_scope))

    end_cancel-canceled :
        (seen now done : File)
        → end_cancel seen now op ≡ (CancelEnd.canceled, done)
        → release_hold now op ≡ ok done
    unfolding end_cancel end_release without_hold
    end_cancel-canceled seen now done e = elim (Result-cases (release_hold now op)) [
      | inl (g, r) ↦ r ∙ ground (arith, e, r, has, held)
      | inr (x, r) ↦ absurd (ground (arith, e, r, has, held))
    ]

    end_cancel-committed_first :
        (seen now done : File)
        → end_cancel seen now op ≡ (CancelEnd.committed_first, done)
        → (now ≡ done)
          × ((lacks (read_only_switch seen scope).barrier b.id ≡ true)
              ⊎ (lacks (read_only_switch now scope).barrier b.id ≡ true))
    unfolding end_cancel end_release without_hold
    end_cancel-committed_first seen now done e =
        elim (Bool-cases (carries_barrier seen b.scope b.id)) [
          | inr c ↦ (
            ground (arith, e, c, has, held),
            inl (
                ground (
                  arith,
                  c,
                  at_scope,
                  ap (λ s. carries_barrier seen s b.id) at_scope,
                  carries_barrier-switch tenant bucket seen b.id t,
                )),
          )
          | inl c ↦ elim (Result-cases (release_hold now op)) [
            | inl (g, r) ↦ absurd (ground (arith, e, r, c, has, held))
            | inr (x, r) ↦ elim (Bool-cases (cleared_meanwhile x)) [
              | inr f ↦ absurd (ground (arith, e, r, c, f, has, held))
              | inl f ↦ (
                ground (arith, e, r, c, f, has, held),
                inr (
                    release-lacks tenant bucket t nt nb now b.id _ _ x
                      (sym (release_hold-release now) ∙ r) f),
              )
            ]
          ]
        ]

    -- When a cancellation of a change whose hold was written ends canceled, the change was never
    -- committed, before the cancellation, during it or after it, by any owner, and the switch is what it
    -- was before the change.
    pub canceled_never_committed :
        {f seen now done after : File} {n1 n2 n3 : ℕ}
        → Meanwhile scope b.id f n1 seen
        → Meanwhile scope b.id seen n2 now
        → end_cancel seen now op ≡ (CancelEnd.canceled, done)
        → Meanwhile scope b.id done n3 after
        → (n1 + n2 + n3 ≡ 0) × (read_only_switch after scope ≡ prior_switch b)
    unfolding lacks
    canceled_never_committed {f} {seen} {now} {done} {after} m1 m2 e m3 =
        let (carried, restored) =
          release-switch tenant bucket t nt nb now done b.id _ _
            (sym (release_hold-release now) ∙ end_cancel-canceled seen now done e) in
        let (z2, s2) = Meanwhile-held b.id seen m2 carried in
        let (z1, s1) =
          Meanwhile-held b.id f m1 (sym (ap (λ x. lacks x.barrier b.id) s2) ∙ carried) in
        elim (Meanwhile-once b.id done m3) [
          | inl (z3, s3) ↦ (ground (arith, z1, z2, z3), s3 ∙ restored)
          | inr (z3, l, s3) ↦
              let gone : lacks (read_only_switch done scope).barrier b.id ≡ true =
                ap (λ x. lacks x.barrier b.id) restored in
              absurd (ground (arith, gone, l))
        ]

    -- When it ends by correcting the record, the change was committed, exactly once, and is in force: the
    -- switch stands as the hold set it, without the barrier.
    pub corrected_is_committed :
        {f seen now done : File} {n1 n2 : ℕ}
        → lacks (read_only_switch f scope).barrier b.id ≡ false
        → Meanwhile scope b.id f n1 seen
        → Meanwhile scope b.id seen n2 now
        → end_cancel seen now op ≡ (CancelEnd.committed_first, done)
        → (n1 + n2 ≡ 1) × (read_only_switch done scope ≡ without_barrier (read_only_switch f scope))
    unfolding lacks
    corrected_is_committed {f} {seen} {now} {done} {n1} {n2} carried m1 m2 e =
        let (same, cleared) = end_cancel-committed_first seen now done e in
        let (k, sum, all) = Meanwhile-join b.id m1 m2 in
        elim (Meanwhile-once b.id f all) [
          | inr (one, l, s) ↦
              (omega (arith, one, sum), ap (λ x. read_only_switch x scope) (sym same) ∙ s)
          | inl (z, s) ↦
              let still_on : lacks (read_only_switch now scope).barrier b.id ≡ false =
                ap (λ x. lacks x.barrier b.id) s ∙ carried in
              let before = (Meanwhile-held b.id seen m2 still_on).1 in
              let was_on : lacks (read_only_switch seen scope).barrier b.id ≡ false =
                sym (ap (λ x. lacks x.barrier b.id) before) ∙ still_on in
              absurd (ground (arith, cleared, still_on, was_on))
        ]
