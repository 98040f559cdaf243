-- ===== src/Control/Node/Later.antt =====
-- internal/control/operation.go: what a tracker's writes leave alone.
use shunt.Base.{◌≤◌, ◌≡◌, refl, Str, List, arith}
use shunt.Control.{Phase, Action, Blocker, Operation}
use shunt.Control.Store.{Setup}
use shunt.Control.Tracker.{blocked_edit}
use shunt.Control.Node.{Node, Around, saved, phase, blocked, allow}

-- A write of the record leaves the directory, and takes a call.
abbrev pub Kept : Node → Node → Type 0
Kept w w' = (w'.file ≡ w.file) × (w.at ≤ w'.at)

module _ (sha256_hex : Str → Str) (setup : Setup) (around : Around) where
  pub saved-Kept :
      (edit : Operation → Operation) (w : Node) → Kept w (saved sha256_hex setup around edit w)
  unfolding saved
  saved-Kept edit w = (refl, omega arith)

  pub phase-Kept : (p : Phase) (w : Node) → Kept w (phase sha256_hex setup around p w)
  unfolding phase
  phase-Kept p w =
      let (f, t) = saved-Kept (λ op. record op { phase = p }) w in
      (ground (arith, f), ground (arith, t))

  pub blocked-Kept : (bs : List Blocker) (w : Node) → Kept w (blocked sha256_hex setup around bs w)
  unfolding blocked
  blocked-Kept bs w =
      let (f, t) = saved-Kept (blocked_edit bs) w in (ground (arith, f), ground (arith, t))

  pub allow-Kept :
      (actions : List Action) (w : Node) → Kept w (allow sha256_hex setup around actions w)
  unfolding allow
  allow-Kept actions w =
      let (f, t) = saved-Kept (λ op. record op { allowed_actions = actions }) w in
      (ground (arith, f), ground (arith, t))
