-- ===== src/Control/Runs/Rounds.antt =====
-- internal/control/barrier.go: how long blockUntil waits.
use shunt.Base.{
  ℕ, zero, suc, ◌<◌, ◌≡◌, inl, inr, true, false, none, List, null, Result, ok, arith, Bool-cases,
  Option-cases,
}
use shunt.Control.{Blocker, Fail}
use shunt.Control.Runs.{Calls, evaluate, block_until}

module _ {W : Type 0} (c : Calls W) (eval : W → Result Fail (List Blocker) × W) where
  -- The world in which an evaluation finds no blocker, `k` rounds after a world, each of which found some
  -- and slept; at every round the node still owns the record.
  pub data Clears : ℕ → W → W → Type 0 where
    clear :
        {w w' : W}
        → c.check w ≡ none
        → null (evaluate c eval w).0 ≡ true
        → w' ≡ (evaluate c eval w).1
        → Clears zero w w'
    later :
        {k : ℕ} {w w' : W}
        → c.check w ≡ none
        → null (evaluate c eval w).0 ≡ false
        → (c.sleep (evaluate c eval w).1).0 ≡ true
        → Clears k (c.sleep (evaluate c eval w).1).1 w'
        → Clears (suc k) w w'

  -- A wait that ends well ends where an evaluation found no blocker.
  pub block_until-Clears :
      (n : ℕ) (w w' : W) → block_until c n eval w ≡ (ok tt, w') → (k : ℕ) × (k < n) × Clears k w w'
  unfolding block_until
  block_until-Clears zero w w' e = absurd (ground (arith, e))
  block_until-Clears (suc n) w w' e = elim (Option-cases (c.check w)) [
    | inr (x, own) ↦ absurd (ground (arith, e, own))
    | inl own ↦ elim (Bool-cases (null (evaluate c eval w).0)) [
      | inl b ↦ (zero, omega arith, clear own b (ground (arith, e, own, b)))
      | inr b ↦ elim (Bool-cases (c.sleep (evaluate c eval w).1).0) [
        | inr s ↦ absurd (ground (arith, e, own, b, s))
        | inl s ↦
            let (k, lt, cl) =
              block_until-Clears n (c.sleep (evaluate c eval w).1).1 w'
                (ground (arith, e, own, b, s)) in
            (suc k, omega (arith, lt), later own b s cl)
      ]
    ]
  ]
