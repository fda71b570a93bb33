-- ===== src/Base/Loop.antt =====
-- A `while` loop that runs on fuel, and the rules for its invariants.
use Prim.Native.Nat.{ℕ, zero, suc, ◌<◌}
use mathlib.Core.Path.{◌≡◌}
use mathlib.Core.Bool.{Bool, true, false}
use native.Mathlib.Omega.{arith}

unfoldable pub while {ℓ} : {S : Type ℓ} (rounds : ℕ) (cond : S → Bool) (step : S → S) → S → S
while zero cond step now = now
while (suc rounds) cond step now = elim (cond now) [
  | false ↦ now
  | true ↦ while rounds cond step (step now)
]

module _ {ℓ κ} {S : Type ℓ} (Inv : S → Type κ) where
  -- The loop has ended by its condition.
  abbrev pub Ended : (S → Bool) → S → Type κ
  Ended cond end = Inv end × (cond end ≡ false)

  -- If each round keeps the invariant and lowers the rank, then fuel above the rank brings the loop to
  -- its end.
  pub while_inv :
      (rank : S → ℕ) (cond : S → Bool) (step : S → S)
      (round : (now : S)
        → Inv now
        → cond now ≡ true
        → Inv (step now) × (rank (step now) < rank now))
      (rounds : ℕ) (now : S) (enough : rank now < rounds) (holds : Inv now)
      → Ended cond (while rounds cond step now)
  unfolding while
  while_inv rank cond step round zero now enough holds = absurd (omega arith)
  while_inv rank cond step round (suc rounds) now enough holds =
      let next = while_inv rank cond step round rounds (step now) in
      ground (arith, round now holds, next)

  -- What every round keeps, a loop keeps, on any fuel.
  pub while_keeps :
      (cond : S → Bool) (step : S → S)
      (round : (now : S) → Inv now → cond now ≡ true → Inv (step now)) (rounds : ℕ) (now : S)
      (holds : Inv now)
      → Inv (while rounds cond step now)
  unfolding while
  while_keeps cond step round zero now holds = holds
  while_keeps cond step round (suc rounds) now holds =
      let next = while_keeps cond step round rounds (step now) in
      ground (arith, round now holds, next)
