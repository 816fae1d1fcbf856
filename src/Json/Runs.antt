-- ===== src/Json/Runs.antt =====
-- Runs of the parser's loop, as a relation.
use mathlib.Core.Path.{subst}
use nson.Prelude.{ℕ, zero, suc, ◌<◌, ◌≡◌, ◌⊎◌, true, false, some, length, arith, inl, inr}
use nson.Json.Parser.{State, step, again, loop, finished}
use nson.Json.Termination.{step_lt}
use nson.Util.Number.{Double}

module _ (d : Double) where
  -- The loop that stands before a round in `s` ends in `t`.
  pub data Runs : State → State → Type 0 where
    ends : {s t : State} → step d s ≡ some t → again t ≡ false → Runs s t
    goes : {s t u : State} → step d s ≡ some t → again t ≡ true → Runs t u → Runs s u

  -- The loop ends in `u` when its condition is tested in `t`.
  abbrev pub Continues : State → State → Type 0
  Continues t u = ((t ≡ u) × (again t ≡ false)) ⊎ ((again t ≡ true) × Runs t u)

  -- A round, and the loop from there.
  pub Runs-step : {s t u : State} → step d s ≡ some t → Continues t u → Runs s u
  Runs-step e (inl (same, stop)) = subst (Runs _) same (ends e stop)
  Runs-step e (inr (go, r)) = goes e go r

  pub loop-Runs :
      {s t : State} → Runs s t → (fuel : ℕ) → length s.rest < fuel → loop d fuel s ≡ finished t
  unfolding loop
  loop-Runs r zero h = absurd (omega arith)
  loop-Runs (ends {s} {t} e stop) (suc fuel) h = rw (e, loop) (rw stop)
  loop-Runs (goes {s} {t} e go r) (suc fuel) h =
      rw (e, loop) (rw go (loop-Runs r fuel (omega (arith, step_lt d s t e))))
