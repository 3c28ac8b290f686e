-- ===== src/Preflight/Aggregate.antt =====
-- What the verdict of a cycle says of its outcomes.
use accelrd.Prelude.{◌≡◌, ◌≢◌, refl, ◌↔◌, true, false, List, [], ◌∷◌, arith, any, All}
use accelrd.Preflight.{
  Status, pass, warn, fail, skipped, ready, degraded, not_ready, unknown, is_bad, is_pass,
  aggregate,
}

none_of_quiet :
    (l : List Status) → any is_bad l ≡ false → any is_pass l ≡ false → All (λ s. s ≡ skipped) l
none_of_quiet [] b p = tt
none_of_quiet (pass ∷ l) b p = absurd (cc)
none_of_quiet (warn ∷ l) b p = absurd (cc)
none_of_quiet (fail ∷ l) b p = absurd (cc)
none_of_quiet (skipped ∷ l) b p = (refl, none_of_quiet l b p)

quiet_of_skipped :
    (l : List Status) → All (λ s. s ≡ skipped) l → (any is_bad l ≡ false) × (any is_pass l ≡ false)
quiet_of_skipped [] h = (refl, refl)
quiet_of_skipped (s ∷ l) h = ground (arith, quiet_of_skipped l h.1)

-- The verdict is `Degraded` exactly when some outcome is a failure or a warning, `Ready` exactly
-- when none is and some check passed, `Unknown` exactly when every outcome is `Skipped`, and never
-- `NotReady`.
pub aggregate_cases :
    (l : List Status)
    → ((aggregate l ≡ degraded) ↔ (any is_bad l ≡ true))
      × ((aggregate l ≡ ready) ↔ (any is_bad l ≡ false) × (any is_pass l ≡ true))
      × ((aggregate l ≡ unknown) ↔ All (λ s. s ≡ skipped) l)
      × (aggregate l ≢ not_ready)
unfolding aggregate
aggregate_cases l = (
  (λ e. ground arith, λ e. ground arith),
  (λ e. ground arith, λ e. ground arith),
  (λ e. none_of_quiet l (ground arith) (ground arith), λ h. ground (arith, quiet_of_skipped l h)),
  λ e. ground arith,
)
