-- ===== src/Preflight/Health/Registry.antt =====
-- The cycle of src/telemetry/preflight.rs with the checks of `default_registry`.
use accelrd.Prelude.{
  ℕ, ◌≡◌, refl, ◌∙◌, ap, sym, Bool, true, List, [], ◌∷◌, ◌++◌, some, Text, text_ord, any, map,
  count_if, ltb, if◌then◌else◌, arith,
}
use accelrd.Prelude.Dict.{get}
use accelrd.Sensors.{Accelerator, Floats}
use accelrd.Sensors.Sysfs.{Fs}
use accelrd.Topology.LabelSet.{LabelSet}
use accelrd.Preflight.{Status, label_value, degraded, ready, is_bad, is_pass, aggregate}
use accelrd.Preflight.Cycle.{run_cycle, inference_key, training_key}
use accelrd.Preflight.Publishing.{matrix, outcomes_of, run_cycle-matrix}
use accelrd.Preflight.Health.{Check, default_registry, without_measurements, always_pass}

any-append : (p : Status → Bool) (xs ys : List Status) → any p ys ≡ true → any p (xs ++ ys) ≡ true
any-append p [] ys h = h
any-append p (x ∷ xs) ys h = ground (arith, any-append p xs ys h)

any-count_if : (p : Status → Bool) (l : List Status) → ltb 0 (count_if p l) ≡ any p l
any-count_if p [] = refl
any-count_if p (x ∷ l) = ground (arith, any-count_if p l)

aggregate-count_if :
    (l : List Status)
    → any is_pass l ≡ true
    → aggregate l ≡ (if ltb 0 (count_if is_bad l) then degraded else ready)
unfolding aggregate
aggregate-count_if l h = rw (any-count_if is_bad l, h) refl

-- The placeholder check stands last.
data Ends (F64 : Type 0) : List (Check F64) → Type 0 where
  last : Ends F64 (always_pass ∷ [])
  next : (c : Check F64) (cs : List (Check F64)) → Ends F64 cs → Ends F64 (c ∷ cs)

-- It passes on the first card.
passes_at_end :
    {F64 : Type 0} (a : Accelerator) (rest : List Accelerator) (checks : List (Check F64))
    → Ends F64 checks
    → any is_pass (matrix (a ∷ rest) (map without_measurements checks)) ≡ true
unfolding always_pass
passes_at_end a rest _ Ends.last = refl
passes_at_end a rest _ (Ends.next c cs h) =
    any-append is_pass (outcomes_of (a ∷ rest) (without_measurements c) c.scope)
      (matrix (a ∷ rest) (map without_measurements cs)) (passes_at_end a rest cs h)

module _ {F64 : Type 0} (fs : Fs) (f : Floats F64) where
  passes :
      (a : Accelerator) (rest : List Accelerator)
      → any is_pass (matrix (a ∷ rest) (map without_measurements (default_registry fs f))) ≡ true
  unfolding default_registry
  passes a rest = passes_at_end a rest (default_registry fs f) (
      Ends.next _ _ (
        Ends.next _ _ (
          Ends.next _ _ (Ends.next _ _ (Ends.next _ _ (Ends.next _ _ (Ends.next _ _ Ends.last)))))))

  -- With the default checks a node that has a card is never labeled unknown: whatever the files hold, both readiness labels
  -- that the cycle hands to the labeler say degraded if it counts a failed check, and ready if it counts none, and so do both
  -- verdicts that it returns.
  pub run_cycle-default_registry :
      (show_index : ℕ → Text) (a : Accelerator) (rest : List Accelerator) (base : LabelSet)
      (now : Text)
      → let done =
          run_cycle show_index
            (map without_measurements (default_registry fs f))
            (a ∷ rest)
            base
            now in
        let verdict = if ltb 0 done.0.failed then degraded else ready in
        (get inference_key done.1.labels ≡ some (label_value verdict))
        × (get training_key done.1.labels ≡ some (label_value verdict))
        × (done.0.inference ≡ verdict)
        × (done.0.training ≡ verdict)
  run_cycle-default_registry show_index a rest base now =
      let checks = map without_measurements (default_registry fs f) in
      let (ran, failed, inference, training, i, t) =
        run_cycle-matrix show_index checks (a ∷ rest) base now in
      let e =
        aggregate-count_if _ (passes a rest)
        ∙ ap (λ n. if ltb 0 n then degraded else ready) (sym failed) in
      (
        i ∙ ap (λ v. some (label_value v)) e,
        t ∙ ap (λ v. some (label_value v)) e,
        inference ∙ e,
        training ∙ e,
      )
