-- ===== src/Prober/Cycle/Permits.antt =====
-- The semaphore of `run_once` in src/prober/reconcile.rs, over every order in which its tasks end.
use accelrd.Prelude.{
  ℕ, zero, suc, ◌+◌, ◌*◌, ◌<◌, ◌≡◌, refl, ◌⊎◌, inl, inr, List, [], ◌∷◌, ◌++◌, length, length-append,
  arith,
}
use accelrd.Prober.Cycle.{Due, Tasks, start, Step, Reach}

-- No task is left.
pub record IsDone (s : Tasks) : Type 0 where
  pub none_waiting : s.waiting ≡ []
  pub none_running : s.running ≡ []

-- The permits add up, and no probe is lost.
pub record IsKept (max_concurrent : ℕ) (due : List Due) (s : Tasks) : Type 0 where
  pub permits_add_up : length s.running + s.permits ≡ max_concurrent
  pub probes_add_up : length s.waiting + length s.running + length s.finished ≡ length due

-- The steps that are left: two for each probe that waits, one for each that runs.
abbrev pub left : Tasks → ℕ
left s = 2 * length s.waiting + length s.running

length-remove :
    (before after : List Due) (p : Due)
    → length (before ++ p ∷ after) ≡ suc (length (before ++ after))
length-remove before after p =
    omega (arith, length-append before (p ∷ after), length-append before after)

Step-IsKept :
    (n : ℕ) (due : List Due) (s t : Tasks)
    → Step s t
    → IsKept n due s
    → IsKept n due t × (suc (left t) ≡ left s)
Step-IsKept n due _ _ (Step.spawn p w r f k) h =
    let q = h.permits_add_up in
    let e = h.probes_add_up in
    (record { permits_add_up = omega arith; probes_add_up = omega arith }, omega arith)
Step-IsKept n due _ _ (Step.finish p w b a f k) h =
    let q = h.permits_add_up in
    let e = h.probes_add_up in
    let m = length-remove b a p in
    (record { permits_add_up = omega arith; probes_add_up = omega arith }, omega arith)

-- In every state that a cycle over the probes `due` reaches with `n` permits, the running probes and the free permits add up to `n`, and the
-- waiting, running and finished probes to those that were due.
pub Reach-IsKept : (n : ℕ) (due : List Due) (s : Tasks) → Reach (start n due) s → IsKept n due s
unfolding start
Reach-IsKept n due _ Reach.here = record {
  permits_add_up = omega arith;
  probes_add_up = omega arith;
}
Reach-IsKept n due _ (Reach.later {s} {t} r h) =
    (Step-IsKept n due s t h (Reach-IsKept n due s r)).0

-- Either the cycle is done, or a step is possible.
goes_on :
    (w r f : List Due) (k : ℕ)
    → let s : Tasks = record { waiting = w; running = r; finished = f; permits = k } in
      0 < length r + k → IsDone s ⊎ ((t : Tasks) × Step s t)
goes_on w (p ∷ r) f k h = inr (_, Step.finish p w [] r f k)
goes_on [] [] f k h = inl (record { none_waiting = refl; none_running = refl })
goes_on (p ∷ w) [] f (suc k) h = inr (_, Step.spawn p w [] f k)
goes_on (p ∷ w) [] f zero h = absurd (omega arith)

-- With at least one permit, every state that a cycle reaches is done or has a further step, and each step from it lowers the number of steps that are left
-- by one: two for each waiting probe and one for each running one. So every order in which the probes end finishes the cycle.
pub Reach-ends :
    (n : ℕ) (due : List Due) (s : Tasks)
    → 0 < n
    → Reach (start n due) s
    → (IsDone s ⊎ ((t : Tasks) × Step s t)) × ((t : Tasks) → Step s t → suc (left t) ≡ left s)
Reach-ends n due s pos r =
    let h = Reach-IsKept n due s r in
    let q = h.permits_add_up in
    (
      goes_on s.waiting s.running s.finished s.permits (omega arith),
      λ t step. (Step-IsKept n due s t step h).1,
    )
