-- ===== src/Preflight/Health/Disks.antt =====
-- The check of the free disk space in src/preflight/health.rs.
use accelrd.Prelude.{
  ℕ, ◌≡◌, refl, ◌∙◌, List, [], ◌∷◌, none, some, Text, any, keep, foldl, leb, ltb, if◌then◌else◌,
  arith, codes, ◌||◌, Bool-cases, inl, inr,
}
use accelrd.Sensors.{Measurement, Floats}
use accelrd.Sensors.Sysfs.{Fs}
use accelrd.Preflight.{Status, pass, fail, skipped}
use accelrd.Preflight.Health.{named, better, best_mount, disk_free_on, judge_floor}

module _ {F64 : Type 0} (fs : Fs) (f : Floats F64) where
  -- The check by what it is for: some disk has the space.
  abbrev pub some_disk : (floor : ℕ) → List (Measurement F64) → Status
  some_disk floor [] = skipped
  some_disk floor (m ∷ ms) = if any (λ d. leb floor (f.to_nat d.value)) (m ∷ ms) then pass else fail

  -- The same, given the best disk so far.
  abbrev from_best : (floor : ℕ) → (bytes : ℕ) → List (Measurement F64) → Status
  from_best floor bytes ms =
      if leb floor bytes || any (λ d. leb floor (f.to_nat d.value)) ms then pass else fail

  foldl-from_best :
      (floor : ℕ) (ms : List (Measurement F64)) (mount : Text) (bytes : ℕ)
      → (disk_free_on fs f floor (foldl (better fs f) (some (mount, bytes)) ms)).outcome.status
        ≡ from_best floor bytes ms
  unfolding disk_free_on judge_floor better
  foldl-from_best floor [] mount bytes = ground arith
  foldl-from_best floor (m ∷ ms) mount bytes = elim (Bool-cases (ltb bytes (f.to_nat m.value))) [
    | inl e ↦ rw e (foldl-from_best floor ms _ (f.to_nat m.value) ∙ ground arith)
    | inr e ↦ rw e (foldl-from_best floor ms mount bytes ∙ ground arith)
  ]

  foldl-some_disk :
      (floor : ℕ) (ms : List (Measurement F64))
      → (disk_free_on fs f floor (foldl (better fs f) none ms)).outcome.status ≡ some_disk floor ms
  unfolding better disk_free_on
  foldl-some_disk floor [] = refl
  foldl-some_disk floor (m ∷ ms) = foldl-from_best floor ms _ (f.to_nat m.value)

  -- Among the readings of a snapshot the check finds a disk with the space exactly when there is one: it passes if
  -- some mount has that many bytes free, fails if none has, and is skipped if no mount was read.
  pub disk_free_on-best_mount :
      (floor : ℕ) (snap : List (Measurement F64))
      → (disk_free_on fs f floor (best_mount fs f snap)).outcome.status
        ≡ some_disk floor (keep (named fs f (codes "host.disk.free_bytes")) snap)
  unfolding best_mount
  disk_free_on-best_mount floor snap =
      foldl-some_disk floor (keep (named fs f (codes "host.disk.free_bytes")) snap)
