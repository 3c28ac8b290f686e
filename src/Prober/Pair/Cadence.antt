-- ===== src/Prober/Pair/Cadence.antt =====
-- The cadence guard of src/prober/pair.rs on the time stamps of src/time.rs.
use accelrd.Prelude.{
  ℕ, ◌≡◌, ◌<◌, ◌≤◌, ◌+◌, ◌-◌, min, ◌∙◌, leb, some, Text, cmp_text, compare, Bool-cases, inl, inr,
  arith, refl,
}
use accelrd.Prelude.Int.{pos, minus_i64-pos}
use accelrd.Time.{rfc3339_at, now_minus_secs, now_rfc3339}
use accelrd.Time.Order.{four_digits, cmp_text-rfc3339_at}
use accelrd.Prober.Pair.{within_cadence}

-- The guard on texts that compare as numbers do.
within_cadence-compare :
    (cutoff a b : ℕ) (c s t : Text)
    → cmp_text s t ≡ compare a b
    → cmp_text s c ≡ compare a cutoff
    → cmp_text t c ≡ compare b cutoff
    → within_cadence c (some s) (some t) ≡ leb cutoff (min a b)
within_cadence-compare cutoff a b c s t e f g = elim (Bool-cases (leb a b)) [
  | inl h ↦ rw (e, h, f) (ground arith)
  | inr h ↦ rw (e, h, g) (ground arith)
]

now_minus_secs-rfc3339_at :
    (now secs : ℕ)
    → secs ≤ now
    → now < four_digits
    → now_minus_secs now secs ≡ rfc3339_at (pos (now - secs))
unfolding now_minus_secs
now_minus_secs-rfc3339_at now secs h k = rw (minus_i64-pos now secs h (omega arith)) refl

-- Between the epoch and the year 10000, the guard skips a pair that was probed at `a` and `b` seconds
-- exactly when neither probe is more than `cadence` seconds old.
pub within_cadence-now_minus_secs :
    (now cadence a b : ℕ)
    → cadence ≤ now
    → now < four_digits
    → a < four_digits
    → b < four_digits
    → within_cadence (now_minus_secs now cadence) (some (now_rfc3339 a)) (some (now_rfc3339 b))
      ≡ leb now (min a b + cadence)
unfolding now_rfc3339
within_cadence-now_minus_secs now cadence a b h k l m =
    rw (now_minus_secs-rfc3339_at now cadence h k) (
      within_cadence-compare (now - cadence) a b _ _ _ (cmp_text-rfc3339_at a b l m)
        (cmp_text-rfc3339_at a (now - cadence) l (omega arith))
        (cmp_text-rfc3339_at b (now - cadence) m (omega arith))
      ∙ ground arith)
