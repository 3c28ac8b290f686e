-- ===== src/Prelude/Results.antt =====
-- `anyhow::Result`: an error carries the text that `format!("{e}")` prints, which is the outermost
-- context.
use mathlib.Core.Option.{Option, none, some}
use accelrd.Prelude.Texts.{Text}

pub data Result {ℓ} (A : Type ℓ) : Type ℓ where
  ok : A → Result A
  err : Text → Result A

module _ {ℓ} {A : Type ℓ} where
  -- `.context(..)` on an option and on a result.
  abbrev pub context_option : Text → Option A → Result A
  context_option c none = err c
  context_option c (some a) = ok a

  abbrev pub context : Text → Result A → Result A
  context c (ok a) = ok a
  context c (err _) = err c
